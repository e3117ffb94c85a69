-- ===== src/Cron.antt =====
-- The cron library that the scheduler calls, as an interface: the entries that are registered, each
-- with the job that it runs.
use smarthome_backend.Prelude.{
  ℕ, String, ◌≡◌, ◌==◌, nat_Eq, Bool, true, false, Option, none, some, if◌then◌else◌,
}

-- What a registered function enqueues, and for which schedule.
pub record Job : Type 0 where
  pub rule_id : String
  pub schedule_id : String

pub record Cron : Type 1 where
  pub State : Type 0
  -- AddFunc: the new entry's ID, or none if the expression does not parse
  pub add : State → String → Job → Option ℕ × State
  -- Remove
  pub remove : State → ℕ → State
  -- the job of an entry that is registered
  pub live : State → ℕ → Option Job
  -- whether an expression parses
  pub is_valid : String → Bool

-- What the library documents: IDs are not used again while they are registered, and an expression
-- that does not parse changes nothing.
pub record Registers (C : Cron) : Type 1 where
  pub add_valid :
      (s : C.State) (spec : String) (job : Job)
      → C.is_valid spec ≡ true
      → (id : ℕ) × ((C.add s spec job).0 ≡ some id)
        × (C.live s id ≡ none)
        × ((j : ℕ) → C.live (C.add s spec job).1 j ≡ (if id == j then some job else C.live s j))
  pub add_invalid :
      (s : C.State) (spec : String) (job : Job)
      → C.is_valid spec ≡ false
      → C.add s spec job ≡ (none, s)
  pub live-remove :
      (s : C.State) (id j : ℕ) → C.live (C.remove s id) j ≡ (if id == j then none else C.live s j)
