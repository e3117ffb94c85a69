-- ===== src/Automation/Evaluator/Timing.antt =====
-- evaluator.go over the time: a result of a time condition is kept in Redis for 60 seconds. An
-- evaluation is short, so that it has one time, in seconds; between evaluations the update of a
-- device (updater.go) stores its state anew, for an hour.
use smarthome_backend.Prelude.{
  ℕ, ◌+◌, ◌<◌, ◌≤◌, String, ◌≡◌, Bool, Option, none, some, List, [], ◌∷◌,
}
use smarthome_backend.Json.{Payload, Map}
use smarthome_backend.Utils.Time.{Clock}
use smarthome_backend.Models.{Condition}
use smarthome_backend.Redis.{Redis, Timed}
use smarthome_backend.Automation.Evaluator.Truth.{judged, Uses}
use smarthome_backend.Automation.Evaluator.{device_key, read_state, World, evaluate_condition}

-- redisClient.Set(context.Background(), cacheKey, ..., 60*time.Second)
abbrev pub lifetime : ℕ
lifetime = 60

module _ (T : Timed) where
  -- The client at a time.
  abbrev pub at : ℕ → Redis
  at now = record T.base {
    get = λ s k. T.get_at now s k;
    set = λ s k v. T.set_at now s k v lifetime;
  }

  abbrev pub left_in : T.base.Store → Option T.base.Store → T.base.Store
  left_in s none = s
  left_in s (some s') = s'

  pub data Event : Type 0 where
    evaluated : Condition → Event
    stored : String → Payload → Event

  -- redisClient.Set(ctx, fmt.Sprintf("device:%s", deviceID), newStateRaw, time.Hour)
  unfoldable pub set_state : ℕ → T.base.Store → String → Payload → T.base.Store
  set_state now s id p = T.set_at now s (device_key id) p 3600

  module _ (clock : ℕ → Clock) where
    abbrev pub world_at : (now : ℕ) → T.base.Store → World (at now)
    world_at now s = record { store = some s; clock = λ i. clock now; reads = 0 }

    abbrev pub outcome : (now : ℕ) → T.base.Store → Condition → Bool × World (at now)
    outcome now s c = evaluate_condition (at now) (world_at now s) c

    -- An evaluation, or the write of an update of a device.
    unfoldable pub after : ℕ → T.base.Store → Event → T.base.Store
    unfolding set_state
    after now s (evaluated c) = left_in s (outcome now s c).1.store
    after now s (stored id p) = set_state now s id p

    -- The store after events, each with its time.
    unfoldable pub run : T.base.Store → List (ℕ × Event) → T.base.Store
    unfolding after
    run s [] = s
    run s ((now, e) ∷ es) = run (after now s e) es

-- The states of the devices at a time.
abbrev pub states : (T : Timed) → ℕ → T.base.Store → String → Map
states T now s id = read_state (T.get_at now s (device_key id))

-- What the condition said at a moment up to `now`, less than a minute before `later`.
abbrev pub Since : (ℕ → Clock) → ℕ → ℕ → String → Payload → Bool → Type 0
Since clock now later op v b = (t : ℕ) × (t ≤ now) × (later < t + 60) × (b ≡ judged (clock t) op v)

-- The events come one after the other between two times.
unfoldable pub Between : {T : Timed} → ℕ → List (ℕ × Event T) → ℕ → Type 0
Between start [] end = start ≤ end
Between start ((now, e) ∷ es) end = (start ≤ now) × Between now es end

unfoldable pub EventUses : (T : Timed) → (String → Payload → Type 0) → Event T → Type 0
EventUses T P (evaluated c) = Uses P c
EventUses T P (stored id p) = Unit
