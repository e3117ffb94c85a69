-- ===== src/Automation/Evaluator/Stale.antt =====
-- A time condition keeps its result for a minute, whatever the clock says then.
use smarthome_backend.Prelude.{
  ℕ, ◌+◌, ◌<◌, ◌≤◌, ◌≡◌, refl, ◌∙◌, ap, string_Eq, eq_iff, Bool, none, some, arith,
}
use smarthome_backend.Json.{Value, bool, doc, unmarshal_value}
use smarthome_backend.Utils.Time.{Clock}
use smarthome_backend.Models.{Node, condition, Conditions}
use smarthome_backend.Redis.{Timed, Expiry}
use smarthome_backend.Automation.Evaluator.{
  is_true, time_key, evaluate_time, time_in_store, evaluate_leaf, evaluate_condition,
}
use smarthome_backend.Automation.Evaluator.Truth.{judged}
use smarthome_backend.Automation.Evaluator.Timing.{
  lifetime, at, evaluated, world_at, outcome, left_in, after,
}

module _ (T : Timed) (laws : Expiry T) (clock : ℕ → Clock) where
  outcome-leaf :
      (now : ℕ) (s : T.base.Store) (n : Node) (cs : Conditions)
      → n.operator ≡ ""
      → n.type ≡ "time"
      → outcome T clock now s (condition n cs)
        ≡ time_in_store (at T now) s (world_at T clock now s) n
  unfolding evaluate_condition evaluate_leaf evaluate_time
  outcome-leaf now s n cs e t = rw (e, t) refl

  time_in_store-uncached :
      (now : ℕ) (s : T.base.Store) (n : Node) (x : Value)
      → T.get_at now s (time_key T.base n.op n.value) ≡ none
      → unmarshal_value n.value ≡ some x
      → (time_in_store (at T now) s (world_at T clock now s) n).1.store
        ≡ some (
            T.set_at now s
              (time_key T.base n.op n.value)
              (doc (bool (judged (clock now) n.op n.value)))
              lifetime)
  unfolding time_in_store judged
  time_in_store-uncached now s n x h e = ground arith

  time_in_store-cached :
      (now : ℕ) (s : T.base.Store) (n : Node) (b : Bool)
      → T.get_at now s (time_key T.base n.op n.value) ≡ some (doc (bool b))
      → (time_in_store (at T now) s (world_at T clock now s) n).0 ≡ b
  unfolding time_in_store is_true
  time_in_store-cached now s n b h = ground arith

  -- Let the value of a time condition parse and no result of it be cached. After it is evaluated at
  -- a time, it has that result at every time of the next 60 seconds, whatever the clock says then.
  pub evaluate_condition-stale :
      (now later : ℕ) (s : T.base.Store) (n : Node) (cs : Conditions) (x : Value)
      → n.operator ≡ ""
      → n.type ≡ "time"
      → unmarshal_value n.value ≡ some x
      → T.get_at now s (time_key T.base n.op n.value) ≡ none
      → now ≤ later
      → later < now + 60
      → (outcome T clock later
          (after T clock now s (evaluated (condition n cs)))
          (condition n cs)).0
        ≡ judged (clock now) n.op n.value
  unfolding after
  evaluate_condition-stale now later s n cs x e t p missing l early =
      let key = time_key T.base n.op n.value in
      let entry = doc (bool (judged (clock now) n.op n.value)) in
      let s' = T.set_at now s key entry lifetime in
      let left : after T clock now s (evaluated (condition n cs)) ≡ s' = ap (left_in T s) (
        ap (λ r. r.1.store) (outcome-leaf now s n cs e t)
        ∙ time_in_store-uncached now s n x missing p) in
      let found : T.get_at later s' key ≡ some entry =
        rw (laws.get_at-set_at now later lifetime s key key entry l)
          (ground (arith, eq_iff key key)) in
      ap (λ r. (outcome T clock later r (condition n cs)).0) left
      ∙ ap (λ r. r.0) (outcome-leaf later s' n cs e t)
      ∙ time_in_store-cached later s' n (judged (clock now) n.op n.value) found
