-- ===== src/TaskQueue/Actions/Redundant.antt =====
-- What `areAllActionsRedundant` can accept: it wants a number in `device_id`, and the struct of
-- `collectPendingActions` wants a text there.
use smarthome_backend.Prelude.{
  String, ◌≡◌, refl, ◌≢◌, ◌==◌, string_Eq, eq_iff, true, ◌⊎◌, inl, inr, List, [], ◌∷◌, Option, none,
  some, some-injective, arith, Option-cases, Bool-cases,
}
use smarthome_backend.Prelude.Dict.{lookup, insert, lookup-insert}
use smarthome_backend.Json.{
  Value, null, num, arr, obj, Items, nil, cons, Fields, end, field, Payload, doc, Map, to_map_from,
  unmarshal_map,
}
use smarthome_backend.Json.Float.{Float64}
use smarthome_backend.Redis.{Redis}
use smarthome_backend.TaskQueue.Actions.{
  Action, zero_action, set_field, set_fields, same_name, decode_action, decode_actions,
  unmarshal_actions, decode_map, decode_maps, unmarshal_maps, is_redundant, redundant_from,
  are_all_actions_redundant, collect_pending_actions, join,
}

set_field_refused :
    (k : String) (v : Value) (a : Action) → a.refused ≡ true → (set_field k v a).refused ≡ true
unfolding set_field
set_field_refused k v a h = ground arith

-- A type error is remembered.
set_fields_refused :
    (fs : Fields) (a : Action) → a.refused ≡ true → (set_fields fs a).refused ≡ true
unfolding set_fields
set_fields_refused end a h = h
set_fields_refused (field k v fs) a h =
    set_fields_refused fs (set_field k v a) (set_field_refused k v a h)

set_field_num : (f : Float64) (a : Action) → (set_field "device_id" (num f) a).refused ≡ true
unfolding set_field same_name
set_field_num f a = refl

-- A number that the map has for the device was refused by the struct, or was in the map before.
number_refused :
    (fs : Fields) (m : Map) (f : Float64)
    → lookup "device_id" (to_map_from m fs) ≡ some (num f)
    → (lookup "device_id" m ≡ some (num f)) ⊎ ((a : Action) → (set_fields fs a).refused ≡ true)
unfolding to_map_from set_fields
number_refused end m f h = inl h
number_refused (field k v fs) m f h = elim (number_refused fs (insert k v m) f h) [
  | inr late ↦ inr (λ a. late (set_field k v a))
  | inl early ↦ elim (Bool-cases (k == "device_id")) [
    | inr other ↦ inl (ground (arith, lookup-insert k "device_id" v m))
    | inl here ↦
        let v_num : v ≡ num f = ground (arith, lookup-insert k "device_id" v m) in
        inr (λ a.
          set_fields_refused fs (set_field k v a)
            (rw ((eq_iff k "device_id").0 here, v_num) (set_field_num f a)))
  ]
]

join-head {ℓ} :
    {A : Type ℓ} {a : A} {l : List A} (o : Option A) (r : Option (List A))
    → join o r ≡ some (a ∷ l)
    → o ≡ some a
join-head none r h = cc
join-head (some b) none h = cc
join-head (some b) (some l) h = cc

join-ne-nil {ℓ} : {A : Type ℓ} (o : Option A) (r : Option (List A)) → join o r ≢ some []
join-ne-nil none r h = cc
join-ne-nil (some b) none h = cc
join-ne-nil (some b) (some l) h = cc

no_actions : (vs : Items) → decode_maps vs ≡ some [] → decode_actions vs ≡ some []
unfolding decode_maps decode_actions
no_actions nil h = refl
no_actions (cons v vs) h = absurd (join-ne-nil (decode_map v) (decode_maps vs) h)

module _ (R : Redis) (store : Option R.Store) where
  redundant_number :
      (m : Map)
      → is_redundant R store m ≡ some true
      → (f : Float64) × (lookup "device_id" m ≡ some (num f))
  unfolding is_redundant
  redundant_number m h = ground arith

  -- A document that reads as a map with a number for the device is refused as an action.
  number-refused :
      (v : Value) (m : Map) (f : Float64)
      → decode_map v ≡ some m
      → lookup "device_id" m ≡ some (num f)
      → decode_action v ≡ none
  unfolding decode_map decode_action unmarshal_map lookup
  number-refused (obj fs) m f h e = elim (number_refused fs [] f (rw (some-injective _ _ h) e)) [
    | inl absent ↦ cc
    | inr late ↦ rw (late zero_action)
  ]
  number-refused null m f h e = ground arith
  number-refused _ m f h e = cc

  first_redundant :
      (m : Map) (ms : List Map)
      → redundant_from R store (m ∷ ms) ≡ some true
      → is_redundant R store m ≡ some true
  unfolding redundant_from
  first_redundant m ms r = elim (Option-cases (is_redundant R store m)) [
    | inl panic ↦ ground arith
    | inr (reached, e) ↦ ground arith
  ]

  redundant_refused :
      (vs : Items) (m : Map) (ms : List Map)
      → decode_maps vs ≡ some (m ∷ ms)
      → redundant_from R store (m ∷ ms) ≡ some true
      → decode_actions vs ≡ none
  unfolding decode_maps decode_actions redundant_from
  redundant_refused nil m ms h r = cc
  redundant_refused (cons v vs) m ms h r =
      let (f, e) = redundant_number m (first_redundant m ms r) in
      rw (number-refused v m f (join-head _ _ h) e)

  -- If `areAllActionsRedundant` accepts the actions of a rule, whatever the store holds, then
  -- `collectPendingActions` finds no pending action in them.
  pub collect-redundant :
      (rule_id : String) (p : Payload)
      → are_all_actions_redundant R store p ≡ some true
      → collect_pending_actions rule_id p ≡ []
  unfolding are_all_actions_redundant collect_pending_actions unmarshal_maps unmarshal_actions
  collect-redundant rule_id (doc (arr vs)) h = go (decode_maps vs) refl
    where
      go :
          (maps : Option (List Map))
          → decode_maps vs ≡ maps
          → collect_pending_actions rule_id (doc (arr vs)) ≡ []
      go none e = ground arith
      go (some []) e = ground (arith, no_actions vs e)
      go (some (m ∷ ms)) e =
          let refused : decode_actions vs ≡ none = redundant_refused vs m ms e (ground arith) in
          ground arith
  collect-redundant rule_id (doc null) h = refl
  collect-redundant rule_id _ h = refl
