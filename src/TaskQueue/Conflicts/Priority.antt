-- ===== src/TaskQueue/Conflicts/Priority.antt =====
-- Which action wins an attribute: one of the lowest rule ID among those that name it.
use mathlib.Core.Option
use smarthome_backend.Prelude.{
  String, ◌≡◌, refl, ◌==◌, string_Eq, eq_iff, inl, inr, List, [], ◌∷◌, Option, none, some, arith,
  if◌then◌else◌, Option-cases, Bool-cases,
}
use smarthome_backend.Prelude.Dict.{lookup, insert, lookup-insert}
use smarthome_backend.Prelude.TextOrder.{text_lt_irrefl}
use smarthome_backend.Json.{Value, Map}
use smarthome_backend.TaskQueue.Actions.{PendingAction}
use smarthome_backend.TaskQueue.Conflicts.{
  Entry, Entries, ConflictMap, choose, claim_all, entries_of, values, resolved,
}

-- resolvedActions[deviceID][key]
unfoldable pub value_for : String → String → List (String × Map) → Option Value
value_for d k r = elim (lookup d r) [ none ↦ none | some m ↦ lookup k m ]

-- The entry of one attribute.
unfoldable pub entry_for : String → String → ConflictMap → Option Entry
entry_for d k c = lookup k (entries_of d c)

-- What an action claims of one attribute.
abbrev pub claimed : String → Option Value → Option Entry → Option Entry
claimed r none e = e
claimed r (some v) e = some (choose e (record { rule_id = r; value = v }))

-- A second claim by one rule changes nothing.
choose_again :
    (e : Option Entry) (r : String) (v w : Value)
    → choose
        (some (choose e (record { rule_id = r; value = v })))
        (record { rule_id = r; value = w })
      ≡ choose e (record { rule_id = r; value = v })
unfolding choose
choose_again none r v w = ground (arith, text_lt_irrefl r)
choose_again (some e) r v w = ground (arith, text_lt_irrefl r)

lookup-claim_all :
    (r k : String) (m : Map) (es : Entries)
    → lookup k (claim_all r m es) ≡ claimed r (lookup k m) (lookup k es)
unfolding claim_all lookup
lookup-claim_all r k [] es = refl
lookup-claim_all r k ((j, v) ∷ m) es =
    let new : Entry = choose (lookup j es) (record { rule_id = r; value = v }) in
    let rest = lookup-claim_all r k m (insert j new es) in
    let put = lookup-insert j k new es in
    elim (Bool-cases (j == k)) [
      | inl same ↦ elim (Option-cases (lookup k m)) [
        | inl absent ↦ ground (arith, eq_iff j k)
        | inr (w, found) ↦ ground (arith, eq_iff j k, choose_again (lookup j es) r v w)
      ]
      | inr other ↦ ground arith
    ]

pub entry_for-claim :
    (d k : String) (a : PendingAction) (c : ConflictMap)
    → entry_for d k (insert a.device_id (claim_all a.rule_id a.params (entries_of a.device_id c)) c)
      ≡ (if a.device_id == d
          then claimed a.rule_id (lookup k a.params) (entry_for d k c)
          else entry_for d k c)
unfolding entry_for entries_of
entry_for-claim d k a c = ground (
  arith,
  eq_iff a.device_id d,
  lookup-insert a.device_id d (claim_all a.rule_id a.params (entries_of a.device_id c)) c,
  lookup-claim_all a.rule_id k a.params (entries_of a.device_id c),
)

lookup-values :
    (k : String) (es : Entries)
    → lookup k (values es) ≡ Option.map (λ (e : Entry). e.value) (lookup k es)
unfolding values lookup
lookup-values k [] = refl
lookup-values k ((j, e) ∷ es) = ground (arith, lookup-values k es)

pub value_for-resolved :
    (d k : String) (c : ConflictMap)
    → value_for d k (resolved c) ≡ Option.map (λ (e : Entry). e.value) (entry_for d k c)
unfolding value_for resolved entry_for entries_of lookup
value_for-resolved d k [] = refl
value_for-resolved d k ((j, es) ∷ c) = ground (arith, lookup-values k es, value_for-resolved d k c)
