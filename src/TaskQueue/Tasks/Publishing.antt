-- ===== src/TaskQueue/Tasks/Publishing.antt =====
-- Where the published values come from.
use smarthome_backend.Prelude.{
  String, ◌≡◌, refl, ◌==◌, string_Eq, nat_Eq, Bool, true, false, List, [], ◌∷◌, Option, none, some,
  Option-cases, Bool-cases, inl, inr, All, length,
}
use smarthome_backend.Prelude.Dict.{lookup, insert, All-insert, All-lookup}
use smarthome_backend.Prelude.TextOrder.{text_lt}
use smarthome_backend.Json.{Value, Map, marshal_map}
use smarthome_backend.Automation.Executor.{
  Message, command_topic, publish_all, execute_resolved_actions,
}
use smarthome_backend.TaskQueue.Actions.{PendingAction}
use smarthome_backend.TaskQueue.Conflicts.{
  ActionTarget, Entry, Entries, ConflictMap, choose, claim_all, entries_of, claim_actions, values,
  resolved, resolve_conflicts,
}

-- What holds of every parameter of the pending actions holds of every value that is chosen.
module _ (P : String → String → Value → Type 0) where
  abbrev pub Holds : String → Map → Type 0
  Holds d m = All (λ (p : String × Value). P d p.0 p.1) m

  abbrev Chosen : String → Entries → Type 0
  Chosen d es = All (λ (p : String × Entry). P d p.0 p.1.value) es

  choose-P :
      (d k : String) (o : Option Entry) (new : Entry)
      → ((e : Entry) → o ≡ some e → P d k e.value)
      → P d k new.value
      → P d k (choose o new).value
  unfolding choose
  choose-P d k none new h n = n
  choose-P d k (some e) new h n = elim (Bool-cases (text_lt new.rule_id e.rule_id)) [
    | inl lower ↦ rw lower n
    | inr higher ↦ rw higher (h e refl)
  ]

  claim_all-Chosen :
      (d r : String) (m : Map) (es : Entries)
      → Holds d m
      → Chosen d es
      → Chosen d (claim_all r m es)
  unfolding claim_all
  claim_all-Chosen d r [] es h c = c
  claim_all-Chosen d r ((k, v) ∷ m) es h c = claim_all-Chosen d r m _ h.1 (
      All-insert (λ (p : String × Entry). P d p.0 p.1.value) k _ es
        (choose-P d k (lookup k es) (record { rule_id = r; value = v })
          (λ e found. All-lookup (λ (p : String × Entry). P d p.0 p.1.value) k e es c found) h.0)
        c)

  abbrev AllChosen : ConflictMap → Type 0
  AllChosen c = All (λ (p : String × Entries). Chosen p.0 p.1) c

  entries_of-Chosen : (d : String) (c : ConflictMap) → AllChosen c → Chosen d (entries_of d c)
  unfolding entries_of
  entries_of-Chosen d c h = elim (Option-cases (lookup d c)) [
    | inl absent ↦ rw absent tt
    | inr (es, found) ↦
        rw found (All-lookup (λ (p : String × Entries). Chosen p.0 p.1) d es c h found)
  ]

  claim_actions-Chosen :
      (c : ConflictMap) (pending : List PendingAction)
      → AllChosen c
      → All (λ (a : PendingAction). Holds a.device_id a.params) pending
      → AllChosen (claim_actions c pending)
  unfolding claim_actions
  claim_actions-Chosen c [] h _ = h
  claim_actions-Chosen c (a ∷ rest) h (here, later) =
      let c' = insert a.device_id (claim_all a.rule_id a.params (entries_of a.device_id c)) c in
      claim_actions-Chosen c' rest
        (All-insert (λ (p : String × Entries). Chosen p.0 p.1) a.device_id _ c
          (claim_all-Chosen a.device_id a.rule_id a.params _ here
            (entries_of-Chosen a.device_id c h))
          h)
        later

  values-Holds : (d : String) (es : Entries) → Chosen d es → Holds d (values es)
  unfolding values
  values-Holds d [] h = tt
  values-Holds d ((k, e) ∷ es) h = (h.0, values-Holds d es h.1)

  -- A message is a command to a device with values of which `P` holds.
  pub record IsCommand (m : Message) : Type 0 where
    pub device_id : String
    pub params : Map
    pub topic : m.topic ≡ command_topic device_id
    pub payload : m.payload ≡ marshal_map params
    pub sourced : Holds device_id params

  publish_all-IsCommand : (c : ConflictMap) → AllChosen c → All IsCommand (publish_all (resolved c))
  unfolding publish_all resolved
  publish_all-IsCommand [] h = tt
  publish_all-IsCommand ((d, es) ∷ c) h = elim (Bool-cases (length (values es) == 0)) [
    | inl empty ↦ rw empty (publish_all-IsCommand c h.1)
    | inr full ↦ rw full (
      record {
        device_id = d;
        params = values es;
        topic = refl;
        payload = refl;
        sourced = values-Holds d es h.0;
      },
      publish_all-IsCommand c h.1,
    )
  ]

  pub execute-IsCommand :
      (connected : Bool) (pending : List PendingAction) (targets : List ActionTarget)
      → All (λ (a : PendingAction). Holds a.device_id a.params) pending
      → All IsCommand (execute_resolved_actions connected (resolve_conflicts pending targets))
  unfolding execute_resolved_actions resolve_conflicts
  execute-IsCommand false pending targets h = tt
  execute-IsCommand true pending targets h =
      publish_all-IsCommand (claim_actions [] pending) (claim_actions-Chosen [] pending tt h)
