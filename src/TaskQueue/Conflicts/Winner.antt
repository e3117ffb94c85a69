-- ===== src/TaskQueue/Conflicts/Winner.antt =====
-- The winner of an attribute has the lowest rule ID among the actions that name it.
use mathlib.Core.List.{Memᴰ}
use mathlib.Core.Option
use smarthome_backend.Prelude.{
  String, ◌≡◌, refl, sym, ◌==◌, string_Eq, eq_iff, true, false, List, [], ◌∷◌, Option, none, some,
  arith, if◌then◌else◌, Option-cases, Bool-cases, inl, inr, All,
}
use smarthome_backend.Prelude.Dict.{lookup, insert}
use smarthome_backend.Prelude.TextOrder.{text_lt, text_lt_irrefl, text_lt_trans}
use smarthome_backend.Json.{Value}
use smarthome_backend.TaskQueue.Actions.{PendingAction}
use smarthome_backend.TaskQueue.Conflicts.{
  ActionTarget, Entry, ConflictMap, choose, claim_all, entries_of, claim_actions, resolve_conflicts,
}
use smarthome_backend.TaskQueue.Conflicts.Priority.{
  value_for, entry_for, claimed, entry_for-claim, value_for-resolved,
}

text_lt_asymm : (s t : String) → text_lt s t ≡ true → text_lt t s ≡ false
text_lt_asymm s t h = elim (Bool-cases (text_lt t s)) [
  | inl back ↦ cc (text_lt_trans s t s h back, text_lt_irrefl s)
  | inr done ↦ done
]

not_below : (s e old : String) → text_lt e old ≡ true → text_lt s old ≡ false → text_lt s e ≡ false
not_below s e old h k = elim (Bool-cases (text_lt s e)) [
  | inl low ↦ cc (text_lt_trans s e old low h)
  | inr done ↦ done
]

module _ (d k : String) where
  -- An action names the attribute `k` of the device `d`.
  abbrev pub Names : PendingAction → Type 0
  Names b = (v : Value) × (b.device_id ≡ d) × (lookup k b.params ≡ some v)

  pub record Wins (pending : List PendingAction) (v : Value) (rule : String) : Type 0 where
    pub action : PendingAction
    pub listed : Memᴰ action pending
    pub device : action.device_id ≡ d
    pub rule_id : action.rule_id ≡ rule
    pub value : lookup k action.params ≡ some v
    pub lowest : All (λ b. Names b → text_lt b.rule_id rule ≡ false) pending

  -- What the loop does to the entry of the attribute, from `old` to `final`.
  data Outcome (old : Option Entry) (pending : List PendingAction) (final : Option Entry)
      : Type 0 where
    kept :
        final ≡ old
        → All
            (λ b. Names b → (e : Entry) × (old ≡ some e) × (text_lt b.rule_id e.rule_id ≡ false))
            pending
        → Outcome old pending final
    won :
        (e : Entry)
        → final ≡ some e
        → Wins pending e.value e.rule_id
        → ((e' : Entry) → old ≡ some e' → text_lt e.rule_id e'.rule_id ≡ true)
        → Outcome old pending final

  Wins-cons :
      (a : PendingAction) (rest : List PendingAction) (v : Value) (r : String)
      → (Names a → text_lt a.rule_id r ≡ false)
      → Wins rest v r
      → Wins (a ∷ rest) v r
  Wins-cons a rest v r h w = record {
    action = w.action;
    listed = Memᴰ.tail w.listed;
    device = w.device;
    rule_id = w.rule_id;
    value = w.value;
    lowest = (h, w.lowest);
  }

  -- An action that does not name the attribute.
  skip :
      (a : PendingAction) (rest : List PendingAction) (old final : Option Entry)
      → ¬ Names a
      → Outcome old rest final
      → Outcome old (a ∷ rest) final
  skip a rest old final h (kept e all) = kept e (λ n. absurd (h n), all)
  skip a rest old final h (won e p w low) =
      won e p (Wins-cons a rest e.value e.rule_id (λ n. absurd (h n)) w) low

  kept-Wins :
      (a : PendingAction) (rest : List PendingAction) (v : Value) (final : Option Entry)
      → a.device_id ≡ d
      → lookup k a.params ≡ some v
      → All
          (λ b.
            Names b
            → (e : Entry) × (some (record { rule_id = a.rule_id; value = v }) ≡ some e)
              × (text_lt b.rule_id e.rule_id ≡ false))
          rest
      → Wins (a ∷ rest) v a.rule_id
  kept-Wins a rest v final dev val all = record {
    action = a;
    listed = Memᴰ.head refl;
    device = dev;
    rule_id = refl;
    value = val;
    lowest = (λ n. text_lt_irrefl a.rule_id, All-map rest all);
  }
    where
      All-map :
          (l : List PendingAction)
          → All
              (λ b.
                Names b
                → (e : Entry) × (some (record { rule_id = a.rule_id; value = v }) ≡ some e)
                  × (text_lt b.rule_id e.rule_id ≡ false))
              l
          → All (λ b. Names b → text_lt b.rule_id a.rule_id ≡ false) l
      All-map [] h = tt
      All-map (b ∷ l) (h, hs) = (λ n. let (e, p, q) = h n in ground arith, All-map l hs)

  -- The action takes the entry, since there is none yet or its rule ID is lower.
  take :
      (a : PendingAction) (rest : List PendingAction) (v : Value) (old final : Option Entry)
      → a.device_id ≡ d
      → lookup k a.params ≡ some v
      → ((e' : Entry) → old ≡ some e' → text_lt a.rule_id e'.rule_id ≡ true)
      → Outcome (some (record { rule_id = a.rule_id; value = v })) rest final
      → Outcome old (a ∷ rest) final
  take a rest v old final dev val low (kept e all) =
      won (record { rule_id = a.rule_id; value = v }) e (kept-Wins a rest v final dev val all) low
  take a rest v old final dev val low (won e p w lower) =
      let below = lower (record { rule_id = a.rule_id; value = v }) refl in
      won e p (Wins-cons a rest e.value e.rule_id (λ n. text_lt_asymm _ _ below) w)
        (λ e' q. text_lt_trans _ _ _ below (low e' q))

  -- The action gives way to the entry.
  yield_to :
      (a : PendingAction) (rest : List PendingAction) (old : Entry) (final : Option Entry)
      → text_lt a.rule_id old.rule_id ≡ false
      → Outcome (some old) rest final
      → Outcome (some old) (a ∷ rest) final
  yield_to a rest old final h (kept e all) = kept e (λ n. (old, refl, h), all)
  yield_to a rest old final h (won e p w lower) =
      won e p (Wins-cons a rest e.value e.rule_id (λ n. not_below _ _ _ (lower old refl) h) w) lower

  step :
      (a : PendingAction) (rest : List PendingAction) (old final : Option Entry)
      → Outcome
          (if a.device_id == d then claimed a.rule_id (lookup k a.params) old else old)
          rest
          final
      → Outcome old (a ∷ rest) final
  unfolding choose
  step a rest old final o = elim (Bool-cases (a.device_id == d)) [
    | inr other ↦ skip a rest old final (λ n. ground (arith, eq_iff a.device_id d)) (rw other at o)
    | inl same ↦ elim (Option-cases (lookup k a.params)) [
      | inl absent ↦ skip a rest old final (λ n. cc (n.2, absent)) (rw (same, absent) at o)
      | inr (v, named) ↦
          choose_case v old ((eq_iff a.device_id d).0 same) named (rw (same, named) at o)
    ]
  ]
    where
      choose_case :
          (v : Value) (e : Option Entry)
          → a.device_id ≡ d
          → lookup k a.params ≡ some v
          → Outcome (some (choose e (record { rule_id = a.rule_id; value = v }))) rest final
          → Outcome e (a ∷ rest) final
      choose_case v none dev val o = take a rest v none final dev val (λ e' p. cc) o
      choose_case v (some e) dev val o = elim (Bool-cases (text_lt a.rule_id e.rule_id)) [
        | inl lower ↦ take a rest v (some e) final dev val (λ e' p. ground arith) (rw lower at o)
        | inr higher ↦ yield_to a rest e final higher (rw higher at o)
      ]

  claim-Outcome :
      (c : ConflictMap) (pending : List PendingAction)
      → Outcome (entry_for d k c) pending (entry_for d k (claim_actions c pending))
  unfolding claim_actions
  claim-Outcome c [] = kept refl tt
  claim-Outcome c (a ∷ rest) =
      let c' = insert a.device_id (claim_all a.rule_id a.params (entries_of a.device_id c)) c in
      step a rest (entry_for d k c) _ (rw (entry_for-claim d k a c) at (claim-Outcome c' rest))

  value_for-resolve :
      (pending : List PendingAction) (targets : List ActionTarget)
      → value_for d k (resolve_conflicts pending targets)
        ≡ Option.map (λ (e : Entry). e.value) (entry_for d k (claim_actions [] pending))
  unfolding resolve_conflicts
  value_for-resolve pending targets = value_for-resolved d k (claim_actions [] pending)

  Outcome-some :
      (pending : List PendingAction) (final : Option Entry) (v : Value)
      → Outcome (entry_for d k []) pending final
      → Option.map (λ (e : Entry). e.value) final ≡ some v
      → (r : String) × Wins pending v r
  unfolding entry_for entries_of lookup
  Outcome-some pending final v (kept e all) h = absurd (ground arith)
  Outcome-some pending final v (won e p w low) h = (e.rule_id, rw (sym v_eq) w)
    where
      v_eq : e.value ≡ v
      v_eq = ground arith

  Outcome-none :
      (pending : List PendingAction) (final : Option Entry)
      → Outcome (entry_for d k []) pending final
      → Option.map (λ (e : Entry). e.value) final ≡ none
      → All (λ b. ¬ Names b) pending
  unfolding entry_for entries_of lookup
  Outcome-none pending final (kept e all) h = none_names pending all
    where
      none_names :
          (l : List PendingAction)
          → All
              (λ b. Names b → (e : Entry) × (none ≡ some e) × (text_lt b.rule_id e.rule_id ≡ false))
              l
          → All (λ b. ¬ Names b) l
      none_names [] h = tt
      none_names (b ∷ l) (h, hs) = (λ n. let (e, p, q) = h n in cc, none_names l hs)
  Outcome-none pending final (won e p w low) h = absurd (ground arith)

  -- After the conflicts are resolved, a device has a value for an attribute only if a pending
  -- action on the device names it with that value, and no pending action that names it has a
  -- rule ID before that action's in the order of texts.
  pub resolve_conflicts-Wins :
      (pending : List PendingAction) (targets : List ActionTarget) (v : Value)
      → value_for d k (resolve_conflicts pending targets) ≡ some v
      → (r : String) × Wins pending v r
  resolve_conflicts-Wins pending targets v h =
      Outcome-some pending _ v (claim-Outcome [] pending) (rw value_for-resolve at h)

  -- After the conflicts are resolved, a device has no value for an attribute only if no pending
  -- action on the device names the attribute.
  pub resolve_conflicts-none :
      (pending : List PendingAction) (targets : List ActionTarget)
      → value_for d k (resolve_conflicts pending targets) ≡ none
      → All (λ b. ¬ Names b) pending
  resolve_conflicts-none pending targets h =
      Outcome-none pending _ (claim-Outcome [] pending) (rw value_for-resolve at h)
