-- ===== src/Engine/Associations.antt =====
-- The sets of rules after the associations are made anew.
use text.Mathlib.TextLemmas.{append_cancel_left, append_cancel_right}
use smarthome_backend.Prelude.{
  String, ◌≡◌, refl, ◌∙◌, ◌==◌, string_Eq, eq_iff, eq_refl, Bool, false, not, ◌&&◌, ◌||◌, List, [],
  ◌∷◌, Option, none, some, any, contains, arith, if◌then◌else◌, Bool-cases, Option-cases, inl, inr,
}
use smarthome_backend.Models.{Rule, Condition}
use smarthome_backend.Redis.{Redis, Sets}
use smarthome_backend.Engine.{
  rules_key, rules_pattern, extract_device_ids, clear, add_rule, associate, associate_all,
  clear_and_associate, populate_associations,
}
use smarthome_backend.Engine.Devices.{names, contains-extract_device_ids}

rules_key_injective : (a b : String) → (rules_key a == rules_key b) ≡ (a == b)
rules_key_injective a b = elim (Bool-cases (a == b)) [
  | inl same ↦ rw (same, (eq_iff a b).0 same) (eq_refl (rules_key b))
  | inr other ↦ rw other (elim (Bool-cases (rules_key a == rules_key b)) [
    | inr done ↦ done
    | inl equal ↦
        let tails =
          append_cancel_left "device:" _ _ ((eq_iff (rules_key a) (rules_key b)).0 equal) in
        cc (other, (eq_iff a b).1 (append_cancel_right a b ":rules" tails))
  ])
]

-- The rule is enabled and names the device.
unfoldable pub watches_condition : String → Option Condition → Bool
watches_condition d none = false
watches_condition d (some c) = names d c

unfoldable pub watches : String → String → Rule → Bool
watches rule_id d r = r.enabled && (r.id == rule_id && watches_condition d r.conditions)

module _ (R : Redis) (laws : Sets R) where
  -- No string is stored where the sets of rules are.
  abbrev pub Free : R.Store → Type 0
  Free s = (id : String) → R.get s (rules_key id) ≡ none

  get-clear :
      (s : R.Store) (ks : List String) (k : String)
      → R.get (clear R s ks) k ≡ (if contains k ks then none else R.get s k)
  unfolding clear
  get-clear s [] k = refl
  get-clear s (x ∷ ks) k = elim (Bool-cases (x == k)) [
    | inl same ↦ rw (get-clear (R.del s x) ks k, laws.get-del s x k, same) (ground arith)
    | inr other ↦ rw (get-clear (R.del s x) ks k, laws.get-del s x k, other) refl
  ]

  clear-Free :
      (s : R.Store) (ks : List String) → R.keys s rules_pattern ≡ some ks → Free (clear R s ks)
  clear-Free s ks h id = elim (Option-cases (R.get s (rules_key id))) [
    | inl absent ↦ rw (get-clear s ks (rules_key id), absent) (ground arith)
    | inr (v, there) ↦ rw (get-clear s ks (rules_key id), laws.keys-get s ks id v h there) refl
  ]

  sadd-Free : (s : R.Store) (k m : String) → Free s → Free (R.sadd s k m)
  sadd-Free s k m free id = laws.get-sadd s k (rules_key id) m ∙ free id

  pub add_rule-Free :
      (s : R.Store) (r : String) (ids : List String) → Free s → Free (add_rule R s r ids)
  unfolding add_rule
  add_rule-Free s r [] free = free
  add_rule-Free s r (id ∷ ids) free =
      add_rule-Free (R.sadd s (rules_key id) r) r ids (sadd-Free s (rules_key id) r free)

  associate-Free :
      (s : R.Store) (r : String) (o : Option Condition) → Free s → Free (associate R s r o)
  unfolding associate
  associate-Free s r none free = free
  associate-Free s r (some c) free = add_rule-Free s r (extract_device_ids c) free

  module _ (d rule_id : String) where
    -- The rule is in the set of the device.
    abbrev pub associated : R.Store → Bool
    associated s = contains rule_id (R.members s (rules_key d))

    clear_lem :
        (s : R.Store) (ks : List String)
        → associated (clear R s ks) ≡ not (contains (rules_key d) ks) && associated s
    unfolding clear
    clear_lem s [] = refl
    clear_lem s (k ∷ ks) = elim (Bool-cases (k == rules_key d)) [
      | inl same ↦
          rw (clear_lem (R.del s k) ks, laws.members-del s k (rules_key d), same) (ground arith)
      | inr other ↦ rw (clear_lem (R.del s k) ks, laws.members-del s k (rules_key d), other) refl
    ]

    pub add_rule_lem :
        (s : R.Store) (r : String) (ids : List String)
        → Free s
        → associated (add_rule R s r ids) ≡ (r == rule_id && contains d ids) || associated s
    unfolding add_rule
    add_rule_lem s r [] free = ground arith
    add_rule_lem s r (id ∷ ids) free =
        rw
          (
            add_rule_lem (R.sadd s (rules_key id) r) r ids (sadd-Free s (rules_key id) r free),
            laws.members-sadd s (rules_key id) (rules_key d) r rule_id (free id),
            rules_key_injective id d,
          )
          (ground arith)

    associate_lem :
        (s : R.Store) (r : String) (o : Option Condition)
        → Free s
        → associated (associate R s r o) ≡ (r == rule_id && watches_condition d o) || associated s
    unfolding associate watches_condition
    associate_lem s r none free = ground arith
    associate_lem s r (some c) free =
        rw (add_rule_lem s r (extract_device_ids c) free, contains-extract_device_ids d c) refl

    associate_all_lem :
        (s : R.Store) (rules : List Rule)
        → Free s
        → associated (associate_all R s rules) ≡ any (watches rule_id d) rules || associated s
    unfolding associate_all watches
    associate_all_lem s [] free = refl
    associate_all_lem s (r ∷ rest) free = elim (Bool-cases r.enabled) [
      | inl on ↦
          rw
            (
              on,
              associate_all_lem (associate R s r.id r.conditions) rest
                  (associate-Free s r.id r.conditions free),
              associate_lem s r.id r.conditions free,
            )
            (ground arith)
      | inr off ↦ rw (off, associate_all_lem s rest free) refl
    ]

    all_cleared :
        (s : R.Store) (ks : List String)
        → R.keys s rules_pattern ≡ some ks
        → associated (clear R s ks) ≡ false
    all_cleared s ks h = elim (Bool-cases (associated s)) [
      | inl there ↦ rw (clear_lem s ks, laws.keys-members s ks d rule_id h there) refl
      | inr gone ↦ rw (clear_lem s ks, gone) (ground arith)
    ]

    -- After the associations are made anew without an error, a rule is in the set of a device if
    -- and only if an enabled rule of the database with its ID has a condition that names the
    -- device, whatever was stored before.
    pub populate_associations_lem :
        (s : R.Store) (rules : List Rule) (ks : List String)
        → R.keys s rules_pattern ≡ some ks
        → ((populate_associations R s (some rules)).1 ≡ false)
          × (contains rule_id (R.members (populate_associations R s (some rules)).0 (rules_key d))
              ≡ any (watches rule_id d) rules)
    unfolding populate_associations clear_and_associate
    populate_associations_lem s rules ks h = rw h (
      refl,
      rw (associate_all_lem (clear R s ks) rules (clear-Free s ks h), all_cleared s ks h)
          (ground arith),
    )
