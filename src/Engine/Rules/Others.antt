-- ===== src/Engine/Rules/Others.antt =====
-- What the refresh of a rule leaves to the other rules.
use smarthome_backend.Prelude.{
  String, ◌≡◌, refl, ◌∙◌, ◌==◌, string_Eq, false, Option, none, some, contains, Bool-cases,
  Option-cases, inl, inr,
}
use smarthome_backend.Models.{Rule, Condition}
use smarthome_backend.Redis.{Redis, Sets}
use smarthome_backend.Cron.{Cron, Registers}
use smarthome_backend.Database.{exec, get_rule_by_id}
use smarthome_backend.Database.Schedules.{get_rule_by_id-id}
use smarthome_backend.Engine.{rules_key, rules_pattern, extract_device_ids, add_rule}
use smarthome_backend.Engine.Associations.{Free, add_rule_lem, add_rule-Free}
use smarthome_backend.Engine.Rules.{
  Engine, remove_from, refresh_enabled, refresh_keys, refresh_rule, refresh_rule_associations,
}
use smarthome_backend.Engine.Rules.Keeps.{refresh_schedules-Keeps}
use smarthome_backend.Engine.Rules.Removal.{members-removed, get-remove_from}

-- Another rule stays in the sets in which it is, which hold no strings, and the database answers as it
-- did.
module _ (R : Redis) (sets : Sets R) (C : Cron) (laws : Registers C) (id i d : String)
    (other : (id == i) ≡ false) where
  abbrev pub Stays : Engine R C → Engine R C → Type 0
  Stays e e' =
      (contains i (R.members e'.store (rules_key d)) ≡ contains i (R.members e.store (rules_key d)))
      × Free R sets e'.store
      × (e'.pool.answers ≡ e.pool.answers)

  refresh_enabled-Stays :
      (e : Engine R C) (r : Rule) (o : Option Condition)
      → r.id ≡ id
      → Free R sets e.store
      → Stays e (refresh_enabled R C e id r o).1
  unfolding refresh_enabled
  refresh_enabled-Stays e r none same free = (refl, free, refl)
  refresh_enabled-Stays e r (some c) same free =
      let s = add_rule R e.store r.id (extract_device_ids c) in
      let keeps = refresh_schedules-Keeps R C laws (record e { store = s }) id in
      rw keeps.store (
        rw (add_rule_lem R sets d i e.store r.id (extract_device_ids c) free, same, other) refl,
        add_rule-Free R sets e.store r.id (extract_device_ids c) free,
        keeps.answers,
      )

  refresh_keys-Stays :
      (e : Engine R C) (r : Rule)
      → r.id ≡ id
      → Free R sets e.store
      → Stays e (refresh_keys R C e id r (R.keys e.store rules_pattern)).1
  unfolding refresh_keys
  refresh_keys-Stays e r same free = elim (Option-cases (R.keys e.store rules_pattern)) [
    | inl failed ↦ rw failed (refl, free, refl)
    | inr (ks, listed) ↦
        let e' : Engine R C = record e { store = remove_from R e.store id ks } in
        let left : contains i (R.members e'.store (rules_key d))
            ≡ contains i (R.members e.store (rules_key d)) =
          members-removed R sets e.store id ks d i listed ∙ rw other refl in
        let free' : Free R sets e'.store =
          λ j. get-remove_from R sets e.store id ks (rules_key j) ∙ free j in
        rw listed (elim (Bool-cases r.enabled) [
          | inr off ↦ rw off (left, free', refl)
          | inl on ↦
              let (kept, free'', answers) = refresh_enabled-Stays e' r r.conditions same free' in
              rw on (kept ∙ left, free'', answers)
        ])
  ]

  pub refresh-Stays :
      (e : Engine R C) → Free R sets e.store → Stays e (refresh_rule_associations R C e id).1
  unfolding refresh_rule_associations refresh_rule exec
  refresh-Stays e free = elim (Option-cases (exec e.pool (get_rule_by_id id)).0) [
    | inl absent ↦ rw absent (refl, free, refl)
    | inr (r, found) ↦ rw found (
        refresh_keys-Stays (record e { pool = (exec e.pool (get_rule_by_id id)).1 }) r
          (get_rule_by_id-id e.pool id r found) free)
  ]
