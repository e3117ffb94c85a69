-- ===== src/Engine/Rules/Refreshing.antt =====
-- What a new or a changed rule does to the sets in Redis and to the scheduler.
use smarthome_backend.Prelude.{
  String, ◌≡◌, refl, ◌∙◌, ◌==◌, string_Eq, false, ◌&&◌, ◌||◌, List, Option, none, some, contains,
  arith, if◌then◌else◌, Bool-cases, Option-cases, inl, inr,
}
use smarthome_backend.Models.{Rule, Condition}
use smarthome_backend.Redis.{Redis, Sets}
use smarthome_backend.Cron.{Cron, Registers}
use smarthome_backend.Scheduler.Sync.{Synced}
use smarthome_backend.Database.{exec, get_rule_by_id}
use smarthome_backend.Engine.{rules_key, rules_pattern, extract_device_ids, add_rule}
use smarthome_backend.Database.Schedules.{get_rule_by_id-id}
use smarthome_backend.Engine.Devices.{names, contains-extract_device_ids}
use smarthome_backend.Engine.Associations.{Free, add_rule_lem}
use smarthome_backend.Engine.Rules.Keeps.{refresh_schedules-Keeps}
use smarthome_backend.Engine.Rules.Removal.{members-removed, get-remove_from}
use smarthome_backend.Engine.Rules.{
  Engine, ask, remove_from, refresh_enabled, refresh_keys, refresh_rule, refresh_rule_associations,
}

module _ (R : Redis) (C : Cron) (laws : Registers C) where
  refresh_enabled-Synced :
      (e : Engine R C) (rule_id : String) (rule : Rule) (o : Option Condition)
      → Synced C e.scheduler
      → Synced C (refresh_enabled R C e rule_id rule o).1.scheduler
  unfolding refresh_enabled
  refresh_enabled-Synced e r rule none h = h
  refresh_enabled-Synced e r rule (some c) h =
      let e' : Engine R C = record e {
        store = add_rule R e.store rule.id (extract_device_ids c);
      } in
      (refresh_schedules-Keeps R C laws e' r).synced h

  refresh_keys-Synced :
      (e : Engine R C) (rule_id : String) (rule : Rule) (o : Option (List String))
      → Synced C e.scheduler
      → Synced C (refresh_keys R C e rule_id rule o).1.scheduler
  unfolding refresh_keys
  refresh_keys-Synced e r rule none h = h
  refresh_keys-Synced e r rule (some ks) h = elim (Bool-cases rule.enabled) [
    | inl on ↦ rw on (
        refresh_enabled-Synced (record e { store = remove_from R e.store r ks }) r rule
          rule.conditions h)
    | inr off ↦ rw off h
  ]

  refresh_rule-Synced :
      (e : Engine R C) (rule_id : String) (o : Option Rule)
      → Synced C e.scheduler
      → Synced C (refresh_rule R C e rule_id o).1.scheduler
  unfolding refresh_rule
  refresh_rule-Synced e r none h = h
  refresh_rule-Synced e r (some rule) h =
      refresh_keys-Synced e r rule (R.keys e.store rules_pattern) h

  pub refresh_rule_associations-Synced :
      (e : Engine R C) (rule_id : String)
      → Synced C e.scheduler
      → Synced C (refresh_rule_associations R C e rule_id).1.scheduler
  unfolding refresh_rule_associations
  refresh_rule_associations-Synced e r h =
      let (rule, e') = ask R C e (get_rule_by_id r) in refresh_rule-Synced e' r rule h

module _ (R : Redis) (sets : Sets R) (C : Cron) (laws : Registers C) where
  refreshed_sets :
      (e : Engine R C) (rule_id : String) (rule : Rule) (c : Condition) (d i : String)
      → rule.id ≡ rule_id
      → Free R sets e.store
      → contains i (R.members (refresh_enabled R C e rule_id rule (some c)).1.store (rules_key d))
        ≡ (rule_id == i && names d c) || contains i (R.members e.store (rules_key d))
  unfolding refresh_enabled
  refreshed_sets e r rule c d i same free =
      let s = add_rule R e.store rule.id (extract_device_ids c) in
      rw
        (
          (refresh_schedules-Keeps R C laws (record e { store = s }) r).store,
          add_rule_lem R sets d i e.store rule.id (extract_device_ids c) free,
          contains-extract_device_ids d c,
          same,
        )
        refl

  -- A rule that is stored, and whose conditions parse, is after a refresh in the sets of exactly the
  -- devices that its conditions name if it is enabled, and in none if it is not; other rules stay
  -- where they were. The keys of the sets must be listed and hold no strings; what the database
  -- answers after the rule does not matter.
  pub refresh_rule_associations_lem :
      (e : Engine R C) (rule_id : String) (rule : Rule) (c : Condition) (ks : List String)
      (d i : String)
      → (exec e.pool (get_rule_by_id rule_id)).0 ≡ some rule
      → rule.conditions ≡ some c
      → R.keys e.store rules_pattern ≡ some ks
      → ((id : String) → R.get e.store (rules_key id) ≡ none)
      → ((refresh_rule_associations R C e rule_id).0 ≡ false)
        × (contains i (R.members (refresh_rule_associations R C e rule_id).1.store (rules_key d))
            ≡ (if rule_id == i
                then rule.enabled && names d c
                else contains i (R.members e.store (rules_key d))))
  unfolding refresh_rule_associations refresh_rule refresh_keys
  refresh_rule_associations_lem e r rule c ks d i found parsed listed free =
      let same : rule.id ≡ r = get_rule_by_id-id e.pool r rule found in
      let e' : Engine R C = record e {
        pool = (exec e.pool (get_rule_by_id r)).1;
        store = remove_from R e.store r ks;
      } in
      let left = members-removed R sets e.store r ks d i listed in
      rw (found, listed)
        (elim (Bool-cases rule.enabled) [
          | inr off ↦ rw off (refl, rw left (ground arith))
          | inl on ↦
              rw (on, parsed)
                (
                  unfold refresh_enabled in refl,
                  rw
                      (
                        refreshed_sets e' r rule c d i same
                            (λ id. get-remove_from R sets e.store r ks (rules_key id) ∙ free id),
                        left,
                      )
                      (ground arith),
                )
        ])

  -- Refreshing a rule that is disabled leaves the scheduler and the tables as they are: the jobs of
  -- its schedules go on.
  pub refresh_rule_associations-disabled :
      (e : Engine R C) (rule_id : String) (rule : Rule)
      → (exec e.pool (get_rule_by_id rule_id)).0 ≡ some rule
      → rule.enabled ≡ false
      → ((refresh_rule_associations R C e rule_id).1.scheduler ≡ e.scheduler)
        × ((refresh_rule_associations R C e rule_id).1.pool.tables ≡ e.pool.tables)
  unfolding refresh_rule_associations refresh_rule refresh_keys exec get_rule_by_id
  refresh_rule_associations-disabled e r rule found off =
      elim (Option-cases (R.keys e.store rules_pattern)) [
        | inl failed ↦ rw (found, failed) (refl, same)
        | inr (ks, listed) ↦ rw (found, listed, off) (refl, same)
      ]
    where
      same : (exec e.pool (get_rule_by_id r)).1.tables ≡ e.pool.tables
      same = ground arith
