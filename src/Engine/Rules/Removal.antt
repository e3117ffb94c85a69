-- ===== src/Engine/Rules/Removal.antt =====
-- What is left of a rule when its associations are removed.
use mathlib.Core.List.{Memᴰ}
use smarthome_backend.Prelude.{
  String, ◌≡◌, refl, ◌∙◌, ◌==◌, string_Eq, eq_refl, true, false, not, ◌&&◌, List, [], ◌∷◌, none,
  some, any, contains, arith, if◌then◌else◌, Bool-cases, inl, inr,
}
use smarthome_backend.Models.{Schedule}
use smarthome_backend.Redis.{Redis, Sets}
use smarthome_backend.Cron.{Cron, Registers}
use smarthome_backend.Scheduler.{remove_schedule}
use smarthome_backend.Scheduler.Sync.{Synced, active, remove_schedule-Synced, active-removed}
use smarthome_backend.Database.{
  exec, get_schedules_by_rule_id, delete_schedule, select_where, is_schedule, is_for_rule,
}
use smarthome_backend.Database.Schedules.{
  Up, exec-Up, exec-keeps-Up, Covered, delete_where-Covered, Covered-nil, any-select_where,
  select_where-Covered,
}
use smarthome_backend.Engine.{rules_key, rules_pattern}
use smarthome_backend.Engine.Rules.Keeps.{remove_each-Keeps}
use smarthome_backend.Engine.Rules.{
  Engine, ask, remove_from, remove_each, remove_found, remove_schedules_for_rule, remove_keys,
  remove_rule_associations,
}

module _ (R : Redis) (sets : Sets R) where
  pub members-remove_from :
      (s : R.Store) (rule_id : String) (ks : List String) (j i : String)
      → contains i (R.members (remove_from R s rule_id ks) j)
        ≡ not (contains j ks && rule_id == i) && contains i (R.members s j)
  unfolding remove_from
  members-remove_from s r [] j i = refl
  members-remove_from s r (k ∷ ks) j i =
      rw (members-remove_from (R.srem s k r) r ks j i, sets.members-srem s k j r i) (ground arith)

  pub get-remove_from :
      (s : R.Store) (rule_id : String) (ks : List String) (j : String)
      → R.get (remove_from R s rule_id ks) j ≡ R.get s j
  unfolding remove_from
  get-remove_from s r [] j = refl
  get-remove_from s r (k ∷ ks) j = get-remove_from (R.srem s k r) r ks j ∙ sets.get-srem s k j r

  -- With all keys of the sets listed, the rule goes from all, and no other rule does.
  pub members-removed :
      (s : R.Store) (rule_id : String) (ks : List String) (d i : String)
      → R.keys s rules_pattern ≡ some ks
      → contains i (R.members (remove_from R s rule_id ks) (rules_key d))
        ≡ not (rule_id == i) && contains i (R.members s (rules_key d))
  members-removed s r ks d i h = elim (Bool-cases (contains i (R.members s (rules_key d)))) [
    | inr absent ↦ rw (members-remove_from s r ks (rules_key d) i, absent) (ground arith)
    | inl there ↦
        rw (members-remove_from s r ks (rules_key d) i, sets.keys-members s ks d i h there) refl
  ]

module _ (R : Redis) (C : Cron) where
  remove_each-rows :
      (e : Engine R C) (rule_id : String) (l : List Schedule)
      → Up e.pool
      → Covered rule_id l e.pool.tables.schedules
      → any (is_for_rule rule_id) (remove_each R C e l).pool.tables.schedules ≡ false
  unfolding remove_each delete_schedule
  remove_each-rows e r [] up h = Covered-nil r e.pool.tables.schedules h
  remove_each-rows e r (s ∷ l) up h =
      let e' = record e { scheduler = remove_schedule C e.scheduler s.id } in
      remove_each-rows (ask R C e' (delete_schedule s.id)).1 r l
        (exec-keeps-Up e.pool (delete_schedule s.id) up)
        (rw (exec-Up e.pool (delete_schedule s.id) up)
          (delete_where-Covered r s l e.pool.tables.schedules h))

module _ (R : Redis) (C : Cron) (laws : Registers C) where
  remove_each-active :
      (e : Engine R C) (l : List Schedule) (k : String)
      → Synced C e.scheduler
      → active C (remove_each R C e l).scheduler k
        ≡ (if any (is_schedule k) l then none else active C e.scheduler k)
  unfolding remove_each
  remove_each-active e [] k h = refl
  remove_each-active e (s ∷ l) k h =
      let e' = record e { scheduler = remove_schedule C e.scheduler s.id } in
      rw
        (
          remove_each-active (ask R C e' (delete_schedule s.id)).1 l k
              (remove_schedule-Synced C laws e.scheduler s.id h),
          active-removed C laws e.scheduler s.id k h,
        )
        (ground arith)

module _ (R : Redis) (sets : Sets R) (C : Cron) (laws : Registers C) where
  -- What `RemoveRuleAssociations` leaves of a rule.
  pub record Removed (rule_id : String) (before after : Engine R C) : Type 0 where
    pub in_no_set : (d : String) → contains rule_id (R.members after.store (rules_key d)) ≡ false
    pub others :
        (d i : String)
        → (rule_id == i) ≡ false
        → contains i (R.members after.store (rules_key d))
          ≡ contains i (R.members before.store (rules_key d))
    pub no_row : any (is_for_rule rule_id) after.pool.tables.schedules ≡ false
    pub no_job :
        (s : Schedule)
        → Memᴰ s before.pool.tables.schedules
        → is_for_rule rule_id s ≡ true
        → active C after.scheduler s.id ≡ none
    pub synced : Synced C after.scheduler

  removed_lem :
      (e : Engine R C) (rule_id : String) (ks : List String)
      → Synced C e.scheduler
      → Up e.pool
      → R.keys e.store rules_pattern ≡ some ks
      → Removed rule_id e (
          remove_schedules_for_rule R C
            (record e { store = remove_from R e.store rule_id ks })
            rule_id)
  unfolding remove_schedules_for_rule remove_found get_schedules_by_rule_id
  removed_lem e r ks synced up listed =
      let rows = e.pool.tables.schedules in
      let mine = select_where (is_for_rule r) rows in
      let p = (exec e.pool (get_schedules_by_rule_id r)).1 in
      rw (exec-Up e.pool (get_schedules_by_rule_id r) up) (
        let e' : Engine R C = record e {
          store = remove_from R e.store r ks;
          pool = record e.pool { calls = p.calls };
        } in
        let up' : Up e'.pool = record { reached = up.reached } in
        record {
          in_no_set = λ d.
              rw
                (
                  (remove_each-Keeps R C laws e' mine).store,
                  members-removed R sets e.store r ks d r listed,
                  eq_refl r,
                )
                refl;
          others = λ d i ne.
              rw
                (
                  (remove_each-Keeps R C laws e' mine).store,
                  members-removed R sets e.store r ks d i listed,
                  ne,
                )
                refl;
          no_row = remove_each-rows R C e' r mine up' (select_where-Covered r rows);
          no_job = λ s m own.
              rw (remove_each-active R C laws e' mine s.id synced, any-select_where r rows s m own)
                refl;
          synced = (remove_each-Keeps R C laws e' mine).synced synced;
        })

  -- Where the map and the cron entries of the scheduler belong together, the database answers and
  -- the keys of the sets can be listed, removing the associations of
  -- a rule takes it out of the set of every device and no other rule out of any, deletes its rows
  -- of schedules, and leaves none of them a job in the scheduler.
  pub remove_rule_associations-Removed :
      (e : Engine R C) (rule_id : String) (ks : List String)
      → Synced C e.scheduler
      → Up e.pool
      → R.keys e.store rules_pattern ≡ some ks
      → ((remove_rule_associations R C e rule_id).0 ≡ false)
        × Removed rule_id e (remove_rule_associations R C e rule_id).1
  unfolding remove_rule_associations remove_keys
  remove_rule_associations-Removed e r ks synced up listed =
      rw listed (refl, removed_lem e r ks synced up listed)
