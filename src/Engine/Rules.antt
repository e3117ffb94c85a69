-- ===== src/Engine/Rules.antt =====
-- internal/engine/engine.go: what follows from a new, a changed or a deleted rule, in Redis, in the
-- table of schedules and in the scheduler. An enqueued evaluation is a rule and a device.
pub mod Keeps
pub mod Removal
pub mod Refreshing
pub mod Commands
pub mod Others
use smarthome_backend.Prelude.{
  ℕ, ◌+◌, String, ◌==◌, string_Eq, Bool, true, false, List, [], ◌∷◌, ◌++◌, Option, none, some,
  if◌then◌else◌,
}
use smarthome_backend.Models.{Rule, Schedule, Condition}
use smarthome_backend.Redis.{Redis}
use smarthome_backend.Cron.{Cron}
use smarthome_backend.Scheduler.{
  Scheduler, load_schedules, reload_schedules, remove_schedule, add_or_update_schedule,
}
use smarthome_backend.Database.{
  Statement, Pool, exec, get_all_schedules, get_rule_by_id, get_all_rules, get_schedules_by_rule_id,
  create_schedule, update_schedule, delete_schedule, get_schedule_by_rule_and_cron,
}
use smarthome_backend.Automation.TimeExtractor.{
  TimeCondition, extract_time_conditions, convert_to_cron_expression, has_time_conditions,
}
use smarthome_backend.Engine.{rules_pattern, extract_device_ids, add_rule, populate_associations}

-- The queue as the engine calls it: the evaluations in it, and whether a numbered call of Enqueue
-- works.
pub record Queue : Type 0 where
  pub tasks : List (String × String)
  pub enqueues : ℕ → Bool
  pub enqueued : ℕ

-- An evaluation that cannot be enqueued is lost: the error is not looked at.
unfoldable pub enqueue_evaluation : Queue → String × String → Queue
enqueue_evaluation q t = record q {
  tasks = if q.enqueues q.enqueued then q.tasks ++ t ∷ [] else q.tasks;
  enqueued = q.enqueued + 1;
}

module _ (R : Redis) where
  -- SREM of the rule from each key
  unfoldable pub remove_from : R.Store → String → List String → R.Store
  remove_from s rule_id [] = s
  remove_from s rule_id (key ∷ more) = remove_from (R.srem s key rule_id) rule_id more

module _ (R : Redis) (C : Cron) where
  pub record Engine : Type 0 where
    pub store : R.Store
    pub scheduler : Scheduler C
    pub pool : Pool
    pub queue : Queue

  abbrev pub ask : {A : Type 0} → Engine → Statement A → Option A × Engine
  ask e f = let (r, p) = exec e.pool f in (r, record e { pool = p })

  abbrev pub schedule : Engine → String → String → String → Bool → Engine
  schedule e id rule_id spec enabled = record e {
    scheduler = add_or_update_schedule C e.scheduler id rule_id spec enabled;
  }

  -- Without an ID the loop goes on to the next time.
  unfoldable pub schedule_if : Engine → String → String → Bool → Option String → Engine
  schedule_if e rule_id spec enabled none = e
  schedule_if e rule_id spec enabled (some id) = schedule e id rule_id spec enabled

  abbrev pub instead {ℓ} : {A : Type ℓ} → A → Option (Unit {0}) → Option A
  instead a none = none
  instead a (some _) = some a

  -- The ID of the schedule that is created or updated, if that works.
  unfoldable pub ensure_schedule :
      Engine → String → String → Bool → Option Schedule → Option String × Engine
  ensure_schedule e rule_id spec enabled none = ask e (create_schedule rule_id spec enabled)
  ensure_schedule e rule_id spec enabled (some existing) =
      let (r, e') = ask e (update_schedule existing.id spec enabled) in (instead existing.id r, e')

  -- One round of the loop over the times.
  unfoldable pub create_for_time : Engine → String → Bool → TimeCondition → Engine
  unfolding ensure_schedule schedule_if
  create_for_time e rule_id enabled tc =
      let spec = convert_to_cron_expression tc in
      let (existing, e1) = ask e (get_schedule_by_rule_and_cron rule_id spec) in
      let (id, e2) = ensure_schedule e1 rule_id spec enabled existing in
      schedule_if e2 rule_id spec enabled id

  unfoldable pub create_for_times : Engine → String → Bool → List TimeCondition → Engine
  unfolding create_for_time
  create_for_times e rule_id enabled [] = e
  create_for_times e rule_id enabled (tc ∷ rest) =
      create_for_times (create_for_time e rule_id enabled tc) rule_id enabled rest

  unfoldable pub create_schedules_from_time_conditions :
      Engine → String → Option Condition → Bool → Engine
  unfolding create_for_times
  create_schedules_from_time_conditions e rule_id conditions enabled =
      create_for_times e rule_id enabled (extract_time_conditions conditions)

  unfoldable pub schedule_all : Engine → List Schedule → Engine
  schedule_all e [] = e
  schedule_all e (s ∷ rest) =
      schedule_all (schedule e s.id s.rule_id s.cron_expression s.enabled) rest

  unfoldable pub schedule_found : Engine → Option (List Schedule) → Engine
  unfolding schedule_all
  schedule_found e none = e
  schedule_found e (some schedules) = schedule_all e schedules

  unfoldable pub refresh_times : Engine → String → Option Rule → Engine
  unfolding create_schedules_from_time_conditions schedule_found
  refresh_times e rule_id none = e
  refresh_times e rule_id (some rule) =
      let e1 =
        if has_time_conditions rule.conditions
        then create_schedules_from_time_conditions e rule_id rule.conditions rule.enabled
        else e in
      let (schedules, e2) = ask e1 (get_schedules_by_rule_id rule_id) in schedule_found e2 schedules

  unfoldable pub refresh_schedules_for_rule : Engine → String → Engine
  unfolding refresh_times
  refresh_schedules_for_rule e rule_id =
      let (rule, e') = ask e (get_rule_by_id rule_id) in refresh_times e' rule_id rule

  -- The first component says that there was an error.
  unfoldable pub refresh_enabled : Engine → String → Rule → Option Condition → Bool × Engine
  unfolding refresh_schedules_for_rule
  refresh_enabled e rule_id rule none = (true, e)
  refresh_enabled e rule_id rule (some c) = (
    false,
    refresh_schedules_for_rule
        (record e { store = add_rule R e.store rule.id (extract_device_ids c) }) rule_id,
  )

  unfoldable pub refresh_keys : Engine → String → Rule → Option (List String) → Bool × Engine
  unfolding refresh_enabled remove_from
  refresh_keys e rule_id rule none = (true, e)
  refresh_keys e rule_id rule (some keys) =
      let e' = record e { store = remove_from R e.store rule_id keys } in
      if rule.enabled then refresh_enabled e' rule_id rule rule.conditions else (false, e')

  unfoldable pub refresh_rule : Engine → String → Option Rule → Bool × Engine
  unfolding refresh_keys
  refresh_rule e rule_id none = (true, e)
  refresh_rule e rule_id (some rule) = refresh_keys e rule_id rule (R.keys e.store rules_pattern)

  unfoldable pub refresh_rule_associations : Engine → String → Bool × Engine
  unfolding refresh_rule
  refresh_rule_associations e rule_id =
      let (rule, e') = ask e (get_rule_by_id rule_id) in refresh_rule e' rule_id rule

  -- Whether the row could be deleted is only logged.
  unfoldable pub remove_each : Engine → List Schedule → Engine
  remove_each e [] = e
  remove_each e (s ∷ rest) =
      let e' = record e { scheduler = remove_schedule C e.scheduler s.id } in
      remove_each (ask e' (delete_schedule s.id)).1 rest

  unfoldable pub remove_found : Engine → Option (List Schedule) → Engine
  unfolding remove_each
  remove_found e none = e
  remove_found e (some schedules) = remove_each e schedules

  unfoldable pub remove_schedules_for_rule : Engine → String → Engine
  unfolding remove_found
  remove_schedules_for_rule e rule_id =
      let (schedules, e') = ask e (get_schedules_by_rule_id rule_id) in remove_found e' schedules

  unfoldable pub remove_keys : Engine → String → Option (List String) → Bool × Engine
  unfolding remove_schedules_for_rule remove_from
  remove_keys e rule_id none = (true, e)
  remove_keys e rule_id (some keys) = (
    false,
    remove_schedules_for_rule (record e { store = remove_from R e.store rule_id keys }) rule_id,
  )

  unfoldable pub remove_rule_associations : Engine → String → Bool × Engine
  unfolding remove_keys
  remove_rule_associations e rule_id = remove_keys e rule_id (R.keys e.store rules_pattern)

  unfoldable pub refresh_all_rule_associations : Engine → Bool × Engine
  refresh_all_rule_associations e =
      let (rules, e') = ask e get_all_rules in
      let (store, error) = populate_associations R e'.store rules in
      (error, record e' { store = store })

  unfoldable pub reload_all_schedules : Engine → Bool × Engine
  reload_all_schedules e =
      let (schedules, e') = ask e get_all_schedules in
      let (scheduler, error) = reload_schedules C e'.scheduler schedules in
      (error, record e' { scheduler = scheduler })

  unfoldable pub load_all_schedules : Engine → Bool × Engine
  load_all_schedules e =
      let (schedules, e') = ask e get_all_schedules in
      let (scheduler, error) = load_schedules C e'.scheduler schedules in
      (error, record e' { scheduler = scheduler })

  -- `Start`, behind the subscription to the states of devices.
  unfoldable pub start : Engine → Bool × Engine
  unfolding load_all_schedules refresh_all_rule_associations
  start e =
      let (error, e') = load_all_schedules e in
      if error then (true, e') else refresh_all_rule_associations e'

  unfoldable pub trigger_rule_evaluation : Engine → String → Engine
  unfolding enqueue_evaluation
  trigger_rule_evaluation e rule_id = record e { queue = enqueue_evaluation e.queue (rule_id, "") }
