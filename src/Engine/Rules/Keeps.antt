-- ===== src/Engine/Rules/Keeps.antt =====
-- What the engine's work on the schedules of a rule leaves alone.
use smarthome_backend.Prelude.{
  String, ◌≡◌, refl, ◌∙◌, string_Eq, Bool, true, false, List, [], ◌∷◌, Option, none, some, any,
  if◌then◌else◌, Bool-cases, inl, inr,
}
use smarthome_backend.Models.{Rule, Schedule}
use smarthome_backend.Redis.{Redis}
use smarthome_backend.Cron.{Cron, Registers}
use smarthome_backend.Scheduler.{remove_schedule}
use smarthome_backend.Scheduler.Sync.{Synced, add_or_update_schedule-Synced, remove_schedule-Synced}
use smarthome_backend.Database.{
  Statement, Tables, Pool, exec, has_rule_id, get_rule_by_id, get_schedules_by_rule_id,
  create_schedule, update_schedule, delete_schedule, get_schedule_by_rule_and_cron,
}
use smarthome_backend.Automation.TimeExtractor.{
  TimeCondition, extract_time_conditions, convert_to_cron_expression, has_time_conditions,
}
use smarthome_backend.Engine.Rules.{
  Engine, ask, remove_each, remove_found, remove_schedules_for_rule, schedule, schedule_if,
  ensure_schedule, create_for_time, create_for_times, create_schedules_from_time_conditions,
  schedule_all, schedule_found, refresh_times, refresh_schedules_for_rule,
}

pub exec-rules :
    {A : Type 0} (p : Pool) (f : Statement A)
    → ((t : Tables) → (f t).1.rules ≡ t.rules)
    → (exec p f).1.tables.rules ≡ p.tables.rules
unfolding exec
exec-rules p f h = elim (Bool-cases (p.answers p.calls)) [
  | inl reached ↦ rw reached (h p.tables)
  | inr lost ↦ rw lost refl
]

exec-answers : {A : Type 0} (p : Pool) (f : Statement A) → (exec p f).1.answers ≡ p.answers
unfolding exec
exec-answers p f = refl

create_schedule-rules :
    (rule_id spec : String) (enabled : Bool) (t : Tables)
    → (create_schedule rule_id spec enabled t).1.rules ≡ t.rules
unfolding create_schedule
create_schedule-rules r spec enabled t = elim (Bool-cases (any (has_rule_id r) t.rules)) [
  | inl there ↦ rw there refl
  | inr absent ↦ rw absent refl
]

update_schedule-rules :
    (id spec : String) (enabled : Bool) (t : Tables)
    → (update_schedule id spec enabled t).1.rules ≡ t.rules
unfolding update_schedule
update_schedule-rules id spec enabled t = refl

module _ (R : Redis) (C : Cron) where
  -- The sets, the rows of rules, the connection and the queue are left alone, and the map and the cron entries
  -- go on belonging together.
  pub record Keeps (e e' : Engine R C) : Type 0 where
    pub store : e'.store ≡ e.store
    pub synced : Synced C e.scheduler → Synced C e'.scheduler
    pub rules : e'.pool.tables.rules ≡ e.pool.tables.rules
    pub answers : e'.pool.answers ≡ e.pool.answers
    pub queue : e'.queue ≡ e.queue

  pub Keeps-refl : (e : Engine R C) → Keeps e e
  Keeps-refl e = record {
    store = refl;
    synced = λ h. h;
    rules = refl;
    answers = refl;
    queue = refl;
  }

  pub Keeps-trans : {d e f : Engine R C} → Keeps d e → Keeps e f → Keeps d f
  Keeps-trans k l = record {
    store = l.store ∙ k.store;
    synced = λ h. l.synced (k.synced h);
    rules = l.rules ∙ k.rules;
    answers = l.answers ∙ k.answers;
    queue = l.queue ∙ k.queue;
  }

  pub ask-Keeps :
      {A : Type 0} (e : Engine R C) (f : Statement A)
      → ((t : Tables) → (f t).1.rules ≡ t.rules)
      → Keeps e (ask R C e f).1
  ask-Keeps e f h = record {
    store = refl;
    synced = λ k. k;
    rules = exec-rules e.pool f h;
    answers = exec-answers e.pool f;
    queue = refl;
  }

  ensure_schedule-Keeps :
      (e : Engine R C) (rule_id spec : String) (enabled : Bool) (o : Option Schedule)
      → Keeps e (ensure_schedule R C e rule_id spec enabled o).1
  unfolding ensure_schedule
  ensure_schedule-Keeps e r spec enabled none =
      ask-Keeps e (create_schedule r spec enabled) (create_schedule-rules r spec enabled)
  ensure_schedule-Keeps e r spec enabled (some s) =
      ask-Keeps e (update_schedule s.id spec enabled) (update_schedule-rules s.id spec enabled)

module _ (R : Redis) (C : Cron) (laws : Registers C) where
  schedule-Keeps :
      (e : Engine R C) (id rule_id spec : String) (enabled : Bool)
      → Keeps R C e (schedule R C e id rule_id spec enabled)
  schedule-Keeps e id r spec enabled = record {
    store = refl;
    synced = λ h. add_or_update_schedule-Synced C laws e.scheduler id r spec enabled h;
    rules = refl;
    answers = refl;
    queue = refl;
  }

  schedule_if-Keeps :
      (e : Engine R C) (rule_id spec : String) (enabled : Bool) (o : Option String)
      → Keeps R C e (schedule_if R C e rule_id spec enabled o)
  unfolding schedule_if
  schedule_if-Keeps e r spec enabled none = Keeps-refl R C e
  schedule_if-Keeps e r spec enabled (some id) = schedule-Keeps e id r spec enabled

  create_for_time-Keeps :
      (e : Engine R C) (rule_id : String) (enabled : Bool) (tc : TimeCondition)
      → Keeps R C e (create_for_time R C e rule_id enabled tc)
  unfolding create_for_time get_schedule_by_rule_and_cron
  create_for_time-Keeps e r enabled tc =
      let spec = convert_to_cron_expression tc in
      let (existing, e1) = ask R C e (get_schedule_by_rule_and_cron r spec) in
      let (id, e2) = ensure_schedule R C e1 r spec enabled existing in
      Keeps-trans R C (ask-Keeps R C e (get_schedule_by_rule_and_cron r spec) (λ t. refl)) (
        Keeps-trans R C (ensure_schedule-Keeps R C e1 r spec enabled existing)
          (schedule_if-Keeps e2 r spec enabled id))

  create_for_times-Keeps :
      (e : Engine R C) (rule_id : String) (enabled : Bool) (l : List TimeCondition)
      → Keeps R C e (create_for_times R C e rule_id enabled l)
  unfolding create_for_times
  create_for_times-Keeps e r enabled [] = Keeps-refl R C e
  create_for_times-Keeps e r enabled (tc ∷ l) =
      Keeps-trans R C (create_for_time-Keeps e r enabled tc)
        (create_for_times-Keeps (create_for_time R C e r enabled tc) r enabled l)

  schedule_all-Keeps : (e : Engine R C) (l : List Schedule) → Keeps R C e (schedule_all R C e l)
  unfolding schedule_all
  schedule_all-Keeps e [] = Keeps-refl R C e
  schedule_all-Keeps e (s ∷ l) =
      Keeps-trans R C (schedule-Keeps e s.id s.rule_id s.cron_expression s.enabled)
        (schedule_all-Keeps (schedule R C e s.id s.rule_id s.cron_expression s.enabled) l)

  schedule_found-Keeps :
      (e : Engine R C) (o : Option (List Schedule)) → Keeps R C e (schedule_found R C e o)
  unfolding schedule_found
  schedule_found-Keeps e none = Keeps-refl R C e
  schedule_found-Keeps e (some l) = schedule_all-Keeps e l

  create_if-Keeps :
      (e : Engine R C) (rule_id : String) (rule : Rule) (b : Bool)
      → Keeps R C e (
          if b
          then create_schedules_from_time_conditions R C e rule_id rule.conditions rule.enabled
          else e)
  unfolding create_schedules_from_time_conditions
  create_if-Keeps e r rule true =
      create_for_times-Keeps e r rule.enabled (extract_time_conditions rule.conditions)
  create_if-Keeps e r rule false = Keeps-refl R C e

  refresh_times-Keeps :
      (e : Engine R C) (rule_id : String) (o : Option Rule)
      → Keeps R C e (refresh_times R C e rule_id o)
  unfolding refresh_times get_schedules_by_rule_id
  refresh_times-Keeps e r none = Keeps-refl R C e
  refresh_times-Keeps e r (some rule) =
      let e1 =
        if has_time_conditions rule.conditions
        then create_schedules_from_time_conditions R C e r rule.conditions rule.enabled
        else e in
      let (schedules, e2) = ask R C e1 (get_schedules_by_rule_id r) in
      Keeps-trans R C (create_if-Keeps e r rule (has_time_conditions rule.conditions)) (
        Keeps-trans R C (ask-Keeps R C e1 (get_schedules_by_rule_id r) (λ t. refl))
          (schedule_found-Keeps e2 schedules))

  pub refresh_schedules-Keeps :
      (e : Engine R C) (rule_id : String) → Keeps R C e (refresh_schedules_for_rule R C e rule_id)
  unfolding refresh_schedules_for_rule get_rule_by_id
  refresh_schedules-Keeps e r =
      let (rule, e') = ask R C e (get_rule_by_id r) in
      Keeps-trans R C (ask-Keeps R C e (get_rule_by_id r) (λ t. refl))
        (refresh_times-Keeps e' r rule)

  pub remove_each-Keeps : (e : Engine R C) (l : List Schedule) → Keeps R C e (remove_each R C e l)
  unfolding remove_each delete_schedule
  remove_each-Keeps e [] = Keeps-refl R C e
  remove_each-Keeps e (s ∷ l) =
      let e' : Engine R C = record e { scheduler = remove_schedule C e.scheduler s.id } in
      let stopped : Keeps R C e e' = record {
        store = refl;
        synced = λ h. remove_schedule-Synced C laws e.scheduler s.id h;
        rules = refl;
        answers = refl;
        queue = refl;
      } in
      Keeps-trans R C stopped (
        Keeps-trans R C (ask-Keeps R C e' (delete_schedule s.id) (λ t. refl))
          (remove_each-Keeps (ask R C e' (delete_schedule s.id)).1 l))

  remove_found-Keeps :
      (e : Engine R C) (o : Option (List Schedule)) → Keeps R C e (remove_found R C e o)
  unfolding remove_found
  remove_found-Keeps e none = Keeps-refl R C e
  remove_found-Keeps e (some l) = remove_each-Keeps e l

  pub remove_schedules-Keeps :
      (e : Engine R C) (rule_id : String) → Keeps R C e (remove_schedules_for_rule R C e rule_id)
  unfolding remove_schedules_for_rule get_schedules_by_rule_id
  remove_schedules-Keeps e r =
      let (schedules, e') = ask R C e (get_schedules_by_rule_id r) in
      Keeps-trans R C (ask-Keeps R C e (get_schedules_by_rule_id r) (λ t. refl))
        (remove_found-Keeps e' schedules)
