-- ===== src/Scheduler.antt =====
-- internal/scheduler/scheduler.go: the cron entries of the schedules. The mutex is not modelled:
-- each method runs alone. Loading and reloading say whether there was an error; the error of
-- AddOrUpdateSchedule, which its callers only log, is left out.
pub mod Sync
use smarthome_backend.Prelude.{
  ℕ, String, ◌==◌, string_Eq, Bool, true, false, List, [], ◌∷◌, Option, none, some, length,
  if◌then◌else◌,
}
use smarthome_backend.Prelude.Dict.{lookup, insert, delete}
use smarthome_backend.Models.{Schedule}
use smarthome_backend.Cron.{Cron, Job}

module _ (C : Cron) where
  pub record Scheduler : Type 0 where
    pub cron : C.State
    pub job_map : List (String × ℕ)

  -- What `AddJob` returned, entered into the map.
  abbrev pub enter : Scheduler → String → Option ℕ → C.State → Scheduler
  enter s schedule_id none c = record s { cron = c }
  enter s schedule_id (some id) c = record { cron = c; job_map = insert schedule_id id s.job_map }

  -- AddJob, with the closure that enqueues the rule, and the write to the map behind it.
  unfoldable pub register : Scheduler → String → String → String → Scheduler
  register s schedule_id rule_id spec =
      let (id, c) = C.add s.cron spec (record { rule_id = rule_id; schedule_id = schedule_id }) in
      enter s schedule_id id c

  -- The loop of `LoadSchedules`.
  unfoldable pub load_all : Scheduler → List Schedule → Scheduler
  unfolding register
  load_all s [] = s
  load_all s (sch ∷ rest) =
      load_all (if sch.enabled then register s sch.id sch.rule_id sch.cron_expression else s) rest

  -- The schedules are what the database returns, none on an error; the flag says that the method
  -- returned an error.
  unfoldable pub load_schedules : Scheduler → Option (List Schedule) → Scheduler × Bool
  unfolding load_all
  load_schedules s none = (s, true)
  load_schedules s (some schedules) = (load_all s schedules, false)

  unfoldable pub remove_all : C.State → List (String × ℕ) → C.State
  remove_all c [] = c
  remove_all c ((schedule_id, id) ∷ m) = remove_all (C.remove c id) m

  unfoldable pub reload_schedules : Scheduler → Option (List Schedule) → Scheduler × Bool
  unfolding remove_all load_schedules
  reload_schedules s schedules =
      load_schedules (record { cron = remove_all s.cron s.job_map; job_map = [] }) schedules

  abbrev pub removed : Scheduler → String → Option ℕ → Scheduler
  removed s schedule_id none = s
  removed s schedule_id (some id) = record {
    cron = C.remove s.cron id;
    job_map = delete schedule_id s.job_map;
  }

  unfoldable pub remove_schedule : Scheduler → String → Scheduler
  remove_schedule s schedule_id = removed s schedule_id (lookup schedule_id s.job_map)

  unfoldable pub add_or_update_schedule : Scheduler → String → String → String → Bool → Scheduler
  unfolding remove_schedule register
  add_or_update_schedule s schedule_id rule_id spec enabled =
      let s' = remove_schedule s schedule_id in
      if enabled then register s' schedule_id rule_id spec else s'

  unfoldable pub scheduled_job_count : Scheduler → ℕ
  scheduled_job_count s = length s.job_map
