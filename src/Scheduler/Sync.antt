-- ===== src/Scheduler/Sync.antt =====
-- The map and the cron entries belong together, and what the operations do to the active jobs.
pub mod Reload
use smarthome_backend.Prelude.{
  ℕ, String, ◌≡◌, ◌≢◌, refl, sym, ap, ◌==◌, string_Eq, nat_Eq, eq_iff, eq_refl, ◌&&◌, nat_eq_iff,
  Bool, true, false, List, [], ◌∷◌, Option, none, some, arith, if◌then◌else◌, Option-cases,
  Bool-cases, inl, inr,
}
use smarthome_backend.Prelude.Dict.{lookup, insert, delete, lookup-insert, lookup-delete}
use smarthome_backend.Cron.{Cron, Job, Registers}
use smarthome_backend.Scheduler.{
  Scheduler, register, enter, removed, remove_schedule, add_or_update_schedule,
}

module _ (C : Cron) where
  -- Every entry is the one that the map has for its schedule, and every schedule of the map has its
  -- entry.
  pub record Synced (s : Scheduler C) : Type 0 where
    pub mapped :
        (id : ℕ) (job : Job)
        → C.live s.cron id ≡ some job
        → lookup job.schedule_id s.job_map ≡ some id
    pub entered :
        (schedule_id : String) (id : ℕ)
        → lookup schedule_id s.job_map ≡ some id
        → (job : Job) × (C.live s.cron id ≡ some job) × (job.schedule_id ≡ schedule_id)

  abbrev job_of : Scheduler C → Option ℕ → Option Job
  job_of s none = none
  job_of s (some id) = C.live s.cron id

  -- The job that runs for a schedule.
  unfoldable pub active : Scheduler C → String → Option Job
  active s schedule_id = job_of s (lookup schedule_id s.job_map)

module _ (C : Cron) (laws : Registers C) where
  pub remove_schedule-Synced :
      (s : Scheduler C) (schedule_id : String)
      → Synced C s
      → Synced C (remove_schedule C s schedule_id)
  unfolding remove_schedule
  remove_schedule-Synced s k h = elim (Option-cases (lookup k s.job_map)) [
    | inl absent ↦ rw absent h
    | inr (id, found) ↦ rw found (record {
      mapped = λ j job e. ground (
        arith,
        laws.live-remove s.cron id j,
        lookup-delete k job.schedule_id s.job_map,
        h.mapped j job,
        eq_iff k job.schedule_id,
      );
      entered = λ t j e.
          let (job, runs, named) = h.entered t j (ground (arith, lookup-delete k t s.job_map)) in
          (
            job,
            ground (
              arith,
              laws.live-remove s.cron id j,
              lookup-delete k t s.job_map,
              h.mapped j job,
              h.entered k id found,
              eq_iff k t,
            ),
            named,
          );
    })
  ]

  -- A new entry for a schedule that the map does not have.
  pub register-Synced :
      (s : Scheduler C) (schedule_id rule_id spec : String)
      → Synced C s
      → lookup schedule_id s.job_map ≡ none
      → Synced C (register C s schedule_id rule_id spec)
  unfolding register
  register-Synced s k r spec h absent = elim (Bool-cases (C.is_valid spec)) [
    | inr invalid ↦
        rw (laws.add_invalid s.cron spec (record { rule_id = r; schedule_id = k }) invalid) h
    | inl valid ↦
        let job : Job = record { rule_id = r; schedule_id = k } in
        let (id, added, fresh, lives) = laws.add_valid s.cron spec job valid in
        rw added (record {
          mapped = λ j job' e. ground (
            arith,
            lives j,
            lookup-insert k job'.schedule_id id s.job_map,
            h.mapped j job',
            eq_iff k job'.schedule_id,
          );
          entered = λ t j e. elim (Bool-cases (k == t)) [
            | inl same ↦
                (job, ground (arith, lives j, lookup-insert k t id s.job_map), (eq_iff k t).0 same)
            | inr other ↦
                let (job', runs, named) =
                  h.entered t j (ground (arith, lookup-insert k t id s.job_map)) in
                (job', ground (arith, lives j), named)
          ];
        })
  ]

  lookup-removed :
      (s : Scheduler C) (k t : String)
      → lookup t (remove_schedule C s k).job_map ≡ (if k == t then none else lookup t s.job_map)
  unfolding remove_schedule
  lookup-removed s k t = elim (Option-cases (lookup k s.job_map)) [
    | inl absent ↦ rw absent (ground (arith, eq_iff k t))
    | inr (id, found) ↦ rw found (lookup-delete k t s.job_map)
  ]

  -- From a scheduler whose map and cron entries belong together, adding or updating a schedule
  -- leaves such a scheduler, whether or not the schedule is enabled, is known, or has an expression
  -- that parses.
  pub add_or_update_schedule-Synced :
      (s : Scheduler C) (schedule_id rule_id spec : String) (enabled : Bool)
      → Synced C s
      → Synced C (add_or_update_schedule C s schedule_id rule_id spec enabled)
  unfolding add_or_update_schedule
  add_or_update_schedule-Synced s k r spec false h = remove_schedule-Synced s k h
  add_or_update_schedule-Synced s k r spec true h =
      register-Synced (remove_schedule C s k) k r spec (remove_schedule-Synced s k h)
        (ground (arith, lookup-removed s k k, eq_refl k))

  pub active-removed :
      (s : Scheduler C) (k t : String)
      → Synced C s
      → active C (remove_schedule C s k) t ≡ (if k == t then none else active C s t)
  unfolding active remove_schedule
  active-removed s k t h = elim (Option-cases (lookup k s.job_map)) [
    | inl absent ↦ rw absent (ground (arith, eq_iff k t))
    | inr (id, found) ↦ rw found (elim (Option-cases (lookup t s.job_map)) [
      | inl none_there ↦ ground (arith, lookup-delete k t s.job_map)
      | inr (j, there) ↦ ground (
        arith,
        lookup-delete k t s.job_map,
        laws.live-remove s.cron id j,
        h.entered k id found,
        h.entered t j there,
        eq_iff k t,
      )
    ])
  ]

  pub active-register :
      (s : Scheduler C) (k r spec t : String)
      → Synced C s
      → active C (register C s k r spec) t ≡ (
          if k == t && C.is_valid spec
          then some (record { rule_id = r; schedule_id = k })
          else active C s t)
  unfolding active register
  active-register s k r spec t h = elim (Bool-cases (C.is_valid spec)) [
    | inr invalid ↦
        rw (laws.add_invalid s.cron spec (record { rule_id = r; schedule_id = k }) invalid)
          (ground arith)
    | inl valid ↦
        let job : Job = record { rule_id = r; schedule_id = k } in
        let (id, added, fresh, lives) = laws.add_valid s.cron spec job valid in
        rw added (elim (Option-cases (lookup t s.job_map)) [
          | inl absent ↦ ground (arith, lookup-insert k t id s.job_map, lives id)
          | inr (j, there) ↦
              ground (arith, lookup-insert k t id s.job_map, lives id, lives j, h.entered t j there)
        ])
  ]

  -- On a scheduler whose map and cron entries belong together: after adding or updating a schedule,
  -- it has the job of its rule if it is enabled and its expression parses, and no job otherwise;
  -- every other schedule has the job that it had.
  pub active-add_or_update_schedule :
      (s : Scheduler C) (k r spec t : String) (enabled : Bool)
      → Synced C s
      → active C (add_or_update_schedule C s k r spec enabled) t ≡ (
          if k == t
          then (if enabled && C.is_valid spec
              then some (record { rule_id = r; schedule_id = k })
              else none)
          else active C s t)
  unfolding add_or_update_schedule
  active-add_or_update_schedule s k r spec t false h = active-removed s k t h
  active-add_or_update_schedule s k r spec t true h = ground (
    arith,
    active-removed s k t h,
    active-register (remove_schedule C s k) k r spec t (remove_schedule-Synced s k h),
  )
