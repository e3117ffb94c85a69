-- ===== src/Scheduler/Sync/Reload.antt =====
-- Reloading starts from nothing; loading over what is there leaves entries behind.
use smarthome_backend.Prelude.{
  ℕ, String, ◌≡◌, ◌≢◌, refl, ap, ◌∙◌, ◌==◌, string_Eq, nat_Eq, eq_iff, eq_refl, nat_eq_iff, ◌&&◌,
  true, List, [], ◌∷◌, Option, none, some, arith, if◌then◌else◌, Option-cases, Bool-cases, inl, inr,
  All, any,
}
use smarthome_backend.Prelude.Dict.{lookup, lookup-insert}
use smarthome_backend.Models.{Schedule}
use smarthome_backend.Cron.{Cron, Job, Registers}
use smarthome_backend.Scheduler.{
  Scheduler, enter, register, load_all, load_schedules, remove_all, reload_schedules,
}
use smarthome_backend.Scheduler.Sync.{Synced, active, register-Synced, active-register}

-- The IDs of the schedules are different: the column is a primary key.
abbrev pub Distinct : List Schedule → Type 0
Distinct [] = Unit
Distinct (sch ∷ rest) = All (λ (t : Schedule). t.id ≢ sch.id) rest × Distinct rest

module _ (C : Cron) (laws : Registers C) where
  live-remove_all :
      (c : C.State) (m : List (String × ℕ)) (j : ℕ)
      → C.live (remove_all C c m) j ≡ (if any (λ p. p.1 == j) m then none else C.live c j)
  unfolding remove_all
  live-remove_all c [] j = refl
  live-remove_all c ((k, id) ∷ m) j =
      ground (arith, live-remove_all (C.remove c id) m j, laws.live-remove c id j)

  mapped-any :
      (k : String) (m : List (String × ℕ)) (j : ℕ)
      → lookup k m ≡ some j
      → any (λ p. p.1 == j) m ≡ true
  unfolding lookup
  mapped-any k [] j h = cc
  mapped-any k ((i, id) ∷ m) j h = ground (arith, mapped-any k m j, nat_eq_iff id j)

  abbrev cleared : Scheduler C → Scheduler C
  cleared s = record { cron = remove_all C s.cron s.job_map; job_map = [] }

  cleared-live : (s : Scheduler C) (j : ℕ) → Synced C s → C.live (cleared s).cron j ≡ none
  cleared-live s j h = elim (Option-cases (C.live s.cron j)) [
    | inl gone ↦ ground (arith, live-remove_all s.cron s.job_map j)
    | inr (job, runs) ↦ ground (
      arith,
      live-remove_all s.cron s.job_map j,
      mapped-any job.schedule_id s.job_map j (h.mapped j job runs),
    )
  ]

  cleared-Synced : (s : Scheduler C) → Synced C s → Synced C (cleared s)
  unfolding lookup
  cleared-Synced s h = record {
    mapped = λ j job e. cc (e, cleared-live s j h);
    entered = λ k j e. cc;
  }

  -- What the list wants for a schedule: the job of an enabled one whose expression parses.
  abbrev pub wanted : List Schedule → String → Option Job → Option Job
  wanted [] k o = o
  wanted (sch ∷ rest) k o = wanted rest k (
      if sch.id == k && (sch.enabled && C.is_valid sch.cron_expression)
      then some (record { rule_id = sch.rule_id; schedule_id = sch.id })
      else o)

  abbrev Unknown : Scheduler C → List Schedule → Type 0
  Unknown s = All (λ (sch : Schedule). lookup sch.id s.job_map ≡ none)

  abbrev loaded_one : Scheduler C → Schedule → Scheduler C
  loaded_one s sch = if sch.enabled then register C s sch.id sch.rule_id sch.cron_expression else s

  loaded_one-Synced :
      (s : Scheduler C) (sch : Schedule)
      → Synced C s
      → lookup sch.id s.job_map ≡ none
      → Synced C (loaded_one s sch)
  loaded_one-Synced s sch h absent = elim (Bool-cases sch.enabled) [
    | inl on ↦ rw on (register-Synced C laws s sch.id sch.rule_id sch.cron_expression h absent)
    | inr off ↦ rw off h
  ]

  lookup-enter :
      (s : Scheduler C) (i k : String) (o : Option ℕ) (c : C.State)
      → k ≢ i
      → lookup k s.job_map ≡ none
      → lookup k (enter C s i o c).job_map ≡ none
  lookup-enter s i k none c other absent = absent
  lookup-enter s i k (some id) c other absent =
      ground (arith, lookup-insert i k id s.job_map, eq_iff i k)

  lookup-loaded_one :
      (s : Scheduler C) (sch : Schedule) (k : String)
      → k ≢ sch.id
      → lookup k s.job_map ≡ none
      → lookup k (loaded_one s sch).job_map ≡ none
  unfolding register
  lookup-loaded_one s sch k other absent = elim (Bool-cases sch.enabled) [
    | inl on ↦ rw on (lookup-enter s sch.id k _ _ other absent)
    | inr off ↦ rw off absent
  ]

  Unknown-loaded_one :
      (s : Scheduler C) (sch : Schedule) (l : List Schedule)
      → All (λ (t : Schedule). t.id ≢ sch.id) l
      → Unknown s l
      → Unknown (loaded_one s sch) l
  Unknown-loaded_one s sch [] d u = tt
  Unknown-loaded_one s sch (t ∷ l) d u =
      (lookup-loaded_one s sch t.id d.0 u.0, Unknown-loaded_one s sch l d.1 u.1)

  loaded_one-active :
      (s : Scheduler C) (sch : Schedule) (k : String)
      → Synced C s
      → active C (loaded_one s sch) k ≡ (
          if sch.id == k && (sch.enabled && C.is_valid sch.cron_expression)
          then some (record { rule_id = sch.rule_id; schedule_id = sch.id })
          else active C s k)
  loaded_one-active s sch k h = elim (Bool-cases sch.enabled) [
    | inl on ↦ rw on (active-register C laws s sch.id sch.rule_id sch.cron_expression k h)
    | inr off ↦ rw off (ground arith)
  ]

  load_all_lem :
      (s : Scheduler C) (l : List Schedule)
      → Synced C s
      → Unknown s l
      → Distinct l
      → Synced C (load_all C s l)
        × ((k : String) → active C (load_all C s l) k ≡ wanted l k (active C s k))
  unfolding load_all
  load_all_lem s [] h u d = (h, λ k. refl)
  load_all_lem s (sch ∷ l) h u d =
      let (synced, jobs) =
        load_all_lem (loaded_one s sch) l (loaded_one-Synced s sch h u.0)
          (Unknown-loaded_one s sch l d.0 u.1) d.1 in
      (synced, λ k. jobs k ∙ ap (wanted l k) (loaded_one-active s sch k h))

  Unknown-cleared : (s : Scheduler C) (l : List Schedule) → Unknown (cleared s) l
  unfolding lookup
  Unknown-cleared s [] = tt
  Unknown-cleared s (sch ∷ l) = (refl, Unknown-cleared s l)

  active-cleared : (s : Scheduler C) (k : String) → active C (cleared s) k ≡ none
  unfolding active lookup
  active-cleared s k = refl

  -- From a scheduler whose map and cron entries belong together, reloading schedules with different
  -- IDs leaves such a scheduler, in which exactly the enabled schedules whose expression parses have
  -- a job, that of their rule.
  pub active-reload_schedules :
      (s : Scheduler C) (l : List Schedule)
      → Synced C s
      → Distinct l
      → Synced C (reload_schedules C s (some l)).0
        × ((k : String) → active C (reload_schedules C s (some l)).0 k ≡ wanted l k none)
  unfolding reload_schedules
  active-reload_schedules s l h d =
      let (synced, jobs) =
        load_all_lem (cleared s) l (cleared-Synced s h) (Unknown-cleared s l) d in
      (synced, λ k. jobs k ∙ ap (wanted l k) (active-cleared s k))

  -- From a scheduler whose map and cron entries belong together, reloading returns an error if the
  -- query fails, and then no cron entry is left.
  pub reload_schedules_failed :
      (s : Scheduler C)
      → Synced C s
      → ((reload_schedules C s none).1 ≡ true)
        × ((id : ℕ) → C.live (reload_schedules C s none).0.cron id ≡ none)
  unfolding reload_schedules
  reload_schedules_failed s h = (refl, λ id. cleared-live s id h)

  -- On a scheduler whose map and cron entries belong together, loading an enabled schedule with an
  -- expression that parses, for which the map has an entry already, leaves a scheduler whose map
  -- and cron entries do not belong together.
  pub load_schedules-not-Synced :
      (s : Scheduler C) (sch : Schedule) (id : ℕ)
      → Synced C s
      → lookup sch.id s.job_map ≡ some id
      → sch.enabled ≡ true
      → C.is_valid sch.cron_expression ≡ true
      → ¬ Synced C (load_schedules C s (some (sch ∷ []))).0
  unfolding load_schedules register
  load_schedules-not-Synced s sch id h found on valid after =
      let job : Job = record { rule_id = sch.rule_id; schedule_id = sch.id } in
      let (id', added, fresh, lives) = laws.add_valid s.cron sch.cron_expression job valid in
      let (old, runs, named) = h.entered sch.id id found in
      let reloaded = rw (on, added) at after in
      ground (
        arith,
        lives id,
        reloaded.mapped id old,
        lookup-insert sch.id sch.id id' s.job_map,
        eq_refl sch.id,
      )
