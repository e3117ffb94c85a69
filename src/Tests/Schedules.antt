-- ===== src/Tests/Schedules.antt =====
-- The scheduler over the in-memory cron.
use smarthome_backend.Prelude.{
  ℕ, String, ◌≡◌, refl, string_Eq, true, List, [], ◌∷◌, none, some, arith, eq_iff,
}
use smarthome_backend.Prelude.Dict.{lookup, insert}
use smarthome_backend.Models.{Schedule}
use smarthome_backend.Scheduler.{
  Scheduler, load_schedules, reload_schedules, add_or_update_schedule,
}
use smarthome_backend.Scheduler.Sync.{
  Synced, active, add_or_update_schedule-Synced, active-add_or_update_schedule,
}
use smarthome_backend.Scheduler.Sync.Reload.{
  wanted, active-reload_schedules, reload_schedules_failed, load_schedules-not-Synced,
}
use smarthome_backend.Tests.Doubles.{memory_cron, memory_registers, fresh}

abbrev empty : Scheduler memory_cron
empty = record { cron = []; job_map = [] }

empty-Synced : Synced memory_cron empty
unfolding lookup
empty-Synced = record { mapped = λ id job e. cc; entered = λ k id e. cc }

abbrev one : Scheduler memory_cron
one = record {
  cron = (1, record { rule_id = "7"; schedule_id = "1" }) ∷ [];
  job_map = ("1", 1) ∷ [];
}

added : add_or_update_schedule memory_cron empty "1" "7" "0 18 * * *" true ≡ one
unfolding add_or_update_schedule lookup insert fresh
added = refl

one-Synced : Synced memory_cron one
one-Synced = rw (← added) (
    add_or_update_schedule-Synced memory_cron memory_registers empty "1" "7" "0 18 * * *" true
      empty-Synced)

active-add_or_update_schedule_example :
    active memory_cron (add_or_update_schedule memory_cron one "1" "7" "never" true) "1" ≡ none
active-add_or_update_schedule_example =
    active-add_or_update_schedule memory_cron memory_registers one "1" "7" "never" "1" true
      one-Synced

abbrev sch : String → String → Schedule
sch id spec = record { id = id; rule_id = "7"; cron_expression = spec; enabled = true }

abbrev two_schedules : List Schedule
two_schedules = sch "1" "0 18 * * *" ∷ sch "2" "never" ∷ []

active-reload_schedules_example :
    Synced memory_cron (reload_schedules memory_cron one (some two_schedules)).0
    × ((k : String)
        → active memory_cron (reload_schedules memory_cron one (some two_schedules)).0 k
          ≡ wanted memory_cron memory_registers two_schedules k none)
active-reload_schedules_example =
    active-reload_schedules memory_cron memory_registers one two_schedules one-Synced
      ((λ p. ground (arith, eq_iff "2" "1"), tt), (tt, tt))

reload_schedules_failed_example :
    ((reload_schedules memory_cron one none).1 ≡ true)
    × ((id : ℕ) → memory_cron.live (reload_schedules memory_cron one none).0.cron id ≡ none)
reload_schedules_failed_example =
    reload_schedules_failed memory_cron memory_registers one one-Synced

load_schedules-not-Synced_example :
    ¬ Synced memory_cron (load_schedules memory_cron one (some (sch "1" "0 18 * * *" ∷ []))).0
unfolding lookup
load_schedules-not-Synced_example =
    load_schedules-not-Synced memory_cron memory_registers one (sch "1" "0 18 * * *") 1 one-Synced
      refl refl refl
