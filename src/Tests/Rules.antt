-- ===== src/Tests/Rules.antt =====
-- The rules of an engine, and the requests that reach it.
use smarthome_backend.Prelude.{
  String, ◌≡◌, refl, string_Eq, true, false, ◌&&◌, List, [], ◌∷◌, none, some, contains,
  if◌then◌else◌, ◌==◌,
}
use smarthome_backend.Prelude.Dict.{lookup, insert}
use smarthome_backend.Scheduler.{Scheduler, add_or_update_schedule}
use smarthome_backend.Scheduler.Sync.{Synced, add_or_update_schedule-Synced}
use smarthome_backend.Database.{exec, get_rule_by_id, first_where, unowned}
use smarthome_backend.Engine.{rules_key, rules_pattern}
use smarthome_backend.Engine.Devices.{names}
use smarthome_backend.Engine.Rules.{remove_rule_associations, refresh_rule_associations}
use smarthome_backend.Engine.Rules.Removal.{Removed, remove_rule_associations-Removed}
use smarthome_backend.Engine.Rules.Refreshing.{refresh_rule_associations_lem}
use smarthome_backend.Engine.Rules.Commands.{refresh, remove, trigger, Command}
use smarthome_backend.Tests.Doubles.{
  set_redis, set_redis-Sets, memory_cron, memory_registers, fresh, keys_of,
}
use smarthome_backend.Tests.Tables.{engine, one_job, pool-Up, pool, rule_seven, hot}

abbrev no_jobs : Scheduler memory_cron
no_jobs = record { cron = []; job_map = [] }

no_jobs-Synced : Synced memory_cron no_jobs
unfolding lookup
no_jobs-Synced = record { mapped = λ id job e. cc; entered = λ k id e. cc }

added : add_or_update_schedule memory_cron no_jobs "1" "7" "0 18 * * *" true ≡ one_job
unfolding add_or_update_schedule lookup insert fresh
added = refl

pub one_job-Synced : Synced memory_cron one_job
one_job-Synced = rw (← added) (
    add_or_update_schedule-Synced memory_cron memory_registers no_jobs "1" "7" "0 18 * * *" true
      no_jobs-Synced)

pub engine-keys : set_redis.keys engine.store rules_pattern ≡ some ("device:heater:rules" ∷ [])
unfolding keys_of
engine-keys = refl

pub engine-no_strings : (id : String) → set_redis.get engine.store (rules_key id) ≡ none
unfolding lookup
engine-no_strings id = refl

remove_rule_associations-Removed_example :
    ((remove_rule_associations set_redis memory_cron engine "7").0 ≡ false)
    × Removed set_redis set_redis-Sets memory_cron memory_registers "7" engine
        (remove_rule_associations set_redis memory_cron engine "7").1
remove_rule_associations-Removed_example =
    remove_rule_associations-Removed set_redis set_redis-Sets memory_cron memory_registers engine
      "7" ("device:heater:rules" ∷ []) one_job-Synced pool-Up engine-keys

seven : (exec pool (get_rule_by_id "7")).0 ≡ some (unowned rule_seven)
unfolding exec get_rule_by_id first_where
seven = refl

abbrev seven_id : String
seven_id = "7"

refresh_rule_associations_lem_example :
    ((refresh_rule_associations set_redis memory_cron engine "7").0 ≡ false)
    × (contains "7" (
          set_redis.members
            (refresh_rule_associations set_redis memory_cron engine "7").1.store
            (rules_key "heater"))
        ≡ (if seven_id == seven_id
            then true && names "heater" hot
            else contains "7" (set_redis.members engine.store (rules_key "heater"))))
refresh_rule_associations_lem_example =
    refresh_rule_associations_lem set_redis set_redis-Sets memory_cron memory_registers engine "7"
      (unowned rule_seven) hot ("device:heater:rules" ∷ []) "heater" "7" seven refl engine-keys
      engine-no_strings

abbrev commands : List Command
commands = refresh "7" ∷ trigger "7" ∷ remove "7" ∷ []
