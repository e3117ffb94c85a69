-- ===== src/Main/Boot.antt =====
-- The state in which the program's start leaves the scheduler and the associations in Redis.
use smarthome_backend.Prelude.{
  Bool, ℕ, ◌+◌, String, ◌≡◌, refl, string_Eq, true, false, List, [], Option, none, some, map, any,
  contains,
}
use smarthome_backend.Prelude.Dict.{lookup}
use smarthome_backend.Json.{Payload}
use smarthome_backend.Models.{Rule, Schedule}
use smarthome_backend.Redis.{Redis, Sets}
use smarthome_backend.Cron.{Cron, Registers}
use smarthome_backend.Database.{unowned, Pool, exec, get_all_schedules, get_all_rules}
use smarthome_backend.Database.Schedules.{Up}
use smarthome_backend.Scheduler.{load_schedules, reload_schedules, remove_all}
use smarthome_backend.Scheduler.Sync.{Synced, active}
use smarthome_backend.Scheduler.Sync.Reload.{Distinct, wanted, active-reload_schedules}
use smarthome_backend.Engine.{rules_key, rules_pattern, populate_associations}
use smarthome_backend.Engine.Associations.{watches, populate_associations_lem}
use smarthome_backend.Engine.Rules.{
  Engine, load_all_schedules, refresh_all_rule_associations, start,
}
use smarthome_backend.Engine.Rules.Commands.{Command, obey_all, obey_all-Synced}
use smarthome_backend.Bridge.{Http}
use smarthome_backend.Config.{Config}
use smarthome_backend.Main.{new_scheduler, new_engine, Given, connected, main}

module _ (R : Redis) (sets : Sets R) (C : Cron) (laws : Registers C) (H : Http) where
  -- A new cron has no entries.
  new_scheduler-Synced :
      (c : C.State) → ((id : ℕ) → C.live c id ≡ none) → Synced C (new_scheduler R C H c)
  unfolding lookup
  new_scheduler-Synced c h = record {
    mapped = λ id job live. let stopped = h id in cc;
    entered = λ k id found. cc;
  }

  new_scheduler-loads :
      (c : C.State) (l : List Schedule)
      → load_schedules C (new_scheduler R C H c) (some l)
        ≡ reload_schedules C (new_scheduler R C H c) (some l)
  unfolding reload_schedules remove_all
  new_scheduler-loads c l = refl

  -- The engine after its start, where the database answers.
  module _ (store : R.Store) (p : Pool) (enqueues : ℕ → Bool) (c : C.State) (ks : List String)
      (up : Up p) (listed : R.keys store rules_pattern ≡ some ks) where
    abbrev pub rules : List Rule
    rules = map unowned p.tables.rules

    abbrev pub started : Engine R C
    started = record {
      store = (populate_associations R store (some rules)).0;
      scheduler = (reload_schedules C (new_scheduler R C H c) (some p.tables.schedules)).0;
      pool = record p { calls = p.calls + 1 + 1 };
      queue = record { tasks = []; enqueues = enqueues; enqueued = 0 };
    }

    start-new_engine :
        start R C (new_engine R C H store p enqueues (new_scheduler R C H c)) ≡ (false, started)
    unfolding start load_all_schedules refresh_all_rule_associations exec get_all_schedules
        get_all_rules load_schedules reload_schedules remove_all
    start-new_engine =
        let (fine, made) = populate_associations_lem R sets "" "" store rules ks listed in
        rw (up.reached p.calls, up.reached (p.calls + 1), fine) refl

  -- Let the database answer, with schedules of different IDs, let Redis list the keys, and let a new
  -- cron have no entries. If the database and MQTT are reached, the program's start comes to an engine
  -- in which exactly the enabled schedules whose expression parses have a job, that of their rule, and
  -- a rule is in the set of a device if and only if an enabled rule with its ID has a condition that
  -- names the device; and whatever the web API asks of the engine then, its map and its cron entries
  -- belong together.
  pub main-ready :
      (cfg : Config) (g : Given R C H) (connections : List (Option (List Payload)))
      (ks : List String)
      → Up g.tables
      → Distinct g.tables.tables.schedules
      → R.keys g.store rules_pattern ≡ some ks
      → ((id : ℕ) → C.live g.new_cron id ≡ none)
      → g.outside.opens cfg.database_url ≡ true
      → g.outside.connects cfg.mqtt_broker cfg.mqtt_client_id ≡ true
      → (e : Engine R C) × ((main R C H (some cfg) g connections).control ≡ some e)
        × ((k : String) → active C e.scheduler k ≡ wanted C laws g.tables.tables.schedules k none)
        × ((rule_id d : String)
            → contains rule_id (R.members e.store (rules_key d))
              ≡ any (watches rule_id d) (map unowned g.tables.tables.rules))
        × ((cs : List Command) → Synced C (obey_all R C e cs).scheduler)
  unfolding main connected
  main-ready cfg g connections ks up distinct listed empty opens connects =
      let e = started g.store g.tables g.outside.enqueues g.new_cron ks up listed in
      let (synced, jobs) =
        active-reload_schedules C laws (new_scheduler R C H g.new_cron) g.tables.tables.schedules
          (new_scheduler-Synced g.new_cron empty) distinct in
      (
        e,
        rw
            (
              opens,
              connects,
              start-new_engine g.store g.tables g.outside.enqueues g.new_cron ks up listed,
            )
            refl,
        jobs,
        λ rule_id d.
            (populate_associations_lem R sets d rule_id g.store (map unowned g.tables.tables.rules)
              ks listed).1,
        λ cs. obey_all-Synced R C laws e cs synced,
      )
