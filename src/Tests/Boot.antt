-- ===== src/Tests/Boot.antt =====
-- The start of the program before an in-memory Redis and cron, and the bridge that it starts.
use Prim.Native.Char.{Char, code}
use Prim.Native.String
use text.Mathlib.TextLemmas.{cons-append}
use smarthome_backend.Prelude.{
  String, ◌≡◌, refl, ap, string_Eq, nat_Eq, Bool, true, false, not, List, [], ◌∷◌, Option, none,
  some, any, map, All, contains, leb,
}
use smarthome_backend.Prelude.Int.{pos}
use smarthome_backend.Prelude.Decimal.{show}
use smarthome_backend.Prelude.Dict.{lookup}
use smarthome_backend.Json.{str, Payload, doc, Map}
use smarthome_backend.Scheduler.Sync.{Synced, active}
use smarthome_backend.Scheduler.Sync.Reload.{wanted}
use smarthome_backend.Engine.{rules_key}
use smarthome_backend.Engine.Associations.{watches}
use smarthome_backend.Engine.Rules.{Engine}
use smarthome_backend.Engine.Rules.Commands.{Command, obey_all}
use smarthome_backend.Database.{unowned}
use smarthome_backend.Bridge.{Http, register_msg}
use smarthome_backend.Config.{Config}
use smarthome_backend.Main.{local_url, bridges, remote_access, on_signal, Given, main}
use smarthome_backend.Main.Boot.{main-ready}
use smarthome_backend.Main.Remote.{any_asks, remote_access-refused}
use smarthome_backend.Tests.Doubles.{
  set_redis, set_redis-Sets, memory_cron, memory_registers, keys_of,
}
use smarthome_backend.Tests.Tables.{pool, pool-Up, engine}
use smarthome_backend.Tests.Bridging.{ok_number, asking}

-- An address that begins with a digit has no scheme.
starts_with_digit : String → Bool
starts_with_digit String.[] = false
starts_with_digit (String.◌∷◌ c s) = leb (code c) 57

starts_with_digit-append :
    (c : Char) (s t : String) → starts_with_digit (String.◌++◌ (String.◌∷◌ c s) t) ≡ leb (code c) 57
unfolding starts_with_digit
starts_with_digit-append c s t = rw cons-append refl

abbrev strict : Http
strict = record {
  new_request = λ method url. not (starts_with_digit url);
  exchange = λ n method url headers body. some (200, doc (str "ok"));
  canonical = λ key. key;
  number = λ n. ok_number;
}

abbrev cfg : Config
cfg = record {
  database_url = "postgres://home";
  redis_addr = "home:6379";
  redis_password = "";
  redis_db = pos 0;
  mqtt_broker = "tcp://home:1883";
  mqtt_client_id = "engine";
  mqtt_username = "";
  mqtt_password = "";
  jwt_secret = "s";
  app_agent_id = "home";
  app_port = pos 5069;
  remote_enabled = true;
  remote_public_ws = "ws://relay:5069/agent";
  mdns_local_name = "home.local";
}

url : local_url cfg ≡ "127.0.0.1:5069"
unfolding local_url show
url = refl

strict_refuses :
    (method path : String) → strict.new_request method (String.◌++◌ (local_url cfg) path) ≡ false
strict_refuses method path = rw url (ap not (starts_with_digit-append _ _ path))

abbrev connections : List (Option (List Payload))
connections = none ∷ some (doc (str "hello") ∷ []) ∷ some (asking "r1" ∷ []) ∷ []

remote_access-refused_example :
    (sent : List (List Map)) × (panicked : Bool) × (remote_access set_redis memory_cron strict cfg
        connections
      ≡ bridges sent panicked)
    × (panicked ≡ any any_asks connections)
    × All (λ ms. ms ≡ register_msg "home" ∷ []) sent
    × (on_signal (remote_access set_redis memory_cron strict cfg connections) ≡ [])
remote_access-refused_example =
    remote_access-refused set_redis memory_cron strict cfg connections refl strict_refuses

abbrev given : Given set_redis memory_cron strict
given = record {
  outside = record { opens = λ url. true; connects = λ broker id. true; enqueues = λ n. true };
  store = engine.store;
  tables = pool;
  new_cron = [];
}

main-ready_example :
    (e : Engine set_redis memory_cron) × ((main set_redis memory_cron strict
        (some cfg)
        given
        []).control
      ≡ some e)
    × ((k : String)
        → active memory_cron e.scheduler k
          ≡ wanted memory_cron memory_registers pool.tables.schedules k none)
    × ((rule_id d : String)
        → contains rule_id (set_redis.members e.store (rules_key d))
          ≡ any (watches rule_id d) (map unowned pool.tables.rules))
    × ((cs : List Command) → Synced memory_cron (obey_all set_redis memory_cron e cs).scheduler)
unfolding keys_of lookup
main-ready_example =
    main-ready set_redis set_redis-Sets memory_cron memory_registers strict cfg given []
      ("device:heater:rules" ∷ []) pool-Up (tt, tt) refl (λ id. refl) refl refl
