-- ===== src/Main.antt =====
-- cmd/engine/main.go: the program as a whole, from the configuration to the bridge. Its parts are
-- made by the clients of the database, of Redis, of MQTT and of cron; the web server, the workers and
-- the name server run on their own once they are started.
pub mod Boot
pub mod Remote
pub mod Names
use Prim.Native.String
use smarthome_backend.Prelude.{
  ℕ, ◌+◌, String, Bool, true, false, not, List, [], ◌∷◌, ◌++◌, Option, none, some, if◌then◌else◌,
}
use smarthome_backend.Prelude.Int.{ℤ, pos, negsuc}
use smarthome_backend.Prelude.Decimal.{show}
use smarthome_backend.Json.{Payload, Map}
use smarthome_backend.Redis.{Redis}
use smarthome_backend.Cron.{Cron}
use smarthome_backend.Database.{Pool}
use smarthome_backend.Scheduler.{Scheduler}
use smarthome_backend.Engine.Rules.{Engine, start}
use smarthome_backend.Bridge.{Http, start as bridge_start}
use smarthome_backend.Config.{Config}

-- What is started, in its order.
pub data Part : Type 0 where
  database : (url : String) → Part
  redis_client : (addr : String) → Part
  mqtt_client : (broker client_id : String) → Part
  global_instances : Part
  workers : (redis_addr : String) → Part
  cron_entries : Part
  control_engine : Part
  web_server : (addr : String) → Part
  name_server : (local_name : String) → Part

-- How it goes on: a fatal error, the bridge with what it has sent on each connection and whether it
-- has ended the program by a panic, or the wait for the signal that ends the program.
pub data Ending : Type 0 where
  fatal : (message : String) → Ending
  bridges : (sent : List (List Map)) → (panicked : Bool) → Ending
  waits : Ending

-- What the end of the program stops.
pub data Stop : Type 0 where
  engine_stops scheduler_stops workers_stop : Stop

-- A signal is only waited for behind the bridge, and ends the program at once before.
unfoldable pub on_signal : Ending → List Stop
on_signal waits = engine_stops ∷ scheduler_stops ∷ workers_stop ∷ []
on_signal _ = []

-- fmt.Sprintf("%d", n)
abbrev pub int_string : ℤ → String
int_string (pos n) = show n
int_string (negsuc n) = String.◌++◌ "-" (show (n + 1))

-- LocalURL of the bridge.
unfoldable pub local_url : Config → String
local_url cfg = String.◌++◌ "127.0.0.1:" (int_string cfg.app_port)

-- Whether the pool is made for a URL, MQTT connects to a broker, and a numbered call of Enqueue
-- works.
pub record Outside : Type 0 where
  pub opens : String → Bool
  pub connects : String → String → Bool
  pub enqueues : ℕ → Bool

module _ (R : Redis) (C : Cron) (H : Http) where
  pub record Process : Type 0 where
    pub parts : List Part
    pub control : Option (Engine R C)
    pub ending : Ending

  abbrev pub new_scheduler : C.State → Scheduler C
  new_scheduler cron = record { cron = cron; job_map = [] }

  abbrev pub new_engine : R.Store → Pool → (ℕ → Bool) → Scheduler C → Engine R C
  new_engine store pool enqueues scheduler = record {
    store = store;
    scheduler = scheduler;
    pool = pool;
    queue = record { tasks = []; enqueues = enqueues; enqueued = 0 };
  }

  abbrev bridging : List (List Map) × Bool → Ending
  bridging (sent, panicked) = bridges sent panicked

  -- The bridge, which goes on from connection to connection, or the wait for a signal.
  unfoldable pub remote_access : Config → List (Option (List Payload)) → Ending
  remote_access cfg connections =
      if cfg.remote_enabled
      then bridging (bridge_start H (local_url cfg) cfg.app_agent_id 0 connections)
      else waits

  abbrev pub stopped : List Part → String → Process
  stopped parts message = record { parts = parts; control = none; ending = fatal message }

  abbrev pub with_engine :
      List Part → Config → List (Option (List Payload)) → Bool × Engine R C → Process
  with_engine parts cfg connections (true, e) = stopped parts "Failed to start engine"
  with_engine parts cfg connections (false, e) = record {
    parts =
        parts
        ++ control_engine
          ∷ web_server (String.◌++◌ ":" (int_string cfg.app_port))
          ∷ name_server cfg.mdns_local_name
          ∷ [];
    control = some e;
    ending = remote_access cfg connections;
  }

  -- What is there when the program starts: the data in Redis and in the database, and a cron.
  pub record Given : Type 0 where
    pub outside : Outside
    pub store : R.Store
    pub tables : Pool
    pub new_cron : C.State

  unfoldable pub connected : Config → Given → List (Option (List Payload)) → Process
  unfolding start remote_access
  connected cfg g connections =
      let parts =
        database cfg.database_url
        ∷ redis_client cfg.redis_addr
        ∷ mqtt_client cfg.mqtt_broker cfg.mqtt_client_id
        ∷ global_instances
        ∷ workers cfg.redis_addr
        ∷ cron_entries
        ∷ [] in
      with_engine parts cfg connections
        (start R C (new_engine g.store g.tables g.outside.enqueues (new_scheduler g.new_cron)))

  unfoldable pub main : Option Config → Given → List (Option (List Payload)) → Process
  unfolding connected
  main none g connections = stopped [] "Failed to load config"
  main (some cfg) g connections =
      let opened = database cfg.database_url ∷ redis_client cfg.redis_addr ∷ [] in
      let running = connected cfg g connections in
      let unconnected = stopped opened "Failed to connect to MQTT" in
      if not (g.outside.opens cfg.database_url)
      then stopped [] "Failed to connect to DB"
      else if not (g.outside.connects cfg.mqtt_broker cfg.mqtt_client_id)
      then unconnected
      else running
