-- ===== src/Tests/Tables.antt =====
-- Tables with two users, and an engine over them that holds the associations of one rule.
use smarthome_backend.Prelude.{String, refl, string_Eq, true, false, [], ◌∷◌, some}
use smarthome_backend.Json.{num, bool, end, obj, doc}
use smarthome_backend.Json.Float.{Float64}
use smarthome_backend.Models.{Rule, Schedule, Device, Condition, condition, no_more}
use smarthome_backend.Database.{User, Tables, Pool}
use smarthome_backend.Database.Schedules.{Up}
use smarthome_backend.Scheduler.{Scheduler}
use smarthome_backend.Engine.Rules.{Engine}
use smarthome_backend.Web.{Site}
use smarthome_backend.Tests.Doubles.{set_redis, memory_cron, Stored}

abbrev pub ann : User
ann = record { id = 1; username = "ann"; password = "pw"; email = "ann@home" }

abbrev pub bob : User
bob = record { id = 2; username = "bob"; password = "secret"; email = "bob@home" }

-- The heater is of ann, the lamp of bob.
abbrev pub device : String → String → Device
device id owner_id = record {
  id = id;
  name = id;
  type = "switch";
  state = doc (obj end);
  mqtt_topic = id;
  accepted = true;
  owner_id = some owner_id;
}

abbrev zero_float : Float64
zero_float = record { negative = false; magnitude = 0 }

-- A condition on the heater.
abbrev pub hot : Condition
hot =
    condition
      (record {
        type = "sensor";
        device_id = "heater";
        key = "heat";
        op = ">";
        value = doc (num zero_float);
        min_change = zero_float;
        operator = "";
      })
      no_more

abbrev pub rule_seven : Rule
rule_seven = record {
  id = "7";
  name = "night";
  conditions = some hot;
  actions = doc (bool true);
  enabled = true;
  owner_id = "1";
}

abbrev pub evening : Schedule
evening = record { id = "1"; rule_id = "7"; cron_expression = "0 18 * * *"; enabled = true }

abbrev pub house : Tables
house = record {
  devices = device "heater" "1" ∷ device "lamp" "2" ∷ [];
  rules = rule_seven ∷ [];
  schedules = evening ∷ [];
  users = ann ∷ bob ∷ [];
  next_rule = 8;
  next_schedule = 2;
  next_user = 3;
}

abbrev pub pool : Pool
pool = record { tables = house; answers = λ n. true; calls = 0 }

pub pool-Up : Up pool
pool-Up = record { reached = λ n. refl }

-- The job of the schedule runs.
abbrev pub one_job : Scheduler memory_cron
one_job = record {
  cron = (1, record { rule_id = "7"; schedule_id = "1" }) ∷ [];
  job_map = ("1", 1) ∷ [];
}

abbrev pub sets : Stored
sets = ([], ("device:heater:rules", "7" ∷ []) ∷ [])

abbrev pub engine : Engine set_redis memory_cron
engine = record {
  store = sets;
  scheduler = one_job;
  pool = pool;
  queue = record { tasks = []; enqueues = λ n. true; enqueued = 0 };
}

abbrev pub site : Site set_redis memory_cron
site = record { engine = engine; published = [] }
