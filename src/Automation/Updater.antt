-- ===== src/Automation/Updater.antt =====
-- internal/automation/updater.go and the update task of internal/taskqueue/tasks.go.
-- A state of null, which leaves a nil map, is stored as the empty object here and as null in the code:
-- both read back as a state without entries.
pub mod Triggers
use Prim.Native.String
use smarthome_backend.Prelude.{
  String, Bool, true, false, List, [], ◌∷◌, Option, none, some, map, if◌then◌else◌,
}
use smarthome_backend.Json.{Payload, Map, marshal_map}
use smarthome_backend.Utils.{is_significant_change}
use smarthome_backend.Models.{Device}
use smarthome_backend.Redis.{Redis}
use smarthome_backend.Engine.{rules_key}
use smarthome_backend.Automation.Evaluator.{device_key, read_state}

-- What is written to the database; whether the write succeeds is only logged.
pub data Write : Type 0 where
  insert_device : (id name type mqtt_topic : String) → Payload → Write
  update_state : String → Payload → Write

module _ (R : Redis) where
  pub record Update : Type 0 where
    pub rule_ids : List String
    pub store : R.Store
    pub writes : List Write

  -- For what `GetDeviceByID` returns: an unknown device is inserted, one that is not accepted is
  -- passed over.
  unfoldable pub update_device : R.Store → String → Map → Option Device → Update
  update_device s id state none = record {
    rule_ids = [];
    store = s;
    writes = insert_device id id "unknown" (String.◌++◌ "devices/" id) (marshal_map state) ∷ [];
  }
  update_device s id state (some device) =
      let unchanged : Update = record { rule_ids = []; store = s; writes = [] } in
      let s' = R.set s (device_key id) (marshal_map state) in
      if device.accepted
      then (if is_significant_change id state (read_state (R.get s (device_key id)))
          then record {
            rule_ids = R.members s' (rules_key id);
            store = s';
            writes = update_state id (marshal_map state) ∷ [];
          }
          else unchanged)
      else unchanged

  unfoldable pub process_device_update : (String → Option Device) → R.Store → String → Map → Update
  unfolding update_device
  process_device_update get_device s id state = update_device s id state (get_device id)

  -- The task, for a payload that parses: the evaluations that it enqueues, of a rule for a device.
  unfoldable pub process_update_task :
      (String → Option Device)
      → R.Store
      → String
      → Map
      → List (String × String) × R.Store × List Write
  unfolding process_device_update
  process_update_task get_device s id state =
      let u = process_device_update get_device s id state in
      (map (λ rule_id. (rule_id, id)) u.rule_ids, u.store, u.writes)
