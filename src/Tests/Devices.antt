-- ===== src/Tests/Devices.antt =====
-- Associations and device updates over an in-memory Redis with sets.
use smarthome_backend.Prelude.{
  String, ◌≡◌, refl, ◌==◌, string_Eq, true, false, [], ◌∷◌, Option, none, some, any, contains,
  if◌then◌else◌,
}
use smarthome_backend.Prelude.Dict.{lookup, insert, delete}
use smarthome_backend.Json.{bool, num, end, obj, doc, Map, marshal_map}
use smarthome_backend.Json.Float.{Float64}
use smarthome_backend.Models.{Rule, Device, Node, Condition, condition, no_more, child}
use smarthome_backend.Utils.{is_significant_change}
use smarthome_backend.Engine.{
  rules_key, extract_device_ids, populate_associations, associate_all, associate, add_rule, clear,
  clear_and_associate, from_condition, mark, mark_all, mark_device,
}
use smarthome_backend.Engine.Devices.{names}
use smarthome_backend.Engine.Associations.{watches, watches_condition}
use smarthome_backend.Automation.Evaluator.{device_key}
use smarthome_backend.Automation.Updater.{update_device, process_device_update}
use smarthome_backend.Automation.Updater.Triggers.{process_device_update-populate_associations}
use smarthome_backend.Tests.Doubles.{Stored, set_redis, set_redis-Strings, set_redis-Sets, keys_of}

abbrev zero_float : Float64
zero_float = record { negative = false; magnitude = 0 }

abbrev node : String → String → Node
node id operator = record {
  type = "sensor";
  device_id = id;
  key = "heat";
  op = ">";
  value = doc (num zero_float);
  min_change = zero_float;
  operator = operator;
}

-- An operator over the heater and the lamp.
abbrev tree : Condition
tree = condition (node "" "AND") (
    child (condition (node "heater" "") no_more)
      (child (condition (node "lamp" "") no_more) no_more))

devices : Unit {0}
unfolding extract_device_ids from_condition mark mark_all mark_device names populate_associations
    clear_and_associate clear associate_all associate add_rule lookup insert delete keys_of watches
    watches_condition process_device_update update_device
devices = tt

tree_ids : extract_device_ids tree ≡ "heater" ∷ "lamp" ∷ []
unfolding devices
tree_ids = refl

abbrev night : Rule
night = record {
  id = "7";
  name = "night";
  conditions = some tree;
  actions = doc (bool true);
  enabled = true;
  owner_id = "1";
}

-- Rule 3 was associated with the lamp before.
abbrev stale : Stored
stale = ([], ("device:lamp:rules", "3" ∷ []) ∷ [])

abbrev lamp : Device
lamp = record {
  id = "lamp";
  name = "lamp";
  type = "light";
  state = doc (obj end);
  mqtt_topic = "devices/lamp";
  accepted = true;
  owner_id = none;
}

abbrev known : String → Option Device
known id = if id == "lamp" then some lamp else none

abbrev lit : Map
lit = ("on", bool true) ∷ []

process_device_update-populate_associations_example :
    (contains "7"
        (process_device_update set_redis known
          (populate_associations set_redis stale (some (night ∷ []))).0
          "lamp"
          lit).rule_ids
      ≡ any (watches "7" "lamp") (night ∷ []))
    × (set_redis.get
          (process_device_update set_redis known
            (populate_associations set_redis stale (some (night ∷ []))).0
            "lamp"
            lit).store
          (device_key "lamp")
        ≡ some (marshal_map lit))
unfolding keys_of
process_device_update-populate_associations_example =
    process_device_update-populate_associations set_redis set_redis-Strings set_redis-Sets stale
      (night ∷ []) ("device:lamp:rules" ∷ []) known "lamp" "7" lit lamp refl refl refl

-- A device whose ID ends in ":rules" overwrites the set of rules of another.
overwritten :
    set_redis.members
      (process_device_update set_redis (λ id. some lamp) stale "lamp:rules" lit).store
      (rules_key "lamp")
    ≡ []
unfolding devices is_significant_change
overwritten = refl
