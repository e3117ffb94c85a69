-- ===== src/Tests/Tasks.antt =====
-- A task over two rules that want different values of one attribute.
use smarthome_backend.Prelude.{
  ℕ, String, ◌≡◌, refl, ◌==◌, nat_Eq, string_Eq, Bool, true, false, not, ◌||◌, List, [], ◌∷◌,
  Option, none, some, All, length, if◌then◌else◌,
}
use smarthome_backend.Prelude.Dict.{lookup, insert}
use smarthome_backend.Prelude.TextOrder.{text_lt}
use smarthome_backend.Json.{
  Value, bool, num, str, arr, obj, nil, cons, end, field, Payload, doc, marshal_map, unmarshal_map,
  unmarshal_value,
}
use smarthome_backend.Json.Float.{Float64, float_lt, whole_part}
use smarthome_backend.Utils.{compare}
use smarthome_backend.Models.{Rule, Node, condition, no_more}
use smarthome_backend.Automation.Evaluator.{
  World, evaluate_conditions, evaluate_condition, evaluate_leaf, evaluate_device, read_state,
  reading,
}
use smarthome_backend.Automation.Executor.{Message, publish_all, execute_resolved_actions}
use smarthome_backend.TaskQueue.Actions.{
  PendingAction, unmarshal_actions, decode_actions, decode_action, set_fields, set_field, same_name,
  collect, collect_pending_actions, int_text, all_reached, same_value, unmarshal_maps, decode_maps,
  decode_map, is_redundant, redundant_from, are_all_actions_redundant,
}
use smarthome_backend.TaskQueue.Actions.Redundant.{collect-redundant}
use smarthome_backend.TaskQueue.Conflicts.{
  choose, claim_all, entries_of, claim_actions, values, resolved, resolve_conflicts, add_target,
  add_targets, extract_from, extract_action_targets,
}
use smarthome_backend.TaskQueue.Conflicts.Priority.{value_for}
use smarthome_backend.TaskQueue.Conflicts.Winner.{Wins, resolve_conflicts-Wins}
use smarthome_backend.TaskQueue.Tasks.{
  done, Rules, has_key, affects, keep_affecting, gather, execute_among, run_unless, run_rule,
  evaluate_and_execute,
}
use smarthome_backend.TaskQueue.Tasks.Publishing.{IsCommand}
use smarthome_backend.TaskQueue.Tasks.Sources.{IsWanted, evaluate_and_execute-IsCommand}
use smarthome_backend.Tests.Doubles.{memory_redis}

-- 5 and 20
abbrev five : Float64
five = record { negative = false; magnitude = 0x4014000000000000 }

abbrev pub mild : Float64
mild = record { negative = false; magnitude = 0x4034000000000000 }

abbrev on : Value
on = obj (field "on" (bool true) end)

-- The only shape that the test of redundancy accepts: a number for the device.
abbrev numbered : Payload
numbered = doc (
    arr (
      cons (obj (field "type" (str "device") (field "device_id" (num five) (field "state" on end))))
        nil))

abbrev reached : Option (List (String × Payload))
reached = some (("device:5:state", doc on) ∷ [])

numbered_redundant : are_all_actions_redundant memory_redis reached numbered ≡ some true
unfolding are_all_actions_redundant redundant_from is_redundant all_reached same_value int_text
    whole_part unmarshal_maps decode_maps decode_map unmarshal_map lookup insert
    smarthome_backend.Prelude.Decimal.show
numbered_redundant = refl

collect-redundant_example : collect_pending_actions "7" numbered ≡ []
collect-redundant_example = collect-redundant memory_redis reached "7" numbered numbered_redundant

abbrev wants : String → Bool → PendingAction
wants r b = record { rule_id = r; device_id = "lamp"; params = ("on", bool b) ∷ [] }

abbrev pending : List PendingAction
pending = wants "9" false ∷ wants "10" true ∷ []

conflicts : Unit {0}
unfolding value_for resolve_conflicts resolved values claim_actions claim_all choose entries_of
    lookup insert text_lt
conflicts = tt

-- Rule 10 beats rule 9, as its ID comes first in the order of texts.
ten_wins : value_for "lamp" "on" (resolve_conflicts pending []) ≡ some (bool true)
unfolding conflicts
ten_wins = refl

resolve_conflicts-Wins_example : (r : String) × Wins "lamp" "on" pending (bool true) r
resolve_conflicts-Wins_example = resolve_conflicts-Wins "lamp" "on" pending [] (bool true) ten_wins

dim_absent : value_for "lamp" "dim" (resolve_conflicts pending []) ≡ none
unfolding conflicts
dim_absent = refl

-- "heat > 20", and the lamp
abbrev hot : Node
hot = record {
  type = "sensor";
  device_id = "heater";
  key = "heat";
  op = ">";
  value = doc (num five);
  min_change = five;
  operator = "";
}

abbrev lamp_on : Payload
lamp_on = doc (
    arr (
      cons
        (obj (
          field "device_id" (str "lamp")
            (field "action" (str "set_state") (field "params" on end))))
        nil))

abbrev pub cooling : Rule
cooling = record {
  id = "7";
  name = "cooling";
  conditions = some (condition hot no_more);
  actions = lamp_on;
  enabled = true;
  owner_id = "1";
}

abbrev rules : Rules
rules = record { by_id = λ id. if id == "7" then some cooling else none; all = some (cooling ∷ []) }

abbrev world : World memory_redis
world = record {
  store = some (("device:heater", doc (obj (field "heat" (num mild) end))) ∷ []);
  clock = λ n. record { hour = 18; minute = 0 };
  reads = 0;
}

abbrev pub lamp_command : Message
lamp_command = record { topic = "devices/lamp/commands"; payload = doc on }

task : evaluate_and_execute memory_redis world true rules "7" ≡ (done, world, lamp_command ∷ [])
unfolding conflicts evaluate_and_execute run_rule run_unless are_all_actions_redundant
    redundant_from is_redundant unmarshal_maps decode_maps decode_map execute_among
    collect_pending_actions collect unmarshal_actions decode_actions decode_action set_fields
    set_field same_name gather keep_affecting affects has_key extract_action_targets extract_from
    add_targets add_target execute_resolved_actions publish_all evaluate_conditions
    evaluate_condition evaluate_leaf evaluate_device read_state reading compare float_lt
    unmarshal_map unmarshal_value marshal_map
task = refl

evaluate_and_execute-IsCommand_example :
    All
      (IsCommand (IsWanted memory_redis rules "7" world))
      (evaluate_and_execute memory_redis world true rules "7").2
evaluate_and_execute-IsCommand_example =
    evaluate_and_execute-IsCommand memory_redis rules "7" world true
