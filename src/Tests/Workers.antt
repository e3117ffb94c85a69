-- ===== src/Tests/Workers.antt =====
-- The backend from a state message to a command.
use smarthome_backend.Prelude.{◌≡◌, refl, string_Eq, true, false, List, [], ◌∷◌, All}
use smarthome_backend.Engine.{on_device_update}
use smarthome_backend.Json.{
  unmarshal_map, unmarshal_value, marshal_map, to_map_from, of_map, num, obj, end, field, doc,
}
use smarthome_backend.Automation.Updater.{update_device, process_device_update, process_update_task}
use smarthome_backend.Database.{
  exec, get_device_by_id, get_rule_by_id, get_all_rules, update_device_state, first_where,
  update_where,
}
use smarthome_backend.Utils.{parse_device_id, is_significant_change, compare}
use smarthome_backend.Prelude.Dict.{lookup, insert, delete}
use smarthome_backend.Prelude.TextOrder.{text_lt}
use smarthome_backend.Json.Float.{float_lt}
use smarthome_backend.TaskQueue.Tasks.{
  evaluate_and_execute, run_rule, run_unless, execute_among, gather, keep_affecting, affects,
  has_key,
}
use smarthome_backend.TaskQueue.Actions.{
  are_all_actions_redundant, redundant_from, is_redundant, unmarshal_maps, decode_maps, decode_map,
  collect_pending_actions, collect, unmarshal_actions, decode_actions, decode_action, set_fields,
  set_field, same_name,
}
use smarthome_backend.TaskQueue.Conflicts.{
  resolve_conflicts, resolved, values, claim_actions, claim_all, choose, entries_of,
  extract_action_targets, extract_from, add_targets, add_target,
}
use smarthome_backend.Automation.Executor.{execute_resolved_actions, publish_all}
use smarthome_backend.Automation.Evaluator.{
  evaluate_conditions, evaluate_condition, evaluate_leaf, evaluate_device, read_state, reading,
}
use smarthome_backend.TaskQueue.Tasks.Publishing.{IsCommand}
use smarthome_backend.Workers.{Event, System, run}
use smarthome_backend.Workers.Commands.{IsBacked, run-IsBacked}
use smarthome_backend.Tests.Doubles.{set_redis}
use smarthome_backend.Tests.Tables.{pool, house, sets}
use smarthome_backend.Tests.Tasks.{cooling, mild, lamp_command}

-- The house with a rule that turns the lamp on when the heater is warm.
abbrev start : System set_redis
start = record {
  store = sets;
  clock = λ n. record { hour = 18; minute = 0 };
  reads = 0;
  pool = record pool { tables = record house { rules = cooling ∷ [] } };
  tasks = [];
  enqueues = λ n. true;
  enqueued = 0;
  going = [];
  connected = true;
  published = [];
}

-- The heater tells its heat, and the workers take the update and the evaluation.
abbrev events : List Event
events =
    Event.arrives "devices/heater/state" (doc (obj (field "heat" (num mild) end)))
    ∷ Event.works 0 false
    ∷ Event.works 0 true
    ∷ Event.writes 0
    ∷ []

run-IsBacked_example :
    ((run set_redis start events).pool.tables.rules ≡ cooling ∷ [])
    × All (IsCommand (IsBacked (cooling ∷ []))) (run set_redis start events).published
run-IsBacked_example = run-IsBacked set_redis start events tt

-- The lamp is turned on, and nothing else is published.
turned_on : (run set_redis start events).published ≡ lamp_command ∷ []
unfolding run on_device_update unmarshal_map unmarshal_value marshal_map to_map_from of_map
    update_device process_device_update process_update_task exec get_device_by_id get_rule_by_id
    get_all_rules update_device_state first_where update_where parse_device_id is_significant_change
    compare lookup insert delete text_lt float_lt evaluate_and_execute run_rule run_unless
    execute_among gather keep_affecting affects has_key are_all_actions_redundant redundant_from
    is_redundant unmarshal_maps decode_maps decode_map collect_pending_actions collect
    unmarshal_actions decode_actions decode_action set_fields set_field same_name resolve_conflicts
    resolved values claim_actions claim_all choose entries_of extract_action_targets extract_from
    add_targets add_target execute_resolved_actions publish_all evaluate_conditions
    evaluate_condition evaluate_leaf evaluate_device read_state reading
turned_on = refl
