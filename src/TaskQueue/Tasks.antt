-- ===== src/TaskQueue/Tasks.antt =====
-- `evaluateAndExecuteTask` of tasks.go. The rules come from the database: a query may fail.
pub mod Publishing
pub mod Sources
use smarthome_backend.Prelude.{
  String, ◌==◌, string_Eq, nat_Eq, Bool, true, false, not, ◌&&◌, ◌||◌, List, [], ◌∷◌, ◌++◌, Option,
  none, some, any, length, if◌then◌else◌,
}
use smarthome_backend.Prelude.Dict.{lookup}
use smarthome_backend.Models.{Rule}
use smarthome_backend.Redis.{Redis}
use smarthome_backend.Automation.Evaluator.{World, evaluate_conditions}
use smarthome_backend.Automation.Executor.{Message, execute_resolved_actions}
use smarthome_backend.TaskQueue.Actions.{
  PendingAction, collect_pending_actions, are_all_actions_redundant,
}
use smarthome_backend.TaskQueue.Conflicts.{ActionTarget, extract_action_targets, resolve_conflicts}
use smarthome_backend.Json.{Map}

-- How a task ends: the queue tries a failed or a panicking one again.
pub data Status : Type 0 where
  done failed panicked : Status

-- _, hasKey := action.Params[target.Key]
unfoldable pub has_key : String → Map → Bool
has_key k m = elim (lookup k m) [ none ↦ false | some v ↦ true ]

unfoldable pub affects : List ActionTarget → PendingAction → Bool
unfolding has_key
affects targets a = any (λ t. a.device_id == t.device_id && has_key t.key a.params) targets

unfoldable pub keep_affecting : List ActionTarget → List PendingAction → List PendingAction
unfolding affects
keep_affecting targets [] = []
keep_affecting targets (a ∷ rest) =
    let more = keep_affecting targets rest in if affects targets a then a ∷ more else more

-- What the task reads from the database.
pub record Rules : Type 0 where
  pub by_id : String → Option Rule
  pub all : Option (List Rule)

module _ (R : Redis) where
  -- The loop over all rules, which skips the disabled ones and the current one.
  unfoldable pub gather :
      World R → String → List ActionTarget → List Rule → List PendingAction × World R
  unfolding keep_affecting
  gather w current targets [] = ([], w)
  gather w current targets (r ∷ rest) =
      let skipped = gather w current targets rest in
      let (triggered, w') = evaluate_conditions R w r.conditions in
      let (more, w'') = gather w' current targets rest in
      if not r.enabled || r.id == current then skipped else (
        (if triggered
            then keep_affecting targets (collect_pending_actions r.id r.actions) ++ more
            else more),
        w'',
      )

  -- The task once the rule's conditions hold and all rules are read.
  unfoldable pub execute_among :
      World R → Bool → Rule → Option (List Rule) → Status × World R × List Message
  unfolding gather
  execute_among w connected rule none = (failed, w, [])
  execute_among w connected rule (some all_rules) =
      let pending = collect_pending_actions rule.id rule.actions in
      let targets = extract_action_targets pending in
      let (others, w') = gather w rule.id targets all_rules in
      let actions = resolve_conflicts (others ++ pending) targets in
      let messages = execute_resolved_actions connected actions in
      (done, w', if length actions == 0 then [] else messages)

  -- The task behind the test of redundancy; a test that panics ends it.
  unfoldable pub run_unless :
      World R → Bool → Rules → Rule → Option Bool → Status × World R × List Message
  unfolding execute_among
  run_unless w connected rules rule none = (panicked, w, [])
  run_unless w connected rules rule (some true) = (done, w, [])
  run_unless w connected rules rule (some false) =
      let (result, w') = evaluate_conditions R w rule.conditions in
      if result then execute_among w' connected rule rules.all else (done, w', [])

  -- The task for what `GetRuleByID` returns.
  unfoldable pub run_rule : World R → Bool → Rules → Option Rule → Status × World R × List Message
  unfolding run_unless
  run_rule w connected rules none = (failed, w, [])
  run_rule w connected rules (some rule) =
      if not rule.enabled
      then (done, w, [])
      else run_unless w connected rules rule (are_all_actions_redundant R w.store rule.actions)

  unfoldable pub evaluate_and_execute :
      World R → Bool → Rules → String → Status × World R × List Message
  unfolding run_rule
  evaluate_and_execute w connected rules rule_id = run_rule w connected rules (rules.by_id rule_id)
