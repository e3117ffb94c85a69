-- ===== src/TaskQueue/Tasks/Sources.antt =====
-- Every command that a task publishes comes from enabled rules whose conditions held.
use mathlib.Core.List.{Memᴰ}
use smarthome_backend.Prelude.{
  String, ◌≡◌, refl, ◌==◌, string_Eq, nat_Eq, Bool, true, false, not, ◌||◌, List, [], ◌∷◌, ◌++◌,
  Option, none, some, arith, Bool-cases, inl, inr, ◌⊎◌, All, All-append, All-of-mem, length,
}
use smarthome_backend.Json.{Value}
use smarthome_backend.Models.{Condition, Rule}
use smarthome_backend.Redis.{Redis}
use smarthome_backend.Automation.Evaluator.{World, evaluate_conditions}
use smarthome_backend.TaskQueue.Actions.{PendingAction, collect_pending_actions}
use smarthome_backend.TaskQueue.Conflicts.{ActionTarget, extract_action_targets, resolve_conflicts}
use smarthome_backend.TaskQueue.Tasks.{
  Rules, affects, keep_affecting, gather, execute_among, run_unless, run_rule, evaluate_and_execute,
}
use smarthome_backend.TaskQueue.Tasks.Publishing.{Holds, IsCommand, execute-IsCommand}

-- The worlds that evaluations of conditions lead to.
pub data After (R : Redis) (start : World R) : World R → Type 0 where
  at_start : After R start start
  evaluated :
      {w : World R} (conditions : Option Condition)
      → After R start w
      → After R start (evaluate_conditions R w conditions).1

module _ (R : Redis) (rules : Rules) (rule_id : String) (start : World R) where
  -- The rule of the task, or one of the list of all rules.
  abbrev IsKnown : Rule → Type 0
  IsKnown r = (rules.by_id rule_id ≡ some r) ⊎ ((l : List Rule) × (rules.all ≡ some l) × Memᴰ r l)

  -- A value that an enabled rule, whose conditions evaluate to true at some point of
  -- the task, wants.
  pub record IsWanted (d k : String) (v : Value) : Type 0 where
    pub rule : Rule
    pub known : IsKnown rule
    pub enabled : rule.enabled ≡ true
    pub world : World R
    pub reached : After R start world
    pub triggered : (evaluate_conditions R world rule.conditions).0 ≡ true
    pub action : PendingAction
    pub listed : Memᴰ action (collect_pending_actions rule.id rule.actions)
    pub device : action.device_id ≡ d
    pub named : Memᴰ (k, v) action.params

  abbrev AllWanted : List PendingAction → Type 0
  AllWanted = All (λ (a : PendingAction). Holds IsWanted a.device_id a.params)

  rule-AllWanted :
      (r : Rule) (w : World R)
      → After R start w
      → IsKnown r
      → r.enabled ≡ true
      → (evaluate_conditions R w r.conditions).0 ≡ true
      → AllWanted (collect_pending_actions r.id r.actions)
  rule-AllWanted r w reached known on fired = All-of-mem _ _ λ a listed. All-of-mem _ _ λ p named.
      record {
        rule = r;
        known = known;
        enabled = on;
        world = w;
        reached = reached;
        triggered = fired;
        action = a;
        listed = listed;
        device = refl;
        named = named;
      }

  keep-AllWanted :
      (targets : List ActionTarget) (l : List PendingAction)
      → AllWanted l
      → AllWanted (keep_affecting targets l)
  unfolding keep_affecting
  keep-AllWanted targets [] h = tt
  keep-AllWanted targets (a ∷ l) h = elim (Bool-cases (affects targets a)) [
    | inl kept ↦ rw kept (h.0, keep-AllWanted targets l h.1)
    | inr dropped ↦ rw dropped (keep-AllWanted targets l h.1)
  ]

  gather-AllWanted :
      (w : World R) (current : String) (targets : List ActionTarget) (l : List Rule)
      → After R start w
      → All IsKnown l
      → AllWanted (gather R w current targets l).0
  unfolding gather
  gather-AllWanted w current targets [] reached h = tt
  gather-AllWanted w current targets (r ∷ l) reached h =
      elim (Bool-cases (not r.enabled || r.id == current)) [
        | inl skipped ↦ rw skipped (gather-AllWanted w current targets l reached h.1)
        | inr considered ↦
            rw considered (elim (Bool-cases (evaluate_conditions R w r.conditions).0) [
              | inl fired ↦ rw fired (
                  All-append _ (keep_affecting targets (collect_pending_actions r.id r.actions)) _
                    (keep-AllWanted targets _ (rule-AllWanted r w reached h.0 (ground arith) fired))
                    (gather-AllWanted (evaluate_conditions R w r.conditions).1 current targets l
                      (evaluated r.conditions reached) h.1))
              | inr quiet ↦ rw quiet (
                  gather-AllWanted (evaluate_conditions R w r.conditions).1 current targets l
                    (evaluated r.conditions reached) h.1)
            ])
      ]

  execute-Commands :
      (w v : World R) (connected : Bool) (r : Rule) (o : Option (List Rule))
      → After R start w
      → After R start v
      → rules.by_id rule_id ≡ some r
      → rules.all ≡ o
      → r.enabled ≡ true
      → (evaluate_conditions R v r.conditions).0 ≡ true
      → All (IsCommand IsWanted) (execute_among R w connected r o).2
  unfolding execute_among
  execute-Commands w v connected r none before now found listed on fired = tt
  execute-Commands w v connected r (some l) before now found listed on fired =
      let pending = collect_pending_actions r.id r.actions in
      let targets = extract_action_targets pending in
      let others = (gather R w r.id targets l).0 in
      elim (Bool-cases (length (resolve_conflicts (others ++ pending) targets) == 0)) [
        | inl empty ↦ rw empty tt
        | inr full ↦ rw full (
            execute-IsCommand IsWanted connected (others ++ pending) targets (
              All-append _ others pending
                (gather-AllWanted w r.id targets l before
                  (All-of-mem IsKnown l (λ x m. inr (l, listed, m))))
                (rule-AllWanted r v now (inl found) on fired)))
      ]

  run_unless-Commands :
      (connected : Bool) (r : Rule) (o : Option Bool)
      → rules.by_id rule_id ≡ some r
      → r.enabled ≡ true
      → All (IsCommand IsWanted) (run_unless R start connected rules r o).2
  unfolding run_unless
  run_unless-Commands connected r none found on = tt
  run_unless-Commands connected r (some true) found on = tt
  run_unless-Commands connected r (some false) found on =
      elim (Bool-cases (evaluate_conditions R start r.conditions).0) [
        | inl fired ↦ rw fired (
            execute-Commands (evaluate_conditions R start r.conditions).1 start connected r
              rules.all (evaluated r.conditions at_start) at_start found refl on fired)
        | inr quiet ↦ rw quiet tt
      ]

  run_rule-Commands :
      (connected : Bool) (o : Option Rule)
      → rules.by_id rule_id ≡ o
      → All (IsCommand IsWanted) (run_rule R start connected rules o).2
  unfolding run_rule
  run_rule-Commands connected none found = tt
  run_rule-Commands connected (some r) found = elim (Bool-cases r.enabled) [
    | inl on ↦ rw on (run_unless-Commands connected r _ found on)
    | inr off ↦ rw off tt
  ]

  -- Every message that the evaluation task of a rule publishes is a command to a device, and each
  -- of its values stands, for that device and attribute, in an action of an enabled rule, the
  -- rule of the task or one of the list of all rules, whose conditions evaluate to true in the
  -- world that the task starts in or one that its evaluations of conditions lead to.
  pub evaluate_and_execute-IsCommand :
      (connected : Bool)
      → All (IsCommand IsWanted) (evaluate_and_execute R start connected rules rule_id).2
  unfolding evaluate_and_execute
  evaluate_and_execute-IsCommand connected = run_rule-Commands connected (rules.by_id rule_id) refl
