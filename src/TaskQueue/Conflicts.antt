-- ===== src/TaskQueue/Conflicts.antt =====
-- `extractActionTargets` and `resolveConflicts` of tasks.go.
pub mod Priority
pub mod Winner
use smarthome_backend.Prelude.{
  String, ◌≡◌, ◌==◌, string_Eq, Bool, true, false, ◌&&◌, ◌||◌, List, [], ◌∷◌, Option, none, some,
  any, map, if◌then◌else◌,
}
use smarthome_backend.Prelude.Dict.{lookup, insert}
use smarthome_backend.Prelude.TextOrder.{text_lt}
use smarthome_backend.Json.{Value, Map}
use smarthome_backend.TaskQueue.Actions.{PendingAction}

pub record ActionTarget : Type 0 where
  pub device_id : String
  pub key : String

abbrev pub is_target : String → String → ActionTarget → Bool
is_target d k t = t.device_id == d && t.key == k

-- targetMap[target] = true
unfoldable pub add_target : String → String → List ActionTarget → List ActionTarget
add_target d k ts = if any (is_target d k) ts then ts else record { device_id = d; key = k } ∷ ts

unfoldable pub add_targets : String → Map → List ActionTarget → List ActionTarget
add_targets d [] ts = ts
add_targets d ((k, v) ∷ m) ts = add_targets d m (add_target d k ts)

unfoldable pub extract_from : List ActionTarget → List PendingAction → List ActionTarget
extract_from ts [] = ts
extract_from ts (a ∷ rest) = extract_from (add_targets a.device_id a.params ts) rest

unfoldable pub extract_action_targets : List PendingAction → List ActionTarget
extract_action_targets = extract_from []

-- A chosen value and the rule that it comes from.
pub record Entry : Type 0 where
  pub rule_id : String
  pub value : Value

abbrev pub Entries : Type 0
Entries = List (String × Entry)

-- conflictMap: device, attribute, entry
abbrev pub ConflictMap : Type 0
ConflictMap = List (String × Entries)

-- An entry gives way to one of a lower rule ID.
unfoldable pub choose : Option Entry → Entry → Entry
choose none new = new
choose (some old) new = if text_lt new.rule_id old.rule_id then new else old

-- The loop over the parameters of one action.
unfoldable pub claim_all : String → Map → Entries → Entries
claim_all rule_id [] es = es
claim_all rule_id ((k, v) ∷ m) es =
    claim_all rule_id m
      (insert k (choose (lookup k es) (record { rule_id = rule_id; value = v })) es)

-- conflictMap[deviceID], the empty map where there is none yet
abbrev pub or_empty : Option Entries → Entries
or_empty none = []
or_empty (some es) = es

unfoldable pub entries_of : String → ConflictMap → Entries
entries_of d c = or_empty (lookup d c)

-- The loop over the pending actions.
unfoldable pub claim_actions : ConflictMap → List PendingAction → ConflictMap
claim_actions c [] = c
claim_actions c (a ∷ rest) =
    claim_actions (insert a.device_id (claim_all a.rule_id a.params (entries_of a.device_id c)) c)
      rest

unfoldable pub values : Entries → Map
values [] = []
values ((k, e) ∷ es) = (k, e.value) ∷ values es

unfoldable pub resolved : ConflictMap → List (String × Map)
unfolding values
resolved [] = []
resolved ((d, es) ∷ c) = (d, values es) ∷ resolved c

-- The targets are a parameter that the source does not use.
unfoldable pub resolve_conflicts : List PendingAction → List ActionTarget → List (String × Map)
unfolding claim_actions resolved
resolve_conflicts pending targets = resolved (claim_actions [] pending)
