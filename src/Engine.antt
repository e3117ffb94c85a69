-- ===== src/Engine.antt =====
-- internal/engine/engine.go: the devices of a rule, and the sets in Redis that associate devices
-- with the rules to evaluate when they change.
pub mod Devices
pub mod Associations
pub mod Rules
use Prim.Native.String
use smarthome_backend.Prelude.{
  String, ◌==◌, string_Eq, Bool, true, false, List, [], ◌∷◌, Option, none, some, contains,
  if◌then◌else◌,
}
use smarthome_backend.Json.{Payload, Map, unmarshal_map}
use smarthome_backend.Utils.{parse_device_id}
use smarthome_backend.Models.{Rule, Node, Condition, condition, Conditions, no_more, child}
use smarthome_backend.Redis.{Redis}

-- deviceIDs[id] = true
unfoldable pub mark : String → List String → List String
mark id ids = if contains id ids then ids else id ∷ ids

unfoldable pub mark_all : List String → List String → List String
mark_all [] ids = ids
mark_all (id ∷ more) ids = mark_all more (mark id ids)

-- A condition without a device marks none.
unfoldable pub mark_device : String → List String → List String
mark_device id ids = if id == "" then ids else mark id ids

-- The loop of `extractDeviceIDsFromConditions`, from the IDs that are marked already.
unfoldable mutual
  pub from_condition : Condition → List String → List String
  from_condition (condition n children) ids =
      mark_all (from_conditions children []) (mark_device n.device_id ids)

  pub from_conditions : Conditions → List String → List String
  from_conditions no_more ids = ids
  from_conditions (child c rest) ids = from_conditions rest (from_condition c ids)

-- The root is treated as one of the conditions of the loop is.
unfoldable pub extract_device_ids : Condition → List String
unfolding from_condition
extract_device_ids (condition n children) =
    mark_all (from_conditions children []) (mark_device n.device_id [])

abbrev pub rules_key : String → String
rules_key id = String.◌++◌ "device:" (String.◌++◌ id ":rules")

abbrev pub rules_pattern : String
rules_pattern = "device:*:rules"

module _ (R : Redis) where
  unfoldable pub clear : R.Store → List String → R.Store
  clear s [] = s
  clear s (key ∷ more) = clear (R.del s key) more

  unfoldable pub add_rule : R.Store → String → List String → R.Store
  add_rule s rule_id [] = s
  add_rule s rule_id (id ∷ more) = add_rule (R.sadd s (rules_key id) rule_id) rule_id more

  -- A rule whose conditions do not parse is passed over.
  unfoldable pub associate : R.Store → String → Option Condition → R.Store
  unfolding add_rule extract_device_ids
  associate s rule_id none = s
  associate s rule_id (some c) = add_rule s rule_id (extract_device_ids c)

  unfoldable pub associate_all : R.Store → List Rule → R.Store
  unfolding associate
  associate_all s [] = s
  associate_all s (r ∷ rest) =
      associate_all (if r.enabled then associate s r.id r.conditions else s) rest

  unfoldable pub clear_and_associate : R.Store → Option (List String) → List Rule → R.Store × Bool
  unfolding clear associate_all
  clear_and_associate s none rules = (s, true)
  clear_and_associate s (some keys) rules = (associate_all (clear s keys) rules, false)

  -- The second component says that there was an error.
  unfoldable pub populate_associations : R.Store → Option (List Rule) → R.Store × Bool
  unfolding clear_and_associate
  populate_associations s none = (s, true)
  populate_associations s (some rules) = clear_and_associate s (R.keys s rules_pattern) rules

-- `onDeviceUpdate`: the device and the state of the update task that is enqueued, if any.
unfoldable pub on_device_update : String → Payload → Option (String × Map)
on_device_update topic p = elim (unmarshal_map p) [
  | none ↦ none
  | some state ↦ some (parse_device_id topic, state)
]
