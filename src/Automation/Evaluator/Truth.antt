-- ===== src/Automation/Evaluator/Truth.antt =====
-- The meaning of a condition tree over fixed states of the devices, where `says` tells what the time
-- conditions say.
use smarthome_backend.Prelude.{
  String, ◌≡◌, ◌==◌, string_Eq, Bool, true, false, ◌&&◌, ◌||◌, none, some, if◌then◌else◌,
}
use smarthome_backend.Json.{Payload, Map, unmarshal_value}
use smarthome_backend.Utils.{value, time, compare}
use smarthome_backend.Utils.Time.{Clock}
use smarthome_backend.Models.{Node, Condition, condition, Conditions, no_more, child}
use smarthome_backend.Automation.Evaluator.{reading}

-- What a time condition says at a moment.
unfoldable pub judged : Clock → String → Payload → Bool
judged moment op v = elim (unmarshal_value v) [
  | none ↦ false
  | some expected ↦ compare (time moment) op expected
]

-- What a device condition says of the states.
unfoldable pub device_truth : (String → Map) → Node → Bool
device_truth state n = elim (unmarshal_value n.value) [
  | none ↦ false
  | some expected ↦ compare (value (reading (state n.device_id) n.key)) n.op expected
]

module _ (state : String → Map) (says : String → Payload → Bool) where
  unfoldable pub truth_leaf : Node → Bool
  truth_leaf n =
      if n.type == "sensor" || n.type == "device"
      then device_truth state n
      else if n.type == "time"
      then says n.op n.value
      else false

  -- AND holds if all children do, OR if one does, and no other operator holds.
  unfoldable mutual
    pub truth : Condition → Bool
    truth (condition n children) =
        let every = all_true children in
        let one = some_true children in
        if n.operator == ""
        then truth_leaf n
        else if n.operator == "AND"
        then every
        else if n.operator == "OR"
        then one
        else false

    pub all_true : Conditions → Bool
    all_true no_more = true
    all_true (child c cs) = truth c && all_true cs

    pub some_true : Conditions → Bool
    some_true no_more = false
    some_true (child c cs) = truth c || some_true cs

-- The time conditions of a tree are among those of `P`.
mutual
  pub data Uses (P : String → Payload → Type 0) : Condition → Type 0 where
    uses :
        {n : Node} {cs : Conditions}
        → (n.type ≡ "time" → P n.op n.value)
        → EachUses P cs
        → Uses P (condition n cs)

  pub data EachUses (P : String → Payload → Type 0) : Conditions → Type 0 where
    none_uses : EachUses P no_more
    child_uses :
        {c : Condition} {cs : Conditions} → Uses P c → EachUses P cs → EachUses P (child c cs)
