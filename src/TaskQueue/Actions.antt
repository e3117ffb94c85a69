-- ===== src/TaskQueue/Actions.antt =====
-- The actions of a rule, read at the two types at which tasks.go unmarshals them.
pub mod Redundant
use Prim.Native.Char.{Char, code}
use Prim.Native.String
use smarthome_backend.Prelude.{
  ℕ, ◌+◌, ◌-◌, ◌*◌, ◌/◌, ◌%◌, ◌^◌, String, ◌==◌, nat_Eq, string_Eq, Bool, true, false, not, ◌&&◌,
  ◌||◌, List, [], ◌∷◌, Option, none, some, ltb, leb, length, if◌then◌else◌,
}
use smarthome_backend.Prelude.Decimal.{show}
use smarthome_backend.Prelude.Dict.{lookup}
use smarthome_backend.Json.{
  Value, null, bool, num, str, arr, obj, Items, nil, cons, Fields, end, field, Payload, doc,
  malformed, Map, to_map_from, unmarshal_map,
}
use smarthome_backend.Json.Float.{Float64, float_eq, whole_part}
use smarthome_backend.Redis.{Redis}

-- Field names match up to the case of ASCII letters, as `encoding/json` matches them.
abbrev lower : ℕ → ℕ
lower c = if leb b'A' c && leb c b'Z' then c + 32 else c

unfoldable pub same_name : String → String → Bool
same_name String.[] String.[] = true
same_name (String.◌∷◌ c s) (String.◌∷◌ d t) = lower (code c) == lower (code d) && same_name s t
same_name _ _ = false

-- The struct of `collectPendingActions`. `params` is malformed while the field is absent, and
-- `refused` remembers a type error, after which the decoding goes on.
pub record Action : Type 0 where
  pub device_id : String
  pub action : String
  pub params : Payload
  pub refused : Bool

abbrev pub zero_action : Action
zero_action = record { device_id = ""; action = ""; params = malformed; refused = false }

abbrev set_device : Value → Action → Action
set_device (str s) a = record a { device_id = s }
set_device null a = a
set_device _ a = record a { refused = true }

abbrev set_action : Value → Action → Action
set_action (str s) a = record a { action = s }
set_action null a = a
set_action _ a = record a { refused = true }

unfoldable pub set_field : String → Value → Action → Action
set_field name v a =
    if same_name "device_id" name
    then set_device v a
    else if same_name "action" name
    then set_action v a
    else if same_name "params" name
    then record a { params = doc v }
    else a

unfoldable pub set_fields : Fields → Action → Action
set_fields end a = a
set_fields (field name v fs) a = set_fields fs (set_field name v a)

-- One element of the array; `null` leaves the zero value.
unfoldable pub decode_action : Value → Option Action
decode_action (obj fs) = let a = set_fields fs zero_action in if a.refused then none else some a
decode_action null = some zero_action
decode_action _ = none

abbrev pub join {ℓ} : {A : Type ℓ} → Option A → Option (List A) → Option (List A)
join none rest = none
join (some a) none = none
join (some a) (some rest) = some (a ∷ rest)

unfoldable pub decode_actions : Items → Option (List Action)
unfolding decode_action
decode_actions nil = some []
decode_actions (cons v vs) = join (decode_action v) (decode_actions vs)

unfoldable pub unmarshal_actions : Payload → Option (List Action)
unmarshal_actions (doc (arr vs)) = decode_actions vs
unmarshal_actions (doc null) = some []
unmarshal_actions _ = none

-- At the type `[]map[string]interface{}`.
unfoldable pub decode_map : Value → Option Map
decode_map v = unmarshal_map (doc v)

unfoldable pub decode_maps : Items → Option (List Map)
unfolding decode_map
decode_maps nil = some []
decode_maps (cons v vs) = join (decode_map v) (decode_maps vs)

unfoldable pub unmarshal_maps : Payload → Option (List Map)
unmarshal_maps (doc (arr vs)) = decode_maps vs
unmarshal_maps (doc null) = some []
unmarshal_maps _ = none

pub record PendingAction : Type 0 where
  pub rule_id : String
  pub device_id : String
  pub params : Map

-- The loop of `collectPendingActions`, which skips actions without a device and those whose
-- parameters are refused.
unfoldable pub collect : String → List Action → List PendingAction
collect rule_id [] = []
collect rule_id (a ∷ rest) =
    let more = collect rule_id rest in
    if a.device_id == "" then more else elim (unmarshal_map a.params) [
      | none ↦ more
      | some m ↦ record { rule_id = rule_id; device_id = a.device_id; params = m } ∷ more
    ]

unfoldable pub collect_pending_actions : String → Payload → List PendingAction
unfolding collect
collect_pending_actions rule_id p = elim (unmarshal_actions p) [
  | none ↦ []
  | some actions ↦ collect rule_id actions
]

-- fmt.Sprintf("%d", int64(f))
unfoldable pub int_text : Float64 → String
unfolding whole_part
int_text f =
    let n = whole_part f in
    if leb (2 ^ 63) n
    then "-9223372036854775808"
    else if f.negative && not (n == 0)
    then String.◌++◌ "-" (show n)
    else show n

abbrev pub state_key : Float64 → String
state_key f = String.◌++◌ "device:" (String.◌++◌ (int_text f) ":state")

-- `==` on `interface{}`: two maps, or two slices, panic.
unfoldable pub same_value : Value → Value → Option Bool
same_value null null = some true
same_value (bool true) (bool b) = some b
same_value (bool false) (bool b) = some (not b)
same_value (num a) (num b) = some (float_eq a b)
same_value (str a) (str b) = some (a == b)
same_value (arr _) (arr _) = none
same_value (obj _) (obj _) = none
same_value _ _ = some false

-- The loop over the target state; `none` is a panic.
unfoldable pub all_reached : Map → Map → Option Bool
all_reached current [] = some true
all_reached current ((k, v) ∷ rest) =
    let more = all_reached current rest in
    elim (lookup k current) [
      | none ↦ some false
      | some w ↦ elim (same_value w v) [
        | none ↦ none
        | some same ↦ if same then more else some false
      ]
    ]

module _ (R : Redis) where
  -- One round of `areAllActionsRedundant`; a nil client panics at the GET.
  unfoldable pub is_redundant : Option R.Store → Map → Option Bool
  unfolding all_reached same_value
  is_redundant store m = elim (lookup "type" m) [
    | some (str type) ↦ if not (type == "device") then some false else elim (lookup "device_id" m) [
      | some (num f) ↦ elim (lookup "state" m) [
        | some (obj target) ↦
            if length (to_map_from [] target) == 0 then some false else elim store [
              | none ↦ none
              | some s ↦ elim (R.get s (state_key f)) [
                | none ↦ some false
                | some p ↦ elim (unmarshal_map p) [
                  | none ↦ some false
                  | some current ↦ all_reached current (to_map_from [] target)
                ]
              ]
            ]
        | _ ↦ some false
      ]
      | _ ↦ some false
    ]
    | _ ↦ some false
  ]

  unfoldable pub redundant_from : Option R.Store → List Map → Option Bool
  redundant_from store [] = some true
  redundant_from store (m ∷ ms) =
      let more = redundant_from store ms in
      elim (is_redundant store m) [
        | none ↦ none
        | some reached ↦ if reached then more else some false
      ]

  unfoldable pub are_all_actions_redundant : Option R.Store → Payload → Option Bool
  unfolding redundant_from is_redundant
  are_all_actions_redundant store p = elim (unmarshal_maps p) [
    | none ↦ some false
    | some maps ↦ redundant_from store maps
  ]
