-- ===== src/Automation/Evaluator.antt =====
-- internal/automation/evaluator.go. The world of an evaluation is the store behind the client, or
-- none if the client is nil, and the readings of the clock in the order in which they are taken.
pub mod Truth
pub mod Sound
pub mod Timing
pub mod Freshness
pub mod Stale
use Prim.Native.String
use smarthome_backend.Prelude.{
  ℕ, ◌+◌, String, ◌==◌, string_Eq, Bool, true, false, not, ◌&&◌, ◌||◌, Option, none, some, [],
  if◌then◌else◌,
}
use smarthome_backend.Prelude.Dict.{lookup}
use smarthome_backend.Json.{Value, null, bool, Payload, doc, Map, unmarshal_map, unmarshal_value}
use smarthome_backend.Utils.{Operand, value, time, compare}
use smarthome_backend.Utils.Time.{Clock}
use smarthome_backend.Models.{Node, Condition, condition, Conditions, no_more, child}
use smarthome_backend.Redis.{Redis}

abbrev pub device_key : String → String
device_key id = String.◌++◌ "device:" id

-- An unreadable state is the nil map.
unfoldable pub read_state : Option Payload → Map
read_state none = []
read_state (some p) = elim (unmarshal_map p) [ none ↦ [] | some m ↦ m ]

-- state[key], nil if the key is missing
unfoldable pub reading : Map → String → Value
reading m k = elim (lookup k m) [ none ↦ null | some v ↦ v ]

-- cached == "true"
unfoldable pub is_true : Payload → Bool
is_true (doc (bool b)) = b
is_true _ = false

module _ (R : Redis) where
  pub record World : Type 0 where
    pub store : Option R.Store
    pub clock : ℕ → Clock
    pub reads : ℕ

  abbrev pub time_key : String → Payload → String
  time_key op v = String.◌++◌ "time:" (String.◌++◌ op (String.◌++◌ ":" (R.message_text v)))

  -- time.Now()
  abbrev now : World → Clock
  now w = w.clock w.reads

  abbrev ticked : World → World
  ticked w = record w { reads = w.reads + 1 }

  unfoldable pub evaluate_device : World → Node → Bool × World
  evaluate_device w n = elim w.store [
    | none ↦ (false, w)
    | some s ↦ elim (unmarshal_value n.value) [
      | none ↦ (false, w)
      | some expected ↦
          let state = read_state (R.get s (device_key n.device_id)) in
          (compare (value (reading state n.key)) n.op expected, w)
    ]
  ]

  -- With a client: a cached result is returned as it is, and a computed one is cached.
  unfoldable pub time_in_store : R.Store → World → Node → Bool × World
  time_in_store s w n = elim (R.get s (time_key n.op n.value)) [
    | some cached ↦ (is_true cached, w)
    | none ↦ elim (unmarshal_value n.value) [
      | none ↦ (false, w)
      | some expected ↦
          let result = compare (time (now w)) n.op expected in
          (
            result,
            record (ticked w) {
              store = some (R.set s (time_key n.op n.value) (doc (bool result)));
            },
          )
    ]
  ]

  unfoldable pub evaluate_time : World → Node → Bool × World
  evaluate_time w n = elim w.store [
    | none ↦ elim (unmarshal_value n.value) [
      | none ↦ (false, w)
      | some expected ↦ (compare (time (now w)) n.op expected, ticked w)
    ]
    | some s ↦ time_in_store s w n
  ]

  unfoldable pub evaluate_leaf : World → Node → Bool × World
  evaluate_leaf w n =
      if n.type == "sensor" || n.type == "device"
      then evaluate_device w n
      else if n.type == "time"
      then evaluate_time w n
      else (false, w)

  unfoldable mutual
    pub evaluate_condition : World → Condition → Bool × World
    evaluate_condition w (condition n children) =
        let compound = evaluate_children w n.operator children in
        if n.operator == "" then evaluate_leaf w n else compound

    -- The loop over the children, which an AND leaves at the first false one and an OR at the
    -- first true one.
    pub evaluate_children : World → String → Conditions → Bool × World
    evaluate_children w operator no_more = (operator == "AND", w)
    evaluate_children w operator (child c cs) =
        let (result, w') = evaluate_condition w c in
        let rest = evaluate_children w' operator cs in
        if operator == "AND" && not result
        then (false, w')
        else if operator == "OR" && result
        then (true, w')
        else rest

  unfoldable pub evaluate_conditions : World → Option Condition → Bool × World
  evaluate_conditions w none = (false, w)
  evaluate_conditions w (some c) = evaluate_condition w c
