-- ===== src/Tests/Conditions.antt =====
-- Conditions: comparison, evaluation and the times in them.
use mathlib.Core.List.{Memᴰ}
use smarthome_backend.Prelude.{
  String, ◌==◌, string_Eq, Bool, ◌≡◌, ◌↔◌, refl, true, false, [], ◌∷◌, some, arith, eq_iff,
}
use smarthome_backend.Prelude.Int.{pos}
use smarthome_backend.Prelude.Dict.{lookup, insert}
use smarthome_backend.Json.{
  bool, num, str, obj, end, field, Payload, doc, malformed, Map, unmarshal_map, unmarshal_value,
}
use smarthome_backend.Json.Float.{Float64, float_lt}
use smarthome_backend.Utils.{value, time, compare, parse_device_id}
use smarthome_backend.Utils.Time.{Clock, parse_clock, minute_of_day}
use smarthome_backend.Utils.Laws.{Compares, compare_iff}
use smarthome_backend.Models.{Node, Condition, condition, no_more, child}
use smarthome_backend.Automation.Evaluator.{
  World, evaluate_condition, evaluate_leaf, evaluate_device, evaluate_time, time_in_store,
  read_state, reading, device_key, time_key,
}
use smarthome_backend.Automation.Evaluator.Truth.{judged, truth, Uses, uses, none_uses, child_uses}
use smarthome_backend.Automation.Evaluator.Sound.{Steady, evaluate_condition-truth}
use smarthome_backend.Automation.TimeExtractor.{
  extract_recursive, own_times, convert_to_cron_expression,
}
use smarthome_backend.Automation.TimeExtractor.Scan.{scan_time}
use smarthome_backend.Automation.TimeExtractor.Coverage.{
  leaf, below, first, later, scan_time-parse_clock,
}
use smarthome_backend.Automation.TimeExtractor.{TimeCondition}
use smarthome_backend.Automation.TimeExtractor.Boundary.{extract_recursive-boundary}
use smarthome_backend.Automation.TimeExtractor.Cron.{read_cron}
use smarthome_backend.Tests.Doubles.{memory_redis, memory_strings}

-- 21.5 and 20
abbrev warm : Float64
warm = record { negative = false; magnitude = 0x4035800000000000 }

abbrev mild : Float64
mild = record { negative = false; magnitude = 0x4034000000000000 }

device_topic : parse_device_id "devices/lamp/state" ≡ "lamp"
unfolding parse_device_id
device_topic = refl

comparisons :
    (compare (value (num warm)) ">" (num mild) ≡ true)
    × (compare (value (str "on")) "!=" (bool true) ≡ false)
    × (compare (time (record { hour = 18; minute = 5 })) ">" (str "18:00") ≡ true)
    × (compare (time (record { hour = 18; minute = 5 })) ">" (str "18:5") ≡ false)
unfolding compare parse_clock minute_of_day float_lt
comparisons = (refl, refl, refl, refl)

compare_iff_example :
    compare (value (num warm)) ">" (num mild) ≡ true ↔ Compares (value (num warm)) ">" (num mild)
compare_iff_example = compare_iff (value (num warm)) ">" (num mild)

abbrev pub node : String → String → String → String → Payload → String → Node
node type device key op v operator = record {
  type = type;
  device_id = device;
  key = key;
  op = op;
  value = v;
  min_change = mild;
  operator = operator;
}

abbrev evening : Node
evening = node "time" "" "" ">" (doc (str "18:00")) ""

-- The lamp is on, and it is later than six.
abbrev lamp_on : Condition
lamp_on = condition (node "device" "lamp" "on" "==" (doc (bool true)) "") no_more

abbrev lit_evening : Condition
lit_evening =
    condition (node "" "" "" "" malformed "AND")
      (child lamp_on (child (condition evening no_more) no_more))

abbrev lamp_state : Map
lamp_state = ("on", bool true) ∷ []

abbrev pub lamp_doc : Payload
lamp_doc = doc (obj (field "on" (bool true) end))

abbrev seven : Clock
seven = record { hour = 19; minute = 0 }

abbrev world : World memory_redis
world = record { store = some (("device:lamp", lamp_doc) ∷ []); clock = λ i. seven; reads = 0 }

-- The states behind the world.
states : String → Map
unfolding read_state unmarshal_map lookup
states id = read_state (memory_redis.get (("device:lamp", lamp_doc) ∷ []) (device_key id))

abbrev InUse : String → Payload → Type 0
InUse op v = (op ≡ ">") × (v ≡ doc (str "18:00"))

lit_evening-Uses : Uses InUse lit_evening
lit_evening-Uses =
    uses (λ p. absurd (ground (arith, eq_iff "" "time")))
      (child_uses (uses (λ p. absurd (ground (arith, eq_iff "device" "time"))) none_uses)
        (child_uses (uses (λ p. (refl, refl)) none_uses) none_uses))

nothing_cached :
    (v p : Payload)
    → ¬ (memory_redis.get (("device:lamp", lamp_doc) ∷ []) (time_key memory_redis ">" v) ≡ some p)
unfolding lookup
nothing_cached v p h = cc

-- What the conditions say at seven, and no further property of the store.
abbrev says : String → Payload → Bool
says op v = judged seven op v

abbrev Also : memory_redis.Store → Type 0
Also s = Unit

world-Steady : Steady memory_redis memory_strings states (λ i. seven) says InUse Also world
unfolding states lookup
world-Steady = record {
  store = ("device:lamp", lamp_doc) ∷ [];
  present = refl;
  still = λ i. refl;
  devices = λ id. refl;
  cached = λ op v p u found. absurd (nothing_cached v p (rw u.0 at found));
  uncached = λ i op v u missing. refl;
  also = tt;
}

lit_evening_runs : (evaluate_condition memory_redis world lit_evening).0 ≡ true
unfolding evaluate_condition evaluate_leaf evaluate_device evaluate_time time_in_store read_state
    reading unmarshal_map unmarshal_value lookup compare parse_clock minute_of_day insert
lit_evening_runs = refl

evaluate_condition-truth_example :
    ((evaluate_condition memory_redis world lit_evening).0 ≡ truth states says lit_evening)
    × Steady memory_redis memory_strings states
        (λ i. seven)
        says
        InUse
        Also
        (evaluate_condition memory_redis world lit_evening).1
evaluate_condition-truth_example =
    evaluate_condition-truth memory_redis memory_strings states (λ i. seven) says InUse Also
      same_judged (λ s i op v u missing also. tt) lit_evening world lit_evening-Uses world-Steady
  where
    same_judged :
        (op op' : String) (v v' : Payload)
        → InUse op v
        → InUse op' v'
        → time_key memory_redis op v ≡ time_key memory_redis op' v'
        → judged seven op v ≡ judged seven op' v'
    same_judged op op' v v' u u' e = cc (u.0, u'.0, u.1, u'.1)

scan_time-parse_clock_example : scan_time "18:05" ≡ some (pos 18, pos 5)
unfolding parse_clock
scan_time-parse_clock_example =
    scan_time-parse_clock "18:05" {c = record { hour = 18; minute = 5 }} refl

extracted : extract_recursive lit_evening ≡ record { hour = 18; minute = 0; operator = ">" } ∷ []
unfolding extract_recursive own_times scan_time
extracted = refl

-- A time with one digit of minutes is scheduled, and never holds.
lenient : Condition
lenient = condition (node "time" "" "" ">" (doc (str "18:5")) "") no_more

lenient_time :
    (extract_recursive lenient ≡ record { hour = 18; minute = 5; operator = ">" } ∷ [])
    × (judged seven ">" (doc (str "18:5")) ≡ false)
unfolding lenient extract_recursive own_times scan_time judged unmarshal_value compare parse_clock
lenient_time = (refl, refl)

extract_recursive-boundary_example :
    (tc : TimeCondition) × Memᴰ tc (extract_recursive lit_evening)
    × (read_cron (convert_to_cron_expression tc) ≡ some (0, 18))
    × (judged (record { hour = 18; minute = 0 }) ">" (doc (str "18:00")) ≡ (evening.op == "=="))
unfolding parse_clock
extract_recursive-boundary_example =
    extract_recursive-boundary evening "18:00" (record { hour = 18; minute = 0 }) lit_evening refl
      refl refl refl (below (λ p. ground (arith, eq_iff "" "time")) (later (first (leaf refl))))
