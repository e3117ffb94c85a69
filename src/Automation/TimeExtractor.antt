-- ===== src/Automation/TimeExtractor.antt =====
-- internal/automation/time_extractor.go: the times of day that a rule's conditions name, and the
-- cron expressions that trigger at them.
pub mod Scan
pub mod Coverage
pub mod Cron
pub mod Boundary
use Prim.Native.String
use smarthome_backend.Prelude.{
  ℕ, String, ◌==◌, string_Eq, Bool, true, false, ◌&&◌, ◌||◌, List, [], ◌∷◌, ◌++◌, Option, none,
  some, length, ltb, if◌then◌else◌,
}
use smarthome_backend.Prelude.Decimal.{show}
use smarthome_backend.Prelude.Int.{ℤ, pos, negsuc}
use smarthome_backend.Json.{null, str, Payload, doc}
use smarthome_backend.Models.{Node, Condition, condition, Conditions, no_more, child}
use Scan.{scan_time}

pub record TimeCondition : Type 0 where
  pub hour : ℕ
  pub minute : ℕ
  pub operator : String

-- json.Unmarshal into a string; `null` leaves it empty
unfoldable pub unmarshal_string : Payload → Option String
unmarshal_string (doc (str s)) = some s
unmarshal_string (doc null) = some ""
unmarshal_string _ = none

abbrev pub extracts : String → Bool
extracts op = op == "==" || op == "<" || op == ">"

-- The range test: hour < 0 || hour > 23 || minute < 0 || minute > 59 is refused.
unfoldable pub in_range : ℤ × ℤ → String → Option TimeCondition
in_range (pos h, pos m) op =
    if ltb 23 h || ltb 59 m then none else some (record { hour = h; minute = m; operator = op })
in_range _ op = none

unfoldable pub time_of : Payload → String → Option TimeCondition
unfolding unmarshal_string in_range
time_of v op = elim (unmarshal_string v) [
  | none ↦ none
  | some text ↦ elim (scan_time text) [ none ↦ none | some found ↦ in_range found op ]
]

-- What a node adds; `none` is an early return, which leaves the children out.
unfoldable pub own_times : Node → Option (List TimeCondition)
unfolding time_of
own_times n =
    if n.type == "time" && extracts n.op
    then elim (time_of n.value n.op) [ none ↦ none | some t ↦ some (t ∷ []) ]
    else some []

abbrev pub before : Option (List TimeCondition) → List TimeCondition → List TimeCondition
before none rest = []
before (some own) rest = own ++ rest

unfoldable mutual
  pub extract_recursive : Condition → List TimeCondition
  extract_recursive (condition n cs) = before (own_times n) (extract_children cs)

  pub extract_children : Conditions → List TimeCondition
  extract_children no_more = []
  extract_children (child c cs) = extract_recursive c ++ extract_children cs

unfoldable pub extract_time_conditions : Option Condition → List TimeCondition
extract_time_conditions none = []
extract_time_conditions (some c) = extract_recursive c

-- fmt.Sprintf("%d %d * * *", minute, hour)
unfoldable pub convert_to_cron_expression : TimeCondition → String
convert_to_cron_expression t =
    String.◌++◌ (show t.minute) (String.◌++◌ " " (String.◌++◌ (show t.hour) " * * *"))

unfoldable pub has_time_conditions : Option Condition → Bool
has_time_conditions c = ltb 0 (length (extract_time_conditions c))
