-- ===== src/Automation/TimeExtractor/Boundary.antt =====
-- The minute of a time condition's own job, from the condition tree over the cron expression to the
-- evaluator.
use mathlib.Core.List.{Memᴰ}
use smarthome_backend.Prelude.{
  ◌≡◌, ◌==◌, nat_Eq, nat_eq_iff, string_Eq, eq_iff, String, true, some, arith, Bool-cases, inl, inr,
}
use smarthome_backend.Json.{str, doc, unmarshal_value}
use smarthome_backend.Utils.{compare, compare_time}
use smarthome_backend.Utils.Time.{Clock, minute_of_day, parse_clock, parse_clock_lem}
use smarthome_backend.Models.{Node, Condition}
use smarthome_backend.Automation.Evaluator.Truth.{judged}
use smarthome_backend.Automation.TimeExtractor.{
  TimeCondition, extracts, extract_recursive, convert_to_cron_expression,
}
use smarthome_backend.Automation.TimeExtractor.Coverage.{Leaf, extract_recursive-mem}
use smarthome_backend.Automation.TimeExtractor.Cron.{
  read_cron, read_cron-convert_to_cron_expression,
}

-- At its own minute a time is neither later nor earlier.
compare_time-same :
    (c : Clock) (op : String) → extracts op ≡ true → compare_time c op c ≡ (op == "==")
unfolding compare_time
compare_time-same c op h = elim (Bool-cases (op == "==")) [
  | inl equal ↦
      rw ((eq_iff op "==").0 equal) (ground (arith, nat_eq_iff (minute_of_day c) (minute_of_day c)))
  | inr other ↦ rw other (elim (Bool-cases (op == ">")) [
    | inl above ↦ rw above (ground arith)
    | inr rest ↦ let below : (op == "<") ≡ true = ground arith in rw (rest, below) (ground arith)
  ])
]

judged-same :
    (c : Clock) (op text : String)
    → extracts op ≡ true
    → parse_clock text ≡ some c
    → judged c op (doc (str text)) ≡ (op == "==")
unfolding judged unmarshal_value compare
judged-same c op text h p = ground (arith, compare_time-same c op h)

-- A time condition that the evaluator can read, with the operator `==`, `<` or `>`, and a leaf of the
-- tree under compound nodes that have no type `time`, is extracted with a cron expression that
-- names the minute and the hour of its time; at that minute, the condition is true if its operator is
-- `==`, and false if it is `<` or `>`.
pub extract_recursive-boundary :
    (n : Node) (text : String) (c : Clock) (t : Condition)
    → n.type ≡ "time"
    → extracts n.op ≡ true
    → n.value ≡ doc (str text)
    → parse_clock text ≡ some c
    → Leaf n t
    → (tc : TimeCondition) × Memᴰ tc (extract_recursive t)
      × (read_cron (convert_to_cron_expression tc) ≡ some (c.minute, c.hour))
      × (judged c n.op n.value ≡ (n.op == "=="))
extract_recursive-boundary n text c t timed ranged valued read l =
    let (h, m) = parse_clock_lem text read in
    let tc : TimeCondition = record { hour = c.hour; minute = c.minute; operator = n.op } in
    (
      tc,
      extract_recursive-mem n text c timed ranged valued read t l,
      read_cron-convert_to_cron_expression tc (omega (arith, h)) (omega (arith, m)),
      rw valued (judged-same c n.op text ranged read),
    )
