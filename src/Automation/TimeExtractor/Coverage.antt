-- ===== src/Automation/TimeExtractor/Coverage.antt =====
-- What the extractor finds: only times of a day, and every time that the evaluator can read.
use mathlib.Core.List.{Memᴰ}
use mathlib.Core.List.Memᴰ
use smarthome_backend.Prelude.{
  ℕ, ◌+◌, ◌*◌, ◌≤◌, ◌≡◌, ◌≢◌, refl, String, nat_Eq, string_Eq, eq_iff, true, false, inl, inr, List,
  [], ◌∷◌, some, All, All-append, arith, Option-cases,
}
use smarthome_backend.Prelude.Codes.{codes, is_digit, digit_value}
use smarthome_backend.Prelude.Int.{pos}
use smarthome_backend.Json.{str, doc}
use smarthome_backend.Utils.Time.{
  Clock, parse_clock, parse_clock_lem, scan_hour, scan_minute, clock_from,
}
use smarthome_backend.Models.{Node, Condition, condition, Conditions, no_more, child}
use smarthome_backend.Automation.TimeExtractor.Scan.{
  is_blank, skip_blanks, scan_digits, scan_signed, scan_int, scan_colon, behind, scan_time,
}
use smarthome_backend.Automation.TimeExtractor.{
  TimeCondition, extracts, time_of, own_times, extract_recursive, extract_children,
}

digit-not-blank : (c : ℕ) → is_digit c ≡ true → is_blank c ≡ false
unfolding is_blank
digit-not-blank c h = ground arith

skip_blanks-digit : (c : ℕ) (s : List ℕ) → is_digit c ≡ true → skip_blanks (c ∷ s) ≡ c ∷ s
unfolding skip_blanks
skip_blanks-digit c s h = rw (digit-not-blank c h) refl

-- One or two digits before something else.
scan_one :
    (a : ℕ) (x : ℕ) (s : List ℕ)
    → is_digit a ≡ true
    → is_digit x ≡ false
    → scan_int (a ∷ x ∷ s) ≡ some (pos (digit_value a), x ∷ s)
unfolding scan_signed scan_int
scan_one a x s h k = rw (skip_blanks-digit a (x ∷ s) h) (ground arith)

scan_two :
    (a b : ℕ) (s : List ℕ)
    → is_digit a ≡ true
    → is_digit b ≡ true
    → (scan_digits (digit_value a * 10 + digit_value b) s ≡ (digit_value a * 10 + digit_value b, s))
    → scan_int (a ∷ b ∷ s) ≡ some (pos (digit_value a * 10 + digit_value b), s)
unfolding scan_signed scan_int
scan_two a b s h k stops = rw (skip_blanks-digit a (b ∷ s) h) (ground arith)

scan_short :
    (a b x y : ℕ) {c : Clock}
    → clock_from (scan_hour (a ∷ b ∷ x ∷ y ∷ [])) ≡ some c
    → behind (scan_int (a ∷ b ∷ x ∷ y ∷ [])) ≡ some (pos c.hour, pos c.minute)
unfolding scan_hour scan_minute scan_colon scan_digits
scan_short a b x y h = ground (arith, scan_one a b (x ∷ y ∷ []), scan_two x y [])

scan_long :
    (a b x y z : ℕ) {c : Clock}
    → clock_from (scan_hour (a ∷ b ∷ x ∷ y ∷ z ∷ [])) ≡ some c
    → behind (scan_int (a ∷ b ∷ x ∷ y ∷ z ∷ [])) ≡ some (pos c.hour, pos c.minute)
unfolding scan_hour scan_minute scan_colon scan_digits
scan_long a b x y z h = ground (arith, scan_two a b (x ∷ y ∷ z ∷ []), scan_two y z [])

scan_codes :
    (s : List ℕ) {c : Clock}
    → clock_from (scan_hour s) ≡ some c
    → behind (scan_int s) ≡ some (pos c.hour, pos c.minute)
unfolding scan_hour scan_minute
scan_codes [] h = cc
scan_codes (a ∷ []) h = ground arith
scan_codes (a ∷ b ∷ []) h = ground arith
scan_codes (a ∷ b ∷ x ∷ []) h = ground arith
scan_codes (a ∷ b ∷ x ∷ y ∷ []) h = scan_short a b x y h
scan_codes (a ∷ b ∷ x ∷ y ∷ z ∷ []) h = scan_long a b x y z h
scan_codes (a ∷ b ∷ x ∷ y ∷ z ∷ u ∷ s) h = ground arith

-- What the evaluator's `time.Parse` accepts, `Sscanf` reads as the same hour and minute.
pub scan_time-parse_clock :
    (text : String) {c : Clock}
    → parse_clock text ≡ some c
    → scan_time text ≡ some (pos c.hour, pos c.minute)
unfolding parse_clock scan_time
scan_time-parse_clock text h = scan_codes (codes text) h

time_of-parse_clock :
    (text op : String) {c : Clock}
    → parse_clock text ≡ some c
    → time_of (doc (str text)) op
      ≡ some (record { hour = c.hour; minute = c.minute; operator = op })
unfolding time_of
time_of-parse_clock text op h = ground (arith, scan_time-parse_clock text h, parse_clock_lem text h)

-- What every extracted condition satisfies.
abbrev pub InDay : TimeCondition → Type 0
InDay t = (t.hour ≤ 23) × (t.minute ≤ 59) × (extracts t.operator ≡ true)

own_times-InDay : (n : Node) {own : List TimeCondition} → own_times n ≡ some own → All InDay own
unfolding own_times
own_times-InDay n h = ground arith

mutual
  unfolding extract_recursive

  recursive-InDay : (c : Condition) → All InDay (extract_recursive c)
  recursive-InDay (condition n cs) = elim (Option-cases (own_times n)) [
    | inl stop ↦ rw stop tt
    | inr (own, go) ↦
        rw go
          (All-append InDay own (extract_children cs) (own_times-InDay n go) (children-InDay cs))
  ]

  children-InDay : (cs : Conditions) → All InDay (extract_children cs)
  children-InDay no_more = tt
  children-InDay (child c cs) =
      All-append InDay (extract_recursive c) (extract_children cs) (recursive-InDay c)
        (children-InDay cs)

-- Every time that the extractor finds in a tree is a time of day, and its operator is `==`, `<`
-- or `>`.
pub extract_recursive-InDay : (c : Condition) → All InDay (extract_recursive c)
extract_recursive-InDay c = recursive-InDay c

-- A leaf of the tree under compound nodes that have no type `time` of their own.
mutual
  pub data Leaf (n : Node) : Condition → Type 0 where
    leaf : {cs : Conditions} → n.operator ≡ "" → Leaf n (condition n cs)
    below :
        {m : Node} {cs : Conditions} → m.type ≢ "time" → LeafAmong n cs → Leaf n (condition m cs)

  pub data LeafAmong (n : Node) : Conditions → Type 0 where
    first : {c : Condition} {cs : Conditions} → Leaf n c → LeafAmong n (child c cs)
    later : {c : Condition} {cs : Conditions} → LeafAmong n cs → LeafAmong n (child c cs)

own_times-skips : (m : Node) → m.type ≢ "time" → own_times m ≡ some []
unfolding own_times
own_times-skips m h = ground (arith, eq_iff m.type "time")

module _ (n : Node) (text : String) (c : Clock) (timed : n.type ≡ "time")
    (ranged : extracts n.op ≡ true) (valued : n.value ≡ doc (str text))
    (read : parse_clock text ≡ some c) where
  own_times-leaf :
      own_times n ≡ some (record { hour = c.hour; minute = c.minute; operator = n.op } ∷ [])
  unfolding own_times
  own_times-leaf = ground (arith, eq_iff n.type "time", time_of-parse_clock text n.op read)

  mutual
    unfolding extract_recursive

    leaf-mem :
        {t : Condition}
        → Leaf n t
        → Memᴰ (record { hour = c.hour; minute = c.minute; operator = n.op }) (extract_recursive t)
    leaf-mem (leaf {cs} top) = rw own_times-leaf (Memᴰ.head refl)
    leaf-mem (below {m} {cs} plain among) = rw (own_times-skips m plain) (among-mem among)

    among-mem :
        {cs : Conditions}
        → LeafAmong n cs
        → Memᴰ (record { hour = c.hour; minute = c.minute; operator = n.op }) (extract_children cs)
    among-mem (first {c} {cs} l) = Memᴰ.append_left (extract_children cs) (leaf-mem l)
    among-mem (later {c} {cs} l) = Memᴰ.append_right (extract_recursive c) (among-mem l)

  -- A time condition that the evaluator can read, with the operator `==`, `<` or `>`, is extracted
  -- with the hour and the minute that the evaluator compares with, wherever it is a leaf under
  -- compound nodes that have no type `time`.
  pub extract_recursive-mem :
      (t : Condition)
      → Leaf n t
      → Memᴰ (record { hour = c.hour; minute = c.minute; operator = n.op }) (extract_recursive t)
  extract_recursive-mem t l = leaf-mem l
