-- ===== src/Automation/TimeExtractor/Cron.antt =====
-- The cron expression of a time of day, read back.
use smarthome_backend.Prelude.{
  ℕ, zero, suc, ◌<◌, ◌≤◌, ◌≡◌, refl, String, ◌==◌, nat_Eq, Bool, true, false, ◌&&◌, List, [], ◌∷◌,
  Option, none, some, arith, if◌then◌else◌,
}
use smarthome_backend.Prelude.Codes.{codes}
use smarthome_backend.Prelude.Decimal.{show}
use smarthome_backend.Automation.TimeExtractor.{TimeCondition, convert_to_cron_expression}
use smarthome_backend.Automation.TimeExtractor.Scan.{scan_digits}

abbrev same_codes : List ℕ → List ℕ → Bool
same_codes [] [] = true
same_codes (a ∷ l) (b ∷ m) = a == b && same_codes l m
same_codes _ _ = false

abbrev after_hour : ℕ → ℕ × List ℕ → Option (ℕ × ℕ)
after_hour m (h, rest) = if same_codes rest (codes " * * *") then some (m, h) else none

abbrev after_minute : ℕ × List ℕ → Option (ℕ × ℕ)
after_minute (m, []) = none
after_minute (m, space ∷ rest) = if space == b' ' then after_hour m (scan_digits 0 rest) else none

-- The minute and the hour of a text that leaves the day and the month open.
pub read_cron : String → Option (ℕ × ℕ)
unfolding scan_digits
read_cron text = after_minute (scan_digits 0 (codes text))

abbrev is_pair : Option (ℕ × ℕ) → ℕ → ℕ → Bool
is_pair none m h = false
is_pair (some (a, b)) m h = a == m && b == h

pair_of : (o : Option (ℕ × ℕ)) (m h : ℕ) → is_pair o m h ≡ true → o ≡ some (m, h)
pair_of none m h e = cc
pair_of (some (a, b)) m h e = ground arith

holds_until : (ℕ → Bool) → ℕ → Bool
holds_until test zero = true
holds_until test (suc last) = holds_until test last && test last

-- A test that succeeds on all numbers up to a bound succeeds on each.
holds_until_at :
    (test : ℕ → Bool) (bound : ℕ) {i : ℕ}
    → i < bound
    → holds_until test bound ≡ true
    → test i ≡ true
unfolding holds_until
holds_until_at test zero below all = absurd (omega arith)
holds_until_at test (suc last) {i} below all = ground (arith, holds_until_at test last {i = i})

abbrev at : ℕ → ℕ → TimeCondition
at h m = record { hour = h; minute = m; operator = "" }

check : ℕ → ℕ → Bool
check h m = is_pair (read_cron (convert_to_cron_expression (at h m))) m h

-- Every minute of a day.
day_table : holds_until (λ h. holds_until (check h) 60) 24 ≡ true
unfolding holds_until check read_cron convert_to_cron_expression show
day_table = refl

same_text :
    (t : TimeCondition)
    → convert_to_cron_expression t ≡ convert_to_cron_expression (at t.hour t.minute)
unfolding convert_to_cron_expression
same_text t = refl

-- The cron expression of a time of day names its minute and its hour, and no day, month or weekday.
pub read_cron-convert_to_cron_expression :
    (t : TimeCondition)
    → t.hour ≤ 23
    → t.minute ≤ 59
    → read_cron (convert_to_cron_expression t) ≡ some (t.minute, t.hour)
read_cron-convert_to_cron_expression t h m = rw (same_text t) (
    pair_of _ t.minute t.hour (
      unfold check in
      holds_until_at (check t.hour) 60 (omega arith)
        (holds_until_at (λ x. holds_until (check x) 60) 24 {i = t.hour} (omega arith) day_table)))
