-- ===== src/Utils/Time.antt =====
-- The hour and the minute of a `time.Time`, and `time.Parse("15:04", text)`.
use smarthome_backend.Prelude.{
  ℕ, ◌+◌, ◌*◌, ◌<◌, ◌≡◌, String, ◌==◌, nat_Eq, Bool, ◌&&◌, List, [], ◌∷◌, Option, none, some, ltb,
  arith, if◌then◌else◌,
}
use smarthome_backend.Prelude.Codes.{codes, is_digit, digit_value}

pub record Clock : Type 0 where
  pub hour : ℕ
  pub minute : ℕ

-- Two times of one day compare as their minutes do.
unfoldable pub minute_of_day : Clock → ℕ
minute_of_day c = c.hour * 60 + c.minute

-- One or two digits, and what follows them.
unfoldable pub scan_hour : List ℕ → Option (ℕ × List ℕ)
scan_hour [] = none
scan_hour (a ∷ []) = if is_digit a then some (digit_value a, []) else none
scan_hour (a ∷ b ∷ rest) =
    if is_digit a
    then (if is_digit b
        then some (digit_value a * 10 + digit_value b, rest)
        else some (digit_value a, b ∷ rest))
    else none

-- A colon and two digits, and nothing behind them.
unfoldable pub scan_minute : List ℕ → Option ℕ
scan_minute (colon ∷ a ∷ b ∷ []) =
    if colon == b':' && is_digit a && is_digit b
    then some (digit_value a * 10 + digit_value b)
    else none
scan_minute _ = none

abbrev pub in_day : ℕ → ℕ → Bool
in_day h m = ltb h 24 && ltb m 60

abbrev pub clock_of : ℕ → Option ℕ → Option Clock
clock_of h none = none
clock_of h (some m) = if in_day h m then some (record { hour = h; minute = m }) else none

abbrev pub clock_from : Option (ℕ × List ℕ) → Option Clock
clock_from none = none
clock_from (some (h, rest)) = clock_of h (scan_minute rest)

unfoldable pub parse_clock : String → Option Clock
unfolding scan_hour scan_minute
parse_clock text = clock_from (scan_hour (codes text))

pub parse_clock_lem :
    (text : String) {c : Clock} → parse_clock text ≡ some c → (c.hour < 24) × (c.minute < 60)
unfolding parse_clock
parse_clock_lem text h = ground arith
