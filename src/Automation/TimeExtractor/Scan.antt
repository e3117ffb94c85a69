-- ===== src/Automation/TimeExtractor/Scan.antt =====
-- fmt.Sscanf(text, "%d:%d", &hour, &minute): blanks may stand before a number, a sign may, the
-- colon follows the first number at once, and what stands behind the second is left.
use smarthome_backend.Prelude.{
  ℕ, ◌+◌, ◌*◌, ◌^◌, ◌≡◌, refl, String, ◌==◌, nat_Eq, Bool, true, false, ◌&&◌, ◌||◌, List, [], ◌∷◌,
  Option, none, some, ltb, leb, if◌then◌else◌,
}
use smarthome_backend.Prelude.Codes.{codes, is_digit, digit_value}
use smarthome_backend.Prelude.Int.{ℤ, pos, negsuc, signed}

-- The white space of `fmt`, but the newline, at which `Sscanf` stops with an error.
unfoldable pub is_blank : ℕ → Bool
is_blank c =
    c == 0x09
    || (leb 0x0b c && leb c 0x0d)
    || c == 0x20
    || c == 0x85
    || c == 0xa0
    || c == 0x1680
    || (leb 0x2000 c && leb c 0x200a)
    || c == 0x2028
    || c == 0x2029
    || c == 0x202f
    || c == 0x205f
    || c == 0x3000

unfoldable pub skip_blanks : List ℕ → List ℕ
skip_blanks [] = []
skip_blanks (c ∷ s) = if is_blank c then skip_blanks s else c ∷ s

-- The digits that follow, after `n`; and what is left.
unfoldable pub scan_digits : ℕ → List ℕ → ℕ × List ℕ
scan_digits n [] = (n, [])
scan_digits n (c ∷ s) =
    let more = scan_digits (n * 10 + digit_value c) s in if is_digit c then more else (n, c ∷ s)

-- An `int` has 64 bits.
unfoldable pub fits_int : Bool → ℕ → Bool
fits_int true n = leb n (2 ^ 63)
fits_int false n = ltb n (2 ^ 63)

-- At least one digit.
unfoldable pub scan_unsigned : Bool → List ℕ → Option (ℤ × List ℕ)
unfolding scan_digits fits_int
scan_unsigned negative [] = none
scan_unsigned negative (c ∷ s) =
    if is_digit c
    then (let (n, rest) = scan_digits (digit_value c) s in
        if fits_int negative n then some (signed negative n, rest) else none)
    else none

unfoldable pub scan_signed : List ℕ → Option (ℤ × List ℕ)
unfolding scan_unsigned
scan_signed [] = none
scan_signed (c ∷ s) =
    if c == b'-'
    then scan_unsigned true s
    else if c == b'+'
    then scan_unsigned false s
    else scan_unsigned false (c ∷ s)

unfoldable pub scan_int : List ℕ → Option (ℤ × List ℕ)
unfolding scan_signed skip_blanks is_blank
scan_int s = scan_signed (skip_blanks s)

unfoldable pub scan_colon : List ℕ → Option (List ℕ)
scan_colon [] = none
scan_colon (c ∷ s) = if c == b':' then some s else none

infixl 5 ◌>>=◌
abbrev pub ◌>>=◌ {ℓ κ} : {A : Type ℓ} {B : Type κ} → Option A → (A → Option B) → Option B
none >>= k = none
some a >>= k = k a

abbrev pub second : ℤ → Option (ℤ × List ℕ) → Option (ℤ × ℤ)
second h none = none
second h (some (m, rest)) = some (h, m)

abbrev pub behind : Option (ℤ × List ℕ) → Option (ℤ × ℤ)
behind none = none
behind (some (h, rest)) = scan_colon rest >>= λ s. second h (scan_int s)

unfoldable pub scan_time : String → Option (ℤ × ℤ)
unfolding scan_int scan_colon
scan_time text = behind (scan_int (codes text))

scan_time_tests :
    (scan_time "18:00" ≡ some (pos 18, pos 0))
    × (scan_time " 7:5pm" ≡ some (pos 7, pos 5))
    × (scan_time "-1:30" ≡ some (negsuc 0, pos 30))
    × (scan_time "18 :00" ≡ none)
unfolding scan_time
scan_time_tests = (refl, refl, refl, refl)
