-- ===== src/Json/Float.antt =====
-- `float64`: a sign and the 63 bits of exponent and fraction, which order the magnitudes.
use smarthome_backend.Prelude.Int.{ℤ, pos, negsuc, signed}
use smarthome_backend.Prelude.{
  ℕ, ◌+◌, ◌*◌, ◌/◌, ◌%◌, ◌^◌, ◌-◌, refl, leb, ◌≡◌, Bool, true, false, not, ◌&&◌, ◌||◌, arith, ltb,
  ◌==◌, nat_Eq, if◌then◌else◌, ◌⊎◌,
}

pub record Float64 : Type 0 where
  pub negative : Bool
  pub magnitude : ℕ

-- The bits of infinity; above them stand the NaNs.
abbrev infinity : ℕ
infinity = 0x7ff0000000000000

unfoldable pub is_nan : Float64 → Bool
is_nan x = ltb infinity x.magnitude

-- Both zeros are one value.
abbrev is_zero : Float64 → Bool
is_zero x = x.magnitude == 0

-- a < b
unfoldable pub float_lt : Float64 → Float64 → Bool
unfolding is_nan
float_lt a b =
    if is_nan a || is_nan b
    then false
    else if a.negative
    then (if b.negative then ltb b.magnitude a.magnitude else not (is_zero a && is_zero b))
    else (if b.negative then false else ltb a.magnitude b.magnitude)

abbrev same_sign : Bool → Bool → Bool
same_sign true b = b
same_sign false b = not b

-- a == b
unfoldable pub float_eq : Float64 → Float64 → Bool
unfolding is_nan
float_eq a b =
    if is_nan a || is_nan b
    then false
    else (is_zero a && is_zero b) || (same_sign a.negative b.negative && a.magnitude == b.magnitude)

-- The whole part of the magnitude, for a conversion to an integer towards zero. Beyond 63 bits the
-- result of a conversion is the processor's: the least integer, on amd64.
unfoldable pub whole_part : Float64 → ℕ
whole_part f =
    let e = f.magnitude / 2 ^ 52 in
    let mantissa = 2 ^ 52 + f.magnitude % 2 ^ 52 in
    if leb 1075 e then mantissa * 2 ^ (e - 1075) else mantissa / 2 ^ (1075 - e)

-- int(f)
unfoldable pub to_int : Float64 → ℤ
unfolding whole_part
to_int f =
    if leb (2 ^ 63) (whole_part f) then negsuc (2 ^ 63 - 1) else signed f.negative (whole_part f)

to_int_test : to_int (record { negative = false; magnitude = 0x4069000000000000 }) ≡ pos 200
unfolding to_int
to_int_test = refl

pub float_lt_trichotomy :
    (a b : Float64)
    → is_nan a ≡ false
    → is_nan b ≡ false
    → (float_lt a b ≡ true) × (float_eq a b ≡ false) × (float_lt b a ≡ false)
      ⊎ (float_lt a b ≡ false) × (float_eq a b ≡ true) × (float_lt b a ≡ false)
      ⊎ (float_lt a b ≡ false) × (float_eq a b ≡ false) × (float_lt b a ≡ true)
unfolding float_lt float_eq
float_lt_trichotomy a b na nb = ground arith

pub float_lt_trans :
    (a b c : Float64) → float_lt a b ≡ true → float_lt b c ≡ true → float_lt a c ≡ true
unfolding float_lt
float_lt_trans a b c h k = ground arith
