-- ===== src/Prelude/Decimal/Value.antt =====
-- The number that decimal digits stand for: `show` writes different numbers differently.
use Prim.Native.Nat.{ℕ, zero, suc, ◌+◌, ◌*◌, ◌-◌, ◌/◌, ◌%◌, ◌<◌}
use Prim.Native.Char.{Char, code}
use Prim.Native.String
use Prim.Native.String.{String}
use mathlib.Core.Path.{◌≡◌, refl, sym, ◌∙◌, ap}
use mathlib.Core.Bool.{true, false}
use smarthome_backend.Prelude.Decimal.{digit, show_from, show}
use smarthome_backend.Prelude.Tests.{◌==◌, nat_Eq, nat_eq_iff, string_Eq, Bool-cases}
use mathlib.Core.Logic.{inl, inr}
use text.Mathlib.TextLemmas.{nil-append, cons-append}
use native.Mathlib.Omega.{arith}

-- The value of the digits behind a number.
value_after : ℕ → String → ℕ
value_after n String.[] = n
value_after n (String.◌∷◌ c s) = value_after (n * 10 + (code c - 48)) s

value_after-◌∷◌ :
    (n : ℕ) (c : Char) (out : String)
    → value_after n (String.◌++◌ (String.◌∷◌ c String.[]) out)
      ≡ value_after (n * 10 + (code c - 48)) out
unfolding value_after
value_after-◌∷◌ n c out = rw (cons-append c String.[] out, nil-append out) refl

value_after-digit :
    (n d : ℕ) (out : String)
    → d < 10
    → value_after n (String.◌++◌ (digit d) out) ≡ value_after (n * 10 + d) out
unfolding digit
value_after-digit n zero out small = value_after-◌∷◌ n "0" out
value_after-digit n (suc zero) out small = value_after-◌∷◌ n "1" out
value_after-digit n (suc (suc zero)) out small = value_after-◌∷◌ n "2" out
value_after-digit n (suc (suc (suc zero))) out small = value_after-◌∷◌ n "3" out
value_after-digit n (suc (suc (suc (suc zero)))) out small = value_after-◌∷◌ n "4" out
value_after-digit n (suc (suc (suc (suc (suc zero))))) out small = value_after-◌∷◌ n "5" out
value_after-digit n (suc (suc (suc (suc (suc (suc zero)))))) out small = value_after-◌∷◌ n "6" out
value_after-digit n (suc (suc (suc (suc (suc (suc (suc zero))))))) out small =
    value_after-◌∷◌ n "7" out
value_after-digit n (suc (suc (suc (suc (suc (suc (suc (suc zero)))))))) out small =
    value_after-◌∷◌ n "8" out
value_after-digit n (suc (suc (suc (suc (suc (suc (suc (suc (suc zero))))))))) out small =
    value_after-◌∷◌ n "9" out
value_after-digit n (suc (suc (suc (suc (suc (suc (suc (suc (suc (suc k)))))))))) out small =
    omega arith

shorter : (n f : ℕ) → (n / 10 == 0) ≡ false → n < suc f → n / 10 < f
shorter n f more h = grind arith

one_digit : (n : ℕ) → (n / 10 == 0) ≡ true → 0 * 10 + n % 10 ≡ n
one_digit n h = let z : n / 10 ≡ 0 = (nat_eq_iff (n / 10) 0).0 h in omega arith

value_after-show_from :
    (f n : ℕ) (out : String) → n < f → value_after 0 (show_from f n out) ≡ value_after n out
unfolding show_from
value_after-show_from zero n out h = omega arith
value_after-show_from (suc f) n out h = elim (Bool-cases (n / 10 == 0)) [
  | inl done ↦
      rw (done, value_after-digit 0 (n % 10) out (omega arith))
        (ap (λ k. value_after k out) (one_digit n done))
  | inr more ↦ rw more (
      value_after-show_from f (n / 10) (String.◌++◌ (digit (n % 10)) out) (shorter n f more h)
      ∙ value_after-digit (n / 10) (n % 10) out (omega arith)
      ∙ ap (λ k. value_after k out) (omega arith))
]

value_after-show : (n : ℕ) → value_after 0 (show n) ≡ n
unfolding show value_after
value_after-show n = value_after-show_from (suc n) n "" (omega arith)

-- Different numbers are written differently.
show_injective : (a b : ℕ) → show a ≡ show b → a ≡ b
show_injective a b same = sym (value_after-show a) ∙ ap (value_after 0) same ∙ value_after-show b

-- The next number is written differently.
pub show_next_differs : (n : ℕ) → (show (n + 1) == show n) ≡ false
show_next_differs n = elim (Bool-cases (show (n + 1) == show n)) [
  | inl same ↦ absurd (omega (arith, show_injective (n + 1) n (string_Eq.correct.0 same)))
  | inr other ↦ other
]
