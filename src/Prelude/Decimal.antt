-- ===== src/Prelude/Decimal.antt =====
-- Natural numbers in decimal, as `%d` prints them.
use Prim.Native.Nat.{ℕ, zero, suc, ◌/◌, ◌%◌}
use Prim.Native.String
use Prim.Native.String.{String}
use mathlib.Core.Path.{◌≡◌, refl}
use smarthome_backend.Prelude.Tests.{◌==◌, nat_Eq, if◌then◌else◌}
pub mod Value

unfoldable digit : ℕ → String
digit d =
    if d == 0
    then "0"
    else if d == 1
    then "1"
    else if d == 2
    then "2"
    else if d == 3
    then "3"
    else if d == 4
    then "4"
    else if d == 5
    then "5"
    else if d == 6
    then "6"
    else if d == 7
    then "7"
    else if d == 8
    then "8"
    else "9"

-- The digits of `n` before those already written; a number has at most `n + 1` digits.
unfoldable show_from : ℕ → ℕ → String → String
show_from zero n out = out
show_from (suc f) n out =
    let longer = String.◌++◌ (digit (n % 10)) out in
    let rest = show_from f (n / 10) longer in if n / 10 == 0 then longer else rest

unfoldable pub show : ℕ → String
unfolding digit show_from
show n = show_from (suc n) n ""

show-zero : show 0 ≡ "0"
unfolding show
show-zero = refl

show_year : show 2025 ≡ "2025"
unfolding show
show_year = refl
