-- ===== src/Utils/Laws.antt =====
-- What `Compare` decides: one of four relations, at the kinds of values that have it.
use mathlib.Core.Bool.{false≢true}
use smarthome_backend.Prelude.{
  ◌<◌, ◌≡◌, ◌≢◌, ◌↔◌, ◌⊎◌, inl, inr, refl, String, eq_iff, true, false, not, Option, none, some,
  arith, if◌then◌else◌, ◌==◌, string_Eq, Option-cases,
}
use smarthome_backend.Json.{Value, bool, num, str}
use smarthome_backend.Json.Float.{Float64, float_lt, float_eq, is_nan, float_lt_trichotomy}
use smarthome_backend.Utils.{Operand, value, time, compare}
use smarthome_backend.Utils.Time.{Clock, minute_of_day, parse_clock}

pub data Relation : Type 0 where
  above below same other : Relation

abbrev pub symbol : Relation → String
symbol above = ">"
symbol below = "<"
symbol same = "=="
symbol other = "!="

-- Numbers and times have the four relations, texts and truth values have two, and values of
-- different kinds have none.
abbrev pub Related : Relation → Operand → Value → Type 0
Related above (value (num a)) (num e) = float_lt e a ≡ true
Related below (value (num a)) (num e) = float_lt a e ≡ true
Related same (value (num a)) (num e) = float_eq a e ≡ true
Related other (value (num a)) (num e) = float_eq a e ≡ false
Related same (value (str a)) (str e) = a ≡ e
Related other (value (str a)) (str e) = a ≢ e
Related same (value (bool a)) (bool e) = a ≡ e
Related other (value (bool a)) (bool e) = a ≡ not e
Related above (time a) (str e) =
    (c : Clock) × (parse_clock e ≡ some c) × (minute_of_day c < minute_of_day a)
Related below (time a) (str e) =
    (c : Clock) × (parse_clock e ≡ some c) × (minute_of_day a < minute_of_day c)
Related same (time a) (str e) =
    (c : Clock) × (parse_clock e ≡ some c) × (minute_of_day a ≡ minute_of_day c)
Related other (time a) (str e) =
    (c : Clock) × (parse_clock e ≡ some c) × (minute_of_day a ≢ minute_of_day c)
Related _ _ _ = ⊥

abbrev pub Compares : Operand → String → Value → Type 0
Compares a op e = (r : Relation) × (op ≡ symbol r) × Related r a e

-- The operators of the program are the four symbols.
symbol_of : (op : String) → Option Relation
symbol_of op =
    if op == ">"
    then some above
    else if op == "<"
    then some below
    else if op == "=="
    then some same
    else if op == "!="
    then some other
    else none

symbol-symbol_of : (op : String) (r : Relation) → symbol_of op ≡ some r → op ≡ symbol r
unfolding symbol_of
symbol-symbol_of op r h =
    ground (arith, eq_iff op ">", eq_iff op "<", eq_iff op "==", eq_iff op "!=")

-- Any other operator never holds.
compare_unknown :
    (a : Operand) (op : String) (e : Value) → symbol_of op ≡ none → compare a op e ≡ false
unfolding compare symbol_of
compare_unknown (value (num a)) op (num e) h = ground arith
compare_unknown (value (str a)) op (str e) h = ground arith
compare_unknown (value (bool a)) op (bool e) h = ground arith
compare_unknown (time a) op (str e) h = ground arith
compare_unknown _ op _ h = refl

compare_sound :
    (r : Relation) (a : Operand) (e : Value) → compare a (symbol r) e ≡ true → Related r a e
unfolding compare
compare_sound above (value (num a)) (num e) h = h
compare_sound below (value (num a)) (num e) h = h
compare_sound same (value (num a)) (num e) h = h
compare_sound other (value (num a)) (num e) h = ground arith
compare_sound above (value (str a)) (str e) h = cc
compare_sound below (value (str a)) (str e) h = cc
compare_sound same (value (str a)) (str e) h = (eq_iff a e).0 h
compare_sound other (value (str a)) (str e) h = λ p. ground (arith, eq_iff a e)
compare_sound above (value (bool a)) (bool e) h = cc
compare_sound below (value (bool a)) (bool e) h = cc
compare_sound same (value (bool a)) (bool e) h = ground arith
compare_sound other (value (bool a)) (bool e) h = ground arith
compare_sound above (time a) (str e) h = ground arith
compare_sound below (time a) (str e) h = ground arith
compare_sound same (time a) (str e) h = ground arith
compare_sound other (time a) (str e) h = ground arith
compare_sound _ _ _ h = absurd (false≢true h)

compare_complete :
    (r : Relation) (a : Operand) (e : Value) → Related r a e → compare a (symbol r) e ≡ true
unfolding compare
compare_complete above (value (num a)) (num e) h = h
compare_complete below (value (num a)) (num e) h = h
compare_complete same (value (num a)) (num e) h = h
compare_complete other (value (num a)) (num e) h = ground arith
compare_complete same (value (str a)) (str e) h = (eq_iff a e).1 h
compare_complete other (value (str a)) (str e) h = ground (arith, eq_iff a e)
compare_complete same (value (bool a)) (bool e) h = ground arith
compare_complete other (value (bool a)) (bool e) h = ground arith
compare_complete above (time a) (str e) (c, p, q) = ground arith
compare_complete below (time a) (str e) (c, p, q) = ground arith
compare_complete same (time a) (str e) (c, p, q) = ground arith
compare_complete other (time a) (str e) (c, p, q) = ground arith
compare_complete _ _ _ h = absurd h

-- `Compare` holds exactly when the operator is the symbol of a relation that the two operands have:
-- the four relations on numbers and on times of day (the expected text must then parse as one),
-- equality and its negation on texts and on truth values, and none between different kinds.
pub compare_iff : (a : Operand) (op : String) (e : Value) → compare a op e ≡ true ↔ Compares a op e
compare_iff a op e = (to, from)
  where
    to : compare a op e ≡ true → (r : Relation) × (op ≡ symbol r) × Related r a e
    to h = elim (Option-cases (symbol_of op)) [
      | inl unknown ↦ absurd (false≢true (cc (compare_unknown a op e unknown)))
      | inr (r, known) ↦
          let p = symbol-symbol_of op r known in (r, p, compare_sound r a e (rw (← p) h))
    ]

    from : (r : Relation) × (op ≡ symbol r) × Related r a e → compare a op e ≡ true
    from (r, p, h) = rw p (compare_complete r a e h)

-- On two numbers that are no NaN exactly one of `<`, `==` and `>` holds, and `!=` is the negation
-- of `==`.
pub compare_trichotomy :
    (a e : Float64)
    → is_nan a ≡ false
    → is_nan e ≡ false
    → ((compare (value (num a)) "<" (num e) ≡ true)
          × (compare (value (num a)) "==" (num e) ≡ false)
          × (compare (value (num a)) ">" (num e) ≡ false)
        ⊎ (compare (value (num a)) "<" (num e) ≡ false)
          × (compare (value (num a)) "==" (num e) ≡ true)
          × (compare (value (num a)) ">" (num e) ≡ false)
        ⊎ (compare (value (num a)) "<" (num e) ≡ false)
          × (compare (value (num a)) "==" (num e) ≡ false)
          × (compare (value (num a)) ">" (num e) ≡ true))
      × (compare (value (num a)) "!=" (num e) ≡ not (compare (value (num a)) "==" (num e)))
unfolding compare
compare_trichotomy a e na ne = (float_lt_trichotomy a e na ne, refl)
