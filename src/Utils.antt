-- ===== src/Utils.antt =====
-- internal/utils/helpers.go: the device of a topic, and the comparison of a reading with the value
-- that a condition expects. `IsSignificantChange` is a placeholder in the source: it always holds.
pub mod Time
pub mod Laws
use Prim.Native.Char.{Char, code}
use Prim.Native.String
use smarthome_backend.Prelude.{
  ℕ, String, ◌==◌, nat_Eq, string_Eq, Bool, true, false, not, List, [], ◌∷◌, ◌++◌, Option, none,
  some, ltb, if◌then◌else◌,
}
use smarthome_backend.Json.{Value, null, bool, num, str, arr, obj, Map}
use smarthome_backend.Json.Float.{Float64, float_lt, float_eq}
use Time.{Clock, minute_of_day, parse_clock}

-- strings.Split(text, "/"), with the part read so far.
unfoldable pub split_slash : String → String → List String
split_slash part String.[] = part ∷ []
split_slash part (String.◌∷◌ c rest) =
    let closed = part ∷ split_slash "" rest in
    let longer = split_slash (String.◌++◌ part (String.◌∷◌ c String.[])) rest in
    if code c == b'/' then closed else longer

unfoldable pub parse_device_id : String → String
unfolding split_slash
parse_device_id topic = elim (split_slash "" topic) [
  | [] ↦ ""
  | first ∷ more ↦ elim more [ [] ↦ "" | second ∷ rest ↦ second ]
]

-- What `Compare` gets for its first argument: an `interface{}` value or a `time.Time`.
pub data Operand : Type 0 where
  value : Value → Operand
  time : Clock → Operand

unfoldable pub compare_num : Float64 → String → Float64 → Bool
compare_num a op e =
    if op == ">"
    then float_lt e a
    else if op == "<"
    then float_lt a e
    else if op == "=="
    then float_eq a e
    else if op == "!="
    then not (float_eq a e)
    else false

abbrev bool_eq : Bool → Bool → Bool
bool_eq true b = b
bool_eq false b = not b

-- Strings and booleans know two operators.
unfoldable pub compare_by : Bool → String → Bool
compare_by same op = if op == "==" then same else if op == "!=" then not same else false

unfoldable pub compare_time : Clock → String → Clock → Bool
compare_time a op e =
    let actual = minute_of_day a in
    let expected = minute_of_day e in
    if op == ">"
    then ltb expected actual
    else if op == "<"
    then ltb actual expected
    else if op == "=="
    then actual == expected
    else if op == "!="
    then not (actual == expected)
    else false

unfoldable pub compare : Operand → String → Value → Bool
unfolding compare_num compare_by compare_time
compare (value (num a)) op (num e) = compare_num a op e
compare (value (str a)) op (str e) = compare_by (a == e) op
compare (value (bool a)) op (bool e) = compare_by (bool_eq a e) op
compare (time a) op (str e) = elim (parse_clock e) [
  | none ↦ false
  | some expected ↦ compare_time a op expected
]
compare _ op _ = false

unfoldable pub is_significant_change : String → Map → Map → Bool
is_significant_change device_id new_state last_state = true
