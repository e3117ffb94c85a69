-- ===== src/Web/Prototype.antt =====
-- internal/web/view/prototype.go: the pages for trying the rules. A page is its template with its
-- data; the function that templates call is left to them.
use smarthome_backend.Prelude.{
  ℕ, String, ◌==◌, string_Eq, Bool, true, false, List, [], ◌∷◌, Option, none, some, ltb,
  if◌then◌else◌,
}
use smarthome_backend.Prelude.Dict.{lookup, insert}
use smarthome_backend.Json.{Value, bool, num, str, Payload, malformed, Map, marshal_map}
use smarthome_backend.Json.Float.{Float64}
use smarthome_backend.Models.{Rule}
use smarthome_backend.Database.{Pool, exec, get_all_rules, get_rule_by_id}
use smarthome_backend.TaskQueue.Actions.{Action}

abbrev pub Form : Type 0
Form = List (String × List String)

-- A request: the form of its body, and its field PostForm, which is nil until the form is parsed.
pub record FormRequest : Type 0 where
  pub body_form : Form
  pub post_form : Form

abbrev pub arrived : Form → FormRequest
arrived form = record { body_form = form; post_form = [] }

-- c.PostForm, which parses the form.
abbrev pub first_or_empty : Option (List String) → String
first_or_empty (some (value ∷ values)) = value
first_or_empty _ = ""

unfoldable pub form_value : FormRequest → String → String
form_value r key = first_or_empty (lookup key r.body_form)

-- strconv, and what json.Unmarshal leaves in a slice of actions.
pub record Parsing : Type 0 where
  pub parse_float : String → Option Float64
  pub parse_bool : String → Option Bool
  pub actions_of : Payload → List Action

pub record RuleTest : Type 0 where
  pub rule : Rule
  pub test_data : Map
  pub test_result : Bool
  pub actions : List Action
  pub test_json : Payload

pub data Page : Type 0 where
  test : (message name : String) → (show_details : Bool) → (items : List String) → Page
  rules : List Rule → Page
  rule : Rule → Page
  tested : RuleTest → Page
  failure : Page
  connection_failure : Page
  redirect : (code : ℕ) → (path : String) → Page

-- A message that is published on a topic.
pub record Note : Type 0 where
  pub topic : String
  pub text : String

unfoldable pub get_test : Page
get_test = test "This is a dynamic message!" "john doe" true ("Item 1" ∷ "Item 2" ∷ "Item 3" ∷ [])

unfoldable pub notes_for : String → List Note
notes_for action =
    if action == "ON"
    then record { topic = "test10/led"; text = "ON" } ∷ []
    else if action == "OFF"
    then record { topic = "test10/led"; text = "OFF" } ∷ []
    else []

-- `connects` says whether MQTT connects to the broker.
unfoldable pub post_test : Bool → FormRequest → Page × List Note
unfolding notes_for form_value
post_test connects r =
    if connects
    then (redirect 303 "/test", notes_for (form_value r "action"))
    else (connection_failure, [])

abbrev rules_page : Option (List Rule) → Page
rules_page none = failure
rules_page (some rs) = rules rs

unfoldable pub get_rules : Pool → Page × Pool
get_rules p = let (rs, p') = exec p get_all_rules in (rules_page rs, p')

abbrev rule_page : Option Rule → (Rule → Page) → Page
rule_page none found = failure
rule_page (some r) found = found r

unfoldable pub get_rule_test : Pool → String → Page × Pool
get_rule_test p rule_id =
    let (r, p') = exec p (get_rule_by_id rule_id) in (rule_page r (λ r. rule r), p')

module _ (S : Parsing) where
  -- A number if it parses as one, then a Boolean, then the text.
  abbrev bool_or : Option Bool → String → Value
  bool_or none text = str text
  bool_or (some b) text = bool b

  abbrev number_or : Option Float64 → String → Value
  number_or none text = bool_or (S.parse_bool text) text
  number_or (some f) text = num f

  unfoldable pub test_data_from : Map → Form → Map
  test_data_from m [] = m
  test_data_from m ((key, []) ∷ more) = test_data_from m more
  test_data_from m ((key, value ∷ values) ∷ more) =
      test_data_from (insert key (number_or (S.parse_float value) value) m) more

  -- json.Marshal refuses numbers that are not finite, and its error is dropped.
  abbrev is_finite : Value → Bool
  is_finite (num f) = ltb f.magnitude 0x7ff0000000000000
  is_finite _ = true

  unfoldable pub all_finite : Map → Bool
  all_finite [] = true
  all_finite ((k, v) ∷ m) = let rest = all_finite m in if is_finite v then rest else false

  unfoldable pub test_json_of : Map → Payload
  unfolding all_finite
  test_json_of m = if all_finite m then marshal_map m else malformed

  unfoldable pub test_of : FormRequest → Rule → RuleTest
  unfolding test_data_from test_json_of
  test_of req r =
      let read = test_data_from [] req.post_form in
      record {
        rule = r;
        test_data = read;
        test_result = true;
        actions = S.actions_of r.actions;
        test_json = test_json_of read;
      }

  unfoldable pub post_rule_test : Pool → String → FormRequest → Page × Pool
  unfolding test_of
  post_rule_test p rule_id req =
      let (r, p') = exec p (get_rule_by_id rule_id) in
      (rule_page r (λ r. tested (test_of req r)), p')
