-- ===== src/Tests/Prototype.antt =====
-- The pages for trying the rules.
use smarthome_backend.Prelude.{◌≡◌, refl, string_Eq, true, [], ◌∷◌, none}
use smarthome_backend.Prelude.Dict.{lookup}
use smarthome_backend.Web.Prototype.{Form, arrived, Parsing, redirect, post_test, post_rule_test}
use smarthome_backend.Tests.Tables.{pool}

-- The page for testing a rule never sees the form.
parsing : Parsing
parsing = record { parse_float = λ s. none; parse_bool = λ s. none; actions_of = λ p. [] }

untested :
    (form : Form)
    → post_rule_test parsing pool "7" (arrived form) ≡ post_rule_test parsing pool "7" (arrived [])
unfolding post_rule_test
untested form = refl

switched_on :
    post_test true (arrived (("action", "ON" ∷ []) ∷ []))
    ≡ (redirect 303 "/test", record { topic = "test10/led"; text = "ON" } ∷ [])
unfolding post_test lookup
switched_on = refl
