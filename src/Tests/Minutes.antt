-- ===== src/Tests/Minutes.antt =====
-- Conditions over the time: a cached result, and one that is older than the clock.
use smarthome_backend.Prelude.{
  ℕ, ◌+◌, String, ◌≡◌, refl, ◌∙◌, ap, ◌==◌, string_Eq, Bool, true, false, List, [], ◌∷◌, Option,
  none, some, ltb, if◌then◌else◌, arith, All,
}
use smarthome_backend.Prelude.Dict.{lookup, insert, lookup-insert}
use smarthome_backend.Json.{str, Payload, doc, unmarshal_value}
use smarthome_backend.Utils.{compare}
use smarthome_backend.Utils.Time.{Clock, parse_clock, minute_of_day}
use smarthome_backend.Models.{Condition, condition, no_more}
use smarthome_backend.Redis.{Redis, Timed, Expiry}
use smarthome_backend.Automation.Evaluator.{
  read_state, time_key, evaluate_condition, evaluate_leaf, evaluate_time, time_in_store, is_true,
}
use smarthome_backend.Automation.Evaluator.Truth.{judged, truth, Uses, uses, none_uses}
use smarthome_backend.Automation.Evaluator.Timing.{
  Event, evaluated, stored, set_state, outcome, after, run, states, Since, Between, EventUses,
}
use smarthome_backend.Automation.Evaluator.Freshness.{Fresh, evaluate_condition-run}
use smarthome_backend.Automation.Evaluator.Stale.{evaluate_condition-stale}
use smarthome_backend.Tests.Conditions.{node, lamp_doc}

-- Each string with the time at which it is gone, if there is one.
abbrev Held : Type 0
Held = Payload × Option ℕ

abbrev visible : ℕ → Option Held → Option Payload
visible now none = none
visible now (some (v, none)) = some v
visible now (some (v, some gone)) = if ltb now gone then some v else none

abbrev value_of : Option Held → Option Payload
value_of none = none
value_of (some h) = some h.0

abbrev timed_base : Redis
timed_base = record {
  Store = List (String × Held);
  get = λ s k. value_of (lookup k s);
  set = λ s k v. insert k (v, none) s;
  members = λ s k. [];
  sadd = λ s k m. s;
  srem = λ s k m. s;
  del = λ s k. s;
  keys = λ s pattern. some [];
  message_text = λ p. "";
}

abbrev timed_redis : Timed
timed_redis = record {
  base = timed_base;
  get_at = λ now s k. visible now (lookup k s);
  set_at = λ now s k v d. insert k (v, some (now + d)) s;
}

visible_if :
    (now : ℕ) (b : Bool) (x : Held) (o : Option Held)
    → visible now (if b then some x else o) ≡ (if b then visible now (some x) else visible now o)
visible_if now true x o = refl
visible_if now false x o = refl

if_same : (b : Bool) (x : List String) → x ≡ (if b then x else x)
if_same true x = refl
if_same false x = refl

timed_redis-Expiry : Expiry timed_redis
timed_redis-Expiry = record {
  get_at-set_at = λ now later d s k j v l.
      ap (visible later) (lookup-insert k j (v, some (now + d)) s)
      ∙ visible_if later (k == j) (v, some (now + d)) (lookup j s);
  members-set_at = λ now d s k j v. if_same (k == j) [];
}

-- It is 17:59 up to second 30, and 18:00 from then on.
clock : ℕ → Clock
clock t = if ltb t 30 then record { hour = 17; minute = 59 } else record { hour = 18; minute = 0 }

abbrev at_six : Condition
at_six = condition (node "time" "" "" "==" (doc (str "18:00")) "") no_more

abbrev UsesSix : String → Payload → Type 0
UsesSix op v = (op ≡ "==") × (v ≡ doc (str "18:00"))

at_six-Uses : Uses UsesSix at_six
at_six-Uses = uses (λ p. (refl, refl)) none_uses

-- A second before six the condition is false, and at six it still is.
abbrev six_missed : List (ℕ × Event timed_redis)
six_missed = (29, evaluated at_six) ∷ (29, stored "lamp" lamp_doc) ∷ []

six_missed-EventUses : All (λ x. EventUses timed_redis UsesSix x.1) six_missed
unfolding EventUses
six_missed-EventUses = (at_six-Uses, (tt, tt))

six_missed-Between : Between 0 six_missed 30
unfolding Between
six_missed-Between = (omega arith, (omega arith, omega arith))

nothing-Fresh : Fresh timed_redis timed_redis-Expiry clock UsesSix 0 []
unfolding lookup
nothing-Fresh later op v p l u found =
    let stopped : ◌≡◌ {A = Option Payload} none (some p) = found in cc

evaluate_condition-run_example :
    (says : String → Payload → Bool) × ((op : String) (v : Payload)
      → UsesSix op v
      → Since clock 30 30 op v (says op v))
    × ((outcome timed_redis clock 30 (run timed_redis clock [] six_missed) at_six).0
        ≡ truth (states timed_redis 30 (run timed_redis clock [] six_missed)) says at_six)
evaluate_condition-run_example =
    evaluate_condition-run timed_redis timed_redis-Expiry clock UsesSix same_judged 0 30 []
      six_missed at_six nothing-Fresh six_missed-Between six_missed-EventUses at_six-Uses
  where
    same_judged :
        (t : ℕ) (op op' : String) (v v' : Payload)
        → UsesSix op v
        → UsesSix op' v'
        → time_key timed_base op v ≡ time_key timed_base op' v'
        → judged (clock t) op v ≡ judged (clock t) op' v'
    same_judged t op op' v v' u u' e = cc (u.0, u'.0, u.1, u'.1)

evaluate_condition-stale_example :
    (outcome timed_redis clock 30 (after timed_redis clock 29 [] (evaluated at_six)) at_six).0
    ≡ judged (clock 29) "==" (doc (str "18:00"))
unfolding lookup unmarshal_value
evaluate_condition-stale_example =
    evaluate_condition-stale timed_redis timed_redis-Expiry clock 29 30 []
      (node "time" "" "" "==" (doc (str "18:00")) "") no_more (str "18:00") refl refl refl refl
      (omega arith) (omega arith)

-- The clock says at six that the condition holds, and did not before.
six_judged :
    (judged (clock 29) "==" (doc (str "18:00")) ≡ false)
    × (judged (clock 30) "==" (doc (str "18:00")) ≡ true)
unfolding clock judged unmarshal_value compare parse_clock minute_of_day
six_judged = (refl, refl)

-- An evaluation by the cron job of six o'clock finds the result of the second before.
six_missed_runs :
    (outcome timed_redis clock 30 (run timed_redis clock [] six_missed) at_six).0 ≡ false
unfolding run after clock evaluate_condition evaluate_leaf evaluate_time time_in_store is_true
    unmarshal_value lookup insert compare parse_clock minute_of_day
six_missed_runs = refl

-- A state is gone after an hour.
state_gone :
    (states timed_redis 3599 (after timed_redis clock 0 [] (stored "lamp" lamp_doc)) "lamp"
      ≡ states timed_redis 0 (after timed_redis clock 0 [] (stored "lamp" lamp_doc)) "lamp")
    × (states timed_redis 3600 (after timed_redis clock 0 [] (stored "lamp" lamp_doc)) "lamp" ≡ [])
unfolding after set_state lookup insert read_state
state_gone = (refl, refl)
