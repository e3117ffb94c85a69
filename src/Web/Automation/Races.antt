-- ===== src/Web/Automation/Races.antt =====
-- internal/web/api/automation.go: two requests to create rules at once. Each inserts its row in one
-- statement and looks for it, by its name and its owner, in the next.
use smarthome_backend.Prelude.{
  ◌+◌, String, ◌≡◌, refl, ◌∙◌, ap, ◌==◌, string_Eq, eq_refl, Bool, true, false, [], ◌∷◌, ◌++◌,
  Option, none, some, any, contains, arith,
}
use smarthome_backend.Prelude.Decimal.Value.{show_next_differs}
use smarthome_backend.Json.{Payload}
use smarthome_backend.Models.{Rule, Condition}
use smarthome_backend.Redis.{Redis, Sets}
use smarthome_backend.Cron.{Cron, Registers}
use smarthome_backend.Database.{exec, has_user_id}
use smarthome_backend.Database.Schedules.{Up}
use smarthome_backend.Engine.{rules_key}
use smarthome_backend.Engine.Associations.{Free}
use smarthome_backend.Engine.Rules.{Engine, refresh_rule_associations, trigger_rule_evaluation}
use smarthome_backend.Engine.Rules.Others.{Stays, refresh-Stays}
use smarthome_backend.Web.{rule, Response, reply, Site, run}
use smarthome_backend.Web.Automation.{
  is_called, AddRuleRequest, last_where, insert_rule, insert_documents, inserted, latest_rule,
  created_rule, trigger_if, refresh_and_trigger,
}
use smarthome_backend.Web.Automation.Rules.{new_rule, last_where-snoc}
use smarthome_backend.Web.Automation.Requests.{refresh_and_trigger-rules}

module _ (R : Redis) (C : Cron) (user_id : String) where
  -- What is left of the two requests, step by step.
  abbrev both_answered : Response → Response × Site R C → (Response × Response) × Site R C
  both_answered r (r', s) = ((r, r'), s)

  abbrev first_answered :
      String → Option (Unit {0}) → Response × Site R C → (Response × Response) × Site R C
  first_answered name' done' (r, s) = both_answered r (inserted R C name' user_id done' s)

  abbrev both_inserted :
      String
      → String
      → Option (Unit {0})
      → Option (Unit {0}) × Site R C
      → (Response × Response) × Site R C
  both_inserted name name' done (done', s) =
      first_answered name' done' (inserted R C name user_id done s)

  module _ (read : Payload → Option Condition) where
    abbrev first_inserted :
        AddRuleRequest
        → AddRuleRequest
        → Option (Unit {0}) × Site R C
        → (Response × Response) × Site R C
    first_inserted a b (done, s) =
        both_inserted a.name b.name done (run R C s (insert_rule read b user_id))

    -- Both insertions come before the rest of the first request, and that of the second follows.
    unfoldable pub create_both :
        AddRuleRequest → AddRuleRequest → Site R C → (Response × Response) × Site R C
    create_both a b s = first_inserted a b (run R C s (insert_rule read a user_id))

-- The sets of other rules.
module _ (R : Redis) (sets : Sets R) (C : Cron) (laws : Registers C) (id i d : String)
    (other : (id == i) ≡ false) where
  trigger_if-Stays :
      (e : Engine R C) (enabled : Bool) (x : Bool × Engine R C)
      → Stays R sets C laws id i d other e x.1
      → Stays R sets C laws id i d other e (trigger_if R C enabled id x)
  unfolding trigger_rule_evaluation
  trigger_if-Stays e enabled (true, e') h = h
  trigger_if-Stays e true (false, e') h = h
  trigger_if-Stays e false (false, e') h = h

  refresh_and_trigger-Stays :
      (s : Site R C) (r : Rule)
      → r.id ≡ id
      → Free R sets s.engine.store
      → Stays R sets C laws id i d other s.engine (refresh_and_trigger R C s r).engine
  unfolding refresh_and_trigger
  refresh_and_trigger-Stays s r same free = rw same (
      trigger_if-Stays s.engine r.enabled (refresh_rule_associations R C s.engine id)
        (refresh-Stays R sets C laws id i d other s.engine free))

module _ (R : Redis) (C : Cron) where
  abbrev asked_again : Site R C → Site R C
  asked_again s = record s {
    engine = record s.engine { pool = record s.engine.pool { calls = s.engine.pool.calls + 1 } };
  }

  inserted-latest :
      (s : Site R C) (name user_id : String) (r : Rule)
      → s.engine.pool.answers s.engine.pool.calls ≡ true
      → last_where (is_called name user_id) s.engine.pool.tables.rules ≡ some r
      → inserted R C name user_id (some tt) s
        ≡ (reply 201 (rule r), refresh_and_trigger R C (asked_again s) r)
  unfolding inserted latest_rule created_rule exec
  inserted-latest s name u r up h = rw (up, h) refl

  abbrev with_rule : Site R C → Rule → Site R C
  with_rule s r =
      let t = s.engine.pool.tables in
      record s {
        engine = record s.engine {
          pool = record s.engine.pool {
            tables = record t { rules = t.rules ++ r ∷ []; next_rule = t.next_rule + 1 };
            calls = s.engine.pool.calls + 1;
          };
        };
      }

  run-insert_rule :
      (read : Payload → Option Condition) (user_id name : String) (conditions actions : Payload)
      (enabled : Bool) (s : Site R C)
      → s.engine.pool.answers s.engine.pool.calls ≡ true
      → any (has_user_id user_id) s.engine.pool.tables.users ≡ true
      → let request : AddRuleRequest = record {
        name = name;
        conditions = some conditions;
        actions = some actions;
        enabled = enabled;
      } in
        run R C s (insert_rule read request user_id) ≡ (
          some tt,
          with_rule s (new_rule read name user_id conditions actions enabled s.engine.pool.tables),
        )
  unfolding insert_rule insert_documents exec
  run-insert_rule read u name conditions actions enabled s up member = rw (up, member) refl

module _ (R : Redis) (sets : Sets R) (C : Cron) (laws : Registers C)
    (read : Payload → Option Condition) (user_id name : String)
    (conditions conditions' actions actions' : Payload) (enabled enabled' : Bool) (s : Site R C)
    (up : Up s.engine.pool) (member : any (has_user_id user_id) s.engine.pool.tables.users ≡ true)
    (free : (id : String) → R.get s.engine.store (rules_key id) ≡ none) where
  abbrev pub one : AddRuleRequest
  one = record {
    name = name;
    conditions = some conditions;
    actions = some actions;
    enabled = enabled;
  }

  abbrev pub other_one : AddRuleRequest
  other_one = record {
    name = name;
    conditions = some conditions';
    actions = some actions';
    enabled = enabled';
  }

  -- The row of the first request, and that of the second, behind it.
  abbrev pub first : Rule
  first = new_rule read name user_id conditions actions enabled s.engine.pool.tables

  abbrev s1 : Site R C
  s1 = with_rule R C s first

  abbrev pub second : Rule
  second = new_rule read name user_id conditions' actions' enabled' s1.engine.pool.tables

  abbrev s2 : Site R C
  s2 = with_rule R C s1 second

  abbrev s3 : Site R C
  s3 = refresh_and_trigger R C (asked_again R C s2) second

  abbrev s4 : Site R C
  s4 = refresh_and_trigger R C (asked_again R C s3) second

  latest : last_where (is_called name user_id) s2.engine.pool.tables.rules ≡ some second
  latest =
      last_where-snoc (is_called name user_id) (s.engine.pool.tables.rules ++ first ∷ []) second
        (ground (arith, eq_refl name, eq_refl user_id))

  rules3 : s3.engine.pool.tables.rules ≡ s2.engine.pool.tables.rules
  rules3 = refresh_and_trigger-rules R C laws (asked_again R C s2) second

  stays3 :
      (d : String)
      → Stays R sets C laws second.id first.id d
          (show_next_differs s.engine.pool.tables.next_rule)
          s2.engine
          s3.engine
  stays3 d =
      refresh_and_trigger-Stays R sets C laws second.id first.id d
        (show_next_differs s.engine.pool.tables.next_rule) (asked_again R C s2) second refl free

  stays4 :
      (d : String)
      → Stays R sets C laws second.id first.id d
          (show_next_differs s.engine.pool.tables.next_rule)
          s3.engine
          s4.engine
  stays4 d =
      refresh_and_trigger-Stays R sets C laws second.id first.id d
        (show_next_differs s.engine.pool.tables.next_rule) (asked_again R C s3) second refl
        (stays3 d).1

  up3 : s3.engine.pool.answers s3.engine.pool.calls ≡ true
  up3 = ap (λ f. f s3.engine.pool.calls) (stays3 "").2 ∙ up.reached s3.engine.pool.calls

  create_both_eq :
      create_both R C user_id read one other_one s
      ≡ ((reply 201 (rule second), reply 201 (rule second)), s4)
  unfolding create_both
  create_both_eq =
      ap (first_inserted R C user_id read one other_one) (
        run-insert_rule R C read user_id name conditions actions enabled s
          (up.reached s.engine.pool.calls) member)
      ∙ ap (both_inserted R C user_id name name (some tt)) (
          run-insert_rule R C read user_id name conditions' actions' enabled' s1
            (up.reached s1.engine.pool.calls) member)
      ∙ ap (first_answered R C user_id name (some tt))
          (inserted-latest R C s2 name user_id second (up.reached s2.engine.pool.calls) latest)
      ∙ ap (both_answered R C user_id (reply 201 (rule second))) (
          inserted-latest R C s3 name user_id second up3
            (ap (last_where (is_called name user_id)) rules3 ∙ latest))

  -- Two requests of a user to create rules of one name both insert their rows before they look for
  -- them. While the database answers, the user is in its table and the sets in Redis hold no strings,
  -- both requests answer 201 with the second rule; the first stands in the table and is put into the
  -- set of no device.
  pub create_both-second :
      let ((r, r'), s') = create_both R C user_id read one other_one s in
      (r ≡ reply 201 (rule second))
      × (r' ≡ reply 201 (rule second))
      × (s'.engine.pool.tables.rules ≡ (s.engine.pool.tables.rules ++ first ∷ []) ++ second ∷ [])
      × ((d : String)
          → contains first.id (R.members s'.engine.store (rules_key d))
            ≡ contains first.id (R.members s.engine.store (rules_key d)))
  create_both-second = (
    ap (λ x. x.0.0) create_both_eq,
    ap (λ x. x.0.1) create_both_eq,
    ap (λ x. x.1.engine.pool.tables.rules) create_both_eq
        ∙ refresh_and_trigger-rules R C laws (asked_again R C s3) second
        ∙ rules3,
    λ d.
        ap (λ x. contains first.id (R.members x.1.engine.store (rules_key d))) create_both_eq
        ∙ (stays4 d).0
        ∙ (stays3 d).0,
  )
