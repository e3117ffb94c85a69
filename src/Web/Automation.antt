-- ===== src/Web/Automation.antt =====
-- internal/web/api/automation.go: the rules of a user. `read_conditions` stands for the decoder of
-- the column of conditions.
pub mod Rules
pub mod Created
pub mod Foreign
pub mod Requests
pub mod Races
use smarthome_backend.Prelude.{
  ℕ, ◌+◌, String, ◌==◌, string_Eq, Bool, true, false, not, ◌&&◌, List, [], ◌∷◌, ◌++◌, Option, none,
  some, any, if◌then◌else◌,
}
use smarthome_backend.Prelude.Decimal.{show}
use smarthome_backend.Json.{Payload}
use smarthome_backend.Models.{Rule, Schedule, Condition}
use smarthome_backend.Redis.{Redis}
use smarthome_backend.Cron.{Cron}
use smarthome_backend.Database.{
  Tables, Statement, first_where, select_where, delete_where, update_where, has_rule_id,
  has_user_id, is_for_rule,
}
use smarthome_backend.Engine.Rules.{
  Engine, refresh_rule_associations, remove_rule_associations, trigger_rule_evaluation,
}
use smarthome_backend.Web.{Body, error, status, rules, rule, Response, reply, Site, run, Handler}

-- A field of JSON that is missing stays nil.
pub record AddRuleRequest : Type 0 where
  pub name : String
  pub conditions : Option Payload
  pub actions : Option Payload
  pub enabled : Bool

pub record UpdateRuleRequest : Type 0 where
  pub name : Option String
  pub conditions : Option Payload
  pub actions : Option Payload
  pub enabled : Option Bool

abbrev pub is_of : String → Rule → Bool
is_of user_id r = r.owner_id == user_id

-- WHERE id=$1 AND owner_id=$2
abbrev pub is_own : String → String → Rule → Bool
is_own id user_id r = r.id == id && r.owner_id == user_id

abbrev pub is_called : String → String → Rule → Bool
is_called name user_id r = r.name == name && r.owner_id == user_id

-- ORDER BY id DESC LIMIT 1: rows stand in the order of their IDs.
unfoldable pub last_where : {A : Type 0} → (A → Bool) → List A → Option A
last_where test [] = none
last_where test (a ∷ l) = elim (last_where test l) [
  | some b ↦ some b
  | none ↦ if test a then some a else none
]

unfoldable pub owned_rules : String → Statement (List Rule)
unfolding select_where
owned_rules user_id t = (some (select_where (is_of user_id) t.rules), t)

unfoldable pub owned_rule : String → String → Statement Rule
unfolding first_where
owned_rule id user_id t = (first_where (is_own id user_id) t.rules, t)

unfoldable pub latest_rule : String → String → Statement Rule
unfolding last_where
latest_rule name user_id t = (last_where (is_called name user_id) t.rules, t)

-- The constraint of a row that others refer to.
unfoldable pub delete_rule_row : String → String → Statement (Unit {0})
unfolding delete_where
delete_rule_row id user_id t =
    if any (is_own id user_id) t.rules && any (is_for_rule id) t.schedules
    then (none, t)
    else (some tt, record t { rules = delete_where (is_own id user_id) t.rules })

abbrev pub rule_found : Option (List Rule) → Response
rule_found none = reply 500 (error "Failed to fetch rules")
rule_found (some l) = reply 200 (rules l)

abbrev pub deleted : Option (Unit {0}) → Response
deleted none = reply 500 (error "Failed to delete rule")
deleted (some _) = reply 200 (status "Rule deleted successfully")

abbrev pub or_else {ℓ} : {A : Type ℓ} → Option A → A → A
or_else none a = a
or_else (some b) a = b

module _ (read_conditions : Payload → Option Condition) where
  -- A row whose document of conditions or of actions is missing is refused; its ID is used up.
  unfoldable pub insert_documents :
      String → Bool → String → Option Payload → Option Payload → Statement (Unit {0})
  insert_documents name enabled user_id (some conditions) (some actions) t =
      if any (has_user_id user_id) t.users
      then (
        some tt,
        record t {
          rules =
              t.rules
              ++ record {
                id = show t.next_rule;
                name = name;
                conditions = read_conditions conditions;
                actions = actions;
                enabled = enabled;
                owner_id = user_id;
              }
                ∷ [];
          next_rule = t.next_rule + 1;
        },
      )
      else (none, record t { next_rule = t.next_rule + 1 })
  insert_documents name enabled user_id _ _ t = (none, record t { next_rule = t.next_rule + 1 })

  unfoldable pub insert_rule : AddRuleRequest → String → Statement (Unit {0})
  unfolding insert_documents
  insert_rule request user_id =
      insert_documents request.name request.enabled user_id request.conditions request.actions

  abbrev pub conditions_or : Option Payload → Option Condition → Option Condition
  conditions_or none old = old
  conditions_or (some p) old = read_conditions p

  -- Only the fields that are given.
  unfoldable pub changed : UpdateRuleRequest → Rule → Rule
  changed request r = record r {
    name = or_else request.name r.name;
    conditions = conditions_or request.conditions r.conditions;
    actions = or_else request.actions r.actions;
    enabled = or_else request.enabled r.enabled;
  }

unfoldable pub update_rule_row : Rule → Statement (Unit {0})
unfolding update_where
update_rule_row new t = (
  some tt,
  record t {
    rules =
        update_where (is_own new.id new.owner_id)
          (λ r. record r {
            name = new.name;
            conditions = new.conditions;
            actions = new.actions;
            enabled = new.enabled;
          })
          t.rules;
  },
)

module _ (R : Redis) (C : Cron) where
  abbrev pub trigger_if : Bool → String → Bool × Engine R C → Engine R C
  trigger_if enabled rule_id (true, e) = e
  trigger_if enabled rule_id (false, e) =
      if enabled then trigger_rule_evaluation R C e rule_id else e

  -- The associations are refreshed, and the rule is evaluated if it is enabled.
  unfoldable pub refresh_and_trigger : Site R C → Rule → Site R C
  refresh_and_trigger s r = record s {
    engine = trigger_if r.enabled r.id (refresh_rule_associations R C s.engine r.id);
  }

  unfoldable pub list_rules : String → Handler R C
  list_rules user_id s = let (l, s') = run R C s (owned_rules user_id) in (rule_found l, s')

  unfoldable pub created_rule : Option Rule → Handler R C
  unfolding refresh_and_trigger
  created_rule none s = (reply 500 (error "Failed to fetch created rule"), s)
  created_rule (some r) s = (reply 201 (rule r), refresh_and_trigger s r)

  unfoldable pub inserted : String → String → Option (Unit {0}) → Handler R C
  unfolding created_rule
  inserted name user_id none s = (reply 500 (error "Failed to create rule"), s)
  inserted name user_id (some _) s =
      let (r, s') = run R C s (latest_rule name user_id) in created_rule r s'

  unfoldable pub delete_rule : String → String → Handler R C
  delete_rule user_id rule_id s =
      let s1 = record s { engine = (remove_rule_associations R C s.engine rule_id).1 } in
      let (done, s2) = run R C s1 (delete_rule_row rule_id user_id) in (deleted done, s2)

  unfoldable pub updated : Rule → Option (Unit {0}) → Handler R C
  unfolding refresh_and_trigger
  updated r none s = (reply 500 (error "Failed to update rule"), s)
  updated r (some _) s = (reply 200 (rule r), refresh_and_trigger s r)

  module _ (read_conditions : Payload → Option Condition) where
    unfoldable pub create_rule : String → Option AddRuleRequest → Handler R C
    unfolding inserted
    create_rule user_id none s = (reply 400 (error "Invalid request"), s)
    create_rule user_id (some request) s =
        let (done, s') = run R C s (insert_rule read_conditions request user_id) in
        inserted request.name user_id done s'

    unfoldable pub change_rule : UpdateRuleRequest → Option Rule → Handler R C
    unfolding updated changed
    change_rule request none s = (reply 404 (error "Rule not found"), s)
    change_rule request (some r) s =
        let new = changed read_conditions request r in
        let (done, s') = run R C s (update_rule_row new) in updated new done s'

    unfoldable pub update_rule : String → String → Option UpdateRuleRequest → Handler R C
    unfolding change_rule
    update_rule user_id rule_id none s = (reply 400 (error "Invalid request"), s)
    update_rule user_id rule_id (some request) s =
        let (r, s') = run R C s (owned_rule rule_id user_id) in change_rule request r s'
