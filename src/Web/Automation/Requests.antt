-- ===== src/Web/Automation/Requests.antt =====
-- internal/web/api/automation.go: the requests of a user about rules, one after another.
use smarthome_backend.Prelude.{
  String, ◌≡◌, refl, ◌∙◌, ap, string_Eq, Bool, true, false, List, [], ◌∷◌, Option, none, some,
  Bool-cases, inl, inr,
}
use smarthome_backend.Json.{Payload}
use smarthome_backend.Models.{Rule, Condition}
use smarthome_backend.Redis.{Redis}
use smarthome_backend.Cron.{Cron, Registers}
use smarthome_backend.Database.{Statement, Tables, exec, select_where, get_rule_by_id}
use smarthome_backend.Engine.{rules_pattern, add_rule, extract_device_ids}
use smarthome_backend.Engine.Rules.{
  Engine, ask, remove_from, refresh_enabled, refresh_keys, refresh_rule, refresh_rule_associations,
  remove_rule_associations, trigger_rule_evaluation,
}
use smarthome_backend.Engine.Rules.Keeps.{refresh_schedules-Keeps, exec-rules}
use smarthome_backend.Web.{Site, run}
use smarthome_backend.Web.Automation.{
  AddRuleRequest, UpdateRuleRequest, owned_rules, owned_rule, latest_rule, insert_rule,
  delete_rule_row, update_rule_row, changed, refresh_and_trigger, trigger_if, list_rules,
  created_rule, inserted, create_rule, delete_rule, updated, change_rule, update_rule,
}
use smarthome_backend.Web.Automation.Rules.{remove_rule_associations-keeps}
use smarthome_backend.Web.Automation.Foreign.{
  is_other, others, owned_rule-is_of, insert_documents-others, delete_rule_row-others,
  update_rule_row-others,
}

pub data Request : Type 0 where
  lists : Request
  creates : (body : Option AddRuleRequest) → Request
  deletes : (id : String) → Request
  updates : (id : String) (body : Option UpdateRuleRequest) → Request

abbrev pub tables : {R : Redis} {C : Cron} → Site R C → Tables
tables s = s.engine.pool.tables

module _ (R : Redis) (C : Cron) (read : Payload → Option Condition) where
  unfoldable pub serve : String → Site R C → Request → Site R C
  serve user_id s lists = (list_rules R C user_id s).1
  serve user_id s (creates body) = (create_rule R C read user_id body s).1
  serve user_id s (deletes id) = (delete_rule R C user_id id s).1
  serve user_id s (updates id body) = (update_rule R C read user_id id body s).1

  unfoldable pub serve_all : String → Site R C → List Request → Site R C
  unfolding serve
  serve_all user_id s [] = s
  serve_all user_id s (r ∷ rs) = serve_all user_id (serve user_id s r) rs

module _ (R : Redis) (C : Cron) (laws : Registers C) where
  refresh_enabled-rules :
      (e : Engine R C) (rule_id : String) (r : Rule) (o : Option Condition)
      → (refresh_enabled R C e rule_id r o).1.pool.tables.rules ≡ e.pool.tables.rules
  unfolding refresh_enabled
  refresh_enabled-rules e id r none = refl
  refresh_enabled-rules e id r (some c) =
      let sets = add_rule R e.store r.id (extract_device_ids c) in
      (refresh_schedules-Keeps R C laws (record e { store = sets }) id).rules

  refresh_keys-rules :
      (e : Engine R C) (rule_id : String) (r : Rule) (o : Option (List String))
      → (refresh_keys R C e rule_id r o).1.pool.tables.rules ≡ e.pool.tables.rules
  unfolding refresh_keys
  refresh_keys-rules e id r none = refl
  refresh_keys-rules e id r (some ks) = elim (Bool-cases r.enabled) [
    | inr off ↦ rw off refl
    | inl on ↦
        rw on (
          refresh_enabled-rules (record e { store = remove_from R e.store id ks }) id r
            r.conditions)
  ]

  refresh_rule-rules :
      (e : Engine R C) (rule_id : String) (o : Option Rule)
      → (refresh_rule R C e rule_id o).1.pool.tables.rules ≡ e.pool.tables.rules
  unfolding refresh_rule
  refresh_rule-rules e id none = refl
  refresh_rule-rules e id (some r) = refresh_keys-rules e id r (R.keys e.store rules_pattern)

  refresh-rules :
      (e : Engine R C) (rule_id : String)
      → (refresh_rule_associations R C e rule_id).1.pool.tables.rules ≡ e.pool.tables.rules
  unfolding refresh_rule_associations get_rule_by_id
  refresh-rules e id =
      let (r, e') = ask R C e (get_rule_by_id id) in
      refresh_rule-rules e' id r ∙ exec-rules e.pool (get_rule_by_id id) (λ t. refl)

  trigger_if-rules :
      (enabled : Bool) (id : String) (x : Bool × Engine R C)
      → (trigger_if R C enabled id x).pool.tables.rules ≡ x.1.pool.tables.rules
  unfolding trigger_rule_evaluation
  trigger_if-rules enabled id (true, e) = refl
  trigger_if-rules true id (false, e) = refl
  trigger_if-rules false id (false, e) = refl

  pub refresh_and_trigger-rules :
      (s : Site R C) (r : Rule) → (tables (refresh_and_trigger R C s r)).rules ≡ (tables s).rules
  unfolding refresh_and_trigger
  refresh_and_trigger-rules s r =
      trigger_if-rules r.enabled r.id (refresh_rule_associations R C s.engine r.id)
      ∙ refresh-rules s.engine r.id

  module _ (user_id : String) where
    run-others :
        {A : Type 0} (s : Site R C) (f : Statement A)
        → others user_id (f (tables s)).1 ≡ others user_id (tables s)
        → others user_id (tables (run R C s f).1) ≡ others user_id (tables s)
    unfolding exec
    run-others s f h = elim (Bool-cases (s.engine.pool.answers s.engine.pool.calls)) [
      | inl reached ↦ rw reached h
      | inr lost ↦ rw lost refl
    ]

    trigger-others :
        (s : Site R C) (r : Rule)
        → others user_id (tables (refresh_and_trigger R C s r)) ≡ others user_id (tables s)
    trigger-others s r = ap (select_where (is_other user_id)) (refresh_and_trigger-rules s r)

    inserted-others :
        (name : String) (done : Option (Unit {0})) (s : Site R C)
        → others user_id (tables (inserted R C name user_id done s).1) ≡ others user_id (tables s)
    unfolding inserted latest_rule
    inserted-others name none s = refl
    inserted-others name (some _) s =
        let (r, s') = run R C s (latest_rule name user_id) in
        fetched r s' ∙ run-others s (latest_rule name user_id) refl
      where
        fetched :
            (o : Option Rule) (s' : Site R C)
            → others user_id (tables (created_rule R C o s').1) ≡ others user_id (tables s')
        fetched none s' = refl
        fetched (some r) s' = trigger-others s' r

    updated-others :
        (r : Rule) (done : Option (Unit {0})) (s : Site R C)
        → others user_id (tables (updated R C r done s).1) ≡ others user_id (tables s)
    unfolding updated
    updated-others r none s = refl
    updated-others r (some _) s = trigger-others s r

    module _ (read : Payload → Option Condition) where
      change_rule-others :
          (request : UpdateRuleRequest) (o : Option Rule) (s : Site R C)
          → ((r : Rule) → o ≡ some r → r.owner_id ≡ user_id)
          → others user_id (tables (change_rule R C read request o s).1) ≡ others user_id (tables s)
      unfolding change_rule changed
      change_rule-others request none s own = refl
      change_rule-others request (some r) s own =
          let new = changed read request r in
          let (done, s') = run R C s (update_rule_row new) in
          updated-others new done s'
          ∙ run-others s (update_rule_row new)
              (update_rule_row-others user_id new (tables s) (own r refl))

      serve-others :
          (s : Site R C) (r : Request)
          → others user_id (tables (serve R C read user_id s r)) ≡ others user_id (tables s)
      unfolding serve list_rules owned_rules create_rule insert_rule delete_rule update_rule
          owned_rule
      serve-others s lists = run-others s (owned_rules user_id) refl
      serve-others s (creates none) = refl
      serve-others s (creates (some request)) =
          let f = insert_rule read request user_id in
          let (done, s') = run R C s f in
          inserted-others request.name done s'
          ∙ run-others s f (
              insert_documents-others user_id read request.name request.enabled request.conditions
                request.actions (tables s))
      serve-others s (deletes id) =
          let e = (remove_rule_associations R C s.engine id).1 in
          run-others (record s { engine = e }) (delete_rule_row id user_id)
            (delete_rule_row-others user_id id e.pool.tables)
          ∙ ap (select_where (is_other user_id))
              (remove_rule_associations-keeps R C laws s.engine id).0
      serve-others s (updates id none) = refl
      serve-others s (updates id (some request)) =
          let (r, s') = run R C s (owned_rule id user_id) in
          change_rule-others request r s' (owned_rule-is_of s.engine.pool id user_id)
          ∙ run-others s (owned_rule id user_id) refl

      -- No sequence of requests of a user that list, create, delete or change rules changes, adds or
      -- removes the row of a rule that is not the user's, whatever Redis and the database answer and
      -- whatever the engine does in between.
      pub serve_all-others :
          (s : Site R C) (rs : List Request)
          → others user_id (tables (serve_all R C read user_id s rs)) ≡ others user_id (tables s)
      unfolding serve_all
      serve_all-others s [] = refl
      serve_all-others s (r ∷ rs) =
          serve_all-others (serve R C read user_id s r) rs ∙ serve-others s r
