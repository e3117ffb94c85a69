-- ===== src/Web/Automation/Rules.antt =====
-- internal/web/api/automation.go with the engine behind it: what requests do to the rules.

use smarthome_backend.Prelude.{
  ◌+◌, String, ◌≡◌, refl, ap, string_Eq, eq_refl, Bool, true, false, List, [], ◌∷◌, ◌++◌, Option,
  some, any, arith, Bool-cases, Option-cases, inl, inr,
}
use smarthome_backend.Prelude.Decimal.{show}
use smarthome_backend.Json.{Payload}
use smarthome_backend.Models.{Rule, Condition}
use smarthome_backend.Redis.{Redis, Sets}
use smarthome_backend.Cron.{Cron, Registers}
use smarthome_backend.Scheduler.Sync.{Synced}
use smarthome_backend.Database.{Pool, exec, delete_where, is_for_rule, has_user_id, Tables}
use smarthome_backend.Database.Schedules.{Up, exec-Up}
use smarthome_backend.Engine.{rules_pattern}
use smarthome_backend.Engine.Rules.{Engine, remove_from, remove_keys, remove_rule_associations}
use smarthome_backend.Engine.Rules.Keeps.{remove_schedules-Keeps}
use smarthome_backend.Engine.Rules.Removal.{Removed, remove_rule_associations-Removed}
use smarthome_backend.Web.{status, rule, reply, Site}
use smarthome_backend.Web.Automation.{
  is_own, is_called, AddRuleRequest, last_where, delete_rule_row, delete_rule, create_rule,
  insert_rule, insert_documents, inserted, latest_rule, created_rule, refresh_and_trigger,
}

pub remove_rule_associations-keeps :
    (R : Redis) (C : Cron) (laws : Registers C) (e : Engine R C) (rule_id : String)
    → let e' = (remove_rule_associations R C e rule_id).1 in
      (e'.pool.tables.rules ≡ e.pool.tables.rules) × (e'.pool.answers ≡ e.pool.answers)
unfolding remove_rule_associations remove_keys
remove_rule_associations-keeps R C laws e r = elim (Option-cases (R.keys e.store rules_pattern)) [
  | inl failed ↦ rw failed (refl, refl)
  | inr (ks, listed) ↦
      let k = remove_schedules-Keeps R C laws (record e { store = remove_from R e.store r ks }) r in
      rw listed (k.rules, k.answers)
]

-- Nothing refers to a rule without schedules.
delete_rule_row_lem :
    (id user_id : String) (t : Tables)
    → any (is_for_rule id) t.schedules ≡ false
    → delete_rule_row id user_id t
      ≡ (some tt, record t { rules = delete_where (is_own id user_id) t.rules })
unfolding delete_rule_row
delete_rule_row_lem id u t h = elim (Bool-cases (any (is_own id u) t.rules)) [
  | inl there ↦ rw (there, h) refl
  | inr absent ↦ rw absent refl
]

-- Where the map and the cron entries of the scheduler belong together, the database answers and the
-- keys of the sets can be listed, a request of any user to delete any rule answers 200, deletes the row of the rule exactly if that user owns it, and in both cases
-- removes the rule from the set of every device, deletes its schedules and stops their jobs.
pub delete_rule-Removed :
    (R : Redis) (sets : Sets R) (C : Cron) (laws : Registers C) (user_id rule_id : String)
    (s : Site R C) (ks : List String)
    → Synced C s.engine.scheduler
    → Up s.engine.pool
    → R.keys s.engine.store rules_pattern ≡ some ks
    → let (r, s') = delete_rule R C user_id rule_id s in
      (r ≡ reply 200 (status "Rule deleted successfully"))
      × (s'.engine.pool.tables.rules
          ≡ delete_where (is_own rule_id user_id) s.engine.pool.tables.rules)
      × Removed R sets C laws rule_id s.engine s'.engine
unfolding delete_rule
delete_rule-Removed R sets C laws u r s ks synced up listed =
    let e' = (remove_rule_associations R C s.engine r).1 in
    let (rules, answers) = remove_rule_associations-keeps R C laws s.engine r in
    let (_, gone) = remove_rule_associations-Removed R sets C laws s.engine r ks synced up listed in
    let up' : Up e'.pool = record { reached = λ n. rw answers (up.reached n) } in
    rw
      (
        exec-Up e'.pool (delete_rule_row r u) up',
        delete_rule_row_lem r u e'.pool.tables gone.no_row,
      )
      (
        refl,
        ap (delete_where (is_own r u)) rules,
        record {
          in_no_set = gone.in_no_set;
          others = gone.others;
          no_row = gone.no_row;
          no_job = gone.no_job;
          synced = gone.synced;
        },
      )

pub last_where-snoc :
    {A : Type 0} (test : A → Bool) (l : List A) (a : A)
    → test a ≡ true
    → last_where test (l ++ a ∷ []) ≡ some a
unfolding last_where
last_where-snoc test [] a h = rw h refl
last_where-snoc test (b ∷ l) a h = rw (last_where-snoc test l a h) refl

-- The row that a request to create a rule adds.
abbrev pub new_rule :
    (Payload → Option Condition) → String → String → Payload → Payload → Bool → Tables → Rule
new_rule read name user_id conditions actions enabled t = record {
  id = show t.next_rule;
  name = name;
  conditions = read conditions;
  actions = actions;
  enabled = enabled;
  owner_id = user_id;
}

-- While the database answers, a request of a user of the table to create a rule, with conditions and
-- actions, answers 201 with a rule of the next ID, owned by the user and with what the request
-- holds, even if the user has rules of the same name; that rule, after all others in the table, is
-- then the one that the engine refreshes and triggers.
pub create_rule_lem :
    (R : Redis) (C : Cron) (read : Payload → Option Condition) (user_id name : String)
    (conditions actions : Payload) (enabled : Bool) (s : Site R C)
    → Up s.engine.pool
    → any (has_user_id user_id) s.engine.pool.tables.users ≡ true
    → let request : AddRuleRequest = record {
      name = name;
      conditions = some conditions;
      actions = some actions;
      enabled = enabled;
    } in
      let t = s.engine.pool.tables in
      let new = new_rule read name user_id conditions actions enabled t in
      let p : Pool = record s.engine.pool {
        tables = record t { rules = t.rules ++ new ∷ []; next_rule = t.next_rule + 1 };
        calls = s.engine.pool.calls + 1 + 1;
      } in
      create_rule R C read user_id (some request) s ≡ (
        reply 201 (rule new),
        refresh_and_trigger R C (record s { engine = record s.engine { pool = p } }) new,
      )
unfolding create_rule insert_rule insert_documents inserted latest_rule created_rule exec
create_rule_lem R C read u name conditions actions enabled s up member =
    let t = s.engine.pool.tables in
    let new = new_rule read name u conditions actions enabled t in
    rw
      (
        up.reached s.engine.pool.calls,
        member,
        up.reached (s.engine.pool.calls + 1),
        last_where-snoc (is_called name u) t.rules new (ground (arith, eq_refl name, eq_refl u)),
      )
      refl
