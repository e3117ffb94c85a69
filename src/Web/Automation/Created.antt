-- ===== src/Web/Automation/Created.antt =====
-- internal/web/api/automation.go: a rule from the request that creates it to the sets in Redis and
-- to the queue.
use smarthome_backend.Prelude.{
  ◌+◌, String, ◌≡◌, refl, ◌∙◌, string_Eq, eq_refl, Bool, true, false, ◌&&◌, List, [], ◌∷◌, ◌++◌,
  Option, none, some, any, contains, arith, if◌then◌else◌, Bool-cases, inl, inr,
}
use smarthome_backend.Prelude.Decimal.{show}
use smarthome_backend.Json.{Payload}
use smarthome_backend.Models.{Rule, Condition}
use smarthome_backend.Redis.{Redis, Sets}
use smarthome_backend.Cron.{Cron, Registers}
use smarthome_backend.Database.{
  Pool, exec, first_where, has_rule_id, has_user_id, get_rule_by_id, unowned,
}
use smarthome_backend.Database.Schedules.{Up, exec-Up}
use smarthome_backend.Engine.{rules_key, rules_pattern, add_rule, extract_device_ids}
use smarthome_backend.Engine.Devices.{names}
use smarthome_backend.Engine.Rules.{
  Engine, ask, remove_from, refresh_enabled, refresh_keys, refresh_rule, refresh_rule_associations,
  trigger_rule_evaluation, enqueue_evaluation,
}
use smarthome_backend.Engine.Rules.Keeps.{refresh_schedules-Keeps}
use smarthome_backend.Engine.Rules.Refreshing.{refresh_rule_associations_lem}
use smarthome_backend.Web.{rule, reply, Site}
use smarthome_backend.Web.Automation.{AddRuleRequest, trigger_if, create_rule, refresh_and_trigger}
use smarthome_backend.Web.Automation.Rules.{new_rule, create_rule_lem}

first_where-snoc :
    (id : String) (l : List Rule) (r : Rule)
    → any (has_rule_id id) l ≡ false
    → r.id ≡ id
    → first_where (has_rule_id id) (l ++ r ∷ []) ≡ some r
unfolding first_where
first_where-snoc id [] r h e = rw (e, eq_refl id) refl
first_where-snoc id (x ∷ l) r h e = elim (Bool-cases (has_rule_id id x)) [
  | inl here ↦ ground arith
  | inr other ↦ rw (other, first_where-snoc id l r (rw other at h) e) refl
]

module _ (R : Redis) (C : Cron) (laws : Registers C) where
  refresh_enabled-queue :
      (e : Engine R C) (rule_id : String) (r : Rule) (o : Option Condition)
      → (refresh_enabled R C e rule_id r o).1.queue ≡ e.queue
  unfolding refresh_enabled
  refresh_enabled-queue e id r none = refl
  refresh_enabled-queue e id r (some c) =
      (refresh_schedules-Keeps R C laws
        (record e { store = add_rule R e.store r.id (extract_device_ids c) }) id).queue

  refresh_keys-queue :
      (e : Engine R C) (rule_id : String) (r : Rule) (o : Option (List String))
      → (refresh_keys R C e rule_id r o).1.queue ≡ e.queue
  unfolding refresh_keys
  refresh_keys-queue e id r none = refl
  refresh_keys-queue e id r (some ks) = elim (Bool-cases r.enabled) [
    | inr off ↦ rw off refl
    | inl on ↦
        rw on (
          refresh_enabled-queue (record e { store = remove_from R e.store id ks }) id r
            r.conditions)
  ]

  refresh_rule-queue :
      (e : Engine R C) (rule_id : String) (o : Option Rule)
      → (refresh_rule R C e rule_id o).1.queue ≡ e.queue
  unfolding refresh_rule
  refresh_rule-queue e id none = refl
  refresh_rule-queue e id (some r) = refresh_keys-queue e id r (R.keys e.store rules_pattern)

  refresh-queue :
      (e : Engine R C) (rule_id : String)
      → (refresh_rule_associations R C e rule_id).1.queue ≡ e.queue
  unfolding refresh_rule_associations
  refresh-queue e id = let (r, e') = ask R C e (get_rule_by_id id) in refresh_rule-queue e' id r

-- A refresh without an error.
trigger_if_lem :
    (R : Redis) (C : Cron) (enabled : Bool) (id : String) (x : Bool × Engine R C)
    → x.0 ≡ false
    → ((trigger_if R C enabled id x).store ≡ x.1.store)
      × ((trigger_if R C enabled id x).queue.tasks ≡ (
          if enabled && x.1.queue.enqueues x.1.queue.enqueued
          then x.1.queue.tasks ++ (id, "") ∷ []
          else x.1.queue.tasks))
unfolding trigger_rule_evaluation enqueue_evaluation
trigger_if_lem R C enabled id (true, e) h = cc
trigger_if_lem R C true id (false, e) h = (refl, refl)
trigger_if_lem R C false id (false, e) h = (refl, refl)

-- While the database answers, the ID of the next rule is not in use and the keys of the sets are
-- listed and hold no strings, a request of a user of the table to create a rule, with conditions
-- that parse, answers 201 with that ID; the rule is then in the set of a device exactly if it is
-- enabled and its conditions name the device, and its evaluation is enqueued exactly if it is
-- enabled and the call of the queue works.
pub create_rule-associated :
    (R : Redis) (sets : Sets R) (C : Cron) (laws : Registers C) (read : Payload → Option Condition)
    (user_id name : String) (conditions actions : Payload) (c : Condition) (enabled : Bool)
    (s : Site R C) (ks : List String) (d : String)
    → Up s.engine.pool
    → any (has_user_id user_id) s.engine.pool.tables.users ≡ true
    → any (has_rule_id (show s.engine.pool.tables.next_rule)) s.engine.pool.tables.rules ≡ false
    → read conditions ≡ some c
    → R.keys s.engine.store rules_pattern ≡ some ks
    → ((id : String) → R.get s.engine.store (rules_key id) ≡ none)
    → let request : AddRuleRequest = record {
      name = name;
      conditions = some conditions;
      actions = some actions;
      enabled = enabled;
    } in
      let t = s.engine.pool.tables in
      let (r, s') = create_rule R C read user_id (some request) s in
      (r ≡ reply 201 (rule (new_rule read name user_id conditions actions enabled t)))
      × (contains (show t.next_rule) (R.members s'.engine.store (rules_key d))
          ≡ enabled && names d c)
      × (let q = s.engine.queue in
          s'.engine.queue.tasks ≡ (
            if enabled && q.enqueues q.enqueued
            then q.tasks ++ (show t.next_rule, "") ∷ []
            else q.tasks))
unfolding refresh_and_trigger
create_rule-associated R sets C laws read u name conditions actions c enabled s ks d up member fresh
      parsed listed free =
    let t = s.engine.pool.tables in
    let id = show t.next_rule in
    let new = new_rule read name u conditions actions enabled t in
    let p : Pool = record s.engine.pool {
      tables = record t { rules = t.rules ++ new ∷ []; next_rule = t.next_rule + 1 };
      calls = s.engine.pool.calls + 1 + 1;
    } in
    let e : Engine R C = record s.engine { pool = p } in
    let up' : Up p = record { reached = up.reached } in
    let found : (exec p (get_rule_by_id id)).0 ≡ some (unowned new) =
      unfold get_rule_by_id in
      rw (exec-Up p (get_rule_by_id id) up', first_where-snoc id t.rules new fresh refl) refl in
    let (fine, placed) =
      refresh_rule_associations_lem R sets C laws e id (unowned new) c ks d id found parsed listed
        free in
    let (store, queue) = trigger_if_lem R C enabled id (refresh_rule_associations R C e id) fine in
    rw (create_rule_lem R C read u name conditions actions enabled s up member) (
      refl,
      rw store (placed ∙ rw (eq_refl id) refl),
      queue ∙ rw (refresh-queue R C laws e id) refl,
    )
