-- ===== src/Workers/Commands.antt =====
-- What the backend publishes over a run.
use mathlib.Core.List.{Memᴰ}
use mathlib.Core.Path.{subst}
use smarthome_backend.Prelude.{
  String, ◌≡◌, refl, sym, ◌∙◌, ap, string_Eq, Bool, true, List, [], ◌∷◌, Option, none, some, All,
  All-append, ◌⊎◌, inl, inr,
}
use smarthome_backend.Json.{Payload, Value, Map}
use smarthome_backend.Models.{Rule}
use smarthome_backend.Redis.{Redis}
use smarthome_backend.Database.{
  exec, get_device_by_id, get_rule_by_id, get_all_rules, update_device_state,
}
use smarthome_backend.Engine.{on_device_update}
use smarthome_backend.Engine.Rules.Keeps.{exec-rules}
use smarthome_backend.Automation.Executor.{Message}
use smarthome_backend.Automation.Updater.{Write, process_update_task}
use smarthome_backend.TaskQueue.Actions.{PendingAction, collect_pending_actions}
use smarthome_backend.TaskQueue.Tasks.Publishing.{IsCommand}
use smarthome_backend.TaskQueue.Tasks.Sources.{IsWanted, evaluate_and_execute-IsCommand}
use smarthome_backend.Workers.{
  Task, Event, System, enqueue, enqueue_evaluations, write, write_all, process_device_update_task,
  world, rules_of, evaluate_and_execute_task, work, arrive, work_picked, write_picked, pick, step,
  run,
}
use smarthome_backend.Workers.Rows.{
  IsRow, get_rule_by_id-IsRow, get_all_rules-IsRow, insert_device-rules,
}

-- A value that an enabled rule of the table wants for an attribute of a device.
pub record IsBacked (rules : List Rule) (d k : String) (v : Value) : Type 0 where
  pub rule : Rule
  pub stored : Memᴰ rule rules
  pub enabled : rule.enabled ≡ true
  pub action : PendingAction
  pub listed : Memᴰ action (collect_pending_actions rule.id rule.actions)
  pub device : action.device_id ≡ d
  pub named : Memᴰ (k, v) action.params

All-weaken :
    {A : Type 0} (P Q : A → Type 0) (l : List A) → ((a : A) → P a → Q a) → All P l → All Q l
All-weaken P Q [] f h = tt
All-weaken P Q (a ∷ l) f h = (f a h.0, All-weaken P Q l f h.1)

IsCommand-weaken :
    (P Q : String → String → Value → Type 0) (m : Message)
    → ((d k : String) (v : Value) → P d k v → Q d k v)
    → IsCommand P m
    → IsCommand Q m
IsCommand-weaken P Q m f h = record {
  device_id = h.device_id;
  params = h.params;
  topic = h.topic;
  payload = h.payload;
  sourced = All-weaken _ _ h.params (λ p. f h.device_id p.0 p.1) h.sourced;
}

module _ (R : Redis) where
  -- A part of a step that publishes nothing and leaves the rules.
  pub record IsQuiet (s s' : System R) : Type 0 where
    pub rules : s'.pool.tables.rules ≡ s.pool.tables.rules
    pub published : s'.published ≡ s.published

  IsQuiet-trans : {s t u : System R} → IsQuiet s t → IsQuiet t u → IsQuiet s u
  IsQuiet-trans h k = record { rules = k.rules ∙ h.rules; published = k.published ∙ h.published }

  enqueue_evaluations-IsQuiet :
      (s : System R) (l : List (String × String)) → IsQuiet s (enqueue_evaluations R s l)
  unfolding enqueue_evaluations enqueue
  enqueue_evaluations-IsQuiet s [] = record { rules = refl; published = refl }
  enqueue_evaluations-IsQuiet s ((r, id) ∷ l) =
      let k = enqueue_evaluations-IsQuiet (enqueue R s (Task.evaluate_rule r id)) l in
      record { rules = k.rules; published = k.published }

  write-IsQuiet : (s : System R) (w : Write) → IsQuiet s (write R s w)
  unfolding write
  write-IsQuiet s (Write.insert_device id name type topic state) = record {
    rules = exec-rules s.pool _ (insert_device-rules id name type topic state);
    published = refl;
  }
  write-IsQuiet s (Write.update_state id state) = record { rules = refl; published = refl }

  write_all-IsQuiet : (s : System R) (l : List Write) → IsQuiet s (write_all R s l)
  unfolding write_all
  write_all-IsQuiet s [] = record { rules = refl; published = refl }
  write_all-IsQuiet s (w ∷ l) =
      IsQuiet-trans (write-IsQuiet s w) (write_all-IsQuiet (write R s w) l)

  update_task-IsQuiet :
      (s : System R) (id : String) (state : Map)
      → IsQuiet s (process_device_update_task R s id state)
  unfolding process_device_update_task get_device_by_id
  update_task-IsQuiet s id state =
      let (device, pool) = exec s.pool (get_device_by_id id) in
      let (evaluations, store, written) = process_update_task R (λ _. device) s.store id state in
      let s1 = record s { pool = pool; store = store } in
      let asked : IsQuiet s s1 = record {
        rules = exec-rules s.pool (get_device_by_id id) (λ t. refl);
        published = refl;
      } in
      IsQuiet-trans asked (
        IsQuiet-trans (write_all-IsQuiet s1 written)
          (enqueue_evaluations-IsQuiet (write_all R s1 written) evaluations))

  -- What is wanted in a task stands in the table that it reads.
  IsWanted-IsBacked :
      (s : System R) (rule_id d k : String) (v : Value)
      → IsWanted R (rules_of R s.pool rule_id).0 rule_id (world R s) d k v
      → IsBacked s.pool.tables.rules d k v
  unfolding get_rule_by_id
  IsWanted-IsBacked s id d k v w = backed (row_of w.known)
    where
      row_of :
          ((rules_of R s.pool id).0.by_id id ≡ some w.rule)
            ⊎ ((l : List Rule) × ((rules_of R s.pool id).0.all ≡ some l) × Memᴰ w.rule l)
          → IsRow s.pool.tables.rules w.rule
      row_of (inl found) = get_rule_by_id-IsRow s.pool id w.rule found
      row_of (inr (l, all, m)) =
          let p1 = (exec s.pool (get_rule_by_id id)).1 in
          subst (λ rows. IsRow rows w.rule) (exec-rules s.pool (get_rule_by_id id) (λ t. refl))
            (get_all_rules-IsRow p1 l w.rule all m)

      backed : IsRow s.pool.tables.rules w.rule → IsBacked s.pool.tables.rules d k v
      backed (row, m, e) = record {
        rule = row;
        stored = m;
        enabled = ap (λ r. r.enabled) (sym e) ∙ w.enabled;
        action = w.action;
        listed = subst (λ r. Memᴰ w.action (collect_pending_actions r.id r.actions)) e w.listed;
        device = w.device;
        named = w.named;
      }

  abbrev AllBacked : List Rule → List Message → Type 0
  AllBacked rules = All (IsCommand (IsBacked rules))

  -- A step whose messages, after those before it, are backed by the rules, which stay.
  record IsSound (s s' : System R) : Type 0 where
    rules : s'.pool.tables.rules ≡ s.pool.tables.rules
    backed : AllBacked s.pool.tables.rules s.published → AllBacked s.pool.tables.rules s'.published

  IsQuiet-IsSound : {s t : System R} → IsQuiet s t → IsSound s t
  IsQuiet-IsSound h = record { rules = h.rules; backed = λ k. rw h.published k }

  evaluate_task-IsSound :
      (s : System R) (again : Bool) (t : Task) (rule_id : String)
      → IsSound s (evaluate_and_execute_task R s again t rule_id)
  unfolding evaluate_and_execute_task get_rule_by_id get_all_rules
  evaluate_task-IsSound s again t id =
      let (rules, pool) = rules_of R s.pool id in
      let commands = evaluate_and_execute-IsCommand R rules id (world R s) s.connected in
      let p1 = (exec s.pool (get_rule_by_id id)).1 in
      record {
        rules =
            exec-rules p1 get_all_rules (λ t. refl)
            ∙ exec-rules s.pool (get_rule_by_id id) (λ t. refl);
        backed = λ k.
            All-append _ s.published _ k
              (All-weaken _ _ _ (λ m. IsCommand-weaken _ _ m (IsWanted-IsBacked s id)) commands);
      }

  work-IsSound : (s : System R) (again : Bool) (t : Task) → IsSound s (work R s again t)
  unfolding work
  work-IsSound s again (Task.device_update id state) =
      IsQuiet-IsSound (update_task-IsQuiet s id state)
  work-IsSound s again (Task.evaluate_rule rule_id id) = evaluate_task-IsSound s again _ rule_id

  arrive-IsQuiet : (s : System R) (o : Option (String × Map)) → IsQuiet s (arrive R s o)
  unfolding arrive enqueue
  arrive-IsQuiet s none = record { rules = refl; published = refl }
  arrive-IsQuiet s (some (id, state)) = record { rules = refl; published = refl }

  work_picked-IsSound :
      (s : System R) (again : Bool) (o : Option (Task × List Task))
      → IsSound s (work_picked R s again o)
  work_picked-IsSound s again none = record { rules = refl; backed = λ k. k }
  work_picked-IsSound s again (some (t, rest)) =
      let h = work-IsSound (record s { tasks = rest }) again t in
      record { rules = h.rules; backed = h.backed }

  write_picked-IsQuiet :
      (s : System R) (o : Option ((String × Payload) × List (String × Payload)))
      → IsQuiet s (write_picked R s o)
  unfolding update_device_state
  write_picked-IsQuiet s none = record { rules = refl; published = refl }
  write_picked-IsQuiet s (some ((id, state), rest)) = record {
    rules = exec-rules s.pool (update_device_state id state) (λ t. refl);
    published = refl;
  }

  step-IsSound : (s : System R) (e : Event) → IsSound s (step R s e)
  unfolding step enqueue
  step-IsSound s (Event.arrives topic p) =
      IsQuiet-IsSound (arrive-IsQuiet s (on_device_update topic p))
  step-IsSound s (Event.asked rule_id) = record { rules = refl; backed = λ k. k }
  step-IsSound s (Event.works n again) = work_picked-IsSound s again (pick n s.tasks)
  step-IsSound s (Event.writes n) = IsQuiet-IsSound (write_picked-IsQuiet s (pick n s.going))

  -- Over every run of the backend, from state messages, requests for evaluations and tasks in any
  -- order, and whatever the database, the queue and Redis answer: if each message published before
  -- is a command to a device whose values stand, for that device, in actions of enabled rules of the
  -- table, then so is each message published after it, and the rules of the table have not changed.
  pub run-IsBacked :
      (s : System R) (es : List Event)
      → All (IsCommand (IsBacked s.pool.tables.rules)) s.published
      → ((run R s es).pool.tables.rules ≡ s.pool.tables.rules)
        × All (IsCommand (IsBacked s.pool.tables.rules)) (run R s es).published
  unfolding run
  run-IsBacked s [] h = (refl, h)
  run-IsBacked s (e ∷ es) h =
      let first = step-IsSound s e in
      let (rules, backed) = run-IsBacked (step R s e) es (
        subst (λ rows. AllBacked rows (step R s e).published) (sym first.rules) (first.backed h)) in
      (
        rules ∙ first.rules,
        subst (λ rows. AllBacked rows (run R (step R s e) es).published) first.rules backed,
      )
