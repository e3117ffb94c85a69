-- ===== src/Workers.antt =====
-- internal/taskqueue/worker.go with the enqueueing and the handlers of tasks.go: the backend as a
-- whole, between the messages of devices, the database, Redis and the commands that are published. A
-- step is one message, one evaluation that is asked for, one task, or one write that a task has
-- left to a goroutine; workers take tasks in any order, and a task that fails may be tried again.
pub mod Rows
pub mod Commands
use smarthome_backend.Prelude.{
  ℕ, zero, suc, ◌+◌, String, Bool, true, false, List, [], ◌∷◌, ◌++◌, Option, none, some,
  if◌then◌else◌,
}
use smarthome_backend.Json.{Payload, Map}
use smarthome_backend.Models.{Device, Rule}
use smarthome_backend.Redis.{Redis}
use smarthome_backend.Utils.Time.{Clock}
use smarthome_backend.Database.{
  Pool, exec, get_device_by_id, get_rule_by_id, get_all_rules, insert_device, update_device_state,
}
use smarthome_backend.Engine.{on_device_update}
use smarthome_backend.Automation.Evaluator.{World}
use smarthome_backend.Automation.Executor.{Message}
use smarthome_backend.Automation.Updater.{Write, process_update_task}
use smarthome_backend.TaskQueue.Tasks.{Status, done, failed, panicked, Rules, evaluate_and_execute}

-- The payloads of the two kinds of tasks.
pub data Task : Type 0 where
  device_update : (device_id : String) (state : Map) → Task
  evaluate_rule : (rule_id updated_device_id : String) → Task

pub data Event : Type 0 where
  arrives : (topic : String) (message : Payload) → Event
  asked : (rule_id : String) → Event
  works : (n : ℕ) (again : Bool) → Event
  writes : (n : ℕ) → Event

-- The n-th element, and the others.
unfoldable pub pick {ℓ} : {A : Type ℓ} → ℕ → List A → Option (A × List A)
pick n [] = none
pick zero (a ∷ l) = some (a, l)
pick (suc n) (a ∷ l) = elim (pick n l) [ none ↦ none | some x ↦ some (x.0, a ∷ x.1) ]

module _ (R : Redis) where
  pub record System : Type 0 where
    pub store : R.Store
    pub clock : ℕ → Clock
    pub reads : ℕ
    pub pool : Pool
    pub tasks : List Task
    -- whether a numbered call of Enqueue works
    pub enqueues : ℕ → Bool
    pub enqueued : ℕ
    -- the states that goroutines write
    pub going : List (String × Payload)
    pub connected : Bool
    pub published : List Message

  -- A task that cannot be enqueued is lost.
  unfoldable pub enqueue : System → Task → System
  enqueue s t = record s {
    tasks = if s.enqueues s.enqueued then s.tasks ++ t ∷ [] else s.tasks;
    enqueued = s.enqueued + 1;
  }

  unfoldable pub enqueue_evaluations : System → List (String × String) → System
  unfolding enqueue
  enqueue_evaluations s [] = s
  enqueue_evaluations s ((rule_id, id) ∷ more) =
      enqueue_evaluations (enqueue s (evaluate_rule rule_id id)) more

  -- A new device is inserted at once, a state is written by a goroutine.
  unfoldable pub write : System → Write → System
  write s (Write.insert_device id name type mqtt_topic state) = record s {
    pool = (exec s.pool (insert_device id name type mqtt_topic state)).1;
  }
  write s (Write.update_state id state) = record s { going = s.going ++ (id, state) ∷ [] }

  unfoldable pub write_all : System → List Write → System
  unfolding write
  write_all s [] = s
  write_all s (w ∷ ws) = write_all (write s w) ws

  -- `processDeviceUpdateTask`
  unfoldable pub process_device_update_task : System → String → Map → System
  unfolding write_all enqueue_evaluations
  process_device_update_task s id state =
      let (device, pool) = exec s.pool (get_device_by_id id) in
      let (evaluations, store, written) = process_update_task R (λ _. device) s.store id state in
      enqueue_evaluations (write_all (record s { pool = pool; store = store }) written) evaluations

  abbrev pub world : System → World R
  world s = record { store = some s.store; clock = s.clock; reads = s.reads }

  abbrev pub store_or : R.Store → Option R.Store → R.Store
  store_or s none = s
  store_or s (some t) = t

  -- What becomes of a task: the queue keeps one that failed if it is to be tried again.
  abbrev pub requeued : Bool → Task → Status → List Task → List Task
  requeued again t done rest = rest
  requeued again t _ rest = if again then rest ++ t ∷ [] else rest

  -- The queries of a task, of which the second is made if the task comes so far.
  abbrev pub rules_of : Pool → String → Rules × Pool
  rules_of p rule_id =
      let (rule, p1) = exec p (get_rule_by_id rule_id) in
      let (all, p2) = exec p1 get_all_rules in (record { by_id = λ _. rule; all = all }, p2)

  -- `evaluateAndExecuteTask`
  unfoldable pub evaluate_and_execute_task : System → Bool → Task → String → System
  evaluate_and_execute_task s again t rule_id =
      let (rules, pool) = rules_of s.pool rule_id in
      let (status, w, messages) = evaluate_and_execute R (world s) s.connected rules rule_id in
      record s {
        store = store_or s.store w.store;
        reads = w.reads;
        pool = pool;
        tasks = requeued again t status s.tasks;
        published = s.published ++ messages;
      }

  -- asynqMux
  unfoldable pub work : System → Bool → Task → System
  unfolding process_device_update_task evaluate_and_execute_task
  work s again (device_update id state) = process_device_update_task s id state
  work s again (evaluate_rule rule_id id) =
      evaluate_and_execute_task s again (evaluate_rule rule_id id) rule_id

  unfoldable pub arrive : System → Option (String × Map) → System
  unfolding enqueue
  arrive s none = s
  arrive s (some (id, state)) = enqueue s (device_update id state)

  abbrev pub work_picked : System → Bool → Option (Task × List Task) → System
  work_picked s again none = s
  work_picked s again (some (t, rest)) = work (record s { tasks = rest }) again t

  abbrev pub write_picked : System → Option ((String × Payload) × List (String × Payload)) → System
  write_picked s none = s
  write_picked s (some ((id, state), rest)) = record s {
    going = rest;
    pool = (exec s.pool (update_device_state id state)).1;
  }

  unfoldable pub step : System → Event → System
  unfolding arrive work pick
  step s (arrives topic message) = arrive s (on_device_update topic message)
  step s (asked rule_id) = enqueue s (evaluate_rule rule_id "")
  step s (works n again) = work_picked s again (pick n s.tasks)
  step s (writes n) = write_picked s (pick n s.going)

  unfoldable pub run : System → List Event → System
  unfolding step
  run s [] = s
  run s (e ∷ es) = run (step s e) es
