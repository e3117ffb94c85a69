-- ===== src/Lib.antt =====
-- The smart home backend. Devices send their states over MQTT; rules, which are trees of conditions
-- with actions, are evaluated when a state or the time changes and publish commands to devices; a
-- relay server on the internet passes requests on to the agents in the homes.
--
-- Parts. A state message goes through `onDeviceUpdate` to the queue; the update task stores the state
-- in Redis and enqueues the rules that are associated with the device; an evaluation task evaluates
-- the rule and, if its conditions hold, resolves its actions against those of all other rules that
-- hold, and publishes the result. The scheduler enqueues evaluations at the times in the conditions.
-- The web API admits requests with a token of the authentication, changes the tables of devices and
-- rules, publishes commands, and has the engine refresh or remove what a rule leaves in Redis, in the
-- table of schedules and in the scheduler. The agent in the home connects to the relay server and
-- passes what comes from there to the web API. The program starts all of these but the relay
-- server, which is a program of its own.
--
-- Files, with the source that each models:
--   Prelude    Boolean tests, association lists for Go maps, decimal numbers, the order of texts
--   Json       encoding/json values, maps, and float64 by sign and bits (Json.Float)
--   Utils      internal/utils/helpers.go: Compare and ParseDeviceID; Utils.Time has time.Parse("15:04")
--   Models     internal/models/models.go: the rows, and the tree of conditions
--   Redis      the Redis client, as an interface with the laws that are used
--   Cron       the cron library, as an interface with the laws that are used
--   Automation.Evaluator      internal/automation/evaluator.go; Truth is its specification, and Timing
--              has evaluations one after another, with the 60 seconds of a cached result
--   Automation.TimeExtractor  internal/automation/time_extractor.go; Scan is fmt.Sscanf("%d:%d")
--   Automation.Executor       internal/automation/executor.go
--   Automation.Updater        internal/automation/updater.go, and the update task of tasks.go
--   TaskQueue  internal/taskqueue/tasks.go: Actions reads a rule's actions, Conflicts resolves them,
--              Tasks is evaluateAndExecuteTask
--   Workers    internal/taskqueue/worker.go and the enqueueing of tasks.go: the tasks of the queue over
--              the whole state, as a step function on messages, requests, tasks and writes
--   Scheduler  internal/scheduler/scheduler.go: the job map over the entries of cron
--   Engine     internal/engine/engine.go: the devices of a rule and its associations; Engine.Rules has
--              the engine's work for one rule, with the schedules of its time conditions
--   Database   internal/db/queries.go over the tables of schema.sql: a query is a Statement
--   Auth       auth/auth.go: an Operation runs over the pool of the database; Libraries has bcrypt, the
--              tokens and the keys of Redis that expire, as interfaces; Interleaved has registrations
--              whose statements come in any order
--   Web        internal/web/middleware/auth.go; a Handler takes the site, which is the engine and what
--              was published, to a response and the site that it leaves
--   Web.Devices     internal/web/api/devices.go
--   Web.Automation  internal/web/api/automation.go
--   Web.Accounts    internal/web/api/auth.go and internal/web/api/user.go
--   Web.Prototype   internal/web/view/prototype.go
--   Bridge     internal/internet_bridge/agent.go: what the agent sends for the messages that arrive
--   Relay      cmd/remote_server/main.go: the handlers of agents and clients as a step relation; Forward
--              is the message that a client's request becomes
--   Main       cmd/engine/main.go: the start of the program, and Main.Names its name server
--   Config     internal/config/config.go: the environment, the secrets and the file that keeps them
--   Tests      doubles for the libraries, runs of the code, and the theorems at concrete inputs
--
-- State and operations. A handler or task is a function from the state it reads to the state it leaves
-- and what it sends; an error is `none`, a Boolean or a status beside the state. Functions keep the
-- names of the source in snake case. Where the source loops over a Go map, the order of the list is
-- one order of iteration. In Relay a step is what a handler does between two points at which it can
-- wait; a run is a list of steps of all handlers, in any order that the code admits. In Workers a step
-- is a whole task, so the reads of two tasks do not mix, but tasks are taken in any order.
--
-- Bounds. All loops are structural recursions, so there is no fuel but for the digits of a number: a
-- number has at most as many digits as its successor counts. Numbers of JSON are 64-bit floats by
-- their bits; a conversion to int beyond 63 bits gives the least integer, as on amd64. Sscanf refuses
-- a number beyond 64 bits.
--
-- The database. Tables are lists of rows in the order of their IDs. A statement is a function on the
-- tables, and is refused where a constraint of schema.sql does; the primary keys that schema.sql has
-- GENERATED ALWAYS AS IDENTITY come from a sequence and are not checked, so that a theorem assumes,
-- where it needs it, that the next one is not in use. A statement that the connection fails changes
-- nothing, and for each call a parameter says whether it does. IDs that are numbers are the texts that
-- the database prints for them, and the requests give them so.
--
-- Third-party code is a parameter: Redis with the documented behaviour of GET, SET, SADD, SREM, DEL
-- and KEYS and of keys that expire, cron with that of AddFunc and Remove, bcrypt, the library of
-- tokens, strconv and net/http. Keys of Redis expire in Auth and in Automation.Evaluator.Timing (the
-- results of time conditions and the states of devices), where one evaluation is taken to have one
-- time; elsewhere an expired entry is one that is absent. Bodies of
-- requests are what gin decodes, none where it refuses them.
--
-- Not modelled: the constructors of the clients and of the router, and the templates of the pages.
-- Mutexes are modelled where a handler can wait under them, in the relay. The statements of several
-- registrations mix in Auth.Interleaved, and those of two creations of rules in Web.Automation.Races;
-- the operations of the scheduler, the other requests of the web API and the work of the engine are
-- taken one after another, so that races between the statements of two of them are left out.
pub mod Auth
pub mod Automation
pub mod Bridge
pub mod Config
pub mod Cron
pub mod Database
pub mod Engine
pub mod Json
pub mod Main
pub mod Models
pub mod Prelude
pub mod Redis
pub mod Relay
pub mod Scheduler
pub mod TaskQueue
pub mod Tests
pub mod Utils
pub mod Web
pub mod Workers
