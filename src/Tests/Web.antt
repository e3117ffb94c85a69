-- ===== src/Tests/Web.antt =====
-- Requests to the web API over the site of the tables.
use smarthome_backend.Prelude.{
  ◌+◌, ◌≡◌, refl, string_Eq, true, ◌&&◌, List, [], ◌∷◌, Option, some, contains, ltb, arith,
  if◌then◌else◌, ◌⊎◌,
}
use smarthome_backend.Prelude.Decimal.{show}
use smarthome_backend.Json.{Payload, doc, obj, end, Map}
use smarthome_backend.Models.{Condition}
use smarthome_backend.Database.{delete_where, first_where}
use smarthome_backend.Engine.{rules_key}
use smarthome_backend.Engine.Devices.{names}
use smarthome_backend.Engine.Rules.Removal.{Removed}
use smarthome_backend.Automation.Executor.{command_topic}
use smarthome_backend.Auth.{hours, generate_jwt}
use smarthome_backend.Web.{status, sent, rule, token, user, error, reply, require_auth}
use smarthome_backend.Web.Devices.{bind_params, accepts, command, set_owner}
use smarthome_backend.Web.Devices.Ownership.{
  rows, message, Permitted, command-Permitted, command-set_owner,
}
use smarthome_backend.Web.Devices.Requests
use smarthome_backend.Web.Devices.Requests.{Respects, serve_all-Respects}
use smarthome_backend.Web.Automation.{is_own, AddRuleRequest, delete_rule, create_rule}
use smarthome_backend.Web.Automation.Rules.{new_rule, delete_rule-Removed}
use smarthome_backend.Web.Automation.Created.{create_rule-associated}
use smarthome_backend.Web.Automation.Requests as RuleRequests
use smarthome_backend.Web.Automation.Requests.{serve_all-others}
use smarthome_backend.Web.Automation.Foreign.{others}
use smarthome_backend.Web.Accounts.{RegisterRequest, register, me}
use smarthome_backend.Web.Accounts.Registered.{me-register}
use smarthome_backend.Tests.Doubles.{set_redis, set_redis-Sets, memory_cron, memory_registers}
use smarthome_backend.Tests.Tables.{site, house, hot, pool-Up, device}
use smarthome_backend.Tests.Rules.{one_job-Synced, engine-keys, engine-no_strings}
use smarthome_backend.Tests.Accounts.{plain, one_token, one_token-Signs}

abbrev body : Payload
body = doc (obj end)

command-Permitted_example :
    let s' = (command set_redis memory_cron "1" "heater" body accepts site).1 in
    (s'.published ≡ [])
    ⊎ (Permitted "1" "heater" (rows site)
        × ((params : Option Map) × (bind_params body ≡ some params)
            × (s'.published ≡ message "heater" params ∷ [])))
command-Permitted_example = command-Permitted set_redis memory_cron "1" "heater" body accepts site

command-set_owner_example :
    let s1 = (set_owner set_redis memory_cron "1" "lamp" site).1 in
    let (r, s2) = command set_redis memory_cron "1" "lamp" body accepts s1 in
    (r ≡ reply 200 (sent (command_topic "lamp") (some [])))
    × (s2.published ≡ message "lamp" (some []) ∷ [])
unfolding first_where bind_params show
command-set_owner_example =
    command-set_owner set_redis memory_cron "1" "lamp" body (some []) site (device "lamp" "2")
      pool-Up refl refl refl refl

abbrev device_requests : List Requests.Request
device_requests =
    Requests.lists
    ∷ Requests.renames "lamp" (some "mine")
    ∷ Requests.deletes "heater"
    ∷ Requests.deletes "lamp"
    ∷ []

serve_all-Respects_example :
    Respects "1"
      (rows site)
      (rows (Requests.serve_all set_redis memory_cron "1" site device_requests))
serve_all-Respects_example =
    serve_all-Respects set_redis memory_cron "1" site device_requests (refl, (refl, tt))

delete_rule-Removed_example :
    let (r, s') = delete_rule set_redis memory_cron "2" "7" site in
    (r ≡ reply 200 (status "Rule deleted successfully"))
    × (s'.engine.pool.tables.rules ≡ delete_where (is_own "7" "2") house.rules)
    × Removed set_redis set_redis-Sets memory_cron memory_registers "7" site.engine s'.engine
delete_rule-Removed_example =
    delete_rule-Removed set_redis set_redis-Sets memory_cron memory_registers "2" "7" site
      ("device:heater:rules" ∷ []) one_job-Synced pool-Up engine-keys

-- Documents of conditions, of which one parses.
abbrev read : Payload → Option Condition
read p = some hot

abbrev dawn : AddRuleRequest
dawn = record { name = "dawn"; conditions = some body; actions = some body; enabled = true }

create_rule-associated_example :
    let (r, s') = create_rule set_redis memory_cron read "1" (some dawn) site in
    (r ≡ reply 201 (rule (new_rule read "dawn" "1" body body true house)))
    × (contains (show 8) (set_redis.members s'.engine.store (rules_key "heater"))
        ≡ true && names "heater" hot)
    × (s'.engine.queue.tasks ≡ (if true && true then (show 8, "") ∷ [] else []))
unfolding show
create_rule-associated_example =
    create_rule-associated set_redis set_redis-Sets memory_cron memory_registers read "1" "dawn"
      body body hot true site ("device:heater:rules" ∷ []) "heater" pool-Up refl refl refl
      engine-keys engine-no_strings

abbrev rule_requests : List RuleRequests.Request
rule_requests =
    RuleRequests.creates (some dawn) ∷ RuleRequests.deletes "7" ∷ RuleRequests.lists ∷ []

serve_all-others_example :
    others "2"
      (RuleRequests.serve_all set_redis memory_cron read "2" site rule_requests).engine.pool.tables
    ≡ others "2" house
serve_all-others_example =
    serve_all-others set_redis memory_cron memory_registers "2" read site rule_requests

abbrev eve : RegisterRequest
eve = record { username = "eve"; password = "key"; email = "eve@home" }

me-register_example :
    let (r, s') = register set_redis memory_cron plain one_token "s" "agent" 0 0 (some eve) site in
    (r ≡ reply 201 (token "token" "agent"))
    × ((require_auth set_redis memory_cron one_token "s" 500 "token"
          (me set_redis memory_cron)
          s').0
        ≡ (if ltb 500 (0 + hours 24)
            then reply 200 (user (show 3) "eve@home" "eve")
            else reply 401 (error "Unauthorized")))
unfolding show generate_jwt
me-register_example =
    me-register set_redis memory_cron plain one_token one_token-Signs "s" "agent" 0 0 500 "eve"
      "key" "eve@home" "key" "token" site pool-Up refl refl (omega arith) refl refl
