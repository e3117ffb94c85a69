-- ===== src/Tests/Races.antt =====
-- Two registrations of one name at once, and two rules.
use smarthome_backend.Prelude.{
  ◌+◌, String, ◌≡◌, refl, string_Eq, nat_Eq, true, List, [], ◌∷◌, ◌++◌, Option, some, contains,
  arith,
}
use smarthome_backend.Database.{User, exec}
use smarthome_backend.Auth.{ok, err, username_taken, username_exists, insert_user}
use smarthome_backend.Auth.Interleaved.{Registration, Stage, looking, done, advance, step, run}
use smarthome_backend.Auth.Races.{IsNumbered, run-IsNumbered, run-duplicates}
use smarthome_backend.Prelude.Decimal.{show}
use smarthome_backend.Json.{Payload, doc, obj, end}
use smarthome_backend.Models.{Condition}
use smarthome_backend.Engine.{rules_key}
use smarthome_backend.Web.{reply, rule}
use smarthome_backend.Web.Automation.{AddRuleRequest}
use smarthome_backend.Web.Automation.Rules.{new_rule}
use smarthome_backend.Web.Automation.Races.{create_both, create_both-second}
use smarthome_backend.Tests.Doubles.{set_redis, set_redis-Sets, memory_cron, memory_registers}
use smarthome_backend.Tests.Rules.{engine-no_strings}
use smarthome_backend.Tests.Tables.{pool, pool-Up, house, hot, site}
use smarthome_backend.Tests.Accounts.{plain}

abbrev eve : Registration
eve = record { salt = 0; username = "eve"; password = "key"; email = "eve@home" }

abbrev other_eve : Registration
other_eve = record { salt = 1; username = "eve"; password = "lock"; email = "eve@work" }

pool-IsNumbered : IsNumbered pool.tables
pool-IsNumbered = record { distinct = (refl, (refl, tt)); below = (omega arith, (omega arith, tt)) }

abbrev both : List (Registration × Stage)
both = (eve, looking) ∷ (other_eve, looking) ∷ []

run-IsNumbered_example : IsNumbered (run plain (0 ∷ 1 ∷ 5 ∷ 0 ∷ 1 ∷ []) both pool).1.tables
run-IsNumbered_example = run-IsNumbered plain (0 ∷ 1 ∷ 5 ∷ 0 ∷ 1 ∷ []) both pool pool-IsNumbered

run-duplicates_example :
    let (calls, p') = run plain (0 ∷ 1 ∷ 0 ∷ 1 ∷ []) both pool in
    let id = pool.tables.next_user in
    let first : User = record { id = id; username = "eve"; password = "key"; email = "eve@home" } in
    let second : User = record {
      id = id + 1;
      username = "eve";
      password = "lock";
      email = "eve@work";
    } in
    (calls ≡ (eve, done (ok id)) ∷ (other_eve, done (ok (id + 1))) ∷ [])
    × (p'.tables.users ≡ (pool.tables.users ++ first ∷ []) ++ second ∷ [])
run-duplicates_example =
    run-duplicates plain eve other_eve pool "key" "lock" pool-Up refl refl refl refl

-- One call after the other: the second is refused.
in_turn_runs :
    (run plain (0 ∷ 0 ∷ 1 ∷ 1 ∷ []) both pool).0
    ≡ (eve, done (ok pool.tables.next_user)) ∷ (other_eve, done (err username_taken)) ∷ []
unfolding run step advance exec username_exists insert_user
in_turn_runs = refl

abbrev body : Payload
body = doc (obj end)

abbrev read : Payload → Option Condition
read p = some hot

abbrev dawn : AddRuleRequest
dawn = record { name = "dawn"; conditions = some body; actions = some body; enabled = true }

create_both-second_example :
    let ((r, r'), s') = create_both set_redis memory_cron "1" read dawn dawn site in
    let first = new_rule read "dawn" "1" body body true house in
    let second =
      new_rule read "dawn" "1" body body true
        (record house { rules = house.rules ++ first ∷ []; next_rule = 9 }) in
    (r ≡ reply 201 (rule second))
    × (r' ≡ reply 201 (rule second))
    × (s'.engine.pool.tables.rules ≡ (house.rules ++ first ∷ []) ++ second ∷ [])
    × ((d : String)
        → contains (show 8) (set_redis.members s'.engine.store (rules_key d))
          ≡ contains (show 8) (set_redis.members site.engine.store (rules_key d)))
unfolding show
create_both-second_example =
    create_both-second set_redis set_redis-Sets memory_cron memory_registers read "1" "dawn" body
      body body body true true site pool-Up refl engine-no_strings
