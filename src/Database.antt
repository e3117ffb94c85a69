-- ===== src/Database.antt =====
-- internal/db/queries.go over the tables of schema.sql. A statement is a function on the tables,
-- whose result is none where the server refuses it: no row for a query of one row, or a constraint.
-- A pool runs a statement if the connection holds; the numbered calls say for which of them it does.
-- Numeric IDs are the texts that the database prints for them.
pub mod Schedules
use smarthome_backend.Prelude.{
  ℕ, ◌+◌, String, ◌==◌, string_Eq, nat_Eq, Bool, true, false, not, ◌&&◌, List, [], ◌∷◌, ◌++◌,
  Option, none, some, any, map, if◌then◌else◌,
}
use smarthome_backend.Prelude.Decimal.{show}
use smarthome_backend.Json.{Payload}
use smarthome_backend.Models.{Device, Rule, Schedule}

pub record User : Type 0 where
  pub id : ℕ
  pub username : String
  pub password : String
  pub email : String

-- The tables, and the next value of each identity column.
pub record Tables : Type 0 where
  pub devices : List Device
  pub rules : List Rule
  pub schedules : List Schedule
  pub users : List User
  pub next_rule : ℕ
  pub next_schedule : ℕ
  pub next_user : ℕ

abbrev pub Statement : Type 0 → Type 0
Statement A = Tables → Option A × Tables

pub record Pool : Type 0 where
  pub tables : Tables
  pub answers : ℕ → Bool
  pub calls : ℕ

-- A statement that the connection fails changes nothing.
unfoldable pub exec : {A : Type 0} → Pool → Statement A → Option A × Pool
exec p f =
    let reached = p.answers p.calls in
    (
      if reached then (f p.tables).0 else none,
      record p { tables = if reached then (f p.tables).1 else p.tables; calls = p.calls + 1 },
    )

-- The first row that a test selects, all of them, and all others.
module _ {A : Type 0} (test : A → Bool) where
  unfoldable pub first_where : List A → Option A
  first_where [] = none
  first_where (a ∷ l) = let more = first_where l in if test a then some a else more

  unfoldable pub select_where : List A → List A
  select_where [] = []
  select_where (a ∷ l) = let more = select_where l in if test a then a ∷ more else more

  unfoldable pub delete_where : List A → List A
  delete_where [] = []
  delete_where (a ∷ l) = let more = delete_where l in if test a then more else a ∷ more

  unfoldable pub update_where : (A → A) → List A → List A
  update_where f [] = []
  update_where f (a ∷ l) = (if test a then f a else a) ∷ update_where f l

abbrev pub has_device_id : String → Device → Bool
has_device_id id d = d.id == id

abbrev pub has_rule_id : String → Rule → Bool
has_rule_id id r = r.id == id

abbrev pub is_schedule : String → Schedule → Bool
is_schedule id s = s.id == id

abbrev pub is_for_rule : String → Schedule → Bool
is_for_rule rule_id s = s.rule_id == rule_id

unfoldable pub get_all_schedules : Statement (List Schedule)
get_all_schedules t = (some t.schedules, t)

-- The column of the owner is not read.
abbrev pub unowned : Rule → Rule
unowned r = record r { owner_id = "" }

abbrev pub unowned_if : Option Rule → Option Rule
unowned_if none = none
unowned_if (some r) = some (unowned r)

unfoldable pub get_rule_by_id : String → Statement Rule
unfolding first_where
get_rule_by_id id t = (unowned_if (first_where (has_rule_id id) t.rules), t)

unfoldable pub update_device_state : String → Payload → Statement (Unit {0})
unfolding update_where
update_device_state id state t = (
  some tt,
  record t {
    devices = update_where (has_device_id id) (λ d. record d { state = state }) t.devices;
  },
)

-- The column `device_id` takes no null, and the statement gives it no value.
unfoldable pub log_action : String → String → Payload → Statement (Unit {0})
log_action rule_id device_id state t = (none, t)

unfoldable pub get_all_rules : Statement (List Rule)
get_all_rules t = (some (map unowned t.rules), t)

unfoldable pub get_schedules_by_rule_id : String → Statement (List Schedule)
unfolding select_where
get_schedules_by_rule_id rule_id t = (some (select_where (is_for_rule rule_id) t.schedules), t)

unfoldable pub get_device_by_id : String → Statement Device
unfolding first_where
get_device_by_id id t = (first_where (has_device_id id) t.devices, t)

-- The ID is the primary key.
unfoldable pub insert_device : String → String → String → String → Payload → Statement (Unit {0})
insert_device id name type mqtt_topic state t =
    if any (has_device_id id) t.devices then (none, t) else (
      some tt,
      record t {
        devices =
            t.devices
            ++ record {
              id = id;
              name = name;
              type = type;
              state = state;
              mqtt_topic = mqtt_topic;
              accepted = false;
              owner_id = none;
            }
              ∷ [];
      },
    )

unfoldable pub get_pending_devices : Statement (List Device)
unfolding select_where
get_pending_devices t = (some (select_where (λ d. not d.accepted) t.devices), t)

abbrev pub has_user_id : String → User → Bool
has_user_id id u = show u.id == id

-- An owner must be a user.
unfoldable pub accept_device : String → String → Statement (Unit {0})
unfolding update_where
accept_device id owner_id t =
    if owner_id == ""
    then (
      some tt,
      record t {
        devices = update_where (has_device_id id) (λ d. record d { accepted = true }) t.devices;
      },
    )
    else if any (has_device_id id) t.devices && not (any (has_user_id owner_id) t.users)
    then (none, t)
    else (
      some tt,
      record t {
        devices =
            update_where (has_device_id id)
              (λ d. record d { accepted = true; owner_id = some owner_id }) t.devices;
      },
    )

unfoldable pub delete_device : String → Statement (Unit {0})
unfolding delete_where
delete_device id t = (some tt, record t { devices = delete_where (has_device_id id) t.devices })

-- A schedule must be of a rule that is there.
unfoldable pub create_schedule : String → String → Bool → Statement String
create_schedule rule_id cron_expression enabled t =
    let id = show t.next_schedule in
    if any (has_rule_id rule_id) t.rules
    then (
      some id,
      record t {
        schedules =
            t.schedules
            ++ record {
              id = id;
              rule_id = rule_id;
              cron_expression = cron_expression;
              enabled = enabled;
            }
              ∷ [];
        next_schedule = t.next_schedule + 1;
      },
    )
    else (none, record t { next_schedule = t.next_schedule + 1 })

unfoldable pub update_schedule : String → String → Bool → Statement (Unit {0})
unfolding update_where
update_schedule id cron_expression enabled t = (
  some tt,
  record t {
    schedules =
        update_where (is_schedule id)
          (λ s. record s { cron_expression = cron_expression; enabled = enabled }) t.schedules;
  },
)

unfoldable pub delete_schedule : String → Statement (Unit {0})
unfolding delete_where
delete_schedule id t = (some tt, record t { schedules = delete_where (is_schedule id) t.schedules })

unfoldable pub delete_schedules_by_rule_id : String → Statement (Unit {0})
unfolding delete_where
delete_schedules_by_rule_id rule_id t =
    (some tt, record t { schedules = delete_where (is_for_rule rule_id) t.schedules })

unfoldable pub get_schedule_by_id : String → Statement Schedule
unfolding first_where
get_schedule_by_id id t = (first_where (is_schedule id) t.schedules, t)

unfoldable pub get_schedule_by_rule_and_cron : String → String → Statement Schedule
unfolding first_where
get_schedule_by_rule_and_cron rule_id cron_expression t =
    (first_where (λ s. s.rule_id == rule_id && s.cron_expression == cron_expression) t.schedules, t)
