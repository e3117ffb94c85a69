-- ===== src/Web.antt =====
-- internal/web: the requests of the API, behind internal/web/middleware/auth.go. A handler gets the
-- user that the token names, and gives a response and the site as it leaves it.
pub mod Devices
pub mod Automation
pub mod Accounts
pub mod Prototype
use smarthome_backend.Prelude.{
  ℕ, String, ◌==◌, string_Eq, Bool, true, false, List, Option, none, some,
}
use smarthome_backend.Json.{Payload, Map}
use smarthome_backend.Models.{Device, Rule}
use smarthome_backend.Redis.{Redis}
use smarthome_backend.Cron.{Cron}
use smarthome_backend.Database.{Pool, Statement, exec}
use smarthome_backend.Automation.Executor.{Message}
use smarthome_backend.Engine.Rules.{Engine}
use smarthome_backend.Auth.{Error, Result, ok, err, validate_token_jwt}
use smarthome_backend.Auth.Libraries.{Jwt}

-- What a response holds: an error, a status, rows, a command that was sent, `none` for the nil map, a new name, a token with
-- the agent's ID, the text of an error of auth.go, or the ID, the email and the name of a user.
pub data Body : Type 0 where
  error status : String → Body
  devices : List Device → Body
  rules : List Rule → Body
  rule : Rule → Body
  sent : String → Option Map → Body
  renamed : String → Body
  token : String → String → Body
  failure : Error → Body
  user : String → String → String → Body

pub record Response : Type 0 where
  pub code : ℕ
  pub body : Body

abbrev pub reply : ℕ → Body → Response
reply code body = record { code = code; body = body }

module _ (R : Redis) (C : Cron) where
  -- The engine, with the pool, and the messages that were published.
  pub record Site : Type 0 where
    pub engine : Engine R C
    pub published : List Message

  abbrev pub run : {A : Type 0} → Site → Statement A → Option A × Site
  run s f =
      let (r, p) = exec s.engine.pool f in (r, record s { engine = record s.engine { pool = p } })

  abbrev pub Handler : Type 0
  Handler = Site → Response × Site

  -- `RequireAuth`
  abbrev admitted : Result String → (String → Handler) → Handler
  admitted (ok user_id) handler s = handler user_id s
  admitted (err e) handler s = (reply 401 (error "Unauthorized"), s)

  unfoldable pub require_auth : Jwt → String → ℕ → String → (String → Handler) → Handler
  require_auth J secret now header handler =
      admitted (validate_token_jwt J secret now header) handler
