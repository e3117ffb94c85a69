-- ===== src/Web/Accounts.antt =====
-- internal/web/api/auth.go and internal/web/api/user.go: logging in, registering, and the account of
-- a user. A body that is no JSON gives none.
pub mod Registered
use smarthome_backend.Prelude.{ℕ, String, ◌==◌, string_Eq, Option, none, some}
use smarthome_backend.Prelude.Decimal.{show}
use smarthome_backend.Redis.{Redis}
use smarthome_backend.Cron.{Cron}
use smarthome_backend.Database.{User, Tables, Statement, first_where, has_user_id}
use smarthome_backend.Auth.Libraries.{Bcrypt, Jwt}
use smarthome_backend.Auth.{Operation, Result, ok, err, login_with_jwt, register_with_jwt}
use smarthome_backend.Web.{Body, error, failure, token, user, Response, reply, Site, run, Handler}

pub record LoginRequest : Type 0 where
  pub username : String
  pub password : String

pub record RegisterRequest : Type 0 where
  pub username : String
  pub password : String
  pub email : String

unfoldable pub user_row : String → Statement User
unfolding first_where
user_row user_id t = (first_where (has_user_id user_id) t.users, t)

abbrev pub account : Option User → Response
account none = reply 404 (error "User not found")
account (some u) = reply 200 (user (show u.id) u.email u.username)

-- A token with the ID of the agent, or an error with a code of its own.
abbrev pub token_or : ℕ → ℕ → String → Result String → Response
token_or done refused agent_id (ok t) = reply done (token t agent_id)
token_or done refused agent_id (err e) = reply refused (failure e)

module _ (R : Redis) (C : Cron) where
  abbrev pub on_pool : {A : Type 0} → Site R C → Operation A → Result A × Site R C
  on_pool s f =
      let (r, p) = f s.engine.pool in (r, record s { engine = record s.engine { pool = p } })

  unfoldable pub me : String → Handler R C
  me user_id s = let (u, s') = run R C s (user_row user_id) in (account u, s')

  module _ (B : Bcrypt) (J : Jwt) (secret agent_id : String) where
    unfoldable pub login : ℕ → Option LoginRequest → Handler R C
    login now none s = (reply 400 (error "Invalid request"), s)
    login now (some request) s =
        let (t, s') = on_pool s (login_with_jwt B J secret now request.username request.password) in
        (token_or 200 401 agent_id t, s')

    unfoldable pub register : ℕ → ℕ → Option RegisterRequest → Handler R C
    register salt now none s = (reply 400 (error "Invalid request"), s)
    register salt now (some request) s =
        let (t, s') =
          on_pool s (
            register_with_jwt B J secret salt now request.username request.password
              request.email) in
        (token_or 201 400 agent_id t, s')
