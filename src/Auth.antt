-- ===== src/Auth.antt =====
-- auth/auth.go: users, their passwords, and the tokens and sessions that stand for them. An
-- operation runs over the pool of the database; times are in seconds.
pub mod Libraries
pub mod Distinct
pub mod Users
pub mod Interleaved
pub mod Races
pub mod Tokens
pub mod Passwords
pub mod Sessions
use Prim.Native.String
use smarthome_backend.Prelude.{
  ℕ, ◌+◌, ◌*◌, String, ◌==◌, string_Eq, nat_Eq, Bool, true, false, not, List, [], ◌∷◌, ◌++◌, Option,
  none, some, any, ltb, if◌then◌else◌,
}
use smarthome_backend.Prelude.Decimal.{show}
use smarthome_backend.Prelude.Dict.{lookup}
use smarthome_backend.Json.{Value, num, Map}
use smarthome_backend.TaskQueue.Actions.{int_text}
use smarthome_backend.Database.{User, Tables, Statement, Pool, exec, first_where, update_where}
use Libraries.{Bcrypt, Jwt, Claims, Got, found, missing, broken, Keys}

-- `failed` is an error of the database or of a library.
pub data Error : Type 0 where
  failed username_taken invalid_credentials invalid_token invalid_user_id user_not_found
        invalid_password :
      Error

pub data Result {ℓ} (A : Type ℓ) : Type ℓ where
  ok : A → Result A
  err : Error → Result A

abbrev pub Operation : Type 0 → Type 0
Operation A = Pool → Result A × Pool

abbrev pub next : {A B : Type 0} → Result A → Pool → (A → Operation B) → Result B × Pool
next (ok a) p f = f a p
next (err e) p f = (err e, p)

infixl 5 ◌>>=◌ ◌>>◌
abbrev pub ◌>>=◌ : {A B : Type 0} → Operation A → (A → Operation B) → Operation B
◌>>=◌ m f p = next (m p).0 (m p).1 f

abbrev pub ◌>>◌ : {A B : Type 0} → Operation A → Operation B → Operation B
m >> k = m >>= λ _. k

abbrev pub pure : {A : Type 0} → A → Operation A
pure a p = (ok a, p)

abbrev pub or_error : {A : Type 0} → Error → Option A → Result A
or_error e none = err e
or_error e (some a) = ok a

abbrev pub from : {A : Type 0} → Error → Option A → Operation A
from e o p = (or_error e o, p)

abbrev pub query : {A : Type 0} → Error → Statement A → Operation A
query e f p = (or_error e (exec p f).0, (exec p f).1)

abbrev pub guard : Bool → Error → Operation (Unit {0})
guard holds e p = (if holds then ok tt else err e, p)

abbrev pub is_named : String → User → Bool
is_named username u = u.username == username

abbrev pub is_user : ℕ → User → Bool
is_user id u = u.id == id

unfoldable pub username_exists : String → Statement Bool
username_exists username t = (some (any (is_named username) t.users), t)

-- The column is GENERATED ALWAYS AS IDENTITY: no row can have an ID that the sequence is yet to give,
-- and the primary key refuses nothing.
unfoldable pub insert_user : String → String → String → Statement ℕ
insert_user username password email t = (
  some t.next_user,
  record t {
    users =
        t.users
        ++ record { id = t.next_user; username = username; password = password; email = email }
          ∷ [];
    next_user = t.next_user + 1;
  },
)

unfoldable pub user_by_name : String → Statement User
unfolding first_where
user_by_name username t = (first_where (is_named username) t.users, t)

unfoldable pub user_by_id : ℕ → Statement User
unfolding first_where
user_by_id id t = (first_where (is_user id) t.users, t)

unfoldable pub set_password : ℕ → String → Statement (Unit {0})
unfolding update_where
set_password id password t = (
  some tt,
  record t { users = update_where (is_user id) (λ u. record u { password = password }) t.users },
)

unfoldable pub set_email : ℕ → String → Statement (Unit {0})
unfolding update_where
set_email id email t = (
  some tt,
  record t { users = update_where (is_user id) (λ u. record u { email = email }) t.users },
)

abbrev pub hours : ℕ → ℕ
hours n = n * 3600

-- `salt` is the randomness of the call of bcrypt.
module _ (B : Bcrypt) where
  unfoldable pub create_user : ℕ → String → String → String → Operation ℕ
  create_user salt username password email = do
    exists ← query failed (username_exists username)
    guard (not exists) username_taken
    hashed ← from failed (B.hash salt password)
    query failed (insert_user username hashed email)

  unfoldable pub authenticate_user : String → String → Operation ℕ
  authenticate_user username password = do
    u ← query invalid_credentials (user_by_name username)
    guard (B.matches u.password password) invalid_credentials
    pure u.id

  unfoldable pub change_password : ℕ → ℕ → String → String → Operation (Unit {0})
  change_password salt user_id old_password new_password = do
    u ← query user_not_found (user_by_id user_id)
    guard (B.matches u.password old_password) invalid_password
    hashed ← from failed (B.hash salt new_password)
    query failed (set_password user_id hashed)

  unfoldable pub change_email : ℕ → String → String → Operation (Unit {0})
  change_email user_id password new_email = do
    u ← query user_not_found (user_by_id user_id)
    guard (B.matches u.password password) invalid_password
    query failed (set_email user_id new_email)

module _ (J : Jwt) (secret : String) where
  unfoldable pub generate_jwt : ℕ → ℕ → Option String
  generate_jwt now user_id =
      J.sign secret (record { user_id = user_id; exp = now + hours 24; iat = now })

  -- The claim of the user: a number, which is cut to an integer.
  unfoldable pub user_of : Option Value → Result String
  user_of (some (num f)) = ok (int_text f)
  user_of _ = err invalid_user_id

  unfoldable pub user_of_claims : Option Map → Result String
  unfolding user_of
  user_of_claims none = err failed
  user_of_claims (some claims) = user_of (lookup "user_id" claims)

  -- The key is only handed out for an HMAC method.
  unfoldable pub verified : ℕ → String → Option Bool → Option Map
  verified now token (some true) = J.verify secret now token
  verified now token _ = none

  unfoldable pub validate_token_jwt : ℕ → String → Result String
  unfolding user_of_claims verified
  validate_token_jwt now token = user_of_claims (verified now token (J.is_hmac token))

module _ (B : Bcrypt) (J : Jwt) (secret : String) where
  unfoldable pub register_with_jwt : ℕ → ℕ → String → String → String → Operation String
  unfolding generate_jwt
  register_with_jwt salt now username password email = do
    id ← create_user B salt username password email
    from failed (generate_jwt J secret now id)

  unfoldable pub login_with_jwt : ℕ → String → String → Operation String
  unfolding generate_jwt
  login_with_jwt now username password = do
    id ← authenticate_user B username password
    from failed (generate_jwt J secret now id)

-- The client discards its token.
unfoldable pub logout_jwt : String → Result (Unit {0})
logout_jwt token = ok tt

abbrev pub session_key : String → String
session_key token = String.◌++◌ "session:" token

-- `token` is what the random source gives, none on an error of it.
module _ (K : Keys) where
  unfoldable pub store_session : K.State → ℕ → ℕ → Option String → Result (ℕ × String × K.State)
  store_session s now user_id none = err failed
  store_session s now user_id (some token) =
      elim (K.set s now (session_key token) (show user_id) (hours 24)) [
        | none ↦ err failed
        | some s' ↦ ok (user_id, token, s')
      ]

  unfoldable pub start_session :
      K.State → ℕ → Option String → Result ℕ × Pool → Result (ℕ × String × K.State) × Pool
  unfolding store_session
  start_session s now token (ok user_id, p) = (store_session s now user_id token, p)
  start_session s now token (err e, p) = (err e, p)

  unfoldable pub register_with_session :
      Bcrypt
      → ℕ
      → String
      → String
      → String
      → K.State
      → ℕ
      → Option String
      → Pool
      → Result (ℕ × String × K.State) × Pool
  unfolding start_session
  register_with_session B salt username password email s now token p =
      start_session s now token (create_user B salt username password email p)

  unfoldable pub login_with_session :
      Bcrypt
      → String
      → String
      → K.State
      → ℕ
      → Option String
      → Pool
      → Result (ℕ × String × K.State) × Pool
  unfolding start_session
  login_with_session B username password s now token p =
      start_session s now token (authenticate_user B username password p)

  abbrev pub renewed : String → Option K.State → Result (String × K.State)
  renewed user_id none = err failed
  renewed user_id (some s) = ok (user_id, s)

  -- The time to live is renewed once it is below 20 hours.
  unfoldable pub renew : K.State → ℕ → String → String → Option ℕ → Result (String × K.State)
  renew s now key user_id none = err failed
  renew s now key user_id (some t) =
      if ltb t (hours 20) then renewed user_id (K.expire s now key (hours 24)) else ok (user_id, s)

  unfoldable pub validate_got : K.State → ℕ → String → Got → Result (String × K.State)
  unfolding renew
  validate_got s now key (found user_id) = renew s now key user_id (K.ttl s now key)
  validate_got s now key missing = err invalid_token
  validate_got s now key broken = err failed

  unfoldable pub validate_token_session : K.State → ℕ → String → Result (String × K.State)
  unfolding validate_got
  validate_token_session s now token =
      validate_got s now (session_key token) (K.get s now (session_key token))

  unfoldable pub logout_session : K.State → String → Option K.State
  logout_session s token = K.del s (session_key token)
