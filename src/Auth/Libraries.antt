-- ===== src/Auth/Libraries.antt =====
-- The libraries behind auth.go, as interfaces: bcrypt, the signed tokens, and the keys of Redis that
-- expire. Times are in seconds.
use smarthome_backend.Prelude.{
  ℕ, ◌+◌, ◌<◌, ◌≤◌, ◌^◌, String, ◌≡◌, ◌==◌, string_Eq, Bool, true, false, Option, none, some, ltb,
  if◌then◌else◌,
}
use smarthome_backend.Prelude.Dict.{lookup}
use smarthome_backend.Json.{num, Map}
use smarthome_backend.Json.Float.{Float64, whole_part}

-- Each call of `hash` has its own salt; a password may be refused as too long.
pub record Bcrypt : Type 0 where
  pub hash : ℕ → String → Option String
  pub matches : String → String → Bool

pub record Hashes (B : Bcrypt) : Type 0 where
  pub matches-hash :
      (salt : ℕ) (password hashed : String)
      → B.hash salt password ≡ some hashed
      → B.matches hashed password ≡ true

pub record Claims : Type 0 where
  pub user_id : ℕ
  pub exp : ℕ
  pub iat : ℕ

-- `is_hmac` says whether a token names an HMAC method, none if it does not parse; `verify` gives the
-- claims of a token that the secret has signed and that is valid at a time.
pub record Jwt : Type 0 where
  pub sign : String → Claims → Option String
  pub is_hmac : String → Option Bool
  pub verify : String → ℕ → String → Option Map

-- Numbers of JSON are exact up to 2 ^ 53.
pub record Signs (J : Jwt) : Type 0 where
  pub is_hmac-sign :
      (secret token : String) (c : Claims)
      → J.sign secret c ≡ some token
      → J.is_hmac token ≡ some true
  pub verify-sign :
      (secret token : String) (c : Claims) (now : ℕ)
      → J.sign secret c ≡ some token
      → now < c.exp
      → c.user_id < 2 ^ 53
      → (m : Map) × (f : Float64) × (J.verify secret now token ≡ some m)
        × (lookup "user_id" m ≡ some (num f))
        × (whole_part f ≡ c.user_id)
        × (f.negative ≡ false)
  pub verify-expired :
      (secret token : String) (c : Claims) (now : ℕ)
      → J.sign secret c ≡ some token
      → c.exp ≤ now
      → J.verify secret now token ≡ none

-- What GET gives: a value, redis.Nil or another error.
pub data Got : Type 0 where
  found : String → Got
  missing broken : Got

-- SET and EXPIRE with a time to live, GET, TTL and DEL; none is an error.
pub record Keys : Type 1 where
  pub State : Type 0
  pub set : State → ℕ → String → String → ℕ → Option State
  pub get : State → ℕ → String → Got
  pub ttl : State → ℕ → String → Option ℕ
  pub expire : State → ℕ → String → ℕ → Option State
  pub del : State → String → Option State

pub record Expires (K : Keys) : Type 1 where
  pub get-set :
      (s s' : K.State) (now later d : ℕ) (k j v : String)
      → K.set s now k v d ≡ some s'
      → K.get s' later j
        ≡ (if k == j then (if ltb later (now + d) then found v else missing) else K.get s later j)
  pub get-ttl :
      (s : K.State) (now later t : ℕ) (k v : String)
      → K.ttl s now k ≡ some t
      → K.get s now k ≡ found v
      → now ≤ later
      → K.get s later k ≡ (if ltb later (now + t) then found v else missing)
  pub get-expire :
      (s s' : K.State) (now later d : ℕ) (k v : String)
      → K.expire s now k d ≡ some s'
      → K.get s now k ≡ found v
      → K.get s' later k ≡ (if ltb later (now + d) then found v else missing)
  pub get-del :
      (s s' : K.State) (later : ℕ) (k j : String)
      → K.del s k ≡ some s'
      → K.get s' later j ≡ (if k == j then missing else K.get s later j)
