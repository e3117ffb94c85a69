-- ===== src/Tests/Accounts.antt =====
-- Accounts over libraries that meet what is assumed of the real ones: passwords that are stored as
-- they are, one token, and keys in memory.
use smarthome_backend.Prelude.{
  ℕ, ◌+◌, ◌-◌, ◌<◌, String, ◌≡◌, refl, ap, ◌==◌, string_Eq, nat_Eq, eq_refl, eq_iff, Bool, true,
  false, ◌&&◌, List, [], ◌∷◌, Option, none, some, some-injective, ltb, arith, if◌then◌else◌,
  Bool-cases, inl, inr,
}
use smarthome_backend.Prelude.Decimal.{show}
use smarthome_backend.Prelude.Dict.{lookup, insert, delete, lookup-insert, lookup-delete}
use smarthome_backend.Json.{num}
use smarthome_backend.Json.Float.{Float64, whole_part}
use smarthome_backend.Database.{Pool, exec, first_where}
use smarthome_backend.Auth.Libraries.{
  Bcrypt, Hashes, Jwt, Signs, Claims, Got, found, missing, Keys, Expires,
}
use smarthome_backend.Auth.{
  ok, err, failed, register_with_jwt, create_user, username_exists, insert_user, generate_jwt,
  validate_token_jwt, authenticate_user, change_password, user_by_id, set_password, hours,
  validate_token_session, validate_got, renew,
}
use smarthome_backend.Auth.Distinct.{IsValid}
use smarthome_backend.Auth.Users.{
  Call, creates, changes_password, changes_email, perform_all, perform_all-IsValid,
}
use smarthome_backend.Auth.Tokens.{register-login}
use smarthome_backend.Auth.Passwords.{authenticate-change_password}
use smarthome_backend.Tests.Tables.{pool, pool-Up, ann, bob}

abbrev pub plain : Bcrypt
plain = record {
  hash = λ salt password. some password;
  matches = λ hashed password. hashed == password;
}

pub plain-Hashes : Hashes plain
plain-Hashes = record {
  matches-hash = λ salt password hashed h. ground (arith, eq_iff hashed password);
}

-- The float of 3.
abbrev three : Float64
three = record { negative = false; magnitude = 0x4008000000000000 }

-- Signs the claims of user 3 of the first day.
abbrev pub one_token : Jwt
one_token = record {
  sign = λ secret c. if c.user_id == 3 && c.exp == 86400 then some "token" else none;
  is_hmac = λ token. some true;
  verify = λ secret now token. if ltb now 86400 then some (("user_id", num three) ∷ []) else none;
}

module _ (c : Claims) (secret token : String) (signed : one_token.sign secret c ≡ some token) where
  signed-lem : (c.user_id ≡ 3) × (c.exp ≡ 86400)
  signed-lem = elim (Bool-cases (c.user_id == 3 && c.exp == 86400)) [
    | inl both ↦ (ground arith, ground arith)
    | inr other ↦ let no = rw other at signed in cc
  ]

pub one_token-Signs : Signs one_token
unfolding lookup whole_part
one_token-Signs = record {
  is_hmac-sign = λ secret token c h. refl;
  verify-sign = λ secret token c now h early small.
      let (id, exp) = signed-lem c secret token h in
      let valid : ltb now 86400 ≡ true = ground arith in
      (("user_id", num three) ∷ [], three, rw valid refl, refl, rw id refl, refl);
  verify-expired = λ secret token c now h late.
      let (id, exp) = signed-lem c secret token h in
      let gone : ltb now 86400 ≡ false = ground arith in rw gone refl;
}

abbrev Timed : Type 0
Timed = List (String × (String × ℕ))

-- A value and when it ends.
abbrev got_of : ℕ → Option (String × ℕ) → Got
got_of now none = missing
got_of now (some (v, end)) = if ltb now end then found v else missing

abbrev left_of : ℕ → Option (String × ℕ) → Option ℕ
left_of now none = none
left_of now (some (v, end)) = some (end - now)

abbrev put_off : Timed → String → ℕ → Option (String × ℕ) → Timed
put_off s k end none = s
put_off s k end (some (v, _)) = insert k (v, end) s

abbrev memory_keys : Keys
memory_keys = record {
  State = Timed;
  set = λ s now k v d. some (insert k (v, now + d) s);
  get = λ s now k. got_of now (lookup k s);
  ttl = λ s now k. left_of now (lookup k s);
  expire = λ s now k d. some (put_off s k (now + d) (lookup k s));
  del = λ s k. some (delete k s);
}

got_if :
    (b : Bool) (later end : ℕ) (v : String) (o : Option (String × ℕ))
    → got_of later (if b then some (v, end) else o)
      ≡ (if b then (if ltb later end then found v else missing) else got_of later o)
got_if true later end v o = refl
got_if false later end v o = refl

missing_if :
    (b : Bool) (later : ℕ) (o : Option (String × ℕ))
    → got_of later (if b then none else o) ≡ (if b then missing else got_of later o)
missing_if true later o = refl
missing_if false later o = refl

-- What is found has not ended.
found-lem :
    (now : ℕ) (v : String) (o : Option (String × ℕ))
    → got_of now o ≡ found v
    → (end : ℕ) × (o ≡ some (v, end)) × (now < end)
found-lem now v none h = cc
found-lem now v (some (w, end)) h = elim (Bool-cases (ltb now end)) [
  | inr ended ↦ let no = rw ended at h in cc
  | inl alive ↦
      let yes = rw alive at h in
      let same : w ≡ v = cc in (end, ap (λ x. some (x, end)) same, ground arith)
]

memory_keys-Expires : Expires memory_keys
memory_keys-Expires = record {
  get-set = λ s s' now later d k j v h.
      rw (← (some-injective _ _ h), lookup-insert k j (v, now + d) s)
        (got_if (k == j) later (now + d) v (lookup j s));
  get-ttl = λ s now later t k v h g le.
      let (end, there, alive) = found-lem now v (lookup k s) g in
      let left : end - now ≡ t = some-injective _ _ (rw there at h) in
      let e : end ≡ now + t = omega arith in rw (there, e) refl;
  get-expire = λ s s' now later d k v h g.
      let (end, there, alive) = found-lem now v (lookup k s) g in
      let put : insert k (v, now + d) s ≡ s' = some-injective _ _ (rw there at h) in
      rw (← put, lookup-insert k k (v, now + d) s, eq_refl k) refl;
  get-del = λ s s' later k j h.
      rw (← (some-injective _ _ h), lookup-delete k j s) (missing_if (k == j) later (lookup j s));
}

house-IsValid : IsValid pool.tables
house-IsValid = record {
  distinct = (refl, refl, (refl, refl, tt));
  below = (omega arith, (omega arith, tt));
}

abbrev calls : List Call
calls =
    creates 0 "eve" "key" "eve@home"
    ∷ changes_password 0 1 "pw" "new"
    ∷ changes_email 2 "secret" "b@b"
    ∷ []

perform_all-IsValid_example : IsValid (perform_all plain pool calls).tables
perform_all-IsValid_example = perform_all-IsValid plain pool calls house-IsValid

-- After the registration of a third user.
abbrev registered : Pool
registered = (register_with_jwt plain one_token "s" 0 0 "eve" "key" "eve@home" pool).1

eve_registers :
    register_with_jwt plain one_token "s" 0 0 "eve" "key" "eve@home" pool ≡ (ok "token", registered)
unfolding register_with_jwt create_user username_exists insert_user generate_jwt exec
eve_registers = refl

register-login_example :
    (validate_token_jwt one_token "s" 500 "token"
      ≡ (if ltb 500 (0 + hours 24) then ok (show pool.tables.next_user) else err failed))
    × ((authenticate_user plain "eve" "key" registered).0 ≡ ok pool.tables.next_user)
register-login_example =
    register-login plain plain-Hashes one_token one_token-Signs "s" pool registered 0 0 500 "eve"
      "key" "eve@home" "token" pool-Up eve_registers (omega arith)

-- After ann has changed her password.
abbrev moved : Pool
moved = (change_password plain 0 1 "pw" "new" pool).1

ann_changes : change_password plain 0 1 "pw" "new" pool ≡ (ok tt, moved)
unfolding change_password user_by_id set_password first_where exec
ann_changes = refl

authenticate-change_password_example :
    ((authenticate_user plain "ann" "new" moved).0 ≡ ok 1)
    × ((authenticate_user plain "bob" "secret" moved).0
        ≡ (authenticate_user plain "bob" "secret" pool).0)
unfolding first_where
authenticate-change_password_example =
    authenticate-change_password plain plain-Hashes pool moved 0 1 "pw" "new" "ann" "bob" "secret"
      ann bob pool-Up ann_changes refl refl refl refl

-- A session of ann that has 10 hours left.
abbrev late_session : Timed
late_session = ("session:t", ("1", hours 24)) ∷ []

abbrev renewed_session : Timed
renewed_session = ("session:t", ("1", hours 38)) ∷ []

accepted :
    validate_token_session memory_keys late_session (hours 14) "t" ≡ ok ("1", renewed_session)
unfolding validate_token_session validate_got renew lookup insert
accepted = refl
