-- ===== src/Auth/Tokens.antt =====
-- auth/auth.go: registering, seen through the token and the login after it.
use smarthome_backend.Prelude.{
  ℕ, ◌+◌, ◌<◌, ◌^◌, String, ◌≡◌, refl, ◌∙◌, ap, string_Eq, nat_Eq, eq_iff, true, false, List, [],
  ◌∷◌, ◌++◌, none, some, any, ltb, leb, arith, if◌then◌else◌, Bool-cases, Option-cases, inl, inr,
}
use smarthome_backend.Prelude.Decimal.{show}
use smarthome_backend.Json.Float.{Float64, whole_part}
use smarthome_backend.TaskQueue.Actions.{int_text}
use smarthome_backend.Database.{User, Pool, exec, first_where}
use smarthome_backend.Database.Schedules.{Up}
use smarthome_backend.Auth.Libraries.{Bcrypt, Hashes, Jwt, Signs, Claims}
use smarthome_backend.Auth.{
  ok, err, failed, username_taken, is_named, username_exists, insert_user, user_by_name,
  create_user, authenticate_user, generate_jwt, user_of, user_of_claims, verified,
  validate_token_jwt, register_with_jwt, hours,
}

int_text-whole :
    (f : Float64) (n : ℕ) → whole_part f ≡ n → f.negative ≡ false → n < 2 ^ 53 → int_text f ≡ show n
unfolding int_text
int_text-whole f n w s b = elim (Bool-cases (leb (2 ^ 63) n)) [
  | inl huge ↦ absurd (ground arith)
  | inr small ↦ rw (w, s, small) refl
]

first_where-snoc :
    (name : String) (l : List User) (u : User)
    → any (is_named name) l ≡ false
    → u.username ≡ name
    → first_where (is_named name) (l ++ u ∷ []) ≡ some u
unfolding first_where
first_where-snoc name [] u h e = ground (arith, eq_iff u.username name)
first_where-snoc name (x ∷ l) u h e = ground (arith, first_where-snoc name l u)

module _ (J : Jwt) (signs : Signs J) (secret : String) where
  pub validate-generate :
      (now later id : ℕ) (token : String)
      → generate_jwt J secret now id ≡ some token
      → id < 2 ^ 53
      → validate_token_jwt J secret later token
        ≡ (if ltb later (now + hours 24) then ok (show id) else err failed)
  unfolding generate_jwt validate_token_jwt
  validate-generate now later id token made small =
      let c : Claims = record { user_id = id; exp = now + hours 24; iat = now } in
      rw (signs.is_hmac-sign secret token c made, verified)
        (elim (Bool-cases (ltb later (now + hours 24))) [
          | inr late ↦
              rw
                (
                  signs.verify-expired secret token c later made (ground arith),
                  late,
                  user_of_claims,
                )
                refl
          | inl early ↦
              let (m, f, valid, claimed, whole, sign) =
                signs.verify-sign secret token c later made (ground arith) small in
              rw (valid, early, user_of_claims, claimed, user_of)
                (ap ok (int_text-whole f id whole sign small))
        ])

module _ (B : Bcrypt) (hashes : Hashes B) where
  -- How a registration ends while the database answers.
  module _ (p : Pool) (salt : ℕ) (name password email : String) (up : Up p) where
    create_user_taken :
        any (is_named name) p.tables.users ≡ true
        → (create_user B salt name password email p).0 ≡ err username_taken
    unfolding create_user username_exists exec
    create_user_taken taken = rw (up.reached p.calls, taken) refl

    create_user_refused :
        any (is_named name) p.tables.users ≡ false
        → B.hash salt password ≡ none
        → (create_user B salt name password email p).0 ≡ err failed
    unfolding create_user username_exists exec
    create_user_refused fresh refused = rw (up.reached p.calls, fresh, refused) refl

    create_user_made :
        (hashed : String)
        → any (is_named name) p.tables.users ≡ false
        → B.hash salt password ≡ some hashed
        → (create_user B salt name password email p).0 ≡ ok p.tables.next_user
    unfolding create_user username_exists insert_user exec
    create_user_made hashed fresh made =
        rw (up.reached p.calls, fresh, made, up.reached (p.calls + 1)) refl

  -- The user that a registration makes can log in.
  create-login :
      (p : Pool) (salt : ℕ) (name password email hashed : String)
      → Up p
      → any (is_named name) p.tables.users ≡ false
      → B.hash salt password ≡ some hashed
      → (authenticate_user B name password (create_user B salt name password email p).1).0
        ≡ ok p.tables.next_user
  unfolding create_user authenticate_user username_exists insert_user user_by_name exec
  create-login p salt name password email hashed up fresh made =
      rw
        (
          up.reached p.calls,
          fresh,
          made,
          up.reached (p.calls + 1),
          up.reached (p.calls + 1 + 1),
          first_where-snoc name p.tables.users
              (record {
                id = p.tables.next_user;
                username = name;
                password = hashed;
                email = email;
              })
              fresh refl,
          hashes.matches-hash salt password hashed made,
        )
        refl

  module _ (J : Jwt) (signs : Signs J) (secret : String) where
    -- While the database answers: if a registration gives a token, then that token stands for the
    -- new user's ID for 24 hours, and is refused after that; and the same name and password log in
    -- as that user.
    pub register-login :
        (p p' : Pool) (salt now later : ℕ) (name password email token : String)
        → Up p
        → register_with_jwt B J secret salt now name password email p ≡ (ok token, p')
        → p.tables.next_user < 2 ^ 53
        → (validate_token_jwt J secret later token
            ≡ (if ltb later (now + hours 24) then ok (show p.tables.next_user) else err failed))
          × ((authenticate_user B name password p').0 ≡ ok p.tables.next_user)
    unfolding register_with_jwt
    register-login p p' salt now later name password email token up done small =
        elim (Bool-cases (any (is_named name) p.tables.users)) [
          | inl taken ↦
              let stopped = rw (create_user_taken p salt name password email up taken) at done in cc
          | inr fresh ↦ elim (Option-cases (B.hash salt password)) [
            | inl refused ↦
                let stopped =
                  rw (create_user_refused p salt name password email up fresh refused) at done in
                cc
            | inr (hashed, made) ↦
                elim (Option-cases (generate_jwt J secret now p.tables.next_user)) [
                  | inl unsigned ↦
                      let stopped =
                        rw
                          (
                            create_user_made p salt name password email up hashed fresh made,
                            unsigned,
                          )
                          at done in
                      cc
                  | inr (signed, given) ↦
                      let ended =
                        rw (create_user_made p salt name password email up hashed fresh made, given)
                          at done in
                      let same : signed ≡ token = cc (ap (λ r. r.0) ended) in
                      (
                        validate-generate J signs secret now later p.tables.next_user token
                            (given ∙ ap some same) small,
                        rw (← ap (λ r. r.1) ended)
                            (create-login p salt name password email hashed up fresh made),
                      )
                ]
          ]
        ]
