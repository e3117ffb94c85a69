-- ===== src/Web/Accounts/Registered.antt =====
-- internal/web/api/auth.go with internal/web/api/user.go: an account from its registration on.
use smarthome_backend.Prelude.{
  ℕ, ◌+◌, ◌<◌, ◌^◌, String, ◌≡◌, refl, string_Eq, eq_refl, false, List, [], ◌∷◌, ◌++◌, some, any,
  ltb, arith, if◌then◌else◌, Bool-cases, inl, inr,
}
use smarthome_backend.Prelude.Decimal.{show}
use smarthome_backend.Redis.{Redis}
use smarthome_backend.Cron.{Cron}
use smarthome_backend.Database.{User, exec, first_where, has_user_id}
use smarthome_backend.Database.Schedules.{Up}
use smarthome_backend.Auth.Libraries.{Bcrypt, Jwt, Signs}
use smarthome_backend.Auth.{
  is_named, username_exists, insert_user, create_user, generate_jwt, register_with_jwt, hours,
}
use smarthome_backend.Auth.Tokens.{validate-generate}
use smarthome_backend.Web.{error, token, user, reply, Site, require_auth}
use smarthome_backend.Web.Accounts.{RegisterRequest, user_row, me, register}

user_row-snoc :
    (id : String) (l : List User) (u : User)
    → any (has_user_id id) l ≡ false
    → show u.id ≡ id
    → first_where (has_user_id id) (l ++ u ∷ []) ≡ some u
unfolding first_where
user_row-snoc id [] u h e = rw (e, eq_refl id) refl
user_row-snoc id (x ∷ l) u h e = elim (Bool-cases (has_user_id id x)) [
  | inl here ↦ ground arith
  | inr other ↦ rw (other, user_row-snoc id l u (rw other at h) e) refl
]

module _ (R : Redis) (C : Cron) (B : Bcrypt) (J : Jwt) (signs : Signs J)
    (secret agent_id : String) where
  -- While the database answers, a request to register with a name that is not in the table, where
  -- the next ID of a user is not in use and below 2 ^ 53, a password that bcrypt takes and claims that can be signed answers 201 with the token and the ID
  -- of the agent; a request for the own account with that token then answers 200 with the ID, the
  -- email and the name for 24 hours, and 401 after that.
  pub me-register :
      (salt now later : ℕ) (name password email hashed t : String) (s : Site R C)
      → Up s.engine.pool
      → any (is_named name) s.engine.pool.tables.users ≡ false
      → any (has_user_id (show s.engine.pool.tables.next_user)) s.engine.pool.tables.users ≡ false
      → s.engine.pool.tables.next_user < 2 ^ 53
      → B.hash salt password ≡ some hashed
      → generate_jwt J secret now s.engine.pool.tables.next_user ≡ some t
      → let id = show s.engine.pool.tables.next_user in
        let request : RegisterRequest = record {
          username = name;
          password = password;
          email = email;
        } in
        let (r, s') = register R C B J secret agent_id salt now (some request) s in
        (r ≡ reply 201 (token t agent_id))
        × ((require_auth R C J secret later t (me R C) s').0 ≡ (
            if ltb later (now + hours 24)
            then reply 200 (user id email name)
            else reply 401 (error "Unauthorized")))
  unfolding register register_with_jwt create_user username_exists insert_user exec require_auth me
      user_row
  me-register salt now later name password email hashed t s up fresh unused small made signed =
      let p = s.engine.pool in
      rw
        (
          up.reached p.calls,
          fresh,
          made,
          up.reached (p.calls + 1),
          signed,
          validate-generate J signs secret now later p.tables.next_user t signed small,
        )
        (
          refl,
          elim (Bool-cases (ltb later (now + hours 24))) [
            | inr late ↦ rw late refl
            | inl early ↦
                rw
                  (
                    early,
                    up.reached (p.calls + 1 + 1),
                    user_row-snoc (show p.tables.next_user) p.tables.users
                        (record {
                          id = p.tables.next_user;
                          username = name;
                          password = hashed;
                          email = email;
                        })
                        unused refl,
                  )
                  refl
          ],
        )
