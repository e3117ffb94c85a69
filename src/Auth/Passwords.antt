-- ===== src/Auth/Passwords.antt =====
-- auth/auth.go: changing a password, seen through the logins after it.
use smarthome_backend.Prelude.{
  ℕ, ◌+◌, String, ◌≡◌, refl, sym, ◌∙◌, ap, ◌==◌, string_Eq, nat_Eq, nat_eq_iff, Bool, true, false,
  List, [], ◌∷◌, Option, none, some, if◌then◌else◌, Bool-cases, Option-cases, inl, inr,
}
use smarthome_backend.Database.{User, Pool, exec, first_where, update_where}
use smarthome_backend.Database.Schedules.{Up}
use smarthome_backend.Auth.Libraries.{Bcrypt, Hashes}
use smarthome_backend.Auth.{
  Result, ok, err, invalid_credentials, is_named, is_user, user_by_name, user_by_id, set_password,
  authenticate_user, change_password,
}

-- The row that a query finds after an update that keeps what the query tests.
abbrev updated_if : (User → Bool) → (User → User) → Option User → Option User
updated_if chosen f none = none
updated_if chosen f (some u) = some (if chosen u then f u else u)

first_where-update :
    (test chosen : User → Bool) (f : User → User) (l : List User)
    → ((u : User) → test (f u) ≡ test u)
    → first_where test (update_where chosen f l) ≡ updated_if chosen f (first_where test l)
unfolding first_where update_where
first_where-update test chosen f [] keep = refl
first_where-update test chosen f (u ∷ l) keep = elim (Bool-cases (test u)) [
  | inl here ↦ elim (Bool-cases (chosen u)) [
    | inl also ↦ rw (also, keep u, here, also) refl
    | inr not_chosen ↦ rw (not_chosen, here, not_chosen) refl
  ]
  | inr other ↦ elim (Bool-cases (chosen u)) [
    | inl also ↦ rw (also, keep u, other, first_where-update test chosen f l keep) refl
    | inr not_chosen ↦ rw (not_chosen, other, first_where-update test chosen f l keep) refl
  ]
]

module _ (B : Bcrypt) (hashes : Hashes B) where
  abbrev login : String → Option User → Result ℕ
  login password none = err invalid_credentials
  login password (some u) =
      if B.matches u.password password then ok u.id else err invalid_credentials

  -- What `authenticateUser` returns, while the database answers.
  pub authenticate_user_lem :
      (p : Pool) (name password : String)
      → Up p
      → (authenticate_user B name password p).0
        ≡ login password (first_where (is_named name) p.tables.users)
  unfolding authenticate_user user_by_name exec
  authenticate_user_lem p name password up =
      elim (Option-cases (first_where (is_named name) p.tables.users)) [
        | inl absent ↦ rw (up.reached p.calls, absent) refl
        | inr (u, found) ↦
            rw (up.reached p.calls, found)
              (elim (Bool-cases (B.matches u.password password)) [
                | inl right ↦ rw right refl
                | inr wrong ↦ rw wrong refl
              ])
      ]

  -- The tables after a change of password that goes through.
  changed :
      (p : Pool) (salt id : ℕ) (old new : String)
      → Up p
      → (change_password B salt id old new p).0 ≡ ok tt
      → (hashed : String) × (B.hash salt new ≡ some hashed)
        × ((change_password B salt id old new p).1.tables ≡ (set_password id hashed p.tables).1)
        × Up (change_password B salt id old new p).1
  unfolding change_password user_by_id set_password exec
  changed p salt id old new up done =
      elim (Option-cases (first_where (is_user id) p.tables.users)) [
        | inl absent ↦ let stopped = rw (up.reached p.calls, absent) at done in cc
        | inr (u, found) ↦ elim (Bool-cases (B.matches u.password old)) [
          | inr wrong ↦ let stopped = rw (up.reached p.calls, found, wrong) at done in cc
          | inl right ↦ elim (Option-cases (B.hash salt new)) [
            | inl refused ↦
                let stopped = rw (up.reached p.calls, found, right, refused) at done in cc
            | inr (hashed, made) ↦ (
              hashed,
              made,
              rw (up.reached p.calls, found, right, made, up.reached (p.calls + 1)) refl,
              rw (up.reached p.calls, found, right, made) (record { reached = up.reached }),
            )
          ]
        ]
      ]

  -- While the database answers: after a change of a user's password that goes through, the user's
  -- name logs in with the new password, and each name of a user with another ID logs in with the
  -- passwords with which it did before, and no others.
  pub authenticate-change_password :
      (p p' : Pool) (salt id : ℕ) (old new name other q : String) (u v : User)
      → Up p
      → change_password B salt id old new p ≡ (ok tt, p')
      → first_where (is_named name) p.tables.users ≡ some u
      → (u.id == id) ≡ true
      → first_where (is_named other) p.tables.users ≡ some v
      → (v.id == id) ≡ false
      → ((authenticate_user B name new p').0 ≡ ok id)
        × ((authenticate_user B other q p').0 ≡ (authenticate_user B other q p).0)
  unfolding set_password
  authenticate-change_password p p' salt id old new name other q u v up done found mine also
        not_mine =
      let (hashed, made, tables, up1) = changed p salt id old new up (ap (λ r. r.0) done) in
      let after : p'.tables ≡ (set_password id hashed p.tables).1 =
        sym (ap (λ r. r.1.tables) done) ∙ tables in
      let up' : Up p' = rw (ap (λ r. r.1) done) at up1 in
      let set = λ (w : User). record w { password = hashed } in
      (
        rw
            (
              authenticate_user_lem p' name new up',
              after,
              first_where-update (is_named name) (is_user id) set p.tables.users (λ w. refl),
              found,
              mine,
              hashes.matches-hash salt new hashed made,
            )
            (ap ok ((nat_eq_iff u.id id).0 mine)),
        rw
            (
              authenticate_user_lem p' other q up',
              authenticate_user_lem p other q up,
              after,
              first_where-update (is_named other) (is_user id) set p.tables.users (λ w. refl),
              also,
              not_mine,
            )
            refl,
      )
