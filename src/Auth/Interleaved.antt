-- ===== src/Auth/Interleaved.antt =====
-- auth/auth.go: several calls of createUser at once. A step of a call goes up to its next statement
-- to the database; the statements of different calls may come in any order.
use smarthome_backend.Prelude.{
  ℕ, zero, suc, String, ◌≡◌, refl, string_Eq, nat_Eq, Bool, true, false, List, [], ◌∷◌, Option,
  none, some, any, Bool-cases, Option-cases, inl, inr,
}
use smarthome_backend.Database.{Pool, exec}
use smarthome_backend.Auth.Libraries.{Bcrypt}
use smarthome_backend.Auth.{
  Result, err, failed, username_taken, or_error, is_named, username_exists, insert_user,
  create_user,
}

pub record Registration : Type 0 where
  pub salt : ℕ
  pub username : String
  pub password : String
  pub email : String

-- Where a call stands: before the look-up of the name, before the insertion, or done.
pub data Stage : Type 0 where
  looking : Stage
  inserting : String → Stage
  done : Result ℕ → Stage

-- After the look-up comes bcrypt.
abbrev pub hashed_to : Option String → Stage
hashed_to none = done (err failed)
hashed_to (some hashed) = inserting hashed

abbrev pub looked_up : Option String → Option Bool → Stage
looked_up hashed none = done (err failed)
looked_up hashed (some true) = done (err username_taken)
looked_up hashed (some false) = hashed_to hashed

module _ (B : Bcrypt) where
  unfoldable pub advance : Registration → Stage → Pool → Stage × Pool
  advance r looking p =
      let (exists, p') = exec p (username_exists r.username) in
      (looked_up (B.hash r.salt r.password) exists, p')
  advance r (inserting hashed) p =
      let (id, p') = exec p (insert_user r.username hashed r.email) in
      (done (or_error failed id), p')
  advance r (done result) p = (done result, p)

  abbrev pub Calls : Type 0
  Calls = List (Registration × Stage)

  -- The numbered call takes a step; a number of no call does nothing.
  unfoldable pub step : ℕ → Calls → Pool → Calls × Pool
  step i [] p = ([], p)
  step zero ((r, stage) ∷ calls) p =
      let (stage', p') = advance r stage p in ((r, stage') ∷ calls, p')
  step (suc i) ((r, stage) ∷ calls) p =
      let (calls', p') = step i calls p in ((r, stage) ∷ calls', p')

  unfoldable pub run : List ℕ → Calls → Pool → Calls × Pool
  run [] calls p = (calls, p)
  run (i ∷ is) calls p = let (calls', p') = step i calls p in run is calls' p'

  -- A call whose steps nothing comes between is that of the sequential program.
  pub advance-create_user :
      (r : Registration) (p : Pool)
      → let (stage, p') = advance r looking p in
        advance r stage p' ≡ (
          done (create_user B r.salt r.username r.password r.email p).0,
          (create_user B r.salt r.username r.password r.email p).1,
        )
  unfolding advance create_user username_exists exec
  advance-create_user r p = elim (Bool-cases (p.answers p.calls)) [
    | inr lost ↦ rw lost refl
    | inl reached ↦ rw reached (elim (Bool-cases (any (is_named r.username) p.tables.users)) [
      | inl taken ↦ rw taken refl
      | inr fresh ↦ rw fresh (elim (Option-cases (B.hash r.salt r.password)) [
        | inl refused ↦ rw refused refl
        | inr (hashed, made) ↦ rw made refl
      ])
    ])
  ]
