-- ===== src/Auth/Races.antt =====
-- What holds of the table of users under every order of the statements of several registrations, and
-- what does not.
use smarthome_backend.Prelude.{
  ℕ, zero, suc, ◌+◌, ◌<◌, String, ◌≡◌, refl, string_Eq, nat_Eq, nat_eq_iff, true, false, List, [],
  ◌∷◌, ◌++◌, some, any, any-append, All, All-append, Bool-cases, inl, inr, arith,
}
use smarthome_backend.Database.{User, Tables, Pool, exec}
use smarthome_backend.Database.Schedules.{Up}
use smarthome_backend.Auth.Libraries.{Bcrypt}
use smarthome_backend.Auth.{ok, is_named, is_user, username_exists, insert_user}
use smarthome_backend.Auth.Distinct.{below-any, weaken_below}
use smarthome_backend.Auth.Interleaved.{
  Registration, Stage, looking, inserting, done, advance, Calls, step, run,
}

abbrev pub DistinctIds : List User → Type 0
DistinctIds [] = Unit
DistinctIds (u ∷ l) = (any (is_user u.id) l ≡ false) × DistinctIds l

-- IDs are distinct and below the next one.
pub record IsNumbered (t : Tables) : Type 0 where
  pub distinct : DistinctIds t.users
  pub below : All (λ (u : User). u.id < t.next_user) t.users

DistinctIds-snoc :
    (l : List User) (u : User)
    → DistinctIds l
    → any (is_user u.id) l ≡ false
    → DistinctIds (l ++ u ∷ [])
DistinctIds-snoc [] u d i = (refl, tt)
DistinctIds-snoc (x ∷ l) u d i = (
  ground (arith, any-append (is_user x.id) l (u ∷ []), nat_eq_iff u.id x.id, nat_eq_iff x.id u.id),
  DistinctIds-snoc l u d.1 (ground arith),
)

insert_user-IsNumbered :
    (t : Tables) (name password email : String)
    → IsNumbered t
    → IsNumbered (insert_user name password email t).1
unfolding insert_user
insert_user-IsNumbered t name password email h = record {
  distinct = DistinctIds-snoc t.users _ h.distinct (below-any t.users t.next_user h.below);
  below = All-append _ t.users _ (weaken_below t.next_user t.users h.below) (omega arith, tt);
}

module _ (B : Bcrypt) where
  advance-IsNumbered :
      (r : Registration) (stage : Stage) (p : Pool)
      → IsNumbered p.tables
      → IsNumbered (advance B r stage p).1.tables
  unfolding advance exec username_exists
  advance-IsNumbered r looking p h = elim (Bool-cases (p.answers p.calls)) [
    | inl reached ↦ rw reached h
    | inr lost ↦ rw lost h
  ]
  advance-IsNumbered r (inserting hashed) p h = elim (Bool-cases (p.answers p.calls)) [
    | inl reached ↦ rw reached (insert_user-IsNumbered p.tables r.username hashed r.email h)
    | inr lost ↦ rw lost h
  ]
  advance-IsNumbered r (done result) p h = h

  step-IsNumbered :
      (i : ℕ) (calls : Calls B) (p : Pool)
      → IsNumbered p.tables
      → IsNumbered (step B i calls p).1.tables
  unfolding step
  step-IsNumbered zero [] p h = h
  step-IsNumbered (suc i) [] p h = h
  step-IsNumbered zero ((r, stage) ∷ calls) p h = advance-IsNumbered r stage p h
  step-IsNumbered (suc i) ((r, stage) ∷ calls) p h = step-IsNumbered i calls p h

  -- Whatever the order of the steps of any registrations is, and whichever of their statements the
  -- database answers: where the IDs of the users are distinct and below the next one, they are so
  -- afterwards.
  pub run-IsNumbered :
      (order : List ℕ) (calls : Calls B) (p : Pool)
      → IsNumbered p.tables
      → IsNumbered (run B order calls p).1.tables
  unfolding run
  run-IsNumbered [] calls p h = h
  run-IsNumbered (i ∷ order) calls p h =
      run-IsNumbered order (step B i calls p).0 (step B i calls p).1 (step-IsNumbered i calls p h)

  advance-looks :
      (r : Registration) (p : Pool) (hashed : String)
      → p.answers p.calls ≡ true
      → any (is_named r.username) p.tables.users ≡ false
      → B.hash r.salt r.password ≡ some hashed
      → advance B r looking p ≡ (inserting hashed, record p { calls = p.calls + 1 })
  unfolding advance username_exists exec
  advance-looks r p hashed up fresh made = rw (up, fresh, made) refl

  advance-inserts :
      (r : Registration) (p : Pool) (hashed : String)
      → p.answers p.calls ≡ true
      → advance B r (inserting hashed) p ≡ (
        done (ok p.tables.next_user),
        record p {
          tables = (insert_user r.username hashed r.email p.tables).1;
          calls = p.calls + 1;
        },
      )
  unfolding advance insert_user exec
  advance-inserts r p hashed up = rw up refl

  -- Two registrations of one name that no user has, both of whose passwords bcrypt takes, both look
  -- the name up before one of them inserts it: where the database answers, both succeed, and two
  -- users of that name follow in the table.
  pub run-duplicates :
      (a b : Registration) (p : Pool) (hashed hashed' : String)
      → Up p
      → b.username ≡ a.username
      → any (is_named a.username) p.tables.users ≡ false
      → B.hash a.salt a.password ≡ some hashed
      → B.hash b.salt b.password ≡ some hashed'
      → let (calls, p') = run B (0 ∷ 1 ∷ 0 ∷ 1 ∷ []) ((a, looking) ∷ (b, looking) ∷ []) p in
        let id = p.tables.next_user in
        let first : User = record {
          id = id;
          username = a.username;
          password = hashed;
          email = a.email;
        } in
        let second : User = record {
          id = id + 1;
          username = a.username;
          password = hashed';
          email = b.email;
        } in
        (calls ≡ (a, done (ok id)) ∷ (b, done (ok (id + 1))) ∷ [])
        × (p'.tables.users ≡ (p.tables.users ++ first ∷ []) ++ second ∷ [])
  unfolding run step insert_user
  run-duplicates a b p hashed hashed' up same fresh made made' =
      let p1 : Pool = record p { calls = p.calls + 1 } in
      let p2 : Pool = record p { calls = p.calls + 1 + 1 } in
      let p3 : Pool = record p2 {
        tables = (insert_user a.username hashed a.email p.tables).1;
        calls = p2.calls + 1;
      } in
      rw
        (
          advance-looks a p hashed (up.reached p.calls) fresh made,
          advance-looks b p1 hashed' (up.reached p1.calls) (rw same fresh) made',
          advance-inserts a p2 hashed (up.reached p2.calls),
          advance-inserts b p3 hashed' (up.reached p3.calls),
          same,
        )
        (refl, refl)
