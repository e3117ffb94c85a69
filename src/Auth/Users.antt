-- ===== src/Auth/Users.antt =====
-- auth/auth.go: the table of users over sequences of operations.
use smarthome_backend.Prelude.{
  ℕ, ◌+◌, String, string_Eq, nat_Eq, List, [], ◌∷◌, any, Bool-cases, Option-cases, inl, inr,
}
use smarthome_backend.Database.{Statement, Pool, exec, first_where}
use smarthome_backend.Auth.Libraries.{Bcrypt}
use smarthome_backend.Auth.{
  is_named, is_user, username_exists, insert_user, user_by_id, set_password, set_email, create_user,
  change_password, change_email,
}
use smarthome_backend.Auth.Distinct.{
  IsValid, insert_user-IsValid, set_password-IsValid, set_email-IsValid,
}

-- An operation on the users.
pub data Call : Type 0 where
  creates : (salt : ℕ) (username password email : String) → Call
  changes_password : (salt user_id : ℕ) (old_password new_password : String) → Call
  changes_email : (user_id : ℕ) (password new_email : String) → Call

module _ (B : Bcrypt) where
  unfoldable pub perform : Pool → Call → Pool
  perform p (creates salt name password email) = (create_user B salt name password email p).1
  perform p (changes_password salt id old new) = (change_password B salt id old new p).1
  perform p (changes_email id password email) = (change_email B id password email p).1

  unfoldable pub perform_all : Pool → List Call → Pool
  unfolding perform
  perform_all p [] = p
  perform_all p (c ∷ cs) = perform_all (perform p c) cs

  -- A statement that is not reached changes nothing.
  exec-IsValid :
      {A : Type 0} (p : Pool) (f : Statement A)
      → IsValid p.tables
      → IsValid (f p.tables).1
      → IsValid (exec p f).1.tables
  unfolding exec
  exec-IsValid p f h k = elim (Bool-cases (p.answers p.calls)) [
    | inl reached ↦ rw reached k
    | inr lost ↦ rw lost h
  ]

  create_user-IsValid :
      (p : Pool) (salt : ℕ) (name password email : String)
      → IsValid p.tables
      → IsValid (create_user B salt name password email p).1.tables
  unfolding create_user username_exists exec
  create_user-IsValid p salt name password email h = elim (Bool-cases (p.answers p.calls)) [
    | inr lost ↦ rw lost h
    | inl reached ↦ rw reached (elim (Bool-cases (any (is_named name) p.tables.users)) [
      | inl taken ↦ rw taken h
      | inr fresh ↦ rw fresh (elim (Option-cases (B.hash salt password)) [
        | inl refused ↦ rw refused h
        | inr (hashed, made) ↦ rw made (
            exec-IsValid (record p { calls = p.calls + 1 }) (insert_user name hashed email) h
              (insert_user-IsValid p.tables name hashed email h fresh))
      ])
    ])
  ]

  -- Both changes read the user and test the password first.
  module _ (p : Pool) (h : IsValid p.tables) (id : ℕ) where
    change_email-IsValid :
        (password email : String) → IsValid (change_email B id password email p).1.tables
    unfolding change_email user_by_id exec
    change_email-IsValid password email = elim (Bool-cases (p.answers p.calls)) [
      | inr lost ↦ rw lost h
      | inl reached ↦ rw reached (elim (Option-cases (first_where (is_user id) p.tables.users)) [
        | inl absent ↦ rw absent h
        | inr (u, found) ↦ rw found (elim (Bool-cases (B.matches u.password password)) [
          | inr wrong ↦ rw wrong h
          | inl right ↦ rw right (
              exec-IsValid (record p { calls = p.calls + 1 }) (set_email id email) h
                (set_email-IsValid p.tables id email h))
        ])
      ])
    ]

    change_password-IsValid :
        (salt : ℕ) (old new : String) → IsValid (change_password B salt id old new p).1.tables
    unfolding change_password user_by_id exec
    change_password-IsValid salt old new = elim (Bool-cases (p.answers p.calls)) [
      | inr lost ↦ rw lost h
      | inl reached ↦ rw reached (elim (Option-cases (first_where (is_user id) p.tables.users)) [
        | inl absent ↦ rw absent h
        | inr (u, found) ↦ rw found (elim (Bool-cases (B.matches u.password old)) [
          | inr wrong ↦ rw wrong h
          | inl right ↦ rw right (elim (Option-cases (B.hash salt new)) [
            | inl refused ↦ rw refused h
            | inr (hashed, made) ↦ rw made (
                exec-IsValid (record p { calls = p.calls + 1 }) (set_password id hashed) h
                  (set_password-IsValid p.tables id hashed h))
          ])
        ])
      ])
    ]

  perform-IsValid : (p : Pool) (c : Call) → IsValid p.tables → IsValid (perform p c).tables
  unfolding perform
  perform-IsValid p (creates salt name password email) h =
      create_user-IsValid p salt name password email h
  perform-IsValid p (changes_password salt id old new) h =
      change_password-IsValid p h id salt old new
  perform-IsValid p (changes_email id password email) h = change_email-IsValid p h id password email

  -- Where user names and IDs are distinct and the IDs below the next one, they are so after every
  -- sequence of registrations and of changes of passwords and emails, one after another, whichever
  -- of their statements the database answers.
  pub perform_all-IsValid :
      (p : Pool) (cs : List Call) → IsValid p.tables → IsValid (perform_all p cs).tables
  unfolding perform_all
  perform_all-IsValid p [] h = h
  perform_all-IsValid p (c ∷ cs) h = perform_all-IsValid (perform p c) cs (perform-IsValid p c h)
