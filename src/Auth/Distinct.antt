-- ===== src/Auth/Distinct.antt =====
-- The table of users: its names and IDs stay distinct under every statement.
use smarthome_backend.Prelude.{
  ℕ, ◌+◌, ◌<◌, String, ◌≡◌, refl, string_Eq, nat_Eq, nat_eq_iff, eq_iff, Bool, false, List, [], ◌∷◌,
  ◌++◌, any, any-append, All, All-append, arith, Bool-cases, inl, inr,
}
use smarthome_backend.Database.{User, Tables, update_where}
use smarthome_backend.Auth.{is_named, is_user, insert_user, set_password, set_email}

abbrev pub Distinct : List User → Type 0
Distinct [] = Unit
Distinct (u ∷ l) =
    (any (is_named u.username) l ≡ false) × (any (is_user u.id) l ≡ false) × Distinct l

pub record IsValid (t : Tables) : Type 0 where
  pub distinct : Distinct t.users
  pub below : All (λ (u : User). u.id < t.next_user) t.users

-- A new ID is not in use.
pub below-any : (l : List User) (n : ℕ) → All (λ (u : User). u.id < n) l → any (is_user n) l ≡ false
below-any [] n h = refl
below-any (u ∷ l) n h = ground (arith, below-any l n h.1, nat_eq_iff u.id n)

pub weaken_below :
    (n : ℕ) (l : List User) → All (λ (u : User). u.id < n) l → All (λ (u : User). u.id < n + 1) l
weaken_below n [] k = tt
weaken_below n (u ∷ l) k = (omega (arith, k.0), weaken_below n l k.1)

Distinct-snoc :
    (l : List User) (u : User)
    → Distinct l
    → any (is_named u.username) l ≡ false
    → any (is_user u.id) l ≡ false
    → Distinct (l ++ u ∷ [])
Distinct-snoc [] u d n i = (refl, refl, tt)
Distinct-snoc (x ∷ l) u d n i = (
  ground (
    arith,
    any-append (is_named x.username) l (u ∷ []),
    eq_iff u.username x.username,
    eq_iff x.username u.username,
  ),
  ground (arith, any-append (is_user x.id) l (u ∷ []), nat_eq_iff u.id x.id, nat_eq_iff x.id u.id),
  Distinct-snoc l u d.2 (ground arith) (ground arith),
)

-- An update that leaves names and IDs alone.
module _ (test : User → Bool) (f : User → User) (names : (u : User) → (f u).username ≡ u.username)
    (ids : (u : User) → (f u).id ≡ u.id) where
  any_named-update :
      (n : String) (l : List User) → any (is_named n) (update_where test f l) ≡ any (is_named n) l
  unfolding update_where
  any_named-update n [] = refl
  any_named-update n (u ∷ l) = elim (Bool-cases (test u)) [
    | inl here ↦ rw (here, names u, any_named-update n l) refl
    | inr other ↦ rw (other, any_named-update n l) refl
  ]

  any_user-update :
      (i : ℕ) (l : List User) → any (is_user i) (update_where test f l) ≡ any (is_user i) l
  unfolding update_where
  any_user-update i [] = refl
  any_user-update i (u ∷ l) = elim (Bool-cases (test u)) [
    | inl here ↦ rw (here, ids u, any_user-update i l) refl
    | inr other ↦ rw (other, any_user-update i l) refl
  ]

  update-Distinct : (l : List User) → Distinct l → Distinct (update_where test f l)
  unfolding update_where
  update-Distinct [] d = tt
  update-Distinct (u ∷ l) d = elim (Bool-cases (test u)) [
    | inl here ↦
        rw (here, names u, ids u, any_named-update u.username l, any_user-update u.id l)
          (d.0, d.1, update-Distinct l d.2)
    | inr other ↦
        rw (other, any_named-update u.username l, any_user-update u.id l)
          (d.0, d.1, update-Distinct l d.2)
  ]

  update-below :
      (n : ℕ) (l : List User)
      → All (λ (u : User). u.id < n) l
      → All (λ (u : User). u.id < n) (update_where test f l)
  unfolding update_where
  update-below n [] h = tt
  update-below n (u ∷ l) h = elim (Bool-cases (test u)) [
    | inl here ↦ rw (here, ids u) (h.0, update-below n l h.1)
    | inr other ↦ rw other (h.0, update-below n l h.1)
  ]

pub insert_user-IsValid :
    (t : Tables) (name password email : String)
    → IsValid t
    → any (is_named name) t.users ≡ false
    → IsValid (insert_user name password email t).1
unfolding insert_user
insert_user-IsValid t name password email h fresh = record {
  distinct = Distinct-snoc t.users _ h.distinct fresh (below-any t.users t.next_user h.below);
  below = All-append _ t.users _ (weaken_below t.next_user t.users h.below) (omega arith, tt);
}

pub set_password-IsValid :
    (t : Tables) (id : ℕ) (password : String) → IsValid t → IsValid (set_password id password t).1
unfolding set_password
set_password-IsValid t id password h = record {
  distinct =
      update-Distinct (is_user id) (λ u. record u { password = password }) (λ u. refl) (λ u. refl)
        t.users h.distinct;
  below =
      update-below (is_user id) (λ u. record u { password = password }) (λ u. refl) (λ u. refl)
        t.next_user t.users h.below;
}

pub set_email-IsValid :
    (t : Tables) (id : ℕ) (email : String) → IsValid t → IsValid (set_email id email t).1
unfolding set_email
set_email-IsValid t id email h = record {
  distinct =
      update-Distinct (is_user id) (λ u. record u { email = email }) (λ u. refl) (λ u. refl) t.users
        h.distinct;
  below =
      update-below (is_user id) (λ u. record u { email = email }) (λ u. refl) (λ u. refl)
        t.next_user t.users h.below;
}
