-- ===== src/Web/Devices/Foreign.antt =====
-- internal/web/api/devices.go: the devices of others, over the requests of a user.
use smarthome_backend.Prelude.{
  String, ◌≡◌, refl, string_Eq, eq_iff, Bool, true, false, not, List, [], ◌∷◌, some, any, arith,
  Bool-cases, inl, inr,
}
use smarthome_backend.Models.{Device}
use smarthome_backend.Database.{
  first_where, select_where, delete_where, update_where, has_device_id,
}
use smarthome_backend.Web.Devices.{owns}

-- The ID is the primary key.
abbrev pub HasKeys : List Device → Type 0
HasKeys [] = Unit
HasKeys (d ∷ l) = (any (has_device_id d.id) l ≡ false) × HasKeys l

abbrev pub is_foreign : String → Device → Bool
is_foreign user_id d = not (owns user_id d.owner_id)

abbrev pub foreign : String → List Device → List Device
foreign user_id = select_where (is_foreign user_id)

abbrev pub renamed_to : String → Device → Device
renamed_to name d = record d { name = name }

module _ (id name : String) where
  update_where-absent :
      (l : List Device)
      → any (has_device_id id) l ≡ false
      → update_where (has_device_id id) (renamed_to name) l ≡ l
  unfolding update_where
  update_where-absent [] h = refl
  update_where-absent (d ∷ l) h = elim (Bool-cases (has_device_id id d)) [
    | inl here ↦ ground arith
    | inr other ↦ rw (other, update_where-absent l (rw other at h)) refl
  ]

  any-update_where :
      (key : String) (l : List Device)
      → any (has_device_id key) (update_where (has_device_id id) (renamed_to name) l)
        ≡ any (has_device_id key) l
  unfolding update_where
  any-update_where key [] = refl
  any-update_where key (d ∷ l) = elim (Bool-cases (has_device_id id d)) [
    | inl here ↦ rw (here, any-update_where key l) refl
    | inr other ↦ rw (other, any-update_where key l) refl
  ]

  pub update_where-HasKeys :
      (l : List Device) → HasKeys l → HasKeys (update_where (has_device_id id) (renamed_to name) l)
  unfolding update_where
  update_where-HasKeys [] h = tt
  update_where-HasKeys (d ∷ l) h = elim (Bool-cases (has_device_id id d)) [
    | inl here ↦ rw (here, any-update_where d.id l) (h.0, update_where-HasKeys l h.1)
    | inr other ↦ rw (other, any-update_where d.id l) (h.0, update_where-HasKeys l h.1)
  ]

delete_where-absent :
    (id : String) (l : List Device)
    → any (has_device_id id) l ≡ false
    → delete_where (has_device_id id) l ≡ l
unfolding delete_where
delete_where-absent id [] h = refl
delete_where-absent id (d ∷ l) h = elim (Bool-cases (has_device_id id d)) [
  | inl here ↦ ground arith
  | inr other ↦ rw (other, delete_where-absent id l (rw other at h)) refl
]

any-delete_where :
    (id key : String) (l : List Device)
    → any (has_device_id key) l ≡ false
    → any (has_device_id key) (delete_where (has_device_id id) l) ≡ false
unfolding delete_where
any-delete_where id key [] h = refl
any-delete_where id key (d ∷ l) h = elim (Bool-cases (has_device_id id d)) [
  | inl here ↦ rw here (any-delete_where id key l (ground arith))
  | inr other ↦ rw other (ground (arith, any-delete_where id key l))
]

pub delete_where-HasKeys :
    (id : String) (l : List Device) → HasKeys l → HasKeys (delete_where (has_device_id id) l)
unfolding delete_where
delete_where-HasKeys id [] h = tt
delete_where-HasKeys id (d ∷ l) h = elim (Bool-cases (has_device_id id d)) [
  | inl here ↦ rw here (delete_where-HasKeys id l h.1)
  | inr other ↦ rw other (any-delete_where id d.id l h.0, delete_where-HasKeys id l h.1)
]

-- The row with a key is the only one.
key-lem :
    (id : String) (x : Device) (l : List Device)
    → HasKeys (x ∷ l)
    → has_device_id id x ≡ true
    → any (has_device_id id) l ≡ false
key-lem id x l h here = rw (← ((eq_iff x.id id).0 here)) h.0

module _ (user_id id : String) (d : Device) (mine : owns user_id d.owner_id ≡ true) where
  pub foreign-update_where :
      (name : String) (l : List Device)
      → HasKeys l
      → first_where (has_device_id id) l ≡ some d
      → foreign user_id (update_where (has_device_id id) (renamed_to name) l) ≡ foreign user_id l
  unfolding update_where first_where select_where
  foreign-update_where name [] h found = refl
  foreign-update_where name (x ∷ l) h found = elim (Bool-cases (has_device_id id x)) [
    | inl here ↦
        let same : x ≡ d = ground (arith, rw here at found) in
        rw (here, update_where-absent id name l (key-lem id x l h here), same, mine) refl
    | inr other ↦ rw (other, foreign-update_where name l h.1 (rw other at found)) refl
  ]

  pub foreign-delete_where :
      (l : List Device)
      → HasKeys l
      → first_where (has_device_id id) l ≡ some d
      → foreign user_id (delete_where (has_device_id id) l) ≡ foreign user_id l
  unfolding delete_where first_where select_where
  foreign-delete_where [] h found = refl
  foreign-delete_where (x ∷ l) h found = elim (Bool-cases (has_device_id id x)) [
    | inl here ↦
        let same : x ≡ d = ground (arith, rw here at found) in
        rw (here, delete_where-absent id l (key-lem id x l h here), same, mine) refl
    | inr other ↦ rw (other, foreign-delete_where l h.1 (rw other at found)) refl
  ]
