-- ===== src/Engine/Devices.antt =====
-- The devices that a condition tree names.
use smarthome_backend.Prelude.{
  String, ◌≡◌, refl, ◌==◌, string_Eq, eq_iff, Bool, false, not, ◌&&◌, ◌||◌, List, [], ◌∷◌, contains,
  arith, Bool-cases, inl, inr,
}
use smarthome_backend.Models.{Condition, condition, Conditions, no_more, child}
use smarthome_backend.Engine.{
  mark, mark_all, mark_device, from_condition, from_conditions, extract_device_ids,
}

-- A condition of the tree names the device.
unfoldable mutual
  pub names : String → Condition → Bool
  names id (condition n children) = n.device_id == id && not (id == "") || any_names id children

  pub any_names : String → Conditions → Bool
  any_names id no_more = false
  any_names id (child c rest) = names id c || any_names id rest

contains-mark :
    (id x : String) (ids : List String) → contains id (mark x ids) ≡ (x == id) || contains id ids
unfolding mark
contains-mark id x ids = elim (Bool-cases (contains x ids)) [
  | inr absent ↦ rw absent refl
  | inl present ↦ elim (Bool-cases (x == id)) [
    | inl same ↦ rw (present, same, ← (eq_iff x id).0 same) present
    | inr other ↦ rw (present, other) refl
  ]
]

contains-mark_all :
    (id : String) (more ids : List String)
    → contains id (mark_all more ids) ≡ contains id more || contains id ids
unfolding mark_all
contains-mark_all id [] ids = refl
contains-mark_all id (x ∷ more) ids =
    ground (arith, contains-mark_all id more (mark x ids), contains-mark id x ids)

contains-mark_device :
    (id d : String) (ids : List String)
    → contains id (mark_device d ids) ≡ (d == id && not (id == "")) || contains id ids
unfolding mark_device
contains-mark_device id d ids = elim (Bool-cases (d == "")) [
  | inl absent ↦ rw absent (ground (arith, eq_iff d id, eq_iff d "", eq_iff id ""))
  | inr present ↦
      rw (present, contains-mark id d ids) (ground (arith, eq_iff d id, eq_iff d "", eq_iff id ""))
]

mutual
  unfolding from_condition names

  contains-from_condition :
      (id : String) (c : Condition) (ids : List String)
      → contains id (from_condition c ids) ≡ names id c || contains id ids
  contains-from_condition id (condition n children) ids = ground (
    arith,
    contains-from_conditions id children [],
    contains-mark_all id (from_conditions children []) (mark_device n.device_id ids),
    contains-mark_device id n.device_id ids,
  )

  contains-from_conditions :
      (id : String) (cs : Conditions) (ids : List String)
      → contains id (from_conditions cs ids) ≡ any_names id cs || contains id ids
  contains-from_conditions id no_more ids = refl
  contains-from_conditions id (child c rest) ids = ground (
    arith,
    contains-from_condition id c ids,
    contains-from_conditions id rest (from_condition c ids),
  )

-- The device IDs that the engine extracts from a condition tree are the nonempty ones that a
-- condition of the tree, at any depth, names.
pub contains-extract_device_ids :
    (id : String) (c : Condition) → contains id (extract_device_ids c) ≡ names id c
unfolding extract_device_ids names
contains-extract_device_ids id (condition n children) = ground (
  arith,
  contains-from_conditions id children [],
  contains-mark_all id (from_conditions children []) (mark_device n.device_id []),
  contains-mark_device id n.device_id [],
)
