-- ===== src/Workers/Rows.antt =====
-- The rows of rules that the queries of a task return, and that its writes leave.
use mathlib.Core.List.{Memᴰ}
use smarthome_backend.Prelude.{
  String, ◌≡◌, refl, sym, string_Eq, Bool, List, [], ◌∷◌, some, some-injective, any, map,
  Bool-cases, inl, inr,
}
use smarthome_backend.Json.{Payload}
use smarthome_backend.Models.{Rule}
use smarthome_backend.Database.{
  Pool, Tables, exec, first_where, has_rule_id, unowned, unowned_if, get_rule_by_id, get_all_rules,
  insert_device, has_device_id,
}

-- A rule that a query returns is a row of the table without its owner.
abbrev pub IsRow : List Rule → Rule → Type 0
IsRow rows r = (row : Rule) × Memᴰ row rows × (r ≡ unowned row)

first_where-IsRow :
    (test : Rule → Bool) (rows : List Rule) (r : Rule)
    → unowned_if (first_where test rows) ≡ some r
    → IsRow rows r
unfolding first_where
first_where-IsRow test [] r h = cc
first_where-IsRow test (x ∷ rows) r h = elim (Bool-cases (test x)) [
  | inl here ↦ (x, Memᴰ.head refl, sym (some-injective _ _ (rw here at h)))
  | inr other ↦
      let (row, m, e) = first_where-IsRow test rows r (rw other at h) in (row, Memᴰ.tail m, e)
]

map-IsRow : (rows : List Rule) (r : Rule) → Memᴰ r (map unowned rows) → IsRow rows r
map-IsRow [] r m = elim m [ ]
map-IsRow (x ∷ rows) r (Memᴰ.head e) = (x, Memᴰ.head refl, e)
map-IsRow (x ∷ rows) r (Memᴰ.tail m) = let (row, n, e) = map-IsRow rows r m in (row, Memᴰ.tail n, e)

pub get_rule_by_id-IsRow :
    (p : Pool) (id : String) (r : Rule)
    → (exec p (get_rule_by_id id)).0 ≡ some r
    → IsRow p.tables.rules r
unfolding exec get_rule_by_id
get_rule_by_id-IsRow p id r h = elim (Bool-cases (p.answers p.calls)) [
  | inr lost ↦ cc (rw lost at h)
  | inl reached ↦ first_where-IsRow (has_rule_id id) p.tables.rules r (rw reached at h)
]

pub get_all_rules-IsRow :
    (p : Pool) (l : List Rule) (r : Rule)
    → (exec p get_all_rules).0 ≡ some l
    → Memᴰ r l
    → IsRow p.tables.rules r
unfolding exec get_all_rules
get_all_rules-IsRow p l r h m = elim (Bool-cases (p.answers p.calls)) [
  | inr lost ↦ cc (rw lost at h)
  | inl reached ↦ map-IsRow p.tables.rules r (rw (some-injective _ _ (rw reached at h)) m)
]

pub insert_device-rules :
    (id name type mqtt_topic : String) (state : Payload) (t : Tables)
    → (insert_device id name type mqtt_topic state t).1.rules ≡ t.rules
unfolding insert_device
insert_device-rules id name type topic state t =
    elim (Bool-cases (any (has_device_id id) t.devices)) [
      | inl there ↦ rw there refl
      | inr new ↦ rw new refl
    ]
