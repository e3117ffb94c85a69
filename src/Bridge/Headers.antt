-- ===== src/Bridge/Headers.antt =====
-- The headers of a relayed request: each name with its first value.
use smarthome_backend.Prelude.{
  String, ◌≡◌, refl, sym, ◌∙◌, ap, ◌==◌, string_Eq, eq_iff, false, List, [], ◌∷◌, Option, none,
  some, Bool-cases, inl, inr, arith,
}
use smarthome_backend.Prelude.Dict.{lookup, insert, lookup-insert}
use smarthome_backend.Bridge.{texts_from}
use smarthome_backend.Relay.Forward.{first_values, of_texts}

ne_sym : (j k : String) → (j == k) ≡ false → (k == j) ≡ false
ne_sym j k h = ground (arith, eq_iff j k, eq_iff k j)

-- Each name stands once.
abbrev pub IsMap {ℓ} : {A : Type ℓ} → List (String × A) → Type ℓ
IsMap [] = Unit
IsMap ((k, v) ∷ m) = (lookup k m ≡ none) × IsMap m

pub insert-IsMap {ℓ} :
    {A : Type ℓ} (k : String) (v : A) (m : List (String × A)) → IsMap m → IsMap (insert k v m)
unfolding insert lookup
insert-IsMap k v [] h = (refl, tt)
insert-IsMap k v ((j, w) ∷ m) (new, h) = elim (Bool-cases (j == k)) [
  | inl same ↦ rw same (ap (λ i. lookup i m) (sym ((eq_iff j k).0 same)) ∙ new, h)
  | inr other ↦ rw other (lookup-insert k j v m ∙ rw (ne_sym j k other) new, insert-IsMap k v m h)
]

pub first_values-IsMap :
    (m : List (String × String)) (hs : List (String × List String))
    → IsMap m
    → IsMap (first_values m hs)
unfolding first_values
first_values-IsMap m [] h = h
first_values-IsMap m ((k, []) ∷ hs) h = first_values-IsMap m hs h
first_values-IsMap m ((k, v ∷ vs) ∷ hs) h =
    first_values-IsMap (insert k v m) hs (insert-IsMap k v m h)

-- The first value of a header, if it has one.
abbrev pub first_of : Option (List String) → Option String
first_of none = none
first_of (some []) = none
first_of (some (v ∷ vs)) = some v

abbrev pub or {ℓ} : {A : Type ℓ} → Option A → Option A → Option A
or none o = o
or (some v) o = some v

pub lookup-first_values :
    (k : String) (m : List (String × String)) (hs : List (String × List String))
    → IsMap hs
    → lookup k (first_values m hs) ≡ or (first_of (lookup k hs)) (lookup k m)
unfolding first_values lookup
lookup-first_values k m [] h = refl
lookup-first_values k m ((j, []) ∷ hs) (new, h) = elim (Bool-cases (j == k)) [
  | inl same ↦
      let gone : lookup k hs ≡ none = ap (λ i. lookup i hs) (sym ((eq_iff j k).0 same)) ∙ new in
      rw same (lookup-first_values k m hs h ∙ ap (λ o. or (first_of o) (lookup k m)) gone)
  | inr other ↦ rw other (lookup-first_values k m hs h)
]
lookup-first_values k m ((j, v ∷ vs) ∷ hs) (new, h) = elim (Bool-cases (j == k)) [
  | inl same ↦
      let gone : lookup k hs ≡ none = ap (λ i. lookup i hs) (sym ((eq_iff j k).0 same)) ∙ new in
      let set : lookup k (insert j v m) ≡ some v = lookup-insert j k v m ∙ rw same refl in
      rw same (
        lookup-first_values k (insert j v m) hs h
        ∙ ap (λ o. or (first_of o) (lookup k (insert j v m))) gone
        ∙ set)
  | inr other ↦
      let kept : lookup k (insert j v m) ≡ lookup k m = lookup-insert j k v m ∙ rw other refl in
      rw other (lookup-first_values k (insert j v m) hs h ∙ ap (or (first_of (lookup k hs))) kept)
]

-- What the agent reads of the headers that the relay server writes.
pub lookup-texts_from :
    (k : String) (m acc : List (String × String))
    → IsMap m
    → lookup k (texts_from acc (of_texts m)) ≡ or (lookup k m) (lookup k acc)
unfolding texts_from of_texts lookup
lookup-texts_from k [] acc h = refl
lookup-texts_from k ((j, v) ∷ m) acc (new, h) = elim (Bool-cases (j == k)) [
  | inl same ↦
      let gone : lookup k m ≡ none = ap (λ i. lookup i m) (sym ((eq_iff j k).0 same)) ∙ new in
      let set : lookup k (insert j v acc) ≡ some v = lookup-insert j k v acc ∙ rw same refl in
      rw same (
        lookup-texts_from k m (insert j v acc) h
        ∙ ap (λ o. or o (lookup k (insert j v acc))) gone
        ∙ set)
  | inr other ↦
      let kept : lookup k (insert j v acc) ≡ lookup k acc =
        lookup-insert j k v acc ∙ rw other refl in
      rw other (lookup-texts_from k m (insert j v acc) h ∙ ap (or (lookup k m)) kept)
]
