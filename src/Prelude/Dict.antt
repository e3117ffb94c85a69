-- ===== src/Prelude/Dict.antt =====
-- Go maps as association lists; the order of the entries stands for one order of iteration.
use mathlib.Core.List.{List, [], ◌∷◌}
use mathlib.Core.Option.{Option, none, some}
use mathlib.Core.Path.{◌≡◌, refl}
use native.Mathlib.Omega.{arith}
use mathlib.Core.Logic.{inl, inr}
use smarthome_backend.Prelude.Lists.{All}
use smarthome_backend.Prelude.Tests.{Bool-cases, Eq, ◌==◌, if◌then◌else◌}

module _ {ℓ κ} {K : Type ℓ} {V : Type κ} ⦃eq : Eq K⦄ where
  -- m[k]
  unfoldable pub lookup : K → List (K × V) → Option V
  lookup key [] = none
  lookup key ((k, found) ∷ rest) = if k == key then some found else lookup key rest

  -- m[k] = v
  unfoldable pub insert : K → V → List (K × V) → List (K × V)
  insert key value [] = (key, value) ∷ []
  insert key value ((k, old) ∷ rest) =
      if k == key then (key, value) ∷ rest else (k, old) ∷ insert key value rest

  -- delete(m, k)
  unfoldable pub delete : K → List (K × V) → List (K × V)
  delete k [] = []
  delete k ((j, v) ∷ m) = let rest = delete k m in if j == k then rest else (j, v) ∷ rest

  pub lookup-insert :
      (key asked : K) (value : V) (entries : List (K × V))
      → lookup asked (insert key value entries)
        ≡ (if key == asked then some value else lookup asked entries)
  unfolding lookup insert
  lookup-insert key asked value ((k, old) ∷ rest) = ground (
    arith,
    lookup-insert key asked value rest,
    eq.correct {x = key} {y = asked},
    eq.correct {x = k} {y = key},
    eq.correct {x = k} {y = asked},
  )
  lookup-insert key asked value [] = refl

  pub lookup-delete :
      (k j : K) (m : List (K × V)) → lookup j (delete k m) ≡ (if k == j then none else lookup j m)
  unfolding lookup delete
  lookup-delete k j [] = ground arith
  lookup-delete k j ((i, v) ∷ m) = ground (
    arith,
    eq.correct {x = i} {y = k},
    eq.correct {x = i} {y = j},
    eq.correct {x = k} {y = j},
    lookup-delete k j m,
  )

  -- A predicate on every entry.
  module _ {ι} (Q : K × V → Type ι) where
    pub All-insert : (k : K) (v : V) (m : List (K × V)) → Q (k, v) → All Q m → All Q (insert k v m)
    unfolding insert
    All-insert k v [] q h = (q, tt)
    All-insert k v ((j, w) ∷ m) q h = elim (Bool-cases (j == k)) [
      | inl same ↦ rw same (q, h.1)
      | inr other ↦ rw other (h.0, All-insert k v m q h.1)
    ]

    pub All-lookup : (k : K) (v : V) (m : List (K × V)) → All Q m → lookup k m ≡ some v → Q (k, v)
    unfolding lookup
    All-lookup k v [] h e = cc
    All-lookup k v ((j, w) ∷ m) h e = elim (Bool-cases (j == k)) [
      | inl same ↦
          let p : ◌≡◌ {A = K × V} (k, v) (j, w) = ground (arith, eq.correct {x = j} {y = k}) in
          rw p h.0
      | inr other ↦ All-lookup k v m h.1 (rw other at e)
    ]
