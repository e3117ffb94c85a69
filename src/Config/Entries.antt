-- ===== src/Config/Entries.antt =====
-- internal/config/config.go: an entry and the line that it is read from.
use Prim.Native.String
use text.Mathlib.TextLemmas.{nil-append, cons-append}
use smarthome_backend.Prelude.{
  String, ◌≡◌, ◌∙◌, ap, ◌==◌, string_Eq, eq_iff, some, some-injective, Bool-cases, Option-cases,
  inl, inr,
}
use smarthome_backend.Config.{split_at_equals, line_of}

pub split_at_equals-line_of :
    (l : String) (p : String × String) → split_at_equals l ≡ some p → line_of p ≡ l
unfolding split_at_equals
split_at_equals-line_of String.[] p h = cc
split_at_equals-line_of (String.◌∷◌ c s) p h = elim (Bool-cases (String.◌∷◌ c "" == "=")) [
  | inl here ↦
      let e = (eq_iff (String.◌∷◌ c "") "=").0 here in
      let same : ("", s) ≡ p = some-injective _ _ (rw here at h) in
      rw (← same, ← e) (nil-append _ ∙ cons-append c "" s ∙ ap (λ t. String.◌∷◌ c t) (nil-append s))
  | inr other ↦ elim (Option-cases (split_at_equals s)) [
    | inl none_ ↦ let no = rw (other, none_) at h in cc
    | inr ((k, v), found) ↦
        let same : (String.◌∷◌ c k, v) ≡ p = some-injective _ _ (rw (other, found) at h) in
        rw (← same) (
          cons-append c k (String.◌++◌ "=" v)
          ∙ ap (λ t. String.◌∷◌ c t) (split_at_equals-line_of s (k, v) found))
  ]
]
