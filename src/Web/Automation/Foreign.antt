-- ===== src/Web/Automation/Foreign.antt =====
-- internal/web/api/automation.go: the rules of others, over the requests of a user.
use smarthome_backend.Prelude.{
  String, ◌≡◌, refl, string_Eq, eq_iff, eq_refl, Bool, true, not, ◌&&◌, List, [], ◌∷◌, ◌++◌, Option,
  none, some, any, arith, Bool-cases, inl, inr,
}
use smarthome_backend.Json.{Payload}
use smarthome_backend.Models.{Rule, Condition}
use smarthome_backend.Database.{
  Pool, Tables, exec, select_where, delete_where, update_where, has_user_id, is_for_rule,
}
use smarthome_backend.Database.Schedules.{first_where-test}
use smarthome_backend.Web.Automation.{
  is_of, is_own, owned_rule, insert_documents, delete_rule_row, update_rule_row,
}

abbrev pub is_other : String → Rule → Bool
is_other user_id r = not (is_of user_id r)

abbrev pub others : String → Tables → List Rule
others user_id t = select_where (is_other user_id) t.rules

module _ (user_id : String) where
  select-append :
      (l : List Rule) (r : Rule)
      → is_of user_id r ≡ true
      → select_where (is_other user_id) (l ++ r ∷ []) ≡ select_where (is_other user_id) l
  unfolding select_where
  select-append [] r mine = rw mine refl
  select-append (x ∷ l) r mine = rw (select-append l r mine) refl

  select-delete :
      (id : String) (l : List Rule)
      → select_where (is_other user_id) (delete_where (is_own id user_id) l)
        ≡ select_where (is_other user_id) l
  unfolding select_where delete_where
  select-delete id [] = refl
  select-delete id (x ∷ l) = elim (Bool-cases (is_own id user_id x)) [
    | inl own ↦ rw (own, select-delete id l) (ground (arith, own))
    | inr kept ↦ rw (kept, select-delete id l) refl
  ]

  select-update :
      (id : String) (f : Rule → Rule) (l : List Rule)
      → ((r : Rule) → (f r).owner_id ≡ r.owner_id)
      → select_where (is_other user_id) (update_where (is_own id user_id) f l)
        ≡ select_where (is_other user_id) l
  unfolding select_where update_where
  select-update id f [] owners = refl
  select-update id f (x ∷ l) owners = elim (Bool-cases (is_own id user_id x)) [
    | inr kept ↦ rw (kept, select-update id f l owners) refl
    | inl own ↦
        let mine : is_of user_id x ≡ true = ground arith in
        let still : is_of user_id (f x) ≡ true = rw (owners x) mine in
        rw (own, still, mine, select-update id f l owners) refl
  ]

  pub insert_documents-others :
      (read : Payload → Option Condition) (name : String) (enabled : Bool) (c a : Option Payload)
      (t : Tables)
      → others user_id (insert_documents read name enabled user_id c a t).1 ≡ others user_id t
  unfolding insert_documents
  insert_documents-others read name enabled none a t = refl
  insert_documents-others read name enabled (some c) none t = refl
  insert_documents-others read name enabled (some c) (some a) t =
      elim (Bool-cases (any (has_user_id user_id) t.users)) [
        | inr unknown ↦ rw unknown refl
        | inl member ↦ rw member (select-append t.rules _ (eq_refl user_id))
      ]

  pub delete_rule_row-others :
      (id : String) (t : Tables)
      → others user_id (delete_rule_row id user_id t).1 ≡ others user_id t
  unfolding delete_rule_row
  delete_rule_row-others id t =
      elim (Bool-cases (any (is_own id user_id) t.rules && any (is_for_rule id) t.schedules)) [
        | inl referred ↦ rw referred refl
        | inr free ↦ rw free (select-delete id t.rules)
      ]

  pub update_rule_row-others :
      (new : Rule) (t : Tables)
      → new.owner_id ≡ user_id
      → others user_id (update_rule_row new t).1 ≡ others user_id t
  unfolding update_rule_row
  update_rule_row-others new t e = rw e (select-update new.id _ t.rules (λ r. refl))

-- The row that a query of the user's rules returns.
pub owned_rule-is_of :
    (p : Pool) (id user_id : String) (r : Rule)
    → (exec p (owned_rule id user_id)).0 ≡ some r
    → r.owner_id ≡ user_id
unfolding exec owned_rule
owned_rule-is_of p id u r h = elim (Bool-cases (p.answers p.calls)) [
  | inr lost ↦ cc (rw lost at h)
  | inl reached ↦
      let own = first_where-test (is_own id u) p.tables.rules r (rw reached at h) in
      ground (arith, own, eq_iff r.owner_id u)
]
