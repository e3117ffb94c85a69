-- ===== src/Database/Schedules.antt =====
-- What the statements select and leave.
use mathlib.Core.List.{Memᴰ}
use smarthome_backend.Prelude.{
  ℕ, String, ◌≡◌, refl, ◌==◌, string_Eq, eq_iff, Bool, true, false, List, [], ◌∷◌, some, any, All,
  All-of-mem, arith, eq_refl, Bool-cases, Option-cases, inl, inr,
}
use smarthome_backend.Models.{Rule, Schedule}
use smarthome_backend.Database.{
  Statement, Pool, exec, first_where, select_where, delete_where, has_rule_id, is_schedule,
  is_for_rule, get_rule_by_id,
}

-- The connection holds for every call.
pub record Up (p : Pool) : Type 0 where
  pub reached : (n : ℕ) → p.answers n ≡ true

pub exec-Up :
    {A : Type 0} (p : Pool) (f : Statement A)
    → Up p
    → exec p f ≡ ((f p.tables).0, record p { tables = (f p.tables).1; calls = (exec p f).1.calls })
unfolding exec
exec-Up p f h = rw (h.reached p.calls) refl

pub exec-keeps-Up : {A : Type 0} (p : Pool) (f : Statement A) → Up p → Up (exec p f).1
unfolding exec
exec-keeps-Up p f h = record { reached = h.reached }

pub first_where-test :
    {A : Type 0} (test : A → Bool) (l : List A) (a : A)
    → first_where test l ≡ some a
    → test a ≡ true
unfolding first_where
first_where-test test [] a h = cc
first_where-test test (x ∷ l) a h = elim (Bool-cases (test x)) [
  | inl here ↦ ground arith
  | inr later ↦ first_where-test test l a (rw later at h)
]

-- The row that the query of a rule returns has the ID that was asked for.
pub get_rule_by_id-id :
    (p : Pool) (id : String) (r : Rule) → (exec p (get_rule_by_id id)).0 ≡ some r → r.id ≡ id
unfolding exec get_rule_by_id
get_rule_by_id-id p id r h = elim (Bool-cases (p.answers p.calls)) [
  | inr failed ↦ cc (rw failed at h)
  | inl reached ↦ elim (Option-cases (first_where (has_rule_id id) p.tables.rules)) [
    | inl absent ↦ ground (arith, rw (reached, absent) at h)
    | inr (row, found) ↦ ground (
      arith,
      rw (reached, found) at h,
      eq_iff row.id id,
      first_where-test (has_rule_id id) p.tables.rules row found,
    )
  ]
]

-- Every row of the rule has the ID of one in the list.
abbrev pub Covered : String → List Schedule → List Schedule → Type 0
Covered rule_id l = All (λ s. is_for_rule rule_id s ≡ true → any (is_schedule s.id) l ≡ true)

pub delete_where-Covered :
    (rule_id : String) (first : Schedule) (l rows : List Schedule)
    → Covered rule_id (first ∷ l) rows
    → Covered rule_id l (delete_where (is_schedule first.id) rows)
unfolding delete_where
delete_where-Covered r first l [] h = tt
delete_where-Covered r first l (s ∷ rows) h = elim (Bool-cases (s.id == first.id)) [
  | inl same ↦ rw same (delete_where-Covered r first l rows h.1)
  | inr other ↦ rw other (
    λ m. ground (arith, h.0 m, eq_iff s.id first.id, eq_iff first.id s.id),
    delete_where-Covered r first l rows h.1,
  )
]

pub Covered-nil :
    (rule_id : String) (rows : List Schedule)
    → Covered rule_id [] rows
    → any (is_for_rule rule_id) rows ≡ false
Covered-nil r [] h = refl
Covered-nil r (s ∷ rows) h = elim (Bool-cases (is_for_rule r s)) [
  | inl mine ↦ cc (h.0 mine)
  | inr other ↦ rw other (Covered-nil r rows h.1)
]

pub any-select_where :
    (rule_id : String) (rows : List Schedule) (s : Schedule)
    → Memᴰ s rows
    → is_for_rule rule_id s ≡ true
    → any (is_schedule s.id) (select_where (is_for_rule rule_id) rows) ≡ true
unfolding select_where
any-select_where r [] s m mine = elim m [ ]
any-select_where r (x ∷ rows) s (Memᴰ.head e) mine = rw (← e, mine) (ground (arith, eq_refl s.id))
any-select_where r (x ∷ rows) s (Memᴰ.tail later) mine = elim (Bool-cases (is_for_rule r x)) [
  | inl also ↦ rw also (ground (arith, any-select_where r rows s later mine))
  | inr other ↦ rw other (any-select_where r rows s later mine)
]

pub select_where-Covered :
    (rule_id : String) (rows : List Schedule)
    → Covered rule_id (select_where (is_for_rule rule_id) rows) rows
select_where-Covered r rows = All-of-mem _ rows (any-select_where r rows)
