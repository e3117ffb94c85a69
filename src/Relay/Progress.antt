-- ===== src/Relay/Progress.antt =====
-- Every client comes to its reply: its handler takes two steps, and is held up by the lock only.
use smarthome_backend.Prelude.{
  ℕ, zero, suc, ◌+◌, ◌*◌, ◌≤◌, ◌≡◌, refl, ◌∙◌, ap, ◌==◌, nat_Eq, nat_eq_iff, true, inl, inr, List,
  [], ◌∷◌, Option, none, some, some-injective, Bool-cases, arith, ltb, if◌then◌else◌,
}
use smarthome_backend.Prelude.Dict.{lookup, insert}
use smarthome_backend.Relay.{
  Phase, sending, waiting, replied, Relay, Event, message, closed, request, enroll, timeout, step,
  run, initial,
}
use smarthome_backend.Relay.Lock.{continue-eq-some}
use smarthome_backend.Relay.Changes.{
  rank, Moved, Change, same, moved, added, lookup-Moved, lookup-added, IsFresh, Change-IsFresh,
  step-Change, enroll-Moved, timeout-Moved, initial-IsFresh,
}

abbrev rank_of : Option Phase → ℕ
rank_of none = 0
rank_of (some p) = rank p

-- The steps that the first `n` clients' handlers have still to take.
unfoldable owed : List (ℕ × Phase) → ℕ → ℕ
owed phases zero = 0
owed phases (suc n) = owed phases n + rank_of (lookup n phases)

-- The steps of clients' handlers among the events, after the one that the request itself is.
abbrev pub own : Event → ℕ
own (enroll client) = 1
own (timeout client) = 1
own _ = 0

unfoldable pub own_steps : List Event → ℕ
own_steps [] = 0
own_steps (e ∷ es) = own e + own_steps es

abbrev below : ℕ → ℕ → ℕ
below c n = if ltb c n then 1 else 0

abbrev here : ℕ → ℕ → ℕ
here c n = if c == n then 1 else 0

below-suc : (c n : ℕ) → below c (suc n) ≡ below c n + here c n
below-suc c n = ground (arith, nat_eq_iff c n)

rank-Moved :
    (s t : Relay) (m : Moved s t) (n : ℕ)
    → rank_of (lookup n t.phases) + here m.client n ≤ rank_of (lookup n s.phases)
rank-Moved s t m n = elim (Bool-cases (m.client == n)) [
  | inl same_client ↦
      let now : lookup n t.phases ≡ some m.new = lookup-Moved s t n m ∙ rw same_client refl in
      let then_ : lookup n s.phases ≡ some m.old =
        ground (arith, nat_eq_iff m.client n, m.before) in
      rw (now, then_, same_client) (omega (arith, m.lower))
  | inr other ↦ rw (lookup-Moved s t n m, other) (omega arith)
]

owed-Moved :
    (s t : Relay) (m : Moved s t) (n : ℕ) → owed t.phases n + below m.client n ≤ owed s.phases n
unfolding owed
owed-Moved s t m zero = ground arith
owed-Moved s t m (suc n) =
    omega (arith, owed-Moved s t m n, rank-Moved s t m n, below-suc m.client n)

owed-added :
    (s t : Relay) (p : Phase) (n : ℕ)
    → n ≤ s.next
    → t.phases ≡ insert s.next p s.phases
    → owed t.phases n ≡ owed s.phases n
unfolding owed
owed-added s t p zero h e = refl
owed-added s t p (suc n) h e =
    ground (arith, owed-added s t p n, lookup-added s t n p e, nat_eq_iff s.next n)

rank-le : (p : Phase) → rank p ≤ 2
rank-le (sending r) = omega arith
rank-le waiting = omega arith
rank-le (replied r) = omega arith

eq_true : (n : ℕ) → (n == n) ≡ true
eq_true n = (nat_eq_iff n n).1 refl

-- What has been done and what is owed comes to two steps for each client at most.
Change-owed :
    (s t : Relay)
    → Change s t
    → owed t.phases t.next + 2 * s.next ≤ owed s.phases s.next + 2 * t.next
unfolding owed
Change-owed s t (same p n) = rw (p, n) (omega arith)
Change-owed s t (moved m) = rw m.next (omega (arith, owed-Moved s t m s.next))
Change-owed s t (added p e n) =
    let last : lookup s.next t.phases ≡ some p =
      lookup-added s t s.next p e ∙ rw (eq_true s.next) refl in
    let n' : t.next ≡ suc s.next = omega (arith, n) in
    rw n' (omega (arith, owed-added s t p s.next (omega arith) e, ap rank_of last, rank-le p))

Moved-owed :
    (s t : Relay)
    → Moved s t
    → IsFresh s
    → 1 + owed t.phases t.next + 2 * s.next ≤ owed s.phases s.next + 2 * t.next
Moved-owed s t m f = elim (f m.client) [
  | inl (lt, p, e) ↦ rw m.next (ground (arith, owed-Moved s t m s.next))
  | inr (le, e) ↦ absurd (ground (arith, m.before))
]

step-owed :
    (s t : Relay) (e : Event)
    → step s e ≡ some t
    → IsFresh s
    → own e + owed t.phases t.next + 2 * s.next ≤ owed s.phases s.next + 2 * t.next
unfolding step
step-owed s t (enroll c) q f = omega (arith, Moved-owed s t (enroll-Moved s t c _ refl q) f)
step-owed s t (timeout c) q f = omega (arith, Moved-owed s t (timeout-Moved s t c _ refl q) f)
step-owed s t (message conn p) q f =
    omega (arith, Change-owed s t (step-Change s t (message conn p) q))
step-owed s t (closed conn) q f = omega (arith, Change-owed s t (step-Change s t (closed conn) q))
step-owed s t (request a r) q f = omega (arith, Change-owed s t (step-Change s t (request a r) q))

run-owed :
    (s u : Relay) (es : List Event)
    → run s es ≡ some u
    → IsFresh s
    → own_steps es + owed u.phases u.next + 2 * s.next ≤ owed s.phases s.next + 2 * u.next
unfolding run own_steps
run-owed s u [] q f = rw (some-injective _ _ q) (omega arith)
run-owed s u (e ∷ es) q f =
    let (t, first, rest) = continue-eq-some (step s e) (λ t. run t es) q in
    omega (
      arith,
      step-owed s t e first f,
      run-owed t u es rest (Change-IsFresh s t (step-Change s t e first) f),
    )

-- In every run from the initial state the handlers of the clients take, after the requests, together
-- at most twice as many steps as there are clients.
pub own_steps-run :
    (es : List Event) (u : Relay) → run initial es ≡ some u → own_steps es ≤ 2 * u.next
unfolding owed
own_steps-run es u q = omega (arith, run-owed initial u es q initial-IsFresh)
