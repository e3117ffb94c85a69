-- ===== src/Relay/Final.antt =====
-- A client gets one reply: no later step changes it.
use smarthome_backend.Prelude.{
  ℕ, ◌≡◌, ◌∙◌, ap, ◌==◌, nat_Eq, string_Eq, nat_eq_iff, List, [], ◌∷◌, some, some-injective, arith,
  Bool-cases, inl, inr,
}
use smarthome_backend.Prelude.Dict.{lookup, lookup-insert}
use smarthome_backend.Relay.{Reply, replied, Relay, Event, step, run, initial}
use smarthome_backend.Relay.Changes.{
  rank, Change, same, moved, added, lookup-Moved, IsFresh, Change-IsFresh, step-Change, run-IsFresh,
  initial-IsFresh,
}
use smarthome_backend.Relay.Lock.{continue-eq-some}

Change-final :
    (s t : Relay) (c : ℕ) (r : Reply)
    → Change s t
    → IsFresh s
    → lookup c s.phases ≡ some (replied r)
    → lookup c t.phases ≡ some (replied r)
Change-final s t c r (same p n) h e = rw p e
Change-final s t c r (moved m) h e = elim (Bool-cases (m.client == c)) [
  | inl own ↦
      let old : some m.old ≡ some (replied r) = ground (arith, nat_eq_iff m.client c, m.before) in
      absurd (omega (arith, m.lower, ap rank (some-injective _ _ old)))
  | inr other ↦ lookup-Moved s t c m ∙ rw other e
]
Change-final s t c r (added x p n) h e =
    ground (arith, h c, lookup-insert s.next c x s.phases, nat_eq_iff s.next c)

pub run-final :
    (s u : Relay) (es : List Event) (c : ℕ) (r : Reply)
    → IsFresh s
    → lookup c s.phases ≡ some (replied r)
    → run s es ≡ some u
    → lookup c u.phases ≡ some (replied r)
unfolding run
run-final s u [] c r h e q = rw (← some-injective _ _ q) e
run-final s u (x ∷ es) c r h e q =
    let (t, first, rest) = continue-eq-some (step s x) (λ t. run t es) q in
    let change = step-Change s t x first in
    run-final t u es c r (Change-IsFresh s t change h) (Change-final s t c r change h e) rest

-- In every run from the initial state: once a client has got a reply, no later event changes or
-- removes it.
pub run-replied :
    (before after : List Event) (s u : Relay) (c : ℕ) (r : Reply)
    → run initial before ≡ some s
    → lookup c s.phases ≡ some (replied r)
    → run s after ≡ some u
    → lookup c u.phases ≡ some (replied r)
run-replied before after s u c r p e q =
    run-final s u after c r (run-IsFresh initial s before initial-IsFresh p) e q
