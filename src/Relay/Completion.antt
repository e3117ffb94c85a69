-- ===== src/Relay/Completion.antt =====
-- While the lock is free, the clients come to their replies without the help of an agent.
use smarthome_backend.Prelude.{
  All, All-append, ℕ, zero, suc, ◌*◌, ◌≤◌, String, ◌≡◌, refl, sym, ◌∙◌, ap, ◌==◌, nat_Eq, string_Eq,
  nat_eq_iff, false, ◌⊎◌, inl, inr, List, [], ◌∷◌, ◌++◌, some, some-injective, Bool-cases, arith,
}
use smarthome_backend.Prelude.Dict.{lookup, insert, lookup-insert}
use smarthome_backend.Relay.{
  Reply, timed_out, Phase, sending, waiting, replied, Relay, Event, enroll, timeout, on_enroll,
  on_timeout, step, run, initial,
}
use smarthome_backend.Relay.Lock.{continue-eq-some}
use smarthome_backend.Relay.Changes.{IsFresh, run-IsFresh, initial-IsFresh}
use smarthome_backend.Relay.Final.{run-final}
use smarthome_backend.Relay.Progress.{own, own_steps, own_steps-run}

-- Steps of clients' handlers lead from one state to another, where the lock is free.
record Finishes (s t : Relay) (es : List Event) : Type 0 where
  runs : run s es ≡ some t
  by_clients : All (λ e. own e ≡ 1) es
  free : t.locked ≡ false
  next : t.next ≡ s.next

run-append : (s t : Relay) (es fs : List Event) → run s es ≡ some t → run s (es ++ fs) ≡ run t fs
unfolding run
run-append s t [] fs q = ap (λ r. run r fs) (some-injective _ _ q)
run-append s t (e ∷ es) fs q =
    let (m, first, rest) = continue-eq-some (step s e) (λ t. run t es) q in
    rw first (run-append m t es fs rest)

Finishes-append :
    {s t u : Relay} {es fs : List Event}
    → Finishes s t es
    → Finishes t u fs
    → Finishes s u (es ++ fs)
Finishes-append {s} {t} {u} {es} {fs} h k = record {
  runs = run-append s t es fs h.runs ∙ k.runs;
  by_clients = All-append (λ e. own e ≡ 1) es fs h.by_clients k.by_clients;
  free = k.free;
  next = k.next ∙ h.next;
}

abbrev pub HasReply : Relay → ℕ → Type 0
HasReply s c = (r : Reply) × (lookup c s.phases ≡ some (replied r))

-- One client's handler.
time_out :
    (s : Relay) (c : ℕ)
    → s.locked ≡ false
    → lookup c s.phases ≡ some waiting
    → (t : Relay) × (es : List Event) × Finishes s t es × HasReply t c
unfolding run step on_timeout
time_out s c free h =
    let t : Relay = record s { phases = insert c (replied timed_out) s.phases } in
    (
      t,
      timeout c ∷ [],
      record { runs = rw h refl; by_clients = (refl, tt); free = free; next = refl },
      (timed_out, ground (arith, lookup-insert c c (replied timed_out) s.phases, nat_eq_iff c c)),
    )

pub run-cons :
    (s t : Relay) (e : Event) (es : List Event) → step s e ≡ some t → run s (e ∷ es) ≡ run t es
unfolding run
run-cons s t e es h = rw h refl

pub step-enroll :
    (s : Relay) (c : ℕ) (r : String)
    → s.locked ≡ false
    → lookup c s.phases ≡ some (sending r)
    → step s (enroll c)
      ≡ some (record s { pending = insert r c s.pending; phases = insert c waiting s.phases })
unfolding step on_enroll
step-enroll s c r free h = rw (h, free) refl

finish :
    (s : Relay) (c : ℕ) (p : Phase)
    → s.locked ≡ false
    → lookup c s.phases ≡ some p
    → (t : Relay) × (es : List Event) × Finishes s t es × HasReply t c
unfolding run
finish s c (sending r) free h =
    let t : Relay = record s {
      pending = insert r c s.pending;
      phases = insert c waiting s.phases;
    } in
    let (u, es, f, x) =
      time_out t c free (ground (arith, lookup-insert c c waiting s.phases, nat_eq_iff c c)) in
    (
      u,
      enroll c ∷ es,
      record {
        runs = run-cons s t (enroll c) es (step-enroll s c r free h) ∙ f.runs;
        by_clients = (refl, f.by_clients);
        free = f.free;
        next = f.next;
      },
      x,
    )
finish s c waiting free h = time_out s c free h
finish s c (replied r) free h =
    (s, [], record { runs = refl; by_clients = tt; free = free; next = refl }, (r, h))

-- The first `n` clients.
finish_all :
    (n : ℕ) (s : Relay)
    → n ≤ s.next
    → s.locked ≡ false
    → IsFresh s
    → (t : Relay) × (es : List Event) × Finishes s t es × ((c : ℕ) → (n ≤ c) ⊎ HasReply t c)
unfolding run
finish_all zero s le free f = (
  s,
  [],
  record { runs = refl; by_clients = tt; free = free; next = refl },
  λ c. inl (omega arith),
)
finish_all (suc n) s le free f =
    let (t, es, h, all) = finish_all n s (omega (arith, le)) free f in
    let f' = run-IsFresh s t es f h.runs in
    elim (f' n) [
      | inl (lt, p, e) ↦
          let (u, fs, k, x) = finish t n p h.free e in
          (
            u,
            es ++ fs,
            Finishes-append h k,
            λ c. elim (Bool-cases (n == c)) [
              | inl same ↦
                  inr (x.0, ap (λ i. lookup i u.phases) (sym ((nat_eq_iff n c).0 same)) ∙ x.1)
              | inr other ↦ elim (all c) [
                | inl beyond ↦ inl (ground (arith, nat_eq_iff n c))
                | inr (r', x') ↦ inr (r', run-final t u fs c r' f' x' k.runs)
              ]
            ],
          )
      | inr (over, e) ↦ absurd (omega (arith, over, le, h.next))
    ]

-- Every run from the initial state at whose end the lock of the pending requests is free can be gone
-- on with by steps of the clients' handlers alone, at whose end every client has a reply and the lock
-- is free; in the whole run these handlers take, after the requests, together at most twice as many
-- steps as there are clients.
pub run-completes :
    (es : List Event) (s : Relay)
    → run initial es ≡ some s
    → s.locked ≡ false
    → (t : Relay) × (more : List Event) × (run s more ≡ some t)
      × All (λ e. own e ≡ 1) more
      × (t.locked ≡ false)
      × (own_steps (es ++ more) ≤ 2 * s.next)
      × ((c : ℕ) → (s.next ≤ c) ⊎ HasReply t c)
run-completes es s q free =
    let (t, more, h, all) =
      finish_all s.next s (omega arith) free (run-IsFresh initial s es initial-IsFresh q) in
    (
      t,
      more,
      h.runs,
      h.by_clients,
      h.free,
      omega (arith, own_steps-run (es ++ more) t (run-append initial s es more q ∙ h.runs), h.next),
      all,
    )
