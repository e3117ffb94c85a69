-- ===== src/Relay/Changes.antt =====
-- What each step of the relay does to the phases of the clients.
use mathlib.Core.Path.{subst}
use smarthome_backend.Prelude.{
  ℕ, ◌+◌, ◌<◌, ◌≤◌, String, ◌≡◌, refl, ◌∙◌, ◌==◌, nat_Eq, string_Eq, nat_eq_iff, ◌⊎◌, List, [], ◌∷◌,
  Option, none, some, some-injective, arith, Bool-cases, inl, inr, if◌then◌else◌,
}
use smarthome_backend.Prelude.Int.{ℤ}
use smarthome_backend.Prelude.Dict.{lookup, insert, lookup-insert}
use smarthome_backend.Json.{Value, null, num, str, Payload, Map}
use smarthome_backend.Json.Float.{to_int}
use smarthome_backend.Relay.{
  missing_id, offline, timed_out, response, Phase, sending, waiting, replied, Relay, Event, message,
  closed, request, enroll, timeout, fields_of, field_of, on_register, on_response, on_type,
  on_message, on_closed, on_request, on_enroll, on_timeout, step, run, enter_phase, on_pending,
  deliver, initial,
}
use smarthome_backend.Relay.Lock.{continue-eq-some}

-- How many steps a client's handler has still to take.
abbrev pub rank : Phase → ℕ
rank (sending r) = 2
rank waiting = 1
rank (replied r) = 0

-- A step of one client's handler.
pub record Moved (s t : Relay) : Type 0 where
  pub client : ℕ
  pub old : Phase
  pub new : Phase
  pub before : lookup client s.phases ≡ some old
  pub lower : rank new < rank old
  pub phases : t.phases ≡ insert client new s.phases
  pub next : t.next ≡ s.next

-- What a step does to the phases of the clients.
pub data Change (s t : Relay) : Type 0 where
  same : t.phases ≡ s.phases → t.next ≡ s.next → Change s t
  moved : Moved s t → Change s t
  added : (p : Phase) → t.phases ≡ insert s.next p s.phases → t.next ≡ s.next + 1 → Change s t

register-Change : (s : Relay) (conn : ℕ) (v : Value) → Change s (on_register s conn v)
unfolding on_register
register-Change s conn (str id) = same refl refl
register-Change s conn _ = same refl refl

deliver-Change :
    (s : Relay) (conn client : ℕ) (r : String) (status : ℤ) (body : Value)
    → (o : Option Phase) → lookup client s.phases ≡ o
    → Change s (deliver s conn r client status body o)
unfolding deliver
deliver-Change s conn client r status body (some waiting) e = moved (record {
  client = client;
  old = waiting;
  new = replied (response status body);
  before = e;
  lower = omega arith;
  phases = refl;
  next = refl;
})
deliver-Change s conn client r status body _ e = same refl refl

pending-Change :
    (s : Relay) (conn : ℕ) (r : String) (status body : Value) (o : Option ℕ)
    → Change s (on_pending s conn r status body o)
unfolding on_pending
pending-Change s conn r status body none = same refl refl
pending-Change s conn r (num f) body (some client) =
    deliver-Change s conn client r (to_int f) body (lookup client s.phases) refl
pending-Change s conn r _ body (some client) = same refl refl

response-Change :
    (s t : Relay) (conn : ℕ) (v status body : Value)
    → on_response s conn v status body ≡ some t
    → Change s t
unfolding on_response
response-Change s t conn (str r) status body e = elim (Bool-cases s.locked) [
  | inl held ↦ absurd (ground arith)
  | inr free ↦
      let q : on_pending s conn r status body (lookup r s.pending) ≡ t = ground arith in
      subst (Change s) q (pending-Change s conn r status body (lookup r s.pending))
]
response-Change s t conn null status body e = rw (← some-injective _ _ e) (same refl refl)
response-Change s t conn _ status body e = rw (← some-injective _ _ e) (same refl refl)

type-Change :
    (s t : Relay) (conn : ℕ) (m : Map) (v : Value) → on_type s conn m v ≡ some t → Change s t
unfolding on_type
type-Change s t conn m (str type) e = elim (Bool-cases (type == "register")) [
  | inl reg ↦ rw (← some-injective _ _ (rw reg at e)) (register-Change s conn (field_of "id" m))
  | inr other ↦ elim (Bool-cases (type == "response")) [
    | inl resp ↦
        response-Change s t conn (field_of "reqId" m) (field_of "status" m) (field_of "body" m)
          (rw (other, resp) at e)
    | inr unknown ↦ rw (← some-injective _ _ (rw (other, unknown) at e)) (same refl refl)
  ]
]
type-Change s t conn m _ e = rw (← some-injective _ _ e) (same refl refl)

message-Change : (s t : Relay) (conn : ℕ) (p : Payload) → on_message s conn p ≡ some t → Change s t
unfolding on_message
message-Change s t conn p e =
    type-Change s t conn (fields_of p) (field_of "type" (fields_of p)) (ground arith)

closed-Change : (s t : Relay) (conn : ℕ) → on_closed s conn ≡ some t → Change s t
unfolding on_closed
closed-Change s t conn e = same (ground arith) (ground arith)

request-Change : (s : Relay) (a r : String) → Change s (on_request s a r)
unfolding on_request
request-Change s a r = elim (Bool-cases (a == "")) [
  | inl empty ↦ rw empty (added (replied missing_id) refl refl)
  | inr given ↦ rw given (found (lookup a s.agents) refl)
]
  where
    found :
        (o : Option ℕ)
        → lookup a s.agents ≡ o
        → Change s (elim (lookup a s.agents) [
          | none ↦ enter_phase s (replied offline)
          | some conn ↦ enter_phase s (sending r)
        ])
    found none e = rw e (added (replied offline) refl refl)
    found (some conn) e = rw e (added (sending r) refl refl)

pub enroll-Moved :
    (s t : Relay) (client : ℕ) (o : Option Phase)
    → lookup client s.phases ≡ o
    → on_enroll s client o ≡ some t
    → Moved s t
unfolding on_enroll
enroll-Moved s t client (some (sending r)) e q = record {
  client = client;
  old = sending r;
  new = waiting;
  before = e;
  lower = omega arith;
  phases = ground arith;
  next = ground arith;
}
enroll-Moved s t client none e q = cc
enroll-Moved s t client (some waiting) e q = cc
enroll-Moved s t client (some (replied r)) e q = cc

pub timeout-Moved :
    (s t : Relay) (client : ℕ) (o : Option Phase)
    → lookup client s.phases ≡ o
    → on_timeout s client o ≡ some t
    → Moved s t
unfolding on_timeout
timeout-Moved s t client (some waiting) e q = record {
  client = client;
  old = waiting;
  new = replied timed_out;
  before = e;
  lower = omega arith;
  phases = ground arith;
  next = ground arith;
}
timeout-Moved s t client none e q = cc
timeout-Moved s t client (some (sending r)) e q = cc
timeout-Moved s t client (some (replied r)) e q = cc

pub step-Change : (s t : Relay) (e : Event) → step s e ≡ some t → Change s t
unfolding step
step-Change s t (message conn p) q = message-Change s t conn p q
step-Change s t (closed conn) q = closed-Change s t conn q
step-Change s t (request a r) q = subst (Change s) (some-injective _ _ q) (request-Change s a r)
step-Change s t (enroll client) q = moved (enroll-Moved s t client _ refl q)
step-Change s t (timeout client) q = moved (timeout-Moved s t client _ refl q)

pub lookup-Moved :
    (s t : Relay) (c : ℕ) (m : Moved s t)
    → lookup c t.phases ≡ (if m.client == c then some m.new else lookup c s.phases)
lookup-Moved s t c m = rw m.phases (lookup-insert m.client c m.new s.phases)

pub lookup-added :
    (s t : Relay) (c : ℕ) (p : Phase)
    → t.phases ≡ insert s.next p s.phases
    → lookup c t.phases ≡ (if s.next == c then some p else lookup c s.phases)
lookup-added s t c p e = rw e (lookup-insert s.next c p s.phases)

-- A number is that of a client, below `next`, or that of none.
abbrev pub Numbers : Relay → ℕ → Type 0
Numbers s c =
    ((c < s.next) × (p : Phase) × (lookup c s.phases ≡ some p))
    ⊎ ((s.next ≤ c) × (lookup c s.phases ≡ none))

abbrev pub IsFresh : Relay → Type 0
IsFresh s = (c : ℕ) → Numbers s c

Moved-Numbers : (s t : Relay) (m : Moved s t) (c : ℕ) → Numbers s c → Numbers t c
Moved-Numbers s t m c (inl (lt, p, e)) = elim (Bool-cases (m.client == c)) [
  | inl own ↦ inl (rw m.next lt, m.new, lookup-Moved s t c m ∙ rw own refl)
  | inr other ↦ inl (rw m.next lt, p, lookup-Moved s t c m ∙ rw other e)
]
Moved-Numbers s t m c (inr (le, e)) = elim (Bool-cases (m.client == c)) [
  | inl own ↦ absurd (ground (arith, nat_eq_iff m.client c, m.before))
  | inr other ↦ inr (rw m.next le, lookup-Moved s t c m ∙ rw other e)
]

added-Numbers :
    (s t : Relay) (x : Phase) (c : ℕ)
    → t.phases ≡ insert s.next x s.phases
    → t.next ≡ s.next + 1
    → Numbers s c
    → Numbers t c
added-Numbers s t x c p n (inl (lt, y, e)) = elim (Bool-cases (s.next == c)) [
  | inl own ↦ absurd (ground (arith, nat_eq_iff s.next c))
  | inr other ↦ inl (omega (arith, lt, n), y, lookup-added s t c x p ∙ rw other e)
]
added-Numbers s t x c p n (inr (le, e)) = elim (Bool-cases (s.next == c)) [
  | inl own ↦ inl (ground (arith, nat_eq_iff s.next c), x, lookup-added s t c x p ∙ rw own refl)
  | inr other ↦ inr (ground (arith, nat_eq_iff s.next c), lookup-added s t c x p ∙ rw other e)
]

pub Change-IsFresh : (s t : Relay) → Change s t → IsFresh s → IsFresh t
Change-IsFresh s t (same p n) h c = rw (p, n) (h c)
Change-IsFresh s t (moved m) h c = Moved-Numbers s t m c (h c)
Change-IsFresh s t (added x p n) h c = added-Numbers s t x c p n (h c)

pub run-IsFresh : (s u : Relay) (es : List Event) → IsFresh s → run s es ≡ some u → IsFresh u
unfolding run
run-IsFresh s u [] h q = rw (← some-injective _ _ q) h
run-IsFresh s u (x ∷ es) h q =
    let (t, first, rest) = continue-eq-some (step s x) (λ t. run t es) q in
    run-IsFresh t u es (Change-IsFresh s t (step-Change s t x first) h) rest

pub initial-IsFresh : IsFresh initial
unfolding lookup
initial-IsFresh c = inr (omega arith, refl)
