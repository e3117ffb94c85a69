-- ===== src/Relay/Lock.antt =====
-- The lock of the pending requests: a response that comes after its client's time has run out takes
-- it for ever.
use smarthome_backend.Prelude.{
  ℕ, String, ◌≡◌, refl, ◌∙◌, nat_Eq, string_Eq, nat_eq_iff, true, false, ◌⊎◌, List, [], ◌∷◌, Option,
  none, some, some-injective, contains, arith, inl, inr, Option-cases,
}
use smarthome_backend.Prelude.Int.{ℤ}
use smarthome_backend.Prelude.Dict.{lookup, insert, lookup-insert}
use smarthome_backend.Json.{Value, null, num, str, Payload, Map}
use smarthome_backend.Json.Float.{Float64}
use smarthome_backend.Relay.{
  Reply, missing_id, offline, timed_out, response, Phase, sending, waiting, replied, Relay, Event,
  message, closed, request, enroll, timeout, fields_of, field_of, on_register, on_response, on_type,
  on_message, on_closed, on_request, on_enroll, on_timeout, step, run, continue, on_pending,
  deliver,
}

-- `t` comes from `s` with no response handed over, and the lock held.
record IsStuck (s t : Relay) : Type 0 where
  held : t.locked ≡ true
  answers :
      (c : ℕ) (status : ℤ) (body : Value)
      → lookup c t.phases ≡ some (replied (response status body))
      → lookup c s.phases ≡ some (replied (response status body))

abbrev answer : Option Phase → Option (ℤ × Value)
answer (some (replied (response status body))) = some (status, body)
answer _ = none

-- The response of an agent that a client has got.
unfoldable pub answer_of : Relay → ℕ → Option (ℤ × Value)
answer_of s c = answer (lookup c s.phases)

answer-cases :
    (o : Option Phase)
    → (answer o ≡ none)
      ⊎ ((status : ℤ) × (body : Value) × (o ≡ some (replied (response status body))))
answer-cases (some (replied (response status body))) = inr (status, body, refl)
answer-cases _ = inl refl

IsStuck-answer :
    (s t : Relay) (c : ℕ)
    → ((status : ℤ) (body : Value)
        → lookup c t.phases ≡ some (replied (response status body))
        → lookup c s.phases ≡ some (replied (response status body)))
    → (answer_of t c ≡ none) ⊎ (answer_of t c ≡ answer_of s c)
unfolding answer_of
IsStuck-answer s t c h = elim (answer-cases (lookup c t.phases)) [
  | inl absent ↦ inl absent
  | inr (status, body, e) ↦ inr (rw (e, h status body e) refl)
]

-- An agent's message leaves the phases alone while the lock is held.
register_keeps :
    (s : Relay) (conn : ℕ) (v : Value)
    → ((on_register s conn v).locked ≡ s.locked) × ((on_register s conn v).phases ≡ s.phases)
unfolding on_register
register_keeps s conn (str id) = (refl, refl)
register_keeps s conn _ = (refl, refl)

response_keeps :
    (s t : Relay) (conn : ℕ) (v status body : Value)
    → s.locked ≡ true
    → on_response s conn v status body ≡ some t
    → (t.locked ≡ true) × (t.phases ≡ s.phases)
unfolding on_response
response_keeps s t conn (str r) status body h e = ground arith
response_keeps s t conn null status body h e = ground arith
response_keeps s t conn _ status body h e = ground arith

type_keeps :
    (s t : Relay) (conn : ℕ) (m : Map) (v : Value)
    → s.locked ≡ true
    → on_type s conn m v ≡ some t
    → (t.locked ≡ true) × (t.phases ≡ s.phases)
unfolding on_type
type_keeps s t conn m (str type) h e = ground (
  arith,
  register_keeps s conn (field_of "id" m),
  response_keeps s t conn (field_of "reqId" m) (field_of "status" m) (field_of "body" m),
)
type_keeps s t conn m _ h e = ground arith

message-IsStuck :
    (s t : Relay) (conn : ℕ) (p : Payload)
    → s.locked ≡ true
    → on_message s conn p ≡ some t
    → IsStuck s t
unfolding on_message
message-IsStuck s t conn p h e =
    let kept = type_keeps s t conn (fields_of p) (field_of "type" (fields_of p)) h (ground arith) in
    record { held = kept.0; answers = λ c st b q. rw (← kept.1) q }

closed-IsStuck :
    (s t : Relay) (conn : ℕ) → s.locked ≡ true → on_closed s conn ≡ some t → IsStuck s t
unfolding on_closed
closed-IsStuck s t conn h e = record { held = ground arith; answers = λ c st b q. ground arith }

request-IsStuck : (s : Relay) (a r : String) → s.locked ≡ true → IsStuck s (on_request s a r)
unfolding on_request
request-IsStuck s a r h = record {
  held = ground arith;
  answers = λ c st b q. ground (
    arith,
    lookup-insert s.next c (replied missing_id) s.phases,
    lookup-insert s.next c (replied offline) s.phases,
    lookup-insert s.next c (sending r) s.phases,
  );
}

enroll-IsStuck :
    (s t : Relay) (client : ℕ) (o : Option Phase)
    → s.locked ≡ true
    → on_enroll s client o ≡ some t
    → IsStuck s t
unfolding on_enroll
enroll-IsStuck s t client (some (sending r)) h e = absurd (ground arith)
enroll-IsStuck s t client _ h e = cc

timeout-IsStuck :
    (s t : Relay) (client : ℕ) (o : Option Phase)
    → s.locked ≡ true
    → on_timeout s client o ≡ some t
    → IsStuck s t
unfolding on_timeout
timeout-IsStuck s t client (some waiting) h e = record {
  held = ground arith;
  answers = λ c st b q. ground (arith, lookup-insert client c (replied timed_out) s.phases);
}
timeout-IsStuck s t client _ h e = cc

step-IsStuck : (s t : Relay) (e : Event) → s.locked ≡ true → step s e ≡ some t → IsStuck s t
unfolding step
step-IsStuck s t (message conn p) h q = message-IsStuck s t conn p h q
step-IsStuck s t (closed conn) h q = closed-IsStuck s t conn h q
step-IsStuck s t (request a r) h q = rw (← some-injective _ _ q) (request-IsStuck s a r h)
step-IsStuck s t (enroll client) h q = enroll-IsStuck s t client _ h q
step-IsStuck s t (timeout client) h q = timeout-IsStuck s t client _ h q

pub continue-eq-some :
    (o : Option Relay) (k : Relay → Option Relay) {u : Relay}
    → continue o k ≡ some u
    → (t : Relay) × (o ≡ some t) × (k t ≡ some u)
continue-eq-some none k e = cc
continue-eq-some (some t) k e = (t, refl, e)

run-IsStuck : (s u : Relay) (es : List Event) → s.locked ≡ true → run s es ≡ some u → IsStuck s u
unfolding run
run-IsStuck s u [] h q = record {
  held = ground arith;
  answers = λ c st b a. rw (some-injective _ _ q) a;
}
run-IsStuck s u (e ∷ es) h q =
    let (t, first, rest) = continue-eq-some (step s e) (λ t. run t es) q in
    let stuck = step-IsStuck s t e h first in
    let later = run-IsStuck t u es stuck.held rest in
    record {
      held = later.held;
      answers = λ c st b a. stuck.answers c st b (later.answers c st b a);
    }

-- The response of an agent to the request `req_id`.
module _ (p : Payload) (req_id : String) (f : Float64) where
  pub record IsResponse : Type 0 where
    pub type : field_of "type" (fields_of p) ≡ str "response"
    pub request_id : field_of "reqId" (fields_of p) ≡ str req_id
    pub status : field_of "status" (fields_of p) ≡ num f

  -- A response to a request whose client does not wait locks.
  late_locks :
      (s : Relay) (conn client : ℕ) (reply : Reply)
      → IsResponse
      → contains conn s.stopped ≡ false
      → s.locked ≡ false
      → lookup req_id s.pending ≡ some client
      → lookup client s.phases ≡ some (replied reply)
      → on_message s conn p ≡ some (record s { stopped = conn ∷ s.stopped; locked = true })
  unfolding on_message on_type on_response on_pending deliver
  late_locks s conn client reply r open_ free listed gone =
      rw (open_, r.type, r.request_id, r.status, free, listed, gone)

  module _ (s : Relay) (conn client : ℕ) (r : IsResponse) (open_ : contains conn s.stopped ≡ false)
      (free : s.locked ≡ false) (listed : lookup req_id s.pending ≡ some client)
      (waits : lookup client s.phases ≡ some waiting) where
    abbrev expired : Relay
    expired = record s { phases = insert client (replied timed_out) s.phases }

    abbrev blocked : Relay
    blocked = record expired { stopped = conn ∷ s.stopped; locked = true }

    step-timeout : step s (timeout client) ≡ some expired
    unfolding step on_timeout
    step-timeout = rw waits refl

    step-late : step expired (message conn p) ≡ some blocked
    unfolding step
    step-late = late_locks expired conn client timed_out r open_ free listed (
        ground (
          arith,
          lookup-insert client client (replied timed_out) s.phases,
          nat_eq_iff client client,
        ))

    run-late : (es : List Event) → run s (timeout client ∷ message conn p ∷ es) ≡ run blocked es
    unfolding run
    run-late es = rw (step-timeout, step-late) refl

    -- Suppose that a client waits for the response to its request, no handler holds the lock of the
    -- pending requests, and the handler of the agent's connection still runs. Then the client's time
    -- can run out and the agent's response come after that, which takes the lock. Events after that
    -- are not possible in their order, or leave the lock taken and no client with a response of an
    -- agent that it did not have before.
    pub late_response_blocks :
        (es : List Event)
        → (run s (timeout client ∷ message conn p ∷ []) ≡ some blocked)
          × ((run s (timeout client ∷ message conn p ∷ es) ≡ none)
              ⊎ ((u : Relay) × (run s (timeout client ∷ message conn p ∷ es) ≡ some u)
                  × (u.locked ≡ true)
                  × ((c : ℕ) → (answer_of u c ≡ none) ⊎ (answer_of u c ≡ answer_of s c))))
    late_response_blocks es = (
      run-late [] ∙ unfold run in refl,
      elim (Option-cases (run blocked es)) [
        | inl impossible ↦ inl (run-late es ∙ impossible)
        | inr (u, q) ↦
            let stuck = run-IsStuck blocked u es refl q in
            inr (
              u,
              run-late es ∙ q,
              stuck.held,
              λ c. IsStuck-answer s u c λ st b a. ground (
                arith,
                lookup-insert client c (replied timed_out) s.phases,
                stuck.answers c st b a,
              ),
            )
      ],
    )
