-- ===== src/Relay/Replies.antt =====
-- What clients get: a response in time, and one reply each.
use smarthome_backend.Prelude.{
  ℕ, String, ◌≡◌, refl, nat_Eq, string_Eq, eq_iff, nat_eq_iff, true, false, ◌⊎◌, [], ◌∷◌, none,
  some, contains, arith, eq_refl, ◌==◌, ◌∙◌,
}
use smarthome_backend.Prelude.Dict.{lookup, insert, delete, lookup-insert, lookup-delete}
use smarthome_backend.Json.{str, Payload}
use smarthome_backend.Json.Float.{Float64, to_int}
use smarthome_backend.Relay.{
  response, waiting, replied, Relay, message, closed, request, fields_of, field_of, on_response,
  on_type, on_message, on_closed, on_register, on_request, enter_phase, offline, step, run,
  on_pending, deliver,
}
use smarthome_backend.Relay.Lock.{IsResponse}

same_number : (n : ℕ) → (n == n) ≡ true
same_number n = (nat_eq_iff n n).1 refl

-- A registration of an agent.
pub record IsRegistration (p : Payload) (agent : String) : Type 0 where
  pub type : field_of "type" (fields_of p) ≡ str "register"
  pub id : field_of "id" (fields_of p) ≡ str agent

-- While the lock is free, the response of an agent, on a connection whose handler runs, to a request
-- whose client waits gives that client its status and its body, deletes the entry of the request,
-- leaves the lock free, and changes the phase of no other client.
pub on_message-delivers :
    (s : Relay) (conn client : ℕ) (p : Payload) (req_id : String) (f : Float64)
    → IsResponse p req_id f
    → contains conn s.stopped ≡ false
    → s.locked ≡ false
    → lookup req_id s.pending ≡ some client
    → lookup client s.phases ≡ some waiting
    → (t : Relay) × (step s (message conn p) ≡ some t)
      × (lookup client t.phases
          ≡ some (replied (response (to_int f) (field_of "body" (fields_of p)))))
      × (lookup req_id t.pending ≡ none)
      × (t.locked ≡ false)
      × ((c : ℕ) → (c ≡ client) ⊎ (lookup c t.phases ≡ lookup c s.phases))
unfolding step on_message on_type on_response on_pending deliver
on_message-delivers s conn client p req_id f r open_ free listed waits =
    let answered = replied (response (to_int f) (field_of "body" (fields_of p))) in
    (
      record s { phases = insert client answered s.phases; pending = delete req_id s.pending },
      rw (open_, r.type, r.request_id, r.status, free, listed, waits) refl,
      ground (arith, lookup-insert client client answered s.phases, nat_eq_iff client client),
      ground (arith, lookup-delete req_id req_id s.pending, eq_iff req_id req_id),
      free,
      λ c. ground (arith, lookup-insert client c answered s.phases, nat_eq_iff client c),
    )

-- The state behind a registration.
abbrev registered : Relay → ℕ → String → Relay
registered s conn id = record s { names = insert conn id s.names; agents = insert id conn s.agents }

step-register :
    (s : Relay) (conn : ℕ) (p : Payload) (id : String)
    → IsRegistration p id
    → contains conn s.stopped ≡ false
    → step s (message conn p) ≡ some (registered s conn id)
unfolding step on_message on_type on_register
step-register s conn p id r open_ = rw (open_, r.type, r.id) refl

step-closed :
    (s : Relay) (conn : ℕ) (id : String)
    → contains conn s.stopped ≡ false
    → lookup conn s.names ≡ some id
    → (id == "") ≡ false
    → step s (closed conn)
      ≡ some (record s { stopped = conn ∷ s.stopped; agents = delete id s.agents })
unfolding step on_closed
step-closed s conn id open_ named filled = rw (open_, named, filled) refl

step-offline :
    (s : Relay) (id req_id : String)
    → (id == "") ≡ false
    → lookup id s.agents ≡ none
    → step s (request id req_id) ≡ some (enter_phase s (replied offline))
unfolding step on_request
step-offline s id req_id filled gone = rw (filled, gone) refl

-- An agent that registers again, on another connection, before its first connection ends is out of
-- reach: on two connections whose handlers run, two registrations of an ID that is not empty, then
-- the end of the first connection and a request for that agent are possible in this order, and the
-- client is told at once that the agent is offline, while the handler of the second connection runs
-- and has the agent's name.
pub run-offline :
    (s : Relay) (first second : ℕ) (p q : Payload) (id req_id : String)
    → IsRegistration p id
    → IsRegistration q id
    → (first == second) ≡ false
    → contains first s.stopped ≡ false
    → contains second s.stopped ≡ false
    → (id == "") ≡ false
    → (t : Relay) × (run s
          (message first p ∷ message second q ∷ closed first ∷ request id req_id ∷ [])
        ≡ some t)
      × (lookup s.next t.phases ≡ some (replied offline))
      × (contains second t.stopped ≡ false)
      × (lookup second t.names ≡ some id)
unfolding run
run-offline s first second p q id req_id a b apart open_ open_' filled =
    let s1 = registered s first id in
    let s2 = registered s1 second id in
    let s3 : Relay = record s2 { stopped = first ∷ s.stopped; agents = delete id s2.agents } in
    let named : lookup first s2.names ≡ some id =
      lookup-insert second first id s1.names
      ∙ ground (arith, lookup-insert first first id s.names, same_number first) in
    let gone : lookup id s3.agents ≡ none = lookup-delete id id s2.agents ∙ rw (eq_refl id) refl in
    (
      enter_phase s3 (replied offline),
      rw
          (
            step-register s first p id a open_,
            step-register s1 second q id b open_',
            step-closed s2 first id open_ named filled,
            step-offline s3 id req_id filled gone,
          )
          refl,
      lookup-insert s.next s.next (replied offline) s.phases ∙ rw (same_number s.next) refl,
      rw (apart, open_') refl,
      lookup-insert second second id s1.names ∙ rw (same_number second) refl,
    )
