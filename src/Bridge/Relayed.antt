-- ===== src/Bridge/Relayed.antt =====
-- A request's whole way: from the client through the relay server and the agent to the local server,
-- and the response back.
use Prim.Native.String
use smarthome_backend.Prelude.{
  ℕ, ◌+◌, String, ◌≡◌, ◌≢◌, refl, ◌∙◌, ◌==◌, string_Eq, nat_Eq, eq_iff, nat_eq_iff, true, false,
  List, [], ◌∷◌, Option, none, some, contains, arith, eq_refl,
}
use smarthome_backend.Prelude.Int.{pos}
use smarthome_backend.Prelude.Dict.{lookup, insert, lookup-insert}
use smarthome_backend.Json.{doc, marshal_map, unmarshal_map, to_map_from, unmarshal_value}
use smarthome_backend.Json.Float.{to_int}
use smarthome_backend.Relay.{
  Relay, Event, message, request, enroll, response, sending, waiting, replied, step, run,
  on_request, fields_of, field_of,
}
use smarthome_backend.Relay.Completion.{run-cons, step-enroll}
use smarthome_backend.Relay.Forward.{ClientRequest, request_msg, bound, first_values}
use smarthome_backend.Bridge.{Http, decode, response_msg, local_response, set_headers, serve}
use smarthome_backend.Bridge.Headers.{
  IsMap, first_values-IsMap, first_of, or, lookup-first_values, lookup-texts_from,
}
use smarthome_backend.Bridge.Replies.{local, serve-delivers}

or_none {ℓ} : {A : Type ℓ} (o : Option A) → or o none ≡ o
or_none none = refl
or_none (some v) = refl

-- The agent reads of a request's message what the client has sent: the request's ID, its method and
-- path, its body or null if that does not parse, and each header, whose names stand once in a
-- request, with its first value.
pub decode-request_msg :
    (req_id : String) (r : ClientRequest)
    → IsMap r.headers
    → let m = decode (request_msg req_id r) in
      (m.type ≡ "request")
      × (m.req_id ≡ req_id)
      × (m.method ≡ r.method)
      × (m.path ≡ r.path)
      × (m.body ≡ bound (unmarshal_value r.body))
      × ((name : String) → lookup name m.headers ≡ first_of (lookup name r.headers))
unfolding decode request_msg fields_of field_of unmarshal_map to_map_from insert lookup
decode-request_msg req_id r h = (
  refl,
  refl,
  refl,
  refl,
  refl,
  λ name.
      lookup-texts_from name (first_values [] r.headers) [] (first_values-IsMap [] r.headers tt)
      ∙ or_none (lookup name (first_values [] r.headers))
      ∙ lookup-first_values name [] r.headers h
      ∙ or_none (first_of (lookup name r.headers)),
)

step-request :
    (s : Relay) (agent_id req_id : String) (conn : ℕ)
    → agent_id ≢ ""
    → lookup agent_id s.agents ≡ some conn
    → step s (request agent_id req_id)
      ≡ some (record s { phases = insert s.next (sending req_id) s.phases; next = s.next + 1 })
unfolding step on_request
step-request s agent_id req_id conn named online =
    let other : (agent_id == "") ≡ false = ground (arith, eq_iff agent_id "") in
    rw (other, online) refl

-- The relay server before and after it has passed a request on and waits.
module _ (s : Relay) (agent_id req_id : String) (conn : ℕ) (named : agent_id ≢ "")
    (online : lookup agent_id s.agents ≡ some conn) (free : s.locked ≡ false) where
  abbrev sent : Relay
  sent = record s { phases = insert s.next (sending req_id) s.phases; next = s.next + 1 }

  abbrev pub asked : Relay
  asked = record sent {
    pending = insert req_id s.next s.pending;
    phases = insert s.next waiting sent.phases;
  }

  asked-listed : lookup req_id asked.pending ≡ some s.next
  asked-listed = lookup-insert req_id req_id s.next s.pending ∙ rw (eq_refl req_id) refl

  asked-waits : lookup s.next asked.phases ≡ some waiting
  asked-waits =
      ground (arith, lookup-insert s.next s.next waiting sent.phases, nat_eq_iff s.next s.next)

  run-asks : (es : List Event) → run s (request agent_id req_id ∷ enroll s.next ∷ es) ≡ run asked es
  run-asks es =
      run-cons s sent (request agent_id req_id) (enroll s.next ∷ es)
        (step-request s agent_id req_id conn named online)
      ∙ run-cons sent asked (enroll s.next) es (
          step-enroll sent s.next req_id free (
            ground (
              arith,
              lookup-insert s.next s.next (sending req_id) s.phases,
              nat_eq_iff s.next s.next,
            )))

  -- A client asks for an agent that is online, on a connection whose handler runs, while the lock is
  -- free. Where net/http takes the request at the agent and JSON's number for the status reads back
  -- as the status, the agent sends exactly one message for the message that the relay server has
  -- written; and once the client waits and that message arrives, the client has the status and the
  -- body with which the local server answers its method, its path after the base URL, its headers
  -- over the content type and its body, or the status 500 if that failed.
  pub run-relayed :
      (H : Http) (base : String) (n : ℕ) (r : ClientRequest)
      → H.new_request r.method (String.◌++◌ base r.path) ≡ true
      → to_int (H.number (local H base n (decode (request_msg req_id r))).1)
        ≡ pos (local H base n (decode (request_msg req_id r))).1
      → contains conn s.stopped ≡ false
      → let (body, status) = local H base n (decode (request_msg req_id r)) in
        let answer = response_msg H req_id status body in
        ((body, status)
          ≡ local_response (
              H.exchange n r.method
                (String.◌++◌ base r.path)
                (set_headers H
                  (("Content-Type", "application/json") ∷ [])
                  (decode (request_msg req_id r)).headers)
                (doc (bound (unmarshal_value r.body)))))
        × ((serve H base n (request_msg req_id r ∷ [])).0 ≡ answer ∷ [])
        × ((t : Relay) × (run s
                (request agent_id req_id ∷ enroll s.next ∷ message conn (marshal_map answer) ∷ [])
              ≡ some t)
            × (lookup s.next t.phases ≡ some (replied (response (pos status) body))))
  unfolding decode request_msg fields_of field_of unmarshal_map to_map_from insert lookup run
  run-relayed H base n r taken exact open_ =
      let (only, (t, moved, got)) =
        serve-delivers H base n (request_msg req_id r) asked conn s.next (eq_refl "request") taken
          exact open_ free asked-listed asked-waits in
      let (body, status) = local H base n (decode (request_msg req_id r)) in
      (
        refl,
        only,
        (
          t,
          run-asks (message conn (marshal_map (response_msg H req_id status body)) ∷ [])
              ∙ run-cons asked t (message conn (marshal_map (response_msg H req_id status body))) []
                  moved,
          got,
        ),
      )
