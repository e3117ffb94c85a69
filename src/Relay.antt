-- ===== src/Relay.antt =====
-- cmd/remote_server/main.go: the public server, which passes the requests of clients on to the
-- agents in the homes and their responses back. The handlers run at once; a step is what one of
-- them does between two points at which it can wait, and `none` says that it cannot go on. The lock
-- of the agents is only held for one access; that of the pending requests is held over the
-- delivery of a response.
pub mod Lock
pub mod Replies
pub mod Changes
pub mod Final
pub mod Progress
pub mod Completion
pub mod Forward
use smarthome_backend.Prelude.{
  ℕ, ◌+◌, String, ◌==◌, nat_Eq, string_Eq, Bool, true, false, List, [], ◌∷◌, Option, none, some,
  contains, if◌then◌else◌,
}
use smarthome_backend.Prelude.Int.{ℤ}
use smarthome_backend.Prelude.Dict.{lookup, insert, delete}
use smarthome_backend.Json.{Value, null, num, str, Payload, Map, unmarshal_map}
use smarthome_backend.Json.Float.{to_int}

-- What a client gets: an error of the server (490, 491 or 504) or the response of the agent.
pub data Reply : Type 0 where
  missing_id offline timed_out : Reply
  response : ℤ → Value → Reply

-- Where the handler of a client stands: its message is written to the agent, it waits at its
-- channel, or it has replied.
pub data Phase : Type 0 where
  sending : String → Phase
  waiting : Phase
  replied : Reply → Phase

pub record Relay : Type 0 where
  -- agents: the connection of an agent
  pub agents : List (String × ℕ)
  -- the variable `agentID` of a connection's handler
  pub names : List (ℕ × String)
  -- the connections whose handler goes on no more
  pub stopped : List ℕ
  -- pending.m: the client of a request, whose channel it is
  pub pending : List (String × ℕ)
  -- pending.mux is held by a handler that will not release it
  pub locked : Bool
  pub phases : List (ℕ × Phase)
  -- the number of the next client
  pub next : ℕ

pub data Event : Type 0 where
  -- a message of an agent, and the end of its connection
  message : ℕ → Payload → Event
  closed : ℕ → Event
  -- a client's request, with the header and the request ID
  request : String → String → Event
  -- the client's handler enters its channel, and its time runs out
  enroll : ℕ → Event
  timeout : ℕ → Event

abbrev pub initial : Relay
initial = record {
  agents = [];
  names = [];
  stopped = [];
  pending = [];
  locked = false;
  phases = [];
  next = 0;
}

-- A message that does not parse leaves the map nil.
unfoldable pub fields_of : Payload → Map
fields_of p = elim (unmarshal_map p) [ none ↦ [] | some m ↦ m ]

-- data[key] where a missing key gives nil
unfoldable pub field_of : String → Map → Value
field_of k m = elim (lookup k m) [ none ↦ null | some v ↦ v ]

-- case "register": a panic ends the handler.
unfoldable pub on_register : Relay → ℕ → Value → Relay
on_register s conn (str id) = record s {
  names = insert conn id s.names;
  agents = insert id conn s.agents;
}
on_register s conn _ = record s { stopped = conn ∷ s.stopped }

-- The send on the channel: a client that waits gets the response, and the entry is deleted; with no
-- receiver the handler waits for ever, and holds the lock.
unfoldable pub deliver : Relay → ℕ → String → ℕ → ℤ → Value → Option Phase → Relay
deliver s conn req_id client status body (some waiting) = record s {
  phases = insert client (replied (response status body)) s.phases;
  pending = delete req_id s.pending;
}
deliver s conn req_id client status body _ = record s { stopped = conn ∷ s.stopped; locked = true }

-- Under the lock; a status that is no number panics before the lock is released.
unfoldable pub on_pending : Relay → ℕ → String → Value → Value → Option ℕ → Relay
unfolding deliver
on_pending s conn req_id status body none = s
on_pending s conn req_id (num f) body (some client) =
    deliver s conn req_id client (to_int f) body (lookup client s.phases)
on_pending s conn req_id _ body (some client) = record s {
  stopped = conn ∷ s.stopped;
  locked = true;
}

-- case "response"
unfoldable pub on_response : Relay → ℕ → Value → Value → Value → Option Relay
unfolding on_pending
on_response s conn (str req_id) status body =
    if s.locked then none else some (on_pending s conn req_id status body (lookup req_id s.pending))
on_response s conn _ status body = some (record s { stopped = conn ∷ s.stopped })

-- switch data["type"]
unfoldable pub on_type : Relay → ℕ → Map → Value → Option Relay
unfolding on_register on_response field_of
on_type s conn m (str type) =
    if type == "register"
    then some (on_register s conn (field_of "id" m))
    else if type == "response"
    then on_response s conn (field_of "reqId" m) (field_of "status" m) (field_of "body" m)
    else some s
on_type s conn m _ = some s

unfoldable pub on_message : Relay → ℕ → Payload → Option Relay
unfolding on_type fields_of
on_message s conn p =
    if contains conn s.stopped
    then none
    else on_type s conn (fields_of p) (field_of "type" (fields_of p))

-- A read error: the agent of the name is deleted, whoever registered it last.
unfoldable pub on_closed : Relay → ℕ → Option Relay
on_closed s conn =
    if contains conn s.stopped
    then none
    else some (elim (lookup conn s.names) [
      | none ↦ record s { stopped = conn ∷ s.stopped }
      | some id ↦
          if id == ""
          then record s { stopped = conn ∷ s.stopped }
          else record s { stopped = conn ∷ s.stopped; agents = delete id s.agents }
    ])

abbrev pub enter_phase : Relay → Phase → Relay
enter_phase s p = record s { phases = insert s.next p s.phases; next = s.next + 1 }

-- `handleClientRequest` up to the write to the agent's connection.
unfoldable pub on_request : Relay → String → String → Relay
on_request s agent_id req_id =
    if agent_id == "" then enter_phase s (replied missing_id) else elim (lookup agent_id s.agents) [
      | none ↦ enter_phase s (replied offline)
      | some conn ↦ enter_phase s (sending req_id)
    ]

-- pending.m[reqId] = respChan, under the lock
unfoldable pub on_enroll : Relay → ℕ → Option Phase → Option Relay
on_enroll s client (some (sending req_id)) =
    if s.locked
    then none
    else some (record s {
      pending = insert req_id client s.pending;
      phases = insert client waiting s.phases;
    })
on_enroll s client _ = none

-- The entry of the request stays.
unfoldable pub on_timeout : Relay → ℕ → Option Phase → Option Relay
on_timeout s client (some waiting) =
    some (record s { phases = insert client (replied timed_out) s.phases })
on_timeout s client _ = none

unfoldable pub step : Relay → Event → Option Relay
unfolding on_message on_closed on_request on_enroll on_timeout
step s (message conn p) = on_message s conn p
step s (closed conn) = on_closed s conn
step s (request agent_id req_id) = some (on_request s agent_id req_id)
step s (enroll client) = on_enroll s client (lookup client s.phases)
step s (timeout client) = on_timeout s client (lookup client s.phases)

abbrev pub continue : Option Relay → (Relay → Option Relay) → Option Relay
continue none k = none
continue (some s) k = k s

unfoldable pub run : Relay → List Event → Option Relay
run s [] = some s
run s (e ∷ es) = continue (step s e) (λ t. run t es)
