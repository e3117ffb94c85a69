-- ===== src/Bridge/Replies.antt =====
-- What the agent in the home sends, and what becomes of it at the relay server.
use Prim.Native.String
use smarthome_backend.Prelude.{
  ℕ, ◌+◌, String, ◌≡◌, refl, ◌∙◌, ◌==◌, string_Eq, nat_Eq, Bool, true, false, List, [], ◌∷◌, Option,
  none, some, map, All, contains, Bool-cases, inl, inr,
}
use smarthome_backend.Prelude.Int.{pos}
use smarthome_backend.Prelude.Dict.{lookup, insert}
use smarthome_backend.Json.{
  Value, null, num, str, Payload, doc, Map, marshal_map, of_map, unmarshal_map, to_map_from,
  unmarshal_value,
}
use smarthome_backend.Json.Float.{to_int}
use smarthome_backend.Database.{select_where}
use smarthome_backend.Relay.{Relay, message, response, waiting, replied, step, fields_of, field_of}
use smarthome_backend.Relay.Lock.{IsResponse}
use smarthome_backend.Relay.Replies.{on_message-delivers}
use smarthome_backend.Bridge.{
  Http, RequestMsg, decode, response_msg, local_response, set_headers, do_local_request, serve,
}

abbrev pub is_request : RequestMsg → Bool
is_request req = req.type == "request"

-- The requests among the messages that arrive.
abbrev pub requests : List Payload → List RequestMsg
requests msgs = select_where is_request (map decode msgs)

-- What the local server makes of a request.
abbrev pub local : Http → String → ℕ → RequestMsg → Value × ℕ
local H base n req = local_response (
    H.exchange n req.method (String.◌++◌ base req.path)
      (set_headers H (("Content-Type", "application/json") ∷ []) req.headers) (doc req.body))

module _ (H : Http) (base : String) where
  -- A request that net/http takes.
  abbrev pub IsTaken : RequestMsg → Type 0
  IsTaken req = H.new_request req.method (String.◌++◌ base req.path) ≡ true

  taken-lem :
      (n : ℕ) (req : RequestMsg)
      → IsTaken req
      → do_local_request H n base req
        ≡ some (
            local_response (
              H.exchange n req.method
                (String.◌++◌ base req.path)
                (set_headers H (("Content-Type", "application/json") ∷ []) req.headers)
                (doc req.body)))
  unfolding do_local_request
  taken-lem n req h = rw h refl

  -- A message says what the local server answered: its status and its body, null where the body does
  -- not parse, or that the request failed.
  abbrev pub Tells : Option (ℕ × Payload) → Map → Type 0
  Tells none m =
      (field_of "status" m ≡ num (H.number 500)) × (field_of "body" m ≡ str "local request failed")
  Tells (some (status, raw)) m =
      (field_of "status" m ≡ num (H.number status))
      × (field_of "body" m ≡ (elim (unmarshal_value raw) [ none ↦ null | some v ↦ v ]))

  -- The response to a request that is the numbered call of the local server.
  pub record IsReply (n : ℕ) (req : RequestMsg) (m : Map) : Type 0 where
    pub type : field_of "type" m ≡ str "response"
    pub request_id : field_of "reqId" m ≡ str req.req_id
    pub result :
        Tells
          (H.exchange n req.method
            (String.◌++◌ base req.path)
            (set_headers H (("Content-Type", "application/json") ∷ []) req.headers)
            (doc req.body))
          m

  -- One response for each request, in their order, from the numbered call on.
  abbrev pub Answers : ℕ → List RequestMsg → List Map → Type 0
  Answers n [] [] = Unit
  Answers n (req ∷ reqs) (m ∷ ms) = IsReply n req m × Answers (n + 1) reqs ms
  Answers n [] (m ∷ ms) = ⊥
  Answers n (req ∷ reqs) [] = ⊥

  response_msg-Tells :
      (o : Option (ℕ × Payload)) (req_id : String)
      → let (body, status) = local_response o in Tells o (response_msg H req_id status body)
  unfolding field_of lookup
  response_msg-Tells none req_id = (refl, refl)
  response_msg-Tells (some (status, raw)) req_id = (refl, refl)

  response_msg-IsReply :
      (n : ℕ) (req : RequestMsg)
      → let (body, status) = local H base n req in
        IsReply n req (response_msg H req.req_id status body)
  unfolding field_of lookup
  response_msg-IsReply n req = record {
    type = refl;
    request_id = refl;
    result = response_msg-Tells _ req.req_id;
  }

  -- Where net/http takes every request, a connection goes on to its end, and what is sent on it are
  -- the responses to the requests that arrive, one for each and in their order, each with the ID of
  -- its request and the status and the body of the local server (null where the body does not parse),
  -- or the status 500 if that failed, whatever other messages arrive in between.
  pub serve-replies :
      (n : ℕ) (msgs : List Payload)
      → All IsTaken (requests msgs)
      → ((serve H base n msgs).1 ≡ false) × Answers n (requests msgs) (serve H base n msgs).0
  unfolding serve select_where
  serve-replies n [] h = (refl, tt)
  serve-replies n (msg ∷ msgs) h = elim (Bool-cases (is_request (decode msg))) [
    | inr other ↦ let (fine, same) = serve-replies n msgs (rw other at h) in rw other (fine, same)
    | inl is ↦
        let k = rw is at h in
        let (fine, same) = serve-replies (n + 1) msgs k.1 in
        rw (is, taken-lem n (decode msg) k.0) (fine, (response_msg-IsReply n (decode msg), same))
  ]

response_msg-IsResponse :
    (H : Http) (req_id : String) (status : ℕ) (body : Value)
    → IsResponse (marshal_map (response_msg H req_id status body)) req_id (H.number status)
unfolding marshal_map of_map fields_of field_of unmarshal_map to_map_from insert lookup
response_msg-IsResponse H req_id status body = record {
  type = refl;
  request_id = refl;
  status = refl;
}

response_msg-body :
    (H : Http) (req_id : String) (status : ℕ) (body : Value)
    → field_of "body" (fields_of (marshal_map (response_msg H req_id status body))) ≡ body
unfolding marshal_map of_map fields_of field_of unmarshal_map to_map_from insert lookup
response_msg-body H req_id status body = refl

-- A request reaches its end: where net/http takes the request that arrives at the agent and the
-- number of JSON for the status reads back as the status, the agent
-- answers it with exactly one message, and, at a relay server whose lock is free, on a connection
-- whose handler runs, that message gives the client that waits for the request the status and the
-- body of the local server, or the status 500 if that failed.
pub serve-delivers :
    (H : Http) (base : String) (n : ℕ) (msg : Payload) (s : Relay) (conn client : ℕ)
    → is_request (decode msg) ≡ true
    → IsTaken H base (decode msg)
    → to_int (H.number (local H base n (decode msg)).1) ≡ pos (local H base n (decode msg)).1
    → contains conn s.stopped ≡ false
    → s.locked ≡ false
    → lookup (decode msg).req_id s.pending ≡ some client
    → lookup client s.phases ≡ some waiting
    → let (body, status) = local H base n (decode msg) in
      let answer = response_msg H (decode msg).req_id status body in
      ((serve H base n (msg ∷ [])).0 ≡ answer ∷ [])
      × ((t : Relay) × (step s (message conn (marshal_map answer)) ≡ some t)
          × (lookup client t.phases ≡ some (replied (response (pos status) body))))
unfolding serve
serve-delivers H base n msg s conn client is taken exact open_ free listed waits =
    let (body, status) = local H base n (decode msg) in
    let id = (decode msg).req_id in
    let p = marshal_map (response_msg H id status body) in
    let (t, moved, replied_, _, _, _) =
      on_message-delivers s conn client p id (H.number status)
        (response_msg-IsResponse H id status body) open_ free listed waits in
    (
      rw (is, taken-lem H base n (decode msg) taken) refl,
      (t, moved, replied_ ∙ rw (exact, response_msg-body H id status body) refl),
    )
