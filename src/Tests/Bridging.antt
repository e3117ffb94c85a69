-- ===== src/Tests/Bridging.antt =====
-- The agent in the home before a local server that always answers, and the relay server.
use Prim.Native.String
use smarthome_backend.Prelude.{
  String, ◌≡◌, refl, eq_iff, arith, string_Eq, nat_Eq, true, false, List, [], ◌∷◌, some,
}
use smarthome_backend.Prelude.Int.{pos}
use smarthome_backend.Prelude.Dict.{lookup, insert}
use smarthome_backend.Json.{
  str, Payload, doc, malformed, marshal_map, of_map, unmarshal_map, to_map_from, unmarshal_value,
}
use smarthome_backend.Json.Float.{Float64, to_int}
use smarthome_backend.Database.{select_where}
use smarthome_backend.Relay.{
  Relay, message, request, enroll, response, replied, run, fields_of, field_of,
}
use smarthome_backend.Bridge.{Http, decode, response_msg, local_response, set_headers, serve}
use smarthome_backend.Bridge.Headers.{first_of}
use smarthome_backend.Bridge.Relayed.{decode-request_msg, run-relayed}
use smarthome_backend.Relay.Forward.{ClientRequest, request_msg}
use smarthome_backend.Bridge.Replies.{requests, Answers, serve-replies, local}

-- The float of 200.
abbrev pub ok_number : Float64
ok_number = record { negative = false; magnitude = 0x4069000000000000 }

abbrev steady : Http
steady = record {
  new_request = λ method url. true;
  exchange = λ n method url headers body. some (200, doc (str "ok"));
  canonical = λ key. key;
  number = λ n. ok_number;
}

abbrev pub asking : String → Payload
asking id = marshal_map (
    ("type", str "request")
    ∷ ("reqId", str id)
    ∷ ("method", str "GET")
    ∷ ("path", str "/devices/")
    ∷ [])

abbrev arriving : List Payload
arriving = asking "r1" ∷ malformed ∷ asking "r2" ∷ []

bridge : Unit {0}
unfolding decode fields_of field_of unmarshal_map to_map_from insert lookup marshal_map of_map
    select_where set_headers unmarshal_value
bridge = tt

serve-replies_example :
    ((serve steady "http://home" 0 arriving).1 ≡ false)
    × Answers steady "http://home" 0 (requests arriving) (serve steady "http://home" 0 arriving).0
unfolding bridge
serve-replies_example = serve-replies steady "http://home" 0 arriving (refl, (refl, tt))

-- A client's request with two values of a header and a body.
abbrev posting : ClientRequest
posting = record {
  method = "POST";
  path = "/rules";
  headers = ("Accept", "a" ∷ "b" ∷ []) ∷ ("Empty", []) ∷ [];
  body = doc (str "rule");
}

decode-request_msg_example :
    let m = decode (request_msg "r1" posting) in
    (m.type ≡ "request")
    × (m.req_id ≡ "r1")
    × (m.method ≡ "POST")
    × (m.path ≡ "/rules")
    × (m.body ≡ str "rule")
    × ((name : String) → lookup name m.headers ≡ first_of (lookup name posting.headers))
unfolding lookup unmarshal_value
decode-request_msg_example = decode-request_msg "r1" posting (refl, (refl, tt))

abbrev online : Relay
online = record {
  agents = ("home", 0) ∷ [];
  names = (0, "home") ∷ [];
  stopped = [];
  pending = [];
  locked = false;
  phases = [];
  next = 0;
}

run-relayed_example :
    let (body, status) = local steady "http://home" 0 (decode (request_msg "r1" posting)) in
    let answer = response_msg steady "r1" status body in
    ((body, status)
      ≡ local_response (
          steady.exchange 0 "POST"
            (String.◌++◌ "http://home" "/rules")
            (set_headers steady
              (("Content-Type", "application/json") ∷ [])
              (decode (request_msg "r1" posting)).headers)
            (doc (str "rule"))))
    × ((serve steady "http://home" 0 (request_msg "r1" posting ∷ [])).0 ≡ answer ∷ [])
    × ((t : Relay) × (run online
            (request "home" "r1" ∷ enroll 0 ∷ message 0 (marshal_map answer) ∷ [])
          ≡ some t)
        × (lookup 0 t.phases ≡ some (replied (response (pos status) body))))
unfolding lookup unmarshal_value to_int
run-relayed_example =
    run-relayed online "home" "r1" 0 (λ p. ground (arith, eq_iff "home" "")) refl refl steady
      "http://home" 0 posting refl refl refl
