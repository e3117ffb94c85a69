-- ===== src/Bridge.antt =====
-- internal/internet_bridge/agent.go: the agent in the home, which answers the requests that the relay
-- server passes on with what the local server says. The names in a message are matched as they are
-- written and stand once, as the relay server writes them.
pub mod Replies
pub mod Headers
pub mod Relayed
use Prim.Native.String
use smarthome_backend.Prelude.{
  ℕ, ◌+◌, String, ◌==◌, string_Eq, Bool, true, false, not, List, [], ◌∷◌, length, Option, none,
  some, if◌then◌else◌,
}
use smarthome_backend.Prelude.Dict.{lookup, insert}
use smarthome_backend.Json.{
  Value, null, num, str, obj, Fields, end, field, Payload, doc, malformed, Map, unmarshal_value,
  marshal_map, to_map_from,
}
use smarthome_backend.Json.Float.{Float64}
use smarthome_backend.Relay.{fields_of, field_of}

-- net/http and the numbers of encoding/json.
pub record Http : Type 0 where
  -- whether NewRequest takes a method and a URL
  pub new_request : String → String → Bool
  -- Do and ReadAll for the numbered call: the status and what is read of the body, none on an error
  pub exchange : ℕ → String → String → List (String × String) → Payload → Option (ℕ × Payload)
  -- the key under which a header is set
  pub canonical : String → String
  pub number : ℕ → Float64

pub record RequestMsg : Type 0 where
  pub type : String
  pub req_id : String
  pub method : String
  pub path : String
  pub headers : List (String × String)
  pub body : Value

-- What a string is left at by a value of another type.
abbrev pub text_of : Value → String
text_of (str s) = s
text_of _ = ""

unfoldable pub texts_from : List (String × String) → Fields → List (String × String)
texts_from m end = m
texts_from m (field k v fs) = texts_from (insert k (text_of v) m) fs

abbrev pub texts_of : Value → List (String × String)
texts_of (obj fs) = texts_from [] fs
texts_of _ = []

-- json.Unmarshal, whose error is not looked at.
unfoldable pub decode : Payload → RequestMsg
unfolding fields_of field_of texts_from
decode p = record {
  type = text_of (field_of "type" (fields_of p));
  req_id = text_of (field_of "reqId" (fields_of p));
  method = text_of (field_of "method" (fields_of p));
  path = text_of (field_of "path" (fields_of p));
  headers = texts_of (field_of "headers" (fields_of p));
  body = field_of "body" (fields_of p);
}

-- The message of a response.
abbrev pub response_msg : Http → String → ℕ → Value → Map
response_msg H req_id status body =
    ("type", str "response")
    ∷ ("reqId", str req_id)
    ∷ ("status", num (H.number status))
    ∷ ("body", body)
    ∷ []

abbrev pub register_msg : String → Map
register_msg id = ("type", str "register") ∷ ("id", str id) ∷ []

-- A body that does not parse gives nil.
abbrev pub parsed : Option Value → Value
parsed none = null
parsed (some v) = v

abbrev pub local_response : Option (ℕ × Payload) → Value × ℕ
local_response none = (str "local request failed", 500)
local_response (some (status, raw)) = (parsed (unmarshal_value raw), status)

module _ (H : Http) where
  unfoldable pub set_headers :
      List (String × String) → List (String × String) → List (String × String)
  set_headers set [] = set
  set_headers set ((key, value) ∷ more) = set_headers (insert (H.canonical key) value set) more

  -- Without a request, setting a header panics.
  unfoldable pub do_local_request : ℕ → String → RequestMsg → Option (Value × ℕ)
  unfolding set_headers unmarshal_value
  do_local_request n base req =
      let url = String.◌++◌ base req.path in
      let headers = set_headers (("Content-Type", "application/json") ∷ []) req.headers in
      if H.new_request req.method url
      then some (local_response (H.exchange n req.method url headers (doc req.body)))
      else none

  -- What a connection does: the messages that it has sent, and whether the program has panicked.
  abbrev pub answered : String → Option (Value × ℕ) → (Unit {0} → List Map × Bool) → List Map × Bool
  answered req_id none rest = ([], true)
  answered req_id (some (body, status)) rest =
      let (sent, panicked) = rest tt in (response_msg H req_id status body ∷ sent, panicked)

  -- One round of the loop for each message, until reading fails.
  unfoldable pub serve : String → ℕ → List Payload → List Map × Bool
  unfolding do_local_request decode
  serve base n [] = ([], false)
  serve base n (msg ∷ msgs) =
      let req = decode msg in
      let later = serve base (n + 1) msgs in
      let skipped = serve base n msgs in
      if not (req.type == "request")
      then skipped
      else answered req.req_id (do_local_request n base req) (λ _. later)

  unfoldable pub run : String → String → ℕ → List Payload → List Map × Bool
  unfolding serve
  run base server_id n msgs =
      let (sent, panicked) = serve base n msgs in (register_msg server_id ∷ sent, panicked)

  -- Connections one after another, none where dialling fails, up to a panic.
  unfoldable pub start : String → String → ℕ → List (Option (List Payload)) → List (List Map) × Bool
  unfolding run
  start base server_id n [] = ([], false)
  start base server_id n (none ∷ more) = start base server_id n more
  start base server_id n (some msgs ∷ more) =
      let (sent, panicked) = run base server_id n msgs in
      let (others, ended) = start base server_id (n + length msgs) more in
      if panicked then (sent ∷ [], true) else (sent ∷ others, ended)
