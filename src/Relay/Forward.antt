-- ===== src/Relay/Forward.antt =====
-- cmd/remote_server/main.go: the message that a client's request becomes, with the first value of
-- each header. The header of a request is a map, whose names are those that gin gives.
use smarthome_backend.Prelude.{String, string_Eq, List, [], ◌∷◌, Option, none, some}
use smarthome_backend.Prelude.Dict.{insert}
use smarthome_backend.Json.{
  Value, null, str, obj, Fields, end, field, Payload, doc, unmarshal_value,
}

-- A request of a client: its body is what ShouldBindJSON reads.
pub record ClientRequest : Type 0 where
  pub method : String
  pub path : String
  pub headers : List (String × List String)
  pub body : Payload

-- An error leaves the body nil.
abbrev pub bound : Option Value → Value
bound none = null
bound (some v) = v

unfoldable pub first_values :
    List (String × String) → List (String × List String) → List (String × String)
first_values m [] = m
first_values m ((key, []) ∷ more) = first_values m more
first_values m ((key, value ∷ values) ∷ more) = first_values (insert key value m) more

unfoldable pub of_texts : List (String × String) → Fields
of_texts [] = end
of_texts ((k, v) ∷ m) = field k (str v) (of_texts m)

-- json.Marshal of the message.
unfoldable pub request_msg : String → ClientRequest → Payload
unfolding of_texts first_values unmarshal_value
request_msg req_id r = doc (
    obj (
      field "type" (str "request") (
        field "reqId" (str req_id) (
          field "method" (str r.method) (
            field "path" (str r.path) (
              field "headers" (obj (of_texts (first_values [] r.headers)))
                (field "body" (bound (unmarshal_value r.body)) end)))))))
