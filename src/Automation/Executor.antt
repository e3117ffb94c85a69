-- ===== src/Automation/Executor.antt =====
-- internal/automation/executor.go: the commands that are published. A message is a topic and a
-- payload; without an MQTT client nothing is published.
use Prim.Native.String
use smarthome_backend.Prelude.{
  String, ◌==◌, string_Eq, Bool, not, ◌||◌, none, some, List, [], ◌∷◌, length, nat_Eq,
  if◌then◌else◌,
}
use smarthome_backend.Json.{null, Payload, doc, malformed, Map, marshal_map}
use smarthome_backend.TaskQueue.Actions.{Action, unmarshal_actions}

pub record Message : Type 0 where
  pub topic : String
  pub payload : Payload

abbrev pub command_topic : String → String
command_topic device_id = String.◌++◌ "devices/" (String.◌++◌ device_id "/commands")

-- The loop over the resolved actions; a device without parameters gets no command.
unfoldable pub publish_all : List (String × Map) → List Message
publish_all [] = []
publish_all ((device_id, params) ∷ rest) =
    let more = publish_all rest in
    if length params == 0
    then more
    else record { topic = command_topic device_id; payload = marshal_map params } ∷ more

unfoldable pub execute_resolved_actions : Bool → List (String × Map) → List Message
unfolding publish_all
execute_resolved_actions connected actions = if connected then publish_all actions else []

-- json.Marshal of a raw message: a missing one gives null.
abbrev pub raw : Payload → Payload
raw (doc v) = doc v
raw malformed = doc null

-- The loop of `ExecuteActions`; an action without a device is at most logged.
unfoldable pub publish_each : Bool → List Action → List Message
publish_each connected [] = []
publish_each connected (a ∷ rest) =
    let more = publish_each connected rest in
    if a.device_id == "" || not connected
    then more
    else record { topic = command_topic a.device_id; payload = raw a.params } ∷ more

unfoldable pub execute_actions : Bool → Payload → List Message
unfolding publish_each
execute_actions connected p = elim (unmarshal_actions p) [
  | none ↦ []
  | some actions ↦ publish_each connected actions
]
