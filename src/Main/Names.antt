-- ===== src/Main/Names.antt =====
-- cmd/engine/main.go: startMDNSServer. A failure is only logged.
use smarthome_backend.Prelude.{String, Bool, not, Option, none, some, if◌then◌else◌}

-- Whether each call of the libraries works: the two addresses resolve, both can be listened at, and
-- the server starts.
pub record Network : Type 0 where
  pub resolves4 : Bool
  pub resolves6 : Bool
  pub listens4 : Bool
  pub listens6 : Bool
  pub serves : Bool

-- The message that is logged, none if the server is started.
unfoldable pub start_mdns_server : Network → Option String
start_mdns_server n =
    if not n.resolves4
    then some "Failed to resolve UDP4 address for mDNS:"
    else if not n.resolves6
    then some "Failed to resolve UDP6 address for mDNS:"
    else if not n.listens4
    then some "Failed to listen on UDP4 for mDNS:"
    else if not n.listens6
    then some "Failed to listen on UDP6 for mDNS:"
    else if not n.serves
    then some "Failed to start mDNS server:"
    else none
