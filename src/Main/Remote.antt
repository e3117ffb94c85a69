-- ===== src/Main/Remote.antt =====
-- The bridge as the program starts it.
use Prim.Native.String
use smarthome_backend.Prelude.{
  ℕ, ◌+◌, String, ◌≡◌, refl, Bool, true, false, List, [], ◌∷◌, length, Option, none, some, any, All,
  Bool-cases, inl, inr,
}
use smarthome_backend.Json.{Payload, Map}
use smarthome_backend.Redis.{Redis}
use smarthome_backend.Cron.{Cron}
use smarthome_backend.Bridge.{
  Http, RequestMsg, decode, register_msg, do_local_request, serve, start,
}
use smarthome_backend.Bridge.Replies.{is_request}
use smarthome_backend.Config.{Config}
use smarthome_backend.Main.{local_url, bridges, remote_access, on_signal}

-- Whether a message is a request, and whether one arrives on a connection.
abbrev pub asks : Payload → Bool
asks msg = is_request (decode msg)

abbrev pub any_asks : Option (List Payload) → Bool
any_asks none = false
any_asks (some msgs) = any asks msgs

module _ (H : Http) (base server_id : String)
    (refuses : (method path : String) → H.new_request method (String.◌++◌ base path) ≡ false) where
  refused_request : (n : ℕ) (req : RequestMsg) → do_local_request H n base req ≡ none
  unfolding do_local_request
  refused_request n req = rw (refuses req.method req.path) refl

  serve-refused : (n : ℕ) (msgs : List Payload) → serve H base n msgs ≡ ([], any asks msgs)
  unfolding serve
  serve-refused n [] = refl
  serve-refused n (msg ∷ msgs) = elim (Bool-cases (asks msg)) [
    | inl is ↦ rw (is, refused_request n (decode msg)) refl
    | inr other ↦ rw (other, serve-refused n msgs) refl
  ]

  start-refused :
      (n : ℕ) (connections : List (Option (List Payload)))
      → ((start H base server_id n connections).1 ≡ any any_asks connections)
        × All (λ sent. sent ≡ register_msg server_id ∷ []) (start H base server_id n connections).0
  unfolding start
  start-refused n [] = (refl, tt)
  start-refused n (none ∷ more) = start-refused n more
  start-refused n (some msgs ∷ more) =
      let later = start-refused (n + length msgs) more in
      rw (serve-refused n msgs) (elim (Bool-cases (any asks msgs)) [
        | inl is ↦ rw is (refl, (refl, tt))
        | inr other ↦ rw other (later.0, (refl, later.1))
      ])

module _ (R : Redis) (C : Cron) (H : Http) where
  -- Let remote access be enabled, and let net/http refuse every URL that begins with the URL of the
  -- local server, which the program passes on without a scheme: a URL with a colon in its first
  -- segment is refused. Then no request of the relay server is ever answered: all that the bridge
  -- sends on a connection is its registration, and the program is ended by a panic if and only if a
  -- request arrives on one of the connections; and no signal comes to the end that stops the engine,
  -- the scheduler and the workers.
  pub remote_access-refused :
      (cfg : Config) (connections : List (Option (List Payload)))
      → cfg.remote_enabled ≡ true
      → ((method path : String) → H.new_request method (String.◌++◌ (local_url cfg) path) ≡ false)
      → (sent : List (List Map)) × (panicked : Bool) × (remote_access R C H cfg connections
          ≡ bridges sent panicked)
        × (panicked ≡ any any_asks connections)
        × All (λ ms. ms ≡ register_msg cfg.app_agent_id ∷ []) sent
        × (on_signal (remote_access R C H cfg connections) ≡ [])
  unfolding remote_access on_signal
  remote_access-refused cfg connections enabled refuses =
      let (panics, sent) = start-refused H (local_url cfg) cfg.app_agent_id refuses 0 connections in
      let r = start H (local_url cfg) cfg.app_agent_id 0 connections in
      (r.0, r.1, rw enabled refl, panics, sent, rw enabled refl)
