-- ===== src/Tests/Relaying.antt =====
-- The relay: one agent, and clients that wait for it.
use smarthome_backend.Prelude.{
  All, ℕ, ◌≤◌, ◌≡◌, ◌++◌, ◌⊎◌, refl, true, false, List, [], ◌∷◌, none, some, contains, nat_Eq,
  string_Eq,
}
use smarthome_backend.Prelude.Int.{pos}
use smarthome_backend.Prelude.Dict.{lookup, insert, delete}
use smarthome_backend.Json.{num, str, obj, end, field, Payload, doc, unmarshal_map}
use smarthome_backend.Json.Float.{Float64, to_int}
use smarthome_backend.Relay.{
  response, offline, timed_out, Phase, waiting, replied, Relay, Event, message, closed, request,
  enroll, timeout, initial, fields_of, field_of, step, run,
}
use smarthome_backend.Relay.Lock.{IsResponse, answer_of, late_response_blocks}
use smarthome_backend.Relay.Progress.{own, own_steps}
use smarthome_backend.Relay.Completion.{HasReply, run-completes}
use smarthome_backend.Relay.Replies.{IsRegistration, run-offline}
use smarthome_backend.Relay.Final.{run-replied}

abbrev home : Payload
home = doc (obj (field "type" (str "register") (field "id" (str "home") end)))

-- 200
abbrev ok_status : Float64
ok_status = record { negative = false; magnitude = 0x4069000000000000 }

abbrev answer_r1 : Payload
answer_r1 = doc (
    obj (
      field "type" (str "response")
        (field "reqId" (str "r1") (field "status" (num ok_status) (field "body" (str "hi") end)))))

abbrev ask : List Event
ask = message 0 home ∷ request "home" "r1" ∷ enroll 0 ∷ []

abbrev asked : Relay
asked = record {
  agents = ("home", 0) ∷ [];
  names = (0, "home") ∷ [];
  stopped = [];
  pending = ("r1", 0) ∷ [];
  locked = false;
  phases = (0, waiting) ∷ [];
  next = 1;
}

relay : Unit {0}
unfolding run step lookup insert delete fields_of field_of unmarshal_map
relay = tt

ask_runs : run initial ask ≡ some asked
unfolding relay
ask_runs = refl

answer_r1-IsResponse : IsResponse answer_r1 "r1" ok_status
unfolding relay
answer_r1-IsResponse = record { type = refl; request_id = refl; status = refl }

abbrev late : List Event
late = timeout 0 ∷ message 0 answer_r1 ∷ request "home" "r2" ∷ []

abbrev after_late : Relay
after_late = record {
  agents = ("home", 0) ∷ [];
  names = (0, "home") ∷ [];
  stopped = 0 ∷ [];
  pending = ("r1", 0) ∷ [];
  locked = true;
  phases = (0, replied timed_out) ∷ (1, Phase.sending "r2") ∷ [];
  next = 2;
}

late_runs : run asked late ≡ some after_late
unfolding relay
late_runs = refl

late_response_blocks_example :
    (run asked (timeout 0 ∷ message 0 answer_r1 ∷ [])
      ≡ some (record after_late { phases = (0, replied timed_out) ∷ []; next = 1 }))
    × ((run asked late ≡ none)
        ⊎ ((u : Relay) × (run asked late ≡ some u)
            × (u.locked ≡ true)
            × ((c : ℕ) → (answer_of u c ≡ none) ⊎ (answer_of u c ≡ answer_of asked c))))
unfolding relay
late_response_blocks_example =
    late_response_blocks answer_r1 "r1" ok_status asked 0 0 answer_r1-IsResponse refl refl refl refl
      (request "home" "r2" ∷ [])

abbrev answered : Relay
answered = record asked { pending = []; phases = (0, replied (response (pos 200) (str "hi"))) ∷ [] }

answered_runs :
    run initial (message 0 home ∷ request "home" "r1" ∷ enroll 0 ∷ message 0 answer_r1 ∷ [])
    ≡ some answered
unfolding relay to_int
answered_runs = refl

run-replied_example :
    lookup 0 (record answered { stopped = 0 ∷ []; agents = [] }).phases
    ≡ some (replied (response (pos 200) (str "hi")))
unfolding relay
run-replied_example =
    run-replied (message 0 home ∷ request "home" "r1" ∷ enroll 0 ∷ message 0 answer_r1 ∷ [])
      (closed 0 ∷ []) answered (record answered { stopped = 0 ∷ []; agents = [] }) 0
      (response (pos 200) (str "hi")) answered_runs refl refl

home-IsRegistration : IsRegistration home "home"
unfolding relay
home-IsRegistration = record { type = refl; id = refl }

-- The agent registers again on connection 1 before its connection 0 ends.
run-offline_example :
    (t : Relay) × (run initial
        (message 0 home ∷ message 1 home ∷ closed 0 ∷ request "home" "r1" ∷ [])
      ≡ some t)
    × (lookup 0 t.phases ≡ some (replied offline))
    × (contains 1 t.stopped ≡ false)
    × (lookup 1 t.names ≡ some "home")
run-offline_example =
    run-offline initial 0 1 home home "home" "r1" home-IsRegistration home-IsRegistration refl refl
      refl refl

run-completes_example :
    (t : Relay) × (more : List Event) × (run asked more ≡ some t)
    × All (λ e. own e ≡ 1) more
    × (t.locked ≡ false)
    × (own_steps (ask ++ more) ≤ 2)
    × ((c : ℕ) → (1 ≤ c) ⊎ HasReply t c)
run-completes_example = run-completes ask asked ask_runs refl
