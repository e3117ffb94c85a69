-- ===== src/Web/Devices/Ownership.antt =====
-- internal/web/api/devices.go: what a user can do to a device.
use smarthome_backend.Prelude.{
  ◌+◌, String, ◌≡◌, refl, ap, string_Eq, Bool, true, false, List, [], ◌∷◌, ◌++◌, Option, none, some,
  any, arith, Bool-cases, Option-cases, ◌⊎◌, inl, inr, eq_refl,
}
use smarthome_backend.Json.{Payload, Map}
use smarthome_backend.Models.{Device}
use smarthome_backend.Redis.{Redis}
use smarthome_backend.Cron.{Cron}
use smarthome_backend.Database.{Pool, exec, first_where, update_where, has_device_id, has_user_id}
use smarthome_backend.Database.Schedules.{Up}
use smarthome_backend.Automation.Executor.{Message, command_topic}
use smarthome_backend.Web.{sent, reply, Site, run}
use smarthome_backend.Web.Devices.{
  owns, owner_and_acceptance, Broker, accepts, absent, refuses, publish, command_body, command_row,
  command, bind_params, marshal_params, update_device, give_device, set_owner,
}

abbrev pub rows : {R : Redis} {C : Cron} → Site R C → List Device
rows s = s.engine.pool.tables.devices

abbrev pub device_at : String → List Device → Option Device
device_at id = first_where (has_device_id id)

-- The first row with the ID is of an accepted device of the user.
pub record Permitted (user_id id : String) (l : List Device) : Type 0 where
  pub device : Device
  pub found : device_at id l ≡ some device
  pub accepted : device.accepted ≡ true
  pub owned : owns user_id device.owner_id ≡ true

abbrev pub message : String → Option Map → Message
message id params = record { topic = command_topic id; payload = marshal_params params }

-- The row that the query gives is that of the first device with the ID.
pub owner_and_acceptance-found :
    (p : Pool) (id : String) (owner : Option String) (accepted : Bool)
    → (exec p (owner_and_acceptance id)).0 ≡ some (owner, accepted)
    → (d : Device) × (device_at id p.tables.devices ≡ some d)
      × (d.owner_id ≡ owner)
      × (d.accepted ≡ accepted)
unfolding exec owner_and_acceptance
owner_and_acceptance-found p id owner accepted h = elim (Bool-cases (p.answers p.calls)) [
  | inr lost ↦ cc (rw lost at h)
  | inl reached ↦ elim (Option-cases (device_at id p.tables.devices)) [
    | inl missing ↦ let no = rw (reached, missing) at h in cc
    | inr (d, found) ↦ let yes = rw (reached, found) at h in (d, found, cc, cc)
  ]
]

module _ (R : Redis) (C : Cron) where
  publish_lem :
      (id : String) (params : Option Map) (broker : Broker) (s : Site R C)
      → let s' = (publish R C id params broker s).1 in
        (s'.published ≡ s.published) ⊎ (s'.published ≡ s.published ++ message id params ∷ [])
  unfolding publish
  publish_lem id params absent s = inl refl
  publish_lem id params refuses s = inl refl
  publish_lem id params accepts s = inr refl

  command_body_lem :
      (id : String) (broker : Broker) (body : Option (Option Map)) (s : Site R C)
      → let s' = (command_body R C id broker body s).1 in
        (s'.published ≡ s.published)
        ⊎ ((params : Option Map) × (body ≡ some params)
            × (s'.published ≡ s.published ++ message id params ∷ []))
  unfolding command_body
  command_body_lem id broker none s = inl refl
  command_body_lem id broker (some params) s = elim (publish_lem id params broker s) [
    | inl same ↦ inl same
    | inr more ↦ inr (params, refl, more)
  ]

  command_row_lem :
      (user_id id : String) (body : Payload) (broker : Broker) (row : Option (Option String × Bool))
      (s : Site R C)
      → let s' = (command_row R C user_id id body broker row s).1 in
        (s'.published ≡ s.published)
        ⊎ ((owner : Option String) × (row ≡ some (owner, true))
            × (owns user_id owner ≡ true)
            × ((params : Option Map) × (bind_params body ≡ some params)
                × (s'.published ≡ s.published ++ message id params ∷ [])))
  unfolding command_row
  command_row_lem u id body broker none s = inl refl
  command_row_lem u id body broker (some (owner, false)) s = inl refl
  command_row_lem u id body broker (some (owner, true)) s = elim (Bool-cases (owns u owner)) [
    | inr other ↦ inl (rw other refl)
    | inl mine ↦ rw mine (elim (command_body_lem id broker (bind_params body) s) [
      | inl same ↦ inl same
      | inr more ↦ inr (owner, refl, mine, more)
    ])
  ]

  -- Over any pool, a command request publishes nothing, or exactly one message: on the topic of
  -- the device, with the parameters of the body (null for the body null), and the first row of that ID is of a device that
  -- was accepted and that the user of the token owns.
  pub command-Permitted :
      (user_id id : String) (body : Payload) (broker : Broker) (s : Site R C)
      → let s' = (command R C user_id id body broker s).1 in
        (s'.published ≡ s.published)
        ⊎ (Permitted user_id id (rows s)
            × ((params : Option Map) × (bind_params body ≡ some params)
                × (s'.published ≡ s.published ++ message id params ∷ [])))
  unfolding command exec
  command-Permitted u id body broker s =
      let (row, s') = run R C s (owner_and_acceptance id) in
      elim (command_row_lem u id body broker row s') [
        | inl same ↦ inl same
        | inr (owner, found, mine, more) ↦
            let (d, here, owner', accepted) =
              owner_and_acceptance-found s.engine.pool id owner true found in
            inr (
              record { device = d; found = here; accepted = accepted; owned = rw owner' mine },
              more,
            )
      ]

-- The row with an ID, before and after an update that keeps the ID.
device_at-any :
    (id : String) (l : List Device) (d : Device)
    → device_at id l ≡ some d
    → any (has_device_id id) l ≡ true
unfolding first_where
device_at-any id [] d h = cc
device_at-any id (x ∷ l) d h = elim (Bool-cases (has_device_id id x)) [
  | inl here ↦ ground arith
  | inr other ↦ ground (arith, device_at-any id l d (rw other at h))
]

device_at-update_where :
    (id : String) (f : Device → Device) (l : List Device) (d : Device)
    → ((x : Device) → (f x).id ≡ x.id)
    → device_at id l ≡ some d
    → device_at id (update_where (has_device_id id) f l) ≡ some (f d)
unfolding first_where update_where
device_at-update_where id f [] d ids h = cc
device_at-update_where id f (x ∷ l) d ids h = elim (Bool-cases (has_device_id id x)) [
  | inl here ↦
      let same : x ≡ d = ground (arith, rw here at h) in
      let kept : has_device_id id (f x) ≡ true = rw (ids x) here in
      rw (here, kept) (ap (λ y. some (f y)) same)
  | inr other ↦ rw (other, other, device_at-update_where id f l d ids (rw other at h)) refl
]

-- Any user may become the owner of a device and then command it: where the connection of the pool
-- holds, the user is in the table, the device is there and accepted, the broker accepts and the
-- body is an object or null, a request to set the owner and then one to command, by the same user, publish
-- the command and answer 200, whoever owned the device before.
pub command-set_owner :
    (R : Redis) (C : Cron) (user_id id : String) (body : Payload) (params : Option Map)
    (s : Site R C) (d : Device)
    → Up s.engine.pool
    → any (has_user_id user_id) s.engine.pool.tables.users ≡ true
    → device_at id (rows s) ≡ some d
    → d.accepted ≡ true
    → bind_params body ≡ some params
    → let s1 = (set_owner R C user_id id s).1 in
      let (r, s2) = command R C user_id id body accepts s1 in
      (r ≡ reply 200 (sent (command_topic id) params))
      × (s2.published ≡ s.published ++ message id params ∷ [])
unfolding set_owner give_device command update_device owner_and_acceptance exec command_row
    command_body publish owns
command-set_owner R C u id body params s d up member here accepted read =
    rw
      (
        up.reached s.engine.pool.calls,
        device_at-any id (rows s) d here,
        member,
        up.reached (s.engine.pool.calls + 1),
        device_at-update_where id (λ x. record x { owner_id = some u }) (rows s) d (λ x. refl) here,
        accepted,
        eq_refl u,
        read,
      )
      (refl, refl)
