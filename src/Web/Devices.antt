-- ===== src/Web/Devices.antt =====
-- internal/web/api/devices.go
pub mod Ownership
pub mod Foreign
pub mod Requests
use smarthome_backend.Prelude.{
  String, ◌==◌, string_Eq, Bool, true, false, not, ◌&&◌, ◌||◌, List, [], ◌∷◌, ◌++◌, Option, none,
  some, any, if◌then◌else◌,
}
use smarthome_backend.Json.{null, obj, Payload, doc, Map, to_map_from, marshal_map}
use smarthome_backend.Models.{Device}
use smarthome_backend.Redis.{Redis}
use smarthome_backend.Cron.{Cron}
use smarthome_backend.Database.{
  Tables, Statement, first_where, select_where, delete_where, update_where, has_device_id,
  has_user_id, get_pending_devices,
}
use smarthome_backend.Automation.Executor.{Message, command_topic}
use smarthome_backend.Web.{
  Body, error, status, devices, sent, renamed, Response, reply, Site, run, Handler,
}

-- ownerID != nil && *ownerID == userID
unfoldable pub owns : String → Option String → Bool
owns user_id none = false
owns user_id (some owner) = owner == user_id

unfoldable pub owned_devices : String → Statement (List Device)
unfolding select_where owns
owned_devices user_id t =
    (some (select_where (λ d. owns user_id d.owner_id && d.accepted) t.devices), t)

-- An UPDATE of the row with an ID: the number of rows is only compared with 0. A new owner must be a
-- user.
unfoldable pub update_device : String → (Device → Device) → Statement Bool
unfolding update_where
update_device id f t = (
  some (any (has_device_id id) t.devices),
  record t { devices = update_where (has_device_id id) f t.devices },
)

unfoldable pub give_device : String → String → (Device → Device) → Statement Bool
unfolding update_device
give_device id user_id f t =
    if any (has_device_id id) t.devices && not (any (has_user_id user_id) t.users)
    then (none, t)
    else update_device id f t

abbrev pub device_row : Option Device → Option (Option String × Bool)
device_row none = none
device_row (some d) = some (d.owner_id, d.accepted)

-- The columns of the owner and of the acceptance.
unfoldable pub owner_and_acceptance : String → Statement (Option String × Bool)
unfolding first_where
owner_and_acceptance id t = (device_row (first_where (has_device_id id) t.devices), t)

unfoldable pub drop_device : String → Statement Bool
unfolding delete_where
drop_device id t = (
  some (any (has_device_id id) t.devices),
  record t { devices = delete_where (has_device_id id) t.devices },
)

-- The client of MQTT, if there is one, and whether it publishes.
pub data Broker : Type 0 where
  absent refuses accepts : Broker

abbrev pub listed : String → Option (List Device) → Response
listed complaint none = reply 500 (error complaint)
listed complaint (some l) = reply 200 (devices l)

-- What an UPDATE or a DELETE affected.
abbrev pub affected_response : String → Body → Option Bool → Response
affected_response complaint done none = reply 500 (error complaint)
affected_response complaint done (some false) = reply 404 (error "Device not found")
affected_response complaint done (some true) = reply 200 done

abbrev pub not_owner : Response
not_owner = reply 403 (error "Unauthorized: You don't own this device")

-- c.ShouldBindJSON(&commandParams): `null` leaves the map nil, which is `none` here.
unfoldable pub bind_params : Payload → Option (Option Map)
unfolding to_map_from
bind_params (doc (obj fs)) = some (some (to_map_from [] fs))
bind_params (doc null) = some none
bind_params _ = none

-- json.Marshal(commandParams): the nil map is written as `null`.
abbrev pub marshal_params : Option Map → Payload
marshal_params none = doc null
marshal_params (some m) = marshal_map m

module _ (R : Redis) (C : Cron) where
  unfoldable pub list_devices : String → Handler R C
  list_devices user_id s =
      let (l, s') = run R C s (owned_devices user_id) in (listed "Failed to fetch devices" l, s')

  unfoldable pub list_pending : String → Handler R C
  list_pending user_id s =
      let (l, s') = run R C s get_pending_devices in
      (listed "Failed to fetch pending devices" l, s')

  unfoldable pub accept : String → String → Handler R C
  accept user_id id s =
      let (n, s') =
        run R C s
          (give_device id user_id (λ d. record d { accepted = true; owner_id = some user_id })) in
      (affected_response "Failed to accept device" (status "Device accepted successfully") n, s')

  unfoldable pub set_owner : String → String → Handler R C
  set_owner user_id id s =
      let (n, s') =
        run R C s (give_device id user_id (λ d. record d { owner_id = some user_id })) in
      (
        affected_response "Failed to update device owner" (status "Owner updated successfully") n,
        s',
      )

  unfoldable pub publish : String → Option Map → Broker → Handler R C
  publish id params absent s = (reply 500 (error "MQTT client not available"), s)
  publish id params refuses s = (reply 500 (error "Failed to publish command"), s)
  publish id params accepts s =
      let m : Message = record { topic = command_topic id; payload = marshal_params params } in
      (reply 200 (sent (command_topic id) params), record s { published = s.published ++ m ∷ [] })

  unfoldable pub command_body : String → Broker → Option (Option Map) → Handler R C
  unfolding publish
  command_body id broker none s = (reply 400 (error "Invalid command parameters"), s)
  command_body id broker (some params) s = publish id params broker s

  unfoldable pub command_row :
      String → String → Payload → Broker → Option (Option String × Bool) → Handler R C
  unfolding command_body owns bind_params
  command_row user_id id body broker none s = (reply 404 (error "Device not found"), s)
  command_row user_id id body broker (some (owner, accepted)) s =
      if not accepted
      then (reply 403 (error "Device not accepted"), s)
      else if not (owns user_id owner)
      then (not_owner, s)
      else command_body id broker (bind_params body) s

  unfoldable pub command : String → String → Payload → Broker → Handler R C
  unfolding command_row
  command user_id id body broker s =
      let (row, s') = run R C s (owner_and_acceptance id) in
      command_row user_id id body broker row s'

  -- The name in the body, none if the body is refused.
  unfoldable pub rename_body : String → Option String → Handler R C
  rename_body id none s = (reply 400 (error "Invalid request: name is required"), s)
  rename_body id (some name) s =
      let (n, s') = run R C s (update_device id (λ d. record d { name = name })) in
      (affected_response "Failed to update device name" (renamed name) n, s')

  unfoldable pub rename_row :
      String → String → Option String → Option (Option String × Bool) → Handler R C
  unfolding rename_body owns
  rename_row user_id id body none s = (reply 404 (error "Device not found"), s)
  rename_row user_id id body (some (owner, accepted)) s =
      if not (owns user_id owner) then (not_owner, s) else rename_body id body s

  unfoldable pub rename : String → String → Option String → Handler R C
  unfolding rename_row
  rename user_id id body s =
      let (row, s') = run R C s (owner_and_acceptance id) in rename_row user_id id body row s'

  unfoldable pub delete_owned : String → Handler R C
  delete_owned id s =
      let (n, s') = run R C s (drop_device id) in
      (affected_response "Failed to delete device" (status "Device deleted successfully") n, s')

  unfoldable pub delete_row : String → String → Option (Option String × Bool) → Handler R C
  unfolding delete_owned owns
  delete_row user_id id none s = (reply 404 (error "Device not found"), s)
  delete_row user_id id (some (owner, accepted)) s =
      if not (owns user_id owner) then (not_owner, s) else delete_owned id s

  unfoldable pub delete : String → String → Handler R C
  unfolding delete_row
  delete user_id id s =
      let (row, s') = run R C s (owner_and_acceptance id) in delete_row user_id id row s'
