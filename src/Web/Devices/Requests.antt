-- ===== src/Web/Devices/Requests.antt =====
-- internal/web/api/devices.go: the requests of users, one after another.
use smarthome_backend.Prelude.{
  String, ◌≡◌, refl, ◌∙◌, string_Eq, Bool, true, false, List, [], ◌∷◌, Option, none, some,
  Bool-cases, Option-cases, inl, inr,
}
use smarthome_backend.Json.{Payload, Map}
use smarthome_backend.Models.{Device}
use smarthome_backend.Redis.{Redis}
use smarthome_backend.Cron.{Cron}
use smarthome_backend.Database.{Statement, exec, get_pending_devices}
use smarthome_backend.Web.{Site, run}
use smarthome_backend.Web.Devices.{
  owns, owned_devices, owner_and_acceptance, Broker, accepts, absent, refuses, publish, bind_params,
  command_body, command_row, command, rename_body, rename_row, rename, delete_owned, delete_row,
  delete, update_device, drop_device, list_devices, list_pending,
}
use smarthome_backend.Web.Devices.Foreign.{
  HasKeys, foreign, renamed_to, update_where-HasKeys, delete_where-HasKeys, foreign-update_where,
  foreign-delete_where,
}
use smarthome_backend.Web.Devices.Ownership.{rows, device_at, owner_and_acceptance-found}

-- The requests but those that give a device to the user.
pub data Request : Type 0 where
  lists lists_pending : Request
  commands : (id : String) (body : Payload) (broker : Broker) → Request
  renames : (id : String) (name : Option String) → Request
  deletes : (id : String) → Request

-- What a user leaves: the rows of others, and the keys.
pub record Respects (user_id : String) (l l' : List Device) : Type 0 where
  pub same : foreign user_id l' ≡ foreign user_id l
  pub keys : HasKeys l'

module _ (R : Redis) (C : Cron) where
  unfoldable pub serve : String → Site R C → Request → Site R C
  serve user_id s lists = (list_devices R C user_id s).1
  serve user_id s lists_pending = (list_pending R C user_id s).1
  serve user_id s (commands id body broker) = (command R C user_id id body broker s).1
  serve user_id s (renames id name) = (rename R C user_id id name s).1
  serve user_id s (deletes id) = (delete R C user_id id s).1

  unfoldable pub serve_all : String → Site R C → List Request → Site R C
  unfolding serve
  serve_all user_id s [] = s
  serve_all user_id s (r ∷ rs) = serve_all user_id (serve user_id s r) rs

  -- A query leaves the rows.
  run-rows :
      {A : Type 0} (s : Site R C) (f : Statement A)
      → ((f s.engine.pool.tables).1.devices ≡ rows s)
      → rows (run R C s f).1 ≡ rows s
  unfolding exec
  run-rows s f h = elim (Bool-cases (s.engine.pool.answers s.engine.pool.calls)) [
    | inl reached ↦ rw reached h
    | inr lost ↦ rw lost refl
  ]

  publish-rows :
      (id : String) (params : Option Map) (broker : Broker) (s : Site R C)
      → rows (publish R C id params broker s).1 ≡ rows s
  unfolding publish
  publish-rows id params absent s = refl
  publish-rows id params refuses s = refl
  publish-rows id params accepts s = refl

  command_row-rows :
      (user_id id : String) (body : Payload) (broker : Broker) (row : Option (Option String × Bool))
      (s : Site R C)
      → rows (command_row R C user_id id body broker row s).1 ≡ rows s
  unfolding command_row command_body
  command_row-rows u id body broker none s = refl
  command_row-rows u id body broker (some (owner, false)) s = refl
  command_row-rows u id body broker (some (owner, true)) s = elim (Bool-cases (owns u owner)) [
    | inr other ↦ rw other refl
    | inl mine ↦ rw mine (elim (Option-cases (bind_params body)) [
      | inl bad ↦ rw bad refl
      | inr (params, read) ↦ rw read (publish-rows id params broker s)
    ])
  ]

  command-rows :
      (user_id id : String) (body : Payload) (broker : Broker) (s : Site R C)
      → rows (command R C user_id id body broker s).1 ≡ rows s
  unfolding command owner_and_acceptance
  command-rows u id body broker s =
      let (row, s') = run R C s (owner_and_acceptance id) in
      command_row-rows u id body broker row s' ∙ run-rows s (owner_and_acceptance id) refl

  -- A change of the rows that the user owns, which the pool may lose.
  module _ (user_id : String) where
    run-Respects :
        {A : Type 0} (s : Site R C) (f : Statement A)
        → HasKeys (rows s)
        → Respects user_id (rows s) (f s.engine.pool.tables).1.devices
        → Respects user_id (rows s) (rows (run R C s f).1)
    unfolding exec
    run-Respects s f keys h = elim (Bool-cases (s.engine.pool.answers s.engine.pool.calls)) [
      | inl reached ↦ rw reached h
      | inr lost ↦ rw lost (record { same = refl; keys = keys })
    ]

    unchanged : (l l' : List Device) → HasKeys l → l' ≡ l → Respects user_id l l'
    unchanged l l' keys e = rw e (record { same = refl; keys = keys })

    module _ (id : String) (d : Device) (mine : owns user_id d.owner_id ≡ true) where
      rename_body-Respects :
          (name : Option String) (s : Site R C)
          → HasKeys (rows s)
          → device_at id (rows s) ≡ some d
          → Respects user_id (rows s) (rows (rename_body R C id name s).1)
      unfolding rename_body update_device
      rename_body-Respects none s keys here = record { same = refl; keys = keys }
      rename_body-Respects (some name) s keys here =
          run-Respects s (update_device id (renamed_to name)) keys (record {
            same = foreign-update_where user_id id d mine name (rows s) keys here;
            keys = update_where-HasKeys id name (rows s) keys;
          })

      delete_owned-Respects :
          (s : Site R C)
          → HasKeys (rows s)
          → device_at id (rows s) ≡ some d
          → Respects user_id (rows s) (rows (delete_owned R C id s).1)
      unfolding delete_owned drop_device
      delete_owned-Respects s keys here = run-Respects s (drop_device id) keys (record {
        same = foreign-delete_where user_id id d mine (rows s) keys here;
        keys = delete_where-HasKeys id (rows s) keys;
      })

    Respects-from : {l k l' : List Device} → l ≡ k → Respects user_id l l' → Respects user_id k l'
    Respects-from e h = rw (← e) h

    -- A handler that looks for the owner first.
    Owned : String → Site R C → Option (Option String × Bool) → Type 0
    Owned id s row =
        (owner : Option String) (accepted : Bool)
        → row ≡ some (owner, accepted)
        → (d : Device) × (device_at id (rows s) ≡ some d)
          × (d.owner_id ≡ owner)
          × (d.accepted ≡ accepted)

    rename_row-Respects :
        (id : String) (name : Option String) (row : Option (Option String × Bool)) (s : Site R C)
        → HasKeys (rows s)
        → Owned id s row
        → Respects user_id (rows s) (rows (rename_row R C user_id id name row s).1)
    unfolding rename_row Owned
    rename_row-Respects id name none s keys h = record { same = refl; keys = keys }
    rename_row-Respects id name (some (owner, accepted)) s keys h =
        elim (Bool-cases (owns user_id owner)) [
          | inr other ↦ rw other (record { same = refl; keys = keys })
          | inl mine ↦
              let (d, here, e, _) = h owner accepted refl in
              rw mine (rename_body-Respects id d (rw e mine) name s keys here)
        ]

    delete_row-Respects :
        (id : String) (row : Option (Option String × Bool)) (s : Site R C)
        → HasKeys (rows s)
        → Owned id s row
        → Respects user_id (rows s) (rows (delete_row R C user_id id row s).1)
    unfolding delete_row Owned
    delete_row-Respects id none s keys h = record { same = refl; keys = keys }
    delete_row-Respects id (some (owner, accepted)) s keys h =
        elim (Bool-cases (owns user_id owner)) [
          | inr other ↦ rw other (record { same = refl; keys = keys })
          | inl mine ↦
              let (d, here, e, _) = h owner accepted refl in
              rw mine (delete_owned-Respects id d (rw e mine) s keys here)
        ]

    -- What the query of the row finds, and what it leaves.
    module _ (id : String) (s : Site R C) where
      asked : Site R C
      asked = (run R C s (owner_and_acceptance id)).1

      asked-rows : rows asked ≡ rows s
      unfolding asked owner_and_acceptance
      asked-rows = run-rows s (owner_and_acceptance id) refl

      asked-Owned : Owned id asked (run R C s (owner_and_acceptance id)).0
      unfolding Owned
      asked-Owned owner accepted found =
          rw asked-rows (owner_and_acceptance-found s.engine.pool id owner accepted found)

    rename-Respects :
        (id : String) (name : Option String) (s : Site R C)
        → HasKeys (rows s)
        → Respects user_id (rows s) (rows (rename R C user_id id name s).1)
    unfolding rename asked
    rename-Respects id name s keys =
        Respects-from (asked-rows id s) (
          rename_row-Respects id name _ (asked id s) (rw (asked-rows id s) keys) (asked-Owned id s))

    delete-Respects :
        (id : String) (s : Site R C)
        → HasKeys (rows s)
        → Respects user_id (rows s) (rows (delete R C user_id id s).1)
    unfolding delete asked
    delete-Respects id s keys =
        Respects-from (asked-rows id s)
          (delete_row-Respects id _ (asked id s) (rw (asked-rows id s) keys) (asked-Owned id s))

    serve-Respects :
        (s : Site R C) (r : Request)
        → HasKeys (rows s)
        → Respects user_id (rows s) (rows (serve user_id s r))
    unfolding serve list_devices list_pending owned_devices get_pending_devices
    serve-Respects s lists keys =
        unchanged (rows s) _ keys (run-rows s (owned_devices user_id) refl)
    serve-Respects s lists_pending keys =
        unchanged (rows s) _ keys (run-rows s get_pending_devices refl)
    serve-Respects s (commands id body broker) keys =
        unchanged (rows s) _ keys (command-rows user_id id body broker s)
    serve-Respects s (renames id name) keys = rename-Respects id name s keys
    serve-Respects s (deletes id) keys = delete-Respects id s keys

    -- Where the IDs of the devices are distinct, no sequence of requests of a user that list,
    -- command, rename or delete devices changes, adds or removes the row of a device that is not the
    -- user's, whichever statements the database answers, and the IDs stay distinct.
    pub serve_all-Respects :
        (s : Site R C) (rs : List Request)
        → HasKeys (rows s)
        → Respects user_id (rows s) (rows (serve_all user_id s rs))
    unfolding serve_all
    serve_all-Respects s [] keys = record { same = refl; keys = keys }
    serve_all-Respects s (r ∷ rs) keys =
        let first = serve-Respects s r keys in
        let rest = serve_all-Respects (serve user_id s r) rs first.keys in
        record { same = rest.same ∙ first.same; keys = rest.keys }
