-- ===== src/Automation/Updater/Triggers.antt =====
-- Which rules a device update triggers.
use Prim.Native.String
use text.Mathlib.TextLemmas.{append_cancel_left, length-append}
use smarthome_backend.Prelude.{
  String, ◌≡◌, refl, ap, ◌==◌, string_Eq, eq_iff, eq_refl, true, false, List, Option, some, any,
  contains, arith, Bool-cases, inl, inr,
}
use smarthome_backend.Json.{Map, marshal_map}
use smarthome_backend.Utils.{is_significant_change}
use smarthome_backend.Models.{Rule, Device}
use smarthome_backend.Redis.{Redis, Strings, Sets}
use smarthome_backend.Engine.{rules_key, rules_pattern, populate_associations}
use smarthome_backend.Engine.Associations.{watches, populate_associations_lem}
use smarthome_backend.Automation.Evaluator.{device_key}
use smarthome_backend.Automation.Updater.{update_device, process_device_update}

-- The key of a device's state is not that of its rules.
own_keys : (id : String) → (device_key id == rules_key id) ≡ false
own_keys id = elim (Bool-cases (device_key id == rules_key id)) [
  | inr done ↦ done
  | inl equal ↦
      let tails : id ≡ String.◌++◌ id ":rules" =
        append_cancel_left "device:" _ _ ((eq_iff (device_key id) (rules_key id)).0 equal) in
      absurd (omega (arith, ap String.count tails, length-append id ":rules"))
]

module _ (R : Redis) (strings : Strings R) (sets : Sets R) where
  -- After the associations are made anew without an error, an update of an accepted device stores
  -- its new state, and triggers a rule if and only if an enabled rule of the database with its ID
  -- has a condition that names the device.
  pub process_device_update-populate_associations :
      (s : R.Store) (rules : List Rule) (ks : List String) (get_device : String → Option Device)
      (id rule_id : String) (state : Map) (device : Device)
      → R.keys s rules_pattern ≡ some ks
      → get_device id ≡ some device
      → device.accepted ≡ true
      → (contains rule_id
            (process_device_update R get_device
              (populate_associations R s (some rules)).0
              id
              state).rule_ids
          ≡ any (watches rule_id id) rules)
        × (R.get
              (process_device_update R get_device
                (populate_associations R s (some rules)).0
                id
                state).store
              (device_key id)
            ≡ some (marshal_map state))
  unfolding process_device_update update_device is_significant_change
  process_device_update-populate_associations s rules ks get_device id rule_id state device h found
        on =
      let s1 = (populate_associations R s (some rules)).0 in
      rw (found, on)
        (
          rw
              (
                strings.members-set s1 (device_key id) (rules_key id) (marshal_map state),
                own_keys id,
              )
              (populate_associations_lem R sets id rule_id s rules ks h).1,
          rw
              (
                strings.get-set s1 (device_key id) (device_key id) (marshal_map state),
                eq_refl (device_key id),
              )
              refl,
        )
