-- ===== src/Engine/Rules/Commands.antt =====
-- What the web API asks of the engine, in any order.
use smarthome_backend.Prelude.{String, List, [], ◌∷◌, Option, none, some}
use smarthome_backend.Redis.{Redis}
use smarthome_backend.Cron.{Cron, Registers}
use smarthome_backend.Scheduler.Sync.{Synced}
use smarthome_backend.Engine.{rules_pattern}
use smarthome_backend.Engine.Rules.{
  Engine, remove_from, remove_keys, remove_rule_associations, refresh_rule_associations,
  trigger_rule_evaluation,
}
use smarthome_backend.Engine.Rules.Keeps.{remove_schedules-Keeps}
use smarthome_backend.Engine.Rules.Refreshing.{refresh_rule_associations-Synced}

pub data Command : Type 0 where
  refresh remove trigger : String → Command

module _ (R : Redis) (C : Cron) where
  unfoldable pub obey : Engine R C → Command → Engine R C
  obey e (refresh rule_id) = (refresh_rule_associations R C e rule_id).1
  obey e (remove rule_id) = (remove_rule_associations R C e rule_id).1
  obey e (trigger rule_id) = trigger_rule_evaluation R C e rule_id

  unfoldable pub obey_all : Engine R C → List Command → Engine R C
  unfolding obey
  obey_all e [] = e
  obey_all e (c ∷ cs) = obey_all (obey e c) cs

module _ (R : Redis) (C : Cron) (laws : Registers C) where
  remove_keys-Synced :
      (e : Engine R C) (rule_id : String) (o : Option (List String))
      → Synced C e.scheduler
      → Synced C (remove_keys R C e rule_id o).1.scheduler
  unfolding remove_keys
  remove_keys-Synced e r none h = h
  remove_keys-Synced e r (some ks) h =
      (remove_schedules-Keeps R C laws (record e { store = remove_from R e.store r ks }) r).synced h

  obey-Synced :
      (e : Engine R C) (c : Command) → Synced C e.scheduler → Synced C (obey R C e c).scheduler
  unfolding obey remove_rule_associations trigger_rule_evaluation
  obey-Synced e (refresh r) h = refresh_rule_associations-Synced R C laws e r h
  obey-Synced e (remove r) h = remove_keys-Synced e r (R.keys e.store rules_pattern) h
  obey-Synced e (trigger r) h = h

  -- From a scheduler whose map and cron entries belong together, every sequence of what the web API
  -- asks of the engine leaves such a scheduler, whatever Redis and the database answer.
  pub obey_all-Synced :
      (e : Engine R C) (cs : List Command)
      → Synced C e.scheduler
      → Synced C (obey_all R C e cs).scheduler
  unfolding obey_all
  obey_all-Synced e [] h = h
  obey_all-Synced e (c ∷ cs) h = obey_all-Synced (obey R C e c) cs (obey-Synced e c h)
