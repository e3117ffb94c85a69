-- ===== src/Models.antt =====
-- internal/models/models.go: the rows of the database and the tree of a rule's conditions.
use smarthome_backend.Prelude.{String, Bool, Option}
use smarthome_backend.Json.{Payload}
use smarthome_backend.Json.Float.{Float64}

pub record Device : Type 0 where
  pub id : String
  pub name : String
  pub type : String
  pub state : Payload
  pub mqtt_topic : String
  pub accepted : Bool
  pub owner_id : Option String

-- The fields of a condition but its children.
pub record Node : Type 0 where
  pub type : String
  pub device_id : String
  pub key : String
  pub op : String
  pub value : Payload
  pub min_change : Float64
  pub operator : String

mutual
  pub data Condition : Type 0 where
    condition : Node → Conditions → Condition

  pub data Conditions : Type 0 where
    no_more : Conditions
    child : Condition → Conditions → Conditions

-- What the `conditions` column unmarshals to; `none` if it is refused. The `actions` column is kept
-- as a document, since the program unmarshals it at two types.
pub record Rule : Type 0 where
  pub id : String
  pub name : String
  pub conditions : Option Condition
  pub actions : Payload
  pub enabled : Bool
  pub owner_id : String

pub record Schedule : Type 0 where
  pub id : String
  pub rule_id : String
  pub cron_expression : String
  pub enabled : Bool
