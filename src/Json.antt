-- ===== src/Json.antt =====
-- What `encoding/json` hands to the program: the values of an `interface{}` and messages on the
-- wire. A JSON text is modelled by the document that it denotes; marshalling builds the document,
-- and a text that does not parse is `malformed`.
pub mod Float
use smarthome_backend.Prelude.{String, string_Eq, Bool, Option, none, some, List, [], ◌∷◌}
use smarthome_backend.Prelude.Dict.{insert}
use Float.{Float64}

mutual
  -- `null`, `bool`, `float64`, `string`, `[]interface{}` and `map[string]interface{}`
  pub data Value : Type 0 where
    null : Value
    bool : Bool → Value
    num : Float64 → Value
    str : String → Value
    obj : Fields → Value
    arr : Items → Value

  pub data Fields : Type 0 where
    end : Fields
    field : String → Value → Fields → Fields

  pub data Items : Type 0 where
    nil : Items
    cons : Value → Items → Items

pub data Payload : Type 0 where
  doc : Value → Payload
  malformed : Payload

-- `map[string]interface{}`: the nil map and the empty one have the same entries.
abbrev pub Map : Type 0
Map = List (String × Value)

-- A repeated name overwrites the entry before it.
unfoldable pub to_map_from : Map → Fields → Map
to_map_from m end = m
to_map_from m (field k v fs) = to_map_from (insert k v m) fs

unfoldable pub of_map : Map → Fields
of_map [] = end
of_map ((k, v) ∷ m) = field k v (of_map m)

-- json.Unmarshal into `interface{}`
unfoldable pub unmarshal_value : Payload → Option Value
unmarshal_value (doc v) = some v
unmarshal_value malformed = none

-- json.Unmarshal into `map[string]interface{}`; `null` leaves the map nil
unfoldable pub unmarshal_map : Payload → Option Map
unfolding to_map_from
unmarshal_map (doc (obj fs)) = some (to_map_from [] fs)
unmarshal_map (doc null) = some []
unmarshal_map _ = none

-- json.Marshal of a map
unfoldable pub marshal_map : Map → Payload
unfolding of_map
marshal_map m = doc (obj (of_map m))
