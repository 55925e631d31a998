-- ===== src/Telemetry/Events.antt =====
-- The values that are logged, and their copies, which are values of JSON.
use hermes_auto.Json.{ℤ}
use hermes_auto.Prelude.Result.{Result}
use hermes_auto.Prelude.{String, Bool, Option, none, some, List, ◌==◌, if◌then◌else◌}

-- A key of a dict: a text, or another value with its `repr`, or the type of what `repr` raised.
pub data Key : Type 0 where
  text : String → Key
  odd : Result String String → Key

mutual
  -- A value as a tree. `again` is a container that stands inside itself, where it is met once more;
  -- it has the texts among its items where it is a list. `opaque` is a value of another type, with
  -- the type's name, and its `repr` unless that raises.
  pub data Event : Type 0 where
    null : Event
    bool : Bool → Event
    int : ℤ → Event
    float : String → Event
    str : String → Event
    opaque : String → Option String → Event
    again : List String → Event
    list : Events → Event
    tuple : Events → Event
    dict : Entries → Event

  pub data Events : Type 0 where
    nil : Events
    cons : Event → Events → Events

  pub data Entries : Type 0 where
    end : Entries
    entry : Key → Event → Entries → Entries

-- `node.get(key)`, of a text key
unfoldable pub get : String → Entries → Option Event
get k end = none
get k (entry (text j) v es) = if j == k then some v else get k es
get k (entry (odd j) v es) = get k es
