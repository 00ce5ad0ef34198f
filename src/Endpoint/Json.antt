-- ===== src/Endpoint/Json.antt =====
-- The SAX events of rapidjson, JSON values, and the events of a value.
use tentris.Base.{List, [], ◌∷◌, ◌++◌}
use tentris.Sparql.Syntax.{Text}

pub data Event : Type 0 where
  start_object : Event
  end_object : Event
  start_array : Event
  end_array : Event
  key : Text → Event
  string : Text → Event

mutual
  pub data Json : Type 0 where
    text : Text → Json
    array : Items → Json
    object : Members → Json

  pub data Items : Type 0 where
    no_items : Items
    item : Json → Items → Items

  pub data Members : Type 0 where
    no_members : Members
    member : Text → Json → Members → Members

unfoldable mutual
  pub events_of : Json → List Event
  events_of (text t) = string t ∷ []
  events_of (array items) = start_array ∷ (item_events items ++ end_array ∷ [])
  events_of (object members) = start_object ∷ (member_events members ++ end_object ∷ [])

  pub item_events : Items → List Event
  item_events no_items = []
  item_events (item j items) = events_of j ++ item_events items

  pub member_events : Members → List Event
  member_events no_members = []
  member_events (member k j members) = key k ∷ (events_of j ++ member_events members)
