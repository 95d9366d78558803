-- ===== src/EventSourcing/Event.antt =====
-- The events of packages/eventsourcing/src/EventStore.ts, and the identity that a conflict names
-- (packages/eventsourcing/src/memory.ts). A value of type `unknown` is a JSON value.
use Prim.Native.Char.{code}
use mathlib.Core.Option
use structure.Prelude.{ℕ, String, Bool, Option, none, some, nat_same, if◌then◌else◌}

mutual
  pub data Json : Type 0 where
    null : Json
    boolean : Bool → Json
    number : ℕ → Json
    text : String → Json
    array : Items → Json
    object : Members → Json

  pub data Items : Type 0 where
    nil : Items
    item : Json → Items → Items

  pub data Members : Type 0 where
    end : Members
    member : String → Json → Members → Members

-- `origin` of EventMetadata
pub record Origin : Type 0 where
  pub node : String
  pub position : String

-- StoredEventMetadata: EventMetadata in its encoded form
pub record Metadata : Type 0 where
  pub event_id : String
  pub occurred_at : String
  pub aggregate_name : String
  pub aggregate_id : String
  pub aggregate_version : ℕ
  pub correlation_id : Option String
  pub causation_id : Option String
  pub actor : Option String
  pub partition : Option String
  pub origin : Option Origin
  pub extensions : Option Json

pub record AppendEvent : Type 0 where
  pub type : String
  pub schema_version : ℕ
  pub payload : Json
  pub metadata : Metadata

pub record StoredEvent : Type 0 where
  pub position : ℕ
  pub stream_name : String
  pub version : ℕ
  pub type : String
  pub schema_version : ℕ
  pub payload : Json
  pub metadata : Metadata

pub record Identity : Type 0 where
  pub entity : String
  pub id : String

-- The parts before and after the first `-`.
unfoldable pub split_dash : String → Option (String × String)
split_dash String.[] = none
split_dash (String.◌∷◌ c s) =
    if nat_same (code c) b'-'
    then some ("", s)
    else Option.map (λ p. (String.◌∷◌ c p.0, p.1)) (split_dash s)

-- conflictIdentity, erasureIdentity
unfoldable pub conflict_identity : String → Identity
conflict_identity stream_name = elim (split_dash stream_name) [
  | none ↦ record { entity = stream_name; id = stream_name }
  | some (entity, id) ↦ record { entity = entity; id = id }
]
