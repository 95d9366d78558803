-- ===== src/EventSourcing/Store.antt =====
-- InMemoryEventStore of packages/eventsourcing/src/memory.ts: its state, `append`, `read` and
-- `readAll`. Every operation runs while the ref's lock is held, so it is one step of the state.
use structure.Prelude.{
  ℕ, ◌+◌, String, Bool, true, false, not, ◌&&◌, Option, none, some, List, [], ◌∷◌, ◌++◌, length,
  take, nat_equality, text_equality, filter, includes, leb, ◌==◌, if◌then◌else◌, or_else, Dict,
  lookup, insert, Result, ok, err,
}
use structure.EventSourcing.Event.{AppendEvent, StoredEvent, Identity, conflict_identity}

pub record ErasedStreamRecord : Type 0 where
  pub last_version : ℕ
  pub erased_at : String
  pub reason : String

pub record HistoryImportSession : Type 0 where
  pub resume_token : String
  pub last_position : ℕ
  pub complete : Bool

pub data ImportStatus : Type 0 where
  imported unchanged : ImportStatus

pub record HistoryImportResult : Type 0 where
  pub status : ImportStatus
  pub imported_count : ℕ
  pub last_position : ℕ
  pub resume_token : String
  pub complete : Bool

pub record HistoryImportBatchRecord : Type 0 where
  pub checksum : String
  pub previous_token : Option String
  pub complete : Bool
  pub result : HistoryImportResult

-- `notified` counts the calls of `bus.notify`.
pub record EventStoreState : Type 0 where
  pub streams : Dict String (List StoredEvent)
  pub all : List StoredEvent
  pub imports : Dict String HistoryImportSession
  pub import_batches : Dict String HistoryImportBatchRecord
  pub erased : Dict String ErasedStreamRecord
  pub notified : ℕ

abbrev pub init : EventStoreState
init = record {
  streams = [];
  all = [];
  imports = [];
  import_batches = [];
  erased = [];
  notified = 0;
}

pub record ConcurrencyConflict : Type 0 where
  pub entity : String
  pub id : String
  pub expected_version : ℕ
  pub actual_version : ℕ

pub record AppendResult : Type 0 where
  pub first_version : ℕ
  pub last_version : ℕ

unfoldable pub conflict : String → ℕ → ℕ → ConcurrencyConflict
conflict stream_name expected actual =
    let identity : Identity = conflict_identity stream_name in
    record {
      entity = identity.entity;
      id = identity.id;
      expected_version = expected;
      actual_version = actual;
    }

-- The event that the callback of `events.map((event, index) => …)` makes.
abbrev pub stored_event : ℕ → String → ℕ → AppendEvent → ℕ → StoredEvent
stored_event base stream_name actual event index = record {
  position = base + (index + 1);
  stream_name = stream_name;
  version = actual + index + 1;
  type = event.type;
  schema_version = event.schema_version;
  payload = event.payload;
  metadata = event.metadata;
}

-- `events.map(…)`, from the given index on
unfoldable pub stored_from : ℕ → String → ℕ → ℕ → List AppendEvent → List StoredEvent
stored_from base stream_name actual index [] = []
stored_from base stream_name actual index (event ∷ events) =
    stored_event base stream_name actual event index
    ∷ stored_from base stream_name actual (index + 1) events

-- `state.streams.get(streamName) ?? []`
abbrev pub stream : EventStoreState → String → List StoredEvent
stream s name = or_else (lookup name s.streams) []

-- The writes of an accepted append that has events: the stream is set or pushed to, then `all`.
unfoldable pub write : String → List StoredEvent → EventStoreState → EventStoreState
write name stored s = record s {
  streams =
      insert name (elim (lookup name s.streams) [ none ↦ stored | some old ↦ old ++ stored ])
        s.streams;
  all = s.all ++ stored;
  notified = s.notified + 1;
}

unfoldable pub append :
    String
    → ℕ
    → List AppendEvent
    → EventStoreState
    → Result ConcurrencyConflict AppendResult × EventStoreState
unfolding write
append name expected events s = elim (lookup name s.erased) [
  | some pinned ↦ (err (conflict name expected pinned.last_version), s)
  | none ↦
      let actual : ℕ = length (stream s name) in
      if not (actual == expected)
      then (err (conflict name expected actual), s)
      else if length events == 0
      then (ok (record { first_version = actual; last_version = actual }), s)
      else (
        ok (record { first_version = actual + 1; last_version = actual + length events }),
        write name (stored_from (length s.all) name actual 0 events) s,
      )
]

unfoldable pub read : String → Option ℕ → EventStoreState → List StoredEvent
read name from_version s =
    let from : ℕ = or_else from_version 1 in filter (λ e. leb from e.version) (stream s name)

pub data Partition : Type 0 where
  one : String → Partition
  many : List String → Partition

pub record ReadAllOptions : Type 0 where
  pub from_position : Option ℕ
  pub batch_size : Option ℕ
  pub partition : Option Partition

-- `[...new Set(names)]`: the first of each name, in order
unfoldable pub distinct_from : List String → List String → List String
distinct_from seen [] = seen
distinct_from seen (name ∷ names) =
    distinct_from (if includes name seen then seen else seen ++ name ∷ []) names

unfoldable pub read_all_partitions : Option Partition → Option (List String)
unfolding distinct_from
read_all_partitions none = none
read_all_partitions (some (one name)) = some (name ∷ [])
read_all_partitions (some (many names)) = some (distinct_from [] names)

unfoldable pub in_partitions : Option (List String) → StoredEvent → Bool
in_partitions none e = true
in_partitions (some names) e = elim e.metadata.partition [
  | none ↦ false
  | some name ↦ includes name names
]

unfoldable pub read_all : ReadAllOptions → EventStoreState → List StoredEvent
unfolding in_partitions
read_all options s =
    let from : ℕ = or_else options.from_position 1 in
    let partitions = read_all_partitions options.partition in
    let events = filter (λ e. leb from e.position && in_partitions partitions e) s.all in
    elim options.batch_size [ none ↦ events | some size ↦ take size events ]
