-- ===== src/EventSourcing/Erasure.antt =====
-- packages/eventsourcing/src/StreamErasure.ts, and `eraseStream` of InMemoryEventStore in
-- packages/eventsourcing/src/memory.ts. The time of the call is an argument.
use structure.Prelude.{
  ℕ, String, not, Option, none, some, List, [], ◌∷◌, length, map, ◌==◌, nat_equality, text_equality,
  if◌then◌else◌, or_else, Dict, lookup, insert, delete, has, decimal, is_blank, append_text, Result,
  ok, err, ◌>>◌, fail_if,
}
use structure.EventSourcing.Event.{
  Json, object, text, member, end, StoredEvent, Identity, conflict_identity,
}
use structure.EventSourcing.Store.{EventStoreState, stream}
use structure.EventSourcing.Import.{is_safe_integer}

pub record StreamErasureRequest : Type 0 where
  pub stream_name : String
  pub expected_version : ℕ
  pub reason : String

pub record StreamErasureResult : Type 0 where
  pub erased_events : ℕ
  pub last_version : ℕ
  pub erased_at : String
  pub reason : String

-- StreamErasureError; a conflict carries the expected and the actual version.
pub data ErasureError : Type 0 where
  invalid_request : ErasureError
  stream_modified : ℕ → ℕ → ErasureError

abbrev pub erased_event_type : String
erased_event_type = "Erased"

unfoldable pub prepare_stream_erasure :
    StreamErasureRequest → Result ErasureError StreamErasureRequest
prepare_stream_erasure request = do
  fail_if (is_blank request.stream_name) invalid_request
  fail_if (not (is_safe_integer request.expected_version)) invalid_request
  fail_if (is_blank request.reason) invalid_request
  ok request

-- `erased:${streamName}:${version}`
erased_event_id : String → ℕ → String
erased_event_id stream_name version =
    append_text "erased:" (append_text stream_name (append_text ":" (decimal version)))

-- erasedTombstone over an event, with the position, the stream and the version kept
unfoldable pub tombstone : String → String → StoredEvent → StoredEvent
unfolding erased_event_id
tombstone stream_name erased_at event =
    let identity : Identity = conflict_identity stream_name in
    record {
      position = event.position;
      stream_name = event.stream_name;
      version = event.version;
      type = erased_event_type;
      schema_version = 1;
      payload = object (member "_tag" (text erased_event_type) end);
      metadata = record {
        event_id = erased_event_id stream_name event.version;
        occurred_at = erased_at;
        aggregate_name = identity.entity;
        aggregate_id = identity.id;
        aggregate_version = event.version;
        correlation_id = none;
        causation_id = none;
        actor = none;
        partition = none;
        origin = none;
        extensions = none;
      };
    }

-- `new Map(tombstones.map((event) => [event.version, event]))`, added to a map
unfoldable pub index_versions : Dict ℕ StoredEvent → List StoredEvent → Dict ℕ StoredEvent
index_versions by_version [] = by_version
index_versions by_version (event ∷ events) =
    index_versions (insert event.version event by_version) events

-- `state.all.map(…)`: the stream's events give way to their tombstones
unfoldable pub replacement : String → Dict ℕ StoredEvent → StoredEvent → StoredEvent
replacement stream_name by_version event =
    if not (event.stream_name == stream_name)
    then event
    else or_else (lookup event.version by_version) event

-- The store, and the SnapshotStore if there is one in the context. A snapshot is its JSON state.
pub record World : Type 0 where
  pub store : EventStoreState
  pub snapshots : Option (Dict String Json)

unfoldable pub erase : StreamErasureRequest → String → EventStoreState → EventStoreState
erase request erased_at s =
    let existing : List StoredEvent = stream s request.stream_name in
    let tombstones : List StoredEvent = map (tombstone request.stream_name erased_at) existing in
    record s {
      streams = insert request.stream_name tombstones s.streams;
      all = map (replacement request.stream_name (index_versions [] tombstones)) s.all;
      erased =
          insert request.stream_name
            (record {
              last_version = length existing;
              erased_at = erased_at;
              reason = request.reason;
            })
            s.erased;
    }

-- The critical section of `eraseStream`.
unfoldable pub erase_in_store :
    StreamErasureRequest
    → String
    → EventStoreState
    → Result ErasureError StreamErasureResult × EventStoreState
unfolding erase
erase_in_store request erased_at s = elim (lookup request.stream_name s.erased) [
  | some recorded ↦
      if not (request.expected_version == recorded.last_version)
      then (err (stream_modified request.expected_version recorded.last_version), s)
      else (
        ok (record {
          erased_events = 0;
          last_version = recorded.last_version;
          erased_at = recorded.erased_at;
          reason = recorded.reason;
        }),
        s,
      )
  | none ↦
      let actual : ℕ = length (stream s request.stream_name) in
      if not (actual == request.expected_version)
      then (err (stream_modified request.expected_version actual), s)
      else (
        ok (record {
          erased_events = actual;
          last_version = actual;
          erased_at = erased_at;
          reason = request.reason;
        }),
        erase request erased_at s,
      )
]

-- `snapshots.value.remove(streamName)` where there is a SnapshotStore
unfoldable pub remove_snapshot : String → Option (Dict String Json) → Option (Dict String Json)
remove_snapshot stream_name none = none
remove_snapshot stream_name (some snapshots) =
    some (if not (has stream_name snapshots) then snapshots else delete stream_name snapshots)

unfoldable pub finish :
    StreamErasureRequest
    → Result ErasureError StreamErasureResult
    → EventStoreState
    → Option (Dict String Json)
    → Result ErasureError StreamErasureResult × World
unfolding remove_snapshot
finish request (err e) store snapshots = (err e, record { store = store; snapshots = snapshots })
finish request (ok result) store snapshots =
    (ok result, record { store = store; snapshots = remove_snapshot request.stream_name snapshots })

unfoldable pub erase_stream :
    StreamErasureRequest → String → World → Result ErasureError StreamErasureResult × World
unfolding finish
erase_stream request erased_at w = elim (prepare_stream_erasure request) [
  | err e ↦ (err e, w)
  | ok _ ↦
      let (result, store) = erase_in_store request erased_at w.store in
      finish request result store w.snapshots
]
