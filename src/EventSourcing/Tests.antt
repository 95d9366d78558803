-- ===== src/EventSourcing/Tests.antt =====
-- Runs of the event store's operations, and instances of its theorems at concrete inputs.
use structure.Prelude.{
  ℕ, String, List, [], ◌≡◌, refl, Option, none, some, true, ok, ◌∷◌, length, lookup, err, ◌+◌, ◌++◌,
  drop, false, if◌then◌else◌, insert, ◌==◌, filter, delete, take, is_blank, decimal, text_equality,
  min, ◌⊎◌, is_some, ◌≢◌,
}
use structure.EventSourcing.Event.{
  AppendEvent, StoredEvent, Metadata, null, conflict_identity, split_dash,
}
use structure.EventSourcing.Store.{
  imported, EventStoreState, init, append, stream, read, read_all, conflict, ErasedStreamRecord,
  write, HistoryImportResult, unchanged, stored_from, Partition, AppendResult, ConcurrencyConflict,
}
use structure.EventSourcing.Import.{
  Codec, HistoryImportBatch, import_batch_key, prepare_history_import_batch, history_import_target,
  validate_history_import_continuation, history_import_resume_token, continue_from,
}
use structure.EventSourcing.Commit.{import_batch, push_all, retry, check_session, commit, admit}
use structure.EventSourcing.Erasure.{
  World, StreamErasureRequest, erase_stream, StreamErasureResult, erase_in_store, erase,
  prepare_stream_erasure, tombstone, index_versions, replacement,
}
use structure.EventSourcing.Invariant.{IsWellFormed, IsPinned}
use structure.EventSourcing.Invariant.Append.{append-IsWellFormed}
use structure.EventSourcing.Reach.{
  append_step, erase_step, Reach, here, next, init-IsWellFormed, reachable-IsWellFormed,
}
use structure.EventSourcing.Concurrency.{
  append_accepts, append_refuses, one_writer_wins, IsNumbered,
}
use structure.EventSourcing.Pinned.{erased_forever}
use structure.EventSourcing.Retry.{erase_stream_idempotent, import_batch_idempotent}
use structure.EventSourcing.Feed.{feed, wanted}

-- Opens what the runs below compute.
run : Unit {0}
unfolding append write stored_from conflict conflict_identity split_dash lookup insert delete
    erase_stream erase_in_store erase prepare_stream_erasure tombstone index_versions replacement
    is_blank decimal import_batch import_batch_key prepare_history_import_batch
    history_import_target validate_history_import_continuation push_all retry check_session commit
    admit history_import_resume_token continue_from
run = tt

abbrev metadata : String → ℕ → Metadata
metadata id version = record {
  event_id = id;
  occurred_at = "2026-01-01T00:00:00Z";
  aggregate_name = "order";
  aggregate_id = "1";
  aggregate_version = version;
  correlation_id = none;
  causation_id = none;
  actor = none;
  partition = none;
  origin = none;
  extensions = none;
}

abbrev placed : String → ℕ → AppendEvent
placed id version = record {
  type = "Placed";
  schema_version = 1;
  payload = null;
  metadata = metadata id version;
}

abbrev two_events : List AppendEvent
two_events = placed "a" 1 ∷ placed "b" 2 ∷ []

abbrev after_two : EventStoreState
after_two = (append "order-1" 0 two_events init).1

after_two-IsWellFormed : IsWellFormed after_two
after_two-IsWellFormed = append-IsWellFormed "order-1" 0 two_events init init-IsWellFormed

accepted :
    (append "order-1" 0 two_events init).0 ≡ ok (record { first_version = 1; last_version = 2 })
unfolding run
accepted = refl

after_two_versions : length (stream after_two "order-1") ≡ 2
unfolding run
after_two_versions = refl

abbrev codec : Codec
codec = record {
  checksum = λ events. "sum";
  token = λ input. input.checksum;
  decode_metadata = λ m. some m;
  decode = λ event. true;
}

abbrev imported_event : StoredEvent
imported_event = record {
  position = 1;
  stream_name = "order-7";
  version = 1;
  type = "Placed";
  schema_version = 1;
  payload = null;
  metadata = metadata "x" 1;
}

abbrev batch : HistoryImportBatch
batch = record {
  import_id = "i";
  batch_id = "b";
  events = imported_event ∷ [];
  checksum = "sum";
  resume_token = none;
  complete = none;
}

abbrev batch_result : HistoryImportResult
batch_result = record {
  status = imported;
  imported_count = 1;
  last_position = 1;
  resume_token = "sum";
  complete = false;
}

batch_imported : (import_batch codec batch init).0 ≡ ok batch_result
unfolding run
batch_imported = refl

abbrev request : StreamErasureRequest
request = record { stream_name = "order-1"; expected_version = 2; reason = "gdpr" }

abbrev world : World
world = record { store = after_two; snapshots = some [] }

abbrev erasure_result : StreamErasureResult
erasure_result = record {
  erased_events = 2;
  last_version = 2;
  erased_at = "2026-02-02T00:00:00Z";
  reason = "gdpr";
}

abbrev erased_world : World
erased_world = (erase_stream request "2026-02-02T00:00:00Z" world).1

erased_two : (erase_stream request "2026-02-02T00:00:00Z" world).0 ≡ ok erasure_result
unfolding run
erased_two = refl

abbrev ledger : ErasedStreamRecord
ledger = record { last_version = 2; erased_at = "2026-02-02T00:00:00Z"; reason = "gdpr" }

ledger_found : lookup "order-1" erased_world.store.erased ≡ some ledger
unfolding run
ledger_found = refl

erased_world-Reach : Reach codec (record { store = init; snapshots = some [] }) erased_world
erased_world-Reach =
    next
      (next here
        (append_step (record { store = init; snapshots = some [] }) "order-1" 0 two_events))
      (erase_step world request "2026-02-02T00:00:00Z")

reachable-IsWellFormed_example : IsWellFormed erased_world.store
reachable-IsWellFormed_example = reachable-IsWellFormed codec (some []) erased_world-Reach

append_accepts_example :
    (new : List StoredEvent) × (result : AppendResult) × IsNumbered "order-1"
      (length init.all + 1)
      (0 + 1)
      two_events
      new
    × ((append "order-1" 0 two_events init).1.all ≡ init.all ++ new)
    × ((other : String)
        → stream (append "order-1" 0 two_events init).1 other
          ≡ (if "order-1" == other then stream init other ++ new else stream init other))
    × ((append "order-1" 0 two_events init).0 ≡ ok result)
    × (result.first_version ≡ 0 + min 1 (length two_events))
    × (result.last_version ≡ length (stream (append "order-1" 0 two_events init).1 "order-1"))
unfolding run
append_accepts_example = append_accepts "order-1" 0 two_events init refl refl

append_refuses_example :
    ((lookup "order-1" after_two.erased ≡ none)
      × (length (stream after_two "order-1") ≡ 5)
      × ((result : AppendResult) × ((append "order-1" 5 two_events after_two).0 ≡ ok result)))
    ⊎ (((is_some (lookup "order-1" after_two.erased) ≡ true)
          ⊎ (length (stream after_two "order-1") ≢ 5))
        × ((c : ConcurrencyConflict) × (append "order-1" 5 two_events after_two
              ≡ (err c, after_two))
            × (c.expected_version ≡ 5)
            × (c.actual_version ≡ length (stream after_two "order-1"))))
append_refuses_example = append_refuses "order-1" 5 two_events after_two after_two-IsWellFormed

one_writer_wins_example :
    append "order-1" 0 (placed "c" 1 ∷ []) after_two
    ≡ (err (conflict "order-1" 0 (0 + length two_events)), after_two)
unfolding run
one_writer_wins_example =
    one_writer_wins "order-1" 0 two_events (placed "c" 1 ∷ []) init init-IsWellFormed (λ e. cc) refl
      refl

erased_forever_example :
    (stream erased_world.store "order-1" ≡ stream erased_world.store "order-1")
    × IsPinned erased_world.store "order-1" ledger
    × (append "order-1" 2 two_events erased_world.store
        ≡ (err (conflict "order-1" 2 ledger.last_version), erased_world.store))
erased_forever_example =
    erased_forever codec {u = erased_world} "order-1" ledger 2 two_events here
      reachable-IsWellFormed_lem ledger_found
  where
    reachable-IsWellFormed_lem : IsWellFormed erased_world.store
    reachable-IsWellFormed_lem = reachable-IsWellFormed codec (some []) erased_world-Reach

erase_stream_idempotent_example :
    erase_stream request "2026-03-03T00:00:00Z" erased_world
    ≡ (ok (record erasure_result { erased_events = 0 }), erased_world)
erase_stream_idempotent_example =
    erase_stream_idempotent request "2026-02-02T00:00:00Z" "2026-03-03T00:00:00Z" world
      erasure_result erased_two

import_batch_idempotent_example :
    import_batch codec batch (import_batch codec batch init).1
    ≡ (ok (record batch_result { status = unchanged }), (import_batch codec batch init).1)
import_batch_idempotent_example =
    import_batch_idempotent codec batch init batch_result batch_imported

feed_example :
    ((name : String) → read name (some (1 + 1)) after_two ≡ drop 1 (stream after_two name))
    × ((partition : Option Partition)
        → read_all
            (record { from_position = some (1 + 1); batch_size = none; partition = partition })
            after_two
          ≡ filter (wanted partition) (drop 1 after_two.all))
    × ((partition : Option Partition) (size : ℕ)
        → read_all
            (record { from_position = some (1 + 1); batch_size = some size; partition = partition })
            after_two
          ≡ take size (filter (wanted partition) (drop 1 after_two.all)))
feed_example = feed after_two 1 after_two-IsWellFormed
