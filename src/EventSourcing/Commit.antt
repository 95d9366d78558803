-- ===== src/EventSourcing/Commit.antt =====
-- `importBatch` of InMemoryEventStore in packages/eventsourcing/src/memory.ts: one atomic step that
-- commits a validated batch, answers a retry of a committed one, or fails and changes nothing.
use structure.Prelude.{
  ℕ, ◌+◌, String, Bool, false, not, ◌||◌, Option, none, some, List, [], ◌∷◌, ◌++◌, length, last,
  ltb, ◌==◌, nat_equality, text_equality, option_equality, bool_equality, if◌then◌else◌, or_else,
  Dict, lookup, insert, Result, ok, err, ◌>>=◌, ◌>>◌, fail_if,
}
use structure.EventSourcing.Event.{StoredEvent}
use structure.EventSourcing.Store.{
  EventStoreState, HistoryImportSession, HistoryImportResult, HistoryImportBatchRecord, imported,
  unchanged,
}
use structure.EventSourcing.Import.{
  HistoryImportBatch, ImportError, failed, died, target_not_empty, resume_token_mismatch,
  divergent_batch, import_complete, Codec, prepare_history_import_batch, history_import_target,
  validate_history_import_continuation, import_batch_key, history_import_resume_token,
  last_position_of,
}

-- `streams.set(e.streamName, [...(streams.get(e.streamName) ?? []), e])` for each event
unfoldable pub push_all :
    List StoredEvent → Dict String (List StoredEvent) → Dict String (List StoredEvent)
push_all [] streams = streams
push_all (event ∷ events) streams =
    push_all events (
      insert event.stream_name (or_else (lookup event.stream_name streams) [] ++ event ∷ [])
        streams)

-- The batch's key is recorded: the same batch is answered, any other is refused.
unfoldable pub retry :
    HistoryImportBatch → HistoryImportBatchRecord → Result ImportError HistoryImportResult
retry batch recorded =
    if not (recorded.checksum == batch.checksum)
      || not (recorded.previous_token == batch.resume_token)
      || not (recorded.complete == or_else batch.complete false)
    then err (failed divergent_batch)
    else ok (record recorded.result { status = unchanged })

-- May a batch that is not recorded extend the store?
unfoldable pub check_session :
    HistoryImportBatch → EventStoreState → Option HistoryImportSession → Result ImportError Unit
check_session batch s none = do
  fail_if (ltb 0 (length s.all)) (failed target_not_empty)
  fail_if (not (batch.resume_token == none)) (failed resume_token_mismatch)
check_session batch s (some session) = do
  fail_if session.complete (failed import_complete)
  fail_if (not (batch.resume_token == some session.resume_token)) (failed resume_token_mismatch)
  fail_if (not (last_position_of s.all == some session.last_position)) (failed target_not_empty)

unfoldable pub commit :
    HistoryImportBatch → String → ℕ → EventStoreState → HistoryImportResult × EventStoreState
commit batch token position s =
    let complete : Bool = or_else batch.complete false in
    let result : HistoryImportResult = record {
      status = imported;
      imported_count = length batch.events;
      last_position = position;
      resume_token = token;
      complete = complete;
    } in
    (
      result,
      record s {
        streams = push_all batch.events s.streams;
        all = s.all ++ batch.events;
        imports =
            insert batch.import_id
              (record { resume_token = token; last_position = position; complete = complete })
              s.imports;
        import_batches =
            insert (import_batch_key batch)
              (record {
                checksum = batch.checksum;
                previous_token = batch.resume_token;
                complete = complete;
                result = result;
              })
              s.import_batches;
        notified = s.notified + 1;
      },
    )

-- The checks of the critical section: the recorded result of a retry, or `none` to commit.
unfoldable pub admit :
    HistoryImportBatch → EventStoreState → Result ImportError (Option HistoryImportResult)
unfolding retry check_session
admit batch s = do
  fail_if (ltb 0 (length s.erased)) (failed target_not_empty)
  elim (lookup (import_batch_key batch) s.import_batches) [
    | some recorded ↦ do r ← retry batch recorded; ok (some r)
    | none ↦ do
      check_session batch s (lookup batch.import_id s.imports)
      validate_history_import_continuation batch.events (history_import_target s.all)
      ok none
  ]

-- What the critical section does with the answer of its checks.
unfoldable pub settle :
    HistoryImportBatch
    → String
    → ℕ
    → EventStoreState
    → Result ImportError (Option HistoryImportResult)
    → Result ImportError HistoryImportResult × EventStoreState
settle batch token position s (err e) = (err e, s)
settle batch token position s (ok (some r)) = (ok r, s)
settle batch token position s (ok none) =
    let (result, next) = commit batch token position s in (ok result, next)

unfoldable pub import_batch :
    Codec
    → HistoryImportBatch
    → EventStoreState
    → Result ImportError HistoryImportResult × EventStoreState
unfolding settle
import_batch c batch s = elim (prepare_history_import_batch c batch) [
  | err e ↦ (err e, s)
  | ok _ ↦ elim (last batch.events) [
    | none ↦ (err died, s)
    | some event ↦
        settle batch (history_import_resume_token c batch event.position) event.position s
          (admit batch s)
  ]
]
