-- ===== src/EventSourcing/Import.antt =====
-- packages/eventsourcing/src/HistoryImport.ts, and `importBatch` of InMemoryEventStore in
-- packages/eventsourcing/src/memory.ts. SHA-256 over the stable JSON of the events or of the token's
-- fields, the schema decoding of the metadata and the event decoder are parameters. The texts of
-- the errors' details are left out.
use structure.Prelude.{
  ℕ, ◌+◌, ◌^◌, ◌-◌, String, Bool, true, false, not, ◌||◌, Option, none, some, List, [], ◌∷◌, ◌++◌,
  length, last, includes, map, ltb, leb, ◌==◌, nat_equality, text_equality, option_equality,
  bool_equality, or_else, Dict, lookup, insert, decimal, append_text, is_blank, Result, ok, err,
  ◌>>◌, fail_if, utf16_length,
}
use structure.EventSourcing.Event.{StoredEvent, Metadata}

pub record HistoryImportBatch : Type 0 where
  pub import_id : String
  pub batch_id : String
  pub events : List StoredEvent
  pub checksum : String
  pub resume_token : Option String
  pub complete : Option Bool

-- HistoryImportFailureReason
pub data FailureReason : Type 0 where
  invalid_import_id invalid_batch_id checksum_mismatch invalid_position : FailureReason
  global_position_gap stream_version_gap duplicate_event_id invalid_metadata : FailureReason
  target_not_empty resume_token_mismatch divergent_batch import_complete : FailureReason

-- `died` is a defect, `Effect.die`.
pub data ImportError : Type 0 where
  failed : FailureReason → ImportError
  undecodable : ImportError
  died : ImportError

pub data Classification : Type 0 where
  permanent conflict : Classification

unfoldable pub classification : FailureReason → Classification
classification target_not_empty = conflict
classification resume_token_mismatch = conflict
classification divergent_batch = conflict
classification import_complete = conflict
classification _ = permanent

pub record TokenInput : Type 0 where
  pub import_id : String
  pub batch_id : String
  pub checksum : String
  pub previous : Option String
  pub last_position : ℕ
  pub complete : Bool

-- What the import relies on and does not implement.
pub record Codec : Type 0 where
  pub checksum : List StoredEvent → String
  pub token : TokenInput → String
  pub decode_metadata : Metadata → Option Metadata
  pub decode : StoredEvent → Bool

abbrev pub max_pg_integer : ℕ
max_pg_integer = 2147483647

abbrev pub max_pg_big_int : ℕ
max_pg_big_int = 9223372036854775807

-- Number.isSafeInteger
abbrev pub is_safe_integer : ℕ → Bool
is_safe_integer n = leb n (2 ^ 53 - 1)

abbrev in_pg_integer : ℕ → Bool
in_pg_integer n = not (not (is_safe_integer n) || ltb n 1 || ltb max_pg_integer n)

-- The metadata decodes, to the version that the event has.
check_metadata : Codec → StoredEvent → Result ImportError Unit
check_metadata c event = elim (c.decode_metadata event.metadata) [
  | none ↦ err (failed invalid_metadata)
  | some m ↦ fail_if (not (m.aggregate_version == event.version)) (failed invalid_metadata)
]

abbrev follows : Option ℕ → ℕ → Bool
follows none n = true
follows (some previous) n = n == previous + 1

-- One round of the loop of prepareHistoryImportBatch: the checks of an event.
check_event : Codec → List String → Dict String ℕ → Option ℕ → StoredEvent → Result ImportError Unit
unfolding check_metadata
check_event c ids versions previous event = do
  fail_if (is_blank event.stream_name) (failed stream_version_gap)
  fail_if (ltb event.position 1 || ltb max_pg_big_int event.position) (failed invalid_position)
  fail_if (not (follows previous event.position)) (failed global_position_gap)
  fail_if (not (in_pg_integer event.version)) (failed stream_version_gap)
  fail_if (not (in_pg_integer event.schema_version)) (failed invalid_metadata)
  fail_if (not (follows (lookup event.stream_name versions) event.version))
      (failed stream_version_gap)
  check_metadata c event
  fail_if (is_blank event.metadata.event_id || includes event.metadata.event_id ids)
      (failed duplicate_event_id)
  fail_if (not (c.decode event)) undecodable

-- `ids` is a `Set`: a new id goes to its end.
check_events :
    Codec
    → List String
    → Dict String ℕ
    → Option ℕ
    → List StoredEvent
    → Result ImportError (List String)
unfolding check_event
check_events c ids versions previous [] = ok ids
check_events c ids versions previous (event ∷ events) = do
  check_event c ids versions previous event
  check_events c (ids ++ event.metadata.event_id ∷ [])
      (insert event.stream_name event.version versions) (some event.position) events

unfoldable pub prepare_history_import_batch :
    Codec → HistoryImportBatch → Result ImportError (List String)
unfolding check_events
prepare_history_import_batch c batch = do
  fail_if (is_blank batch.import_id) (failed invalid_import_id)
  fail_if (is_blank batch.batch_id) (failed invalid_batch_id)
  fail_if (length batch.events == 0) (failed invalid_position)
  fail_if (not (c.checksum batch.events == batch.checksum)) (failed checksum_mismatch)
  check_events c [] [] none batch.events

pub record HistoryImportTarget : Type 0 where
  pub last_position : ℕ
  pub stream_versions : Dict String ℕ
  pub event_ids : List String

unfoldable pub last_versions : Dict String ℕ → List StoredEvent → Dict String ℕ
last_versions versions [] = versions
last_versions versions (event ∷ events) =
    last_versions (insert event.stream_name event.version versions) events

abbrev pub last_position_of : List StoredEvent → Option ℕ
last_position_of events = elim (last events) [ none ↦ none | some event ↦ some event.position ]

unfoldable pub history_import_target : List StoredEvent → HistoryImportTarget
unfolding last_versions
history_import_target existing = record {
  last_position = or_else (last_position_of existing) 0;
  stream_versions = last_versions [] existing;
  event_ids = map (λ e. e.metadata.event_id) existing;
}

unfoldable pub continue_from :
    List String → Dict String ℕ → ℕ → List StoredEvent → Result ImportError Unit
continue_from ids versions position [] = ok tt
continue_from ids versions position (event ∷ events) = do
  fail_if (not (event.position == position + 1)) (failed global_position_gap)
  fail_if (not (event.version == or_else (lookup event.stream_name versions) 0 + 1))
      (failed stream_version_gap)
  fail_if (includes event.metadata.event_id ids) (failed duplicate_event_id)
  continue_from (event.metadata.event_id ∷ ids) (insert event.stream_name event.version versions)
      event.position events

unfoldable pub validate_history_import_continuation :
    List StoredEvent → HistoryImportTarget → Result ImportError Unit
unfolding continue_from
validate_history_import_continuation events target =
    continue_from target.event_ids target.stream_versions target.last_position events

unfoldable pub import_batch_key : HistoryImportBatch → String
unfolding utf16_length
import_batch_key batch =
    append_text (decimal (utf16_length batch.import_id))
      (append_text ":" (append_text batch.import_id batch.batch_id))

unfoldable pub history_import_resume_token : Codec → HistoryImportBatch → ℕ → String
history_import_resume_token c batch position = c.token (record {
  import_id = batch.import_id;
  batch_id = batch.batch_id;
  checksum = batch.checksum;
  previous = batch.resume_token;
  last_position = position;
  complete = or_else batch.complete false;
})
