-- ===== src/EventSourcing/Retry.antt =====
-- About retried commands: an erasure or an import that is sent again.
use structure.Prelude.{
  none, Option-cases, Result-cases, ◌≢◌, ◌⊎◌, err, sym, ℕ, String, List, [], ◌≡◌, Result, ok, arith,
  Option, some, lookup-insert, Dict, length, lookup-delete, same_refl, text_equality, or_else,
  lookup-insert_self, err, Result-cases, false, inr, option_equality, inl, bool_equality,
  Option-cases, last, ◌∙◌, refl, ap,
}
use structure.EventSourcing.Event.{StoredEvent, Json}
use structure.EventSourcing.Store.{EventStoreState, stream, unchanged, HistoryImportResult}
use structure.EventSourcing.Import.{
  Codec, HistoryImportBatch, ImportError, prepare_history_import_batch, history_import_resume_token,
}
use structure.EventSourcing.Commit.{import_batch, commit, admit, settle, retry}
use structure.EventSourcing.Invariant.Import.{admit-eq-none}
use structure.EventSourcing.Erasure.{
  World, StreamErasureRequest, StreamErasureResult, erase, erase_in_store, erase_stream,
  remove_snapshot,
}

erase_in_store-again :
    (request : StreamErasureRequest) (first second : String) (s : EventStoreState)
    (result : StreamErasureResult)
    → (erase_in_store request first s).0 ≡ ok result
    → erase_in_store request second (erase_in_store request first s).1
      ≡ (ok (record result { erased_events = 0 }), (erase_in_store request first s).1)
unfolding erase_in_store erase
erase_in_store-again request first second s result h = ground (
  arith,
  lookup-insert request.stream_name request.stream_name
      (record {
        last_version = length (stream s request.stream_name);
        erased_at = first;
        reason = request.reason;
      })
      s.erased,
  same_refl text_equality request.stream_name,
)

remove_snapshot-again :
    (name : String) (snapshots : Option (Dict String Json))
    → remove_snapshot name (remove_snapshot name snapshots) ≡ remove_snapshot name snapshots
unfolding remove_snapshot
remove_snapshot-again name none = refl
remove_snapshot-again name (some m) =
    ground (arith, lookup-delete name name m, same_refl text_equality name)

-- An erasure that succeeded and is sent again, at any later time, rewrites nothing: it answers what
-- the first one answered, with no event erased, and changes neither the store nor the snapshots.
pub erase_stream_idempotent :
    (request : StreamErasureRequest) (first second : String) (u : World)
    (result : StreamErasureResult)
    → (erase_stream request first u).0 ≡ ok result
    → erase_stream request second (erase_stream request first u).1
      ≡ (ok (record result { erased_events = 0 }), (erase_stream request first u).1)
unfolding erase_stream
erase_stream_idempotent request first second u result h = ground (
  arith,
  erase_in_store-again request first second u.store result,
  remove_snapshot-again request.stream_name u.snapshots,
)

-- The record that a commit leaves answers the same batch.
retry-committed :
    (batch : HistoryImportBatch) (result : HistoryImportResult)
    → retry batch (record {
      checksum = batch.checksum;
      previous_token = batch.resume_token;
      complete = or_else batch.complete false;
      result = result;
    })
      ≡ ok (record result { status = unchanged })
unfolding retry
retry-committed batch result = ground (
  arith,
  same_refl text_equality batch.checksum,
  same_refl (option_equality ⦃e = text_equality⦄) batch.resume_token,
  same_refl bool_equality (or_else batch.complete false),
)

admit-commit :
    (batch : HistoryImportBatch) (token : String) (position : ℕ) (s : EventStoreState)
    → s.erased ≡ []
    → admit batch (commit batch token position s).1
      ≡ ok (some (record (commit batch token position s).0 { status = unchanged }))
unfolding admit commit
admit-commit batch token position s clean =
    rw (lookup-insert_self, retry-committed) (ground (arith, clean))

admit-some :
    (batch : HistoryImportBatch) (s : EventStoreState) (r : HistoryImportResult)
    → admit batch s ≡ ok (some r)
    → r.status ≡ unchanged
unfolding admit
admit-some batch s r h = ground arith

settle-again :
    (batch : HistoryImportBatch) (token : String) (position : ℕ) (s : EventStoreState)
    (result : HistoryImportResult) (answer : Result ImportError (Option HistoryImportResult))
    → admit batch s ≡ answer
    → (settle batch token position s answer).0 ≡ ok result
    → settle batch token position
        (settle batch token position s answer).1
        (admit batch (settle batch token position s answer).1)
      ≡ (ok (record result { status = unchanged }), (settle batch token position s answer).1)
unfolding settle
settle-again batch token position s result (err e) answered h = cc
settle-again batch token position s result (ok (some r)) answered h =
    rw answered (ground (arith, admit-some batch s r answered))
settle-again batch token position s result (ok none) answered h =
    rw (admit-commit batch token position s (admit-eq-none batch s answered).0) (ground arith)

module _ (c : Codec) (batch : HistoryImportBatch) {ids : List String} {event : StoredEvent}
    (prepared : prepare_history_import_batch c batch ≡ ok ids)
    (found : last batch.events ≡ some event) where
  import_batch-prepared :
      (s : EventStoreState)
      → import_batch c batch s
        ≡ settle batch
            (history_import_resume_token c batch event.position)
            event.position
            s
            (admit batch s)
  unfolding import_batch
  import_batch-prepared s = ground (arith, prepared, found)

import_batch-refused :
    (c : Codec) (batch : HistoryImportBatch) (s : EventStoreState) (result : HistoryImportResult)
    → (last batch.events ≡ none)
      ⊎ ((e : ImportError) × (prepare_history_import_batch c batch ≡ err e))
    → (import_batch c batch s).0 ≢ ok result
unfolding import_batch
import_batch-refused c batch s result why h = ground (arith, why)

-- A batch whose import succeeded and that is sent again is answered with the same result, as
-- unchanged, and changes nothing.
pub import_batch_idempotent :
    (c : Codec) (batch : HistoryImportBatch) (s : EventStoreState) (result : HistoryImportResult)
    → (import_batch c batch s).0 ≡ ok result
    → import_batch c batch (import_batch c batch s).1
      ≡ (ok (record result { status = unchanged }), (import_batch c batch s).1)
import_batch_idempotent c batch s result h =
    elim (Result-cases (prepare_history_import_batch c batch)) [
      | inr refused ↦ absurd (import_batch-refused c batch s result (inr refused) h)
      | inl (ids, prepared) ↦ elim (Option-cases (last batch.events)) [
        | inl empty ↦ absurd (import_batch-refused c batch s result (inl empty) h)
        | inr (event, found) ↦
            let token = history_import_resume_token c batch event.position in
            let run = import_batch-prepared c batch prepared found in
            rw (run s) (
              run (settle batch token event.position s (admit batch s)).1
              ∙ settle-again batch token event.position s result (admit batch s) refl
                  (ap (λ r. r.0) (sym (run s)) ∙ h))
      ]
    ]
