-- ===== src/EventSourcing/Invariant/Import.antt =====
-- About `importBatch` and the well-formedness of the event store.
use structure.Prelude.{
  ℕ, suc, ◌+◌, String, false, ◌≡◌, refl, sym, ap, ◌∙◌, subst, Option, none, some, List, [], ◌∷◌,
  ◌++◌, length, last, ◌==◌, includes, text_equality, nat_equality, arith, lookup, lookup-insert,
  lookup-empty, insert, or_else, filter-append, Bool-cases, Option-cases, Result-cases, inl, inr,
  Result, ok, err, Dict,
}
use mathlib.Core.List.{append-nil, append_assoc}
use structure.EventSourcing.Event.{StoredEvent}
use structure.EventSourcing.Store.{EventStoreState, ErasedStreamRecord, stream, HistoryImportResult}
use structure.EventSourcing.Import.{
  Codec, HistoryImportBatch, ImportError, last_position_of, last_versions, history_import_target,
  continue_from, validate_history_import_continuation, history_import_resume_token,
  prepare_history_import_batch,
}
use structure.EventSourcing.Commit.{push_all, commit, admit, settle, import_batch}
use structure.EventSourcing.Invariant.{
  in_stream, stream_of, Positions, Versions, IsWellFormed, Positions-append, Versions-append,
}

pub lookup-push_all :
    (events : List StoredEvent) (streams : Dict String (List StoredEvent)) (name : String)
    → or_else (lookup name (push_all events streams)) []
      ≡ or_else (lookup name streams) [] ++ stream_of name events
unfolding push_all
lookup-push_all [] streams name = sym (append-nil _)
lookup-push_all (event ∷ events) streams name =
    lookup-push_all events _ name
    ∙ rw lookup-insert (
        ground (
          arith,
          text_equality.same_iff event.stream_name name,
          append_assoc (or_else (lookup name streams) []) (event ∷ []) (stream_of name events),
        ))

last_position_cons :
    (n : ℕ) (event : StoredEvent) (events : List StoredEvent)
    → Positions (n + 1) (event ∷ events)
    → last_position_of (event ∷ events) ≡ some (n + suc (length events))
last_position_cons n event [] h = ap some (omega arith)
last_position_cons n event (next ∷ events) h =
    last_position_cons (n + 1) next events h.1 ∙ ap some (omega arith)

last_position-eq-length :
    (events : List StoredEvent)
    → Positions 1 events
    → or_else (last_position_of events) 0 ≡ length events
last_position-eq-length [] h = refl
last_position-eq-length (event ∷ events) h =
    ap (λ o. or_else o 0) (last_position_cons 0 event events h) ∙ omega arith

module _ (name : String) where
  lookup-last_versions :
      (n : ℕ) (events : List StoredEvent) (versions : Dict String ℕ)
      → or_else (lookup name versions) 0 ≡ n
      → Versions (n + 1) (stream_of name events)
      → or_else (lookup name (last_versions versions events)) 0 ≡ n + length (stream_of name events)
  unfolding last_versions
  lookup-last_versions n [] versions e h = omega arith
  lookup-last_versions n (event ∷ events) versions e h =
      let versions' = insert event.stream_name event.version versions in
      elim (Bool-cases (event.stream_name == name)) [
        | inl same ↦
            let h' = rw same at h in
            rw same (
              lookup-last_versions (n + 1) events versions' (rw (lookup-insert, same) (h'.0)) h'.1
              ∙ omega arith)
        | inr different ↦ rw different (
            lookup-last_versions n events versions' (rw (lookup-insert, different) e)
              (rw different at h))
      ]

-- What it takes for a batch to go on past its first event.
continue_from-cons :
    (ids : List String) (versions : Dict String ℕ) (position : ℕ) (event : StoredEvent)
    (events : List StoredEvent)
    → continue_from ids versions position (event ∷ events) ≡ ok tt
    → (event.position ≡ position + 1)
      × (event.version ≡ or_else (lookup event.stream_name versions) 0 + 1)
      × (includes event.metadata.event_id ids ≡ false)
      × (continue_from
            (event.metadata.event_id ∷ ids)
            (insert event.stream_name event.version versions)
            event.position
            events
          ≡ ok tt)
unfolding continue_from
continue_from-cons ids versions position event events h = ground arith

continue_from-Positions :
    (ids : List String) (versions : Dict String ℕ) (position : ℕ) (events : List StoredEvent)
    → continue_from ids versions position events ≡ ok tt
    → Positions (position + 1) events
continue_from-Positions ids versions position [] h = tt
continue_from-Positions ids versions position (event ∷ events) h =
    let (at, version, fresh, rest) = continue_from-cons ids versions position event events h in
    (
      at,
      subst (λ p. Positions (p + 1) events) at
          (continue_from-Positions (event.metadata.event_id ∷ ids)
            (insert event.stream_name event.version versions) event.position events rest),
    )

module _ (name : String) where
  continue_from-Versions :
      (n : ℕ) (ids : List String) (versions : Dict String ℕ) (position : ℕ)
      (events : List StoredEvent)
      → or_else (lookup name versions) 0 ≡ n
      → continue_from ids versions position events ≡ ok tt
      → Versions (n + 1) (stream_of name events)
  continue_from-Versions n ids versions position [] e h = tt
  continue_from-Versions n ids versions position (event ∷ events) e h =
      let (at, version, fresh, rest) = continue_from-cons ids versions position event events h in
      let ids' = event.metadata.event_id ∷ ids in
      let versions' = insert event.stream_name event.version versions in
      elim (Bool-cases (event.stream_name == name)) [
        | inl same ↦
            let here : event.version ≡ n + 1 =
              ground (arith, text_equality.same_iff event.stream_name name) in
            rw same (
              here,
              continue_from-Versions (n + 1) ids' versions' event.position events
                  (rw (lookup-insert, same) here) rest,
            )
        | inr different ↦ rw different (
            continue_from-Versions n ids' versions' event.position events
              (rw (lookup-insert, different) e) rest)
      ]

-- A batch is committed only into a store without erased streams, and only as a continuation.
pub admit-eq-none :
    (batch : HistoryImportBatch) (s : EventStoreState)
    → admit batch s ≡ ok none
    → (s.erased ≡ [])
      × (validate_history_import_continuation batch.events (history_import_target s.all) ≡ ok tt)
unfolding admit
admit-eq-none batch s h = ground arith

-- After an import the store is as it was, or has the batch committed.
pub data IsImported (batch : HistoryImportBatch) (s t : EventStoreState) : Type 0 where
  kept : t ≡ s → IsImported batch s t
  added :
      (token : String) (position : ℕ)
      → admit batch s ≡ ok none
      → t ≡ (commit batch token position s).1
      → IsImported batch s t

settle-IsImported :
    (batch : HistoryImportBatch) (token : String) (position : ℕ) (s : EventStoreState)
    (answer : Result ImportError (Option HistoryImportResult))
    → admit batch s ≡ answer
    → IsImported batch s (settle batch token position s answer).1
unfolding settle
settle-IsImported batch token position s (err e) h = kept refl
settle-IsImported batch token position s (ok (some r)) h = kept refl
settle-IsImported batch token position s (ok none) h = added token position h refl

pub import_batch-IsImported :
    (c : Codec) (batch : HistoryImportBatch) (s : EventStoreState)
    → IsImported batch s (import_batch c batch s).1
unfolding import_batch
import_batch-IsImported c batch s = elim (Result-cases (prepare_history_import_batch c batch)) [
  | inr (e, refused) ↦ rw (refused, import_batch) (kept refl)
  | inl (ids, prepared) ↦ elim (Option-cases (last batch.events)) [
    | inl empty ↦ rw (prepared, import_batch) (rw empty (kept refl))
    | inr (event, found) ↦
        rw (prepared, import_batch)
          (rw found (
            settle-IsImported batch (history_import_resume_token c batch event.position)
              event.position s (admit batch s) refl))
  ]
]

module _ (batch : HistoryImportBatch) (s : EventStoreState) (w : IsWellFormed s)
    (continued : validate_history_import_continuation batch.events (history_import_target s.all)
      ≡ ok tt) where
  batch-Positions : Positions (1 + length s.all) batch.events
  unfolding validate_history_import_continuation history_import_target
  batch-Positions =
      subst (λ n. Positions n batch.events)
        (ap (λ n. n + 1) (last_position-eq-length s.all w.positions) ∙ omega arith)
        (continue_from-Positions (history_import_target s.all).event_ids
          (history_import_target s.all).stream_versions (history_import_target s.all).last_position
          batch.events continued)

  batch-Versions :
      (name : String) → Versions (1 + length (stream s name)) (stream_of name batch.events)
  unfolding validate_history_import_continuation history_import_target
  batch-Versions name =
      subst (λ n. Versions n (stream_of name batch.events)) (omega arith)
        (continue_from-Versions name (length (stream s name))
          (history_import_target s.all).event_ids (history_import_target s.all).stream_versions
          (history_import_target s.all).last_position batch.events
          (omega (
            arith,
            ap length (w.indexed name),
            lookup-last_versions name 0 s.all [] (ap (λ o. or_else o 0) (lookup-empty name))
                (subst (Versions 1) (w.indexed name) (w.versions name)),
          ))
          continued)

  commit-IsWellFormed :
      (token : String) (position : ℕ)
      → s.erased ≡ []
      → IsWellFormed (commit batch token position s).1
  unfolding commit
  commit-IsWellFormed token position clean = record {
    positions =
        Positions-append 1 (1 + length s.all) s.all batch.events w.positions refl batch-Positions;
    indexed = λ name.
        lookup-push_all batch.events s.streams name
        ∙ ap (λ xs. xs ++ stream_of name batch.events) (w.indexed name)
        ∙ sym (filter-append (in_stream name) s.all batch.events);
    versions = λ name. subst (Versions 1) (sym (lookup-push_all batch.events s.streams name)) (
        Versions-append 1 (1 + length (stream s name)) (stream s name) (stream_of name batch.events)
          (w.versions name) refl (batch-Versions name));
    pinned = λ name r e. absurd (cc (clean, lookup-empty {V = ErasedStreamRecord} name));
  }

-- Whatever an import answers, the store stays well formed.
pub import_batch-IsWellFormed :
    (c : Codec) (batch : HistoryImportBatch) (s : EventStoreState)
    → IsWellFormed s
    → IsWellFormed (import_batch c batch s).1
import_batch-IsWellFormed c batch s w = elim (import_batch-IsImported c batch s) [
  | kept e ↦ rw e w
  | added token position admitted e ↦
      let (clean, continued) = admit-eq-none batch s admitted in
      rw e (commit-IsWellFormed batch s w continued token position clean)
]
