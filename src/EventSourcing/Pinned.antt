-- ===== src/EventSourcing/Pinned.antt =====
-- About an erased stream, over later appends, imports and erasures.
use structure.Prelude.{
  ℕ, String, List, ◌≡◌, lookup, some, inl, lookup-empty, ◌∙◌, err, text_equality, inr, ap, refl,
  none, length, lookup_apart, lookup-insert,
}
use structure.EventSourcing.Event.{AppendEvent}
use structure.EventSourcing.Store.{
  EventStoreState, ErasedStreamRecord, append, stream, conflict, write, stored_from,
}
use structure.EventSourcing.Import.{Codec, HistoryImportBatch}
use structure.EventSourcing.Commit.{import_batch}
use structure.EventSourcing.Erasure.{
  World, StreamErasureRequest, erase, erase_in_store, erase_stream,
}
use structure.EventSourcing.Invariant.{IsWellFormed, IsPinned}
use structure.EventSourcing.Invariant.Append.{append-next, stream-write}
use structure.EventSourcing.Invariant.Import.{import_batch-IsImported, kept, added, admit-eq-none}
use structure.EventSourcing.Invariant.Erase.{stream-erase, erase_in_store-next, store-erase_stream}
use structure.EventSourcing.Reach.{
  Step, append_step, import_step, erase_step, Reach, here, next, Reach-IsWellFormed, append_step,
  import_step, erase_step,
}
use structure.EventSourcing.Concurrency.{append-refused}

-- The ledger's record of a stream, and the stream, are in `t` what they were in `s`.
record IsKept (name : String) (r : ErasedStreamRecord) (s t : EventStoreState) : Type 0 where
  record_kept : lookup name t.erased ≡ some r
  stream_kept : stream t name ≡ stream s name

module _ (name : String) (r : ErasedStreamRecord) where
  IsKept-of_eq : (s t : EventStoreState) → lookup name s.erased ≡ some r → t ≡ s → IsKept name r s t
  IsKept-of_eq s t pinned e = rw e (record { record_kept = pinned; stream_kept = refl })

  append-IsKept :
      (other : String) (expected : ℕ) (events : List AppendEvent) (s : EventStoreState)
      → lookup name s.erased ≡ some r
      → IsKept name r s (append other expected events s).1
  unfolding write
  append-IsKept other expected events s pinned = elim (append-next other expected events s) [
    | inl same ↦ IsKept-of_eq s (append other expected events s).1 pinned same
    | inr (alive, after) ↦ rw after (record {
      record_kept = pinned;
      stream_kept =
          stream-write s other name
            (stored_from (length s.all) other (length (stream s other)) 0 events)
          ∙ rw (lookup_apart other name s.erased alive pinned) refl;
    })
  ]

  import_batch-IsKept :
      (c : Codec) (batch : HistoryImportBatch) (s : EventStoreState)
      → lookup name s.erased ≡ some r
      → IsKept name r s (import_batch c batch s).1
  import_batch-IsKept c batch s pinned = elim (import_batch-IsImported c batch s) [
    | kept e ↦ IsKept-of_eq s (import_batch c batch s).1 pinned e
    | added token position admitted e ↦ absurd (
        cc (pinned, (admit-eq-none batch s admitted).0, lookup-empty {V = ErasedStreamRecord} name))
  ]

  erase_stream-IsKept :
      (request : StreamErasureRequest) (erased_at : String) (u : World)
      → IsWellFormed u.store
      → lookup name u.store.erased ≡ some r
      → IsKept name r u.store (erase_stream request erased_at u).1.store
  unfolding erase
  erase_stream-IsKept request erased_at u w pinned =
      let apart = λ (alive : lookup request.stream_name u.store.erased ≡ none).
        lookup_apart request.stream_name name u.store.erased alive pinned in
      elim (store-erase_stream request erased_at u) [
        | inl same ↦ IsKept-of_eq u.store (erase_stream request erased_at u).1.store pinned same
        | inr run ↦ elim (erase_in_store-next request erased_at u.store) [
          | inl same ↦
              rw run (IsKept-of_eq u.store (erase_in_store request erased_at u.store).1 pinned same)
          | inr (alive, found, after) ↦
              rw (run, after)
                (record {
                  record_kept = rw (lookup-insert, apart alive) pinned;
                  stream_kept =
                      stream-erase request erased_at u.store w name ∙ rw (apart alive) refl;
                })
        ]
      ]

  Step-IsKept :
      {c : Codec} {u v : World}
      → Step c u v
      → IsWellFormed u.store
      → lookup name u.store.erased ≡ some r
      → IsKept name r u.store v.store
  Step-IsKept (append_step u other expected events) w pinned =
      append-IsKept other expected events u.store pinned
  Step-IsKept {c} (import_step u batch) w pinned = import_batch-IsKept c batch u.store pinned
  Step-IsKept (erase_step u request erased_at) w pinned =
      erase_stream-IsKept request erased_at u w pinned

  Reach-IsKept :
      {c : Codec} {u v : World}
      → Reach c u v
      → IsWellFormed u.store
      → lookup name u.store.erased ≡ some r
      → IsKept name r u.store v.store
  Reach-IsKept {u} here w pinned = IsKept-of_eq u.store u.store pinned refl
  Reach-IsKept (next before step) w pinned =
      let k = Reach-IsKept before w pinned in
      let l = Step-IsKept step (Reach-IsWellFormed before w) k.record_kept in
      record { record_kept = l.record_kept; stream_kept = l.stream_kept ∙ k.stream_kept }

-- Once a stream is erased in a well-formed store, then after any appends, imports and erasures it
-- still has the same tombstones, and an append to it, at any version, fails with the erased version
-- and writes nothing.
pub erased_forever :
    (c : Codec) {u v : World} (name : String) (r : ErasedStreamRecord) (expected : ℕ)
    (events : List AppendEvent)
    → Reach c u v
    → IsWellFormed u.store
    → lookup name u.store.erased ≡ some r
    → (stream v.store name ≡ stream u.store name)
      × IsPinned v.store name r
      × (append name expected events v.store
          ≡ (err (conflict name expected r.last_version), v.store))
erased_forever c {v} name r expected events later w pinned =
    let k = Reach-IsKept name r later w pinned in
    let w' = Reach-IsWellFormed later w in
    let p = w'.pinned name r k.record_kept in
    (
      k.stream_kept,
      p,
      append-refused name expected events v.store w' (inl (rw k.record_kept refl))
          ∙ ap (λ n. (err (conflict name expected n), v.store)) p.count,
    )
