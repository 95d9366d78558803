-- ===== src/EventSourcing/Invariant/Erase.antt =====
-- About `eraseStream` and the well-formedness of the event store.
use structure.Prelude.{
  ℕ, ◌+◌, ◌<◌, String, true, false, ◌≡◌, refl, ◌∙◌, some, List, [], ◌∷◌, map, All, ◌==◌,
  text_equality, nat_equality, arith, lookup, lookup-insert, insert, Dict, Bool-cases, inl, ap, inr,
  if◌then◌else◌, sym, ◌⊎◌, none, length-map,
}
use structure.EventSourcing.Event.{StoredEvent}
use structure.EventSourcing.Erasure.{
  tombstone, index_versions, replacement, StreamErasureRequest, erase, erase_in_store, erase_stream,
  World,
}
use structure.EventSourcing.Invariant.{
  Versions, stream_of, IsTombstone, Positions, EventStoreState, IsWellFormed, stream, subst,
  ErasedStreamRecord, IsPinned, length,
}

module _ (name erased_at : String) where
  abbrev erased_event : StoredEvent → StoredEvent
  erased_event = tombstone name erased_at

  lookup-index_versions_below :
      (k version : ℕ) (events : List StoredEvent) (by_version : Dict ℕ StoredEvent)
      → version < k
      → Versions k events
      → lookup version (index_versions by_version (map erased_event events))
        ≡ lookup version by_version
  unfolding index_versions tombstone
  lookup-index_versions_below k version [] by_version lt h = refl
  lookup-index_versions_below k version (event ∷ events) by_version lt h =
      lookup-index_versions_below (k + 1) version events
        (insert event.version (erased_event event) by_version) (omega arith) h.1
      ∙ rw lookup-insert (ground arith)

  -- What the map of tombstones by version holds for an event.
  abbrev Indexed : Dict ℕ StoredEvent → StoredEvent → Type 0
  Indexed by_version event = lookup event.version by_version ≡ some (erased_event event)

  All-Indexed :
      (k : ℕ) (events : List StoredEvent) (by_version : Dict ℕ StoredEvent)
      → Versions k events
      → All (Indexed (index_versions by_version (map erased_event events))) events
  unfolding index_versions tombstone
  All-Indexed k [] by_version h = tt
  All-Indexed k (event ∷ events) by_version h =
      let by_version' = insert event.version (erased_event event) by_version in
      (
        lookup-index_versions_below (k + 1) event.version events by_version' (omega arith) h.1
            ∙ rw lookup-insert (ground arith),
        All-Indexed (k + 1) events by_version' h.1,
      )

  module _ (by_version : Dict ℕ StoredEvent) where
    replacement-own :
        (event : StoredEvent)
        → (event.stream_name == name) ≡ true
        → Indexed by_version event
        → replacement name by_version event ≡ erased_event event
    unfolding replacement
    replacement-own event same h = ground arith

    replacement-other :
        (event : StoredEvent)
        → (event.stream_name == name) ≡ false
        → replacement name by_version event ≡ event
    unfolding replacement
    replacement-other event different = ground arith

    abbrev replaced : List StoredEvent → List StoredEvent
    replaced = map (replacement name by_version)

    stream_of-replaced_own :
        (events : List StoredEvent)
        → All (Indexed by_version) (stream_of name events)
        → stream_of name (replaced events) ≡ map erased_event (stream_of name events)
    unfolding tombstone
    stream_of-replaced_own [] h = refl
    stream_of-replaced_own (event ∷ events) h = elim (Bool-cases (event.stream_name == name)) [
      | inl same ↦
          let h' = rw same at h in
          rw (replacement-own event same h'.0, same)
            (ap (λ r. erased_event event ∷ r) (stream_of-replaced_own events h'.1))
      | inr different ↦
          rw (replacement-other event different, different)
            (stream_of-replaced_own events (rw different at h))
    ]

    stream_of-replaced_other :
        (other : String) (events : List StoredEvent)
        → (name == other) ≡ false
        → All (Indexed by_version) (stream_of name events)
        → stream_of other (replaced events) ≡ stream_of other events
    unfolding tombstone
    stream_of-replaced_other other [] ne h = refl
    stream_of-replaced_other other (event ∷ events) ne h =
        elim (Bool-cases (event.stream_name == name)) [
          | inl same ↦
              let h' = rw same at h in
              let rest = stream_of-replaced_other other events ne h'.1 in
              let out : (event.stream_name == other) ≡ false = ground (
                arith,
                text_equality.same_iff event.stream_name name,
                text_equality.same_iff event.stream_name other,
                text_equality.same_iff name other,
              ) in
              rw (replacement-own event same h'.0, out) rest
          | inr different ↦
              let rest = stream_of-replaced_other other events ne (rw different at h) in
              rw (replacement-other event different) (ground (arith, rest))
        ]

    replaced-Positions :
        (n : ℕ) (events : List StoredEvent)
        → All (Indexed by_version) (stream_of name events)
        → Positions n events
        → Positions n (replaced events)
    unfolding tombstone
    replaced-Positions n [] h p = tt
    replaced-Positions n (event ∷ events) h p = elim (Bool-cases (event.stream_name == name)) [
      | inl same ↦
          let h' = rw same at h in
          rw (replacement-own event same h'.0) (p.0, replaced-Positions (n + 1) events h'.1 p.1)
      | inr different ↦
          rw (replacement-other event different)
            (p.0, replaced-Positions (n + 1) events (rw different at h) p.1)
    ]

  erased-Versions :
      (n : ℕ) (events : List StoredEvent) → Versions n events → Versions n (map erased_event events)
  unfolding tombstone
  erased-Versions n [] h = tt
  erased-Versions n (event ∷ events) h = (h.0, erased-Versions (n + 1) events h.1)

  erased-IsTombstone :
      (events : List StoredEvent) → All (IsTombstone name erased_at) (map erased_event events)
  unfolding tombstone
  erased-IsTombstone [] = tt
  erased-IsTombstone (event ∷ events) = (refl, erased-IsTombstone events)

module _ (request : StreamErasureRequest) (erased_at : String) (s : EventStoreState)
    (w : IsWellFormed s) where
  abbrev name : String
  name = request.stream_name

  abbrev tombstones : List StoredEvent
  tombstones = map (tombstone name erased_at) (stream s name)

  log-Indexed : All (Indexed name erased_at (index_versions [] tombstones)) (stream_of name s.all)
  log-Indexed =
      subst (All (Indexed name erased_at (index_versions [] tombstones))) (w.indexed name)
        (All-Indexed name erased_at 1 (stream s name) [] (w.versions name))

  pub stream-erase :
      (other : String)
      → stream (erase request erased_at s) other
        ≡ (if name == other then tombstones else stream s other)
  unfolding erase
  stream-erase other = rw lookup-insert (ground arith)

  erase-indexed :
      (other : String)
      → stream (erase request erased_at s) other ≡ stream_of other (erase request erased_at s).all
  unfolding erase
  erase-indexed other = elim (Bool-cases (name == other)) [
    | inl same ↦
        let e : name ≡ other = (text_equality.same_iff name other).0 same in
        rw (stream-erase other, same)
          (ap (map (tombstone name erased_at)) (w.indexed name)
            ∙ sym (
                stream_of-replaced_own name erased_at (index_versions [] tombstones) s.all
                  log-Indexed)
            ∙ ap (λ n. stream_of n (erase request erased_at s).all) e)
    | inr different ↦
        rw (stream-erase other, different)
          (w.indexed other
            ∙ sym (
                stream_of-replaced_other name erased_at (index_versions [] tombstones) other s.all
                  different log-Indexed))
  ]

  erase-IsPinned :
      (other : String) (r : ErasedStreamRecord)
      → lookup other (erase request erased_at s).erased ≡ some r
      → IsPinned (erase request erased_at s) other r
  unfolding erase
  erase-IsPinned other r found = elim (Bool-cases (name == other)) [
    | inl same ↦
        let e : name ≡ other = (text_equality.same_iff name other).0 same in
        let entry = rw (lookup-insert, same) at found in
        let at : erased_at ≡ r.erased_at = cc in
        record {
          count =
              rw (stream-erase other, same)
                (length-map (tombstone name erased_at) (stream s name) ∙ cc);
          tombstones =
              rw (stream-erase other, same)
                (subst (λ n. All (IsTombstone n r.erased_at) tombstones) e
                  (subst (λ t. All (IsTombstone name t) tombstones) at
                    (erased-IsTombstone name erased_at (stream s name))));
        }
    | inr different ↦
        let before = w.pinned other r (rw (lookup-insert, different) at found) in
        record {
          count = rw (stream-erase other, different) before.count;
          tombstones = rw (stream-erase other, different) before.tombstones;
        }
  ]

  erase-IsWellFormed : IsWellFormed (erase request erased_at s)
  unfolding erase
  erase-IsWellFormed = record {
    positions =
        replaced-Positions name erased_at (index_versions [] tombstones) 1 s.all log-Indexed
          w.positions;
    indexed = erase-indexed;
    versions = λ other. elim (Bool-cases (name == other)) [
      | inl same ↦
          rw (stream-erase other, same)
            (erased-Versions name erased_at 1 (stream s name) (w.versions name))
      | inr different ↦ rw (stream-erase other, different) (w.versions other)
    ];
    pinned = erase-IsPinned;
  }

-- The critical section of an erasure leaves the state, or erases a stream that is not erased yet.
pub erase_in_store-next :
    (request : StreamErasureRequest) (erased_at : String) (s : EventStoreState)
    → ((erase_in_store request erased_at s).1 ≡ s)
      ⊎ ((lookup request.stream_name s.erased ≡ none)
          × (length (stream s request.stream_name) ≡ request.expected_version)
          × ((erase_in_store request erased_at s).1 ≡ erase request erased_at s))
unfolding erase_in_store
erase_in_store-next request erased_at s = ground arith

erase_in_store-IsWellFormed :
    (request : StreamErasureRequest) (erased_at : String) (s : EventStoreState)
    → IsWellFormed s
    → IsWellFormed (erase_in_store request erased_at s).1
erase_in_store-IsWellFormed request erased_at s w = elim (erase_in_store-next request erased_at s) [
  | inl same ↦ rw same w
  | inr (alive, found, next) ↦ rw next (erase-IsWellFormed request erased_at s w)
]

-- The store after an erasure is that of its critical section, unless the request is refused.
pub store-erase_stream :
    (request : StreamErasureRequest) (erased_at : String) (u : World)
    → ((erase_stream request erased_at u).1.store ≡ u.store)
      ⊎ ((erase_stream request erased_at u).1.store ≡ (erase_in_store request erased_at u.store).1)
unfolding erase_stream
store-erase_stream request erased_at u = ground arith

-- Whatever an erasure answers, the store stays well formed.
pub erase_stream-IsWellFormed :
    (request : StreamErasureRequest) (erased_at : String) (u : World)
    → IsWellFormed u.store
    → IsWellFormed (erase_stream request erased_at u).1.store
erase_stream-IsWellFormed request erased_at u w = elim (store-erase_stream request erased_at u) [
  | inl same ↦ rw same w
  | inr next ↦ rw next (erase_in_store-IsWellFormed request erased_at u.store w)
]
