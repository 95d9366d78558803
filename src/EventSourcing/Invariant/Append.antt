-- ===== src/EventSourcing/Invariant/Append.antt =====
-- About `append` and the well-formedness of the event store.
use structure.Prelude.{
  ℕ, suc, ◌+◌, String, false, ◌≡◌, ◌⊎◌, refl, ap, subst, none, some, List, [], ◌∷◌, ◌++◌, length,
  ◌==◌, text_equality, nat_equality, arith, lookup, lookup-insert, filter-append, same_refl,
  Bool-cases, inl, inr, if◌then◌else◌,
}
use mathlib.Core.List.{append-nil}
use structure.EventSourcing.Event.{AppendEvent, StoredEvent}
use structure.EventSourcing.Store.{
  EventStoreState, ErasedStreamRecord, stream, stored_event, stored_from, write, append,
}
use structure.EventSourcing.Invariant.{
  stream_of, Positions, Versions, IsPinned, IsWellFormed, Positions-append, Versions-append,
}

module _ (base : ℕ) (name : String) (actual : ℕ) where
  stored_from-in_stream :
      (index : ℕ) (events : List AppendEvent)
      → stream_of name (stored_from base name actual index events)
        ≡ stored_from base name actual index events
  unfolding stored_from
  stored_from-in_stream index [] = refl
  stored_from-in_stream index (event ∷ events) = rw (same_refl text_equality name) (
      ap (λ r. stored_event base name actual event index ∷ r)
        (stored_from-in_stream (index + 1) events))

  stored_from-other :
      (other : String) (index : ℕ) (events : List AppendEvent)
      → (name == other) ≡ false
      → stream_of other (stored_from base name actual index events) ≡ []
  unfolding stored_from
  stored_from-other other index [] h = refl
  stored_from-other other index (event ∷ events) h =
      rw h (stored_from-other other (index + 1) events h)

  stored_from-Positions :
      (index n : ℕ) (events : List AppendEvent)
      → n ≡ base + index + 1
      → Positions n (stored_from base name actual index events)
  unfolding stored_from
  stored_from-Positions index n [] e = tt
  stored_from-Positions index n (event ∷ events) e =
      (omega arith, stored_from-Positions (index + 1) (n + 1) events (omega arith))

  stored_from-Versions :
      (index n : ℕ) (events : List AppendEvent)
      → n ≡ actual + index + 1
      → Versions n (stored_from base name actual index events)
  unfolding stored_from
  stored_from-Versions index n [] e = tt
  stored_from-Versions index n (event ∷ events) e =
      (omega arith, stored_from-Versions (index + 1) (n + 1) events (omega arith))

  pub length-stored_from :
      (index : ℕ) (events : List AppendEvent)
      → length (stored_from base name actual index events) ≡ length events
  unfolding stored_from
  length-stored_from index [] = refl
  length-stored_from index (event ∷ events) = ap suc (length-stored_from (index + 1) events)

-- A write puts the new events at the end of their stream, and leaves every other stream.
pub stream-write :
    (s : EventStoreState) (name other : String) (stored : List StoredEvent)
    → stream (write name stored s) other
      ≡ (if name == other then stream s other ++ stored else stream s other)
unfolding write
stream-write s name other stored =
    rw lookup-insert (ground (arith, text_equality.same_iff name other))

module _ (s : EventStoreState) (name : String) (stored : List StoredEvent) where
  write-indexed :
      IsWellFormed s
      → stream_of name stored ≡ stored
      → ((other : String) → (name == other) ≡ false → stream_of other stored ≡ [])
      → (other : String)
      → stream (write name stored s) other ≡ stream_of other (write name stored s).all
  unfolding write
  write-indexed w own rest other = elim (Bool-cases (name == other)) [
    | inl same ↦
        let e : name ≡ other = (text_equality.same_iff name other).0 same in
        let own' : stream_of other stored ≡ stored =
          subst (λ n. stream_of n stored ≡ stored) e own in
        rw (stream-write, same, filter-append, own', w.indexed other)
    | inr different ↦
        rw (
          stream-write,
          different,
          filter-append,
          rest other different,
          append-nil,
          w.indexed other,
        )
  ]

  write-Versions :
      IsWellFormed s
      → Versions (1 + length (stream s name)) stored
      → (other : String) → Versions 1 (stream (write name stored s) other)
  write-Versions w new other = elim (Bool-cases (name == other)) [
    | inl same ↦
        let e : name ≡ other = (text_equality.same_iff name other).0 same in
        rw (stream-write, same)
          (Versions-append 1 (1 + length (stream s other)) (stream s other) stored
            (w.versions other) refl (subst (λ n. Versions (1 + length (stream s n)) stored) e new))
    | inr different ↦ rw (stream-write, different) (w.versions other)
  ]

  write-IsPinned :
      IsWellFormed s
      → lookup name s.erased ≡ none
      → (other : String) (r : ErasedStreamRecord) → lookup other s.erased ≡ some r
      → IsPinned (write name stored s) other r
  write-IsPinned w alive other r e = elim (Bool-cases (name == other)) [
    | inl same ↦
        let same' : name ≡ other = (text_equality.same_iff name other).0 same in
        absurd (cc (subst (λ n. lookup n s.erased ≡ none) same' alive))
    | inr different ↦
        let before = w.pinned other r e in
        record {
          count = rw (stream-write, different) before.count;
          tombstones = rw (stream-write, different) before.tombstones;
        }
  ]

  write-IsWellFormed :
      IsWellFormed s
      → lookup name s.erased ≡ none
      → stream_of name stored ≡ stored
      → ((other : String) → (name == other) ≡ false → stream_of other stored ≡ [])
      → Positions (1 + length s.all) stored
      → Versions (1 + length (stream s name)) stored
      → IsWellFormed (write name stored s)
  unfolding write
  write-IsWellFormed w alive own rest positions versions = record {
    positions = Positions-append 1 (1 + length s.all) s.all stored w.positions refl positions;
    indexed = write-indexed w own rest;
    versions = write-Versions w versions;
    pinned = λ other r e. write-IsPinned w alive other r e;
  }

-- An append leaves the state, or writes to a stream that is not erased.
pub append-next :
    (name : String) (expected : ℕ) (events : List AppendEvent) (s : EventStoreState)
    → ((append name expected events s).1 ≡ s)
      ⊎ ((lookup name s.erased ≡ none)
          × ((append name expected events s).1
              ≡ write name (stored_from (length s.all) name (length (stream s name)) 0 events) s))
unfolding append
append-next name expected events s = ground arith

-- Whatever an append answers, the store stays well formed.
pub append-IsWellFormed :
    (name : String) (expected : ℕ) (events : List AppendEvent) (s : EventStoreState)
    → IsWellFormed s
    → IsWellFormed (append name expected events s).1
append-IsWellFormed name expected events s w = elim (append-next name expected events s) [
  | inl same ↦ rw same w
  | inr (alive, next) ↦
      let base = length s.all in
      let actual = length (stream s name) in
      rw next (
        write-IsWellFormed s name (stored_from base name actual 0 events) w alive
          (stored_from-in_stream base name actual 0 events)
          (λ other h. stored_from-other base name actual other 0 events h)
          (stored_from-Positions base name actual 0 (1 + base) events (omega arith))
          (stored_from-Versions base name actual 0 (1 + actual) events (omega arith)))
]
