-- ===== src/EventSourcing/Concurrency.antt =====
-- About optimistic concurrency: when `append` accepts, what it writes, and races of writers.
use mathlib.Core.List.{append-nil as list_append-nil}
use structure.EventSourcing.Event.{AppendEvent, StoredEvent}
use structure.EventSourcing.Store.{
  EventStoreState, append, stream, conflict, stored_from, write, AppendResult, ConcurrencyConflict,
}
use structure.EventSourcing.Invariant.{IsWellFormed}
use structure.EventSourcing.Invariant.Append.{stream-write, length-stored_from, append-IsWellFormed}
use structure.Prelude.{
  ℕ, String, List, [], ◌≡◌, lookup, none, length, ◌++◌, ◌==◌, ◌∷◌, ok, if◌then◌else◌, is_some, ◌≢◌,
  ◌+◌, arith, true, err, ◌⊎◌, Option-cases, inl, inr, text_equality, ap, ◌∙◌, sym, same_refl, refl,
  length-append, min, Bool-cases, nat_equality,
}

-- The version range that an accepted append answers with.
abbrev pub range : ℕ → List AppendEvent → AppendResult
range expected [] = record { first_version = expected; last_version = expected }
range expected (event ∷ events) = record {
  first_version = expected + 1;
  last_version = expected + length (event ∷ events);
}

module _ (name : String) (expected : ℕ) (s : EventStoreState) (alive : lookup name s.erased ≡ none)
    (current : length (stream s name) ≡ expected) where
  append-nil : append name expected [] s ≡ (ok (range expected []), s)
  unfolding append
  append-nil = ground arith

  append-cons :
      (event : AppendEvent) (events : List AppendEvent)
      → append name expected (event ∷ events) s ≡ (
        ok (range expected (event ∷ events)),
        write name (stored_from (length s.all) name expected 0 (event ∷ events)) s,
      )
  unfolding append
  append-cons event events = ground arith

-- What an append that is accepted writes.
append-accepted :
    (name : String) (expected : ℕ) (events : List AppendEvent) (s : EventStoreState)
    → lookup name s.erased ≡ none
    → length (stream s name) ≡ expected
    → ((append name expected events s).0 ≡ ok (range expected events))
      × ((append name expected events s).1.all
          ≡ s.all ++ stored_from (length s.all) name expected 0 events)
      × ((other : String)
          → stream (append name expected events s).1 other ≡ (
              if name == other
              then stream s other ++ stored_from (length s.all) name expected 0 events
              else stream s other))
unfolding write stored_from
append-accepted name expected [] s alive current = (
  ap (λ r. r.0) (append-nil name expected s alive current),
  ap (λ r. r.1.all) (append-nil name expected s alive current) ∙ sym (list_append-nil s.all),
  λ other.
      ap (λ r. stream r.1 other) (append-nil name expected s alive current)
      ∙ ground (arith, list_append-nil (stream s other)),
)
append-accepted name expected (event ∷ events) s alive current = (
  ap (λ r. r.0) (append-cons name expected s alive current event events),
  ap (λ r. r.1.all) (append-cons name expected s alive current event events),
  λ other.
      ap (λ r. stream r.1 other) (append-cons name expected s alive current event events)
      ∙ stream-write s name other (stored_from (length s.all) name expected 0 (event ∷ events)),
)

range-first :
    (expected : ℕ) (events : List AppendEvent)
    → (range expected events).first_version ≡ expected + min 1 (length events)
range-first expected [] = omega arith
range-first expected (event ∷ events) = omega arith

range-last :
    (expected : ℕ) (events : List AppendEvent)
    → (range expected events).last_version ≡ expected + length events
range-last expected [] = omega arith
range-last expected (event ∷ events) = refl

-- An accepted append makes its stream longer by its events.
append-length :
    (name : String) (expected : ℕ) (events : List AppendEvent) (s : EventStoreState)
    → lookup name s.erased ≡ none
    → length (stream s name) ≡ expected
    → length (stream (append name expected events s).1 name) ≡ expected + length events
append-length name expected events s alive current =
    let new = stored_from (length s.all) name expected 0 events in
    let grown : stream (append name expected events s).1 name ≡ stream s name ++ new =
      (append-accepted name expected events s alive current).2 name
      ∙ rw (same_refl text_equality name) refl in
    omega (
      arith,
      ap length grown,
      length-append {0} (stream s name) new,
      length-stored_from (length s.all) name expected 0 events,
    )

-- Stored events that carry the given events in their order, under a stream's name, numbered one by one
-- from a position and from a version.
abbrev pub IsNumbered : String → ℕ → ℕ → List AppendEvent → List StoredEvent → Type 0
IsNumbered name position version [] [] = Unit
IsNumbered name position version [] (stored ∷ rest) = ⊥
IsNumbered name position version (event ∷ events) [] = ⊥
IsNumbered name position version (event ∷ events) (stored ∷ rest) =
    (stored.position ≡ position)
    × (stored.version ≡ version)
    × (stored.stream_name ≡ name)
    × (stored.type ≡ event.type)
    × (stored.schema_version ≡ event.schema_version)
    × (stored.payload ≡ event.payload)
    × (stored.metadata ≡ event.metadata)
    × IsNumbered name (position + 1) (version + 1) events rest

stored_from-IsNumbered :
    (base : ℕ) (name : String) (actual index : ℕ) (events : List AppendEvent) (position version : ℕ)
    → position ≡ base + index + 1
    → version ≡ actual + index + 1
    → IsNumbered name position version events (stored_from base name actual index events)
unfolding stored_from
stored_from-IsNumbered base name actual index [] position version p v = tt
stored_from-IsNumbered base name actual index (event ∷ events) position version p v = (
  omega (arith, p),
  omega (arith, v),
  refl,
  refl,
  refl,
  refl,
  refl,
  stored_from-IsNumbered base name actual (index + 1) events (position + 1) (version + 1) omega
      (arith, p) omega (arith, v),
)

-- An append to a stream that is not erased, at its current version, is accepted: its events, in their
-- order and with their contents, stand at the end of the log and of their stream, numbered on from
-- the last position of the log and from the expected version; every other stream is as it was. The
-- answer ends with the version that the stream has then, and begins one past the expected version
-- if there was an event.
pub append_accepts :
    (name : String) (expected : ℕ) (events : List AppendEvent) (s : EventStoreState)
    → lookup name s.erased ≡ none
    → length (stream s name) ≡ expected
    → (new : List StoredEvent) × (result : AppendResult) × IsNumbered name
        (length s.all + 1)
        (expected + 1)
        events
        new
      × ((append name expected events s).1.all ≡ s.all ++ new)
      × ((other : String)
          → stream (append name expected events s).1 other
            ≡ (if name == other then stream s other ++ new else stream s other))
      × ((append name expected events s).0 ≡ ok result)
      × (result.first_version ≡ expected + min 1 (length events))
      × (result.last_version ≡ length (stream (append name expected events s).1 name))
append_accepts name expected events s alive current =
    let new : List StoredEvent = stored_from (length s.all) name expected 0 events in
    let (answer, log, streams) = append-accepted name expected events s alive current in
    (
      new,
      range expected events,
      stored_from-IsNumbered (length s.all) name expected 0 events (length s.all + 1) (expected + 1)
          omega arith omega arith,
      log,
      streams,
      answer,
      range-first expected events,
      range-last expected events ∙ sym (append-length name expected events s alive current),
    )

-- An append that is refused.
pub append-refused :
    (name : String) (expected : ℕ) (events : List AppendEvent) (s : EventStoreState)
    → IsWellFormed s
    → (is_some (lookup name s.erased) ≡ true) ⊎ (length (stream s name) ≢ expected)
    → append name expected events s ≡ (err (conflict name expected (length (stream s name))), s)
unfolding append
append-refused name expected events s w refused = elim (Option-cases (lookup name s.erased)) [
  | inl alive ↦ ground arith
  | inr (r, pinned) ↦ let count = (w.pinned name r pinned).count in ground arith
]

refusing :
    (name : String) (expected : ℕ) (events : List AppendEvent) (s : EventStoreState)
    → IsWellFormed s
    → (is_some (lookup name s.erased) ≡ true) ⊎ (length (stream s name) ≢ expected)
    → ((lookup name s.erased ≡ none)
        × (length (stream s name) ≡ expected)
        × ((result : AppendResult) × ((append name expected events s).0 ≡ ok result)))
      ⊎ (((is_some (lookup name s.erased) ≡ true) ⊎ (length (stream s name) ≢ expected))
          × ((c : ConcurrencyConflict) × (append name expected events s ≡ (err c, s))
              × (c.expected_version ≡ expected)
              × (c.actual_version ≡ length (stream s name))))
unfolding conflict
refusing name expected events s w refused = inr (
  refused,
  (
    conflict name expected (length (stream s name)),
    append-refused name expected events s w refused,
    refl,
    refl,
  ),
)

-- In a well-formed store an append is accepted, or it fails and writes nothing. It fails exactly if the
-- stream is erased or has another version than the expected one, and the error names the expected
-- version and the version that the stream has.
pub append_refuses :
    (name : String) (expected : ℕ) (events : List AppendEvent) (s : EventStoreState)
    → IsWellFormed s
    → ((lookup name s.erased ≡ none)
        × (length (stream s name) ≡ expected)
        × ((result : AppendResult) × ((append name expected events s).0 ≡ ok result)))
      ⊎ (((is_some (lookup name s.erased) ≡ true) ⊎ (length (stream s name) ≢ expected))
          × ((c : ConcurrencyConflict) × (append name expected events s ≡ (err c, s))
              × (c.expected_version ≡ expected)
              × (c.actual_version ≡ length (stream s name))))
append_refuses name expected events s w = elim (Option-cases (lookup name s.erased)) [
  | inr (pin, erased) ↦ refusing name expected events s w (inl (rw erased refl))
  | inl alive ↦ elim (Bool-cases (length (stream s name) == expected)) [
    | inr other ↦ refusing name expected events s w (inr (λ e. absurd (ground arith)))
    | inl current ↦
        let same : length (stream s name) ≡ expected = ground arith in
        inl (
          alive,
          same,
          (range expected events, (append-accepted name expected events s alive same).0),
        )
  ]
]

-- Of two appends at the same expected version of a stream, of which the first has events and is
-- accepted, the second fails with a conflict and writes nothing.
pub one_writer_wins :
    (name : String) (expected : ℕ) (first second : List AppendEvent) (s : EventStoreState)
    → IsWellFormed s
    → first ≢ []
    → lookup name s.erased ≡ none
    → length (stream s name) ≡ expected
    → append name expected second (append name expected first s).1
      ≡ (err (conflict name expected (expected + length first)), (append name expected first s).1)
one_writer_wins name expected [] second s w some_event alive current = absurd (some_event refl)
one_writer_wins name expected (event ∷ events) second s w some_event alive current =
    let first = event ∷ events in
    let t = (append name expected first s).1 in
    let longer = append-length name expected first s alive current in
    append-refused name expected second t (append-IsWellFormed name expected first s w)
      (inr (λ e. absurd (omega arith)))
    ∙ ap (λ n. (err (conflict name expected n), t)) longer
