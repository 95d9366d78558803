-- ===== src/EventSourcing/Invariant.antt =====
-- What every state of the in-memory event store satisfies: the global log is numbered from 1 with
-- no gap, each stream is the part of the log with its name and is numbered from 1, and an erased
-- stream holds tombstones only, as many as its ledger says.
pub mod Append
pub mod Import
pub mod Erase
use structure.Prelude.{
  ℕ, ◌+◌, String, Bool, ◌≡◌, some, List, [], ◌∷◌, ◌++◌, length, filter, All, ◌==◌, text_equality,
  arith, lookup, subst,
}
use structure.EventSourcing.Event.{StoredEvent}
use structure.EventSourcing.Store.{EventStoreState, ErasedStreamRecord, stream}
use structure.EventSourcing.Erasure.{tombstone}

abbrev pub in_stream : String → StoredEvent → Bool
in_stream name event = event.stream_name == name

-- The events of one stream, in the order of the log.
abbrev pub stream_of : String → List StoredEvent → List StoredEvent
stream_of name = filter (in_stream name)

-- The positions are n, n + 1, …
abbrev pub Positions : ℕ → List StoredEvent → Type 0
Positions n [] = Unit
Positions n (event ∷ events) = (event.position ≡ n) × Positions (n + 1) events

-- The versions are n, n + 1, …
abbrev pub Versions : ℕ → List StoredEvent → Type 0
Versions n [] = Unit
Versions n (event ∷ events) = (event.version ≡ n) × Versions (n + 1) events

abbrev pub IsTombstone : String → String → StoredEvent → Type 0
IsTombstone name erased_at event = event ≡ tombstone name erased_at event

pub record IsPinned (s : EventStoreState) (name : String) (r : ErasedStreamRecord) : Type 0 where
  pub count : length (stream s name) ≡ r.last_version
  pub tombstones : All (IsTombstone name r.erased_at) (stream s name)

pub record IsWellFormed (s : EventStoreState) : Type 0 where
  pub positions : Positions 1 s.all
  pub indexed : (name : String) → stream s name ≡ stream_of name s.all
  pub versions : (name : String) → Versions 1 (stream s name)
  pub pinned :
      (name : String) (r : ErasedStreamRecord) → lookup name s.erased ≡ some r → IsPinned s name r

pub Positions-append :
    (n m : ℕ) (xs ys : List StoredEvent)
    → Positions n xs
    → m ≡ n + length xs
    → Positions m ys
    → Positions n (xs ++ ys)
Positions-append n m [] ys hx e hy = subst (λ k. Positions k ys) (omega arith) hy
Positions-append n m (x ∷ xs) ys hx e hy =
    (hx.0, Positions-append (n + 1) m xs ys hx.1 (omega arith) hy)

pub Versions-append :
    (n m : ℕ) (xs ys : List StoredEvent)
    → Versions n xs
    → m ≡ n + length xs
    → Versions m ys
    → Versions n (xs ++ ys)
Versions-append n m [] ys hx e hy = subst (λ k. Versions k ys) (omega arith) hy
Versions-append n m (x ∷ xs) ys hx e hy =
    (hx.0, Versions-append (n + 1) m xs ys hx.1 (omega arith) hy)
