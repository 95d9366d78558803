-- ===== src/EventSourcing/Feed.antt =====
-- What `read` and `readAll` return of a well-formed store.
use structure.Prelude.{
  fun_ext, zero, suc, Option-cases, Bool, ◌&&◌, ◌||◌, if◌then◌else◌, ◌==◌, ℕ, String, List, [], ◌≡◌,
  drop, take, none, some, filter, includes, leb, Option, ◌||◌, Bool, ◌-◌, true, ◌∷◌, ◌&&◌, refl,
  ◌==◌, text_equality, false, option_equality, arith, inl, ◌+◌, ◌++◌, inr, ◌∙◌, includes-append, ap,
}
use structure.EventSourcing.Event.{StoredEvent}
use structure.EventSourcing.Store.{
  EventStoreState, stream, read, read_all, Partition, one, many, read_all_partitions, in_partitions,
  distinct_from,
}
use structure.EventSourcing.Invariant.{IsWellFormed, Positions, Versions}

filter-Versions :
    (from n d : ℕ) (events : List StoredEvent)
    → from - n ≡ d
    → Versions n events
    → filter (λ e. leb from e.version) events ≡ drop d events
filter-Versions from n zero [] e h = refl
filter-Versions from n (suc d) [] e h = refl
filter-Versions from n zero (event ∷ events) e h =
    ground (arith, filter-Versions from (n + 1) 0 events (omega arith) h.1)
filter-Versions from n (suc d) (event ∷ events) e h =
    ground (arith, filter-Versions from (n + 1) d events (omega arith) h.1)

filter-Positions :
    (from n d : ℕ) (p : StoredEvent → Bool) (events : List StoredEvent)
    → from - n ≡ d
    → Positions n events
    → filter (λ e. leb from e.position && p e) events ≡ filter p (drop d events)
filter-Positions from n zero p [] e h = refl
filter-Positions from n (suc d) p [] e h = refl
filter-Positions from n zero p (event ∷ events) e h =
    ground (arith, filter-Positions from (n + 1) 0 p events (omega arith) h.1)
filter-Positions from n (suc d) p (event ∷ events) e h =
    ground (arith, filter-Positions from (n + 1) d p events (omega arith) h.1)

-- The events of the partitions that a call asks for, if it asks.
abbrev pub wanted : Option Partition → StoredEvent → Bool
wanted none e = true
wanted (some (one name)) e = e.metadata.partition == some name
wanted (some (many names)) e = elim e.metadata.partition [
  | none ↦ false
  | some name ↦ includes name names
]

includes-distinct_from :
    (name : String) (seen names : List String)
    → includes name (distinct_from seen names) ≡ (includes name seen || includes name names)
unfolding distinct_from
includes-distinct_from name seen [] = ground arith
includes-distinct_from name seen (first ∷ names) = ground (
  arith,
  includes-distinct_from name (if includes first seen then seen else seen ++ first ∷ []) names,
  includes-append name seen (first ∷ []),
  text_equality.same_iff first name,
)

in_partitions-eq-wanted :
    (partition : Option Partition) (e : StoredEvent)
    → in_partitions (read_all_partitions partition) e ≡ wanted partition e
unfolding in_partitions read_all_partitions
in_partitions-eq-wanted none e = refl
in_partitions-eq-wanted (some (one name)) e = elim (Option-cases e.metadata.partition) [
  | inl absent ↦ rw absent refl
  | inr (other, present) ↦
      rw present
        (ground (arith, text_equality.same_iff name other, text_equality.same_iff other name))
]
in_partitions-eq-wanted (some (many names)) e = elim (Option-cases e.metadata.partition) [
  | inl absent ↦ rw absent refl
  | inr (other, present) ↦ rw present (includes-distinct_from other [] names)
]

-- In a well-formed store, reading a stream from version k + 1 returns its events without the first
-- k, and reading the log from position k + 1 returns, of the log without its first k events, those
-- of the wanted partitions, in order, and at most as many as the batch size, if one is given.
pub feed :
    (s : EventStoreState) (k : ℕ)
    → IsWellFormed s
    → ((name : String) → read name (some (k + 1)) s ≡ drop k (stream s name))
      × ((partition : Option Partition)
          → read_all
              (record { from_position = some (k + 1); batch_size = none; partition = partition })
              s
            ≡ filter (wanted partition) (drop k s.all))
      × ((partition : Option Partition) (size : ℕ)
          → read_all
              (record {
                from_position = some (k + 1);
                batch_size = some size;
                partition = partition;
              })
              s
            ≡ take size (filter (wanted partition) (drop k s.all)))
unfolding read read_all
feed s k w =
    let tail = λ (partition : Option Partition).
      filter-Positions (k + 1) 1 k (in_partitions (read_all_partitions partition)) s.all
        (omega arith) w.positions
      ∙ ap (λ p. filter p (drop k s.all)) (fun_ext (in_partitions-eq-wanted partition)) in
    (
      λ name. filter-Versions (k + 1) 1 k (stream s name) (omega arith) (w.versions name),
      tail,
      λ partition size. ap (take size) (tail partition),
    )
