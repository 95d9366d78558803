-- ===== src/RateLimit/Bounded.antt =====
-- About the number of keys that the in-memory store holds.
use structure.RateLimit.Memory.{
  MemoryOptions, prepare, remember, consume, MemoryStore, sweep, RateLimitRule, MemoryEntry, size,
  sweep_due, charge, window_of, stale, make_room, memory_options, empty_store,
}
use structure.Prelude.{
  ◌∷◌, String, lookup, IsMap, ℕ, Dict, ◌≤◌, Bool-cases, insert-IsMap, length, text_equality, inr,
  arith, inl, length-insert_le, filter-IsMap, length-filter-le, not, has, delete-IsMap,
  length-delete_lt, max, leb, same_refl, [], ◌<◌, List, Option,
}

pub record IsBounded (options : MemoryOptions) (s : MemoryStore) : Type 0 where
  pub distinct : IsMap s.entries
  pub bounded : size s ≤ options.max_keys

prepare-IsBounded :
    (options : MemoryOptions) (rule : RateLimitRule) (timestamp : ℕ) (s : MemoryStore)
    → IsBounded options s
    → IsBounded options (prepare options rule timestamp s)
unfolding prepare sweep
prepare-IsBounded options rule timestamp s b = elim (Bool-cases (sweep_due options timestamp s)) [
  | inr early ↦ rw (prepare, early) (record { distinct = b.distinct; bounded = b.bounded })
  | inl due_now ↦
      rw (prepare, due_now)
        (record {
          distinct =
              filter-IsMap
                (λ x. not (
                  stale (record s { longest_window = max s.longest_window rule.window_millis })
                    timestamp x.1))
                s.entries b.distinct;
          bounded = omega (
            arith,
            b.bounded,
            length-filter-le
                (λ x. not (
                  stale (record s { longest_window = max s.longest_window rule.window_millis })
                    timestamp x.1))
                s.entries,
          );
        })
]

make_room-IsMap :
    (options : MemoryOptions) (key : String) (m : Dict String MemoryEntry)
    → IsMap m
    → IsMap (make_room options key m)
unfolding make_room lookup
make_room-IsMap options key [] d = elim (Bool-cases (leb options.max_keys 0)) [
  | inl full ↦ rw full d
  | inr room ↦ rw room d
]
make_room-IsMap options key ((j, w) ∷ m) d = elim (Bool-cases (has key ((j, w) ∷ m))) [
  | inl known ↦ rw known (delete-IsMap key ((j, w) ∷ m) d)
  | inr new ↦ elim (Bool-cases (leb options.max_keys (length ((j, w) ∷ m)))) [
    | inl full ↦ rw (new, full) (delete-IsMap j ((j, w) ∷ m) d)
    | inr room ↦ rw (new, room) d
  ]
]

make_room-length :
    (options : MemoryOptions) (key : String) (m : Dict String MemoryEntry)
    → 1 ≤ options.max_keys
    → length m ≤ options.max_keys
    → length (make_room options key m) < options.max_keys
unfolding make_room lookup
make_room-length options key [] o h = ground arith
make_room-length options key ((j, w) ∷ m) o h = ground (
  arith,
  length-delete_lt key ((j, w) ∷ m),
  length-delete_lt j ((j, w) ∷ m),
  same_refl text_equality j,
)

-- With at least one key allowed, charging any key at any time keeps the number of keys at or below
-- `maxKeys` and no key twice.
pub consume-IsBounded :
    (options : MemoryOptions) (key : String) (rule : RateLimitRule) (timestamp : ℕ)
    (s : MemoryStore)
    → 1 ≤ options.max_keys
    → IsBounded options s
    → IsBounded options (consume options key rule timestamp s).1
unfolding consume remember
consume-IsBounded options key rule timestamp s o b =
    let ready = prepare options rule timestamp s in
    let entry = (charge rule timestamp (window_of key rule timestamp ready.entries)).1 in
    let r = prepare-IsBounded options rule timestamp s b in
    record {
      distinct =
          insert-IsMap key entry (make_room options key ready.entries)
            (make_room-IsMap options key ready.entries r.distinct);
      bounded = omega (
        arith,
        length-insert_le key entry (make_room options key ready.entries),
        make_room-length options key ready.entries o r.bounded,
      );
    }

pub record Charge : Type 0 where
  pub key : String
  pub rule : RateLimitRule
  pub timestamp : ℕ

abbrev pub charge_all : MemoryOptions → List Charge → MemoryStore → MemoryStore
charge_all options [] s = s
charge_all options (c ∷ charges) s =
    charge_all options charges (consume options c.key c.rule c.timestamp s).1

charge_all-IsBounded :
    (options : MemoryOptions) (charges : List Charge) (s : MemoryStore)
    → 1 ≤ options.max_keys
    → IsBounded options s
    → IsBounded options (charge_all options charges s)
charge_all-IsBounded options [] s o b = b
charge_all-IsBounded options (c ∷ charges) s o b =
    charge_all-IsBounded options charges (consume options c.key c.rule c.timestamp s).1 o
      (consume-IsBounded options c.key c.rule c.timestamp s o b)

-- Whatever is charged to a new store, by whatever rules and at whatever times, it never holds a key
-- twice nor more keys than its option allows (and it allows at least one).
pub size-IsBounded :
    (max_keys sweep_interval : Option ℕ) (charges : List Charge)
    → IsBounded
        (memory_options max_keys sweep_interval)
        (charge_all (memory_options max_keys sweep_interval) charges empty_store)
unfolding IsMap
size-IsBounded max_keys sweep_interval charges =
    charge_all-IsBounded (memory_options max_keys sweep_interval) charges empty_store (ground arith)
      (record { distinct = tt; bounded = omega arith })
