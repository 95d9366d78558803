-- ===== src/RateLimit/Blocks.antt =====
-- What charging a key leaves for it: the block that a denial starts, and the hits in the window.
use structure.RateLimit.Memory.{
  remember, consume, MemoryOptions, MemoryEntry, RateLimitRule, MemoryStore, charge, make_room,
  window_of, prepare, RateLimitDecision,
}
use structure.Prelude.{
  String, Dict, ℕ, lookup, ◌≡◌, IsMap, some, lookup-insert_self, ◌<◌, false, text_equality, Bool,
  arith, true, length-append, ◌∙◌, ◌++◌, ◌∷◌, ap, [], subst, length, ◌≤◌, sym, ◌+◌,
}
use structure.RateLimit.Agreement.{charge-prepare}

lookup-remember :
    (options : MemoryOptions) (key : String) (entry : MemoryEntry) (m : Dict String MemoryEntry)
    → lookup key (remember options key entry m) ≡ some entry
unfolding remember
lookup-remember options key entry m = lookup-insert_self key entry (make_room options key m)

consume-entry :
    (options : MemoryOptions) (key : String) (rule : RateLimitRule) (timestamp : ℕ)
    (s : MemoryStore)
    → lookup key (consume options key rule timestamp s).1.entries
      ≡ some
          (charge rule timestamp
            (window_of key rule timestamp (prepare options rule timestamp s).entries)).1
unfolding consume
consume-entry options key rule timestamp s =
    lookup-remember options key
      (charge rule timestamp
        (window_of key rule timestamp (prepare options rule timestamp s).entries)).1
      (prepare options rule timestamp s).entries

-- What charging a key does where no key stands twice: within the points, the hit joins the hits in
-- the window, at most `points` of them, and the key is free; out of points, the hits stay and the key
-- is blocked for the rule's block time from now; blocked, the hits and the block stay as they are.
pub record IsCharged (rule : RateLimitRule) (timestamp : ℕ) (before : MemoryEntry) (allowed : Bool)
    (after : MemoryEntry) : Type 0 where
  pub admitted :
      allowed ≡ true
      → (after.hits ≡ before.hits ++ timestamp ∷ [])
        × ((length after.hits ≤ rule.points) × (after.blocked_until ≡ 0))
  pub refused : allowed ≡ false → after.hits ≡ before.hits
  pub exhausted :
      allowed ≡ false
      → before.blocked_until ≤ timestamp
      → (rule.points ≤ length before.hits) × (after.blocked_until ≡ timestamp + rule.block_millis)
  pub blocked :
      timestamp < before.blocked_until
      → (allowed ≡ false) × (after.blocked_until ≡ before.blocked_until)

charge-IsCharged :
    (rule : RateLimitRule) (timestamp : ℕ) (before : MemoryEntry)
    → IsCharged rule timestamp before
        (charge rule timestamp before).0.allowed
        (charge rule timestamp before).1
unfolding charge
charge-IsCharged rule timestamp before = record {
  admitted = ground (arith, length-append before.hits (timestamp ∷ []));
  refused = ground arith;
  exhausted = ground arith;
  blocked = ground arith;
}

-- Where no key stands twice, charging a key keeps for it the hits of the rule's window, and: within
-- the points, it is admitted, its hit joins them (at most the rule's points in all) and the key is
-- free; out of points, it is refused, no hit is recorded and the key is blocked for the rule's block
-- time from that instant; blocked, it is refused and neither the hits nor the block change.
pub consume-IsCharged :
    (options : MemoryOptions) (key : String) (rule : RateLimitRule) (timestamp : ℕ)
    (s : MemoryStore)
    → IsMap s.entries
    → (after : MemoryEntry) × ((lookup key (consume options key rule timestamp s).1.entries
          ≡ some after)
        × IsCharged rule timestamp
            (window_of key rule timestamp s.entries)
            (consume options key rule timestamp s).0.allowed
            after)
unfolding consume
consume-IsCharged options key rule timestamp s d =
    let same = charge-prepare options key rule timestamp s d in
    (
      (charge rule timestamp (window_of key rule timestamp s.entries)).1,
      (
        consume-entry options key rule timestamp s ∙ ap (λ r. some r.1) same,
        subst
            (λ (r : RateLimitDecision × MemoryEntry).
              IsCharged rule timestamp (window_of key rule timestamp s.entries) r.0.allowed
                (charge rule timestamp (window_of key rule timestamp s.entries)).1)
            (sym same) (charge-IsCharged rule timestamp (window_of key rule timestamp s.entries)),
      ),
    )
