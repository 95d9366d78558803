-- ===== src/RateLimit/Memory.antt =====
-- The rules, the decisions, and the in-memory store of packages/http/src/rateLimit.ts. The clock's
-- reading is an argument, in milliseconds.
use structure.Prelude.{
  ℕ, [], String, Bool, List, Option, Dict, max, none, length, false, last, leb, filter, insert, ltb,
  or_else, head, ◌+◌, some, ◌&&◌, not, if◌then◌else◌, lookup, true, ◌-◌, every, has, text_equality,
  delete, ◌++◌, ◌∷◌,
}

pub record RateLimitRule : Type 0 where
  pub points : ℕ
  pub window_millis : ℕ
  pub block_millis : ℕ

pub data Reason : Type 0 where
  exceeded : Reason
  store_unavailable : Reason

pub record RateLimitDecision : Type 0 where
  pub allowed : Bool
  pub retry_after_millis : ℕ
  pub limit : ℕ
  pub remaining : ℕ
  pub reset_millis : ℕ
  pub reason : Option Reason

pub record MemoryEntry : Type 0 where
  pub hits : List ℕ
  pub blocked_until : ℕ

-- `maxKeys` and `sweepInterval` of makeInMemoryStore, at least 1 each.
pub record MemoryOptions : Type 0 where
  pub max_keys : ℕ
  pub sweep_interval : ℕ

abbrev pub memory_options : Option ℕ → Option ℕ → MemoryOptions
memory_options max_keys sweep_interval_millis = record {
  max_keys = max 1 (or_else max_keys 100000);
  sweep_interval = max 1 (or_else sweep_interval_millis 60000);
}

-- `lastSweep` is none for negative infinity.
pub record MemoryStore : Type 0 where
  pub entries : Dict String MemoryEntry
  pub longest_window : ℕ
  pub last_sweep : Option ℕ

abbrev pub empty_store : MemoryStore
empty_store = record { entries = []; longest_window = 0; last_sweep = none }

abbrev pub size : MemoryStore → ℕ
size s = length s.entries

abbrev pub denied : RateLimitRule → ℕ → ℕ → RateLimitDecision
denied rule retry_after_millis reset_millis = record {
  allowed = false;
  retry_after_millis = retry_after_millis;
  limit = rule.points;
  remaining = 0;
  reset_millis = reset_millis;
  reason = none;
}

-- When the newest hit leaves the window.
abbrev window_reset : Option ℕ → RateLimitRule → ℕ → ℕ
window_reset none rule timestamp = 0
window_reset (some newest) rule timestamp = newest + rule.window_millis - timestamp

unfoldable pub reset_of : List ℕ → ℕ → RateLimitRule → ℕ → ℕ
reset_of hits blocked_until rule timestamp =
    max (window_reset (last hits) rule timestamp) (blocked_until - timestamp)

-- `entry.hits.every((hit) => hit <= horizon)` and the block is over
unfoldable pub stale : MemoryStore → ℕ → MemoryEntry → Bool
stale s timestamp entry =
    leb entry.blocked_until timestamp
    && every (λ hit. leb (hit + s.longest_window) timestamp) entry.hits

unfoldable pub sweep : ℕ → MemoryStore → MemoryStore
sweep timestamp s = record s {
  entries = filter (λ e. not (stale s timestamp e.1)) s.entries;
  last_sweep = some timestamp;
}

-- The entries that stay when a key is remembered: without the key, or without the oldest at the cap.
unfoldable pub make_room :
    MemoryOptions → String → Dict String MemoryEntry → Dict String MemoryEntry
make_room options key entries =
    if has key entries
    then delete key entries
    else if leb options.max_keys (length entries)
    then elim (head entries) [ none ↦ entries | some oldest ↦ delete oldest.0 entries ]
    else entries

-- The keys, oldest first: a key that is charged moves to the end.
unfoldable pub remember :
    MemoryOptions → String → MemoryEntry → Dict String MemoryEntry → Dict String MemoryEntry
remember options key entry entries = insert key entry (make_room options key entries)

abbrev pub no_entry : MemoryEntry
no_entry = record { hits = []; blocked_until = 0 }

-- `hit > timestamp - rule.windowMillis`
unfoldable pub in_window : RateLimitRule → ℕ → ℕ → Bool
in_window rule timestamp hit = ltb timestamp (hit + rule.window_millis)

unfoldable pub window_of : String → RateLimitRule → ℕ → Dict String MemoryEntry → MemoryEntry
window_of key rule timestamp entries =
    let entry = or_else (lookup key entries) no_entry in
    record {
      hits = filter (in_window rule timestamp) entry.hits;
      blocked_until = entry.blocked_until;
    }

abbrev until_oldest_leaves : RateLimitRule → ℕ → List ℕ → ℕ
until_oldest_leaves rule timestamp hits = elim (head hits) [
  | none ↦ rule.window_millis
  | some oldest ↦ oldest + rule.window_millis - timestamp
]

-- The three answers of `consume`, with what it remembers for the key.
unfoldable pub charge : RateLimitRule → ℕ → MemoryEntry → RateLimitDecision × MemoryEntry
charge rule timestamp entry =
    let hits = entry.hits in
    let blocked_until = entry.blocked_until in
    let blocked_from_now = timestamp + rule.block_millis in
    let retry_after_millis =
      if ltb 0 rule.block_millis
      then rule.block_millis
      else max 1 (until_oldest_leaves rule timestamp hits) in
    if ltb timestamp blocked_until
    then (
      denied rule (blocked_until - timestamp) (reset_of hits blocked_until rule timestamp),
      entry,
    )
    else if leb rule.points (length hits)
    then (
      denied rule retry_after_millis
          (max retry_after_millis (reset_of hits blocked_from_now rule timestamp)),
      record { hits = hits; blocked_until = blocked_from_now },
    )
    else (
      record {
        allowed = true;
        retry_after_millis = 0;
        limit = rule.points;
        remaining = rule.points - length (hits ++ timestamp ∷ []);
        reset_millis = rule.window_millis;
        reason = none;
      },
      record { hits = hits ++ timestamp ∷ []; blocked_until = 0 },
    )

-- `timestamp - lastSweep >= sweepInterval`
abbrev pub sweep_due : MemoryOptions → ℕ → MemoryStore → Bool
sweep_due options timestamp s = elim s.last_sweep [
  | none ↦ true
  | some at ↦ leb (at + options.sweep_interval) timestamp
]

-- The store as `consume` finds it, once the windows and the sweep are done.
unfoldable pub prepare : MemoryOptions → RateLimitRule → ℕ → MemoryStore → MemoryStore
prepare options rule timestamp s =
    let widened = record s { longest_window = max s.longest_window rule.window_millis } in
    if sweep_due options timestamp s then sweep timestamp widened else widened

unfoldable pub consume :
    MemoryOptions → String → RateLimitRule → ℕ → MemoryStore → RateLimitDecision × MemoryStore
consume options key rule timestamp s =
    let ready = prepare options rule timestamp s in
    let (decision, entry) = charge rule timestamp (window_of key rule timestamp ready.entries) in
    (decision, record ready { entries = remember options key entry ready.entries })

unfoldable pub peek : String → RateLimitRule → ℕ → MemoryStore → RateLimitDecision
peek key rule timestamp s =
    let entry = window_of key rule timestamp s.entries in
    let hits = entry.hits in
    let reset_millis = reset_of hits entry.blocked_until rule timestamp in
    let retry_after_millis = max 1 (until_oldest_leaves rule timestamp hits) in
    if ltb timestamp entry.blocked_until
    then denied rule (entry.blocked_until - timestamp) reset_millis
    else if leb rule.points (length hits)
    then denied rule retry_after_millis (max retry_after_millis reset_millis)
    else record {
      allowed = true;
      retry_after_millis = 0;
      limit = rule.points;
      remaining = rule.points - length hits;
      reset_millis = reset_millis;
      reason = none;
    }
