-- ===== src/RateLimit/Decisions.antt =====
-- About the answers of the in-memory store.
use structure.RateLimit.Memory.{
  RateLimitRule, charge, peek, RateLimitDecision, reset_of, MemoryEntry, MemoryStore, consume,
  MemoryOptions, window_of, prepare,
}
use structure.Prelude.{ℕ, String, ◌≡◌, false, arith, ◌≤◌, true}

pub record IsSensible (rule : RateLimitRule) (d : RateLimitDecision) : Type 0 where
  pub wait :
      d.allowed ≡ false → (1 ≤ d.retry_after_millis) × (d.retry_after_millis ≤ d.reset_millis)
  pub spent : d.allowed ≡ false → d.remaining ≡ 0
  pub admitted : d.allowed ≡ true → (d.retry_after_millis ≡ 0) × (d.remaining ≤ rule.points)
  pub limited : d.limit ≡ rule.points

charge-IsSensible :
    (rule : RateLimitRule) (timestamp : ℕ) (entry : MemoryEntry)
    → IsSensible rule (charge rule timestamp entry).0
unfolding charge reset_of
charge-IsSensible rule timestamp entry = record {
  wait = ground arith;
  spent = ground arith;
  admitted = ground arith;
  limited = ground arith;
}

-- Every answer of the in-memory store is sensible, whatever the store holds: a denial names a wait
-- of at least 1 ms that the reset covers, and no points left; an admission names no wait and at most
-- the rule's points.
pub answers-IsSensible :
    (options : MemoryOptions) (key : String) (rule : RateLimitRule) (timestamp : ℕ)
    (s : MemoryStore)
    → IsSensible rule (consume options key rule timestamp s).0
      × IsSensible rule (peek key rule timestamp s)
unfolding consume peek reset_of
answers-IsSensible options key rule timestamp s = (
  charge-IsSensible rule timestamp
      (window_of key rule timestamp (prepare options rule timestamp s).entries),
  record {
    wait = ground arith;
    spent = ground arith;
    admitted = ground arith;
    limited = ground arith;
  },
)
