-- ===== src/RateLimit/Combined.antt =====
-- About `combine` and `forKeys`, over any store whose own answers are sensible.
use structure.RateLimit.Outcome.{
  RateLimitStore, combine_each, fallback, combine, OnStoreError, combine_step, nothing_charged,
  absorb, outcomes_of, for_keys, allow, deny_all,
}
use structure.RateLimit.Memory.{
  RateLimitRule, MemoryStore, MemoryOptions, RateLimitDecision, consume, peek,
}
use structure.Prelude.{
  String, ℕ, subst, ◌≡◌, List, arith, Result, ok, All, ◌&&◌, refl, ◌∷◌, every, err, map, [],
}
use structure.RateLimit.Decisions.{IsSensible, answers-IsSensible}

pub record IsLawful {W : Type 0} (store : RateLimitStore W) : Type 0 where
  pub consumes :
      (key : String) (rule : RateLimitRule) (w : W) (d : RateLimitDecision)
      → (store.consume key rule w).0 ≡ ok d
      → IsSensible rule d
  pub peeks :
      (key : String) (rule : RateLimitRule) (w : W) (d : RateLimitDecision)
      → (store.peek key rule w).0 ≡ ok d
      → IsSensible rule d

module _ (rule : RateLimitRule) where
  step-IsSensible :
      (acc d : RateLimitDecision)
      → IsSensible rule acc
      → IsSensible rule d
      → IsSensible rule (combine_step acc d)
  step-IsSensible acc d h k = record {
    wait = ground (arith, h.wait, k.wait, h.admitted, k.admitted);
    spent = ground (arith, h.spent, k.spent);
    admitted = ground (arith, h.admitted, k.admitted);
    limited = h.limited;
  }

  combine_each-IsSensible :
      (acc : RateLimitDecision) (decisions : List RateLimitDecision)
      → IsSensible rule acc
      → All (IsSensible rule) decisions
      → IsSensible rule (combine_each acc decisions)
  unfolding combine_each
  combine_each-IsSensible acc [] h hs = h
  combine_each-IsSensible acc (d ∷ ds) h hs =
      combine_each-IsSensible (combine_step acc d) ds (step-IsSensible acc d h hs.0) hs.1

  combine_each-allowed :
      (acc : RateLimitDecision) (decisions : List RateLimitDecision)
      → (combine_each acc decisions).allowed ≡ (acc.allowed && every (λ d. d.allowed) decisions)
  unfolding combine_each
  combine_each-allowed acc [] = ground arith
  combine_each-allowed acc (d ∷ ds) = ground (arith, combine_each-allowed (combine_step acc d) ds)

  nothing_charged-IsSensible : IsSensible rule (nothing_charged rule)
  nothing_charged-IsSensible = record {
    wait = ground arith;
    spent = ground arith;
    admitted = ground arith;
    limited = refl;
  }

  fallback-IsSensible : (mode : OnStoreError) → IsSensible rule (fallback mode rule)
  unfolding fallback
  fallback-IsSensible allow = nothing_charged-IsSensible
  fallback-IsSensible deny_all = record {
    wait = ground arith;
    spent = ground arith;
    admitted = ground arith;
    limited = refl;
  }

  -- The keys of a request are admitted when each of them is, and the combined decision is sensible
  -- when each of theirs is.
  pub combine_lem :
      (decisions : List RateLimitDecision)
      → All (IsSensible rule) decisions
      → ((combine rule decisions).allowed ≡ every (λ d. d.allowed) decisions)
        × IsSensible rule (combine rule decisions)
  unfolding combine
  combine_lem decisions hs = (
    combine_each-allowed (nothing_charged rule) decisions,
    combine_each-IsSensible (nothing_charged rule) decisions nothing_charged-IsSensible hs,
  )

  module _ {W : Type 0} (mode : OnStoreError)
      (call : String → RateLimitRule → W → Result String RateLimitDecision × W)
      (lawful : (key : String) (w : W) (d : RateLimitDecision)
        → (call key rule w).0 ≡ ok d
        → IsSensible rule d) where
    absorb-IsSensible :
        (key : String) (w : W) (answer : Result String RateLimitDecision)
        → (call key rule w).0 ≡ answer
        → IsSensible rule (absorb mode rule answer).decision
    absorb-IsSensible key w (ok d) e = lawful key w d e
    absorb-IsSensible key w (err store) e = fallback-IsSensible mode

    outcomes_of-IsSensible :
        (keys : List String) (w : W)
        → All (IsSensible rule) (map (λ o. o.decision) (outcomes_of mode rule call keys w).0)
    unfolding outcomes_of
    outcomes_of-IsSensible [] w = tt
    outcomes_of-IsSensible (key ∷ keys) w = (
      absorb-IsSensible key w (call key rule w).0 refl,
      outcomes_of-IsSensible keys (call key rule w).1,
    )

    -- However many keys a request has and whichever store calls fail, the answer for the request is
    -- sensible, in either mode of store failure, when the store's own answers are.
    pub for_keys-IsSensible :
        (keys : List String) (w : W) → IsSensible rule (for_keys mode rule call keys w).0.decision
    unfolding for_keys
    for_keys-IsSensible keys w =
        (combine_lem (map (λ o. o.decision) (outcomes_of mode rule call keys w).0)
          (outcomes_of-IsSensible keys w)).1

-- The in-memory store over a clock.
pub record MemoryWorld : Type 0 where
  pub memory : MemoryStore
  pub clock : ℕ

unfoldable pub memory_store : MemoryOptions → RateLimitStore MemoryWorld
memory_store options = record {
  consume = λ key rule w. (
    ok (consume options key rule w.clock w.memory).0,
    record w { memory = (consume options key rule w.clock w.memory).1 },
  );
  peek = λ key rule w. (ok (peek key rule w.clock w.memory), w);
}

-- The in-memory store is one the middleware can rely on.
pub memory_store-IsLawful : (options : MemoryOptions) → IsLawful (memory_store options)
unfolding memory_store
memory_store-IsLawful options = record {
  consumes = λ key rule w d e.
      subst (IsSensible rule) (cc) (answers-IsSensible options key rule w.clock w.memory).0;
  peeks = λ key rule w d e.
      subst (IsSensible rule) (cc) (answers-IsSensible options key rule w.clock w.memory).1;
}
