-- ===== src/RateLimit/Outcome.antt =====
-- The combined answer for the keys of one request, and the headers it stamps
-- (packages/http/src/rateLimit.ts).
use structure.Prelude.{
  ℕ, String, List, Option, Dict, Result, Bool, ◌+◌, decimal, if◌then◌else◌, ◌∷◌, true, false, ◌/◌,
  [], insert, some, ◌&&◌, none, ok, map, max, err, every, text_equality, min, not, is_none,
}
use structure.RateLimit.Memory.{
  RateLimitDecision, RateLimitRule, Reason, store_unavailable, exceeded,
}
use structure.EventSourcing.Event.{Json}

pub record Response : Type 0 where
  pub status : ℕ
  pub headers : Dict String String
  pub body : Json

-- The port: each call may fail, which the error names by the store.
pub record RateLimitStore (W : Type 0) : Type 0 where
  pub consume : String → RateLimitRule → W → Result String RateLimitDecision × W
  pub peek : String → RateLimitRule → W → Result String RateLimitDecision × W

pub data OnStoreError : Type 0 where
  allow : OnStoreError
  deny_all : OnStoreError

pub record Outcome : Type 0 where
  pub decision : RateLimitDecision
  pub counted : Bool

abbrev ceil_seconds : ℕ → ℕ
ceil_seconds millis = (millis + 999) / 1000

unfoldable pub seconds : ℕ → String
seconds millis = decimal (ceil_seconds millis)

unfoldable pub quota_headers : RateLimitDecision → List (String × String)
quota_headers decision =
    let limit = decimal decision.limit in
    let remaining = decimal decision.remaining in
    let reset = seconds decision.reset_millis in
    ("ratelimit-limit", limit)
    ∷ ("ratelimit-remaining", remaining)
    ∷ ("ratelimit-reset", reset)
    ∷ ("x-ratelimit-limit", limit)
    ∷ ("x-ratelimit-remaining", remaining)
    ∷ ("x-ratelimit-reset", reset)
    ∷ []

unfoldable pub set_headers : List (String × String) → Dict String String → Dict String String
set_headers [] headers = headers
set_headers ((name, value) ∷ more) headers = set_headers more (insert name value headers)

unfoldable pub stamp : Response → Outcome → Response
stamp response outcome =
    if outcome.counted
    then record response { headers = set_headers (quota_headers outcome.decision) response.headers }
    else response

abbrev pub is_unavailable : Option Reason → Bool
is_unavailable none = false
is_unavailable (some exceeded) = false
is_unavailable (some store_unavailable) = true

-- One turn of the loop of `combine`, with its variables in one decision.
abbrev pub combine_step : RateLimitDecision → RateLimitDecision → RateLimitDecision
combine_step acc decision = record {
  allowed = acc.allowed && decision.allowed;
  retry_after_millis = max acc.retry_after_millis decision.retry_after_millis;
  limit = acc.limit;
  remaining = min acc.remaining decision.remaining;
  reset_millis = max acc.reset_millis decision.reset_millis;
  reason =
      if is_unavailable decision.reason
      then some store_unavailable
      else if not decision.allowed && is_none acc.reason
      then some exceeded
      else acc.reason;
}

unfoldable pub combine_each : RateLimitDecision → List RateLimitDecision → RateLimitDecision
combine_each acc [] = acc
combine_each acc (decision ∷ decisions) = combine_each (combine_step acc decision) decisions

abbrev pub nothing_charged : RateLimitRule → RateLimitDecision
nothing_charged rule = record {
  allowed = true;
  retry_after_millis = 0;
  limit = rule.points;
  remaining = rule.points;
  reset_millis = 0;
  reason = none;
}

unfoldable pub combine : RateLimitRule → List RateLimitDecision → RateLimitDecision
combine rule decisions = combine_each (nothing_charged rule) decisions

-- The answer for a key whose store call failed.
unfoldable pub fallback : OnStoreError → RateLimitRule → RateLimitDecision
fallback allow rule = nothing_charged rule
fallback deny_all rule = record {
  allowed = false;
  retry_after_millis = 1000;
  limit = rule.points;
  remaining = 0;
  reset_millis = 1000;
  reason = some store_unavailable;
}

abbrev pub absorb : OnStoreError → RateLimitRule → Result String RateLimitDecision → Outcome
absorb mode rule (ok decision) = record { decision = decision; counted = true }
absorb mode rule (err store) = record { decision = fallback mode rule; counted = false }

-- One store call per key, in order.
unfoldable pub outcomes_of :
    {W : Type 0}
    → OnStoreError
    → RateLimitRule
    → (String → RateLimitRule → W → Result String RateLimitDecision × W)
    → List String
    → W
    → List Outcome × W
outcomes_of mode rule call [] w = ([], w)
outcomes_of mode rule call (key ∷ keys) w =
    let (answer, w1) = call key rule w in
    let (rest, w2) = outcomes_of mode rule call keys w1 in (absorb mode rule answer ∷ rest, w2)

unfoldable pub for_keys :
    {W : Type 0}
    → OnStoreError
    → RateLimitRule
    → (String → RateLimitRule → W → Result String RateLimitDecision × W)
    → List String
    → W
    → Outcome × W
for_keys mode rule call keys w =
    let (outcomes, after) = outcomes_of mode rule call keys w in
    (
      record {
        decision = combine rule (map (λ o. o.decision) outcomes);
        counted = every (λ o. o.counted) outcomes;
      },
      after,
    )
