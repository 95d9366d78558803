-- ===== src/RateLimit/Service.antt =====
-- About what a request gets from the middleware.
use structure.RateLimit.Outcome.{
  Response, Outcome, allow, stamp, set_headers, quota_headers, seconds, outcomes_of, for_keys,
  OnStoreError,
}
use structure.Prelude.{
  Result, Option, String, List, ◌≡◌, ◌⊎◌, or_else, true, none, some, [], Bool-cases, inl, inr,
  arith, text_equality, refl, false, ok, Bool, Option-cases, lookup, insert, decimal, ◌≤◌, ℕ, ◌+◌,
  ◌/◌, ◌∙◌, if◌then◌else◌, ◌∷◌,
}
use structure.RateLimit.Middleware.{
  RateLimitOptions, RateLimitGroup, serve, deny, charge_after, rendered, retry_after_seconds, check,
  after_check, charging,
}
use structure.RateLimit.Memory.{RateLimitRule, RateLimitDecision}
use structure.RateLimit.Decisions.{IsSensible}
use structure.RateLimit.Combined.{IsLawful, for_keys-IsSensible}

outcomes_of-same :
    {W : Type 0} (mode : OnStoreError) (rule : RateLimitRule)
    (call : String → RateLimitRule → W → Result String RateLimitDecision × W)
    → ((key : String) (u : W) → (call key rule u).1 ≡ u)
    → (keys : List String) (w : W) → (outcomes_of mode rule call keys w).1 ≡ w
unfolding outcomes_of
outcomes_of-same mode rule call looks [] w = refl
outcomes_of-same mode rule call looks (key ∷ keys) w =
    outcomes_of-same mode rule call looks keys (call key rule w).1 ∙ looks key w

-- Store calls that only look leave the world as it is.
for_keys-same :
    {W : Type 0} (mode : OnStoreError) (rule : RateLimitRule)
    (call : String → RateLimitRule → W → Result String RateLimitDecision × W)
    → ((key : String) (u : W) → (call key rule u).1 ≡ u)
    → (keys : List String) (w : W) → (for_keys mode rule call keys w).1 ≡ w
unfolding for_keys
for_keys-same mode rule call looks keys w = outcomes_of-same mode rule call looks keys w

-- What a look at the keys of a request answers.
abbrev pub looked_at :
    {W : Type 0} → RateLimitOptions W → RateLimitGroup → List String → W → Outcome × W
looked_at options group keys w =
    for_keys (or_else options.on_store_error allow) group.rule options.store.peek keys w

module _ {W E : Type 0} (default_error_response : E → Response) (app : W → Result E Response × W)
    (options : RateLimitOptions W) (correlation_id : Option String) where
  -- A refused request never reaches the handler: the answer is the denial, and all that changes is
  -- what the check of the store changed.
  refused :
      (group : RateLimitGroup) (keys : List String) (w : W)
      → (check options group keys w).0.decision.allowed ≡ false
      → serve default_error_response app options correlation_id group keys w ≡ record {
        answer = ok (deny correlation_id (check options group keys w).0);
        stamped = none;
        world = (check options group keys w).1;
      }
  unfolding serve
  refused group keys w unmet = rw unmet refl

  -- Behind a wall (`consumeWhen`), over a store whose look leaves the world as it is, a request that
  -- the look at its keys lets through gets the handler's answer, and is charged exactly when the
  -- predicate holds of the response, or of the rendering of a failure: the keys are charged after the
  -- handler, in the world it left, and the charge's outcome is stamped. Otherwise the world is the
  -- one that the handler leaves when it is all that runs, and the outcome of the look is stamped.
  pub charged_by_answer :
      (group : RateLimitGroup) (keys : List String) (w : W) (p : Response → Bool)
      → group.consume_when ≡ some p
      → ((key : String) (u : W) → (options.store.peek key group.rule u).1 ≡ u)
      → (looked_at options group keys w).0.decision.allowed ≡ true
      → serve default_error_response app options correlation_id group keys w ≡ (
          let (answer, after) = app w in
          let charged =
            for_keys
              (or_else options.on_store_error allow)
              group.rule
              options.store.consume
              keys
              after in
          let due = p (rendered default_error_response app answer) in
          record {
            answer = answer;
            stamped = some (if due then charged.0 else (looked_at options group keys w).0);
            world = if due then charged.1 else after;
          })
  unfolding serve check charge_after after_check
  charged_by_answer group keys w p walled looks met =
      rw (walled, met, leaves) (by_due (p (rendered default_error_response app (app w).0)) refl)
    where
      leaves : (looked_at options group keys w).1 ≡ w
      leaves =
          for_keys-same (or_else options.on_store_error allow) group.rule options.store.peek looks
            keys w

      by_due :
          (b : Bool)
          → p (rendered default_error_response app (app w).0) ≡ b
          → after_check default_error_response app
              (charging options group keys)
              (some p)
              (looked_at options group keys w).0
              w
            ≡ record {
              answer = (app w).0;
              stamped = some (
                  if b
                  then (charging options group keys (app w).1).0
                  else (looked_at options group keys w).0);
              world = if b then (charging options group keys (app w).1).1 else (app w).1;
            }
      by_due true e = rw e refl
      by_due false e = rw e refl

abbrev pub IsDenial : Response → Type 0
IsDenial response =
    (response.status ≡ 429)
    × ((n : ℕ) × ((lookup "retry-after" response.headers ≡ some (decimal n))
          × ((1 ≤ n)
              × ((lookup "ratelimit-reset" response.headers ≡ none)
                  ⊎ ((m : ℕ) × ((lookup "ratelimit-reset" response.headers ≡ some (decimal m))
                        × (n ≤ m)))))))

check-IsSensible :
    {W : Type 0} (options : RateLimitOptions W) (group : RateLimitGroup) (keys : List String)
    (w : W)
    → IsLawful options.store
    → IsSensible group.rule (check options group keys w).0.decision
unfolding check
check-IsSensible options group keys w lawful = elim (Option-cases group.consume_when) [
  | inl always ↦ rw always (
      for_keys-IsSensible group.rule (or_else options.on_store_error allow) options.store.consume
        (λ key u d e. lawful.consumes key group.rule u d e) keys w)
  | inr (p, walled) ↦ rw walled (
      for_keys-IsSensible group.rule (or_else options.on_store_error allow) options.store.peek
        (λ key u d e. lawful.peeks key group.rule u d e) keys w)
]

deny-IsDenial :
    (correlation_id : Option String) (rule : RateLimitRule) (o : Outcome)
    → IsSensible rule o.decision
    → o.decision.allowed ≡ false
    → IsDenial (deny correlation_id o)
unfolding deny stamp set_headers quota_headers seconds lookup insert
deny-IsDenial correlation_id rule o h unmet = elim (Bool-cases o.counted) [
  | inr un ↦ rw un (refl, (retry_after_seconds o, (refl, (omega arith, inl refl))))
  | inl counted ↦ rw counted (
    refl,
    (
      retry_after_seconds o,
      (
        refl,
        (
          omega arith,
          inr ((o.decision.reset_millis + 999) / 1000, (refl, omega (arith, h.wait unmet))),
        ),
      ),
    ),
  )
]

-- With a store whose answers are sensible, a request that the store refuses never reaches the
-- handler: all that changes is what the check of the store changed, and the answer has status 429 and
-- asks to wait at least one second, a wait that no `ratelimit-reset` stamped on it falls short of.
pub refused-IsDenial :
    {W E : Type 0} (default_error_response : E → Response) (app : W → Result E Response × W)
    (options : RateLimitOptions W) (correlation_id : Option String) (group : RateLimitGroup)
    (keys : List String) (w : W)
    → IsLawful options.store
    → (check options group keys w).0.decision.allowed ≡ false
    → (response : Response) × ((serve default_error_response app options correlation_id group keys w
          ≡ record { answer = ok response; stamped = none; world = (check options group keys w).1 })
        × IsDenial response)
refused-IsDenial default_error_response app options correlation_id group keys w lawful unmet = (
  deny correlation_id (check options group keys w).0,
  (
    refused default_error_response app options correlation_id group keys w unmet,
    deny-IsDenial correlation_id group.rule (check options group keys w).0
        (check-IsSensible options group keys w lawful) unmet,
  ),
)
