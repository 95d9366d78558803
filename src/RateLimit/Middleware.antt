-- ===== src/RateLimit/Middleware.antt =====
-- The middleware `rateLimit` of packages/http/src/rateLimit.ts. The log lines and the metrics are
-- left out; the correlation id is an argument.
use structure.Prelude.{
  String, List, Bool, Option, Result, ◌∷◌, includes, ℕ, if◌then◌else◌, none, ok, or_else, [], some,
  max, decimal, err, ◌==◌, text_equality, ◌+◌, append_text, ◌||◌, ◌/◌, is_none, map, not, leb,
  length, until_char,
}
use structure.RateLimit.Outcome.{
  RateLimitStore, Outcome, Response, OnStoreError, stamp, is_unavailable, allow, for_keys,
}
use structure.RateLimit.Memory.{RateLimitRule}
use structure.EventSourcing.Event.{Members, end, member, object, text}

pub record Request : Type 0 where
  pub method : String
  pub url : String

pub record RateLimitGroup : Type 0 where
  pub label : String
  pub rule : RateLimitRule
  pub matches : Request → Bool
  pub keys : Request → List (Option String)
  pub consume_when : Option (Response → Bool)

pub record RateLimitOptions (W : Type 0) : Type 0 where
  pub store : RateLimitStore W
  pub groups : List RateLimitGroup
  pub on_store_error : Option OnStoreError

abbrev pub probe_paths : List String
probe_paths = "/health/live" ∷ "/health/ready" ∷ []

unfoldable pub is_probe : Request → Bool
is_probe request = includes (until_char 0x3f request.url) probe_paths

unfoldable pub present : List (Option String) → List String
present [] = []
present (none ∷ keys) = present keys
present (some key ∷ keys) = key ∷ present keys

abbrev pub keys_of : RateLimitGroup → Request → List String
keys_of group request = present (group.keys request)

abbrev pub retry_after_seconds : Outcome → ℕ
retry_after_seconds outcome = max 1 ((outcome.decision.retry_after_millis + 999) / 1000)

abbrev correlated : Option String → Members
correlated none = end
correlated (some id) = member "correlationId" (text id) end

abbrev deny_message : Outcome → String
deny_message outcome =
    if is_unavailable outcome.decision.reason
    then "rate limit temporarily unavailable"
    else append_text "rate limit exceeded, retry after "
        (append_text (decimal (retry_after_seconds outcome)) "s")

unfoldable pub deny : Option String → Outcome → Response
deny correlation_id outcome =
    stamp
      (record {
        status = 429;
        headers =
            ("retry-after", decimal (retry_after_seconds outcome))
            ∷ ("cache-control", "no-store")
            ∷ [];
        body = object (
            member "error" (text "TooManyRequests")
              (member "message" (text (deny_message outcome)) (correlated correlation_id)));
      })
      outcome

unfoldable pub find_group : Request → List RateLimitGroup → Option RateLimitGroup
find_group request [] = none
find_group request (group ∷ groups) =
    if group.matches request then some group else find_group request groups

-- What a request got: its answer, the outcome that is stamped on the response before it is sent, and
-- the world after it. A failed answer is rendered, and stamped, further out.
pub record Served (W E : Type 0) : Type 0 where
  pub answer : Result E Response
  pub stamped : Option Outcome
  pub world : W

-- `consume`: every key of the request is charged.
abbrev pub charging :
    {W : Type 0} → RateLimitOptions W → RateLimitGroup → List String → W → Outcome × W
charging options group keys w =
    for_keys (or_else options.on_store_error allow) group.rule options.store.consume keys w

-- Before the handler: the keys are charged, or only looked at where the group has a `consumeWhen`.
unfoldable pub check :
    {W : Type 0} → RateLimitOptions W → RateLimitGroup → List String → W → Outcome × W
check options group keys w =
    if is_none group.consume_when
    then charging options group keys w
    else for_keys (or_else options.on_store_error allow) group.rule options.store.peek keys w

-- The part of a group's service that runs the handler.
module _ {W E : Type 0} (default_error_response : E → Response)
    (app : W → Result E Response × W) where
  abbrev pub pass : W → Served W E
  pass w = record { answer = (app w).0; stamped = none; world = (app w).1 }

  abbrev pub rendered : Result E Response → Response
  rendered (ok response) = response
  rendered (err e) = default_error_response e

  -- `charge`, after the handler: the outcome is replaced only when the predicate holds.
  unfoldable pub charge_after :
      (W → Outcome × W) → (Response → Bool) → Outcome → Result E Response × W → Served W E
  charge_after consume consume_when outcome (answer, w) =
      let (charged, after) = consume w in
      if consume_when (rendered answer)
      then record { answer = answer; stamped = some charged; world = after }
      else record { answer = answer; stamped = some outcome; world = w }

  -- The handler of an admitted request.
  unfoldable pub after_check :
      (W → Outcome × W) → Option (Response → Bool) → Outcome → W → Served W E
  after_check consume none outcome w = record {
    answer = (app w).0;
    stamped = some outcome;
    world = (app w).1;
  }
  after_check consume (some consume_when) outcome w =
      charge_after consume consume_when outcome (app w)

  unfoldable pub serve :
      RateLimitOptions W → Option String → RateLimitGroup → List String → W → Served W E
  serve options correlation_id group keys w =
      let (outcome, after) = check options group keys w in
      if not outcome.decision.allowed
      then record { answer = ok (deny correlation_id outcome); stamped = none; world = after }
      else after_check (charging options group keys) group.consume_when outcome after

  unfoldable pub rate_limit : RateLimitOptions W → Option String → Request → W → Served W E
  rate_limit options correlation_id request w =
      if request.method == "OPTIONS" || is_probe request
      then pass w
      else elim (find_group request options.groups) [
        | none ↦ pass w
        | some group ↦
            let keys =
              map (λ key. append_text group.label (append_text ":" key)) (keys_of group request) in
            if leb (length keys) 0 then pass w else serve options correlation_id group keys w
      ]
