-- ===== src/RateLimit/Tests.antt =====
-- Runs of the rate limiter, and instances of its theorems at concrete inputs.
-- Opens what the runs below compute.
use structure.Prelude.{
  String, ℕ, IsMap, List, ◌≡◌, lookup, true, Result, ◌∷◌, none, some, [], ok, false, nat_same, refl,
  text_equality, insert, delete, if◌then◌else◌, ◌+◌, ◌⊎◌,
}
use structure.RateLimit.Memory.{
  consume, RateLimitRule, MemoryOptions, MemoryStore, size, MemoryEntry, prepare, memory_options,
  empty_store, peek, sweep, stale, charge, window_of, in_window, remember, make_room, reset_of,
}
use structure.RateLimit.Decisions.{IsSensible, answers-IsSensible}
use structure.RateLimit.Bounded.{IsBounded, Charge, charge_all, size-IsBounded}
use structure.RateLimit.Middleware.{RateLimitGroup, RateLimitOptions, check, serve, rendered}
use structure.RateLimit.Combined.{MemoryWorld, memory_store, memory_store-IsLawful}
use structure.RateLimit.Service.{refused-IsDenial, charged_by_answer, IsDenial, looked_at}
use structure.RateLimit.Outcome.{Response, combine, combine_each, for_keys, outcomes_of, allow}
use structure.RateLimit.Agreement.{consume-eq-peek}
use structure.RateLimit.Blocks.{IsCharged, consume-IsCharged}
use structure.EventSourcing.Event.{null}

run : Unit {0}
unfolding consume prepare sweep stale charge window_of in_window remember make_room reset_of peek
    lookup insert delete combine combine_each for_keys outcomes_of memory_store check IsMap
run = tt

abbrev rule : RateLimitRule
rule = record { points = 1; window_millis = 1000; block_millis = 500 }

abbrev options : MemoryOptions
options = memory_options (some 2) none

abbrev charged_once : MemoryStore
charged_once = (consume options "k" rule 100 empty_store).1

abbrev charged_twice : MemoryStore
charged_twice = (consume options "k" rule 200 charged_once).1

admitted_first : (consume options "k" rule 100 empty_store).0.allowed ≡ true
unfolding run
admitted_first = refl

denied_second : (consume options "k" rule 200 charged_once).0.retry_after_millis ≡ 500
unfolding run
denied_second = refl

charged_once-IsMap : IsMap charged_once.entries
unfolding run
charged_once-IsMap = (refl, tt)

answers-IsSensible_example :
    IsSensible rule (consume options "k" rule 200 charged_once).0
    × IsSensible rule (peek "k" rule 200 charged_once)
answers-IsSensible_example = answers-IsSensible options "k" rule 200 charged_once

abbrev charge_of : String → Charge
charge_of key = record { key = key; rule = rule; timestamp = 100 }

size-IsBounded_example : IsBounded (memory_options (some 2) none) (
    charge_all
      (memory_options (some 2) none)
      (charge_of "a" ∷ charge_of "b" ∷ charge_of "c" ∷ [])
      empty_store)
size-IsBounded_example =
    size-IsBounded (some 2) none (charge_of "a" ∷ charge_of "b" ∷ charge_of "c" ∷ [])

three_keys :
    size (charge_all options (charge_of "a" ∷ charge_of "b" ∷ charge_of "c" ∷ []) empty_store) ≡ 2
unfolding run
three_keys = refl

consume-eq-peek_example :
    ((consume options "k" rule 1100 charged_once).0.limit ≡ (peek "k" rule 1100 charged_once).limit)
    × ((((peek "k" rule 1100 charged_once).allowed ≡ true)
          × (((consume options "k" rule 1100 charged_once).0.allowed ≡ true)
              × (((consume options "k" rule 1100 charged_once).0.remaining + 1
                    ≡ (peek "k" rule 1100 charged_once).remaining)
                  × (((consume options "k" rule 1100 charged_once).0.retry_after_millis ≡ 0)
                      × ((peek "k" rule 1100 charged_once).retry_after_millis ≡ 0)))))
        ⊎ (((peek "k" rule 1100 charged_once).allowed ≡ false)
            × (((consume options "k" rule 1100 charged_once).0.allowed ≡ false)
                × (((consume options "k" rule 1100 charged_once).0.remaining ≡ 0)
                    × ((peek "k" rule 1100 charged_once).remaining ≡ 0)))))
consume-eq-peek_example = consume-eq-peek options "k" rule 1100 charged_once charged_once-IsMap

consume-IsCharged_example :
    (after : MemoryEntry) × ((lookup "k" charged_twice.entries ≡ some after)
      × IsCharged rule 200
          (window_of "k" rule 200 charged_once.entries)
          (consume options "k" rule 200 charged_once).0.allowed
          after)
consume-IsCharged_example = consume-IsCharged options "k" rule 200 charged_once charged_once-IsMap

-- A group that charges its key once the handler has refused, over the in-memory store.
abbrev group : RateLimitGroup
group = record {
  label = "login";
  rule = rule;
  matches = λ request. true;
  keys = λ request. some "k" ∷ [];
  consume_when = some (λ response. nat_same response.status 401);
}

abbrev limits : RateLimitOptions MemoryWorld
limits = record { store = memory_store options; groups = group ∷ []; on_store_error = none }

abbrev response : ℕ → Response
response status = record { status = status; headers = []; body = null }

abbrev handler : MemoryWorld → Result String Response × MemoryWorld
handler w = (ok (response 401), w)

abbrev render : String → Response
render e = response 500

abbrev fresh : MemoryWorld
fresh = record { memory = empty_store; clock = 100 }

abbrev spent : MemoryWorld
spent = record { memory = charged_once; clock = 200 }

abbrev keys : List String
keys = "k" ∷ []

turned_away : (check limits group keys spent).0.decision.allowed ≡ false
unfolding run
turned_away = refl

let_in : (looked_at limits group keys fresh).0.decision.allowed ≡ true
unfolding run
let_in = refl

only_looks : (key : String) (u : MemoryWorld) → (limits.store.peek key rule u).1 ≡ u
unfolding run
only_looks key u = refl

refused-IsDenial_example :
    (answer : Response) × ((serve render handler limits none group keys spent
        ≡ record { answer = ok answer; stamped = none; world = (check limits group keys spent).1 })
      × IsDenial answer)
refused-IsDenial_example =
    refused-IsDenial render handler limits none group keys spent (memory_store-IsLawful options)
      turned_away

charged_by_answer_example : serve render handler limits none group keys fresh ≡ (
    let (answer, after) = handler fresh in
    let charged = for_keys allow rule limits.store.consume keys after in
    let is_due = nat_same (rendered render handler answer).status 401 in
    record {
      answer = answer;
      stamped = some (if is_due then charged.0 else (looked_at limits group keys fresh).0);
      world = if is_due then charged.1 else after;
    })
charged_by_answer_example =
    charged_by_answer render handler limits none group keys fresh
      (λ response. nat_same response.status 401) refl only_looks let_in
