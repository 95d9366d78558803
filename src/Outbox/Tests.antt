-- ===== src/Outbox/Tests.antt =====
-- Runs of the outbox, and instances of its theorems at concrete inputs.
-- Opens what the runs below compute.
use structure.Prelude.{
  ℕ, length, lookup, some_of, ◌≡◌, ◌∷◌, ◌<◌, [], some, arith, true, ◌+◌, decimal, none, false, ◌≢◌,
  insert, text_equality, delete, ap, ◌∙◌, refl, same_apart, Option, if◌then◌else◌, Result, ok, ltb,
  String, ◌-◌, err,
}
use structure.Outbox.Store.{
  enqueue_each, OutboxMessage, OutboxState, claim, mark_published, OutboxEntry, ClaimState,
  claim_each, enqueue, no_messages, mem_token, deliverable, pending, staged, owns, publish_each,
  mark_failed, mark_dead, update, replay,
}
use structure.Outbox.Reach.{
  Reach, reachable-IsConsistent, next, here, claim_step, message_kept, enqueue_step,
}
use structure.Outbox.Invariant.{IsConsistent}
use structure.Outbox.Fence.{IsFenced, lost_claim-IsFenced}
use structure.EventSourcing.Event.{null}
use structure.Outbox.Claiming.{names, claim-eq-pending}
use structure.Outbox.Exclusive.{claim_exclusive, claim_other, also, alone}
use structure.Outbox.Relay.{Relay, publish_entry}
use structure.Outbox.Delivery.{IsHeld, IsSettled, answered, publish_entry-settles}
use structure.Outbox.Inbox.{InboxWorld, dedupe, mark_processed, seen, inbox_key}
use structure.Outbox.Once.{dedupe_once}

run : Unit {0}
unfolding enqueue_each claim_each claim mem_token deliverable decimal lookup insert delete
    mark_published publish_each mark_failed mark_dead update replay
run = tt

abbrev message : OutboxMessage
message = record { id = "m"; topic = "orders"; payload = null; metadata = []; available_at = none }

abbrev staged_one : OutboxState
staged_one = enqueue (message ∷ []) no_messages

abbrev claimed_one : OutboxState
claimed_one = (claim 10 30 100 staged_one).1

-- The lease of the first claim has run out.
abbrev claimed_again : OutboxState
claimed_again = (claim 10 30 200 claimed_one).1

first_token : (claim 10 30 100 staged_one).0.token ≡ "mem-0"
unfolding run
first_token = refl

delivered_once : length (claim 10 30 110 claimed_one).0.entries ≡ 0
unfolding run
delivered_once = refl

delivered_again : length (claim 10 30 200 claimed_one).0.entries ≡ 1
unfolding run
delivered_again = refl

late_settlement : (mark_published ("m" ∷ []) (some "mem-0") claimed_again).0 ≡ false
unfolding run
late_settlement = refl

staged-Reach : Reach no_messages staged_one
staged-Reach = next here (enqueue_step no_messages (message ∷ []))

claimed-Reach : Reach no_messages claimed_one
claimed-Reach = next staged-Reach (claim_step staged_one 10 30 100)

again-Reach : Reach no_messages claimed_again
again-Reach = next claimed-Reach (claim_step claimed_one 10 30 200)

reachable-IsConsistent_example : IsConsistent claimed_again
reachable-IsConsistent_example = reachable-IsConsistent again-Reach

staged-IsConsistent : IsConsistent staged_one
staged-IsConsistent = reachable-IsConsistent staged-Reach

again-IsConsistent : IsConsistent claimed_again
again-IsConsistent = reachable-IsConsistent again-Reach

message_staged : lookup "m" staged_one.entries ≡ some (staged message)
unfolding run
message_staged = refl

message_kept_example :
    (now : OutboxEntry) × ((lookup "m" claimed_one.entries ≡ some now) × (now.message ≡ message))
message_kept_example =
    message_kept "m" (staged message) staged-IsConsistent
      (next here (claim_step staged_one 10 30 100)) message_staged

issued : 0 < claimed_again.next_token
unfolding run
issued = omega arith

second_token : (c : ClaimState) → lookup "m" claimed_again.claims ≡ some c → c.token ≢ mem_token 0
unfolding run
second_token c e same =
    same_apart text_equality "mem-1" "mem-0" refl
      (ap (λ o. elim o [ none ↦ "mem-1" | some d ↦ d.token ]) e ∙ same)

lost_claim-IsFenced_example : IsFenced "m" (mem_token 0) claimed_again
lost_claim-IsFenced_example = lost_claim-IsFenced "m" 0 again-IsConsistent issued second_token here

handed_out : some_of (names "m") (claim 10 30 100 staged_one).0.entries ≡ true
unfolding run
handed_out = refl

claim_exclusive_example :
    ((most at : ℕ)
      → at < 100 + 30
      → some_of (names "m") (pending most at (claim 5 30 110 claimed_one).1) ≡ false)
    × (owns (claim 5 30 110 claimed_one).1 "m" (some (claim 10 30 100 staged_one).0.token) ≡ true)
claim_exclusive_example =
    claim_exclusive 10 30 100 staged_one "m" staged-IsConsistent handed_out
      (also alone (claim_other claimed_one 5 30 110 (omega arith)))

claim-eq-pending_example : (claim 10 30 100 staged_one).0.entries ≡ pending 10 100 staged_one
claim-eq-pending_example = claim-eq-pending 10 30 100 staged_one

-- A relay whose transport answers at its third attempt, while nobody else acts.
abbrev relay : Relay
relay = record {
  max_attempts = 5;
  backoff_base = 100;
  publish = λ attempts. if ltb attempts 2 then some "down" else none;
  clock = λ attempts. 100;
  factor = λ attempts. (1, 1);
  others = λ attempts s. s;
}

claimed-IsHeld : IsHeld "m" "mem-0" claimed_one
unfolding run
claimed-IsHeld = record { entry = staged message; known = refl; owned = refl }

publish_entry-settles_example :
    ((publish_entry relay (staged message) "mem-0" claimed_one).0 ≡ true)
    × IsSettled "m"
        (answered relay 0 (5 - 0))
        5
        (publish_entry relay (staged message) "mem-0" claimed_one).1
publish_entry-settles_example =
    publish_entry-settles relay (staged message) "mem-0" claimed_one (λ n t h. h) (omega arith)
      claimed-IsHeld

-- An effect that counts its runs.
abbrev count : InboxWorld ℕ → Result String ℕ × InboxWorld ℕ
count w = (ok w.1, (w.0, w.1 + 1))

dedupe_once_example :
    ((result : Option ℕ)
      → (dedupe "c" "m" count ([], 0)).0 ≡ ok result
      → dedupe "c" "m" count (dedupe "c" "m" count ([], 0)).1
        ≡ (ok none, (dedupe "c" "m" count ([], 0)).1))
    × ((e : String)
        → (dedupe "c" "m" count ([], 0)).0 ≡ err e
        → (dedupe "c" "m" count ([], 0)).1 ≡ (count ([], 0)).1)
dedupe_once_example = dedupe_once "c" "m" count count ([], 0)

counted_once : (dedupe "c" "m" count (dedupe "c" "m" count ([], 0)).1).1.1 ≡ 1
unfolding run dedupe mark_processed seen inbox_key
counted_once = refl
