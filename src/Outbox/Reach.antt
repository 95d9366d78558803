-- ===== src/Outbox/Reach.antt =====
-- The outbox over time: any sequence of its operations, by any number of relays.
use structure.Outbox.Store.{
  OutboxState, no_messages, OutboxMessage, OutboxEntry, enqueue, claim, mark_published, mark_failed,
  mark_dead, replay,
}
use structure.Prelude.{IsMap, List, String, lookup, ◌≡◌, ℕ, some, Option, text_equality}
use structure.Outbox.Invariant.{IsConsistent, Keyed}
use structure.Outbox.Follows.{IsSound, Follows_refl, Follows_trans}
use structure.Outbox.Steps.{
  enqueue-IsSound, claim-IsSound, mark_published-IsSound, mark_failed-IsSound, mark_dead-IsSound,
  replay-IsSound,
}

pub data Step : OutboxState → OutboxState → Type 0 where
  enqueue_step : (s : OutboxState) (messages : List OutboxMessage) → Step s (enqueue messages s)
  claim_step : (s : OutboxState) (limit lease now : ℕ) → Step s (claim limit lease now s).1
  publish_step :
      (s : OutboxState) (ids : List String) (token : Option String)
      → Step s (mark_published ids token s).1
  fail_step :
      (s : OutboxState) (id error : String) (attempts : ℕ) (retry_at : Option ℕ)
      (token : Option String)
      → Step s (mark_failed id error attempts retry_at token s).1
  dead_step :
      (s : OutboxState) (id error : String) (token : Option String)
      → Step s (mark_dead id error token s).1
  replay_step : (s : OutboxState) (ids : List String) → Step s (replay ids s)

pub data Reach (s : OutboxState) : OutboxState → Type 0 where
  here : Reach s s
  next : {t u : OutboxState} → Reach s t → Step t u → Reach s u

pub Step-IsSound : {s t : OutboxState} → Step s t → IsConsistent s → IsSound s t
Step-IsSound (enqueue_step s messages) c = enqueue-IsSound messages s c
Step-IsSound (claim_step s limit lease now) c = claim-IsSound limit lease now s c
Step-IsSound (publish_step s ids token) c = mark_published-IsSound ids token s c
Step-IsSound (fail_step s id error attempts retry_at token) c =
    mark_failed-IsSound id error attempts retry_at token s c
Step-IsSound (dead_step s id error token) c = mark_dead-IsSound id error token s c
Step-IsSound (replay_step s ids) c = replay-IsSound ids s c

pub Reach-IsSound : {s t : OutboxState} → Reach s t → IsConsistent s → IsSound s t
Reach-IsSound {s} here c = record { consistent = c; follows = Follows_refl s }
Reach-IsSound (next r step) c =
    let before = Reach-IsSound r c in
    let after = Step-IsSound step before.consistent in
    record { consistent = after.consistent; follows = Follows_trans before.follows after.follows }

pub no_messages-IsConsistent : IsConsistent no_messages
unfolding IsMap Keyed lookup
no_messages-IsConsistent = record {
  distinct = tt;
  keyed = tt;
  live = λ id c e. absurd (cc);
  minted = λ id c e. absurd (cc);
}

-- From an empty outbox, whatever the operations: no two entries share an id, every entry stands
-- under its message's id, every live claim is of an entry that is there and pending, and bears a
-- token that a claim handed out.
pub reachable-IsConsistent : {t : OutboxState} → Reach no_messages t → IsConsistent t
reachable-IsConsistent r = (Reach-IsSound r no_messages-IsConsistent).consistent

-- In a consistent outbox a staged message is never lost and never altered: whatever operations
-- follow, there is an entry of its id with the same message.
pub message_kept :
    {s t : OutboxState} (id : String) (entry : OutboxEntry)
    → IsConsistent s
    → Reach s t
    → lookup id s.entries ≡ some entry
    → (now : OutboxEntry) × ((lookup id t.entries ≡ some now) × (now.message ≡ entry.message))
message_kept id entry c r e = (Reach-IsSound r c).follows.keeps id entry e
