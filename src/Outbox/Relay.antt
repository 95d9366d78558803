-- ===== src/Outbox/Relay.antt =====
-- `publishEntry` of packages/eventsourcing/src/Outbox.ts: the attempts at one claimed entry, while
-- other relays act on the outbox.
-- The surroundings of the attempts, each by the number of attempts before it: the transport's answer
-- (none, or the text of its failure), the clock when it fails, the random factor of the delay as a
-- fraction, and what the others do to the outbox before the attempt's settlement.
use structure.Prelude.{
  ℕ, Option, min, String, ◌*◌, ◌^◌, Bool, ◌-◌, false, if◌then◌else◌, ◌/◌, suc, leb, ◌+◌, or_else,
  none, some, ◌∷◌, [], not, zero,
}
use structure.Outbox.Store.{OutboxEntry, OutboxState, mark_dead, mark_published, mark_failed}

pub record Relay : Type 0 where
  pub max_attempts : ℕ
  pub backoff_base : ℕ
  pub publish : ℕ → Option String
  pub clock : ℕ → ℕ
  pub factor : ℕ → ℕ × ℕ
  pub others : ℕ → OutboxState → OutboxState

abbrev pub day_millis : ℕ
day_millis = 86400000

-- `backoffDelay`, in whole milliseconds
unfoldable pub backoff_delay : Relay → ℕ → ℕ
backoff_delay r attempt =
    min (r.backoff_base * 2 ^ (attempt - 1)) day_millis
    * (r.factor attempt).0
    / (r.factor attempt).1

-- The loop of `publishEntry`, after the given number of attempts.
unfoldable pub publish_loop : ℕ → Relay → String → String → ℕ → OutboxState → Bool × OutboxState
publish_loop zero r id token attempts s = (false, s)
publish_loop (suc fuel) r id token attempts s =
    let before = r.others attempts s in
    let now_made = attempts + 1 in
    let retry_at = r.clock attempts + backoff_delay r now_made in
    elim (r.publish attempts) [
      | none ↦ mark_published (id ∷ []) (some token) before
      | some error ↦
          let (held, failed) = mark_failed id error now_made (some retry_at) (some token) before in
          let again = publish_loop fuel r id token now_made failed in
          if leb r.max_attempts now_made
          then mark_dead id error (some token)
              (mark_failed id error now_made none (some token) before).1
          else if not held
          then (false, failed)
          else again
    ]

-- A loop makes at most the attempts that are left.
unfoldable pub publish_entry : Relay → OutboxEntry → String → OutboxState → Bool × OutboxState
publish_entry r entry token s =
    if leb r.max_attempts entry.attempts
    then mark_dead entry.message.id (or_else entry.last_error "exhausted attempts before this pass")
        (some token) s
    else publish_loop (r.max_attempts - entry.attempts) r entry.message.id token entry.attempts s
