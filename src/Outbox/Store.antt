-- ===== src/Outbox/Store.antt =====
-- InMemoryOutbox of packages/eventsourcing/src/memory.ts, and the records of
-- packages/eventsourcing/src/Outbox.ts. The clock's reading is an argument, in milliseconds.
use structure.Prelude.{
  ℕ, String, Bool, Option, List, Dict, true, false, none, some, [], leb, lookup, if◌then◌else◌, ◌∷◌,
  map, ◌&&◌, take, append_text, ◌+◌, insert, filter, has, ◌==◌, length, decimal, ltb, text_equality,
  delete, ◌++◌,
}
use structure.EventSourcing.Event.{Json}

pub record OutboxMessage : Type 0 where
  pub id : String
  pub topic : String
  pub payload : Json
  pub metadata : Dict String Json
  pub available_at : Option ℕ

pub data OutboxStatus : Type 0 where
  pending_status : OutboxStatus
  published : OutboxStatus
  dead : OutboxStatus

pub record OutboxEntry : Type 0 where
  pub message : OutboxMessage
  pub status : OutboxStatus
  pub attempts : ℕ
  pub last_error : Option String
  pub available_at : Option ℕ

pub record OutboxClaim : Type 0 where
  pub entries : List OutboxEntry
  pub token : String
  pub lease_until : ℕ

pub record ClaimState : Type 0 where
  pub token : String
  pub lease_until : ℕ

pub record OutboxState : Type 0 where
  pub entries : Dict String OutboxEntry
  pub claims : Dict String ClaimState
  pub next_token : ℕ

abbrev pub no_messages : OutboxState
no_messages = record { entries = []; claims = []; next_token = 0 }

abbrev pub is_pending : OutboxStatus → Bool
is_pending pending_status = true
is_pending published = false
is_pending dead = false

abbrev pub is_dead : OutboxStatus → Bool
is_dead pending_status = false
is_dead published = false
is_dead dead = true

abbrev pub due : OutboxEntry → ℕ → Bool
due entry now = elim entry.available_at [ none ↦ true | some at ↦ leb at now ]

abbrev pub lease_lapsed : OutboxState → String → ℕ → Bool
lease_lapsed s id now = elim (lookup id s.claims) [ none ↦ true | some c ↦ leb c.lease_until now ]

abbrev pub without_claim : Dict String ClaimState → String → Dict String ClaimState
without_claim claims id = if has id claims then delete id claims else claims

abbrev pub owns : OutboxState → String → Option String → Bool
owns s id none = true
owns s id (some token) = elim (lookup id s.claims) [
  | none ↦ false
  | some held ↦ held.token == token
]

abbrev pub staged : OutboxMessage → OutboxEntry
staged message = record {
  message = message;
  status = pending_status;
  attempts = 0;
  last_error = none;
  available_at = message.available_at;
}

unfoldable pub enqueue_each : List OutboxMessage → Dict String OutboxEntry → Dict String OutboxEntry
enqueue_each [] next = next
enqueue_each (message ∷ messages) next =
    enqueue_each messages
      (if has message.id next then next else insert message.id (staged message) next)

abbrev pub enqueue : List OutboxMessage → OutboxState → OutboxState
enqueue messages s = record s { entries = enqueue_each messages s.entries }

abbrev pub values {ℓ} : {V : Type ℓ} → Dict String V → List V
values m = map (λ e. e.1) m

-- Whether `pending` and `claim` may hand the entry out.
unfoldable pub deliverable : OutboxState → ℕ → OutboxEntry → Bool
deliverable s now entry =
    is_pending entry.status && (due entry now && lease_lapsed s entry.message.id now)

abbrev pub pending : ℕ → ℕ → OutboxState → List OutboxEntry
pending limit now s = take limit (filter (deliverable s now) (values s.entries))

-- The loop of `claim` over the entries that are left, with `claimed` and `claims`.
unfoldable pub claim_each :
    OutboxState
    → ℕ
    → ℕ
    → ClaimState
    → List OutboxEntry
    → List OutboxEntry
    → Dict String ClaimState
    → List OutboxEntry × Dict String ClaimState
claim_each s now limit owner [] claimed claims = (claimed, claims)
claim_each s now limit owner (entry ∷ entries) claimed claims =
    let taken =
      claim_each s now limit owner entries (claimed ++ entry ∷ [])
        (insert entry.message.id owner claims) in
    let skipped = claim_each s now limit owner entries claimed claims in
    if leb limit (length claimed)
    then (claimed, claims)
    else if deliverable s now entry
    then taken
    else skipped

unfoldable pub mem_token : ℕ → String
mem_token n = append_text "mem-" (decimal n)

unfoldable pub claim : ℕ → ℕ → ℕ → OutboxState → OutboxClaim × OutboxState
claim limit lease now s =
    let lease_until = now + lease in
    let token = mem_token s.next_token in
    let (claimed, claims) =
      claim_each s now limit (record { token = token; lease_until = lease_until })
        (values s.entries) [] s.claims in
    (
      record { entries = claimed; token = token; lease_until = lease_until },
      if ltb 0 (length claimed)
          then record s { claims = claims; next_token = s.next_token + 1 }
          else s,
    )

-- The loop of `markPublished`: it tests the state before the call, and writes `next`.
unfoldable pub publish_each :
    OutboxState → Option String → List String → Bool → OutboxState → Bool × OutboxState
publish_each s token [] applied next = (applied, next)
publish_each s token (id ∷ ids) applied next = elim (lookup id s.entries) [
  | none ↦ publish_each s token ids applied next
  | some entry ↦ elim (owns s id token) [
    | false ↦ publish_each s token ids applied next
    | true ↦ publish_each s token ids true (record next {
      entries = insert id (record entry { status = published }) next.entries;
      claims = without_claim next.claims id;
    })
  ]
]

unfoldable pub mark_published : List String → Option String → OutboxState → Bool × OutboxState
mark_published ids token s = publish_each s token ids false s

-- The settlements of one entry: nothing, unless the entry is known and owned.
abbrev settle_known :
    Option OutboxEntry → Bool → (OutboxEntry → OutboxState) → OutboxState → Bool × OutboxState
settle_known none owned f s = (false, s)
settle_known (some entry) owned f s = if owned then (true, f entry) else (false, s)

abbrev settle_entry :
    String → Option String → (OutboxEntry → OutboxState) → OutboxState → Bool × OutboxState
settle_entry id token f s = settle_known (lookup id s.entries) (owns s id token) f s

unfoldable pub mark_failed :
    String → String → ℕ → Option ℕ → Option String → OutboxState → Bool × OutboxState
mark_failed id error attempts retry_at token s =
    settle_entry id token
      (λ entry. record s {
        entries =
            insert id
              (record entry {
                attempts = attempts;
                last_error = some error;
                available_at = retry_at;
              })
              s.entries;
      })
      s

unfoldable pub mark_dead : String → String → Option String → OutboxState → Bool × OutboxState
mark_dead id error token s =
    settle_entry id token
      (λ entry. record s {
        entries = insert id (record entry { status = dead; last_error = some error }) s.entries;
        claims = without_claim s.claims id;
      })
      s

unfoldable pub update : String → (OutboxEntry → OutboxEntry) → OutboxState → OutboxState
update id patch s = elim (lookup id s.entries) [
  | none ↦ s
  | some entry ↦ record s {
    entries = insert id (patch entry) s.entries;
    claims = without_claim s.claims id;
  }
]

abbrev pub revive : OutboxEntry → OutboxEntry
revive entry =
    if is_dead entry.status
    then record entry {
      status = pending_status;
      attempts = 0;
      last_error = none;
      available_at = none;
    }
    else entry

unfoldable pub replay : List String → OutboxState → OutboxState
replay [] s = s
replay (id ∷ ids) s = replay ids (update id revive s)

abbrev pub dead_letters : OutboxState → List OutboxEntry
dead_letters s = filter (λ entry. is_dead entry.status) (values s.entries)
