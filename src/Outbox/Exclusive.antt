-- ===== src/Outbox/Exclusive.antt =====
-- About the lease of a claim, between the steps of other relays.
use structure.Prelude.{
  String, ℕ, List, lookup, ◌<◌, Bool, ◌≤◌, ◌≡◌, some_of, ◌≢◌, some, true, arith, ◌∷◌, text_equality,
  Option, false, Option-cases, Bool-cases, inl, inr, insert, [], ap, ◌==◌, Dict, ◌+◌, ◌∙◌,
  if◌then◌else◌, sym, subst, none, same_refl,
}
use structure.Outbox.Store.{
  deliverable, OutboxState, ClaimState, OutboxEntry, OutboxMessage, enqueue, claim, publish_each,
  mark_published, pending, mark_failed, mark_dead, owns, published, without_claim, mem_token,
}
use structure.Outbox.Reach.{
  Step, enqueue_step, Step-IsSound, claim_step, publish_step, fail_step, dead_step,
}
use structure.Outbox.Invariant.{
  IsConsistent, lookup-Keyed, pending-deliverable, lookup-without_claim,
}
use structure.Outbox.Claiming.{claim-claims, names, claim-eq-pending}
use structure.Outbox.Steps.{claim-IsSound}

pub data Other (token : String) (until : ℕ) : OutboxState → OutboxState → Type 0 where
  enqueue_other :
      (s : OutboxState) (messages : List OutboxMessage) → Other token until s (enqueue messages s)
  claim_other :
      (s : OutboxState) (limit lease now : ℕ)
      → now < until
      → Other token until s (claim limit lease now s).1
  publish_other :
      (s : OutboxState) (ids : List String) (theirs : String)
      → theirs ≢ token
      → Other token until s (mark_published ids (some theirs) s).1
  fail_other :
      (s : OutboxState) (id error : String) (attempts : ℕ) (retry_at : Option ℕ)
      (theirs : Option String)
      → Other token until s (mark_failed id error attempts retry_at theirs s).1
  dead_other :
      (s : OutboxState) (id error theirs : String)
      → theirs ≢ token
      → Other token until s (mark_dead id error (some theirs) s).1

pub data Others (token : String) (until : ℕ) (s : OutboxState) : OutboxState → Type 0 where
  alone : Others token until s s
  also :
      {t u : OutboxState} → Others token until s t → Other token until t u → Others token until s u

abbrev Holds : String → ClaimState → OutboxState → Type 0
Holds id c s = lookup id s.claims ≡ some c

Other-Step : {token : String} {until : ℕ} {s t : OutboxState} → Other token until s t → Step s t
Other-Step (enqueue_other s messages) = enqueue_step s messages
Other-Step (claim_other s limit lease now early) = claim_step s limit lease now
Other-Step (publish_other s ids theirs apart) = publish_step s ids (some theirs)
Other-Step (fail_other s id error attempts retry_at theirs) =
    fail_step s id error attempts retry_at theirs
Other-Step (dead_other s id error theirs apart) = dead_step s id error (some theirs)

Others-IsConsistent :
    {token : String} {until : ℕ} {s t : OutboxState}
    → Others token until s t
    → IsConsistent s
    → IsConsistent t
Others-IsConsistent alone c = c
Others-IsConsistent (also r step) c =
    (Step-IsSound (Other-Step step) (Others-IsConsistent r c)).consistent

lapsed :
    (id : String) (c : ClaimState) (s : OutboxState) (now : ℕ) (entry : OutboxEntry)
    → Holds id c s
    → now < c.lease_until
    → entry.message.id ≡ id
    → deliverable s now entry ≢ true
unfolding deliverable
lapsed id c s now entry held early same h = ground (arith, ap (λ i. lookup i s.claims) same)

keyed_id :
    (id : String) (entry : OutboxEntry) (s : OutboxState)
    → IsConsistent s
    → lookup id s.entries ≡ some entry
    → entry.message.id ≡ id
keyed_id id entry s k found = lookup-Keyed id entry s.entries k.keyed found

-- A held entry is handed to no one before its lease lapses.
pub held-pending :
    (id : String) (c : ClaimState) (s : OutboxState) (limit now : ℕ)
    → IsConsistent s
    → Holds id c s
    → now < c.lease_until
    → some_of (names id) (pending limit now s) ≡ false
held-pending id c s limit now k held early =
    elim (Bool-cases (some_of (names id) (pending limit now s))) [
      | inr out ↦ out
      | inl taken ↦
          let (entry, facts) = pending-deliverable limit now s id k taken in
          absurd (lapsed id c s now entry held early (keyed_id id entry s k facts.0) facts.1)
    ]

owned_apart :
    (s : OutboxState) (theirs id j : String) (c : ClaimState)
    → Holds id c s
    → theirs ≢ c.token
    → owns s j (some theirs) ≡ true
    → (j == id) ≡ false
owned_apart s theirs id j c held apart owned = elim (Bool-cases (j == id)) [
  | inr differ ↦ differ
  | inl same ↦ absurd (
      ground (
        arith,
        apart,
        text_equality.same_iff c.token theirs,
        text_equality.same_iff j id,
        ap (λ i. lookup i s.claims) ((text_equality.same_iff j id).0 same),
        owned,
        held,
      ))
]

still_held :
    (s : OutboxState) (theirs id j : String) (c : ClaimState) (claims : Dict String ClaimState)
    → Holds id c s
    → theirs ≢ c.token
    → owns s j (some theirs) ≡ true
    → lookup id claims ≡ some c
    → lookup id (without_claim claims j) ≡ some c
still_held s theirs id j c claims held apart owned h =
    rw (lookup-without_claim claims j id, owned_apart s theirs id j c held apart owned) h

publish_each-held :
    (s : OutboxState) (theirs : String) (ids : List String) (applied : Bool) (n : OutboxState)
    (id : String) (c : ClaimState)
    → Holds id c s
    → theirs ≢ c.token
    → Holds id c n
    → Holds id c (publish_each s (some theirs) ids applied n).1
unfolding publish_each
publish_each-held s theirs [] applied n id c mine apart held = held
publish_each-held s theirs (j ∷ ids) applied n id c mine apart held =
    elim (Option-cases (lookup j s.entries)) [
      | inl missing ↦
          rw (publish_each, missing) (publish_each-held s theirs ids applied n id c mine apart held)
      | inr (entry, found) ↦ elim (Bool-cases (owns s j (some theirs))) [
        | inr lost ↦
            rw (publish_each, found, lost)
              (publish_each-held s theirs ids applied n id c mine apart held)
        | inl owned ↦
            rw (publish_each, found, owned)
              (publish_each-held s theirs ids true
                (record n {
                  entries = insert j (record entry { status = published }) n.entries;
                  claims = without_claim n.claims j;
                })
                id c mine apart (still_held s theirs id j c n.claims mine apart owned held))
      ]
    ]

Other-Holds :
    {until : ℕ} {s t : OutboxState} (id : String) (c : ClaimState)
    → Other c.token until s t
    → until ≤ c.lease_until
    → IsConsistent s
    → Holds id c s
    → Holds id c t
unfolding mark_published mark_failed mark_dead
Other-Holds id c (enqueue_other s messages) u k held = held
Other-Holds id c (claim_other s limit lease now early) u k held =
    rw (claim-claims limit lease now s id, held-pending id c s limit now k held (omega arith)) held
Other-Holds id c (publish_other s ids theirs apart) u k held =
    publish_each-held s theirs ids false s id c held apart held
Other-Holds id c (fail_other s j error attempts retry_at theirs) u k held =
    elim (Option-cases (lookup j s.entries)) [
      | inl missing ↦ rw (mark_failed, missing) held
      | inr (entry, found) ↦ elim (Bool-cases (owns s j theirs)) [
        | inl owned ↦ rw (mark_failed, found, owned) held
        | inr lost ↦ rw (mark_failed, found, lost) held
      ]
    ]
Other-Holds id c (dead_other s j error theirs apart) u k held =
    elim (Option-cases (lookup j s.entries)) [
      | inl missing ↦ rw (mark_dead, missing) held
      | inr (entry, found) ↦ elim (Bool-cases (owns s j (some theirs))) [
        | inl owned ↦
            rw (mark_dead, found, owned) (still_held s theirs id j c s.claims held apart owned held)
        | inr lost ↦ rw (mark_dead, found, lost) held
      ]
    ]

Others-Holds :
    {until : ℕ} {s : OutboxState} (id : String) (c : ClaimState) {t : OutboxState}
    → Others c.token until s t
    → until ≤ c.lease_until
    → IsConsistent s
    → Holds id c s
    → Holds id c t
Others-Holds id c alone u k held = held
Others-Holds id c (also r step) u k held =
    Other-Holds id c step u (Others-IsConsistent r k) (Others-Holds id c r u k held)

-- In a consistent outbox a claim gives its relay each entry it hands out until the lease lapses:
-- while the other relays stage, claim before that instant, fail, and settle under other tokens, no
-- claim and no look at the pending entries shows the entry, and the relay's token still owns it.
pub claim_exclusive :
    (limit lease now : ℕ) (s : OutboxState) (id : String) {t : OutboxState}
    → IsConsistent s
    → some_of (names id) (claim limit lease now s).0.entries ≡ true
    → Others (claim limit lease now s).0.token (now + lease) (claim limit lease now s).1 t
    → ((most at : ℕ) → at < now + lease → some_of (names id) (pending most at t) ≡ false)
      × (owns t id (some (claim limit lease now s).0.token) ≡ true)
unfolding claim
claim_exclusive limit lease now s id {t} k taken r = (
  (λ most at early. held-pending id owner t most at (Others-IsConsistent r after) held early),
  subst (λ o. elim o [ none ↦ false | some h ↦ h.token == owner.token ] ≡ true) (sym held)
      (same_refl text_equality owner.token),
)
  where
    owner : ClaimState
    owner = record { token = mem_token s.next_token; lease_until = now + lease }

    after : IsConsistent (claim limit lease now s).1
    after = (claim-IsSound limit lease now s k).consistent

    held : Holds id owner t
    held = Others-Holds id owner r (omega arith) after (
        claim-claims limit lease now s id
        ∙ ap (λ b. if b then some owner else lookup id s.claims)
            (ap (some_of (names id)) (sym (claim-eq-pending limit lease now s)) ∙ taken))
