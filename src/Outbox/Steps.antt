-- ===== src/Outbox/Steps.antt =====
-- About each operation of the outbox: the consistency of its state, and the state it follows.
use structure.Prelude.{
  ℕ, List, String, Option, lookup, Option-cases, ◌≡◌, ◌∷◌, Bool, false, some, inl, arith, none, inr,
  [], insert, Bool-cases, text_equality, true, sym, lookup-insert, refl, lookup_apart, insert-IsMap,
  ◌≤◌,
}
use structure.Outbox.Store.{
  OutboxState, mark_dead, mark_failed, OutboxEntry, update, replay, publish_each, mark_published,
  OutboxMessage, enqueue_each, revive, enqueue, claim, without_claim, owns, staged, dead, published,
  deliverable, is_pending,
}
use structure.Outbox.Invariant.{
  IsConsistent, keep-IsConsistent, release-IsConsistent, insert-Keyed, pending-deliverable,
}
use structure.Outbox.Follows.{IsSound, Follows_refl, Follows_trans, keep-Follows, release-Follows}
use structure.Outbox.Claiming.{claim-entries, claim-counter, claim-change}

same_state : (s : OutboxState) → IsConsistent s → IsSound s s
same_state s c = record { consistent = c; follows = Follows_refl s }

release :
    (s : OutboxState) (id : String) (entry new : OutboxEntry)
    → IsConsistent s
    → lookup id s.entries ≡ some entry
    → new.message ≡ entry.message
    → IsSound s (record s { entries = insert id new s.entries; claims = without_claim s.claims id })
release s id entry new c found same = record {
  consistent = release-IsConsistent s id entry new c found same;
  follows = release-Follows s id entry new found same;
}

keep :
    (s : OutboxState) (id : String) (entry new : OutboxEntry)
    → IsConsistent s
    → lookup id s.entries ≡ some entry
    → new.message ≡ entry.message
    → new.status ≡ entry.status
    → IsSound s (record s { entries = insert id new s.entries })
keep s id entry new c found same status = record {
  consistent = keep-IsConsistent s id entry new c found same status;
  follows = keep-Follows s id entry new found same;
}

pub mark_dead-IsSound :
    (id error : String) (token : Option String) (s : OutboxState)
    → IsConsistent s
    → IsSound s (mark_dead id error token s).1
unfolding mark_dead
mark_dead-IsSound id error token s c = elim (Option-cases (lookup id s.entries)) [
  | inl missing ↦ rw (mark_dead, missing) (same_state s c)
  | inr (entry, found) ↦ elim (Bool-cases (owns s id token)) [
    | inl mine ↦
        rw (mark_dead, found, mine)
          (release s id entry (record entry { status = dead; last_error = some error }) c found
            refl)
    | inr lost ↦ rw (mark_dead, found, lost) (same_state s c)
  ]
]

pub mark_failed-IsSound :
    (id error : String) (attempts : ℕ) (retry_at : Option ℕ) (token : Option String)
    (s : OutboxState)
    → IsConsistent s
    → IsSound s (mark_failed id error attempts retry_at token s).1
unfolding mark_failed
mark_failed-IsSound id error attempts retry_at token s c =
    elim (Option-cases (lookup id s.entries)) [
      | inl missing ↦ rw (mark_failed, missing) (same_state s c)
      | inr (entry, found) ↦ elim (Bool-cases (owns s id token)) [
        | inl mine ↦
            rw (mark_failed, found, mine)
              (keep s id entry
                (record entry {
                  attempts = attempts;
                  last_error = some error;
                  available_at = retry_at;
                })
                c found refl refl)
        | inr lost ↦ rw (mark_failed, found, lost) (same_state s c)
      ]
    ]

revive-message : (entry : OutboxEntry) → (revive entry).message ≡ entry.message
revive-message entry = ground arith

update-IsSound : (id : String) (s : OutboxState) → IsConsistent s → IsSound s (update id revive s)
unfolding update
update-IsSound id s c = elim (Option-cases (lookup id s.entries)) [
  | inl missing ↦ rw (update, missing) (same_state s c)
  | inr (entry, found) ↦
      rw (update, found) (release s id entry (revive entry) c found (revive-message entry))
]

chain : {s t u : OutboxState} → IsSound s t → (IsConsistent t → IsSound t u) → IsSound s u
chain f g =
    let next = g f.consistent in
    record { consistent = next.consistent; follows = Follows_trans f.follows next.follows }

pub replay-IsSound :
    (ids : List String) (s : OutboxState) → IsConsistent s → IsSound s (replay ids s)
unfolding replay
replay-IsSound [] s c = same_state s c
replay-IsSound (id ∷ ids) s c =
    chain (update-IsSound id s c) (replay-IsSound ids (update id revive s))

publish_each-IsSound :
    (s : OutboxState) (token : Option String) (ids : List String) (applied : Bool)
    (next : OutboxState)
    → IsSound s next
    → IsSound s (publish_each s token ids applied next).1
unfolding publish_each
publish_each-IsSound s token [] applied next i = i
publish_each-IsSound s token (id ∷ ids) applied next i = elim (Option-cases (lookup id s.entries)) [
  | inl missing ↦ rw (publish_each, missing) (publish_each-IsSound s token ids applied next i)
  | inr (entry, found) ↦ elim (Bool-cases (owns s id token)) [
    | inr lost ↦ rw (publish_each, found, lost) (publish_each-IsSound s token ids applied next i)
    | inl mine ↦
        rw (publish_each, found, mine)
          (let (now, kept) = i.follows.keeps id entry found in
            let new = record entry { status = published } in
            publish_each-IsSound s token ids true
              (record next {
                entries = insert id new next.entries;
                claims = without_claim next.claims id;
              })
              (chain i (λ c. release next id now new c kept.0 (sym kept.1))))
  ]
]

pub mark_published-IsSound :
    (ids : List String) (token : Option String) (s : OutboxState)
    → IsConsistent s
    → IsSound s (mark_published ids token s).1
unfolding mark_published
mark_published-IsSound ids token s c = publish_each-IsSound s token ids false s (same_state s c)

stage-IsSound :
    (message : OutboxMessage) (s : OutboxState)
    → IsConsistent s
    → lookup message.id s.entries ≡ none
    → IsSound s (record s { entries = insert message.id (staged message) s.entries })
stage-IsSound message s c missing = record {
  consistent = record {
    distinct = insert-IsMap message.id (staged message) s.entries c.distinct;
    keyed = insert-Keyed message.id (staged message) s.entries refl c.keyed;
    live =
        λ id held e. let (old, facts) = c.live id held e in (old, (stands id old facts.0, facts.1));
    minted = c.minted;
  };
  follows = record {
    keeps = λ id old e. (old, (stands id old e, refl));
    counter = omega arith;
    claims = λ id held e. inl e;
  };
}
  where
    stands :
        (id : String) (old : OutboxEntry)
        → lookup id s.entries ≡ some old
        → lookup id (insert message.id (staged message) s.entries) ≡ some old
    stands id old e = rw (lookup-insert, lookup_apart message.id id s.entries missing e) e

enqueue_each-IsSound :
    (messages : List OutboxMessage) (s : OutboxState)
    → IsConsistent s
    → IsSound s (record s { entries = enqueue_each messages s.entries })
unfolding enqueue_each
enqueue_each-IsSound [] s c = same_state s c
enqueue_each-IsSound (message ∷ messages) s c = elim (Option-cases (lookup message.id s.entries)) [
  | inr (entry, known) ↦ rw known (enqueue_each-IsSound messages s c)
  | inl missing ↦ rw missing (
      chain (stage-IsSound message s c missing) (
        enqueue_each-IsSound messages
          (record s { entries = insert message.id (staged message) s.entries })))
]

pub enqueue-IsSound :
    (messages : List OutboxMessage) (s : OutboxState)
    → IsConsistent s
    → IsSound s (enqueue messages s)
enqueue-IsSound messages s c = enqueue_each-IsSound messages s c

deliverable_pending :
    (s : OutboxState) (now : ℕ) (entry : OutboxEntry)
    → deliverable s now entry ≡ true
    → is_pending entry.status ≡ true
unfolding deliverable
deliverable_pending s now entry h = ground arith

pub claim-IsSound :
    (limit lease now : ℕ) (s : OutboxState) → IsConsistent s → IsSound s (claim limit lease now s).1
claim-IsSound limit lease now s c = record {
  consistent = record {
    distinct = rw same c.distinct;
    keyed = rw same c.keyed;
    live = λ id held e. rw same (elim (claim-change limit lease now s id held e) [
      | inl old ↦ c.live id held old
      | inr (taken, made) ↦
          let (entry, facts) = pending-deliverable limit now s id c taken in
          (entry, (facts.0, deliverable_pending s now entry facts.1))
    ]);
    minted = λ id held e. elim (claim-change limit lease now s id held e) [
      | inl old ↦
          let (k, facts) = c.minted id held old in (k, (omega (arith, facts.0, grows), facts.1))
      | inr (taken, made) ↦ (s.next_token, (omega (arith, made.1), made.0))
    ];
  };
  follows = record {
    keeps = λ id old e. (old, (rw same e, refl));
    counter = grows;
    claims = λ id held e. elim (claim-change limit lease now s id held e) [
      | inl old ↦ inl old
      | inr (taken, made) ↦ inr (s.next_token, ((omega arith, omega (arith, made.1)), made.0))
    ];
  };
}
  where
    same : (claim limit lease now s).1.entries ≡ s.entries
    same = claim-entries limit lease now s

    grows : s.next_token ≤ (claim limit lease now s).1.next_token
    grows = ground (arith, claim-counter limit lease now s)
