-- ===== src/Outbox/Delivery.antt =====
-- About the end of a relay's attempts at an entry that it holds.
-- The entry is there, and the token owns it.
use structure.Prelude.{
  String, ℕ, Bool, false, ◌∷◌, Option, some, lookup, suc, [], ◌≡◌, is_none, if◌then◌else◌, true,
  ◌||◌, lookup-insert_self, text_equality, ◌+◌, refl, zero, leb, Option-cases, arith, inl, none,
  inr, subst, ◌∙◌, sym, ◌<◌, ◌-◌,
}
use structure.Outbox.Relay.{Relay, publish_loop, backoff_delay, publish_entry}
use structure.Outbox.Store.{
  mark_published, mark_failed, mark_dead, OutboxState, publish_each, OutboxEntry, owns, published,
  dead,
}

pub record IsHeld (id token : String) (s : OutboxState) : Type 0 where
  pub entry : OutboxEntry
  pub known : lookup id s.entries ≡ some entry
  pub owned : owns s id (some token) ≡ true

-- Whether one of the next n attempts is answered by the transport.
abbrev pub answered : Relay → ℕ → ℕ → Bool
answered r attempts zero = false
answered r attempts (suc n) = is_none (r.publish attempts) || answered r (attempts + 1) n

-- The entry's end: published, or dead after the given number of attempts.
abbrev pub IsSettled : String → Bool → ℕ → OutboxState → Type 0
IsSettled id delivered attempts s =
    (entry : OutboxEntry) × ((lookup id s.entries ≡ some entry)
      × (if delivered
          then entry.status ≡ published
          else (entry.status ≡ dead) × (entry.attempts ≡ attempts)))

published-held :
    (id token : String) (s : OutboxState)
    → IsHeld id token s
    → ((mark_published (id ∷ []) (some token) s).0 ≡ true)
      × IsSettled id true 0 (mark_published (id ∷ []) (some token) s).1
unfolding mark_published publish_each
published-held id token s h =
    rw (mark_published, publish_each, h.known, h.owned)
      (
        refl,
        (
          record h.entry { status = published },
          (lookup-insert_self id (record h.entry { status = published }) s.entries, refl),
        ),
      )

failed-IsHeld :
    (id token error : String) (attempts : ℕ) (retry_at : Option ℕ) (s : OutboxState)
    → IsHeld id token s
    → ((mark_failed id error attempts retry_at (some token) s).0 ≡ true)
      × ((held : IsHeld id token (mark_failed id error attempts retry_at (some token) s).1)
          × (held.entry.attempts ≡ attempts))
unfolding mark_failed
failed-IsHeld id token error attempts retry_at s h =
    rw (mark_failed, h.known, h.owned)
      (
        refl,
        (
          record {
            entry = record h.entry {
              attempts = attempts;
              last_error = some error;
              available_at = retry_at;
            };
            known =
                lookup-insert_self id
                  (record h.entry {
                    attempts = attempts;
                    last_error = some error;
                    available_at = retry_at;
                  })
                  s.entries;
            owned = h.owned;
          },
          refl,
        ),
      )

dead-held :
    (id token error : String) (s : OutboxState) (h : IsHeld id token s)
    → ((mark_dead id error (some token) s).0 ≡ true)
      × IsSettled id false h.entry.attempts (mark_dead id error (some token) s).1
unfolding mark_dead
dead-held id token error s h =
    rw (mark_dead, h.known, h.owned)
      (
        refl,
        (
          record h.entry { status = dead; last_error = some error },
          (
            lookup-insert_self id (record h.entry { status = dead; last_error = some error })
                s.entries,
            (refl, refl),
          ),
        ),
      )

module _ (r : Relay) (id token : String)
    (keeps : (n : ℕ) (s : OutboxState) → IsHeld id token s → IsHeld id token (r.others n s)) where
  last_attempt :
      (fuel attempts : ℕ) (s : OutboxState) (error : String)
      → r.max_attempts ≡ attempts + 1
      → r.publish attempts ≡ some error
      → IsHeld id token s
      → ((publish_loop (suc fuel) r id token attempts s).0 ≡ true)
        × IsSettled id false r.max_attempts (publish_loop (suc fuel) r id token attempts s).1
  unfolding publish_loop
  last_attempt fuel attempts s error budget silent h =
      let (answer, failed) =
        failed-IsHeld id token error (attempts + 1) none (r.others attempts s)
          (keeps attempts s h) in
      let (done, settled) =
        dead-held id token error
          (mark_failed id error (attempts + 1) none (some token) (r.others attempts s)).1
          failed.0 in
      rw (publish_loop, silent, spent)
        (
          done,
          subst
              (λ n.
                IsSettled id false n
                  (mark_dead id error (some token)
                    (mark_failed id error (attempts + 1) none (some token)
                      (r.others attempts s)).1).1)
              (failed.1 ∙ sym budget) settled,
        )
    where
      spent : leb r.max_attempts (attempts + 1) ≡ true
      spent = ground (arith, budget)

  -- A loop that ended as it should.
  abbrev EndsWell : Bool → Bool × OutboxState → Type 0
  EndsWell delivered p = (p.0 ≡ true) × IsSettled id delivered r.max_attempts p.1

  abbrev after_failure : ℕ → String → OutboxState → OutboxState
  after_failure attempts error s =
      (mark_failed id error (attempts + 1)
        (some (r.clock attempts + backoff_delay r (attempts + 1))) (some token)
        (r.others attempts s)).1

  next_attempt :
      (n attempts : ℕ) (s : OutboxState) (error : String)
      → r.max_attempts ≡ attempts + suc (suc n)
      → r.publish attempts ≡ some error
      → IsHeld id token s
      → publish_loop (suc (suc n)) r id token attempts s
        ≡ publish_loop (suc n) r id token (attempts + 1) (after_failure attempts error s)
  unfolding publish_loop
  next_attempt n attempts s error budget failing h =
      rw
        (
          publish_loop,
          failing,
          unspent,
          (failed-IsHeld id token error (attempts + 1)
              (some (r.clock attempts + backoff_delay r (attempts + 1))) (r.others attempts s)
              (keeps attempts s h)).0,
        )
        refl
    where
      unspent : leb r.max_attempts (attempts + 1) ≡ false
      unspent = ground (arith, budget)

  answered-failing :
      (n attempts : ℕ) (error : String)
      → r.publish attempts ≡ some error
      → answered r attempts (suc n) ≡ answered r (attempts + 1) n
  answered-failing n attempts error failing = rw failing refl

  loop_settles :
      (n attempts : ℕ) (s : OutboxState)
      → r.max_attempts ≡ attempts + suc n
      → IsHeld id token s
      → EndsWell (answered r attempts (suc n)) (publish_loop (suc n) r id token attempts s)
  unfolding publish_loop
  loop_settles zero attempts s budget h = elim (Option-cases (r.publish attempts)) [
    | inl fine ↦
        rw (publish_loop, fine) (published-held id token (r.others attempts s) (keeps attempts s h))
    | inr (error, failing) ↦
        subst (λ b. EndsWell b (publish_loop 1 r id token attempts s))
          (sym (answered-failing 0 attempts error failing))
          (last_attempt 0 attempts s error budget failing h)
  ]
  loop_settles (suc n) attempts s budget h = elim (Option-cases (r.publish attempts)) [
    | inl fine ↦
        rw (publish_loop, fine) (published-held id token (r.others attempts s) (keeps attempts s h))
    | inr (error, failing) ↦
        subst (λ b. EndsWell b (publish_loop (suc (suc n)) r id token attempts s))
          (sym (answered-failing (suc n) attempts error failing))
          (subst (EndsWell (answered r (attempts + 1) (suc n)))
            (sym (next_attempt n attempts s error budget failing h))
            (loop_settles n (attempts + 1) (after_failure attempts error s) (omega (arith, budget))
              (failed-IsHeld id token error (attempts + 1)
                (some (r.clock attempts + backoff_delay r (attempts + 1))) (r.others attempts s)
                (keeps attempts s h)).1.0))
  ]

-- A relay that holds an entry settles it within its attempts, whatever the other relays do that
-- leaves it the entry: `publishEntry` answers true, and the entry is published when the transport
-- answers one of the attempts that are left, and else a dead letter with the greatest number of attempts.
pub publish_entry-settles :
    (r : Relay) (entry : OutboxEntry) (token : String) (s : OutboxState)
    → ((n : ℕ) (t : OutboxState)
        → IsHeld entry.message.id token t
        → IsHeld entry.message.id token (r.others n t))
    → entry.attempts < r.max_attempts
    → IsHeld entry.message.id token s
    → ((publish_entry r entry token s).0 ≡ true)
      × IsSettled entry.message.id
          (answered r entry.attempts (r.max_attempts - entry.attempts))
          r.max_attempts
          (publish_entry r entry token s).1
unfolding publish_entry
publish_entry-settles r entry token s keeps left h =
    rw (publish_entry, unspent, rest)
      (loop_settles r entry.message.id token keeps (r.max_attempts - entry.attempts - 1)
        entry.attempts s (omega (arith, left)) h)
  where
    unspent : leb r.max_attempts entry.attempts ≡ false
    unspent = ground (arith, left)

    rest : r.max_attempts - entry.attempts ≡ suc (r.max_attempts - entry.attempts - 1)
    rest = omega (arith, left)
