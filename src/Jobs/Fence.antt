-- ===== src/Jobs/Fence.antt =====
-- About the leases of claimed jobs, and the writes of a worker that lost its lease.
use structure.Prelude.{
  String, List, ℕ, some_of, includes, Bool, ◌≡◌, map, false, ok, true, ◌||◌, ◌∷◌, ◌==◌, arith, ◌⊎◌,
  ◌≢◌, ◌∙◌, ap, ◌&&◌, ◌<◌, err, some, ◌+◌, sym, [], text_equality, some_of-filter, Bool-cases, refl,
  filter, inr, some_of-take, inl, take, Result, Option, append_text, or_else, none, max, clip,
}
use structure.Jobs.Queue.{
  fenced_delete, fenced_update, QueueRow, take_picked, claim, by_run_at, ordered, picked, Job,
  Tables, owned, claimable, taken_by,
}
use structure.Jobs.Worker.{
  execute, dead_letter, Surroundings, reschedule_retry, Attempt, complete_success, heartbeat,
  abandon_drain, requeued, NextFire, invalid_payload, fire_again, complete_cron, failed,
  is_permanent, exhausted, backoff_millis, unregistered, succeeded, error_units,
}

fenced_delete-lost :
    (row : QueueRow) (jobs : List Job)
    → some_of (owned row) jobs ≡ false
    → fenced_delete row jobs ≡ (false, jobs)
unfolding fenced_delete
fenced_delete-lost row [] h = refl
fenced_delete-lost row (job ∷ jobs) h = ground (arith, fenced_delete-lost row jobs)

fenced_update-lost :
    (row : QueueRow) (write : Job → Job) (jobs : List Job)
    → some_of (owned row) jobs ≡ false
    → fenced_update row write jobs ≡ (false, jobs)
unfolding fenced_update
fenced_update-lost row write [] h = refl
fenced_update-lost row write (job ∷ jobs) h = ground (arith, fenced_update-lost row write jobs)

-- Nothing that the worker of the row does changes the tables: at most its cron expression fails.
pub record IsHarmless (row : QueueRow) (t : Tables) : Type 0 where
  pub attempts :
      (e : Surroundings) (attempt : Attempt)
      → (execute e row attempt t ≡ ok t)
        ⊎ ((problem : String) × (execute e row attempt t ≡ err problem))
  pub heartbeats : (lease_millis now : ℕ) → heartbeat row lease_millis now t ≡ t
  pub drains : (now : ℕ) → abandon_drain (row ∷ []) now t ≡ t

fire_lost :
    (row : QueueRow) (t : Tables)
    → some_of (owned row) t.queue ≡ false
    → (now : ℕ) (fire : Result String (Option ℕ))
    → (fire_again row now fire t ≡ ok t)
      ⊎ ((problem : String) × (fire_again row now fire t ≡ err problem))
fire_lost row t h now (err problem) = inr (problem, refl)
fire_lost row t h now (ok none) = inl (rw (fenced_delete-lost row t.queue h) refl)
fire_lost row t h now (ok (some at)) = inl (
    rw (fenced_update-lost row (λ job. record (requeued at now job) { attempt = 0 }) t.queue h)
      refl)

cron_lost :
    (row : QueueRow) (t : Tables)
    → some_of (owned row) t.queue ≡ false
    → (next_fire : NextFire) (now : ℕ) (cron : Option String)
    → (complete_cron next_fire row now cron t ≡ ok t)
      ⊎ ((problem : String) × (complete_cron next_fire row now cron t ≡ err problem))
cron_lost row t h next_fire now none = inl (rw (fenced_delete-lost row t.queue h) refl)
cron_lost row t h next_fire now (some expr) =
    fire_lost row t h now (next_fire expr (or_else row.cron_timezone "UTC") (max row.run_at now))

dead_letter-lost :
    (row : QueueRow) (reason : String) (now : ℕ) (dead_id : String) (t : Tables)
    → some_of (owned row) t.queue ≡ false
    → dead_letter row reason now dead_id t ≡ t
unfolding dead_letter
dead_letter-lost row reason now dead_id t h = rw (fenced_delete-lost row t.queue h) refl

attempts_lost :
    (row : QueueRow) (t : Tables)
    → some_of (owned row) t.queue ≡ false
    → (e : Surroundings) (attempt : Attempt)
    → (execute e row attempt t ≡ ok t)
      ⊎ ((problem : String) × (execute e row attempt t ≡ err problem))
unfolding execute reschedule_retry complete_success
attempts_lost row t h e unregistered =
    inl (ap ok (dead_letter-lost row "unknown-job" e.now e.fresh_id t h))
attempts_lost row t h e (invalid_payload problem) =
    inl
      (ap ok (dead_letter-lost row (append_text "invalid-payload: " problem) e.now e.fresh_id t h))
attempts_lost row t h e succeeded = cron_lost row t h e.next_fire e.now row.cron_expr
attempts_lost row t h e (failed reason classification) =
    elim (Bool-cases (is_permanent classification || exhausted e row)) [
      | inl done ↦ rw done (inl (ap ok (dead_letter-lost row reason e.now e.fresh_id t h)))
      | inr again ↦
          rw
            (
              again,
              fenced_update-lost row
                  (λ job.
                    record (requeued (e.now + backoff_millis row.attempt e.random.0 e.random.1)
                      e.now job) { last_error = some (clip error_units reason) })
                  t.queue h,
            )
            (inl refl)
    ]

IsHarmless-of_lost :
    (row : QueueRow) (t : Tables) → some_of (owned row) t.queue ≡ false → IsHarmless row t
unfolding execute dead_letter reschedule_retry complete_success heartbeat abandon_drain
IsHarmless-of_lost row t h = record {
  attempts = λ e attempt. attempts_lost row t h e attempt;
  heartbeats = λ lease_millis now.
      rw
        (fenced_update-lost row (λ job. record job { lease_expires_at = some (now + lease_millis) })
          t.queue h)
        refl;
  drains = λ now. rw (fenced_update-lost row (requeued now now) t.queue h) refl;
}

not_listed :
    (i j : String) (ids : List String)
    → includes i ids ≡ false
    → includes j ids ≡ true
    → (i == j) ≡ false
not_listed i j ids miss hit = elim (Bool-cases (i == j)) [
  | inr apart ↦ apart
  | inl same ↦
      absurd
        (ground (arith, ap (λ k. includes k ids) ((text_equality.same_iff i j).0 same), miss, hit))
]

taken-lost :
    (row : QueueRow) (ids : List String) (owner : String) (until now : ℕ) (jobs : List Job)
    → includes row.id ids ≡ true
    → owner ≢ row.lease_owner
    → some_of (owned row) (take_picked ids (taken_by owner until now) jobs).1 ≡ false
unfolding take_picked owned
taken-lost row ids owner until now [] taken apart = refl
taken-lost row ids owner until now (job ∷ jobs) taken apart =
    elim (Bool-cases (includes job.id ids)) [
      | inl hit ↦ rw hit (
          ground (
            arith,
            text_equality.same_iff owner row.lease_owner,
            taken-lost row ids owner until now jobs taken apart,
          ))
      | inr miss ↦
          rw (miss, not_listed job.id row.id ids miss taken)
            (taken-lost row ids owner until now jobs taken apart)
    ]

-- A worker whose job was claimed by another, because its lease had run out, is harmless from then
-- on: whatever the end of its attempt, its heartbeat and its drain leave the queue and the dead
-- letters as the other worker's claim left them.
pub evicted_worker-IsHarmless :
    (row : QueueRow) (batch_size lease_millis now : ℕ) (owner : String) (t : Tables)
    → includes row.id (picked batch_size now t.queue) ≡ true
    → owner ≢ row.lease_owner
    → IsHarmless row (claim batch_size lease_millis now owner t).1
unfolding claim
evicted_worker-IsHarmless row batch_size lease_millis now owner t taken apart =
    IsHarmless-of_lost row (claim batch_size lease_millis now owner t).1 (
      taken-lost row (picked batch_size now t.queue) owner (now + lease_millis) now t.queue taken
        apart)

some_of-by_run_at :
    (f : Job → Bool) (job : Job) (jobs : List Job)
    → some_of f (by_run_at job jobs) ≡ (f job || some_of f jobs)
unfolding by_run_at
some_of-by_run_at f job [] = refl
some_of-by_run_at f job (first ∷ jobs) = ground (arith, some_of-by_run_at f job jobs)

some_of-ordered : (f : Job → Bool) (jobs : List Job) → some_of f (ordered jobs) ≡ some_of f jobs
unfolding ordered
some_of-ordered f [] = refl
some_of-ordered f (job ∷ jobs) =
    some_of-by_run_at f job (ordered jobs) ∙ ap (λ b. f job || b) (some_of-ordered f jobs)

includes-ids :
    (id : String) (jobs : List Job)
    → includes id (map (λ j. j.id) jobs) ≡ some_of (λ j. j.id == id) jobs
includes-ids id [] = refl
includes-ids id (job ∷ jobs) = ap (λ b. job.id == id || b) (includes-ids id jobs)

picked-claimable :
    (batch_size now : ℕ) (jobs : List Job) (id : String)
    → includes id (picked batch_size now jobs) ≡ true
    → some_of (λ j. claimable now j && j.id == id) jobs ≡ true
unfolding picked
picked-claimable batch_size now jobs id h =
    sym (some_of-filter (λ j. j.id == id) (claimable now) jobs)
    ∙ sym (some_of-ordered (λ j. j.id == id) (filter (claimable now) jobs))
    ∙ some_of-take (λ j. j.id == id) batch_size (ordered (filter (claimable now) jobs))
        (sym (includes-ids id (take batch_size (ordered (filter (claimable now) jobs)))) ∙ h)

taken-leased :
    (id : String) (ids : List String) (owner : String) (until now later : ℕ) (jobs : List Job)
    → includes id ids ≡ true
    → later < until
    → some_of
        (λ j. claimable later j && j.id == id)
        (take_picked ids (taken_by owner until now) jobs).1
      ≡ false
unfolding take_picked claimable
taken-leased id ids owner until now later [] taken early = refl
taken-leased id ids owner until now later (job ∷ jobs) taken early =
    elim (Bool-cases (includes job.id ids)) [
      | inl hit ↦
          rw hit (ground (arith, taken-leased id ids owner until now later jobs taken early))
      | inr miss ↦ rw miss (
          ground (
            arith,
            not_listed job.id id ids miss taken,
            taken-leased id ids owner until now later jobs taken early,
          ))
    ]

-- Leases are exclusive: a job that one claim took is not taken by another claim before the lease
-- ends, whatever the size of its batch.
pub claims_apart :
    (batch_size lease_millis now : ℕ) (owner : String) (t : Tables) (more later : ℕ) (id : String)
    → includes id (picked batch_size now t.queue) ≡ true
    → later < now + lease_millis
    → includes id (picked more later (claim batch_size lease_millis now owner t).1.queue) ≡ false
unfolding claim
claims_apart batch_size lease_millis now owner t more later id taken early =
    elim (Bool-cases
      (includes id (picked more later (claim batch_size lease_millis now owner t).1.queue))) [
        | inr free ↦ free
        | inl again ↦ absurd (
            ground (
              arith,
              picked-claimable more later (claim batch_size lease_millis now owner t).1.queue id
                  again,
              taken-leased id (picked batch_size now t.queue) owner (now + lease_millis) now later
                  t.queue taken early,
            ))
      ]
