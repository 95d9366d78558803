-- ===== src/Jobs/Ending.antt =====
-- About the end of a failed attempt (`execute` of packages/jobs/src/scheduler.ts).
use structure.Prelude.{
  clip, String, List, ℕ, filter, ◌≡◌, Bool, some_of, not, true, ◌∷◌, ◌==◌, false, refl, arith,
  Bool-cases, ◌&&◌, text_equality, inl, some, inr, nat_same, nat_same_iff, ap, ok, [],
  if◌then◌else◌, ◌||◌, ◌++◌, ◌⊎◌, ◌+◌, ◌∙◌,
}
use structure.Jobs.Queue.{
  owned, fenced_delete, fenced_update, QueueRow, Job, DeadLetter, is_running, Tables,
}
use structure.Jobs.Worker.{
  execute, dead_letter, reschedule_retry, Surroundings, requeued, Classification, failed,
  is_permanent, exhausted, backoff_millis, error_units,
}

abbrev pub others : String → List Job → List Job
others id jobs = filter (λ job. not (job.id == id)) jobs

owned-id : (row : QueueRow) (job : Job) → owned row job ≡ true → (job.id == row.id) ≡ true
unfolding owned
owned-id row job h = ground arith

delete-others :
    (row : QueueRow) (jobs : List Job)
    → others row.id (fenced_delete row jobs).1 ≡ others row.id jobs
unfolding fenced_delete
delete-others row [] = refl
delete-others row (job ∷ jobs) = elim (Bool-cases (owned row job)) [
  | inl mine ↦ rw (mine, owned-id row job mine) (delete-others row jobs)
  | inr foreign ↦
      rw foreign
        (ap (λ js. if not (job.id == row.id) then job ∷ js else js) (delete-others row jobs))
]

update-others :
    (row : QueueRow) (write : Job → Job)
    → ((job : Job) → (write job).id ≡ job.id)
    → (jobs : List Job) → others row.id (fenced_update row write jobs).1 ≡ others row.id jobs
unfolding fenced_update
update-others row write keeps [] = refl
update-others row write keeps (job ∷ jobs) = elim (Bool-cases (owned row job)) [
  | inl mine ↦ rw (mine, keeps job, owned-id row job mine) (update-others row write keeps jobs)
  | inr foreign ↦ rw foreign (
      ap (λ js. if not (job.id == row.id) then job ∷ js else js)
        (update-others row write keeps jobs))
]

-- A job as `rescheduleRetry` leaves it: queued, and due after the backoff.
abbrev pub retried : QueueRow → ℕ → Job → Bool
retried row run_at job =
    job.id == row.id && (not (is_running job.status) && nat_same job.run_at run_at)

update-retried :
    (row : QueueRow) (reason : String) (run_at now : ℕ) (jobs : List Job)
    → some_of (owned row) jobs ≡ true
    → some_of
        (retried row run_at)
        (fenced_update row
          (λ job. record (requeued run_at now job) { last_error = some reason })
          jobs).1
      ≡ true
unfolding fenced_update
update-retried row reason run_at now [] h = absurd (cc)
update-retried row reason run_at now (job ∷ jobs) h = elim (Bool-cases (owned row job)) [
  | inl mine ↦ rw (mine, owned-id row job mine) (ground (arith, nat_same_iff run_at run_at))
  | inr foreign ↦ rw foreign (ground (arith, update-retried row reason run_at now jobs))
]

delete-gone :
    (row : QueueRow) (jobs : List Job) → some_of (owned row) (fenced_delete row jobs).1 ≡ false
unfolding fenced_delete
delete-gone row [] = refl
delete-gone row (job ∷ jobs) = elim (Bool-cases (owned row job)) [
  | inl mine ↦ rw mine (delete-gone row jobs)
  | inr foreign ↦ rw (foreign, foreign) (delete-gone row jobs)
]

fenced_delete-fenced :
    (row : QueueRow) (jobs : List Job) → (fenced_delete row jobs).0 ≡ some_of (owned row) jobs
unfolding fenced_delete
fenced_delete-fenced row jobs = refl

abbrev pub letter : QueueRow → String → ℕ → String → DeadLetter
letter row reason now dead_id = record {
  id = dead_id;
  job_name = row.job_name;
  payload = row.payload;
  attempts = row.attempt;
  last_error = clip error_units reason;
  correlation_id = row.correlation_id;
  dead_at = now;
}

-- A failed attempt of a worker that still holds its lease never loses the job. A permanent failure,
-- or one of the last attempt, moves it from the queue to the dead letters, one letter with its name,
-- its payload, its attempts, and the first 2,048 UTF-16 units of the reason; any other failure leaves
-- it in the queue, due after the backoff, and files nothing. Every other job is left as it was.
pub failed_attempt :
    (e : Surroundings) (row : QueueRow) (reason : String) (classification : Classification)
    (t : Tables)
    → some_of (owned row) t.queue ≡ true
    → (after : Tables) × ((execute e row (failed reason classification) t ≡ ok after)
        × ((others row.id after.queue ≡ others row.id t.queue)
            × ((((is_permanent classification || exhausted e row) ≡ true)
                  × ((after.dead_letters
                        ≡ t.dead_letters ++ letter row reason e.now e.fresh_id ∷ [])
                      × (some_of (owned row) after.queue ≡ false)))
                ⊎ (((is_permanent classification || exhausted e row) ≡ false)
                    × ((after.dead_letters ≡ t.dead_letters)
                        × (some_of
                              (retried row
                                (e.now + backoff_millis row.attempt e.random.0 e.random.1))
                              after.queue
                            ≡ true))))))
unfolding execute dead_letter reschedule_retry
failed_attempt e row reason classification t mine =
    elim (Bool-cases (is_permanent classification || exhausted e row)) [
      | inl done ↦ (
        record {
          queue = (fenced_delete row t.queue).1;
          dead_letters = t.dead_letters ++ letter row reason e.now e.fresh_id ∷ [];
        },
        (
          rw (done, fenced_delete-fenced row t.queue ∙ mine) refl,
          (delete-others row t.queue, inl (done, (refl, delete-gone row t.queue))),
        ),
      )
      | inr again ↦ (
        record t {
          queue =
              (fenced_update row
                (λ job.
                  record (requeued (e.now + backoff_millis row.attempt e.random.0 e.random.1) e.now
                    job) { last_error = some (clip error_units reason) })
                t.queue).1;
        },
        (
          rw again refl,
          (
            update-others row
                (λ job.
                  record (requeued (e.now + backoff_millis row.attempt e.random.0 e.random.1) e.now
                    job) { last_error = some (clip error_units reason) })
                (λ job. refl) t.queue,
            inr (
              again,
              (
                refl,
                update-retried row (clip error_units reason)
                    (e.now + backoff_millis row.attempt e.random.0 e.random.1) e.now t.queue mine,
              ),
            ),
          ),
        ),
      )
    ]
