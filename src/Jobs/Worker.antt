-- ===== src/Jobs/Worker.antt =====
-- What a worker and a scheduling site do to the queue (packages/jobs/src/scheduler.ts). The log
-- lines and the metrics are left out.
use structure.Prelude.{
  String, ℕ, Bool, List, min, Result, Option, leb, false, ◌∷◌, filter, length, ◌*◌, if◌then◌else◌,
  ◌+◌, err, ok, true, some, ◌++◌, not, [], ◌^◌, none, or_else, nat_same, append_text, ◌==◌, ◌-◌,
  max, ◌||◌, text_equality, ◌/◌, some_of, map, ◌&&◌, clip,
}
use structure.Jobs.Queue.{QueueRow, Tables, fenced_delete, Job, fenced_update, queued, is_running}

pub data Classification : Type 0 where
  transient : Classification
  permanent : Classification

-- How the attempt at a row ended.
pub data Attempt : Type 0 where
  unregistered : Attempt
  invalid_payload : String → Attempt
  succeeded : Attempt
  failed : String → Classification → Attempt

abbrev pub base_millis : ℕ
base_millis = 1000

abbrev pub cap_millis : ℕ
cap_millis = 300000

-- `Math.round(exponential * (0.5 + random()))`, for a random number r / d.
unfoldable pub backoff_millis : ℕ → ℕ → ℕ → ℕ
backoff_millis attempt r d =
    let exponential = min (base_millis * 2 ^ (attempt - 1)) cap_millis in
    (exponential * (d + 2 * r) + d) / (2 * d)

-- How much of an error text is stored.
abbrev pub error_units : ℕ
error_units = 2048

-- The delete and the insert are one transaction.
unfoldable pub dead_letter : QueueRow → String → ℕ → String → Tables → Tables
dead_letter row reason now dead_id t =
    let (fenced, queue) = fenced_delete row t.queue in
    if fenced
    then record {
      queue = queue;
      dead_letters =
          t.dead_letters
          ++ (record {
            id = dead_id;
            job_name = row.job_name;
            payload = row.payload;
            attempts = row.attempt;
            last_error = clip error_units reason;
            correlation_id = row.correlation_id;
            dead_at = now;
          })
            ∷ [];
    }
    else t

abbrev pub requeued : ℕ → ℕ → Job → Job
requeued run_at now job = record job {
  status = queued;
  run_at = run_at;
  lease_expires_at = none;
  lease_owner = none;
  updated_at = now;
}

unfoldable pub reschedule_retry : QueueRow → String → ℕ → ℕ → Tables → Tables
reschedule_retry row reason backoff now t = record t {
  queue =
      (fenced_update row
        (λ job. record (requeued (now + backoff) now job) {
          last_error = some (clip error_units reason);
        })
        t.queue).1;
}

-- The next fire of a cron expression in a timezone, strictly after an instant: an invalid
-- expression, none, or the instant.
abbrev pub NextFire : Type 0
NextFire = String → String → ℕ → Result String (Option ℕ)

abbrev pub fire_again : QueueRow → ℕ → Result String (Option ℕ) → Tables → Result String Tables
fire_again row now (err problem) t = err problem
fire_again row now (ok none) t = ok (record t { queue = (fenced_delete row t.queue).1 })
fire_again row now (ok (some at)) t = ok (record t {
  queue = (fenced_update row (λ job. record (requeued at now job) { attempt = 0 }) t.queue).1;
})

abbrev pub complete_cron : NextFire → QueueRow → ℕ → Option String → Tables → Result String Tables
complete_cron next_fire row now none t = ok (record t { queue = (fenced_delete row t.queue).1 })
complete_cron next_fire row now (some expr) t =
    fire_again row now (next_fire expr (or_else row.cron_timezone "UTC") (max row.run_at now)) t

unfoldable pub complete_success : NextFire → QueueRow → ℕ → Tables → Result String Tables
complete_success next_fire row now t = complete_cron next_fire row now row.cron_expr t

-- What happens outside the table at the end of an attempt: the clock, the random number r / d, a
-- fresh id, and the handler's default number of attempts.
pub record Surroundings : Type 0 where
  pub next_fire : NextFire
  pub now : ℕ
  pub random : ℕ × ℕ
  pub fresh_id : String
  pub max_attempts_for : String → ℕ

-- `row.attempt >= (row.max_attempts || maxAttemptsFor(row.job_name))`
abbrev pub exhausted : Surroundings → QueueRow → Bool
exhausted e row =
    leb (if nat_same row.max_attempts 0 then e.max_attempts_for row.job_name else row.max_attempts)
      row.attempt

abbrev pub is_permanent : Classification → Bool
is_permanent transient = false
is_permanent permanent = true

-- `execute`, once the attempt has ended.
unfoldable pub execute : Surroundings → QueueRow → Attempt → Tables → Result String Tables
execute e row unregistered t = ok (dead_letter row "unknown-job" e.now e.fresh_id t)
execute e row (invalid_payload problem) t =
    ok (dead_letter row (append_text "invalid-payload: " problem) e.now e.fresh_id t)
execute e row succeeded t = complete_success e.next_fire row e.now t
execute e row (failed reason classification) t =
    if is_permanent classification || exhausted e row
    then ok (dead_letter row reason e.now e.fresh_id t)
    else ok (reschedule_retry row reason (backoff_millis row.attempt e.random.0 e.random.1) e.now t)

unfoldable pub heartbeat : QueueRow → ℕ → ℕ → Tables → Tables
heartbeat row lease_millis now t = record t {
  queue =
      (fenced_update row (λ job. record job { lease_expires_at = some (now + lease_millis) })
        t.queue).1;
}

-- A drain that gave up: every job in flight goes back to the queue.
unfoldable pub abandon_drain : List QueueRow → ℕ → Tables → Tables
abandon_drain [] now t = t
abandon_drain (row ∷ rows) now t =
    abandon_drain rows now (record t { queue = (fenced_update row (requeued now now) t.queue).1 })

abbrev new_job : String → String → String → ℕ → ℕ → Option String → ℕ → Job
new_job id job_name payload run_at max_attempts correlation_id now = record {
  id = id;
  job_name = job_name;
  payload = payload;
  status = queued;
  run_at = run_at;
  attempt = 0;
  max_attempts = max_attempts;
  cron_expr = none;
  cron_timezone = none;
  correlation_id = correlation_id;
  lease_expires_at = none;
  lease_owner = none;
  last_error = none;
  updated_at = now;
}

-- `schedule`, of an encoded payload, under a fresh id.
unfoldable pub schedule :
    String → String → String → Option ℕ → ℕ → Option String → ℕ → Tables → Tables
schedule id job_name payload delay max_attempts correlation_id now t = record t {
  queue =
      t.queue
      ++ new_job id job_name payload (now + or_else delay 0) max_attempts correlation_id now ∷ [];
}

-- `recur`, of an encoded payload, once the first fire is known. On a conflict the name and the number
-- of attempts stay.
unfoldable pub recur :
    String → String → String → String → String → ℕ → ℕ → Option String → ℕ → Tables → Tables
recur id job_name payload cron timezone first max_attempts correlation_id now t =
    if some_of (λ job. job.id == id) t.queue
    then record t {
      queue =
          map
            (λ job.
              if job.id == id
              then record job {
                payload = payload;
                run_at = first;
                cron_expr = some cron;
                cron_timezone = some timezone;
                status = queued;
                attempt = 0;
                lease_expires_at = none;
                correlation_id = correlation_id;
                updated_at = now;
              }
              else job)
            t.queue;
    }
    else record t {
      queue =
          t.queue
          ++ (record (new_job id job_name payload first max_attempts correlation_id now) {
            cron_expr = some cron;
            cron_timezone = some timezone;
          })
            ∷ [];
    }

unfoldable pub cancel : String → Tables → Tables
cancel id t = record t { queue = filter (λ job. not (job.id == id)) t.queue }

abbrev pub depth : Tables → ℕ
depth t = length t.queue

-- The least `run_at` of the queued jobs that are due.
unfoldable pub oldest_due : ℕ → List Job → Option ℕ
oldest_due now [] = none
oldest_due now (job ∷ jobs) =
    if not (is_running job.status) && leb job.run_at now
    then some (elim (oldest_due now jobs) [ none ↦ job.run_at | some at ↦ min job.run_at at ])
    else oldest_due now jobs

abbrev pub lag_millis : ℕ → Tables → ℕ
lag_millis now t = elim (oldest_due now t.queue) [ none ↦ 0 | some at ↦ now - at ]
