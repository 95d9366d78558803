-- ===== src/Jobs/Queue.antt =====
-- The queue table of packages/jobs/src/scheduler.ts: its rows, the claim, and the fenced writes. A
-- statement is a function on the table; instants are milliseconds.
use structure.Prelude.{
  String, ℕ, List, Bool, Option, false, if◌then◌else◌, ◌∷◌, map, ◌+◌, ◌==◌, some_of, true, leb,
  take, some, includes, ◌&&◌, filter, [], none, not, text_equality, option_equality,
}

pub data JobStatus : Type 0 where
  queued : JobStatus
  running : JobStatus

-- A row of the queue table.
pub record Job : Type 0 where
  pub id : String
  pub job_name : String
  pub payload : String
  pub status : JobStatus
  pub run_at : ℕ
  pub attempt : ℕ
  pub max_attempts : ℕ
  pub cron_expr : Option String
  pub cron_timezone : Option String
  pub correlation_id : Option String
  pub lease_expires_at : Option ℕ
  pub lease_owner : Option String
  pub last_error : Option String
  pub updated_at : ℕ

-- What a claim returns of a row.
pub record QueueRow : Type 0 where
  pub id : String
  pub job_name : String
  pub payload : String
  pub attempt : ℕ
  pub max_attempts : ℕ
  pub cron_expr : Option String
  pub cron_timezone : Option String
  pub correlation_id : Option String
  pub run_at : ℕ
  pub lease_owner : String

pub record DeadLetter : Type 0 where
  pub id : String
  pub job_name : String
  pub payload : String
  pub attempts : ℕ
  pub last_error : String
  pub correlation_id : Option String
  pub dead_at : ℕ

pub record Tables : Type 0 where
  pub queue : List Job
  pub dead_letters : List DeadLetter

abbrev pub is_running : JobStatus → Bool
is_running queued = false
is_running running = true

-- `status = 'queued' AND run_at <= now OR status = 'running' AND lease_expires_at <= now`
unfoldable pub claimable : ℕ → Job → Bool
claimable now job =
    if is_running job.status
    then elim job.lease_expires_at [ none ↦ false | some at ↦ leb at now ]
    else leb job.run_at now

-- `ORDER BY run_at`
unfoldable pub by_run_at : Job → List Job → List Job
by_run_at job [] = job ∷ []
by_run_at job (first ∷ jobs) =
    if leb job.run_at first.run_at then job ∷ first ∷ jobs else first ∷ by_run_at job jobs

unfoldable pub ordered : List Job → List Job
ordered [] = []
ordered (job ∷ jobs) = by_run_at job (ordered jobs)

unfoldable pub picked : ℕ → ℕ → List Job → List String
picked batch_size now jobs =
    map (λ j. j.id) (take batch_size (ordered (filter (claimable now) jobs)))

abbrev pub taken_by : String → ℕ → ℕ → Job → Job
taken_by owner lease_until now job = record job {
  status = running;
  attempt = job.attempt + 1;
  lease_expires_at = some lease_until;
  lease_owner = some owner;
  updated_at = now;
}

abbrev row_of : String → Job → QueueRow
row_of owner job = record {
  id = job.id;
  job_name = job.job_name;
  payload = job.payload;
  attempt = job.attempt;
  max_attempts = job.max_attempts;
  cron_expr = job.cron_expr;
  cron_timezone = job.cron_timezone;
  correlation_id = job.correlation_id;
  run_at = job.run_at;
  lease_owner = owner;
}

-- `UPDATE … FROM picked WHERE queue.id = picked.id RETURNING …`
unfoldable pub take_picked : List String → (Job → Job) → List Job → List Job × List Job
take_picked ids write [] = ([], [])
take_picked ids write (job ∷ jobs) =
    let (returned, rest) = take_picked ids write jobs in
    if includes job.id ids then (write job ∷ returned, write job ∷ rest) else (returned, job ∷ rest)

-- `claim`, under the token `owner` that the call mints.
unfoldable pub claim : ℕ → ℕ → ℕ → String → Tables → List QueueRow × Tables
claim batch_size lease_millis now owner t =
    let (returned, queue) =
      take_picked (picked batch_size now t.queue) (taken_by owner (now + lease_millis) now)
        t.queue in
    (map (row_of owner) returned, record t { queue = queue })

-- `WHERE id = … AND status = 'running' AND lease_owner = …`, the fence of every write of a worker
unfoldable pub owned : QueueRow → Job → Bool
owned row job =
    job.id == row.id && (is_running job.status && job.lease_owner == some row.lease_owner)

unfoldable pub fenced_delete : QueueRow → List Job → Bool × List Job
fenced_delete row jobs = (some_of (owned row) jobs, filter (λ job. not (owned row job)) jobs)

unfoldable pub fenced_update : QueueRow → (Job → Job) → List Job → Bool × List Job
fenced_update row write jobs =
    (some_of (owned row) jobs, map (λ job. if owned row job then write job else job) jobs)
