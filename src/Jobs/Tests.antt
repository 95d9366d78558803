-- ===== src/Jobs/Tests.antt =====
-- Runs of the job queue, and instances of its theorems at concrete inputs.
-- Opens what the runs below compute.
use structure.Jobs.Worker.{
  schedule, Surroundings, execute, failed, transient, is_permanent, dead_letter, exhausted,
  reschedule_retry, backoff_millis,
}
use structure.Jobs.Queue.{
  Tables, QueueRow, claim, picked, owned, ordered, by_run_at, claimable, take_picked, fenced_delete,
  fenced_update,
}
use structure.Prelude.{
  some_of, includes, [], none, ◌≡◌, ok, ◌≢◌, ◌∷◌, true, text_equality, false, arith, ◌||◌, ◌++◌,
  ◌⊎◌, refl, ◌+◌, String, same_apart, ◌/◌, ◌%◌, ◌-◌, ◌*◌, some, ℕ, ◌<◌, nat_equality,
}
use structure.Jobs.Fence.{IsHarmless, evicted_worker-IsHarmless, claims_apart}
use structure.Jobs.Ending.{others, letter, retried, failed_attempt}
use structure.Jobs.Cron.{
  Calendar, CronFields, next_run, days_each, hours_each, minutes_each, day_clock, day_matches,
  instant_from_wall_clock,
}
use structure.Jobs.Fires.{next_run-IsFire, IsInRange, IsSteady}

run : Unit {0}
unfolding schedule claim picked ordered by_run_at claimable take_picked owned execute dead_letter
    fenced_delete fenced_update reschedule_retry backoff_millis
run = tt

abbrev empty : Tables
empty = record { queue = []; dead_letters = [] }

abbrev scheduled : Tables
scheduled = schedule "j" "mail" "{}" none 2 none 100 empty

abbrev started : Tables
started = (claim 10 60 100 "w1" scheduled).1

abbrev row : QueueRow
row = record {
  id = "j";
  job_name = "mail";
  payload = "{}";
  attempt = 1;
  max_attempts = 2;
  cron_expr = none;
  cron_timezone = none;
  correlation_id = none;
  run_at = 100;
  lease_owner = "w1";
}

row_claimed : (claim 10 60 100 "w1" scheduled).0 ≡ row ∷ []
unfolding run
row_claimed = refl

held : some_of (owned row) started.queue ≡ true
unfolding run
held = refl

due_again : includes "j" (picked 10 160 started.queue) ≡ true
unfolding run
due_again = refl

due_first : includes "j" (picked 10 100 scheduled.queue) ≡ true
unfolding run
due_first = refl

abbrev surroundings : Surroundings
surroundings = record {
  next_fire = λ expr zone after. ok none;
  now = 130;
  random = (1, 2);
  fresh_id = "d";
  max_attempts_for = λ name. 5;
}

abbrev rival : String
rival = "w2"

other_worker : rival ≢ row.lease_owner
other_worker = same_apart text_equality rival row.lease_owner refl

evicted_worker-IsHarmless_example : IsHarmless row (claim 10 60 160 rival started).1
evicted_worker-IsHarmless_example =
    evicted_worker-IsHarmless row 10 60 160 rival started due_again other_worker

claims_apart_example : includes "j" (picked 10 150 (claim 10 60 100 "w1" scheduled).1.queue) ≡ false
claims_apart_example = claims_apart 10 60 100 "w1" scheduled 10 150 "j" due_first (omega arith)

failed_attempt_example :
    (after : Tables) × ((execute surroundings row (failed "smtp" transient) started ≡ ok after)
      × ((others "j" after.queue ≡ others "j" started.queue)
          × ((((is_permanent transient || exhausted surroundings row) ≡ true)
                × ((after.dead_letters ≡ started.dead_letters ++ letter row "smtp" 130 "d" ∷ [])
                    × (some_of (owned row) after.queue ≡ false)))
              ⊎ (((is_permanent transient || exhausted surroundings row) ≡ false)
                  × ((after.dead_letters ≡ started.dead_letters)
                      × (some_of (retried row (130 + backoff_millis 1 1 2)) after.queue ≡ true))))))
failed_attempt_example = failed_attempt surroundings row "smtp" transient started held

-- The month of January, an hour ahead of UTC.
abbrev january : Calendar
january = record {
  wall_clock_of = λ t. record {
    year = 2026;
    month = 1;
    day = (t + 3600000) / 86400000 + 1;
    hour = (t + 3600000) / 3600000 % 24;
    minute = (t + 3600000) / 60000 % 60;
    weekday = ((t + 3600000) / 86400000 + 4) % 7;
  };
  utc = λ clock. (clock.day - 1) * 86400000 + clock.hour * 3600000 + clock.minute * 60000;
}

january_ahead :
    (days hour minute : ℕ)
    → hour < 24
    → minute < 60
    → ((days * 86400000 + hour * 3600000 + minute * 60000 + 3600000) / 86400000 + 1 - 1) * 86400000
        + (days * 86400000 + hour * 3600000 + minute * 60000 + 3600000) / 3600000 % 24 * 3600000
        + (days * 86400000 + hour * 3600000 + minute * 60000 + 3600000) / 60000 % 60 * 60000
        + 0
      ≡ days * 86400000 + hour * 3600000 + minute * 60000 + 3600000
january_ahead days hour minute h m = omega arith

shown_then :
    (days hour minute x : ℕ)
    → hour < 24
    → minute < 60
    → x ≡ (days + 1 - 1) * 86400000 + hour * 3600000 + minute * 60000 + 0
    → (x / 86400000 ≡ days) × ((x / 3600000 % 24 ≡ hour) × (x / 60000 % 60 ≡ minute))
shown_then days hour minute x h m e = (omega arith, (omega arith, omega arith))

january_shows :
    (days hour minute t : ℕ)
    → hour < 24
    → minute < 60
    → t + 3600000 ≡ (days + 1 - 1) * 86400000 + hour * 3600000 + minute * 60000 + 0
    → january.wall_clock_of t ≡ record {
      year = 2026;
      month = 1;
      day = days + 1;
      hour = hour;
      minute = minute;
      weekday = (days + 4) % 7;
    }
january_shows days hour minute t h m e =
    let (same_day, (same_hour, same_minute)) = shown_then days hour minute (t + 3600000) h m e in
    rw (same_day, same_hour, same_minute) refl

january-IsSteady : (after : ℕ) → IsSteady january after 3600000 0
unfolding day_clock
january-IsSteady after = record {
  ahead = λ offset hour minute h m.
      january_ahead ((day_clock january after offset).day - 1) hour minute h m;
  shows = λ offset hour minute t h m e.
      january_shows
        ((instant_from_wall_clock january
              (record (january.wall_clock_of after) { hour = 0; minute = 0 })
            + offset * 86400000
            + 3600000)
          / 86400000)
        hour minute t h m e;
}

-- 9:30 on Mondays
abbrev mondays : CronFields
mondays = record {
  minutes = 30 ∷ [];
  hours = 9 ∷ [];
  days_of_month = [];
  months = 1 ∷ [];
  days_of_week = 1 ∷ [];
  dom_restricted = false;
  dow_restricted = true;
}

mondays-IsInRange : IsInRange mondays
mondays-IsInRange = record { hours = λ hour h. ground arith; minutes = λ minute h. ground arith }

next_monday : next_run january 1000 mondays ≡ some 376200000
unfolding next_run days_each hours_each minutes_each day_clock day_matches instant_from_wall_clock
next_monday = refl

next_run-IsFire_example :
    (1000 < 376200000)
    × ((includes (january.wall_clock_of 376200000).hour mondays.hours ≡ true)
        × ((includes (january.wall_clock_of 376200000).minute mondays.minutes ≡ true)
            × (day_matches (january.wall_clock_of 376200000) mondays ≡ true)))
next_run-IsFire_example =
    next_run-IsFire january 1000 3600000 0 mondays 376200000 (january-IsSteady 1000)
      mondays-IsInRange next_monday
