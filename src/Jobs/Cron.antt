-- ===== src/Jobs/Cron.antt =====
-- `dayMatches` and `nextRun` of packages/jobs/src/cron.ts. The wall clock that Intl shows for an
-- instant, and `Date.UTC`, are the record Calendar, an argument; instants are milliseconds.
use structure.Prelude.{
  ℕ, List, Bool, Option, ◌+◌, includes, none, some, ◌-◌, if◌then◌else◌, ◌∷◌, ◌*◌, suc, not, ltb, [],
  zero, false, ◌&&◌, ◌||◌, true, nat_equality,
}

pub record CronFields : Type 0 where
  pub minutes : List ℕ
  pub hours : List ℕ
  pub days_of_month : List ℕ
  pub months : List ℕ
  pub days_of_week : List ℕ
  pub dom_restricted : Bool
  pub dow_restricted : Bool

pub record WallClock : Type 0 where
  pub year : ℕ
  pub month : ℕ
  pub day : ℕ
  pub hour : ℕ
  pub minute : ℕ
  pub weekday : ℕ

pub record Calendar : Type 0 where
  pub wall_clock_of : ℕ → WallClock
  pub utc : WallClock → ℕ

-- `guess - offset`, for an offset of `wallAsUtc - guess`
unfoldable pub instant_from_wall_clock : Calendar → WallClock → ℕ
instant_from_wall_clock cal clock =
    let guess = cal.utc clock in
    let wall_as_utc = cal.utc (cal.wall_clock_of guess) in guess + guess - wall_as_utc

unfoldable pub day_matches : WallClock → CronFields → Bool
day_matches clock fields =
    let dom_ok = includes clock.day fields.days_of_month in
    let dow_ok = includes clock.weekday fields.days_of_week in
    if not (includes clock.month fields.months)
    then false
    else if fields.dom_restricted && fields.dow_restricted
    then dom_ok || dow_ok
    else if fields.dom_restricted
    then dom_ok
    else if fields.dow_restricted
    then dow_ok
    else true

abbrev pub candidate : Calendar → WallClock → ℕ → ℕ → ℕ
candidate cal day hour minute =
    instant_from_wall_clock cal (record day { hour = hour; minute = minute })

-- The loops of `nextRun` over the minutes, the hours and the days that are left.
unfoldable pub minutes_each : Calendar → ℕ → WallClock → ℕ → List ℕ → Option ℕ
minutes_each cal after day hour [] = none
minutes_each cal after day hour (minute ∷ minutes) =
    if ltb after (candidate cal day hour minute)
    then some (candidate cal day hour minute)
    else minutes_each cal after day hour minutes

abbrev pub or_next : Option ℕ → Option ℕ → Option ℕ
or_next none later = later
or_next (some found) later = some found

unfoldable pub hours_each : Calendar → ℕ → WallClock → List ℕ → List ℕ → Option ℕ
hours_each cal after day minutes [] = none
hours_each cal after day minutes (hour ∷ hours) =
    or_next (minutes_each cal after day hour minutes) (hours_each cal after day minutes hours)

-- The wall clock of the day that is `offset` days after that of `after`.
unfoldable pub day_clock : Calendar → ℕ → ℕ → WallClock
day_clock cal after offset = cal.wall_clock_of (
    instant_from_wall_clock cal (record (cal.wall_clock_of after) { hour = 0; minute = 0 })
    + offset * 86400000)

unfoldable pub days_each : ℕ → Calendar → ℕ → CronFields → ℕ → Option ℕ
days_each zero cal after fields offset = none
days_each (suc left) cal after fields offset =
    let day = day_clock cal after offset in
    let later = days_each left cal after fields (offset + 1) in
    if day_matches day fields
    then or_next (hours_each cal after day fields.minutes fields.hours) later
    else later

abbrev pub search_limit_days : ℕ
search_limit_days = 400

unfoldable pub next_run : Calendar → ℕ → CronFields → Option ℕ
next_run cal after fields = days_each (search_limit_days + 1) cal after fields 0
