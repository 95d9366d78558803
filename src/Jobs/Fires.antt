-- ===== src/Jobs/Fires.antt =====
-- About what `nextRun` finds.
use structure.Jobs.Cron.{
  Calendar, minutes_each, WallClock, candidate, hours_each, CronFields, day_matches, days_each,
  day_clock, or_next, next_run, search_limit_days, instant_from_wall_clock,
}
use structure.Prelude.{
  ℕ, List, ◌≡◌, some, includes, true, ◌<◌, ◌∷◌, Bool-cases, ltb, inl, same_refl, nat_equality,
  arith, inr, [], refl, Option-cases, ◌∙◌, ◌+◌, sym, suc, ap, subst, zero, ◌-◌,
}

shift : (offset left : ℕ) → offset + 1 + left ≡ offset + suc left
shift offset left = omega arith

module _ (cal : Calendar) (after : ℕ) where
  -- An instant of the hour's minutes, after `after`.
  minutes_each-found :
      (day : WallClock) (hour : ℕ) (minutes : List ℕ) (t : ℕ)
      → minutes_each cal after day hour minutes ≡ some t
      → (minute : ℕ) × ((includes minute minutes ≡ true)
          × ((t ≡ candidate cal day hour minute) × (after < t)))
  unfolding minutes_each
  minutes_each-found day hour [] t h = absurd (cc)
  minutes_each-found day hour (m ∷ minutes) t h =
      elim (Bool-cases (ltb after (candidate cal day hour m))) [
        | inl later ↦ (
          m,
          (
            rw (same_refl nat_equality m) refl,
            (ground (arith, later, h), ground (arith, later, h)),
          ),
        )
        | inr past ↦
            let (minute, facts) = minutes_each-found day hour minutes t (ground (arith, past, h)) in
            (minute, (ground (arith, facts.0), facts.1))
      ]

  hours_each-found :
      (day : WallClock) (minutes hours : List ℕ) (t : ℕ)
      → hours_each cal after day minutes hours ≡ some t
      → (hour : ℕ) × ((minute : ℕ) × ((includes hour hours ≡ true)
            × ((includes minute minutes ≡ true)
                × ((t ≡ candidate cal day hour minute) × (after < t)))))
  unfolding hours_each
  hours_each-found day minutes [] t h = absurd (cc)
  hours_each-found day minutes (hour ∷ hours) t h =
      elim (Option-cases (minutes_each cal after day hour minutes)) [
        | inr (found, e) ↦
            let (minute, facts) =
              minutes_each-found day hour minutes t
                (e ∙ sym (ap (λ o. or_next o (hours_each cal after day minutes hours)) e) ∙ h) in
            (hour, (minute, (rw (same_refl nat_equality hour) refl, facts)))
        | inl missing ↦
            let (later, rest) =
              hours_each-found day minutes hours t
                (sym (ap (λ o. or_next o (hours_each cal after day minutes hours)) missing) ∙ h) in
            (later, (rest.0, (ground (arith, rest.1.0), rest.1.1)))
      ]

  module _ (fields : CronFields) where
    -- A candidate of the search: a minute of the fields, on a matching day at most so many days on, after `after`.
    abbrev IsCandidate : ℕ → ℕ → Type 0
    IsCandidate limit t =
        (offset : ℕ) × ((hour : ℕ) × ((minute : ℕ) × ((offset < limit)
              × ((day_matches (day_clock cal after offset) fields ≡ true)
                  × ((includes hour fields.hours ≡ true)
                      × ((includes minute fields.minutes ≡ true)
                          × ((t ≡ candidate cal (day_clock cal after offset) hour minute)
                              × (after < t))))))))

    days_each-found :
        (left offset t : ℕ)
        → days_each left cal after fields offset ≡ some t
        → IsCandidate (offset + left) t
    unfolding days_each
    days_each-found zero offset t h = absurd (cc)
    days_each-found (suc left) offset t h =
        let later = (λ (g : days_each left cal after fields (offset + 1) ≡ some t).
          subst (λ n. IsCandidate n t) (shift offset left)
            (days_each-found left (offset + 1) t g)) in
        elim (Bool-cases (day_matches (day_clock cal after offset) fields)) [
          | inr unmatched ↦ later (rw unmatched at h)
          | inl matched ↦
              elim (Option-cases
                (hours_each cal after (day_clock cal after offset) fields.minutes fields.hours)) [
                  | inl missing ↦ later (rw (matched, missing) at h)
                  | inr (found, e) ↦
                      let (hour, more) =
                        hours_each-found (day_clock cal after offset) fields.minutes fields.hours t
                          (e ∙ (rw (matched, e) at h)) in
                      (
                        offset,
                        (
                          hour,
                          (more.0, (omega arith, (matched, (more.1.0, (more.1.1.0, more.1.1.1))))),
                        ),
                      )
                ]
        ]

    next_run-found : (t : ℕ) → next_run cal after fields ≡ some t → IsCandidate 401 t
    unfolding next_run
    next_run-found t h =
        subst (λ n. IsCandidate n t) (omega arith) (days_each-found (search_limit_days + 1) 0 t h)

-- A wall clock at another hour and minute of its day.
abbrev pub at_time : WallClock → ℕ → ℕ → WallClock
at_time day hour minute = record day { hour = hour; minute = minute }

-- The timezone is `east - west` milliseconds ahead of UTC, all through the days that a search looks
-- at: the wall clock that stands at a time of such a day is that far ahead, and shows the time.
pub record IsSteady (cal : Calendar) (after east west : ℕ) : Type 0 where
  pub ahead :
      (offset hour minute : ℕ)
      → hour < 24
      → minute < 60
      → cal.utc (cal.wall_clock_of (cal.utc (at_time (day_clock cal after offset) hour minute)))
          + west
        ≡ cal.utc (at_time (day_clock cal after offset) hour minute) + east
  pub shows :
      (offset hour minute t : ℕ)
      → hour < 24
      → minute < 60
      → t + east ≡ cal.utc (at_time (day_clock cal after offset) hour minute) + west
      → cal.wall_clock_of t ≡ at_time (day_clock cal after offset) hour minute

-- The lists of a parsed expression: its hours and its minutes are such.
pub record IsInRange (fields : CronFields) : Type 0 where
  pub hours : (hour : ℕ) → includes hour fields.hours ≡ true → hour < 24
  pub minutes : (minute : ℕ) → includes minute fields.minutes ≡ true → minute < 60

-- The instant of a candidate is as far behind UTC as the timezone is ahead.
candidate-ahead :
    (guess shown east west after t : ℕ)
    → shown + west ≡ guess + east
    → t ≡ guess + guess - shown
    → after < t
    → t + east ≡ guess + west
candidate-ahead guess shown east west after t e is later = omega arith

pub next_run-IsFire :
    (cal : Calendar) (after east west : ℕ) (fields : CronFields) (t : ℕ)
    → IsSteady cal after east west
    → IsInRange fields
    → next_run cal after fields ≡ some t
    → (after < t)
      × ((includes (cal.wall_clock_of t).hour fields.hours ≡ true)
          × ((includes (cal.wall_clock_of t).minute fields.minutes ≡ true)
              × (day_matches (cal.wall_clock_of t) fields ≡ true)))
unfolding day_matches instant_from_wall_clock
next_run-IsFire cal after east west fields t steady range h =
    let (offset, (hour, (minute, (near, (day, (in_hours, (in_minutes, (is, later)))))))) =
      next_run-found cal after fields t h in
    let guess = cal.utc (at_time (day_clock cal after offset) hour minute) in
    let shown : cal.wall_clock_of t ≡ at_time (day_clock cal after offset) hour minute =
      steady.shows offset hour minute t (range.hours hour in_hours)
        (range.minutes minute in_minutes)
        (candidate-ahead guess (cal.utc (cal.wall_clock_of guess)) east west after t
          (steady.ahead offset hour minute (range.hours hour in_hours)
            (range.minutes minute in_minutes))
          is later) in
    rw shown (later, (in_hours, (in_minutes, day)))
