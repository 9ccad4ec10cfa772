-- ===== src/Scheduler/Cron/Next/Earliest.antt =====
-- `_next_cron` against the instants that a cron expression stands for.
use native.Mathlib.Nat.{zero-mod}
use native.Mathlib.Decide.{dec_lt}
use ai_lab_os.Prelude.{
  ℕ, ◌+◌, ◌-◌, ◌*◌, ◌/◌, ◌%◌, ◌≤◌, ◌<◌, ◌≡◌, refl, Bool, true, false, some, String, arith,
  Option-cases, inl, inr,
}
use ai_lab_os.Scheduler.Models.{Instant, aware, minute, hour, day}
use ai_lab_os.Scheduler.Cron.Parse.{cron_steps, cron_steps_bounds}
use ai_lab_os.Scheduler.Cron.Next.{
  end_of_datetime, hour_of, hour_hit, next_match, next_cron, Matches,
}
use ai_lab_os.Scheduler.Cron.Next.Least.{hour_hit_sound, hour_hit_least}

abbrev midnight_of : Instant → Instant
midnight_of now = now - now % day

-- A candidate of a day that begins at a midnight.
candidate-Matches :
    (m h date i j t : ℕ)
    → date % day ≡ 0
    → t ≡ date + i * hour + j * minute
    → i < 24
    → i % h ≡ 0
    → j < 60
    → j % m ≡ 0
    → Matches m h t
candidate-Matches m h date i j t at eq lti oni ltj onj =
    let minutes : t / minute % 60 ≡ j = omega arith in
    let hours : t / hour % 24 ≡ i = omega arith in
    record { on_minute = omega arith; of_minutes = rw minutes onj; of_hours = rw hours oni }

module _ (m h : ℕ) (now : Instant) where
  -- The result of one day, for a date at a midnight.
  hour_hit-Matches :
      (first_day : Bool) (date t : ℕ)
      → date % day ≡ 0
      → hour_hit first_day m h now date ≡ some t
      → Matches m h t × (now < t) × (date ≤ t) × (t < date + day)
  hour_hit-Matches first_day date t at e =
      let (i, j, eq, lti, oni, ltj, onj, later) = hour_hit_sound m now h first_day date t e in
      (candidate-Matches m h date i j t at eq lti oni ltj onj, later, omega arith, omega arith)

  -- If an instant of the day stands for the steps, then that day has a result, and no later one.
  hour_hit_reaches :
      (first_day : Bool) (date u : ℕ)
      → 1 ≤ m
      → 1 ≤ h
      → Matches m h u
      → now < u
      → date % day ≡ 0
      → date ≤ u
      → u < date + day
      → (first_day ≡ true → midnight_of now ≡ date)
      → (t : ℕ) × (hour_hit first_day m h now date ≡ some t) × (t ≤ u)
  unfolding hour_of
  hour_hit_reaches first_day date u posm posh fits later at le lt begun =
      let whole : u ≡ date + (u / hour % 24) * hour + (u / minute % 60) * minute =
        omega (arith, fits.on_minute) in
      let (t, hit, bound) =
        hour_hit_least m now h first_day date (u / hour % 24) (u / minute % 60) posm posh
          (omega arith) fits.of_hours (omega arith) fits.of_minutes
          (λ first. omega (arith, begun first)) (omega arith) in
      (t, hit, omega arith)

  next_match_sound :
      (t : ℕ)
      → next_match m h now ≡ some t
      → Matches m h t × (now < t) × (t < midnight_of now + day + day)
  unfolding next_match
  next_match_sound t e = elim (Option-cases (hour_hit true m h now (midnight_of now))) [
    | inr (a, today) ↦
        let (fits, later, ge, lt) =
          hour_hit-Matches true (midnight_of now) t (omega arith) (ground arith) in
        (fits, later, omega arith)
    | inl over ↦
        let (fits, later, ge, lt) =
          hour_hit-Matches false (midnight_of now + day) t (omega arith) (ground arith) in
        (fits, later, omega arith)
  ]

  next_match_least :
      (t u : ℕ) → 1 ≤ m → 1 ≤ h → next_match m h now ≡ some t → Matches m h u → now < u → t ≤ u
  unfolding next_match
  next_match_least t u posm posh e fits later = elim (dec_lt u (midnight_of now + day)) [
    | yes today ↦
        let (a, hit, le) =
          hour_hit_reaches true (midnight_of now) u posm posh fits later (omega arith) (omega arith)
            today (λ _. refl) in
        ground arith
    | no tomorrow ↦ elim (dec_lt u (midnight_of now + day + day)) [
      | yes lt ↦
          let (a, hit, le) =
            hour_hit_reaches false (midnight_of now + day) u posm posh fits later (omega arith)
              (omega arith) lt (λ e. cc) in
          elim (Option-cases (hour_hit true m h now (midnight_of now))) [
            | inr (b, today) ↦
                omega
                  (arith, hour_hit-Matches true (midnight_of now) t (omega arith) (ground arith))
            | inl over ↦ ground arith
          ]
      | no behind ↦ omega (arith, next_match_sound t e)
    ]
  ]

  next_match_total :
      1 ≤ m
      → 1 ≤ h
      → midnight_of now + day < end_of_datetime
      → (t : ℕ) × (next_match m h now ≡ some t)
  unfolding next_match
  next_match_total posm posh room =
      let u : ℕ = midnight_of now + day in
      let fits : Matches m h u =
        candidate-Matches m h u 0 0 u (omega arith) (omega arith) (omega arith) (zero-mod h)
          (omega arith) (zero-mod m) in
      let (a, hit, le) =
        hour_hit_reaches false u u posm posh fits (omega arith) (omega arith) (omega arith)
          (omega arith) (λ e. cc) in
      elim (Option-cases (hour_hit true m h now (midnight_of now))) [
        | inr (b, today) ↦ (b, ground arith)
        | inl over ↦ (a, ground arith)
      ]

-- For an accepted expression and an aware now: a result of `_next_cron` is after now, it is an
-- instant that the expression stands for, and no such instant lies between now and it.
pub next_cron_earliest :
    (expression : String) (now t : Instant) (m h : ℕ)
    → cron_steps expression ≡ some (m, h)
    → next_cron expression (aware now) ≡ some t
    → (now < t) × Matches m h t × ((u : Instant) → Matches m h u → now < u → t ≤ u)
unfolding next_cron
next_cron_earliest expression now t m h steps e =
    let found : next_match m h now ≡ some t = rw steps at e in
    let (fits, later, bound) = next_match_sound m h now t found in
    let ((posm, _), (posh, _)) = cron_steps_bounds expression m h steps in
    (later, fits, λ u. next_match_least m h now t u posm posh found)

-- For an accepted expression, `_next_cron` has a result whenever the day after that of now is in
-- the range of `datetime`.
pub next_cron_total :
    (expression : String) (now : Instant) (m h : ℕ)
    → cron_steps expression ≡ some (m, h)
    → now - now % day + day < end_of_datetime
    → (t : Instant) × (next_cron expression (aware now) ≡ some t)
unfolding next_cron
next_cron_total expression now m h steps room =
    let ((posm, _), (posh, _)) = cron_steps_bounds expression m h steps in
    let (t, found) = next_match_total m h now posm posh room in (t, rw steps found)
