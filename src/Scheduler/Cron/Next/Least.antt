-- ===== src/Scheduler/Cron/Next/Least.antt =====
-- What the two inner loops of `_next_cron` return: the least candidate of one day after now.
use native.Mathlib.Nat.{zero-mod}
use native.Mathlib.Decide.{dec_lt}
use ai_lab_os.Prelude.{ℕ, ◌+◌, ◌*◌, ◌%◌, ◌≤◌, ◌<◌, ◌≡◌, Bool, true, some, arith}
use ai_lab_os.Scheduler.Models.{Instant, minute, hour}
use ai_lab_os.Scheduler.Cron.Scan.{first_hit_sound, first_hit_least}
use ai_lab_os.Scheduler.Cron.Next.{minute_body, minute_hit, hour_of, hour_body, hour_hit}

module _ (minute_step : ℕ) (now : Instant) where
  -- What the minute loop returns is a candidate of the hour, after now.
  minute_hit_sound :
      (base t : ℕ)
      → minute_hit minute_step now base ≡ some t
      → (m : ℕ) × (t ≡ base + m * minute) × (m < 60) × (m % minute_step ≡ 0) × (now < t)
  unfolding minute_hit
  minute_hit_sound base t h =
      let (m, hit, lt, on) =
        first_hit_sound minute_step 60 (minute_body now base) 60 0 t (zero-mod minute_step) h in
      (m, ground arith, lt, on, ground arith)

  minute_hit_least :
      (base m : ℕ)
      → 1 ≤ minute_step
      → m < 60
      → m % minute_step ≡ 0
      → now < base + m * minute
      → (t : ℕ) × (minute_hit minute_step now base ≡ some t) × (t ≤ base + m * minute)
  unfolding minute_hit
  minute_hit_least base m pos lt on later =
      let (k, t, hit, body, onk, le) =
        first_hit_least minute_step 60 (minute_body now base) 60 0 m (base + m * minute) pos
          (omega arith) (zero-mod minute_step) (omega arith) lt on (ground arith) in
      (t, hit, ground arith)

  module _ (first_day : Bool) where
    hour_body_sound :
        (date k t : ℕ)
        → hour_body first_day minute_step now date k ≡ some t
        → minute_hit minute_step now (date + k * hour) ≡ some t
    unfolding hour_body
    hour_body_sound date k t e = ground arith

    hour_body_open :
        (date h v : ℕ)
        → minute_hit minute_step now (date + h * hour) ≡ some v
        → (first_day ≡ true → hour_of now ≤ h)
        → hour_body first_day minute_step now date h ≡ some v
    unfolding hour_body
    hour_body_open date h v e begun = ground arith

    -- A hit in an earlier hour is earlier.
    hour_le :
        (date h m v t k : ℕ)
        → hour_body first_day minute_step now date k ≡ some t
        → minute_hit minute_step now (date + h * hour) ≡ some v
        → v ≤ date + h * hour + m * minute
        → k ≤ h
        → t ≤ date + h * hour + m * minute
    hour_le date h m v t k body hit le lek = elim (dec_lt k h) [
      | yes lt ↦
          let (m', eq, ltm, onm, later) =
            minute_hit_sound (date + k * hour) t (hour_body_sound date k t body) in
          omega arith
      | no ge ↦ ground (arith, hour_body_sound date k t body)
    ]

  module _ (hour_step : ℕ) (first_day : Bool) (date : ℕ) where
    pub hour_hit_sound :
        (t : ℕ)
        → hour_hit first_day minute_step hour_step now date ≡ some t
        → (h : ℕ) × (m : ℕ) × (t ≡ date + h * hour + m * minute)
          × (h < 24)
          × (h % hour_step ≡ 0)
          × (m < 60)
          × (m % minute_step ≡ 0)
          × (now < t)
    unfolding hour_hit
    hour_hit_sound t e =
        let (h, hit, lt, on) =
          first_hit_sound hour_step 24 (hour_body first_day minute_step now date) 24 0 t
            (zero-mod hour_step) e in
        let (m, eq, ltm, onm, later) =
          minute_hit_sound (date + h * hour) t (hour_body_sound first_day date h t hit) in
        (h, m, eq, lt, on, ltm, onm, later)

    pub hour_hit_least :
        (h m : ℕ)
        → 1 ≤ minute_step
        → 1 ≤ hour_step
        → h < 24
        → h % hour_step ≡ 0
        → m < 60
        → m % minute_step ≡ 0
        → (first_day ≡ true → hour_of now ≤ h)
        → now < date + h * hour + m * minute
        → (t : ℕ) × (hour_hit first_day minute_step hour_step now date ≡ some t)
          × (t ≤ date + h * hour + m * minute)
    unfolding hour_hit
    hour_hit_least h m posm posh lth onh ltm onm begun later =
        let (v, hit, le) = minute_hit_least (date + h * hour) m posm ltm onm later in
        let (k, t, found, body, onk, lek) =
          first_hit_least hour_step 24 (hour_body first_day minute_step now date) 24 0 h v posh
            (omega arith) (zero-mod hour_step) (omega arith) lth onh
            (hour_body_open first_day date h v hit begun) in
        (t, found, hour_le first_day date h m v t k body hit le lek)
