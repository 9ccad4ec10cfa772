-- ===== src/Scheduler/Runtime/Health.antt =====
-- The failure counter of `_tick_loop`, the flags that `_publish_event` and the executor's `_publish`
-- keep, and the status that `health` of core/scheduler/runtime.py reports of them.
use ai_lab_os.Prelude.{
  ℕ, ◌+◌, ◌≡◌, refl, ap, ◌∙◌, Bool, true, false, not, ◌||◌, Option, none, some, or_default, List,
  [], ◌∷◌, ◌++◌, ltb, at_least, ℤ, arith, if◌then◌else◌, All,
}
use ai_lab_os.Sql.{count_where}

pub data RuntimeStatus : Type 0 where
  healthy degraded failed disabled not_configured not_initialized : RuntimeStatus
  starting stopping stopped : RuntimeStatus

-- The flags say whether the last event of the runtime, or of the executor, could not be published.
pub record Vitals : Type 0 where
  pub running : Bool
  pub consecutive_failures : ℕ
  pub observability_error : Bool
  pub executor_degraded : Bool

-- What happens to these: a tick that raised nothing, a tick that raised, and whether its TICK_FAILED
-- could be published, and whether any other event of the runtime or of the executor could.
pub data LoopStep : Type 0 where
  ticked : LoopStep
  tick_failed published executor_published : Bool → LoopStep

unfoldable pub after_step : LoopStep → Vitals → Vitals
after_step ticked vitals = record vitals { consecutive_failures = 0 }
after_step (tick_failed sent) vitals = record vitals {
  consecutive_failures = vitals.consecutive_failures + 1;
  observability_error = not sent;
}
after_step (published sent) vitals = record vitals { observability_error = not sent }
after_step (executor_published sent) vitals = record vitals { executor_degraded = not sent }

unfoldable pub after_steps : List LoopStep → Vitals → Vitals
unfolding after_step
after_steps [] vitals = vitals
after_steps (step ∷ rest) vitals = after_steps rest (after_step step vitals)

unfoldable pub health : ℤ → Vitals → RuntimeStatus
health failure_threshold vitals =
    if vitals.running
    then if at_least vitals.consecutive_failures failure_threshold
      then failed
      else if ltb 0 vitals.consecutive_failures
          || vitals.observability_error
          || vitals.executor_degraded
      then degraded
      else healthy
    else stopped

-- The last value that a step gives, or the one before the steps.
abbrev pub last_of : (LoopStep → Option Bool) → List LoopStep → Bool → Bool
last_of gives [] first = first
last_of gives (step ∷ rest) first = last_of gives rest (or_default first (gives step))

-- Whether an event of the runtime, or of the executor, was lost.
abbrev pub runtime_lost : LoopStep → Option Bool
runtime_lost ticked = none
runtime_lost (tick_failed sent) = some (not sent)
runtime_lost (published sent) = some (not sent)
runtime_lost (executor_published sent) = none

abbrev pub executor_lost : LoopStep → Option Bool
executor_lost ticked = none
executor_lost (tick_failed sent) = none
executor_lost (published sent) = none
executor_lost (executor_published sent) = some (not sent)

abbrev pub is_failed_tick : LoopStep → Bool
is_failed_tick ticked = false
is_failed_tick (tick_failed sent) = true
is_failed_tick (published sent) = false
is_failed_tick (executor_published sent) = false

-- No tick of the steps has ended well.
abbrev pub IsTrouble : LoopStep → Type 0
IsTrouble ticked = true ≡ false
IsTrouble _ = Unit

after_steps-flags :
    (steps : List LoopStep) (vitals : Vitals)
    → let after = after_steps steps vitals in
      (after.running ≡ vitals.running)
      × (after.observability_error ≡ last_of runtime_lost steps vitals.observability_error)
      × (after.executor_degraded ≡ last_of executor_lost steps vitals.executor_degraded)
unfolding after_steps after_step
after_steps-flags [] vitals = (refl, refl, refl)
after_steps-flags (ticked ∷ rest) vitals = after_steps-flags rest (after_step ticked vitals)
after_steps-flags (tick_failed sent ∷ rest) vitals =
    after_steps-flags rest (after_step (tick_failed sent) vitals)
after_steps-flags (published sent ∷ rest) vitals =
    after_steps-flags rest (after_step (published sent) vitals)
after_steps-flags (executor_published sent ∷ rest) vitals =
    after_steps-flags rest (after_step (executor_published sent) vitals)

after_steps-count :
    (rest : List LoopStep) (vitals : Vitals)
    → All IsTrouble rest
    → (after_steps rest vitals).consecutive_failures
      ≡ vitals.consecutive_failures + count_where is_failed_tick rest
unfolding after_steps after_step count_where
after_steps-count [] vitals trouble = omega arith
after_steps-count (ticked ∷ rest) vitals trouble = let no_tick = trouble.0 in cc
after_steps-count (tick_failed sent ∷ rest) vitals trouble =
    after_steps-count rest (after_step (tick_failed sent) vitals) trouble.1 ∙ omega arith
after_steps-count (published sent ∷ rest) vitals trouble =
    after_steps-count rest (after_step (published sent) vitals) trouble.1
after_steps-count (executor_published sent ∷ rest) vitals trouble =
    after_steps-count rest (after_step (executor_published sent) vitals) trouble.1

after_steps-append :
    (before rest : List LoopStep) (vitals : Vitals)
    → after_steps (before ++ rest) vitals ≡ after_steps rest (after_steps before vitals)
unfolding after_steps
after_steps-append [] rest vitals = refl
after_steps-append (step ∷ before) rest vitals =
    after_steps-append before rest (after_step step vitals)

reset_count :
    (rest : List LoopStep) (vitals : Vitals)
    → All IsTrouble rest
    → (after_steps (ticked ∷ rest) vitals).consecutive_failures ≡ count_where is_failed_tick rest
unfolding after_steps after_step
reset_count rest vitals trouble =
    after_steps-count rest (record vitals { consecutive_failures = 0 }) trouble ∙ omega arith

-- What the status should be after that many failed ticks in a row, with these flags.
abbrev pub judged : ℤ → ℕ → Bool → Bool → RuntimeStatus
judged failure_threshold n lost executor_lost_one =
    if at_least n failure_threshold
    then failed
    else if ltb 0 n || lost || executor_lost_one
    then degraded
    else healthy

health_lem :
    (failure_threshold : ℤ) (vitals : Vitals)
    → vitals.running ≡ true
    → health failure_threshold vitals
      ≡ judged failure_threshold vitals.consecutive_failures vitals.observability_error
          vitals.executor_degraded
unfolding health
health_lem failure_threshold vitals runs = rw runs refl

-- While the runtime runs, its health depends on how many ticks have failed since the last one that raised
-- nothing, and on whether the last event of the runtime and the last event of the executor were
-- published: from the threshold on it has failed, and below it is degraded if a tick has failed or one of
-- these events was lost, and healthy otherwise. Other events may be published in between.
pub health-after_steps :
    (failure_threshold : ℤ) (before rest : List LoopStep) (vitals : Vitals)
    → vitals.running ≡ true
    → All IsTrouble rest
    → let steps = before ++ ticked ∷ rest in
      health failure_threshold (after_steps steps vitals)
      ≡ judged failure_threshold
          (count_where is_failed_tick rest)
          (last_of runtime_lost steps vitals.observability_error)
          (last_of executor_lost steps vitals.executor_degraded)
health-after_steps failure_threshold before rest vitals runs trouble =
    let steps = before ++ ticked ∷ rest in
    let (keeps, lost, executor) = after_steps-flags steps vitals in
    let counted : (after_steps steps vitals).consecutive_failures
        ≡ count_where is_failed_tick rest =
      ap (λ (v : Vitals). v.consecutive_failures) (after_steps-append before (ticked ∷ rest) vitals)
      ∙ reset_count rest (after_steps before vitals) trouble in
    health_lem failure_threshold (after_steps steps vitals) (keeps ∙ runs)
    ∙ rw (counted, lost, executor) refl
