-- ===== src/System.antt =====
-- core/system: the life cycle of the system (lifecycle.py) and the admission of work (admission.py).
pub mod Admission
mod Examples
use ai_lab_os.Prelude.{
  ◌≡◌, refl, Bool, true, false, List, [], ◌∷◌, String, arith, if◌then◌else◌, Result, ok, err,
}

pub data SystemLifecycleState : Type 0 where
  created starting ready draining stopped failed : SystemLifecycleState

pub data LifecycleError : Type 0 where
  invalid_transition : LifecycleError

-- target in _VALID_TRANSITIONS[current]
unfoldable pub is_allowed : SystemLifecycleState → SystemLifecycleState → Bool
is_allowed created starting = true
is_allowed created stopped = true
is_allowed starting ready = true
is_allowed starting draining = true
is_allowed starting failed = true
is_allowed ready draining = true
is_allowed draining stopped = true
is_allowed draining failed = true
is_allowed _ _ = false

abbrev same_state : SystemLifecycleState → SystemLifecycleState → Bool
same_state created created = true
same_state starting starting = true
same_state ready ready = true
same_state draining draining = true
same_state stopped stopped = true
same_state failed failed = true
same_state _ _ = false

-- The previous state is returned; the machine is in the second one.
unfoldable pub transition :
    SystemLifecycleState
    → SystemLifecycleState
    → Result LifecycleError SystemLifecycleState × SystemLifecycleState
unfolding is_allowed
transition target current =
    if same_state current target
    then (ok current, current)
    else if is_allowed current target
    then (ok current, target)
    else (err invalid_transition, current)

abbrev pub accepting_work : SystemLifecycleState → Bool
accepting_work ready = true
accepting_work _ = false

-- `_check_lifecycle`: the code of the failure.
unfoldable pub check_lifecycle : SystemLifecycleState → Result String Unit
check_lifecycle ready = ok tt
check_lifecycle created = err "system.not_ready"
check_lifecycle starting = err "system.not_ready"
check_lifecycle draining = err "system.draining"
check_lifecycle stopped = err "system.stopped"
check_lifecycle failed = err "system.failed"

-- `ensure_accepting_work`: work in an accepted scope is not checked again.
unfoldable pub ensure_accepting_work : Bool → SystemLifecycleState → Result String Unit
unfolding check_lifecycle
ensure_accepting_work owns_scope state = if owns_scope then ok tt else check_lifecycle state

-- Any requests of transitions, of which the illegal ones raise.
unfoldable pub after_requests :
    List SystemLifecycleState → SystemLifecycleState → SystemLifecycleState
unfolding transition
after_requests [] state = state
after_requests (target ∷ targets) state = after_requests targets (transition target state).1

-- DRAINING, STOPPED or FAILED
abbrev pub is_closing : SystemLifecycleState → Bool
is_closing draining = true
is_closing stopped = true
is_closing failed = true
is_closing _ = false

pub closing_step :
    (target state : SystemLifecycleState)
    → is_closing state ≡ true
    → is_closing (transition target state).1 ≡ true
unfolding transition is_allowed
closing_step target state closing = ground arith

closing_for_good :
    (targets : List SystemLifecycleState) (state : SystemLifecycleState)
    → is_closing state ≡ true
    → is_closing (after_requests targets state) ≡ true
unfolding after_requests
closing_for_good [] state closing = closing
closing_for_good (target ∷ targets) state closing =
    closing_for_good targets (transition target state).1 (closing_step target state closing)

pub refused_closing :
    (state : SystemLifecycleState)
    → is_closing state ≡ true
    → (code : String) × (ensure_accepting_work false state ≡ err code)
unfolding ensure_accepting_work check_lifecycle
refused_closing draining closing = ("system.draining", refl)
refused_closing stopped closing = ("system.stopped", refl)
refused_closing failed closing = ("system.failed", refl)
refused_closing created closing = absurd (ground arith)
refused_closing starting closing = absurd (ground arith)
refused_closing ready closing = absurd (ground arith)

-- Once the system drains, has stopped or has failed, new work is refused for good, whatever transitions
-- are requested: there is no restart.
pub ensure_accepting_work-after_requests :
    (targets : List SystemLifecycleState) (state : SystemLifecycleState)
    → is_closing state ≡ true
    → (code : String) × (ensure_accepting_work false (after_requests targets state) ≡ err code)
ensure_accepting_work-after_requests targets state closing =
    refused_closing (after_requests targets state) (closing_for_good targets state closing)
