-- ===== src/Task/State/Reach.antt =====
-- Which statuses a task can come to by legal transitions.
use ai_lab_os.Prelude.{◌≡◌, Bool, true, false, arith}
use ai_lab_os.Machine.{Reaches, Reaches-keeps}
use ai_lab_os.Task.State.{TaskStatus, cancelled, completed, destroyed, can_transition}

-- The status is over for good: no transition leads back to work.
abbrev pub is_over : TaskStatus → Bool
is_over completed = true
is_over cancelled = true
is_over destroyed = true
is_over _ = false

over_step : (t u : TaskStatus) → is_over t ≡ true → can_transition t u ≡ true → is_over u ≡ true
unfolding can_transition
over_step t u o e = ground arith

-- A task that is completed, cancelled or destroyed stays so, whatever transitions follow.
pub over_for_good :
    (s t : TaskStatus) → Reaches can_transition s t → is_over s ≡ true → is_over t ≡ true
over_for_good s t r o = Reaches-keeps can_transition is_over over_step r o
