-- ===== src/System/Admission/Accepted.antt =====
-- Work that is accepted goes on while the system drains.
use ai_lab_os.Prelude.{
  ℕ, ◌+◌, ◌<◌, Bool, true, false, ◌≡◌, refl, ◌∙◌, inl, inr, none, some, List, [], ◌∷◌, String, ◌==◌,
  if◌then◌else◌, Result, ok, err, All, Bool-cases, arith,
}
use ai_lab_os.System.{check_lifecycle, ensure_accepting_work}
use ai_lab_os.System.Admission.{
  Context, Gate, owns_current_scope, with_context, create_task, accept, enter, reset,
  spawn_accepted_task, GateStep, requested, forked, entered, left, spawned, gate_step, gate_steps,
}

-- The step does not end a block of the task.
abbrev pub IsWithin : ℕ → GateStep → Type 0
IsWithin task (left other) = (task == other) ≡ false
IsWithin task _ = Unit

abbrev owns_in : ℕ → Context → Bool
owns_in task context = elim context.current [ none ↦ false | some owner ↦ owner == task ]

owns-with_context :
    (task other : ℕ) (context : Context) (gate : Gate)
    → owns_current_scope task (with_context other context gate)
      ≡ (if task == other then owns_in task context else owns_current_scope task gate)
unfolding owns_current_scope with_context
owns-with_context task other context gate = branch (task == other)
  where
    branch :
        (same : Bool)
        → owns_in task (if same then context else gate.context task)
          ≡ (if same then owns_in task context else owns_in task (gate.context task))
    branch true = refl
    branch false = refl

-- The task owns its scope, and is one of those that were created.
abbrev pub IsAccepted : ℕ → Gate → Type 0
IsAccepted task gate = (owns_current_scope task gate ≡ true) × (task < gate.next_task)

create_task-IsAccepted :
    (task : ℕ) (context : Context) (gate : Gate)
    → IsAccepted task gate
    → IsAccepted task (create_task context gate)
unfolding create_task owns_current_scope with_context
create_task-IsAccepted task context gate (owns, created) =
    let distinct : (task == gate.next_task) ≡ false = ground arith in
    (
      owns-with_context task gate.next_task context (record gate { next_task = gate.next_task + 1 })
          ∙ rw distinct owns,
      omega arith,
    )

accept-IsAccepted :
    (task other : ℕ) (checked : Result String Unit) (gate : Gate)
    → IsAccepted task gate
    → IsAccepted task (accept checked other gate).1
unfolding accept with_context
accept-IsAccepted task other (err code) gate h = h
accept-IsAccepted task other (ok _) gate (owns, created) = (
  owns-with_context task other
        (record {
          current = some other;
          saved = (gate.context other).current ∷ (gate.context other).saved;
        })
        gate
      ∙ rw owns (ground arith),
  created,
)

enter-IsAccepted :
    (task other : ℕ) (gate : Gate) → IsAccepted task gate → IsAccepted task (enter other gate).1
unfolding enter
enter-IsAccepted task other gate h = elim (Bool-cases (owns_current_scope other gate)) [
  | inl owner ↦ rw owner h
  | inr outer ↦ rw outer (accept-IsAccepted task other (check_lifecycle gate.lifecycle) gate h)
]

spawn-IsAccepted :
    (task other : ℕ) (gate : Gate)
    → IsAccepted task gate
    → IsAccepted task (spawn_accepted_task other gate).1
unfolding spawn_accepted_task
spawn-IsAccepted task other gate h = elim (Bool-cases (owns_current_scope other gate)) [
  | inl owner ↦ rw owner (
      create_task-IsAccepted task
        (record { current = some gate.next_task; saved = (gate.context other).current ∷ [] }) gate
        h)
  | inr outer ↦ rw outer h
]

gate_step-IsAccepted :
    (task : ℕ) (step : GateStep) (gate : Gate)
    → IsWithin task step
    → IsAccepted task gate
    → IsAccepted task (gate_step step gate)
unfolding gate_step owns_current_scope with_context
gate_step-IsAccepted task (requested target) gate within h = h
gate_step-IsAccepted task (forked other) gate within h =
    create_task-IsAccepted task (record { current = (gate.context other).current; saved = [] }) gate
      h
gate_step-IsAccepted task (entered other) gate within h = enter-IsAccepted task other gate h
gate_step-IsAccepted task (left other) gate within h =
    (owns-with_context task other (reset (gate.context other)) gate ∙ rw within h.0, h.1)
gate_step-IsAccepted task (spawned other) gate within h = spawn-IsAccepted task other gate h

-- A task that owns its scope owns it, and its work is accepted, until it leaves the block: whatever the
-- lifecycle does, and whatever other tasks enter, leave, create and spawn.
pub gate_steps-IsAccepted :
    (task : ℕ) (steps : List GateStep) (gate : Gate)
    → IsAccepted task gate
    → All (IsWithin task) steps
    → IsAccepted task (gate_steps steps gate)
      × (ensure_accepting_work
            (owns_current_scope task (gate_steps steps gate))
            (gate_steps steps gate).lifecycle
          ≡ ok tt)
unfolding gate_steps ensure_accepting_work
gate_steps-IsAccepted task [] gate h within = (h, rw (h.0) refl)
gate_steps-IsAccepted task (step ∷ steps) gate h within =
    gate_steps-IsAccepted task steps (gate_step step gate)
      (gate_step-IsAccepted task step gate within.0 h) within.1
