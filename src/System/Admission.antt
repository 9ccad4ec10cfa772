-- ===== src/System/Admission.antt =====
-- WorkAdmissionGate of core/system/admission.py: the accepted scopes of the asyncio tasks. A context
-- variable has a value in each task; a task that another one creates starts with a copy of it.
pub mod Scopes
pub mod Accepted
use ai_lab_os.Prelude.{
  ℕ, ◌+◌, Bool, true, false, Option, none, some, List, [], ◌∷◌, String, ◌==◌, if◌then◌else◌, Result,
  ok, err,
}
use ai_lab_os.System.{SystemLifecycleState, transition, check_lifecycle}

-- The owner of the scope that stands in `_accepted_scope` of a task, and the values that the tokens of
-- its open `admit` blocks reset it to.
pub record Context : Type 0 where
  pub current : Option ℕ
  pub saved : List (Option ℕ)

pub record Gate : Type 0 where
  pub lifecycle : SystemLifecycleState
  pub context : ℕ → Context
  pub next_task : ℕ

-- A failure with its code, or the RuntimeError of spawn_accepted_task
pub data AdmissionError : Type 0 where
  refused : String → AdmissionError
  no_scope : AdmissionError

-- _owns_current_scope
unfoldable pub owns_current_scope : ℕ → Gate → Bool
owns_current_scope task gate = elim (gate.context task).current [
  | none ↦ false
  | some owner ↦ owner == task
]

unfoldable pub with_context : ℕ → Context → Gate → Gate
with_context task context gate = record gate {
  context = λ k. if k == task then context else gate.context k;
}

-- A new task with a context.
unfoldable pub create_task : Context → Gate → Gate
unfolding with_context
create_task context gate =
    with_context gate.next_task context (record gate { next_task = gate.next_task + 1 })

abbrev pub Answer : Type 0
Answer = Result AdmissionError Unit × Gate

-- The start of `admit` once the lifecycle is checked.
unfoldable pub accept : Result String Unit → ℕ → Gate → Answer
unfolding with_context
accept (err code) task gate = (err (AdmissionError.refused code), gate)
accept (ok _) task gate =
    let context = gate.context task in
    (
      ok tt,
      with_context task (record { current = some task; saved = context.current ∷ context.saved })
          gate,
    )

unfoldable pub enter : ℕ → Gate → Answer
unfolding owns_current_scope accept check_lifecycle
enter task gate =
    if owns_current_scope task gate
    then (ok tt, gate)
    else accept (check_lifecycle gate.lifecycle) task gate

-- The end of the block of `admit` or of `run_in_accepted_scope` that has set the scope.
unfoldable pub reset : Context → Context
reset context = elim context.saved [
  | [] ↦ context
  | previous ∷ saved ↦ record { current = previous; saved = saved }
]

-- spawn_accepted_task, up to the start of the coroutine in the new task
unfoldable pub spawn_accepted_task : ℕ → Gate → Answer
unfolding owns_current_scope create_task
spawn_accepted_task task gate =
    if owns_current_scope task gate
    then (
      ok tt,
      create_task
          (record { current = some gate.next_task; saved = (gate.context task).current ∷ [] }) gate,
    )
    else (err AdmissionError.no_scope, gate)

-- What the tasks and the owner of the lifecycle do: `forked` is asyncio.create_task.
pub data GateStep : Type 0 where
  requested : SystemLifecycleState → GateStep
  forked entered left spawned : ℕ → GateStep

unfoldable pub gate_step : GateStep → Gate → Gate
unfolding transition create_task enter with_context reset spawn_accepted_task
gate_step (requested target) gate = record gate { lifecycle = (transition target gate.lifecycle).1 }
gate_step (forked task) gate =
    create_task (record { current = (gate.context task).current; saved = [] }) gate
gate_step (entered task) gate = (enter task gate).1
gate_step (left task) gate = with_context task (reset (gate.context task)) gate
gate_step (spawned task) gate = (spawn_accepted_task task gate).1

unfoldable pub gate_steps : List GateStep → Gate → Gate
unfolding gate_step
gate_steps [] gate = gate
gate_steps (step ∷ steps) gate = gate_steps steps (gate_step step gate)
