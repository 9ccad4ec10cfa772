-- ===== src/System/Examples.antt =====
-- The theorems on the system's life cycle and the admission of work at concrete inputs.
use ai_lab_os.Prelude.{
  ℕ, ◌≡◌, refl, none, some, [], ◌∷◌, List, String, err, ok, ◌==◌, if◌then◌else◌, inl, inr,
  Bool-cases, arith,
}
use ai_lab_os.System.{SystemLifecycleState, ensure_accepting_work}
use ai_lab_os.System.Admission.{
  Context, Gate, owns_current_scope, GateStep, requested, forked, entered, left, spawned,
  gate_steps,
}
use ai_lab_os.System.Admission.Scopes.{IsQuiet, gate_steps-IsQuiet}
use ai_lab_os.System.Admission.Accepted.{IsAccepted, gate_steps-IsAccepted}

abbrev outside : Context
outside = record { current = none; saved = [] }

-- Task 1 was created by task 0 within its scope, which task 0 has left since.
abbrev left_behind : Gate
left_behind = record {
  lifecycle = SystemLifecycleState.draining;
  context = λ task. if task == 1 then record { current = some 0; saved = [] } else outside;
  next_task = 2;
}

left_behind-IsQuiet : IsQuiet left_behind
left_behind-IsQuiet = record {
  closing = refl;
  foreign = λ task. elim (Bool-cases (task == 1)) [
    | inl behind ↦ rw behind ((ground arith, refl), tt)
    | inr other ↦ rw other (tt, tt)
  ];
}

-- Task 1 cannot spawn, enter or fork into accepted work.
abbrev attempts : List GateStep
attempts = spawned 1 ∷ entered 1 ∷ forked 1 ∷ requested SystemLifecycleState.ready ∷ entered 2 ∷ []

gate_steps-IsQuiet_example :
    IsQuiet (gate_steps attempts left_behind)
    × ((task : ℕ)
        → (code : String) × (ensure_accepting_work
              (owns_current_scope task (gate_steps attempts left_behind))
              (gate_steps attempts left_behind).lifecycle
            ≡ err code))
gate_steps-IsQuiet_example = gate_steps-IsQuiet attempts left_behind left_behind-IsQuiet

abbrev ready_gate : Gate
ready_gate = record {
  lifecycle = SystemLifecycleState.ready;
  context = λ task. outside;
  next_task = 2;
}

-- Task 1 is admitted, and then the system drains.
abbrev draining_gate : Gate
draining_gate = gate_steps (entered 1 ∷ requested SystemLifecycleState.draining ∷ []) ready_gate

draining_gate-IsAccepted : IsAccepted 1 draining_gate
unfolding gate_steps
draining_gate-IsAccepted = (refl, omega arith)

-- Others come and go, and the system stops.
abbrev others : List GateStep
others =
    spawned 1 ∷ entered 0 ∷ left 0 ∷ forked 1 ∷ requested SystemLifecycleState.stopped ∷ left 2 ∷ []

gate_steps-IsAccepted_example :
    IsAccepted 1 (gate_steps others draining_gate)
    × (ensure_accepting_work
          (owns_current_scope 1 (gate_steps others draining_gate))
          (gate_steps others draining_gate).lifecycle
        ≡ ok tt)
gate_steps-IsAccepted_example =
    gate_steps-IsAccepted 1 others draining_gate draining_gate-IsAccepted
      (tt, (tt, (refl, (tt, (tt, (refl, tt))))))
