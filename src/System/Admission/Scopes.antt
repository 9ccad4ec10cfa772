-- ===== src/System/Admission/Scopes.antt =====
-- Who owns an accepted scope, whatever the tasks do.
use mathlib.Core.Path.{subst}
use ai_lab_os.Prelude.{
  ℕ, ◌+◌, true, false, ◌≡◌, refl, sym, inl, inr, Option, none, some, List, [], ◌∷◌, String, ltb,
  ◌==◌, err, All, Bool-cases, arith,
}
use ai_lab_os.System.{ensure_accepting_work, is_closing, closing_step, refused_closing}
use ai_lab_os.System.Admission.{
  Context, Gate, owns_current_scope, with_context, create_task, accept, enter, reset,
  spawn_accepted_task, GateStep, requested, forked, entered, left, spawned, gate_step, gate_steps,
}

-- The owner in a context of `task` is another task, and one that is known.
abbrev pub IsForeign : ℕ → ℕ → Option ℕ → Type 0
IsForeign task bound none = Unit
IsForeign task bound (some owner) = ((owner == task) ≡ false) × (ltb owner bound ≡ true)

abbrev pub IsForeignContext : ℕ → ℕ → Context → Type 0
IsForeignContext task bound context =
    IsForeign task bound context.current × All (IsForeign task bound) context.saved

-- The system is closing, and no task owns a scope or would get one back.
pub record IsQuiet (gate : Gate) : Type 0 where
  pub closing : is_closing gate.lifecycle ≡ true
  pub foreign : (task : ℕ) → IsForeignContext task gate.next_task (gate.context task)

foreign-owns :
    (task : ℕ) (gate : Gate)
    → IsForeign task gate.next_task (gate.context task).current
    → owns_current_scope task gate ≡ false
unfolding owns_current_scope
foreign-owns task gate h = ground arith

-- A new task knows as owners those that its creator knows.
IsForeign-fresh :
    (task bound : ℕ) (o : Option ℕ) → IsForeign task bound o → IsForeign bound (bound + 1) o
IsForeign-fresh task bound none h = tt
IsForeign-fresh task bound (some owner) h = ground (arith, h)

IsForeign-later :
    (task bound : ℕ) (o : Option ℕ) → IsForeign task bound o → IsForeign task (bound + 1) o
IsForeign-later task bound none h = tt
IsForeign-later task bound (some owner) h = ground (arith, h)

IsForeign-saved :
    (task bound : ℕ) (os : List (Option ℕ))
    → All (IsForeign task bound) os
    → All (IsForeign task (bound + 1)) os
IsForeign-saved task bound [] h = tt
IsForeign-saved task bound (o ∷ os) h =
    (IsForeign-later task bound o h.0, IsForeign-saved task bound os h.1)

with_context-IsQuiet :
    (task : ℕ) (context : Context) (gate : Gate)
    → IsQuiet gate
    → IsForeignContext task gate.next_task context
    → IsQuiet (with_context task context gate)
unfolding with_context
with_context-IsQuiet task context gate q h = record {
  closing = q.closing;
  foreign = λ k. elim (Bool-cases (k == task)) [
    | inl same ↦ rw same (subst (λ j. IsForeignContext j gate.next_task context) (ground arith) h)
    | inr other ↦ rw other (q.foreign k)
  ];
}

create_task-IsQuiet :
    (context : Context) (gate : Gate)
    → IsQuiet gate
    → IsForeignContext gate.next_task (gate.next_task + 1) context
    → IsQuiet (create_task context gate)
unfolding create_task
create_task-IsQuiet context gate q h =
    with_context-IsQuiet gate.next_task context (record gate { next_task = gate.next_task + 1 })
      (record {
        closing = q.closing;
        foreign = λ k. (
          IsForeign-later k gate.next_task (gate.context k).current (q.foreign k).0,
          IsForeign-saved k gate.next_task (gate.context k).saved (q.foreign k).1,
        );
      })
      h

reset-IsForeign :
    (task bound : ℕ) (context : Context)
    → IsForeignContext task bound context
    → IsForeignContext task bound (reset context)
unfolding reset
reset-IsForeign task bound context h = pops context.saved h.1
  where
    pops :
        (saved : List (Option ℕ))
        → All (IsForeign task bound) saved
        → IsForeignContext task bound (elim saved [
          | [] ↦ context
          | previous ∷ rest ↦ record { current = previous; saved = rest }
        ])
    pops [] k = h
    pops (previous ∷ rest) k = k

refused_enter : (task : ℕ) (gate : Gate) → IsQuiet gate → (enter task gate).1 ≡ gate
unfolding enter ensure_accepting_work accept
refused_enter task gate q =
    let (code, refused) = refused_closing gate.lifecycle q.closing in
    rw (foreign-owns task gate (q.foreign task).0, refused) refl

refused_spawn : (task : ℕ) (gate : Gate) → IsQuiet gate → (spawn_accepted_task task gate).1 ≡ gate
unfolding spawn_accepted_task
refused_spawn task gate q = rw (foreign-owns task gate (q.foreign task).0) refl

gate_step-IsQuiet : (step : GateStep) (gate : Gate) → IsQuiet gate → IsQuiet (gate_step step gate)
unfolding gate_step
gate_step-IsQuiet (requested target) gate q = record {
  closing = closing_step target gate.lifecycle q.closing;
  foreign = q.foreign;
}
gate_step-IsQuiet (forked task) gate q =
    create_task-IsQuiet (record { current = (gate.context task).current; saved = [] }) gate q
      (IsForeign-fresh task gate.next_task (gate.context task).current (q.foreign task).0, tt)
gate_step-IsQuiet (entered task) gate q = subst IsQuiet (sym (refused_enter task gate q)) q
gate_step-IsQuiet (left task) gate q =
    with_context-IsQuiet task (reset (gate.context task)) gate q
      (reset-IsForeign task gate.next_task (gate.context task) (q.foreign task))
gate_step-IsQuiet (spawned task) gate q = subst IsQuiet (sym (refused_spawn task gate q)) q

-- In a system that drains, has stopped or has failed, and in which no task owns an accepted scope or would
-- get one back, it stays so for good: whatever tasks enter and leave, create and spawn, and whatever
-- transitions are requested, new work of every task is refused.
pub gate_steps-IsQuiet :
    (steps : List GateStep) (gate : Gate)
    → IsQuiet gate
    → IsQuiet (gate_steps steps gate)
      × ((task : ℕ)
          → (code : String) × (ensure_accepting_work
                (owns_current_scope task (gate_steps steps gate))
                (gate_steps steps gate).lifecycle
              ≡ err code))
unfolding gate_steps ensure_accepting_work
gate_steps-IsQuiet [] gate q = (
  q,
  λ task.
      let (code, refused) = refused_closing gate.lifecycle q.closing in
      (code, rw (foreign-owns task gate (q.foreign task).0) refused),
)
gate_steps-IsQuiet (step ∷ steps) gate q =
    gate_steps-IsQuiet steps (gate_step step gate) (gate_step-IsQuiet step gate q)
