-- ===== src/Task/Dependencies.antt =====
-- `DependencyResolver` of core/task/dependencies.py. The dict of statuses is an association list.
use ai_lab_os.Prelude.{
  Bool, true, false, Bool-cases, inl, inr, Option, none, some, List, [], ◌∷◌, ◌≡◌, String, str_eq,
  arith, if◌then◌else◌,
}
use ai_lab_os.Task.State.{TaskStatus, created, completed, failed, cancelled, timeout}

pub data DependencyType : Type 0 where
  after before all_success any_success all_failed any_failed manual : DependencyType

pub record TaskDependency : Type 0 where
  pub depends_on_task_id : String
  pub dependency_type : DependencyType

-- statuses.get(task_id)
abbrev pub status_of : String → List (String × TaskStatus) → Option TaskStatus
status_of task_id [] = none
status_of task_id ((known, status) ∷ rest) =
    if str_eq known task_id then some status else status_of task_id rest

unfoldable pub is_satisfied : TaskDependency → TaskStatus → Bool
is_satisfied dep status = elim dep.dependency_type [
  | after ↦ elim status [
    | completed ↦ true
    | failed ↦ true
    | cancelled ↦ true
    | timeout ↦ true
    | _ ↦ false
  ]
  | before ↦ elim status [ created ↦ true | _ ↦ false ]
  | all_success ↦ elim status [ completed ↦ true | _ ↦ false ]
  | any_success ↦ elim status [ completed ↦ true | _ ↦ false ]
  | all_failed ↦ elim status [ failed ↦ true | _ ↦ false ]
  | any_failed ↦ elim status [ failed ↦ true | _ ↦ false ]
  | manual ↦ false
]

abbrev pub is_satisfied_by : TaskDependency → Option TaskStatus → Bool
is_satisfied_by dep none = false
is_satisfied_by dep (some status) = is_satisfied dep status

unfoldable pub are_all_satisfied : List TaskDependency → List (String × TaskStatus) → Bool
unfolding is_satisfied
are_all_satisfied [] statuses = true
are_all_satisfied (dep ∷ deps) statuses =
    let rest = are_all_satisfied deps statuses in
    if is_satisfied_by dep (status_of dep.depends_on_task_id statuses) then rest else false

-- dependency_type in {ALL_SUCCESS, ANY_SUCCESS}
abbrev pub wants_success : DependencyType → Bool
wants_success all_success = true
wants_success any_success = true
wants_success _ = false

abbrev pub is_failed : Option TaskStatus → Bool
is_failed (some failed) = true
is_failed _ = false

unfoldable pub any_failure : List TaskDependency → List (String × TaskStatus) → Bool
any_failure [] statuses = false
any_failure (dep ∷ deps) statuses =
    let rest = any_failure deps statuses in
    if wants_success dep.dependency_type
    then if is_failed (status_of dep.depends_on_task_id statuses) then true else rest
    else rest

-- Dependencies of which one has failed where success is wanted are not all satisfied: a task that may
-- be ended early is never one that may start.
pub any_failure-are_all_satisfied :
    (deps : List TaskDependency) (statuses : List (String × TaskStatus))
    → any_failure deps statuses ≡ true
    → are_all_satisfied deps statuses ≡ false
unfolding any_failure are_all_satisfied is_satisfied
any_failure-are_all_satisfied [] statuses e = absurd (ground arith)
any_failure-are_all_satisfied (dep ∷ deps) statuses e =
    elim (Bool-cases (is_satisfied_by dep (status_of dep.depends_on_task_id statuses))) [
      | inr unsatisfied ↦ rw unsatisfied
      | inl satisfied ↦ rw satisfied (
          any_failure-are_all_satisfied deps statuses (
            later dep (status_of dep.depends_on_task_id statuses) (any_failure deps statuses)
              satisfied e))
    ]
  where
    later :
        (d : TaskDependency) (o : Option TaskStatus) (rest : Bool)
        → is_satisfied_by d o ≡ true
        → (if wants_success d.dependency_type then if is_failed o then true else rest else rest)
          ≡ true
        → rest ≡ true
    later d o rest s h = ground arith
