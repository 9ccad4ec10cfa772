-- ===== src/Task/Planner.antt =====
-- `RuleTaskPlanner.plan` of core/task/planner.py.
use ai_lab_os.Prelude.{
  ◌+◌, ◌≡◌, refl, ◌∙◌, Bool, false, not, ◌||◌, List, [], ◌∷◌, ◌++◌, String, str_eq, arith,
}
use ai_lab_os.Sql.{count_where, select_where}
use ai_lab_os.Task.Dependencies.{TaskDependency}

-- name in {d.depends_on_task_id for d in request.dependencies}
unfoldable pub is_dependency : List TaskDependency → String → Bool
is_dependency [] name = false
is_dependency (dep ∷ deps) name = str_eq dep.depends_on_task_id name || is_dependency deps name

abbrev pub or_names : List String → List String → List String
or_names [] names = names
or_names (x ∷ ordered) names = x ∷ ordered

unfoldable pub plan : List TaskDependency → List String → List String
unfolding is_dependency
plan [] names = names
plan (dep ∷ deps) names =
    or_names
      (select_where (λ name. not (is_dependency (dep ∷ deps) name)) names
        ++ select_where (is_dependency (dep ∷ deps)) names)
      names

count_where-append :
    (p : String → Bool) (xs ys : List String)
    → count_where p (xs ++ ys) ≡ count_where p xs + count_where p ys
unfolding count_where
count_where-append p [] ys = omega arith
count_where-append p (x ∷ xs) ys = ground (arith, count_where-append p xs ys)

count_where-split :
    (p q : String → Bool) (names : List String)
    → count_where p (select_where (λ name. not (q name)) names)
        + count_where p (select_where q names)
      ≡ count_where p names
unfolding count_where select_where
count_where-split p q [] = omega arith
count_where-split p q (name ∷ names) = ground (arith, count_where-split p q names)

count_where-or_names :
    (p : String → Bool) (ordered names : List String)
    → count_where p ordered ≡ count_where p names
    → count_where p (or_names ordered names) ≡ count_where p names
count_where-or_names p [] names e = refl
count_where-or_names p (x ∷ ordered) names e = e

-- A plan runs each workflow as often as the request names it: no workflow is lost or repeated.
pub count_where-plan :
    (deps : List TaskDependency) (names : List String) (p : String → Bool)
    → count_where p (plan deps names) ≡ count_where p names
unfolding plan
count_where-plan [] names p = refl
count_where-plan (dep ∷ deps) names p = count_where-or_names p _ names (
    count_where-append p (select_where (λ name. not (is_dependency (dep ∷ deps) name)) names)
      (select_where (is_dependency (dep ∷ deps)) names)
    ∙ count_where-split p (is_dependency (dep ∷ deps)) names)
