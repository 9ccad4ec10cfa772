-- ===== src/WaitingFor/Revisions.antt =====
-- A change of an item gives it the next revision, so a revision stands for one version of the item.
use ai_lab_os.Prelude.{
  ℕ, ◌<◌, Bool, ◌≡◌, ◌⊎◌, sym, ap, ◌∙◌, inl, inr, Option, some, List, [], ◌∷◌, String, str_eq,
  eq_iff, Bool-cases, arith,
}
use mathlib.Core.Path.{subst}
use ai_lab_os.Sql.{find_key, IsKeyed}
use ai_lab_os.Sql.Laws.{IsKeyed-append, find_key-insert}
use ai_lab_os.Sql.Put.{find_key-put, IsKeyed-put}
use ai_lab_os.UserTasks.Spaces.{WorkspaceKey}
use ai_lab_os.WaitingFor.Models.{WaitingFor, WaitingForEvent}
use ai_lab_os.WaitingFor.Store.{Tables, item_key, item_values}
use ai_lab_os.WaitingFor.Calls.{Call, create, mutate, run_call, run_calls}
use ai_lab_os.WaitingFor.Writes.{IsCreated, IsMutated, create_outcome, mutate_outcome}

-- What becomes of the row of an id: it stays, or a row with a higher revision takes its place.
abbrev pub Grown : WaitingFor → Option WaitingFor → Type 0
Grown row new =
    (new ≡ some row) ⊎ ((row' : WaitingFor) × (new ≡ some row') × (row.revision < row'.revision))

abbrev pub at : String → Tables → Option WaitingFor
at k tables = find_key item_key k tables.items

module _ (k : String) (row : WaitingFor) (old : Tables) (there : at k old ≡ some row) where
  created-Grown :
      (item : WaitingFor) (event : WaitingForEvent) (new : Tables)
      → IsCreated item event old new
      → Grown row (at k new)
  unfolding item_values
  created-Grown item event new (free, _, _, _, _, e) =
      let found = find_key-insert item_key k old.items (item_values item) free in
      inl (ap (at k) e ∙ found ∙ ground (arith, eq_iff item.id k, there, free))

  mutated-Grown :
      (key : WorkspaceKey) (updated : WaitingFor) (event : WaitingForEvent) (revision : ℕ)
      (new : Tables)
      → IsMutated key updated event revision old new
      → Grown row (at k new)
  unfolding item_values
  mutated-Grown key updated event revision new (r, found, _, at_revision, next, _, _, e) =
      let here = ap (at k) e ∙ find_key-put item_key (item_values updated) k old.items r found in
      elim (Bool-cases (str_eq updated.id k)) [
        | inr miss ↦ inl (here ∙ rw miss there)
        | inl hit ↦
            let same : r ≡ row = ground (arith, eq_iff updated.id k, there, found) in
            let revisions : r.revision ≡ row.revision = ap (λ (x : WaitingFor). x.revision) same in
            inr (item_values updated, here ∙ rw hit, omega arith)
      ]

Grown-later :
    (row r : WaitingFor) (new : Option WaitingFor)
    → row.revision < r.revision
    → Grown r new
    → Grown row new
Grown-later row r new lt (inl same) = inr (r, same, lt)
Grown-later row r new lt (inr (r', e, lt')) = inr (r', e, omega arith)

module _ (is_zone : String → Bool) where
  run_call-Grown :
      (call : Call) (tables : Tables) (k : String) (row : WaitingFor)
      → IsKeyed item_key tables.items
      → at k tables ≡ some row
      → Grown row (at k (run_call is_zone call tables))
        × IsKeyed item_key (run_call is_zone call tables).items
  unfolding run_call item_values
  run_call-Grown (create item event) tables k row keyed there =
      elim (create_outcome item event tables) [
        | inl (_, same) ↦ (
          inl (ap (at k) same ∙ there),
          subst (λ (t : Tables). IsKeyed item_key t.items) (sym same) keyed,
        )
        | inr (_, made) ↦ (
          created-Grown k row tables there item event _ made,
          subst (λ (t : Tables). IsKeyed item_key t.items) (sym made.5)
              (IsKeyed-append item_key tables.items (item_values item) made.0 keyed),
        )
      ]
  run_call-Grown (mutate key updated event revision) tables k row keyed there =
      elim (mutate_outcome is_zone key updated event revision tables keyed) [
        | inl (_, _, same) ↦ (
          inl (ap (at k) same ∙ there),
          subst (λ (t : Tables). IsKeyed item_key t.items) (sym same) keyed,
        )
        | inr (_, made) ↦ (
          mutated-Grown k row tables there key updated event revision _ made,
          subst (λ (t : Tables). IsKeyed item_key t.items) (sym made.7)
              (IsKeyed-put item_key (item_values updated) tables.items keyed),
        )
      ]

  -- Whatever calls of any callers there are, an item stays as it was or has a higher revision.
  pub run_calls-Grown :
      (calls : List Call) (tables : Tables) (k : String) (row : WaitingFor)
      → IsKeyed item_key tables.items
      → at k tables ≡ some row
      → Grown row (at k (run_calls is_zone calls tables))
        × IsKeyed item_key (run_calls is_zone calls tables).items
  unfolding run_calls
  run_calls-Grown [] tables k row keyed there = (inl there, keyed)
  run_calls-Grown (call ∷ calls) tables k row keyed there =
      let next = run_call is_zone call tables in
      let (grown, keyed') = run_call-Grown call tables k row keyed there in
      elim grown [
        | inl same ↦ run_calls-Grown calls next k row keyed' same
        | inr (r, e, lt) ↦
            let (later, last) = run_calls-Grown calls next k r keyed' e in
            (Grown-later row r (at k (run_calls is_zone calls next)) lt later, last)
      ]
