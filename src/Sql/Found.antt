-- ===== src/Sql/Found.antt =====
-- What the rowcount of a condition says of the rows that are found by their keys.
use ai_lab_os.Prelude.{
  Bool, true, false, Bool-cases, inl, inr, some, List, [], ◌∷◌, ◌≡◌, String, str_eq, eq_iff,
  str_eq_refl, ◌==◌, if◌then◌else◌, arith, All, All-map,
}
use ai_lab_os.Sql.{count_where, find_key, IsKeyed}

module _ {ℓ} {A : Type ℓ} (key : A → String) (p : A → Bool) where
  -- A condition that selects no row fails on the row that is found.
  pub count_where-find_key :
      (k : String) (t : List A) (r : A)
      → count_where p t ≡ 0
      → find_key key k t ≡ some r
      → p r ≡ false
  unfolding find_key count_where
  count_where-find_key k [] r zero e = cc
  count_where-find_key k (x ∷ t) r zero e = ground (arith, count_where-find_key k t r)

  -- A condition that selects a row holds of a row that is found.
  pub find_key-count_where :
      (t : List A)
      → IsKeyed key t
      → (count_where p t == 0) ≡ false
      → (k : String) × (r : A) × (find_key key k t ≡ some r) × (p r ≡ true)
  unfolding find_key count_where
  find_key-count_where [] keyed h = cc
  find_key-count_where (x ∷ t) keyed h = elim (Bool-cases (p x)) [
    | inl yes_case ↦ (key x, x, rw (str_eq_refl (key x)), yes_case)
    | inr no_case ↦
        let (k, r, e, holds) = find_key-count_where t keyed.1 (ground arith) in
        (k, r, ground (arith, eq_iff (key x) k, keyed.0), holds)
  ]

module _ {ℓ} {A : Type ℓ} (key : A → String) where
  -- In a table whose keys differ every row is the one that is found by its key.
  pub All-found : (t : List A) → IsKeyed key t → All (λ r. find_key key (key r) t ≡ some r) t
  unfolding find_key
  All-found [] keyed = tt
  All-found (x ∷ t) keyed = (
    rw (str_eq_refl (key x)),
    All-map (λ r. find_key key (key r) t ≡ some r)
        (λ r. (if str_eq (key x) (key r) then some x else find_key key (key r) t) ≡ some r) t
        (λ r e. ground (arith, eq_iff (key x) (key r), keyed.0)) (All-found t keyed.1),
  )
