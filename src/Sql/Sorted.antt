-- ===== src/Sql/Sorted.antt =====
-- What the rows of a SELECT with WHERE and ORDER BY have in common.
use ai_lab_os.Prelude.{
  Bool, true, false, Bool-cases, inl, inr, List, [], ◌∷◌, ◌≡◌, refl, ap, ◌∙◌, suc, length, arith,
  All,
}
use ai_lab_os.Sql.{select_where, count_where}
use ai_lab_os.Sql.Order.{insert_by, order_by}

module _ {ℓ κ} {A : Type ℓ} (P : A → Type κ) where
  All-insert_by :
      (precedes : A → A → Bool) (r : A) (t : List A)
      → P r
      → All P t
      → All P (insert_by precedes r t)
  unfolding insert_by
  All-insert_by precedes r [] h k = (h, tt)
  All-insert_by precedes r (x ∷ t) h k = elim (Bool-cases (precedes x r)) [
    | inl e ↦ rw e (k.0, All-insert_by precedes r t h k.1)
    | inr e ↦ rw e (h, k)
  ]

  pub All-order_by : (precedes : A → A → Bool) (t : List A) → All P t → All P (order_by precedes t)
  unfolding order_by
  All-order_by precedes [] h = tt
  All-order_by precedes (r ∷ t) h =
      All-insert_by precedes r (order_by precedes t) h.0 (All-order_by precedes t h.1)

module _ {A : Type 0} (p : A → Bool) where
  pub All-select_where :
      (P : A → Type 0) (t : List A) → All P t → All (λ r. (p r ≡ true) × P r) (select_where p t)
  unfolding select_where
  All-select_where P [] h = tt
  All-select_where P (r ∷ t) h = elim (Bool-cases (p r)) [
    | inl e ↦ rw e ((e, h.0), All-select_where P t h.1)
    | inr e ↦ rw e (All-select_where P t h.1)
  ]

  length-select_where : (t : List A) → length (select_where p t) ≡ count_where p t
  unfolding select_where count_where
  length-select_where [] = refl
  length-select_where (r ∷ t) = ground (arith, length-select_where t)

  module _ (precedes : A → A → Bool) where
    length-insert_by : (r : A) (t : List A) → length (insert_by precedes r t) ≡ suc (length t)
    unfolding insert_by
    length-insert_by r [] = refl
    length-insert_by r (x ∷ t) = ground (arith, length-insert_by r t)

    length-order_by : (t : List A) → length (order_by precedes t) ≡ length t
    unfolding order_by
    length-order_by [] = refl
    length-order_by (r ∷ t) = length-insert_by r (order_by precedes t) ∙ ap suc (length-order_by t)

    -- How many rows a SELECT returns.
    pub length-order_by-select_where :
        (t : List A) → length (order_by precedes (select_where p t)) ≡ count_where p t
    length-order_by-select_where t = length-order_by (select_where p t) ∙ length-select_where t

-- The rows stand in the order: none precedes the one before it.
abbrev pub Follows : {A : Type 0} → (A → A → Bool) → A → List A → Type 0
Follows precedes x [] = Unit
Follows precedes x (y ∷ t) = precedes y x ≡ false

abbrev pub IsOrdered : {A : Type 0} → (A → A → Bool) → List A → Type 0
IsOrdered precedes [] = Unit
IsOrdered precedes (x ∷ t) = Follows precedes x t × IsOrdered precedes t

module _ {A : Type 0} (precedes : A → A → Bool)
    (asym : (a b : A) → precedes a b ≡ true → precedes b a ≡ false) where
  Follows-insert_by :
      (x r : A) (t : List A)
      → precedes x r ≡ true
      → Follows precedes x t
      → Follows precedes x (insert_by precedes r t)
  unfolding insert_by
  Follows-insert_by x r [] before h = asym x r before
  Follows-insert_by x r (y ∷ t) before h = elim (Bool-cases (precedes y r)) [
    | inl e ↦ rw e h
    | inr e ↦ rw e (asym x r before)
  ]

  IsOrdered-insert_by :
      (r : A) (t : List A) → IsOrdered precedes t → IsOrdered precedes (insert_by precedes r t)
  unfolding insert_by
  IsOrdered-insert_by r [] h = (tt, tt)
  IsOrdered-insert_by r (x ∷ t) h = elim (Bool-cases (precedes x r)) [
    | inl e ↦ rw e (Follows-insert_by x r t e h.0, IsOrdered-insert_by r t h.1)
    | inr e ↦ rw e (e, h)
  ]

  -- With an asymmetric order the rows of a SELECT are in that order.
  pub IsOrdered-order_by : (t : List A) → IsOrdered precedes (order_by precedes t)
  unfolding order_by
  IsOrdered-order_by [] = tt
  IsOrdered-order_by (r ∷ t) = IsOrdered-insert_by r (order_by precedes t) (IsOrdered-order_by t)
