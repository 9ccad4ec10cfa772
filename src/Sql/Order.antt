-- ===== src/Sql/Order.antt =====
-- ORDER BY: the rows that a SELECT returns, sorted by a strict order. Rows that the order does not
-- tell apart keep the order of the table.
use ai_lab_os.Prelude.{
  Bool, Bool-cases, inl, inr, none, some, List, [], ◌∷◌, ◌≡◌, refl, ap, ◌∙◌, String, str_eq, eq_iff,
  if◌then◌else◌, arith,
}
use ai_lab_os.Sql.{find_key, IsKeyed}

module _ {ℓ} {A : Type ℓ} (precedes : A → A → Bool) where
  unfoldable pub insert_by : A → List A → List A
  insert_by r [] = r ∷ []
  insert_by r (x ∷ t) = let rest = insert_by r t in if precedes x r then x ∷ rest else r ∷ x ∷ t

  unfoldable pub order_by : List A → List A
  unfolding insert_by
  order_by [] = []
  order_by (r ∷ t) = insert_by r (order_by t)

module _ {ℓ} {A : Type ℓ} (precedes : A → A → Bool) (key : A → String) where
  find_key-insert_by :
      (k : String) (r : A) (t : List A)
      → find_key key (key r) t ≡ none
      → find_key key k (insert_by precedes r t) ≡ find_key key k (r ∷ t)
  unfolding insert_by find_key
  find_key-insert_by k r [] free = refl
  find_key-insert_by k r (x ∷ t) free =
      ground (
        arith,
        eq_iff (key r) k,
        eq_iff (key x) k,
        eq_iff (key x) (key r),
        find_key-insert_by k r t,
      )

  -- Sorting keeps what is found under each key.
  pub find_key-order_by :
      (k : String) (t : List A)
      → IsKeyed key t
      → find_key key k (order_by precedes t) ≡ find_key key k t
  unfolding order_by find_key
  find_key-order_by k [] keyed = refl
  find_key-order_by k (r ∷ t) keyed =
      find_key-insert_by k r (order_by precedes t) (find_key-order_by (key r) t keyed.1 ∙ keyed.0)
      ∙ ap (λ rest. if str_eq (key r) k then some r else rest) (find_key-order_by k t keyed.1)

  IsKeyed-insert_by :
      (r : A) (t : List A)
      → find_key key (key r) t ≡ none
      → IsKeyed key t
      → IsKeyed key (insert_by precedes r t)
  unfolding insert_by find_key
  IsKeyed-insert_by r [] free keyed = (refl, tt)
  IsKeyed-insert_by r (x ∷ t) free keyed = elim (Bool-cases (precedes x r)) [
    | inr first ↦ rw first (free, keyed)
    | inl later ↦
        let tail : find_key key (key r) t ≡ none = ground arith in
        rw later (
          find_key-insert_by (key x) r t tail
              ∙ ground (arith, eq_iff (key x) (key r), eq_iff (key r) (key x), keyed.0),
          IsKeyed-insert_by r t tail keyed.1,
        )
  ]

  pub IsKeyed-order_by : (t : List A) → IsKeyed key t → IsKeyed key (order_by precedes t)
  unfolding order_by
  IsKeyed-order_by [] keyed = tt
  IsKeyed-order_by (r ∷ t) keyed =
      IsKeyed-insert_by r (order_by precedes t) (find_key-order_by (key r) t keyed.1 ∙ keyed.0)
        (IsKeyed-order_by t keyed.1)
