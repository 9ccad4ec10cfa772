-- ===== src/Sql/Listed.antt =====
-- What a SELECT with WHERE, ORDER BY, LIMIT and OFFSET returns: which rows, how often, in what order.
use ai_lab_os.Prelude.{
  ℕ, zero, suc, ◌+◌, ltb, Bool, true, false, not, ◌&&◌, ◌||◌, Option, none, some, List, [], ◌∷◌,
  ◌≡◌, refl, ap, ◌∙◌, length, arith,
}
use ai_lab_os.Sql.{select_where, count_where}
use ai_lab_os.Sql.Order.{insert_by, order_by}
use ai_lab_os.Sql.Sorted.{IsOrdered, IsOrdered-order_by}
use ai_lab_os.Sql.Pages.{take, at_most, length-take}

-- ORDER BY with these keys, the first one first.
abbrev pub lexicographic : {A : Type 0} → List (A → A → Bool) → A → A → Bool
lexicographic [] a b = false
lexicographic (key ∷ keys) a b = key a b || not (key b a) && lexicographic keys a b

-- A value that the query gives has to fit.
abbrev pub Asked : {A : Type 0} → Option A → (A → Type 0) → Type 0
Asked none Fits = Unit
Asked (some value) Fits = Fits value

module _ {A : Type 0} (q : A → Bool) where
  count_where-insert_by :
      (precedes : A → A → Bool) (r : A) (t : List A)
      → count_where q (insert_by precedes r t) ≡ count_where q (r ∷ t)
  unfolding insert_by count_where
  count_where-insert_by precedes r [] = refl
  count_where-insert_by precedes r (x ∷ t) = ground (arith, count_where-insert_by precedes r t)

  count_where-order_by :
      (precedes : A → A → Bool) (t : List A) → count_where q (order_by precedes t) ≡ count_where q t
  unfolding order_by count_where
  count_where-order_by precedes [] = refl
  count_where-order_by precedes (r ∷ t) =
      count_where-insert_by precedes r (order_by precedes t)
      ∙ ground (arith, count_where-order_by precedes t)

  count_where-select_where :
      (p : A → Bool) (t : List A)
      → count_where q (select_where p t) ≡ count_where (λ r. p r && q r) t
  unfolding select_where count_where
  count_where-select_where p [] = refl
  count_where-select_where p (r ∷ t) = ground (arith, count_where-select_where p t)

-- The rows of a table that meet a condition, as often as the table has them, in an order.
abbrev pub Selected : {A : Type 0} → (A → Bool) → (A → A → Bool) → List A → List A → Type 0
Selected {A} meets precedes table rows =
    ((q : A → Bool) → count_where q rows ≡ count_where (λ r. meets r && q r) table)
    × IsOrdered precedes rows

pub order_by-Selected :
    {A : Type 0} (meets : A → Bool) (precedes : A → A → Bool) (table : List A)
    → ((a b : A) → precedes a b ≡ true → precedes b a ≡ false)
    → Selected meets precedes table (order_by precedes (select_where meets table))
order_by-Selected meets precedes table asym = (
  λ q.
      count_where-order_by q precedes (select_where meets table)
      ∙ count_where-select_where q meets table,
  IsOrdered-order_by precedes asym (select_where meets table),
)

take-take-suc : {A : Type 0} (n : ℕ) (xs : List A) → take n (take (suc n) xs) ≡ take n xs
unfolding take
take-take-suc zero xs = refl
take-take-suc (suc n) [] = refl
take-take-suc (suc n) (x ∷ xs) = ap (λ t. x ∷ t) (take-take-suc n xs)

-- A page, out of one row more than the limit.
pub take-take : {A : Type 0} (n : ℕ) (xs : List A) → take n (take (n + 1) xs) ≡ take n xs
take-take n xs =
    let next : n + 1 ≡ suc n = omega arith in ap (λ m. take n (take m xs)) next ∙ take-take-suc n xs

is_longer : (limit n : ℕ) → ltb limit (at_most (limit + 1) n) ≡ ltb limit n
is_longer limit n = ground arith

pub ltb-length-take :
    {A : Type 0} (n : ℕ) (xs : List A) → ltb n (length (take (n + 1) xs)) ≡ ltb n (length xs)
ltb-length-take n xs = ap (ltb n) (length-take (n + 1) xs) ∙ is_longer n (length xs)
