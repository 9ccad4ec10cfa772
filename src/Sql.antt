-- ===== src/Sql.antt =====
-- What the repositories use of SQL: a table is the list of its rows in the order of insertion.
-- The statement kinds are UPDATE, DELETE, INSERT and SELECT with a condition on one row; `rowcount`
-- is the number of rows that the condition selects. A primary key is a function of the row.
pub mod Laws
pub mod Put
pub mod Order
pub mod Found
pub mod Sorted
pub mod Pages
pub mod Listed
use ai_lab_os.Prelude.{
  ℕ, suc, Bool, not, Option, none, some, List, [], ◌∷◌, ◌≡◌, String, str_eq, is_some, if◌then◌else◌,
}

module _ {ℓ} {A : Type ℓ} where
  -- UPDATE t SET f WHERE p
  unfoldable pub update_where : (A → Bool) → (A → A) → List A → List A
  update_where p f [] = []
  update_where p f (r ∷ t) = (if p r then f r else r) ∷ update_where p f t

  -- DELETE FROM t WHERE p
  unfoldable pub delete_where : (A → Bool) → List A → List A
  delete_where p [] = []
  delete_where p (r ∷ t) = let rest = delete_where p t in if p r then rest else r ∷ rest

  -- cursor.rowcount of an UPDATE or a DELETE
  unfoldable pub count_where : (A → Bool) → List A → ℕ
  count_where p [] = 0
  count_where p (r ∷ t) = let rest = count_where p t in if p r then suc rest else rest

  -- SELECT * FROM t WHERE p
  unfoldable pub select_where : (A → Bool) → List A → List A
  select_where p [] = []
  select_where p (r ∷ t) = let rest = select_where p t in if p r then r ∷ rest else rest

module _ {ℓ} {A : Type ℓ} (key : A → String) where
  -- SELECT * FROM t WHERE key = k, fetchone
  unfoldable pub find_key : String → List A → Option A
  find_key k [] = none
  find_key k (r ∷ t) = let rest = find_key k t in if str_eq (key r) k then some r else rest

  -- No two rows have the same key.
  abbrev pub IsKeyed : List A → Type ℓ
  IsKeyed [] = Unit
  IsKeyed (r ∷ t) = (find_key (key r) t ≡ none) × IsKeyed t
