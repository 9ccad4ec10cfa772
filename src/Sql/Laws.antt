-- ===== src/Sql/Laws.antt =====
-- Laws of the table operations of Sql.antt.
use mathlib.Core.Path.{subst}
use mathlib.Core.Option
use ai_lab_os.Prelude.{
  ℕ, Bool, Bool-cases, inl, inr, ◌&&◌, Option, none, some, List, [], ◌∷◌, ◌++◌, ◌≡◌, refl, String,
  str_eq, eq_iff, if◌then◌else◌, arith, All,
}
use ai_lab_os.Sql.{update_where, delete_where, count_where, find_key, IsKeyed}

module _ {ℓ} {A : Type ℓ} where
  -- The row as an UPDATE leaves it.
  abbrev pub updated : (A → Bool) → (A → A) → A → A
  updated p f r = if p r then f r else r

  pub All-update_where {κ} :
      (P : A → Type κ) (p : A → Bool) (f : A → A) (t : List A)
      → ((r : A) → P r → P (updated p f r))
      → All P t
      → All P (update_where p f t)
  unfolding update_where
  All-update_where P p f [] keep h = tt
  All-update_where P p f (r ∷ t) keep h = (keep r h.0, All-update_where P p f t keep h.1)

  pub All-delete_where {κ} :
      (P : A → Type κ) (p : A → Bool) (t : List A) → All P t → All P (delete_where p t)
  unfolding delete_where
  All-delete_where P p [] h = tt
  All-delete_where P p (r ∷ t) h = elim (Bool-cases (p r)) [
    | inl e ↦ rw e (All-delete_where P p t h.1)
    | inr e ↦ rw e (h.0, All-delete_where P p t h.1)
  ]

  -- An UPDATE that selects no row changes nothing.
  pub update_where_none :
      (p : A → Bool) (f : A → A) (t : List A) → count_where p t ≡ 0 → update_where p f t ≡ t
  unfolding count_where update_where
  update_where_none p f [] h = refl
  update_where_none p f (r ∷ t) h = ground (arith, update_where_none p f t)

  -- A DELETE that selects no row changes nothing.
  pub delete_where_none : (p : A → Bool) (t : List A) → count_where p t ≡ 0 → delete_where p t ≡ t
  unfolding count_where delete_where
  delete_where_none p [] h = refl
  delete_where_none p (r ∷ t) h = ground (arith, delete_where_none p t)

module _ {ℓ} {A : Type ℓ} (key : A → String) where
  key-updated : (p : A → Bool) (f : A → A) (r : A) → key (f r) ≡ key r → key (updated p f r) ≡ key r
  key-updated p f r same = elim (Bool-cases (p r)) [ inl e ↦ rw e same | inr e ↦ rw e ]

  -- A row is found after an UPDATE that keeps the keys where it was found before, updated.
  pub find_key-update_where :
      (p : A → Bool) (f : A → A) (k : String) (t : List A)
      → ((r : A) → key (f r) ≡ key r)
      → find_key key k (update_where p f t) ≡ Option.map (updated p f) (find_key key k t)
  unfolding find_key update_where
  find_key-update_where p f k [] same = refl
  find_key-update_where p f k (r ∷ t) same =
      rw (key-updated p f r (same r), find_key-update_where p f k t same)
        (elim (Bool-cases (str_eq (key r) k)) [ inl e ↦ rw e | inr e ↦ rw e ])

  find_key-update_where-none :
      (p : A → Bool) (f : A → A) (k : String) (t : List A)
      → ((r : A) → key (f r) ≡ key r)
      → find_key key k t ≡ none
      → find_key key k (update_where p f t) ≡ none
  find_key-update_where-none p f k t same h = rw (find_key-update_where p f k t same, h)

  pub IsKeyed-update_where :
      (p : A → Bool) (f : A → A) (t : List A)
      → ((r : A) → key (f r) ≡ key r)
      → IsKeyed key t
      → IsKeyed key (update_where p f t)
  unfolding update_where
  IsKeyed-update_where p f [] same h = tt
  IsKeyed-update_where p f (r ∷ t) same h = (
    rw (key-updated p f r (same r)) (find_key-update_where-none p f (key r) t same h.0),
    IsKeyed-update_where p f t same h.1,
  )

  -- How many rows a condition `key = k AND g` selects, read off the row that is found.
  abbrev pub matches : (A → Bool) → Option A → ℕ
  matches g none = 0
  matches g (some r) = if g r then 1 else 0

  count_where_absent :
      (g : A → Bool) (k : String) (t : List A)
      → find_key key k t ≡ none
      → count_where (λ r. str_eq (key r) k && g r) t ≡ 0
  unfolding find_key count_where
  count_where_absent g k [] h = refl
  count_where_absent g k (r ∷ t) h = ground (arith, count_where_absent g k t)

  -- With a primary key the rowcount of `WHERE key = k AND g` is 1 if the row is there and meets `g`.
  pub count_where_keyed :
      (g : A → Bool) (k : String) (t : List A)
      → IsKeyed key t
      → count_where (λ r. str_eq (key r) k && g r) t ≡ matches g (find_key key k t)
  unfolding find_key count_where
  count_where_keyed g k [] h = refl
  count_where_keyed g k (r ∷ t) h =
      ground
        (arith, eq_iff (key r) k, count_where_keyed g k t h.1, count_where_absent g (key r) t h.0)

  find_key-delete_where-none :
      (p : A → Bool) (k : String) (t : List A)
      → find_key key k t ≡ none
      → find_key key k (delete_where p t) ≡ none
  unfolding find_key delete_where
  find_key-delete_where-none p k [] h = refl
  find_key-delete_where-none p k (r ∷ t) h = ground (arith, find_key-delete_where-none p k t)

  pub IsKeyed-delete_where :
      (p : A → Bool) (t : List A) → IsKeyed key t → IsKeyed key (delete_where p t)
  unfolding delete_where
  IsKeyed-delete_where p [] h = tt
  IsKeyed-delete_where p (r ∷ t) h = elim (Bool-cases (p r)) [
    | inl e ↦ rw e (IsKeyed-delete_where p t h.1)
    | inr e ↦ rw e (find_key-delete_where-none p (key r) t h.0, IsKeyed-delete_where p t h.1)
  ]

  find_key-append :
      (k : String) (t : List A) (r : A)
      → find_key key k t ≡ none
      → find_key key k (t ++ r ∷ []) ≡ (if str_eq (key r) k then some r else none)
  unfolding find_key
  find_key-append k [] r h = refl
  find_key-append k (x ∷ t) r h = ground (arith, find_key-append k t r)

  -- A key that is not yet there may be inserted.
  pub IsKeyed-append :
      (t : List A) (r : A)
      → find_key key (key r) t ≡ none
      → IsKeyed key t
      → IsKeyed key (t ++ r ∷ [])
  unfolding find_key
  IsKeyed-append [] r h k = (refl, tt)
  IsKeyed-append (x ∷ t) r h k = (
    rw (find_key-append (key x) t r k.0)
        (ground (arith, eq_iff (key r) (key x), eq_iff (key x) (key r))),
    IsKeyed-append t r (ground (arith, eq_iff (key x) (key r))) k.1,
  )

  -- The row found after an INSERT of a new key.
  pub find_key-insert :
      (k : String) (t : List A) (r : A)
      → find_key key (key r) t ≡ none
      → find_key key k (t ++ r ∷ []) ≡ (if str_eq (key r) k then some r else find_key key k t)
  unfolding find_key
  find_key-insert k [] r h = refl
  find_key-insert k (x ∷ t) r h =
      ground
        (arith, find_key-insert k t r, eq_iff (key r) k, eq_iff (key x) k, eq_iff (key x) (key r))

  -- An INSERT at the end keeps what is found.
  pub find_key_kept :
      (k : String) (t : List A) (r x : A)
      → find_key key k t ≡ some x
      → find_key key k (t ++ r ∷ []) ≡ some x
  unfolding find_key
  find_key_kept k [] r x e = cc
  find_key_kept k (y ∷ t) r x e = ground (arith, find_key_kept k t r x)

  -- The row as a DELETE leaves it.
  abbrev pub remaining : (A → Bool) → Option A → Option A
  remaining p none = none
  remaining p (some r) = if p r then none else some r

  -- A row is found after a DELETE exactly if it was found before and is not selected.
  pub find_key-delete_where :
      (p : A → Bool) (k : String) (t : List A)
      → IsKeyed key t
      → find_key key k (delete_where p t) ≡ remaining p (find_key key k t)
  unfolding find_key delete_where
  find_key-delete_where p k [] h = refl
  find_key-delete_where p k (r ∷ t) h = ground (
    arith,
    eq_iff (key r) k,
    find_key-delete_where p k t h.1,
    find_key-delete_where-none p (key r) t h.0,
  )

  pub key-find_key : (k : String) (t : List A) (r : A) → find_key key k t ≡ some r → key r ≡ k
  unfolding find_key
  key-find_key k [] r e = cc
  key-find_key k (x ∷ t) r e = ground (arith, eq_iff (key x) k, key-find_key k t r)

module _ {ℓ κ} {A : Type ℓ} (key : A → String) (P : A → Type κ) where
  -- What holds of every row holds of the row that is found.
  pub All-find_key : (k : String) (t : List A) (r : A) → All P t → find_key key k t ≡ some r → P r
  unfolding find_key
  All-find_key k [] r h e = cc
  All-find_key k (x ∷ t) r h e = elim (Bool-cases (str_eq (key x) k)) [
    | inl same ↦ subst P (ground arith) h.0
    | inr other ↦ All-find_key k t r h.1 (ground arith)
  ]
