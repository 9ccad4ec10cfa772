-- ===== src/Sql/Put.antt =====
-- Replacing the row of a key by another row with the key.

use ai_lab_os.Prelude.{
  Bool, true, false, ◌&&◌, Bool-cases, inl, inr, sym, ap, ◌∙◌, none, some, List, [], ◌∷◌, ◌≡◌, refl,
  String, str_eq, eq_iff, if◌then◌else◌, arith,
}
use ai_lab_os.Sql.{update_where, find_key, IsKeyed}

module _ {ℓ} {A : Type ℓ} (key : A → String) (x : A) where
  -- The table with `x` in the place of the row with its key.
  abbrev pub put : List A → List A
  put t = update_where (λ r. str_eq (key r) (key x)) (λ r. x) t

  find_key-put-other :
      (k : String) (t : List A)
      → str_eq (key x) k ≡ false
      → find_key key k (put t) ≡ find_key key k t
  unfolding find_key update_where
  find_key-put-other k [] e = refl
  find_key-put-other k (y ∷ t) e =
      let tail = find_key-put-other k t e in
      elim (Bool-cases (str_eq (key y) (key x))) [
        | inl hit ↦ rw hit ground (arith, eq_iff (key y) (key x))
        | inr miss ↦ rw miss (ground arith)
      ]

  pub find_key-put :
      (k : String) (t : List A) (r : A)
      → find_key key (key x) t ≡ some r
      → find_key key k (put t) ≡ (if str_eq (key x) k then some x else find_key key k t)
  unfolding find_key update_where
  find_key-put k [] r e = cc
  find_key-put k (y ∷ t) r e = elim (Bool-cases (str_eq (key y) (key x))) [
    | inl hit ↦ rw hit ground (arith, eq_iff (key y) (key x), find_key-put-other k t)
    | inr miss ↦
        rw miss ground
          (arith, eq_iff (key y) k, eq_iff (key x) k, eq_iff (key y) (key x), find_key-put k t r)
  ]

  find_key-put-none :
      (k : String) (t : List A) → find_key key k t ≡ none → find_key key k (put t) ≡ none
  unfolding find_key update_where
  find_key-put-none k [] e = refl
  find_key-put-none k (y ∷ t) e =
      ground
        (arith, eq_iff (key y) k, eq_iff (key x) k, eq_iff (key y) (key x), find_key-put-none k t)

  pub IsKeyed-put : (t : List A) → IsKeyed key t → IsKeyed key (put t)
  unfolding update_where
  IsKeyed-put [] h = tt
  IsKeyed-put (y ∷ t) h = elim (Bool-cases (str_eq (key y) (key x))) [
    | inl hit ↦ rw hit (
      find_key-put-none (key x) t (rw (sym ((eq_iff (key y) (key x)).0 hit)) h.0),
      IsKeyed-put t h.1,
    )
    | inr miss ↦ rw miss (find_key-put-none (key y) t h.0, IsKeyed-put t h.1)
  ]

  -- Without a row that has its key the table stays as it is.
  pub put_absent : (t : List A) → find_key key (key x) t ≡ none → put t ≡ t
  unfolding find_key update_where
  put_absent [] e = refl
  put_absent (y ∷ t) e = ground (arith, put_absent t)

  put_guarded-none :
      (g : A → Bool) (t : List A)
      → find_key key (key x) t ≡ none
      → update_where (λ r. str_eq (key r) (key x) && g r) (λ r. x) t ≡ t
  unfolding find_key update_where
  put_guarded-none g [] e = refl
  put_guarded-none g (y ∷ t) e = ground (arith, put_guarded-none g t)

  -- UPDATE … WHERE key = k AND g, on a row that meets `g`, puts the row in its place.
  pub put_guarded :
      (g : A → Bool) (t : List A) (r : A)
      → IsKeyed key t
      → find_key key (key x) t ≡ some r
      → g r ≡ true
      → update_where (λ r. str_eq (key r) (key x) && g r) (λ r. x) t ≡ put t
  unfolding find_key update_where
  put_guarded g [] r keyed e h = cc
  put_guarded g (y ∷ t) r keyed e h = elim (Bool-cases (str_eq (key y) (key x))) [
    | inl hit ↦
        let free : find_key key (key x) t ≡ none =
          ground (arith, eq_iff (key y) (key x), keyed.0) in
        let here : g y ≡ true = ground arith in
        rw (hit, here) (ap (λ rest. x ∷ rest) (put_guarded-none g t free ∙ sym (put_absent t free)))
    | inr miss ↦ rw miss (ap (λ rest. y ∷ rest) (put_guarded g t r keyed.1 (ground arith) h))
  ]

  put_guarded_absent :
      (g : A → Bool) (k : String) (t : List A)
      → find_key key k t ≡ none
      → find_key key k (update_where (λ r. str_eq (key r) (key x) && g r) (λ r. x) t) ≡ none
  unfolding find_key update_where
  put_guarded_absent g k [] e = refl
  put_guarded_absent g k (y ∷ t) e =
      ground (
        arith,
        eq_iff (key y) k,
        eq_iff (key x) k,
        eq_iff (key y) (key x),
        put_guarded_absent g k t,
      )

  pub IsKeyed-put_guarded :
      (g : A → Bool) (t : List A)
      → IsKeyed key t
      → IsKeyed key (update_where (λ r. str_eq (key r) (key x) && g r) (λ r. x) t)
  unfolding update_where
  IsKeyed-put_guarded g [] h = tt
  IsKeyed-put_guarded g (y ∷ t) h = elim (Bool-cases (str_eq (key y) (key x) && g y)) [
    | inl hit ↦ rw hit (
      put_guarded_absent g (key x) t (ground (arith, eq_iff (key y) (key x), h.0)),
      IsKeyed-put_guarded g t h.1,
    )
    | inr miss ↦ rw miss (put_guarded_absent g (key y) t h.0, IsKeyed-put_guarded g t h.1)
  ]
