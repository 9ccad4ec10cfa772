-- ===== src/Sql/Pages.antt =====
-- LIMIT and OFFSET.
use ai_lab_os.Prelude.{
  ℕ, zero, suc, ◌-◌, leb, Bool, ◌≡◌, List, [], ◌∷◌, if◌then◌else◌, arith, All, length,
}
use ai_lab_os.Sql.Sorted.{Follows, IsOrdered}

-- LIMIT ?
unfoldable pub take : {A : Type 0} → ℕ → List A → List A
take zero xs = []
take (suc n) [] = []
take (suc n) (x ∷ xs) = x ∷ take n xs

-- OFFSET ?
unfoldable pub drop : {A : Type 0} → ℕ → List A → List A
drop zero xs = xs
drop (suc n) [] = []
drop (suc n) (x ∷ xs) = drop n xs

module _ {A : Type 0} (P : A → Type 0) where
  pub All-take : (n : ℕ) (xs : List A) → All P xs → All P (take n xs)
  unfolding take
  All-take zero xs h = tt
  All-take (suc n) [] h = tt
  All-take (suc n) (x ∷ xs) h = (h.0, All-take n xs h.1)

  pub All-drop : (n : ℕ) (xs : List A) → All P xs → All P (drop n xs)
  unfolding drop
  All-drop zero xs h = h
  All-drop (suc n) [] h = tt
  All-drop (suc n) (x ∷ xs) h = All-drop n xs h.1

abbrev pub at_most : ℕ → ℕ → ℕ
at_most limit n = if leb limit n then limit else n

pub length-take : {A : Type 0} (n : ℕ) (xs : List A) → length (take n xs) ≡ at_most n (length xs)
unfolding take
length-take zero xs = ground arith
length-take (suc n) [] = ground arith
length-take (suc n) (x ∷ xs) = ground (arith, length-take n xs)

pub length-drop : {A : Type 0} (n : ℕ) (xs : List A) → length (drop n xs) ≡ length xs - n
unfolding drop
length-drop zero xs = omega arith
length-drop (suc n) [] = omega arith
length-drop (suc n) (x ∷ xs) = omega (arith, length-drop n xs)

module _ {A : Type 0} (precedes : A → A → Bool) where
  Follows-take :
      (n : ℕ) (x : A) (xs : List A) → Follows precedes x xs → Follows precedes x (take n xs)
  unfolding take
  Follows-take zero x xs h = tt
  Follows-take (suc n) x [] h = tt
  Follows-take (suc n) x (y ∷ xs) h = h

  pub IsOrdered-take :
      (n : ℕ) (xs : List A) → IsOrdered precedes xs → IsOrdered precedes (take n xs)
  unfolding take
  IsOrdered-take zero xs h = tt
  IsOrdered-take (suc n) [] h = tt
  IsOrdered-take (suc n) (x ∷ xs) h = (Follows-take n x xs h.0, IsOrdered-take n xs h.1)

  pub IsOrdered-drop :
      (n : ℕ) (xs : List A) → IsOrdered precedes xs → IsOrdered precedes (drop n xs)
  unfolding drop
  IsOrdered-drop zero xs h = h
  IsOrdered-drop (suc n) [] h = tt
  IsOrdered-drop (suc n) (x ∷ xs) h = IsOrdered-drop n xs h.1
