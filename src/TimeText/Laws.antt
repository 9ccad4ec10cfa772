-- ===== src/TimeText/Laws.antt =====
-- The order of the texts, and how far it is that of the instants.
use ai_lab_os.Prelude.{
  ℕ, true, false, ◌≡◌, refl, ap, ◌∙◌, Option, none, some, List, [], ◌∷◌, ltb, leb, ◌==◌, not, arith,
}
use ai_lab_os.Scheduler.Models.{Instant}
use ai_lab_os.TimeText.{
  codes_ltb, TimeText, second_of, text_before, isoformat, stored, is_before, is_up_to, before,
  up_to, text_first,
}

not-ltb : (a b : ℕ) → not (ltb a b) ≡ leb b a
not-ltb a b = ground arith

pub codes_ltb-asym : (s t : List ℕ) → codes_ltb s t ≡ true → codes_ltb t s ≡ false
unfolding codes_ltb
codes_ltb-asym [] [] e = cc
codes_ltb-asym (a ∷ s) [] e = cc
codes_ltb-asym [] (b ∷ t) e = refl
codes_ltb-asym (a ∷ s) (b ∷ t) e = ground (arith, codes_ltb-asym s t)

pub text_before-asym : (s t : TimeText) → text_before s t ≡ true → text_before t s ≡ false
unfolding text_before
text_before-asym (a, s) (b, t) e = ground (arith, codes_ltb-asym s t)

-- No deadline in the second of the instant.
abbrev pub IsOtherSecond : Option Instant → Instant → Type 0
IsOtherSecond none as_of = Unit
IsOtherSecond (some t) as_of = (second_of t == second_of as_of) ≡ false

module _ (json_tail : ℕ → List ℕ) where
  -- In different seconds the texts are in the order of the instants.
  pub text_before-ltb :
      (t u : Instant)
      → (second_of t == second_of u) ≡ false
      → text_before (stored json_tail t) (isoformat u) ≡ ltb t u
  unfolding text_before isoformat
  text_before-ltb t u other = ground arith

  pub is_before-before :
      (due : Option Instant) (as_of : Instant)
      → IsOtherSecond due as_of
      → is_before json_tail due as_of ≡ before due as_of
  unfolding is_before
  is_before-before none as_of other = refl
  is_before-before (some t) as_of other = text_before-ltb t as_of other

  -- The same with the column on the other side.
  pub before_text-ltb :
      (t u : Instant)
      → (second_of t == second_of u) ≡ false
      → text_before (isoformat u) (stored json_tail t) ≡ ltb u t
  unfolding text_before isoformat
  before_text-ltb t u other = ground arith

  pub is_up_to-up_to :
      (due : Option Instant) (as_of : Instant)
      → IsOtherSecond due as_of
      → is_up_to json_tail due as_of ≡ up_to due as_of
  unfolding is_up_to
  is_up_to-up_to none as_of other = refl
  is_up_to-up_to (some t) as_of other = ap not (before_text-ltb t as_of other) ∙ not-ltb as_of t

  pub text_first-asym :
      (a b : Option Instant) → text_first json_tail a b ≡ true → text_first json_tail b a ≡ false
  unfolding text_first
  text_first-asym none b e = cc
  text_first-asym (some t) none e = refl
  text_first-asym (some t) (some u) e = text_before-asym (stored json_tail t) (stored json_tail u) e
