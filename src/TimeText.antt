-- ===== src/TimeText.antt =====
-- Datetimes as texts, as the repositories compare them: the text in a column ends as `model_dump`
-- writes it (an argument), the one of a bound as `isoformat` does. What stands before the fraction of
-- a second has a fixed width, so that it is compared as the number of seconds.
pub mod Laws
use ai_lab_os.Prelude.{
  ℕ, ◌+◌, ◌/◌, ◌%◌, Bool, true, false, not, ◌&&◌, ◌||◌, Option, none, some, List, [], ◌∷◌, codes,
  ltb, leb, ◌==◌, if◌then◌else◌,
}
use ai_lab_os.Scheduler.Models.{Instant}

-- `s < t` on texts as lists of code points
unfoldable pub codes_ltb : List ℕ → List ℕ → Bool
codes_ltb s [] = false
codes_ltb [] (b ∷ t) = true
codes_ltb (a ∷ s) (b ∷ t) = ltb a b || a == b && codes_ltb s t

-- The whole seconds, and the text behind them.
abbrev pub TimeText : Type 0
TimeText = ℕ × List ℕ

abbrev pub second_of : Instant → ℕ
second_of t = t / 1000000

abbrev pub fraction_of : Instant → ℕ
fraction_of t = t % 1000000

unfoldable pub text_before : TimeText → TimeText → Bool
unfolding codes_ltb
text_before (a, s) (b, t) = ltb a b || a == b && codes_ltb s t

abbrev pub digit : ℕ → ℕ
digit n = b'0' + n % 10

-- The fraction with its six digits, if it is not zero, and the offset from UTC.
unfoldable pub iso_tail : ℕ → List ℕ
iso_tail n =
    if n == 0
    then codes "+00:00"
    else b'.'
      ∷ digit (n / 100000)
      ∷ digit (n / 10000)
      ∷ digit (n / 1000)
      ∷ digit (n / 100)
      ∷ digit (n / 10)
      ∷ digit n
      ∷ codes "+00:00"

unfoldable pub isoformat : Instant → TimeText
unfolding iso_tail
isoformat t = (second_of t, iso_tail (fraction_of t))

-- `o < t`, and false without `o`
abbrev pub before : Option Instant → Instant → Bool
before none t = false
before (some o) t = ltb o t

-- `o <= t`, and false without `o`
abbrev pub up_to : Option Instant → Instant → Bool
up_to none t = false
up_to (some o) t = leb o t

module _ (json_tail : ℕ → List ℕ) where
  -- The text of a datetime in a column.
  abbrev pub stored : Instant → TimeText
  stored t = (second_of t, json_tail (fraction_of t))

  -- `column < bound` and `column >= bound`; NULL meets neither.
  unfoldable pub is_before : Option Instant → Instant → Bool
  unfolding text_before isoformat
  is_before none bound = false
  is_before (some t) bound = text_before (stored t) (isoformat bound)

  unfoldable pub is_from : Option Instant → Instant → Bool
  unfolding text_before isoformat
  is_from none bound = false
  is_from (some t) bound = not (text_before (stored t) (isoformat bound))

  -- `column <= bound`
  unfoldable pub is_up_to : Option Instant → Instant → Bool
  unfolding text_before isoformat
  is_up_to none bound = false
  is_up_to (some t) bound = not (text_before (isoformat bound) (stored t))

  -- ORDER BY column IS NULL, column
  unfoldable pub text_first : Option Instant → Option Instant → Bool
  unfolding text_before
  text_first none b = false
  text_first (some t) none = true
  text_first (some t) (some u) = text_before (stored t) (stored u)
