-- ===== src/Scheduler/Cron/Parse.antt =====
-- `TriggerEngine._cron_steps`: the five fields of a cron expression, over its code points.
pub mod Grammar
use ai_lab_os.Prelude.{
  ℕ, suc, ◌+◌, ◌-◌, ◌*◌, ◌/◌, ◌%◌, ◌≤◌, ◌≡◌, refl, Bool, true, false, ◌&&◌, ◌||◌, Option, none,
  some, List, [], ◌∷◌, ◌++◌, arith, leb, ltb, ◌==◌, String, codes, is_space, if◌then◌else◌,
}

abbrev pub Text : Type 0
Text = List ℕ

-- A field is closed by whitespace, and an empty field is dropped.
close_field : Text → List Text → List Text
close_field [] fields = fields
close_field (c ∷ word) fields = (c ∷ word) ∷ fields

-- `split()`: the word that the text begins with, and the fields behind it.
split_word : Text → Text × List Text
split_word [] = ([], [])
split_word (c ∷ s) =
    let (word, fields) = split_word s in
    if is_space c then ([], close_field word fields) else (c ∷ word, fields)

pub split : Text → List Text
unfolding split_word close_field is_space
split s = let (word, fields) = split_word s in close_field word fields

-- [0-9] and [1-9]
is_digit : ℕ → Bool
is_digit c = leb b'0' c && leb c b'9'

is_digit_pos : ℕ → Bool
is_digit_pos c = leb b'1' c && leb c b'9'

within : ℕ → ℕ → Option ℕ
within maximum n = if ltb maximum n then none else some n

-- One field: `*`, or `*/N` by the pattern \*/([1-9][0-9]?), with N at most `maximum`.
pub field_step : ℕ → Text → Option ℕ
unfolding is_digit is_digit_pos within
field_step maximum (a ∷ []) = if a == b'*' then some 1 else none
field_step maximum (a ∷ b ∷ d ∷ []) =
    if a == b'*' && b == b'/' && is_digit_pos d then within maximum (d - b'0') else none
field_step maximum (a ∷ b ∷ d ∷ e ∷ []) =
    if a == b'*' && b == b'/' && is_digit_pos d && is_digit e
    then within maximum ((d - b'0') * 10 + (e - b'0'))
    else none
field_step maximum _ = none

-- field == "*"
is_star : Text → Bool
is_star (a ∷ []) = a == b'*'
is_star _ = false

both_steps : Option ℕ → Option ℕ → Option (ℕ × ℕ)
both_steps (some m) (some h) = some (m, h)
both_steps _ _ = none

fields_steps : List Text → Option (ℕ × ℕ)
unfolding field_step is_star both_steps
fields_steps (minutes ∷ hours ∷ f ∷ g ∷ h ∷ []) =
    if is_star f && is_star g && is_star h
    then both_steps (field_step 60 minutes) (field_step 24 hours)
    else none
fields_steps _ = none

unfoldable pub text_steps : Text → Option (ℕ × ℕ)
unfolding split fields_steps
text_steps text = fields_steps (split text)

unfoldable pub cron_steps : String → Option (ℕ × ℕ)
unfolding text_steps
cron_steps expression = text_steps (codes expression)

field_step_bounds :
    (maximum : ℕ) (field : Text) (n : ℕ)
    → 1 ≤ maximum
    → field_step maximum field ≡ some n
    → (1 ≤ n) × (n ≤ maximum)
unfolding field_step
field_step_bounds maximum [] n le h = ground arith
field_step_bounds maximum (a ∷ []) n le h = ground arith
field_step_bounds maximum (a ∷ b ∷ []) n le h = ground arith
field_step_bounds maximum (a ∷ b ∷ d ∷ []) n le h = ground arith
field_step_bounds maximum (a ∷ b ∷ d ∷ e ∷ []) n le h = ground arith
field_step_bounds maximum (a ∷ b ∷ d ∷ e ∷ f ∷ s) n le h = ground arith

test_steps : cron_steps "*/5  */2 * * *" ≡ some (5, 2)
unfolding cron_steps
test_steps = refl

test_no_leading_zero : cron_steps "*/05 * * * *" ≡ none
unfolding cron_steps
test_no_leading_zero = refl

fields_steps_bounds :
    (fields : List Text) (m h : ℕ)
    → fields_steps fields ≡ some (m, h)
    → ((1 ≤ m) × (m ≤ 60)) × ((1 ≤ h) × (h ≤ 24))
unfolding fields_steps
fields_steps_bounds (f ∷ g ∷ x ∷ y ∷ z ∷ []) m h e =
    ground (arith, field_step_bounds 60 f m, field_step_bounds 24 g h)
fields_steps_bounds [] m h e = cc
fields_steps_bounds (_ ∷ []) m h e = cc
fields_steps_bounds (_ ∷ _ ∷ []) m h e = cc
fields_steps_bounds (_ ∷ _ ∷ _ ∷ []) m h e = cc
fields_steps_bounds (_ ∷ _ ∷ _ ∷ _ ∷ []) m h e = cc
fields_steps_bounds (_ ∷ _ ∷ _ ∷ _ ∷ _ ∷ _ ∷ _) m h e = cc

-- An accepted expression has steps between 1 and 60 minutes, and between 1 and 24 hours.
pub cron_steps_bounds :
    (expression : String) (m h : ℕ)
    → cron_steps expression ≡ some (m, h)
    → ((1 ≤ m) × (m ≤ 60)) × ((1 ≤ h) × (h ≤ 24))
unfolding cron_steps
cron_steps_bounds expression m h e = fields_steps_bounds (split (codes expression)) m h e
