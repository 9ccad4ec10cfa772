-- ===== src/Scheduler/Cron/Parse/Grammar.antt =====
-- The expressions that `_cron_steps` accepts, described without its pattern.
use mathlib.Core.List.{append-nil}
use ai_lab_os.Prelude.{
  ℕ, ◌+◌, ◌/◌, ◌%◌, ◌≤◌, ◌<◌, ◌≡◌, ◌↔◌, refl, sym, ap, ◌∙◌, ◌≢◌, true, false, ◌⊎◌, inl, inr, some,
  List, [], ◌∷◌, ◌++◌, arith, Bool-cases, ltb, All, is_space, if◌then◌else◌,
}
use ai_lab_os.Scheduler.Cron.Parse.{
  Text, close_field, split_word, split, field_step, is_star, fields_steps, text_steps,
}

abbrev star : Text
star = b'*' ∷ []

-- `*/N` with N in decimal, for N below 100.
abbrev step_text : ℕ → Text
step_text n =
    if ltb n 10
    then b'*' ∷ b'/' ∷ (b'0' + n) ∷ []
    else b'*' ∷ b'/' ∷ (b'0' + n / 10) ∷ (b'0' + n % 10) ∷ []

-- The field `text` stands for a step of `n` out of `maximum`.
abbrev pub Steps : ℕ → Text → ℕ → Type 0
Steps maximum text n = ((text ≡ star) × (n ≡ 1)) ⊎ ((text ≡ step_text n) × (1 ≤ n) × (n ≤ maximum))

step_text_accepted :
    (maximum n : ℕ)
    → maximum < 100
    → 1 ≤ n
    → n ≤ maximum
    → field_step maximum (step_text n) ≡ some n
unfolding field_step
step_text_accepted maximum n max pos le = elim (Bool-cases (ltb n 10)) [
  | inl e ↦ rw e (ground arith)
  | inr e ↦ rw e (ground arith)
]

field_step_accepts :
    (maximum n : ℕ) (text : Text)
    → maximum < 100
    → Steps maximum text n
    → field_step maximum text ≡ some n
unfolding field_step
field_step_accepts maximum n text max (inl (e, one)) = rw e (rw one)
field_step_accepts maximum n text max (inr (e, pos, le)) =
    rw e (step_text_accepted maximum n max pos le)

field_step_only :
    (maximum n : ℕ) (text : Text)
    → maximum < 100
    → field_step maximum text ≡ some n
    → Steps maximum text n
unfolding field_step
field_step_only maximum n [] max e = cc
field_step_only maximum n (a ∷ []) max e = inl (ground arith, ground arith)
field_step_only maximum n (a ∷ b ∷ []) max e = cc
field_step_only maximum n (a ∷ b ∷ d ∷ []) max e = inr (ground arith, ground arith, ground arith)
field_step_only maximum n (a ∷ b ∷ d ∷ f ∷ []) max e =
    inr (ground arith, ground arith, ground arith)
field_step_only maximum n (a ∷ b ∷ d ∷ f ∷ g ∷ s) max e = cc

-- One field is accepted exactly if it is `*`, for a step of 1, or `*/N` with N in decimal without
-- leading zeros, for a step of N between 1 and the maximum.
pub field_step_iff :
    (maximum n : ℕ) (text : Text)
    → maximum < 100
    → (field_step maximum text ≡ some n) ↔ Steps maximum text n
field_step_iff maximum n text max =
    (field_step_only maximum n text max, field_step_accepts maximum n text max)

abbrev pub IsGap : Text → Type 0
IsGap = All (λ c. is_space c ≡ true)

abbrev pub IsWord : Text → Type 0
IsWord = All (λ c. is_space c ≡ false)

split_word-gap : (gap rest : Text) → IsGap gap → split (gap ++ rest) ≡ split rest
unfolding split
split_word-gap [] rest h = refl
split_word-gap (c ∷ gap) rest (h, hs) = rw h (split_word-gap gap rest hs)

split_word-word :
    (word : Text) (c : ℕ) (rest : Text)
    → IsWord word
    → is_space c ≡ true
    → split_word (word ++ c ∷ rest) ≡ (word, split rest)
unfolding split split_word
split_word-word [] c rest h sp = rw sp
split_word-word (a ∷ word) c rest (h, hs) sp =
    rw h (ground (arith, split_word-word word c rest hs sp))

-- A word in front of whitespace is the first field.
split-word :
    (a : ℕ) (word : Text) (c : ℕ) (rest : Text)
    → IsWord (a ∷ word)
    → is_space c ≡ true
    → split ((a ∷ word) ++ c ∷ rest) ≡ (a ∷ word) ∷ split rest
unfolding split
split-word a word c rest h sp =
    ap (λ (p : Text × List Text). close_field p.0 p.1) (split_word-word (a ∷ word) c rest h sp)

split_word-alone : (word : Text) → IsWord word → split_word word ≡ (word, [])
unfolding split_word
split_word-alone [] h = refl
split_word-alone (a ∷ word) (h, hs) = rw h (ground (arith, split_word-alone word hs))

split-alone : (a : ℕ) (word : Text) → IsWord (a ∷ word) → split (a ∷ word) ≡ (a ∷ word) ∷ []
unfolding split
split-alone a word h =
    ap (λ (p : Text × List Text). close_field p.0 p.1) (split_word-alone (a ∷ word) h)

-- Fields, each with the whitespace behind it; only the last may have none.
abbrev pub spaced : List (Text × Text) → Text
spaced [] = []
spaced ((field, gap) ∷ rest) = field ++ (gap ++ spaced rest)

abbrev pub IsSpaced : List (Text × Text) → Type 0
IsSpaced [] = Unit
IsSpaced ((field, gap) ∷ rest) =
    (field ≢ []) × IsWord field × IsGap gap × ((gap ≢ []) ⊎ (rest ≡ [])) × IsSpaced rest

abbrev pub words : List (Text × Text) → List Text
words [] = []
words ((field, gap) ∷ rest) = field ∷ words rest

split-spaced :
    (fields : List (Text × Text)) → IsSpaced fields → split (spaced fields) ≡ words fields
split-spaced [] h = unfold split in refl
split-spaced (([], gap) ∷ rest) h = absurd (h.0 refl)
split-spaced ((a ∷ field, c ∷ gap) ∷ rest) (_, w, (sp, g), _, h) =
    split-word a field c (gap ++ spaced rest) w sp
    ∙ ap (◌∷◌ (a ∷ field)) (split_word-gap gap (spaced rest) g ∙ split-spaced rest h)
split-spaced ((a ∷ field, []) ∷ []) (_, w, _, _, _) = rw append-nil (split-alone a field w)
split-spaced ((a ∷ field, []) ∷ r ∷ rest) (_, _, _, last, _) = elim last [
  | inl some_gap ↦ absurd (some_gap refl)
  | inr no_rest ↦ cc
]

fields_steps_accepts :
    (f g : Text) (m h : ℕ)
    → Steps 60 f m
    → Steps 24 g h
    → fields_steps (f ∷ g ∷ star ∷ star ∷ star ∷ []) ≡ some (m, h)
unfolding fields_steps
fields_steps_accepts f g m h sm sh =
    rw (field_step_accepts 60 m f (omega arith) sm, field_step_accepts 24 h g (omega arith) sh)

-- The five fields of an accepted expression.
abbrev pub Accepted : List Text → ℕ → ℕ → Type 0
Accepted fields m h =
    (f : Text) × (g : Text) × (fields ≡ f ∷ g ∷ star ∷ star ∷ star ∷ [])
    × Steps 60 f m
    × Steps 24 g h

is_star_only : (f : Text) → is_star f ≡ true → f ≡ star
unfolding is_star
is_star_only [] e = cc
is_star_only (a ∷ []) e = ground arith
is_star_only (a ∷ b ∷ f) e = cc

fields_steps_only :
    (fields : List Text) (m h : ℕ) → fields_steps fields ≡ some (m, h) → Accepted fields m h
unfolding fields_steps
fields_steps_only (f ∷ g ∷ x ∷ y ∷ z ∷ []) m h e = (
  f,
  g,
  ground (arith, is_star_only x, is_star_only y, is_star_only z),
  field_step_only 60 m f (omega arith) (ground arith),
  field_step_only 24 h g (omega arith) (ground arith),
)
fields_steps_only [] m h e = cc
fields_steps_only (_ ∷ []) m h e = cc
fields_steps_only (_ ∷ _ ∷ []) m h e = cc
fields_steps_only (_ ∷ _ ∷ _ ∷ []) m h e = cc
fields_steps_only (_ ∷ _ ∷ _ ∷ _ ∷ []) m h e = cc
fields_steps_only (_ ∷ _ ∷ _ ∷ _ ∷ _ ∷ _ ∷ _) m h e = cc

-- An expression is accepted with the steps m and h exactly if it has five fields, with any
-- whitespace around them, of which the first two are `*` or `*/N` (N in decimal without leading
-- zeros, at most 60 minutes and 24 hours), stand for m and h, and the other three are `*`.
pub text_steps_iff :
    (lead : Text) (fields : List (Text × Text)) (m h : ℕ)
    → IsGap lead
    → IsSpaced fields
    → (text_steps (lead ++ spaced fields) ≡ some (m, h)) ↔ Accepted (words fields) m h
unfolding text_steps
text_steps_iff lead fields m h gap sp =
    let cut : split (lead ++ spaced fields) ≡ words fields =
      split_word-gap lead (spaced fields) gap ∙ split-spaced fields sp in
    (
      λ e. fields_steps_only (words fields) m h (ap fields_steps (sym cut) ∙ e),
      λ (f, g, five, sm, sh). ap fields_steps (cut ∙ five) ∙ fields_steps_accepts f g m h sm sh,
    )
