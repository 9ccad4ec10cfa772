-- ===== src/Errors/Redact/Clean.antt =====
-- What `re.sub` leaves: the pattern is found no more.
use Prim.Native.Char.{Char, code}
use Prim.Native.String.{String}
use ai_lab_os.Prelude.{
  ℕ, zero, suc, ◌+◌, ◌-◌, Bool, true, false, ◌&&◌, ◌||◌, ◌≡◌, ◌⊎◌, refl, sym, ap, ◌∙◌, inl, inr,
  Option, none, some, leb, is_some, is_space, if◌then◌else◌, Bool-cases, Option-cases, arith,
}
use ai_lab_os.Errors.Redact.{
  is_token_char, next, after_char, token_match, spaces_match, is_letter, bearer_match, marked,
  is_word, sub, search,
}

is_some-next : (o : Option ℕ) → is_some (next o) ≡ is_some o
is_some-next none = refl
is_some-next (some n) = refl

-- A token is found once eight of its characters are read.
pub token_enough : (k : ℕ) (s : String) → leb 8 k ≡ true → is_some (token_match k s) ≡ true
unfolding token_match
token_enough k String.[] e = rw e refl
token_enough k (String.◌∷◌ c s) e = elim (Bool-cases (is_token_char (code c))) [
  | inl hit ↦ rw hit (is_some-next (token_match (k + 1) s) ∙ token_enough (k + 1) s (ground arith))
  | inr miss ↦ rw (miss, e) refl
]

is_some-if :
    (a b : Bool) (o : Option ℕ)
    → is_some (if a then next o else if b then some 0 else none) ≡ (if a then is_some o else b)
is_some-if a b none = ground arith
is_some-if a b (some n) = ground arith

is_some-when : (a : Bool) (o : Option ℕ) → is_some (if a then o else none) ≡ (a && is_some o)
is_some-when true o = refl
is_some-when false o = refl

-- What a test gains by a longer text, under the same condition.
pub gain :
    (a b x y : Bool)
    → (if a then x else b) ≡ true
    → (x ≡ true → y ≡ true)
    → (if a then y else b) ≡ true
gain true b x y h f = f h
gain false b x y h f = h

pub token-cons :
    (k : ℕ) (c : Char) (s : String)
    → is_some (token_match k (String.◌∷◌ c s))
      ≡ (if is_token_char (code c) then is_some (token_match (k + 1) s) else leb 8 k)
unfolding token_match
token-cons k c s = is_some-if (is_token_char (code c)) (leb 8 k) (token_match (k + 1) s)

pub spaces-cons :
    (seen : Bool) (c : Char) (s : String)
    → is_some (spaces_match seen (String.◌∷◌ c s)) ≡ (
        if is_space (code c)
        then is_some (spaces_match true s)
        else seen && is_some (token_match 0 (String.◌∷◌ c s)))
unfolding spaces_match
spaces-cons seen c s = elim (Bool-cases (is_space (code c))) [
  | inl blank ↦ rw blank (is_some-next (spaces_match true s))
  | inr word ↦ rw word (is_some-when seen (token_match 0 (String.◌∷◌ c s)))
]

pub char-cons :
    (test : ℕ → Bool) (rest : String → Option ℕ) (c : Char) (s : String)
    → is_some (after_char test rest (String.◌∷◌ c s)) ≡ (test (code c) && is_some (rest s))
unfolding after_char
char-cons test rest c s = elim (Bool-cases (test (code c))) [
  | inl hit ↦ rw hit (is_some-next (rest s))
  | inr miss ↦ rw miss refl
]

token-marked : (k : ℕ) (t : String) → is_some (token_match k (marked t)) ≡ leb 8 k
unfolding is_token_char token_match
token-marked k t = elim (Bool-cases (leb 8 k)) [ inl e ↦ rw e refl | inr e ↦ rw e refl ]

spaces-marked : (seen : Bool) (t : String) → is_some (spaces_match seen (marked t)) ≡ false
unfolding spaces_match is_space is_token_char token_match
spaces-marked true t = refl
spaces-marked false t = refl

-- `marked` without its first character
abbrev tail_of : String → String
tail_of s = String.◌∷◌ "R" (
    String.◌∷◌ "E" (
      String.◌∷◌ "D" (
        String.◌∷◌ "A"
          (String.◌∷◌ "C" (String.◌∷◌ "T" (String.◌∷◌ "E" (String.◌∷◌ "D" (String.◌∷◌ ">" s))))))))

pub absurd_bool : {P : Type 0} → false ≡ true → P
absurd_bool e = cc

pub gain_and : (a x y : Bool) → (a && x) ≡ true → (x ≡ true → y ≡ true) → (a && y) ≡ true
gain_and true x y h f = f h
gain_and false x y h f = h

pub gain_both :
    (a seen x y x' y' : Bool)
    → (if a then x else seen && y) ≡ true
    → (x ≡ true → x' ≡ true)
    → (y ≡ true → y' ≡ true)
    → (if a then x' else seen && y') ≡ true
gain_both true seen x y x' y' h f g = f h
gain_both false true x y x' y' h f g = g h
gain_both false false x y x' y' h f g = h

module _ (is_other_word : ℕ → Bool) (match : Bool → String → Option ℕ) where
  abbrev pub cut : Bool → String → String
  cut prev s = sub is_other_word match prev 0 s

  abbrev pub kept : Char → String → String
  kept c s = cut (is_word is_other_word (code c)) s

  abbrev pub rest_of : Char → ℕ → String → String
  rest_of c n s = sub is_other_word match (is_word is_other_word (code c)) (n - 1) s

  -- What stands at the start of a text after the replacements.
  pub sub-cases :
      (prev : Bool) (c : Char) (s : String)
      → ((n : ℕ) × (match prev (String.◌∷◌ c s) ≡ some n)
          × (cut prev (String.◌∷◌ c s) ≡ marked (rest_of c n s)))
        ⊎ ((match prev (String.◌∷◌ c s) ≡ none)
            × (cut prev (String.◌∷◌ c s) ≡ String.◌∷◌ c (kept c s)))
  unfolding sub
  sub-cases prev c s = elim (Option-cases (match prev (String.◌∷◌ c s))) [
    | inl e ↦ inr (e, ap resumed e)
    | inr (n, e) ↦ inl (n, e, ap resumed e)
  ]
    where
      resumed : Option ℕ → String
      resumed o = elim o [
        | some n ↦ marked (sub is_other_word match (is_word is_other_word (code c)) (n - 1) s)
        | none ↦ String.◌∷◌ c (sub is_other_word match (is_word is_other_word (code c)) 0 s)
      ]

  -- A pattern that is found at the start of a text after the replacements was there before.
  token-cut :
      (k : ℕ) (prev : Bool) (s : String)
      → is_some (token_match k (cut prev s)) ≡ true
      → is_some (token_match k s) ≡ true
  unfolding token_match is_token_char sub
  token-cut k prev String.[] h = h
  token-cut k prev (String.◌∷◌ c s) h = elim (sub-cases prev c s) [
    | inl (n, _, e) ↦
        token_enough k (String.◌∷◌ c s)
          (sym (token-marked k (rest_of c n s)) ∙ ap (λ t. is_some (token_match k t)) (sym e) ∙ h)
    | inr (_, e) ↦
        token-cons k c s
        ∙ gain (is_token_char (code c)) (leb 8 k) (is_some (token_match (k + 1) (kept c s)))
            (is_some (token_match (k + 1) s))
            (sym (token-cons k c (kept c s)) ∙ ap (λ t. is_some (token_match k t)) (sym e) ∙ h)
            (token-cut (k + 1) (is_word is_other_word (code c)) s)
  ]

  spaces-cut :
      (seen prev : Bool) (s : String)
      → is_some (spaces_match seen (cut prev s)) ≡ true
      → is_some (spaces_match seen s) ≡ true
  unfolding sub spaces_match
  spaces-cut seen prev String.[] h = h
  spaces-cut seen prev (String.◌∷◌ c s) h = elim (sub-cases prev c s) [
    | inl (n, _, e) ↦ absurd_bool (
        sym (spaces-marked seen (rest_of c n s))
        ∙ ap (λ t. is_some (spaces_match seen t)) (sym e)
        ∙ h)
    | inr (_, e) ↦
        spaces-cons seen c s
        ∙ gain_both (is_space (code c)) seen (is_some (spaces_match true (kept c s)))
            (is_some (token_match 0 (String.◌∷◌ c (kept c s)))) (is_some (spaces_match true s))
            (is_some (token_match 0 (String.◌∷◌ c s)))
            (sym (spaces-cons seen c (kept c s))
              ∙ ap (λ t. is_some (spaces_match seen t)) (sym e)
              ∙ h)
            (spaces-cut true (is_word is_other_word (code c)) s)
            (λ found.
              token-cut 0 prev (String.◌∷◌ c s) (ap (λ t. is_some (token_match 0 t)) e ∙ found))
  ]

  pub char-cut :
      (test : ℕ → Bool) (rest : String → Option ℕ) (prev : Bool) (s : String)
      → test b'<' ≡ false
      → ((before : Bool) (t : String)
          → is_some (rest (cut before t)) ≡ true
          → is_some (rest t) ≡ true)
      → is_some (after_char test rest (cut prev s)) ≡ true
      → is_some (after_char test rest s) ≡ true
  unfolding sub after_char
  char-cut test rest prev String.[] other keep h = h
  char-cut test rest prev (String.◌∷◌ c s) other keep h = elim (sub-cases prev c s) [
    | inl (n, _, e) ↦ absurd_bool (
        sym (
          char-cons test rest "<" (tail_of (rest_of c n s))
          ∙ ap (λ t. t && is_some (rest (tail_of (rest_of c n s)))) other)
        ∙ ap (λ t. is_some (after_char test rest t)) (sym e)
        ∙ h)
    | inr (_, e) ↦
        char-cons test rest c s
        ∙ gain_and (test (code c)) (is_some (rest (kept c s))) (is_some (rest s))
            (sym (char-cons test rest c (kept c s))
              ∙ ap (λ t. is_some (after_char test rest t)) (sym e)
              ∙ h)
            (keep (is_word is_other_word (code c)) s)
  ]

  bearer-cut :
      (prev before : Bool) (s : String)
      → is_some (bearer_match before (cut prev s)) ≡ true
      → is_some (bearer_match before s) ≡ true
  unfolding bearer_match
  bearer-cut prev before s = char-cut (is_letter b'b') _ prev s refl (λ p t.
      char-cut (is_letter b'e') _ p t refl (λ p t. char-cut (is_letter b'a') _ p t refl (λ p t.
        char-cut (is_letter b'r') _ p t refl (λ p t.
          char-cut (is_letter b'e') _ p t refl
            (λ p t. char-cut (is_letter b'r') (spaces_match false) p t refl (spaces-cut false))))))

-- No text that begins with the mark has a token there.
search-marked :
    (is_other_word : ℕ → Bool) (before : Bool) (t : String)
    → search is_other_word bearer_match before (marked t)
      ≡ search is_other_word bearer_match false t
unfolding search bearer_match after_char is_word
search-marked is_other_word before t = refl

pub contra : (a : Bool) → (a ≡ true → false ≡ true) → a ≡ false
contra true f = sym (f refl)
contra false f = refl

module _ (is_other_word : ℕ → Bool) where
  -- After the replacements no bearer token is found, from wherever in the last match they began.
  pub search-bearer :
      (before prev : Bool) (n : ℕ) (s : String)
      → search is_other_word bearer_match before (sub is_other_word bearer_match prev n s) ≡ false
  unfolding search sub bearer_match
  search-bearer before prev n String.[] = elim n [ zero ↦ refl | suc m ↦ refl ]
  search-bearer before prev (suc n) (String.◌∷◌ c s) =
      search-bearer before (is_word is_other_word (code c)) n s
  search-bearer before prev zero (String.◌∷◌ c s) =
      elim (sub-cases is_other_word bearer_match prev c s) [
        | inl (n, _, e) ↦
            ap (search is_other_word bearer_match before) e
            ∙ search-marked is_other_word before (rest_of is_other_word bearer_match c n s)
            ∙ search-bearer false (is_word is_other_word (code c)) (n - 1) s
        | inr (missed, e) ↦
            ap (search is_other_word bearer_match before) e
            ∙ ap
                (λ found.
                  found
                  || search is_other_word bearer_match (is_word is_other_word (code c))
                      (kept is_other_word bearer_match c s))
                (contra
                  (is_some
                    (bearer_match before (String.◌∷◌ c (kept is_other_word bearer_match c s))))
                  (λ found.
                    sym (ap is_some missed)
                    ∙ bearer-cut is_other_word bearer_match prev before (String.◌∷◌ c s)
                        (ap (λ t. is_some (bearer_match before t)) e ∙ found)))
            ∙ search-bearer (is_word is_other_word (code c)) (is_word is_other_word (code c)) 0 s
      ]
