-- ===== src/Errors/Redact/Short.antt =====
-- A text cut short has no bearer token that it did not have.
use Prim.Native.Char.{code}
use Prim.Native.String.{String}
use ai_lab_os.Prelude.{
  ℕ, zero, suc, ◌+◌, Bool, true, false, ◌||◌, ◌≡◌, refl, sym, ◌∙◌, Option, leb, is_some, is_space,
  arith,
}
use ai_lab_os.Errors.Redact.{
  is_token_char, after_char, token_match, spaces_match, is_letter, bearer_match, is_word, search,
  first_chars,
}
use ai_lab_os.Errors.Redact.Clean.{
  token_enough, gain, gain_and, gain_both, token-cons, spaces-cons, char-cons,
}

token-first_chars :
    (k n : ℕ) (s : String)
    → is_some (token_match k (first_chars n s)) ≡ true
    → is_some (token_match k s) ≡ true
unfolding token_match first_chars
token-first_chars k zero s h = token_enough k s (ground arith)
token-first_chars k (suc n) String.[] h = h
token-first_chars k (suc n) (String.◌∷◌ c s) h =
    token-cons k c s
    ∙ gain (is_token_char (code c)) (leb 8 k) (is_some (token_match (k + 1) (first_chars n s)))
        (is_some (token_match (k + 1) s)) (sym (token-cons k c (first_chars n s)) ∙ h)
        (token-first_chars (k + 1) n s)

spaces-first_chars :
    (seen : Bool) (n : ℕ) (s : String)
    → is_some (spaces_match seen (first_chars n s)) ≡ true
    → is_some (spaces_match seen s) ≡ true
unfolding spaces_match first_chars
spaces-first_chars seen zero s h = absurd (ground arith)
spaces-first_chars seen (suc n) String.[] h = h
spaces-first_chars seen (suc n) (String.◌∷◌ c s) h =
    spaces-cons seen c s
    ∙ gain_both (is_space (code c)) seen (is_some (spaces_match true (first_chars n s)))
        (is_some (token_match 0 (String.◌∷◌ c (first_chars n s)))) (is_some (spaces_match true s))
        (is_some (token_match 0 (String.◌∷◌ c s))) (sym (spaces-cons seen c (first_chars n s)) ∙ h)
        (spaces-first_chars true n s) (token-first_chars 0 (suc n) (String.◌∷◌ c s))

char-first_chars :
    (test : ℕ → Bool) (rest : String → Option ℕ) (n : ℕ) (s : String)
    → ((m : ℕ) (t : String) → is_some (rest (first_chars m t)) ≡ true → is_some (rest t) ≡ true)
    → is_some (after_char test rest (first_chars n s)) ≡ true
    → is_some (after_char test rest s) ≡ true
unfolding first_chars after_char
char-first_chars test rest zero s keep h = absurd (ground arith)
char-first_chars test rest (suc n) String.[] keep h = h
char-first_chars test rest (suc n) (String.◌∷◌ c s) keep h =
    char-cons test rest c s
    ∙ gain_and (test (code c)) (is_some (rest (first_chars n s))) (is_some (rest s))
        (sym (char-cons test rest c (first_chars n s)) ∙ h) (keep n s)

bearer-first_chars :
    (before : Bool) (n : ℕ) (s : String)
    → is_some (bearer_match before (first_chars n s)) ≡ true
    → is_some (bearer_match before s) ≡ true
unfolding bearer_match
bearer-first_chars before n s = char-first_chars (is_letter b'b') _ n s (λ n t.
    char-first_chars (is_letter b'e') _ n t (λ n t. char-first_chars (is_letter b'a') _ n t (λ n t.
      char-first_chars (is_letter b'r') _ n t (λ n t.
        char-first_chars (is_letter b'e') _ n t (λ n t.
          char-first_chars (is_letter b'r') (spaces_match false) n t (spaces-first_chars false))))))

or-gain :
    (a b c d : Bool)
    → (a || b) ≡ false
    → (c ≡ true → a ≡ true)
    → (b ≡ false → d ≡ false)
    → (c || d) ≡ false
or-gain true b c d e f g = absurd (ground arith)
or-gain false b true d e f g = sym (f refl)
or-gain false b false d e f g = g e

pub search-first_chars :
    (is_other_word : ℕ → Bool) (before : Bool) (n : ℕ) (s : String)
    → search is_other_word bearer_match before s ≡ false
    → search is_other_word bearer_match before (first_chars n s) ≡ false
unfolding search first_chars
search-first_chars is_other_word before zero s h = refl
search-first_chars is_other_word before (suc n) String.[] h = refl
search-first_chars is_other_word before (suc n) (String.◌∷◌ c s) h =
    or-gain (is_some (bearer_match before (String.◌∷◌ c s)))
      (search is_other_word bearer_match (is_word is_other_word (code c)) s)
      (is_some (bearer_match before (String.◌∷◌ c (first_chars n s))))
      (search is_other_word bearer_match (is_word is_other_word (code c)) (first_chars n s)) h
      (bearer-first_chars before (suc n) (String.◌∷◌ c s))
      (search-first_chars is_other_word (is_word is_other_word (code c)) n s)
