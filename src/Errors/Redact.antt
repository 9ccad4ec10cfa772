-- ===== src/Errors/Redact.antt =====
-- `sanitize_text` of core/errors/models.py: its two patterns and `pattern.sub`. What `\w` takes beyond
-- ASCII is an argument.
pub mod Clean
pub mod Keys
pub mod Short
pub mod Tokens
use Prim.Native.Char.{code}
use Prim.Native.String.{String}
use ai_lab_os.Prelude.{
  ℕ, zero, suc, ◌+◌, ◌-◌, Bool, true, false, not, ◌&&◌, ◌||◌, Option, none, some, leb, ◌==◌,
  is_some, is_space, if◌then◌else◌,
}

-- [A-Za-z0-9]
abbrev pub is_alnum : ℕ → Bool
is_alnum c = leb b'a' c && leb c b'z' || leb b'A' c && leb c b'Z' || leb b'0' c && leb c b'9'

-- [A-Za-z0-9_-]
unfoldable pub is_key_char : ℕ → Bool
is_key_char c = is_alnum c || c == b'_' || c == b'-'

-- [A-Za-z0-9._~+/=-] under IGNORECASE, where [a-z] has four letters beyond ASCII
unfoldable pub is_token_char : ℕ → Bool
is_token_char c =
    is_alnum c
    || c == b'.'
    || c == b'_'
    || c == b'~'
    || c == b'+'
    || c == b'/'
    || c == b'='
    || c == b'-'
    || c == 0x130
    || c == 0x131
    || c == 0x17f
    || c == 0x212a

abbrev pub next : Option ℕ → Option ℕ
next none = none
next (some n) = some (suc n)

-- One character of a pattern, and what follows it. A match is the number of its characters.
unfoldable pub after_char : (ℕ → Bool) → (String → Option ℕ) → String → Option ℕ
after_char test rest String.[] = none
after_char test rest (String.◌∷◌ c s) = if test (code c) then next (rest s) else none

-- [A-Za-z0-9._~+/=-]{8,}, `k` of them read
unfoldable pub token_match : ℕ → String → Option ℕ
unfolding is_token_char
token_match k String.[] = if leb 8 k then some 0 else none
token_match k (String.◌∷◌ c s) =
    let rest = token_match (k + 1) s in
    if is_token_char (code c) then next rest else if leb 8 k then some 0 else none

-- \s+ and the token, `seen` once one blank is read; the token has no blanks
unfoldable pub spaces_match : Bool → String → Option ℕ
unfolding token_match is_space
spaces_match seen String.[] = none
spaces_match seen (String.◌∷◌ c s) =
    let rest = spaces_match true s in
    if is_space (code c) then next rest else if seen then token_match 0 (String.◌∷◌ c s) else none

abbrev pub is_code : ℕ → ℕ → Bool
is_code b c = c == b

-- A letter under IGNORECASE, given in lower case.
abbrev pub is_letter : ℕ → ℕ → Bool
is_letter b c = c == b || c + 32 == b

-- (?i)bearer\s+[A-Za-z0-9._~+/=-]{8,}
unfoldable pub bearer_match : Bool → String → Option ℕ
unfolding after_char spaces_match
bearer_match prev s =
    after_char (is_letter b'b')
      (after_char (is_letter b'e') (
        after_char (is_letter b'a') (
          after_char (is_letter b'r')
            (after_char (is_letter b'e') (after_char (is_letter b'r') (spaces_match false))))))
      s

-- "<REDACTED>" in front of a text
abbrev pub marked : String → String
marked s = String.◌∷◌ "<" (
    String.◌∷◌ "R" (
      String.◌∷◌ "E" (
        String.◌∷◌ "D" (
          String.◌∷◌ "A" (
            String.◌∷◌ "C"
              (String.◌∷◌ "T" (String.◌∷◌ "E" (String.◌∷◌ "D" (String.◌∷◌ ">" s)))))))))

abbrev pub differ : Bool → Bool → Bool
differ a b = a && not b || not a && b

module _ (is_other_word : ℕ → Bool) where
  -- \w
  unfoldable pub is_word : ℕ → Bool
  is_word c = is_alnum c || c == b'_' || leb 128 c && is_other_word c

  -- [A-Za-z0-9_-]{8,}\b, `k` of them read, the last one a word character or not: the longest match
  unfoldable pub key_end : ℕ → Bool → String → Option ℕ
  unfolding is_key_char is_word
  key_end k last String.[] = if leb 8 k && last then some 0 else none
  key_end k last (String.◌∷◌ c s) =
      let rest = key_end (k + 1) (is_word (code c)) s in
      if is_key_char (code c) && is_some rest
      then next rest
      else if leb 8 k && differ last (is_word (code c))
      then some 0
      else none

  -- \bsk-[A-Za-z0-9_-]{8,}\b, behind a word character or not
  unfoldable pub key_match : Bool → String → Option ℕ
  unfolding after_char key_end
  key_match prev s =
      if prev
      then none
      else after_char (is_code b's')
          (after_char (is_code b'k') (after_char (is_code b'-') (key_end 0 false))) s

  -- pattern.sub("<REDACTED>", text), from a place behind a word character or not, of which `n`
  -- characters belong to the last match
  unfoldable pub sub : (Bool → String → Option ℕ) → Bool → ℕ → String → String
  unfolding is_word
  sub match prev n String.[] = String.[]
  sub match prev (suc n) (String.◌∷◌ c s) = sub match (is_word (code c)) n s
  sub match prev zero (String.◌∷◌ c s) = elim (match prev (String.◌∷◌ c s)) [
    | some n ↦ marked (sub match (is_word (code c)) (n - 1) s)
    | none ↦ String.◌∷◌ c (sub match (is_word (code c)) 0 s)
  ]

  -- pattern.search(text) is not None
  unfoldable pub search : (Bool → String → Option ℕ) → Bool → String → Bool
  unfolding is_word
  search match prev String.[] = false
  search match prev (String.◌∷◌ c s) =
      is_some (match prev (String.◌∷◌ c s)) || search match (is_word (code c)) s

-- text[:n]
unfoldable pub first_chars : ℕ → String → String
first_chars zero s = String.[]
first_chars (suc n) String.[] = String.[]
first_chars (suc n) (String.◌∷◌ c s) = String.◌∷◌ c (first_chars n s)

module _ (is_other_word : ℕ → Bool) where
  unfoldable pub sanitize_text : String → String
  unfolding first_chars sub key_match bearer_match
  sanitize_text value = first_chars 1000 (
      sub is_other_word bearer_match false 0
        (sub is_other_word (key_match is_other_word) false 0 value))
