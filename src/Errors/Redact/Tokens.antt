-- ===== src/Errors/Redact/Tokens.antt =====
-- What `sanitize_text` promises.
use Prim.Native.String.{String}
use ai_lab_os.Prelude.{ℕ, Bool, false, ◌≡◌, refl, inl}
use ai_lab_os.Errors.Redact.{bearer_match, key_match, sub, search, sanitize_text}
use ai_lab_os.Errors.Redact.Clean.{search-bearer}
use ai_lab_os.Errors.Redact.Keys.{search-key}
use ai_lab_os.Errors.Redact.Short.{search-first_chars}

-- In a sanitized text no bearer token is found, nor one in what `pattern.sub` makes of any text; and no
-- `sk-` key is found once the keys are replaced, although a key has to stand between boundaries, which
-- the replacements may make or break. This holds whatever letters there are beyond ASCII.
pub search-sanitize_text :
    (is_other_word : ℕ → Bool) (value : String)
    → (search is_other_word bearer_match false (sanitize_text is_other_word value) ≡ false)
      × (search is_other_word bearer_match false (sub is_other_word bearer_match false 0 value)
          ≡ false)
      × (search is_other_word
            (key_match is_other_word)
            false
            (sub is_other_word (key_match is_other_word) false 0 value)
          ≡ false)
unfolding sanitize_text
search-sanitize_text is_other_word value =
    let keyless = sub is_other_word (key_match is_other_word) false 0 value in
    (
      search-first_chars is_other_word false 1000 (sub is_other_word bearer_match false 0 keyless)
          (search-bearer is_other_word false false 0 keyless),
      search-bearer is_other_word false false 0 value,
      search-key is_other_word false false 0 value (inl (refl, refl)),
    )
