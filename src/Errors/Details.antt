-- ===== src/Errors/Details.antt =====
-- `sanitize_details` of core/errors/models.py.
use Prim.Native.String.{String}
use ai_lab_os.Prelude.{
  ℕ, Bool, true, false, not, ◌&&◌, ◌||◌, ◌≡◌, refl, inl, inr, List, [], ◌∷◌, str_eq, codes, lower,
  ◌==◌, if◌then◌else◌, Bool-cases,
}
use ai_lab_os.Json.{
  Json, Items, Fields, null, boolean, number, text, array, object, nil, item, nothing, field,
}
use ai_lab_os.Errors.Redact.{bearer_match, search, sanitize_text}
use ai_lab_os.Errors.Redact.Tokens.{search-sanitize_text}

-- str(key).lower(), or that of another text
unfoldable pub lowered : List ℕ → List ℕ
unfolding lower
lowered [] = []
lowered (c ∷ s) = lower c ∷ lowered s

-- `word in text`, on lists of code points
unfoldable pub is_prefix : List ℕ → List ℕ → Bool
is_prefix [] s = true
is_prefix (c ∷ word) [] = false
is_prefix (c ∷ word) (d ∷ s) = c == d && is_prefix word s

unfoldable pub is_infix : List ℕ → List ℕ → Bool
unfolding is_prefix
is_infix word [] = is_prefix word []
is_infix word (c ∷ s) = is_prefix word (c ∷ s) || is_infix word s

unfoldable pub has_any : List String → List ℕ → Bool
unfolding is_infix
has_any [] s = false
has_any (word ∷ words) s = is_infix (codes word) s || has_any words s

unfoldable pub secret_keys : List String
secret_keys =
    "api_key" ∷ "apikey" ∷ "authorization" ∷ "bearer" ∷ "password" ∷ "secret" ∷ "token" ∷ []

unfoldable pub is_secret_key : String → Bool
unfolding has_any secret_keys lowered
is_secret_key key = has_any secret_keys (lowered (codes key))

module _ (is_other_word : ℕ → Bool) where
  unfoldable mutual
    unfolding is_secret_key sanitize_text

    pub sanitize_details : Json → Json
    sanitize_details (object fs) = object (sanitize_fields fs)
    sanitize_details (array xs) = array (sanitize_items xs)
    sanitize_details (text s) = text (sanitize_text is_other_word s)
    sanitize_details null = null
    sanitize_details (boolean b) = boolean b
    sanitize_details (number n) = number n

    pub sanitize_items : Items → Items
    sanitize_items nil = nil
    sanitize_items (item x xs) = item (sanitize_details x) (sanitize_items xs)

    pub sanitize_fields : Fields → Fields
    sanitize_fields nothing = nothing
    sanitize_fields (field k v fs) =
        field k (if is_secret_key k then text "<REDACTED>" else sanitize_details v)
          (sanitize_fields fs)

  -- A value under a secret key, or a text with a bearer token, stands at some depth.
  abbrev is_mark : Json → Bool
  is_mark (text s) = str_eq s "<REDACTED>"
  is_mark _ = false

  mutual
    unfolding is_secret_key search

    pub leaks : Json → Bool
    leaks (object fs) = fields_leak fs
    leaks (array xs) = items_leak xs
    leaks (text s) = search is_other_word bearer_match false s
    leaks _ = false

    pub items_leak : Items → Bool
    items_leak nil = false
    items_leak (item x xs) = leaks x || items_leak xs

    pub fields_leak : Fields → Bool
    fields_leak nothing = false
    fields_leak (field k v fs) = is_secret_key k && not (is_mark v) || leaks v || fields_leak fs

  field-leaks :
      (k : String) (v : Json) (fs : Fields)
      → leaks (sanitize_details v) ≡ false
      → fields_leak fs ≡ false
      → fields_leak (field k (if is_secret_key k then text "<REDACTED>" else sanitize_details v) fs)
        ≡ false
  unfolding fields_leak search bearer_match
  field-leaks k v fs deep rest = elim (Bool-cases (is_secret_key k)) [
    | inl secret ↦ rw secret rest
    | inr plain ↦ rw (plain, deep) rest
  ]

  mutual
    unfolding sanitize_details leaks

    pub leaks-sanitize_details : (v : Json) → leaks (sanitize_details v) ≡ false
    leaks-sanitize_details (object fs) = leaks-sanitize_fields fs
    leaks-sanitize_details (array xs) = leaks-sanitize_items xs
    leaks-sanitize_details (text s) = (search-sanitize_text is_other_word s).0
    leaks-sanitize_details null = refl
    leaks-sanitize_details (boolean b) = refl
    leaks-sanitize_details (number n) = refl

    leaks-sanitize_items : (xs : Items) → items_leak (sanitize_items xs) ≡ false
    leaks-sanitize_items nil = refl
    leaks-sanitize_items (item x xs) = rw (leaks-sanitize_details x) (leaks-sanitize_items xs)

    pub leaks-sanitize_fields : (fs : Fields) → fields_leak (sanitize_fields fs) ≡ false
    leaks-sanitize_fields nothing = refl
    leaks-sanitize_fields (field k v fs) =
        field-leaks k v (sanitize_fields fs) (leaks-sanitize_details v) (leaks-sanitize_fields fs)
