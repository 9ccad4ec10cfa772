-- ===== src/Json.antt =====
-- JSON values, as the services keep them in their metadata. A number is its JSON text.
use ai_lab_os.Prelude.{
  ℕ, Bool, false, ◌||◌, Option, none, some, List, [], ◌∷◌, String, str_eq, codes, strip, lower,
  codes_eq, ◌==◌, if◌then◌else◌,
}

mutual
  pub data Json : Type 0 where
    null : Json
    boolean : Bool → Json
    number : String → Json
    text : String → Json
    array : Items → Json
    object : Fields → Json

  pub data Items : Type 0 where
    nil : Items
    item : Json → Items → Items

  pub data Fields : Type 0 where
    nothing : Fields
    field : String → Json → Fields → Fields

-- d.get(key), and json_extract of a key
unfoldable pub get : String → Fields → Option Json
get key nothing = none
get key (field k v fs) = let rest = get key fs in if str_eq k key then some v else rest

-- d[key] = value
unfoldable pub set : String → Json → Fields → Fields
set key value nothing = field key value nothing
set key value (field k v fs) =
    let rest = set key value fs in if str_eq k key then field k value fs else field k v rest

-- str(key).strip().lower().replace("-", "_")
unfoldable pub normal_codes : List ℕ → List ℕ
unfolding lower
normal_codes [] = []
normal_codes (c ∷ s) = (if c == b'-' then b'_' else lower c) ∷ normal_codes s

unfoldable pub is_one_of : List ℕ → List String → Bool
unfolding codes_eq
is_one_of s [] = false
is_one_of s (word ∷ words) = codes_eq s (codes word) || is_one_of s words

unfoldable pub is_sensitive_key : List String → String → Bool
unfolding normal_codes is_one_of strip
is_sensitive_key sensitive key = is_one_of (normal_codes (codes (strip key))) sensitive

-- A key of `sensitive` stands at some depth of the value.
unfoldable mutual
  unfolding is_sensitive_key

  pub contains_sensitive_key : List String → Json → Bool
  contains_sensitive_key sensitive (array xs) = items_contain_sensitive_key sensitive xs
  contains_sensitive_key sensitive (object fs) = fields_contain_sensitive_key sensitive fs
  contains_sensitive_key sensitive _ = false

  pub items_contain_sensitive_key : List String → Items → Bool
  items_contain_sensitive_key sensitive nil = false
  items_contain_sensitive_key sensitive (item x xs) =
      contains_sensitive_key sensitive x || items_contain_sensitive_key sensitive xs

  pub fields_contain_sensitive_key : List String → Fields → Bool
  fields_contain_sensitive_key sensitive nothing = false
  fields_contain_sensitive_key sensitive (field k v fs) =
      is_sensitive_key sensitive k
      || contains_sensitive_key sensitive v
      || fields_contain_sensitive_key sensitive fs
