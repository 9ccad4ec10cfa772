-- ===== src/Prelude/Strip.antt =====
-- Laws of `strip`.
use Prim.Native.Char.{code}
use Prim.Native.String.{String}
use mathlib.Core.Path.{◌≡◌, refl, ap, ◌∙◌}
use mathlib.Core.Logic.{inl, inr}
use mathlib.Core.Bool.{◌&&◌}
use ai_lab_os.Prelude.Tests.{Bool-cases}
use ai_lab_os.Prelude.Text.{is_space, is_blank, lstrip, rstrip, strip}

is_blank-lstrip : (s : String) → is_blank (lstrip s) ≡ is_blank s
unfolding is_blank lstrip
is_blank-lstrip String.[] = refl
is_blank-lstrip (String.◌∷◌ c s) = elim (Bool-cases (is_space (code c))) [
  | inl space ↦ rw space (is_blank-lstrip s)
  | inr word ↦ rw (word, word) refl
]

is_blank-rstrip : (s : String) → is_blank (rstrip s) ≡ is_blank s
unfolding is_blank rstrip
is_blank-rstrip String.[] = refl
is_blank-rstrip (String.◌∷◌ c s) = elim (Bool-cases (is_space (code c) && is_blank s)) [
  | inl blank ↦ rw blank refl
  | inr word ↦ rw (word, is_blank-rstrip s) word
]

pub is_blank-strip : (s : String) → is_blank (strip s) ≡ is_blank s
unfolding strip
is_blank-strip s = is_blank-rstrip (lstrip s) ∙ is_blank-lstrip s

rstrip-rstrip : (s : String) → rstrip (rstrip s) ≡ rstrip s
unfolding rstrip is_blank
rstrip-rstrip String.[] = refl
rstrip-rstrip (String.◌∷◌ c s) = elim (Bool-cases (is_space (code c) && is_blank s)) [
  | inl blank ↦ rw blank refl
  | inr word ↦ rw (word, is_blank-rstrip s, word, rstrip-rstrip s) refl
]

-- Stripping on the right leaves a text without blanks on the left so.
lstrip-rstrip-lstrip : (s : String) → lstrip (rstrip (lstrip s)) ≡ rstrip (lstrip s)
unfolding lstrip rstrip is_blank
lstrip-rstrip-lstrip String.[] = refl
lstrip-rstrip-lstrip (String.◌∷◌ c s) = elim (Bool-cases (is_space (code c))) [
  | inl space ↦ rw space (lstrip-rstrip-lstrip s)
  | inr word ↦ rw (word, word, word) refl
]

pub strip-strip : (s : String) → strip (strip s) ≡ strip s
unfolding strip
strip-strip s = ap rstrip (lstrip-rstrip-lstrip s) ∙ rstrip-rstrip (lstrip s)
