-- ===== src/Errors/Redact/Keys.antt =====
-- After the replacements of the keys none is found, although their pattern looks at the characters on
-- both sides.
use Prim.Native.Char.{Char, code}
use Prim.Native.String.{String}
use ai_lab_os.Prelude.{
  ℕ, zero, suc, ◌+◌, ◌-◌, Bool, true, false, not, ◌&&◌, ◌||◌, ◌≡◌, ◌⊎◌, refl, sym, ap, ◌∙◌, inl,
  inr, Option, none, some, leb, is_some, if◌then◌else◌, Bool-cases, arith,
}
use ai_lab_os.Errors.Redact.{
  is_key_char, next, after_char, is_code, marked, differ, is_word, key_end, key_match, sub, search,
}
use ai_lab_os.Errors.Redact.Clean.{cut, kept, rest_of, sub-cases, char-cons, char-cut, contra}

abbrev maybe_here : Bool → Option ℕ
maybe_here b = if b then some 0 else none

is_some-here : (b : Bool) → is_some (maybe_here b) ≡ b
is_some-here true = refl
is_some-here false = refl

here-some : (b : Bool) (n : ℕ) → maybe_here b ≡ some n → (b ≡ true) × (n ≡ 0)
here-some true n e = (refl, ground arith)
here-some false n e = cc

next-some : (o : Option ℕ) (n : ℕ) → next o ≡ some n → (m : ℕ) × (o ≡ some m) × (n ≡ suc m)
next-some none n e = cc
next-some (some m) n e = (m, refl, ground arith)

is_some-or :
    (a : Bool) (o : Option ℕ) (b : Bool)
    → is_some (if a && is_some o then next o else maybe_here b) ≡ (a && is_some o || b)
is_some-or true none b = is_some-here b
is_some-or true (some n) b = refl
is_some-or false o b = is_some-here b

second : (a b : Bool) → (a && b) ≡ true → b ≡ true
second true b e = e
second false b e = cc

first_true : (a b : Bool) → (a && b) ≡ true → a ≡ true
first_true true b e = refl
first_true false b e = e

differ-false : (b : Bool) → differ b false ≡ b
differ-false true = refl
differ-false false = refl

module _ (is_other_word : ℕ → Bool) where
  abbrev word : Char → Bool
  word c = is_word is_other_word (code c)

  -- A boundary stands `n` characters further on.
  pub ends : Bool → ℕ → String → Bool
  unfolding is_word
  ends prev zero String.[] = prev
  ends prev zero (String.◌∷◌ c s) = differ prev (is_word is_other_word (code c))
  ends prev (suc n) String.[] = false
  ends prev (suc n) (String.◌∷◌ c s) = ends (is_word is_other_word (code c)) n s

  key_end-cons :
      (k : ℕ) (last : Bool) (c : Char) (s : String)
      → is_some (key_end is_other_word k last (String.◌∷◌ c s)) ≡ (
          is_key_char (code c) && is_some (key_end is_other_word (k + 1) (word c) s)
          || leb 8 k && differ last (word c))
  unfolding key_end
  key_end-cons k last c s =
      is_some-or (is_key_char (code c)) (key_end is_other_word (k + 1) (word c) s)
        (leb 8 k && differ last (word c))

  key_end-ends :
      (k : ℕ) (last : Bool) (s : String) (n : ℕ)
      → key_end is_other_word k last s ≡ some n
      → ends last n s ≡ true
  unfolding key_end ends
  key_end-ends k last String.[] n e =
      let (hit, n_zero) = here-some (leb 8 k && last) n e in
      ap (λ m. ends last m String.[]) n_zero ∙ ground arith
  key_end-ends k last (String.◌∷◌ c s) n e =
      elim (Bool-cases
        (is_key_char (code c) && is_some (key_end is_other_word (k + 1) (word c) s))) [
          | inl longer ↦
              let (m, there, n_suc) =
                next-some (key_end is_other_word (k + 1) (word c) s) n (rw longer at e) in
              ap (λ m. ends last m (String.◌∷◌ c s)) n_suc ∙ key_end-ends (k + 1) (word c) s m there
          | inr stopped ↦
              let (hit, n_zero) = here-some (leb 8 k && differ last (word c)) n (rw stopped at e) in
              ap (λ m. ends last m (String.◌∷◌ c s)) n_zero
              ∙ second (leb 8 k) (differ last (word c)) hit
        ]

  key_end-marked :
      (k : ℕ) (last : Bool) (t : String)
      → is_some (key_end is_other_word k last (marked t)) ≡ (leb 8 k && last)
  unfolding key_end is_key_char is_word
  key_end-marked k last t =
      is_some-here (leb 8 k && differ last false) ∙ ap (λ b. leb 8 k && b) (differ-false last)

  key-before :
      (before : Bool) (s : String) (n : ℕ)
      → key_match is_other_word before s ≡ some n
      → before ≡ false
  unfolding key_match
  key-before true s n e = cc
  key-before false s n e = refl

  gain_or : (a b x y : Bool) → (a && x || b) ≡ true → (x ≡ true → y ≡ true) → (a && y || b) ≡ true
  gain_or true b true y h f = rw (f refl) refl
  gain_or true b false y h f = ground (arith, h)
  gain_or false b x y h f = h

  key_end-cut :
      (k : ℕ) (last before : Bool) (s : String)
      → (leb 8 k && last && not before) ≡ false
      → is_some
          (key_end is_other_word k last (cut is_other_word (key_match is_other_word) before s))
        ≡ true
      → is_some (key_end is_other_word k last s) ≡ true
  unfolding sub
  key_end-cut k last before String.[] same h = h
  key_end-cut k last before (String.◌∷◌ c s) same h =
      elim (sub-cases is_other_word (key_match is_other_word) before c s) [
        | inl (n, found, e) ↦
            let full : (leb 8 k && last) ≡ true =
              sym (key_end-marked k last (rest_of is_other_word (key_match is_other_word) c n s))
              ∙ ap (λ t. is_some (key_end is_other_word k last t)) (sym e)
              ∙ h in
            let start : before ≡ false = key-before before (String.◌∷◌ c s) n found in ground arith
        | inr (_, e) ↦
            key_end-cons k last c s
            ∙ gain_or (is_key_char (code c)) (leb 8 k && differ last (word c))
                (is_some (
                  key_end is_other_word (k + 1) (word c)
                    (kept is_other_word (key_match is_other_word) c s)))
                (is_some (key_end is_other_word (k + 1) (word c) s))
                (sym (key_end-cons k last c (kept is_other_word (key_match is_other_word) c s))
                  ∙ ap (λ t. is_some (key_end is_other_word k last t)) (sym e)
                  ∙ h)
                (key_end-cut (k + 1) (word c) (word c) s (ground arith))
      ]

  key-cut :
      (prev : Bool) (s : String)
      → is_some (key_match is_other_word prev (cut is_other_word (key_match is_other_word) prev s))
        ≡ true
      → is_some (key_match is_other_word prev s) ≡ true
  unfolding key_match
  key-cut true s h = h
  key-cut false s h =
      char-cut is_other_word (key_match is_other_word) (is_code b's')
        (after_char (is_code b'k') (after_char (is_code b'-') (key_end is_other_word 0 false)))
        false s refl
        (λ p t.
          char-cut is_other_word (key_match is_other_word) (is_code b'k')
            (after_char (is_code b'-') (key_end is_other_word 0 false)) p t refl
            (λ p t.
              char-cut is_other_word (key_match is_other_word) (is_code b'-')
                (key_end is_other_word 0 false) p t refl (λ p t. key_end-cut 0 false p t refl)))
        h

  after_char-ends :
      (test : ℕ → Bool) (rest : String → Option ℕ) (prev : Bool) (s : String) (n : ℕ)
      → ((c : Char) (t : String) (m : ℕ)
          → test (code c) ≡ true
          → rest t ≡ some m
          → ends (word c) m t ≡ true)
      → after_char test rest s ≡ some n
      → ends prev n s ≡ true
  unfolding after_char ends
  after_char-ends test rest prev String.[] n keep e = cc
  after_char-ends test rest prev (String.◌∷◌ c s) n keep e = elim (Bool-cases (test (code c))) [
    | inl hit ↦
        let (m, there, n_suc) = next-some (rest s) n (rw hit at e) in
        ap (λ k. ends prev k (String.◌∷◌ c s)) n_suc ∙ keep c s m hit there
    | inr miss ↦ cc (rw miss at e)
  ]

  dash-word : (c : ℕ) → is_code b'-' c ≡ true → is_word is_other_word c ≡ false
  unfolding is_word
  dash-word c e = let same : c ≡ 45 = ground arith in ap (is_word is_other_word) same

  s-word : (c : ℕ) → is_code b's' c ≡ true → is_word is_other_word c ≡ true
  unfolding is_word
  s-word c e = let same : c ≡ 115 = ground arith in ap (is_word is_other_word) same

  -- A match ends at a boundary.
  key-ends :
      (prev : Bool) (c : Char) (s : String) (n : ℕ)
      → key_match is_other_word prev (String.◌∷◌ c s) ≡ some n
      → ends (word c) (n - 1) s ≡ true
  unfolding key_match after_char
  key-ends true c s n e = cc
  key-ends false c s n e = elim (Bool-cases (is_code b's' (code c))) [
    | inr miss ↦ cc (rw miss at e)
    | inl hit ↦
        let (m, there, n_suc) =
          next-some
            (after_char (is_code b'k') (after_char (is_code b'-') (key_end is_other_word 0 false))
              s)
            n (rw hit at e) in
        let less : n - 1 ≡ m = omega (arith, n_suc) in
        ap (λ k. ends (word c) k s) less
        ∙ after_char-ends (is_code b'k') (after_char (is_code b'-') (key_end is_other_word 0 false))
            (word c) s m
            (λ d t j _ found.
              after_char-ends (is_code b'-') (key_end is_other_word 0 false) (word d) t j
                (λ dash u i hit' last.
                  ap (λ w. ends w i u) (dash-word (code dash) hit') ∙ key_end-ends 0 false u i last)
                found)
            there
  ]

  search-mark :
      (before : Bool) (t : String)
      → search is_other_word (key_match is_other_word) before (marked t)
        ≡ search is_other_word (key_match is_other_word) false t
  unfolding search key_match after_char is_word
  search-mark true t = refl
  search-mark false t = refl

  key-word :
      (before : Bool) (c : Char) (t : String)
      → is_some (key_match is_other_word before (String.◌∷◌ c t)) ≡ true
      → (before ≡ false) × (word c ≡ true)
  unfolding key_match
  key-word true c t h = cc
  key-word false c t h = (
    refl,
    s-word (code c) (
        first_true (is_code b's' (code c)) _ (
          sym (
            char-cons (is_code b's')
              (after_char (is_code b'k')
                (after_char (is_code b'-') (key_end is_other_word 0 false)))
              c t)
          ∙ h)),
  )

  -- A place of the text after the replacements: behind what was there before, or inside a match or at
  -- its end, behind the mark.
  abbrev pub IsPlace : Bool → Bool → ℕ → String → Type 0
  IsPlace before prev n s =
      ((before ≡ prev) × (n ≡ 0)) ⊎ ((before ≡ false) × (ends prev n s ≡ true))

  -- A key that is found there was found before.
  place-key :
      (before prev : Bool) (c : Char) (t : String)
      → IsPlace before prev 0 (String.◌∷◌ c t)
      → is_some (
          key_match is_other_word before
            (String.◌∷◌ c (kept is_other_word (key_match is_other_word) c t)))
        ≡ true
      → before ≡ prev
  unfolding ends
  place-key before prev c t (inl (same, _)) found = same
  place-key before prev c t (inr (mark, boundary)) found =
      let w = (key-word before c (kept is_other_word (key_match is_other_word) c t) found).1 in
      ground (arith, w)

  pub search-key :
      (before prev : Bool) (n : ℕ) (s : String)
      → IsPlace before prev n s
      → search is_other_word
          (key_match is_other_word)
          before
          (sub is_other_word (key_match is_other_word) prev n s)
        ≡ false
  unfolding search sub ends
  search-key before prev zero String.[] place = refl
  search-key before prev (suc n) String.[] place = refl
  search-key before prev (suc n) (String.◌∷◌ c s) (inl (_, none_left)) = absurd (omega arith)
  search-key before prev (suc n) (String.◌∷◌ c s) (inr (mark, boundary)) =
      search-key before (word c) n s (inr (mark, boundary))
  search-key before prev zero (String.◌∷◌ c s) place =
      elim (sub-cases is_other_word (key_match is_other_word) prev c s) [
        | inl (n, found, e) ↦
            ap (search is_other_word (key_match is_other_word) before) e
            ∙ search-mark before (rest_of is_other_word (key_match is_other_word) c n s)
            ∙ search-key false (word c) (n - 1) s (inr (refl, key-ends prev c s n found))
        | inr (missed, e) ↦
            let there = kept is_other_word (key_match is_other_word) c s in
            ap (search is_other_word (key_match is_other_word) before) e
            ∙ ap (λ found. found || search is_other_word (key_match is_other_word) (word c) there)
                (contra (is_some (key_match is_other_word before (String.◌∷◌ c there))) (λ found.
                  let same = place-key before prev c s place found in
                  sym (ap is_some missed)
                  ∙ key-cut prev (String.◌∷◌ c s) (
                      ap (λ t. is_some (key_match is_other_word prev t)) e
                      ∙ ap (λ b. is_some (key_match is_other_word b (String.◌∷◌ c there)))
                          (sym same)
                      ∙ found)))
            ∙ search-key (word c) (word c) 0 s (inl (refl, refl))
      ]
