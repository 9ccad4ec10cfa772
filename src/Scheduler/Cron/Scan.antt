-- ===== src/Scheduler/Cron/Scan.antt =====
-- `for i in range(start, stop, step)` with a body that returns a value or goes on: the shape of the
-- two inner loops of `TriggerEngine._next_cron`. Each round takes one unit of fuel; `stop` units are
-- enough for a step that is not 0.
use native.Mathlib.Nat.{mod-add-div, mul-le-mul_left, add-mod_right}
use native.Mathlib.Decide.{dec_lt}
use ai_lab_os.Prelude.{
  ℕ, zero, suc, ◌+◌, ◌*◌, ◌/◌, ◌%◌, ◌≤◌, ◌<◌, ◌≡◌, Option, none, some, arith, ltb, if◌then◌else◌,
  Bool-cases, Option-cases, inl, inr, ltb→lt, lt→ltb,
}

module _ {ℓ} {A : Type ℓ} where
  -- The value that the body returned, or that of the rounds behind it.
  abbrev pub or_else : Option A → Option A → Option A
  or_else (some a) rest = some a
  or_else none rest = rest

  unfoldable pub first_hit : ℕ → ℕ → ℕ → (ℕ → Option A) → ℕ → Option A
  first_hit zero step stop body i = none
  first_hit (suc fuel) step stop body i =
      let rest = first_hit fuel step stop body (i + step) in
      if ltb i stop then or_else (body i) rest else none

scaled_apart : (s p q : ℕ) → s * p < s * q → s * p + s ≤ s * q
scaled_apart s p q h = elim (dec_lt p q) [
  | yes lt ↦ grind (arith, mul-le-mul_left)
  | no ge ↦ absurd (grind (arith, mul-le-mul_left))
]

multiples_apart : (s i j : ℕ) → i % s ≡ 0 → j % s ≡ 0 → i < j → i + s ≤ j
multiples_apart s i j hi hj lt = omega (
  arith,
  mod-add-div i s,
  mod-add-div j s,
  scaled_apart s (i / s) (j / s) (omega (arith, mod-add-div i s, mod-add-div j s)),
)

step_on : (s i : ℕ) → i % s ≡ 0 → (i + s) % s ≡ 0
step_on s i h = rw add-mod_right h

module _ {ℓ} {A : Type ℓ} (step stop : ℕ) (body : ℕ → Option A) where
  -- A result was returned by the body at some round.
  pub first_hit_sound :
      (fuel i : ℕ) (a : A)
      → i % step ≡ 0
      → first_hit fuel step stop body i ≡ some a
      → (k : ℕ) × (body k ≡ some a) × (k < stop) × (k % step ≡ 0)
  unfolding first_hit
  first_hit_sound zero i a on h = cc
  first_hit_sound (suc fuel) i a on h = elim (Bool-cases (ltb i stop)) [
    | inl inside ↦ elim (Option-cases (body i)) [
      | inl e ↦ first_hit_sound fuel (i + step) a (step_on step i on) (rw (inside, e) at h)
      | inr (c, e) ↦ (i, ground arith, ltb→lt i stop inside, on)
    ]
    | inr outside ↦ absurd (cc)
  ]

  -- If the body returns a value at `j`, the loop ends there or before.
  pub first_hit_least :
      (fuel i j : ℕ) (b : A)
      → 1 ≤ step
      → stop ≤ fuel + i
      → i % step ≡ 0
      → i ≤ j
      → j < stop
      → j % step ≡ 0
      → body j ≡ some b
      → (k : ℕ) × (a : A) × (first_hit fuel step stop body i ≡ some a)
        × (body k ≡ some a)
        × (k % step ≡ 0)
        × (k ≤ j)
  unfolding first_hit
  first_hit_least zero i j b pos enough on le lt onj h = absurd (omega arith)
  first_hit_least (suc fuel) i j b pos enough on le lt onj h = elim (Option-cases (body i)) [
    | inr (c, e) ↦ (i, c, ground arith, e, on, le)
    | inl e ↦
        rw (lt→ltb i stop (omega arith), e)
          (first_hit_least fuel (i + step) j b pos (omega arith) (step_on step i on)
            (multiples_apart step i j on onj (ground arith)) lt onj h)
  ]
