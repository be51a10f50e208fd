-- ===== src/Reduce/Codec/Rounding.antt =====
-- src/core/reduce.cc: the conversions to 16 bits round to the nearest value, ties to even. The
-- distance is that of the bit patterns, which for one sign is that of the values.
use native.Mathlib.Nat.{pow-suc, mod-lt, div-add-mod, mul_comm}
use vkccl.Prelude.{
  ℕ, zero, suc, ◌+◌, ◌-◌, ◌*◌, ◌/◌, ◌%◌, ◌^◌, ◌≤◌, ◌<◌, ◌≡◌, sym, subst, ◌∙◌, ◌⊎◌, inl, inr, false,
  arith, dec_le, leb, if◌then◌else◌, le→leb,
}
use vkccl.Reduce.Codec.{round_even, float_to_half, is_nan, float_to_bf16}

-- `r` of steps of `unit` is nearest to `x`, and even where two are.
abbrev pub Nearest : ℕ → ℕ → ℕ → Type 0
Nearest unit r x =
    (2 * x ≤ 2 * (r * unit) + unit)
    × (2 * (r * unit) ≤ 2 * x + unit)
    × ((2 * x ≡ 2 * (r * unit) + unit) ⊎ (2 * (r * unit) ≡ 2 * x + unit) → r % 2 ≡ 0)

-- A 32-bit pattern that is not a NaN becomes the nearest bfloat16 pattern, ties to even.
pub float_to_bf16-Nearest :
    (bits : ℕ) → bits < 2 ^ 32 → is_nan bits ≡ false → Nearest 65536 (float_to_bf16 bits) bits
unfolding float_to_bf16 is_nan
float_to_bf16-Nearest bits l h = ground arith

-- The rounding step of a quotient by `2 * u`.
round_even_cases :
    (q rem u : ℕ)
    → ((round_even q rem u ≡ q + 1) × (u < rem)
        ⊎ (round_even q rem u ≡ q + 1) × (rem ≡ u) × (q % 2 ≡ 1))
      ⊎ ((round_even q rem u ≡ q) × (rem < u) ⊎ (round_even q rem u ≡ q) × (rem ≡ u) × (q % 2 ≡ 0))
round_even_cases q rem u = ground arith

round_even-Nearest :
    (u q rem : ℕ) → rem < 2 * u → Nearest (2 * u) (round_even q rem u) (q * (2 * u) + rem)
round_even-Nearest u q rem h = elim (round_even_cases q rem u) [
  | inl (inl (e, a)) ↦ rw e (grind arith)
  | inl (inr (e, a, b)) ↦ rw e (grind arith)
  | inr (inl (e, a)) ↦ rw e (grind arith)
  | inr (inr (e, a, b)) ↦ rw e (grind arith)
]

twice_pow : (s : ℕ) → 0 < s → 2 ^ s ≡ 2 * 2 ^ (s - 1)
twice_pow zero h = absurd (omega arith)
twice_pow (suc s) h = let e : suc s - 1 ≡ s = omega arith in rw e (pow-suc 2 s ∙ mul_comm (2 ^ s) 2)

pow_from : (k : ℕ) → 2 ^ 14 ≤ 2 ^ (k + 14)
pow_from zero = omega arith
pow_from (suc k) =
    let e : suc k + 14 ≡ suc (k + 14) = omega arith in
    rw (e, pow-suc 2 (k + 14)) (omega (arith, pow_from k))

pow_ge : (s : ℕ) → 14 ≤ s → 2 ^ 14 ≤ 2 ^ s
pow_ge s h = let e : s ≡ s - 14 + 14 = omega arith in rw e (pow_from (s - 14))

-- A quotient of a number of 24 bits by a power of two of 14 bits or more.
divide-Nearest :
    (p u w : ℕ)
    → p ≡ 2 * u
    → 2 ^ 14 ≤ p
    → w < 2 ^ 24
    → Nearest p (round_even (w / p) (w % p) u) w × (round_even (w / p) (w % p) u ≤ 1024)
divide-Nearest p u w e h l =
    let near =
      round_even-Nearest u (w / p) (w % p) (omega (arith, e, mod-lt w {m = p} (omega arith))) in
    let small : w / p ≤ 1023 = grind (arith, div-add-mod w p) in
    let d : w / p * p + w % p ≡ w = grind (arith, div-add-mod w p) in
    let r : ℕ = round_even (w / p) (w % p) u in
    (
      subst (λ x. Nearest p r x) d (subst (λ k. Nearest k r (w / p * k + w % p)) (sym e) near),
      (omega (arith, round_even_cases (w / p) (w % p) u)),
    )

-- A half is not a subnormal from the pattern 0x38800000 on, and the exponent is 112 less.
float_to_half-Nearest_normal :
    (bits : ℕ)
    → bits < 2 ^ 32
    → 0x38800000 ≤ bits % 2 ^ 31
    → bits % 2 ^ 31 < 0x47800000
    → Nearest 8192 (float_to_half bits % 0x8000) (bits % 2 ^ 31 - 0x38000000)
      × (float_to_half bits / 0x8000 ≡ bits / 2 ^ 31)
unfolding float_to_half
float_to_half-Nearest_normal bits l h k = ground arith

abbrev pub exponent : ℕ → ℕ
exponent bits = (bits / 2 ^ 23) % 256

-- The mantissa with its hidden bit.
abbrev pub wide : ℕ → ℕ
wide bits = bits % 2 ^ 23 + 0x800000

float_to_half-Nearest_subnormal :
    (bits : ℕ)
    → bits < 2 ^ 32
    → 102 ≤ exponent bits
    → exponent bits ≤ 112
    → Nearest (2 ^ (126 - exponent bits)) (float_to_half bits % 0x8000) (wide bits)
      × (float_to_half bits / 0x8000 ≡ bits / 2 ^ 31)
unfolding float_to_half
float_to_half-Nearest_subnormal bits l h k =
    let s : ℕ = 126 - exponent bits in
    let (n, b) =
      divide-Nearest (2 ^ s) (2 ^ (s - 1)) (wide bits) (twice_pow s (omega arith))
        (pow_ge s (omega arith)) (omega arith) in
    let r : float_to_half bits
        ≡ bits / 2 ^ 31 * 0x8000
          + round_even (wide bits / 2 ^ s) (wide bits % 2 ^ s) (2 ^ (s - 1)) =
      ground arith in
    let m : float_to_half bits % 0x8000
        ≡ round_even (wide bits / 2 ^ s) (wide bits % 2 ^ s) (2 ^ (s - 1)) =
      omega (arith, r, b) in
    (rw m n, omega (arith, r, b))

-- The steps between the halves around a 32-bit pattern, and the pattern counted in the same unit:
-- from 113 on the exponent only moves, below it the mantissa does.
abbrev pub half_unit : ℕ → ℕ
half_unit bits = if leb 113 (exponent bits) then 2 ^ 13 else 2 ^ (126 - exponent bits)

abbrev pub in_half_unit : ℕ → ℕ
in_half_unit bits = if leb 113 (exponent bits) then bits % 2 ^ 31 - 112 * 2 ^ 23 else wide bits

-- A 32-bit pattern whose exponent is that of a half, subnormal ones included, becomes the nearest
-- half of the same sign, ties to even; the largest round up to infinity.
pub float_to_half-Nearest :
    (bits : ℕ)
    → bits < 2 ^ 32
    → 102 ≤ exponent bits
    → exponent bits ≤ 142
    → Nearest (half_unit bits) (float_to_half bits % 0x8000) (in_half_unit bits)
      × (float_to_half bits / 0x8000 ≡ bits / 2 ^ 31)
float_to_half-Nearest bits l h k = elim (dec_le 113 (exponent bits)) [
  | yes p ↦
      rw (le→leb 113 (exponent bits) p)
        (float_to_half-Nearest_normal bits l (omega arith) (omega arith))
  | no p ↦
      let e : leb 113 (exponent bits) ≡ false = ground arith in
      rw e (float_to_half-Nearest_subnormal bits l h (omega arith))
]
