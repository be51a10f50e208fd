-- ===== src/Prelude/Bits.antt =====
-- Bitwise operations at variables: their lowest digit, `&` of neighbours, `^` with a power of two.
use Prim.Native.Nat.{
  ℕ, zero, suc, ◌+◌, ◌-◌, ◌*◌, ◌/◌, ◌%◌, ◌^◌, ◌≤◌, ◌<◌, min, bit_and, bit_xor, digits, differ,
  bit_and-bitwise, bit_xor-bitwise,
}
use native.Mathlib.Nat.{
  pow-suc, mul_comm, mod-lt, div-add-mod', div-div-eq-div-mul, mul-add-mod_self_right, mod-eq_of_lt,
}
use mathlib.Core.Path.{◌≡◌, refl, sym, ◌∙◌, ap}
use native.Mathlib.Omega.{arith}
use native.Mathlib.Decide.{ℕ_discrete}
use vkccl.Prelude.Tests.{◌==◌, if◌then◌else◌}

-- Any number of digits that covers the first operand will do.
digits_fuel :
    (z : ℕ → ℕ) (f : ℕ → ℕ → ℕ) (n m a b : ℕ) → a ≤ n → a ≤ m → digits z f n a b ≡ digits z f m a b
digits_fuel z f zero zero a b p q = refl
digits_fuel z f zero (suc m) zero b p q = refl
digits_fuel z f zero (suc m) (suc a) b p q = absurd (omega arith)
digits_fuel z f (suc n) zero zero b p q = refl
digits_fuel z f (suc n) zero (suc a) b p q = absurd (omega arith)
digits_fuel z f (suc n) (suc m) zero b p q = refl
digits_fuel z f (suc n) (suc m) (suc a) b p q =
    ap (λ k. k * 2 + f (suc a % 2) (b % 2))
      (digits_fuel z f n m (suc a / 2) (b / 2) (omega arith) (omega arith))

bit_and_step : (a b : ℕ) → bit_and a b ≡ bit_and (a / 2) (b / 2) * 2 + min (a % 2) (b % 2)
bit_and_step zero b = omega (arith, bit_and-bitwise 0 b, bit_and-bitwise 0 (b / 2))
bit_and_step (suc a) b = omega (
  arith,
  bit_and-bitwise (suc a) b,
  bit_and-bitwise (suc a / 2) (b / 2),
  digits_fuel (λ b. zero) min a (suc a / 2) (suc a / 2) (b / 2) (omega arith) (omega arith),
)

bit_xor_step : (a b : ℕ) → bit_xor a b ≡ bit_xor (a / 2) (b / 2) * 2 + differ (a % 2) (b % 2)
bit_xor_step zero b = omega (arith, bit_xor-bitwise 0 b, bit_xor-bitwise 0 (b / 2))
bit_xor_step (suc a) b = omega (
  arith,
  bit_xor-bitwise (suc a) b,
  bit_xor-bitwise (suc a / 2) (b / 2),
  digits_fuel (λ b. b) differ a (suc a / 2) (suc a / 2) (b / 2) (omega arith) (omega arith),
)

bit_and_self : (fuel a : ℕ) → a ≤ fuel → bit_and a a ≡ a
bit_and_self zero zero h = refl
bit_and_self zero (suc a) h = absurd (omega arith)
bit_and_self (suc fuel) a h =
    omega (arith, bit_and_step a a, bit_and_self fuel (a / 2) (omega arith))

odd_absurd : (n : ℕ) → 1 < n → bit_and n (n - 1) ≡ 0 → n % 2 ≡ 0
odd_absurd n h e = elim (ℕ_discrete (n % 2) 0) [
  | yes even ↦ even
  | no odd ↦
      let half : (n - 1) / 2 ≡ n / 2 = omega arith in
      let same : bit_and (n / 2) ((n - 1) / 2) ≡ n / 2 =
        ap (bit_and (n / 2)) half ∙ bit_and_self (n / 2) (n / 2) (omega arith) in
      absurd (omega (arith, bit_and_step n (n - 1), same, e))
]

-- `n & (n - 1)` is 0 at the powers of two alone.
pub pow2_sound : (fuel n : ℕ) → n ≤ fuel → 0 < n → bit_and n (n - 1) ≡ 0 → (k : ℕ) × (n ≡ 2 ^ k)
pow2_sound zero n h p e = absurd (omega arith)
pow2_sound (suc fuel) n h p e = elim (ℕ_discrete n 1) [
  | yes one ↦ (0, one)
  | no ne ↦
      let step = bit_and_step n (n - 1) in
      let even : n % 2 ≡ 0 = odd_absurd n (omega arith) e in
      let half : n / 2 - 1 ≡ (n - 1) / 2 = omega (arith, even) in
      let rest : bit_and (n / 2) (n / 2 - 1) ≡ 0 =
        ap (bit_and (n / 2)) half ∙ omega (arith, step, e) in
      let (k, eq) = pow2_sound fuel (n / 2) (omega arith) (omega arith) rest in
      (suc k, omega (arith, even, eq, pow-suc 2 k))
]

abbrev pub flip : ℕ → ℕ
flip x = if x % 2 == 0 then x + 1 else x - 1

differ_zero : (x : ℕ) → differ x 0 ≡ x
differ_zero zero = refl
differ_zero (suc x) = refl

bit_xor_zero : (fuel a : ℕ) → a ≤ fuel → bit_xor a 0 ≡ a
bit_xor_zero fuel zero h = refl
bit_xor_zero zero (suc a) h = absurd (omega arith)
bit_xor_zero (suc fuel) (suc a) h = omega (
  arith,
  bit_xor_step (suc a) 0,
  bit_xor_zero fuel (suc a / 2) (omega arith),
  differ_zero (suc a % 2),
)

low_digit : (r : ℕ) → r / 2 * 2 + differ (r % 2) 1 ≡ flip r
low_digit r = elim (ℕ_discrete (r % 2) 0) [
  | yes e ↦ rw e (omega (arith, e))
  | no ne ↦ let e : r % 2 ≡ 1 = omega arith in rw e (omega (arith, e))
]

doubled : (f m t b : ℕ) → (f * m + t) * 2 + b ≡ f * (m * 2) + (t * 2 + b)
doubled f m t b = omega arith

pub pow_pos : (k : ℕ) → 0 < 2 ^ k
pow_pos zero = omega arith
pow_pos (suc k) = omega (arith, pow-suc 2 k, pow_pos k)

pub bit_xor-pow : (k r : ℕ) → bit_xor r (2 ^ k) ≡ flip (r / 2 ^ k) * 2 ^ k + r % 2 ^ k
bit_xor-pow zero r =
    let e₁ : r / 1 ≡ r = omega arith in
    let e₂ : r % 1 ≡ 0 = omega arith in
    rw (e₁, e₂)
      (omega (arith, bit_xor_step r 1, bit_xor_zero (r / 2) (r / 2) (omega arith), low_digit r))
bit_xor-pow (suc k) r =
    let m : ℕ = 2 ^ k in
    let w : 2 ^ suc k ≡ m * 2 = pow-suc 2 k in
    let q : ℕ = r / 2 / m in
    let t : ℕ = (r / 2) % m in
    let hm : 0 < m = pow_pos k in
    let ht : t < m = mod-lt (r / 2) hm in
    let c : r / 2 ≡ q * m + t = sym (div-add-mod' (r / 2) m) in
    let d : r ≡ q * (m * 2) + (t * 2 + r % 2) = omega (arith, c) in
    let e₁ : r / (m * 2) ≡ q = ap (λ k. r / k) (mul_comm m 2) ∙ sym (div-div-eq-div-mul r 2 m) in
    let e₂ : r % (m * 2) ≡ t * 2 + r % 2 =
      ap (λ k. k % (m * 2)) d
      ∙ mul-add-mod_self_right q (m * 2) (t * 2 + r % 2)
      ∙ mod-eq_of_lt (omega arith) in
    let low : (m * 2) % 2 ≡ 0 = omega arith in
    let half : m * 2 / 2 ≡ m = omega arith in
    let x : bit_xor r (m * 2) ≡ bit_xor (r / 2) m * 2 + r % 2 =
      bit_xor_step r (m * 2) ∙ rw (half, low, differ_zero (r % 2)) refl in
    rw (w, e₁, e₂)
      (x ∙ ap (λ y. y * 2 + r % 2) (bit_xor-pow k (r / 2)) ∙ doubled (flip q) m t (r % 2))

pub lt-pow : (k : ℕ) → k < 2 ^ k
lt-pow zero = omega arith
lt-pow (suc k) = omega (arith, lt-pow k, pow-suc 2 k)
