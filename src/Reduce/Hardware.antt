-- ===== src/Reduce/Hardware.antt =====
-- What src/core/reduce.cc takes from the processor: floating-point arithmetic on bit patterns and
-- the vector intrinsics, as parameters, with the documented behaviour of the intrinsics. And the
-- operations that `applyOp` is instantiated at, integers as bit patterns of their width included.
use vkccl.Types.{prod_op, max_op, min_op}
use vkccl.Prelude.{
  ℕ, ◌+◌, ◌-◌, ◌*◌, ◌/◌, ◌%◌, ◌^◌, ◌<◌, ◌≡◌, Bool, ltb, ◌==◌, if◌then◌else◌, ℤ, to_ℕ,
}

-- A vector register by the index of its lanes.
abbrev pub Vec : Type 0
Vec = ℕ → ℕ

pub record Hardware : Type 0 where
  -- The answers of `hasAvx2` and `hasF16C`.
  pub has_avx2 : Bool
  pub has_f16c : Bool
  pub add32 : ℕ → ℕ → ℕ
  pub mul32 : ℕ → ℕ → ℕ
  pub gt32 : ℕ → ℕ → Bool
  pub lt32 : ℕ → ℕ → Bool
  pub add64 : ℕ → ℕ → ℕ
  pub mul64 : ℕ → ℕ → ℕ
  pub gt64 : ℕ → ℕ → Bool
  pub lt64 : ℕ → ℕ → Bool
  -- `static_cast<float>` of a `double`.
  pub narrow : ℕ → ℕ
  -- One lane of `_mm256_add_ps`, `_mm256_mul_ps`, `_mm256_max_ps`, `_mm256_min_ps`,
  -- `_mm256_cvtph_ps` and of `_mm256_cvtps_ph` to the nearest.
  pub add_ps : ℕ → ℕ → ℕ
  pub mul_ps : ℕ → ℕ → ℕ
  pub max_ps : ℕ → ℕ → ℕ
  pub min_ps : ℕ → ℕ → ℕ
  pub cvtph_ps : ℕ → ℕ
  pub cvtps_ph : ℕ → ℕ
  -- `_mm256_packus_epi32` and `_mm256_permute4x64_epi64`, on lanes of 16 bits.
  pub packus : Vec → Vec → Vec
  pub permute : ℕ → Vec → Vec

-- What the processor's manual says of the intrinsics, those of F16C left out.
pub record IsDocumented (hw : Hardware) : Type 0 where
  pub add32_lt : (a b : ℕ) → hw.add32 a b < 2 ^ 32
  pub add_ps_law : (a b : ℕ) → hw.add_ps a b ≡ hw.add32 a b
  pub mul_ps_law : (a b : ℕ) → hw.mul_ps a b ≡ hw.mul32 a b
  pub max_ps_law : (a b : ℕ) → hw.max_ps a b ≡ (if hw.gt32 a b then a else b)
  pub min_ps_law : (a b : ℕ) → hw.min_ps a b ≡ (if hw.lt32 a b then a else b)
  -- The words of each half of the first operand, then those of the second.
  pub packus_low : (a b : Vec) (l : ℕ) → l < 4 → a l < 2 ^ 16 → hw.packus a b l ≡ a l
  pub packus_high :
      (a b : Vec) (l : ℕ) → l < 4 → a (4 + l) < 2 ^ 16 → hw.packus a b (8 + l) ≡ a (4 + l)
  -- The quarter `q` of the result is the one that the bits 2q and 2q + 1 of the constant name.
  pub permute_law :
      (imm : ℕ) (v : Vec) (q l : ℕ)
      → q < 4
      → l < 4
      → hw.permute imm v (q * 4 + l) ≡ v ((imm / 4 ^ q) % 4 * 4 + l)

-- The operators of a C++ arithmetic type.
pub record Arithmetic : Type 0 where
  pub add : ℕ → ℕ → ℕ
  pub mul : ℕ → ℕ → ℕ
  pub gt : ℕ → ℕ → Bool
  pub lt : ℕ → ℕ → Bool

-- `applyOp`; the operator has passed the range check of `cpuReduce`.
unfoldable pub apply_op : Arithmetic → ℤ → ℕ → ℕ → ℕ
apply_op t op a b =
    let n = to_ℕ op in
    if n == prod_op
    then t.mul a b
    else if n == max_op
    then (if t.gt a b then a else b)
    else if n == min_op
    then (if t.lt a b then a else b)
    else t.add a b

abbrev pub float32_arith : Hardware → Arithmetic
float32_arith hw = record { add = hw.add32; mul = hw.mul32; gt = hw.gt32; lt = hw.lt32 }

abbrev pub float64_arith : Hardware → Arithmetic
float64_arith hw = record { add = hw.add64; mul = hw.mul64; gt = hw.gt64; lt = hw.lt64 }

-- Unsigned integers of `w` bits; the result of an operation is stored in `w` bits.
abbrev pub unsigned_arith : ℕ → Arithmetic
unsigned_arith w = record {
  add = λ a b. (a + b) % 2 ^ w;
  mul = λ a b. a * b % 2 ^ w;
  gt = λ a b. ltb b a;
  lt = λ a b. ltb a b;
}

-- The order of two's complement: the patterns with the top bit set come first.
abbrev pub signed_key : ℕ → ℕ → ℕ
signed_key w a = (a + 2 ^ (w - 1)) % 2 ^ w

-- Signed integers of `w` bits in two's complement; an overflow, of which the language says
-- nothing at 32 and 64 bits, is taken to wrap around.
abbrev pub signed_arith : ℕ → Arithmetic
signed_arith w = record {
  add = λ a b. (a + b) % 2 ^ w;
  mul = λ a b. a * b % 2 ^ w;
  gt = λ a b. ltb (signed_key w b) (signed_key w a);
  lt = λ a b. ltb (signed_key w a) (signed_key w b);
}
