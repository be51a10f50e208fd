-- ===== src/Reduce/Codec/RoundTrip.antt =====
-- src/core/reduce.cc: a 16-bit value on the way to 32 bits and back, over all bit patterns.
use vkccl.Prelude.{
  ℕ, zero, suc, ◌+◌, ◌*◌, ◌/◌, ◌%◌, ◌<◌, bit_or, ◌≡◌, refl, Bool, true, arith, ltb, ◌==◌,
  if◌then◌else◌, ==_iff,
}
use vkccl.Net.{all_below}
use vkccl.Reduce.Codec.{
  normalize, half_to_float, float_to_half, bf16_to_float, is_nan, float_to_bf16,
}

all_below_elim : (n : ℕ) (p : ℕ → Bool) (x : ℕ) → all_below n p ≡ true → x < n → p x ≡ true
unfolding all_below
all_below_elim zero p x h lt = absurd (omega arith)
all_below_elim (suc n) p x h lt = ground (arith, all_below_elim n p x)

-- What is left of a half: a NaN keeps its sign and becomes the quiet one.
abbrev pub quiet_half : ℕ → ℕ
quiet_half h = if ltb 0x7c00 (h % 0x8000) then h / 0x8000 * 0x8000 + 0x7e00 else h

-- What is left of a bfloat16: a NaN keeps its payload and becomes a quiet one.
abbrev pub quiet_bf16 : ℕ → ℕ
quiet_bf16 b = if ltb 0x7f80 (b % 0x8000) then bit_or b 0x40 else b

half_table : all_below 65536 (λ h. float_to_half (half_to_float h) == quiet_half h) ≡ true
unfolding all_below float_to_half half_to_float normalize
half_table = refl

bf16_table : all_below 65536 (λ b. float_to_bf16 (bf16_to_float b) == quiet_bf16 b) ≡ true
unfolding all_below float_to_bf16 bf16_to_float is_nan
bf16_table = refl

-- For every 16-bit pattern: as a half it survives `halfToFloat` followed by `floatToHalf`, and as a
-- bfloat16 it survives `bf16ToFloat` followed by `floatToBf16`, except that a NaN comes back as a
-- quiet NaN of the same sign (a bfloat16 NaN with its payload as well).
pub codec_roundtrip :
    (h : ℕ)
    → h < 65536
    → (float_to_half (half_to_float h) ≡ quiet_half h)
      × (float_to_bf16 (bf16_to_float h) ≡ quiet_bf16 h)
codec_roundtrip h l = (
  (==_iff _ _).0 (all_below_elim 65536 _ h half_table l),
  (==_iff _ _).0 (all_below_elim 65536 _ h bf16_table l),
)
