-- ===== src/Reduce/Tests.antt =====
-- src/core/reduce.cc at concrete inputs, with a processor whose arithmetic is that of small
-- integers and whose intrinsics do what their manual says.
use vkccl.Prelude.{
  ℕ, ◌+◌, ◌-◌, ◌*◌, ◌/◌, ◌%◌, ◌^◌, ◌<◌, ◌≡◌, refl, true, false, ◌&&◌, arith, ltb, leb,
  if◌then◌else◌, pos,
}
use vkccl.Types.{success, int32, bfloat16, type_size, is_float_type}
use vkccl.Net.{Mem}
use vkccl.Reduce.Codec.{half_to_float, float_to_half, bf16_to_float, is_nan, float_to_bf16}
use vkccl.Reduce.Codec.RoundTrip.{codec_roundtrip}
use vkccl.Reduce.Codec.Rounding.{Nearest, float_to_bf16-Nearest, float_to_half-Nearest}
use vkccl.Reduce.Hardware.{Vec, Hardware, IsDocumented}
use vkccl.Reduce.Dispatch.{cpu_reduce, element, Finite, cpu_reduce_lem}

abbrev toy_packus : Vec → Vec → Vec
toy_packus a b q =
    if ltb q 4
    then a q
    else if ltb q 8
    then b (q - 4)
    else if ltb q 12
    then a (q - 4)
    else b (q - 8)

abbrev toy : Hardware
toy = record {
  has_avx2 = true;
  has_f16c = true;
  add32 = λ a b. (a + b) % 2 ^ 30;
  mul32 = λ a b. a * b % 2 ^ 30;
  gt32 = λ a b. ltb b a;
  lt32 = ltb;
  add64 = λ a b. (a + b) % 2 ^ 64;
  mul64 = λ a b. a * b % 2 ^ 64;
  gt64 = λ a b. ltb b a;
  lt64 = ltb;
  narrow = λ d. d % 2 ^ 30;
  add_ps = λ a b. (a + b) % 2 ^ 30;
  mul_ps = λ a b. a * b % 2 ^ 30;
  max_ps = λ a b. if ltb b a then a else b;
  min_ps = λ a b. if ltb a b then a else b;
  cvtph_ps = half_to_float;
  cvtps_ph = float_to_half;
  packus = toy_packus;
  permute = λ imm v q. v ((imm / 4 ^ (q / 4)) % 4 * 4 + q % 4);
}

toy_permute :
    (imm : ℕ) (v : Vec) (q l : ℕ)
    → q < 4
    → l < 4
    → toy.permute imm v (q * 4 + l) ≡ v ((imm / 4 ^ q) % 4 * 4 + l)
toy_permute imm v q l hq hl =
    let e₁ : (q * 4 + l) / 4 ≡ q = omega arith in
    let e₂ : (q * 4 + l) % 4 ≡ l = omega arith in rw (e₁, e₂) refl

toy-IsDocumented : IsDocumented toy
toy-IsDocumented = record {
  add32_lt = λ a b. omega arith;
  add_ps_law = λ a b. refl;
  mul_ps_law = λ a b. refl;
  max_ps_law = λ a b. refl;
  min_ps_law = λ a b. refl;
  packus_low = λ a b l h k. ground arith;
  packus_high = λ a b l h k. ground arith;
  permute_law = toy_permute;
}

abbrev ones : Mem ℕ
ones i = i % 2

-- Nine elements: one block and a tail.
toy-Finite : Finite toy bfloat16 ones 3 ones 9
unfolding is_nan bf16_to_float
toy-Finite i h = ground arith

cpu_reduce_lem_example : cpu_reduce toy bfloat16 (pos 0) ones 3 ones 9 ≡ (
  success,
  λ j. if leb 3 j && ltb j 12 then element toy bfloat16 (pos 0) (ones j) (ones (j - 3)) else ones j,
)
unfolding type_size
cpu_reduce_lem_example =
    cpu_reduce_lem toy toy-IsDocumented (pos 0) ones 3 ones 9 bfloat16 toy-Finite

codec_roundtrip_example :
    (float_to_half (half_to_float 0x3c01) ≡ 0x3c01)
    × (float_to_bf16 (bf16_to_float 0x3c01) ≡ 0x3c01)
codec_roundtrip_example = codec_roundtrip 0x3c01 (omega arith)

float_to_half-Nearest_example :
    Nearest 8192 (float_to_half 0xbf801000 % 0x8000) 0x07801000
    × (float_to_half 0xbf801000 / 0x8000 ≡ 1)
float_to_half-Nearest_example =
    float_to_half-Nearest 0xbf801000 (omega arith) (omega arith) (omega arith)

one_not_nan : is_nan 0x3f808000 ≡ false
unfolding is_nan
one_not_nan = refl

float_to_bf16-Nearest_example : Nearest 65536 (float_to_bf16 0x3f808000) 0x3f808000
float_to_bf16-Nearest_example = float_to_bf16-Nearest 0x3f808000 (omega arith) one_not_nan

int32_not_float : is_float_type int32 ≡ false
unfolding is_float_type
int32_not_float = refl
