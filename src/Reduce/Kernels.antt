-- ===== src/Reduce/Kernels.antt =====
-- src/core/reduce.cc: `f32Sum`, `f32Mul`, `f32Max`, `f32Min`, `f32SimdReduce`, `f16Sum`, `bf16Sum`,
-- and the scalar `reduce16`.
use vkccl.Prelude.{
  fun_ext, leb, ltb, ◌&&◌, ℕ, zero, suc, ◌+◌, ◌-◌, ◌*◌, ◌/◌, ◌%◌, ◌^◌, ◌<◌, ◌≡◌, sym, ap, ◌∙◌, true,
  false, ◌||◌, false≢true, Option, none, some, arith, dec_lt, ◌==◌, if◌then◌else◌, ltb→lt, ℤ, pos,
  negsuc, is_neg, below, to_ℕ,
}
use vkccl.Types.{DataType, bfloat16, sum_op, prod_op, max_op, min_op, avg_op, num_ops}
use vkccl.Net.{Mem}
use vkccl.Reduce.Loops.{reduce_native}
use vkccl.Reduce.Codec.{half_to_float, float_to_half, bf16_to_float, is_nan, float_to_bf16}
use vkccl.Reduce.Hardware.{Vec, Hardware, IsDocumented, apply_op, float32_arith}
use vkccl.Reduce.Simd.{simd_loop, simd_loop_lem, simd_loop_lanes}

-- A function of one lane applied to all.
abbrev pub lanewise : (ℕ → ℕ → ℕ) → Vec → Vec → Vec
lanewise f d s l = f (d l) (s l)

-- One element of `reduce16`.
abbrev pub through : (ℕ → ℕ) → (ℕ → ℕ) → (ℕ → ℕ → ℕ) → ℕ → ℕ → ℕ
through to from op a b = from (op (to a) (to b))

unfoldable pub reduce16 : (ℕ → ℕ) → (ℕ → ℕ) → (ℕ → ℕ → ℕ) → Mem ℕ → ℕ → Mem ℕ → ℕ → Mem ℕ
reduce16 to from op m at src count = reduce_native (through to from op) m at src count

module _ (hw : Hardware) where
  pub f32_sum : Mem ℕ → ℕ → Mem ℕ → ℕ → Mem ℕ
  f32_sum = simd_loop (lanewise hw.add_ps) hw.add32

  pub f32_mul : Mem ℕ → ℕ → Mem ℕ → ℕ → Mem ℕ
  f32_mul = simd_loop (lanewise hw.mul_ps) hw.mul32

  pub f32_max : Mem ℕ → ℕ → Mem ℕ → ℕ → Mem ℕ
  f32_max = simd_loop (lanewise hw.max_ps) (λ a b. if hw.gt32 a b then a else b)

  pub f32_min : Mem ℕ → ℕ → Mem ℕ → ℕ → Mem ℕ
  f32_min = simd_loop (lanewise hw.min_ps) (λ a b. if hw.lt32 a b then a else b)

  -- `f32SimdReduce`, `none` where the operator has no vector path.
  pub f32_simd_reduce : ℤ → Mem ℕ → ℕ → Mem ℕ → ℕ → Option (Mem ℕ)
  f32_simd_reduce op m at src n =
      let k = to_ℕ op in
      if k == prod_op
      then some (f32_mul m at src n)
      else if k == max_op
      then some (f32_max m at src n)
      else if k == min_op
      then some (f32_min m at src n)
      else if k == sum_op || k == avg_op
      then some (f32_sum m at src n)
      else none

  pub f16_sum : Mem ℕ → ℕ → Mem ℕ → ℕ → Mem ℕ
  f16_sum =
      simd_loop (lanewise λ a b. hw.cvtps_ph (hw.add_ps (hw.cvtph_ps a) (hw.cvtph_ps b)))
        (through half_to_float float_to_half hw.add32)

  -- The rounding of `bf16Sum`, in lanes of 32 bits.
  pub bf16_lane : ℕ → ℕ → ℕ
  bf16_lane a b =
      let bits = hw.add_ps (a * 2 ^ 16) (b * 2 ^ 16) in
      let lsb = (bits / 2 ^ 16) % 2 in (bits + (0x7fff + lsb)) % 2 ^ 32 / 2 ^ 16

  -- `_MM_SHUFFLE(3, 1, 2, 0)`
  abbrev shuffle_3120 : ℕ
  shuffle_3120 = 3 * 64 + 1 * 16 + 2 * 4 + 0

  pub bf16_kernel : Vec → Vec → Vec
  bf16_kernel d s = let hi = lanewise bf16_lane d s in hw.permute shuffle_3120 (hw.packus hi hi)

  pub bf16_sum : Mem ℕ → ℕ → Mem ℕ → ℕ → Mem ℕ
  bf16_sum = simd_loop bf16_kernel (through bf16_to_float float_to_bf16 hw.add32)

-- A sum in bfloat16 that is not a NaN.
abbrev pub FiniteSum : Hardware → DataType → ℕ → ℕ → Type 0
FiniteSum hw bfloat16 a b = is_nan (hw.add32 (bf16_to_float a) (bf16_to_float b)) ≡ false
FiniteSum hw _ a b = Unit

module _ (hw : Hardware) (doc : IsDocumented hw) where
  bf16_lane-eq :
      (a b : ℕ)
      → is_nan (hw.add32 (bf16_to_float a) (bf16_to_float b)) ≡ false
      → bf16_lane hw a b ≡ float_to_bf16 (hw.add32 (bf16_to_float a) (bf16_to_float b))
  unfolding bf16_lane bf16_to_float float_to_bf16
  bf16_lane-eq a b h =
      rw (doc.add_ps_law (a * 2 ^ 16) (b * 2 ^ 16), h)
        (omega (arith, doc.add32_lt (a * 2 ^ 16) (b * 2 ^ 16)))

  bf16_lane-lt : (a b : ℕ) → bf16_lane hw a b < 2 ^ 16
  unfolding bf16_lane
  bf16_lane-lt a b = omega arith

  -- Packing and permuting bring the eight words to the front in order.
  bf16_kernel-eq : (d s : Vec) (l : ℕ) → l < 8 → bf16_kernel hw d s l ≡ bf16_lane hw (d l) (s l)
  unfolding bf16_kernel
  bf16_kernel-eq d s l h =
      let hi : Vec = lanewise (bf16_lane hw) d s in
      let v : Vec = hw.packus hi hi in
      elim (dec_lt l 4) [
        | yes p ↦
            let q : (216 / 4 ^ 0) % 4 * 4 + l ≡ l = omega arith in
            let z : l ≡ 0 * 4 + l = omega arith in
            ap (hw.permute 216 v) z
            ∙ doc.permute_law 216 v 0 l (omega arith) p
            ∙ ap v q
            ∙ doc.packus_low hi hi l p (bf16_lane-lt (d l) (s l))
        | no p ↦
            let k : ℕ = l - 4 in
            let e : 4 + k ≡ l = omega arith in
            let q : (216 / 4 ^ 1) % 4 * 4 + k ≡ 8 + k = omega arith in
            let z : l ≡ 1 * 4 + k = omega arith in
            ap (hw.permute 216 v) z
            ∙ doc.permute_law 216 v 1 k (omega arith) (omega arith)
            ∙ ap v q
            ∙ doc.packus_high hi hi k (omega arith) (bf16_lane-lt (d (4 + k)) (s (4 + k)))
            ∙ ap hi e
      ]

  f32_sum-eq :
      (m : Mem ℕ) (at : ℕ) (src : Mem ℕ) (n : ℕ)
      → f32_sum hw m at src n ≡ reduce_native hw.add32 m at src n
  unfolding f32_sum
  f32_sum-eq m at src n =
      simd_loop_lem _ _ at src n m λ d s k l hl hk hn hd hs. rw (hd, hs) (doc.add_ps_law _ _)

  f32_mul-eq :
      (m : Mem ℕ) (at : ℕ) (src : Mem ℕ) (n : ℕ)
      → f32_mul hw m at src n ≡ reduce_native hw.mul32 m at src n
  unfolding f32_mul
  f32_mul-eq m at src n =
      simd_loop_lem _ _ at src n m λ d s k l hl hk hn hd hs. rw (hd, hs) (doc.mul_ps_law _ _)

  f32_max-eq :
      (m : Mem ℕ) (at : ℕ) (src : Mem ℕ) (n : ℕ)
      → f32_max hw m at src n ≡ reduce_native (λ a b. if hw.gt32 a b then a else b) m at src n
  unfolding f32_max
  f32_max-eq m at src n =
      simd_loop_lem _ _ at src n m λ d s k l hl hk hn hd hs. rw (hd, hs) (doc.max_ps_law _ _)

  f32_min-eq :
      (m : Mem ℕ) (at : ℕ) (src : Mem ℕ) (n : ℕ)
      → f32_min hw m at src n ≡ reduce_native (λ a b. if hw.lt32 a b then a else b) m at src n
  unfolding f32_min
  f32_min-eq m at src n =
      simd_loop_lem _ _ at src n m λ d s k l hl hk hn hd hs. rw (hd, hs) (doc.min_ps_law _ _)

  -- Every operator that passes the range check has its vector path, with the scalar loop's result.
  pub f32_simd_reduce_lem :
      (op : ℤ) (m : Mem ℕ) (at : ℕ) (src : Mem ℕ) (n : ℕ)
      → below op num_ops ≡ true
      → is_neg op ≡ false
      → f32_simd_reduce hw op m at src n
        ≡ some (reduce_native (apply_op (float32_arith hw) op) m at src n)
  unfolding f32_simd_reduce apply_op
  f32_simd_reduce_lem (negsuc k) m at src n h neg = absurd (false≢true (sym neg))
  f32_simd_reduce_lem (pos zero) m at src n h neg = ap some (f32_sum-eq m at src n)
  f32_simd_reduce_lem (pos (suc zero)) m at src n h neg = ap some (f32_mul-eq m at src n)
  f32_simd_reduce_lem (pos (suc (suc zero))) m at src n h neg = ap some (f32_max-eq m at src n)
  f32_simd_reduce_lem (pos (suc (suc (suc zero)))) m at src n h neg =
      ap some (f32_min-eq m at src n)
  f32_simd_reduce_lem (pos (suc (suc (suc (suc zero))))) m at src n h neg =
      ap some (f32_sum-eq m at src n)
  f32_simd_reduce_lem (pos (suc (suc (suc (suc (suc k)))))) m at src n h neg =
      absurd (omega (arith, ltb→lt (suc (suc (suc (suc (suc k))))) 5 h))

  -- A sum of halves is by the conversions of F16C in the full blocks and by the program's own after
  -- them.
  pub f16_sum_lem :
      (m : Mem ℕ) (at : ℕ) (src : Mem ℕ) (n j : ℕ)
      → f16_sum hw m at src n j ≡ (
          if leb at j && ltb j (at + n)
          then (if ltb (j - at) (n / 8 * 8)
              then through hw.cvtph_ps hw.cvtps_ph hw.add32 (m j) (src (j - at))
              else through half_to_float float_to_half hw.add32 (m j) (src (j - at)))
          else m j)
  unfolding f16_sum
  f16_sum_lem m at src n j =
      let lane : ℕ → ℕ → ℕ = λ a b. hw.cvtps_ph (hw.add_ps (hw.cvtph_ps a) (hw.cvtph_ps b)) in
      let same : lane ≡ through hw.cvtph_ps hw.cvtps_ph hw.add32 =
        fun_ext λ a. fun_ext λ b. ap hw.cvtps_ph (doc.add_ps_law (hw.cvtph_ps a) (hw.cvtph_ps b)) in
      simd_loop_lanes lane (through half_to_float float_to_half hw.add32) at src n m j
      ∙ ap
          (λ g.
            if leb at j && ltb j (at + n)
            then (if ltb (j - at) (n / 8 * 8)
                then g (m j) (src (j - at))
                else through half_to_float float_to_half hw.add32 (m j) (src (j - at)))
            else m j)
          same

  pub bf16_sum_lem :
      (m : Mem ℕ) (at : ℕ) (src : Mem ℕ) (n : ℕ)
      → ((i : ℕ) → i < n → FiniteSum hw bfloat16 (m (at + i)) (src i))
      → bf16_sum hw m at src n ≡ reduce16 bf16_to_float float_to_bf16 hw.add32 m at src n
  unfolding bf16_sum reduce16
  bf16_sum_lem m at src n fin = simd_loop_lem _ _ at src n m λ d s k l hl hk hn hd hs.
      bf16_kernel-eq d s l hl ∙ rw (hd, hs) (bf16_lane-eq _ _ (fin (k + l) hn))
