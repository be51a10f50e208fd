-- ===== src/Reduce/Scale.antt =====
-- src/core/reduce.cc: `cpuScaledAccumulate`, `cpuScaleCopy`, `cpuScale`. A factor is the bit
-- pattern of a `double`.
use vkccl.Prelude.{
  ℕ, zero, suc, ◌+◌, ◌-◌, ◌≡◌, refl, sym, ap, fun_ext, ◌∙◌, ◌⊎◌, inl, inr, false, ◌&&◌, false≢true,
  arith, ltb, leb, if◌then◌else◌, pos,
}
use vkccl.Types.{
  Result, success, invalid_argument, DataType, int8, uint8, int32, uint32, int64, uint64, float16,
  float32, float64, bfloat16, other, type_size, is_float_type, sum_op,
}
use vkccl.Net.{Mem}
use vkccl.Reduce.Loops.{update, reduce_native, reduce_native_lem}
use vkccl.Reduce.Codec.{half_to_float, float_to_half, bf16_to_float, float_to_bf16}
use vkccl.Reduce.Hardware.{Hardware, IsDocumented, apply_op}
use vkccl.Reduce.Dispatch.{cpu_reduce, element, cpu_reduce_lem}

-- `for (size_t i = 0; i < count; i++) d[i] = f(s[i]);`
map_from : (ℕ → ℕ) → Mem ℕ → ℕ → Mem ℕ → ℕ → ℕ → Mem ℕ
map_from f m at src i zero = m
map_from f m at src i (suc left) = map_from f (update m (at + i) (f (src i))) at src (i + 1) left

-- `for (size_t i = 0; i < count; i++) p[i] = f(p[i]);`
apply_from : (ℕ → ℕ) → Mem ℕ → ℕ → ℕ → ℕ → Mem ℕ
apply_from f m at i zero = m
apply_from f m at i (suc left) = apply_from f (update m (at + i) (f (m (at + i)))) at (i + 1) left

map_from-eq :
    (f : ℕ → ℕ) (m : Mem ℕ) (at : ℕ) (src : Mem ℕ) (i left j : ℕ)
    → map_from f m at src i left j
      ≡ (if leb (at + i) j && ltb j (at + i + left) then f (src (j - at)) else m j)
unfolding map_from
map_from-eq f m at src i zero j = ground arith
map_from-eq f m at src i (suc left) j =
    ground (arith, map_from-eq f (update m (at + i) (f (src i))) at src (i + 1) left j)

apply_from-eq :
    (f : ℕ → ℕ) (m : Mem ℕ) (at i left j : ℕ)
    → apply_from f m at i left j
      ≡ (if leb (at + i) j && ltb j (at + i + left) then f (m j) else m j)
unfolding apply_from
apply_from-eq f m at i zero j = ground arith
apply_from-eq f m at i (suc left) j =
    ground (arith, apply_from-eq f (update m (at + i) (f (m (at + i)))) at (i + 1) left j)

module _ (hw : Hardware) where
  -- `cpuScaledAccumulate`
  pub cpu_scaled_accumulate : DataType → Mem ℕ → ℕ → Mem ℕ → ℕ → ℕ → Result × Mem ℕ
  cpu_scaled_accumulate float32 m at src count pre_scale =
      let k = hw.narrow pre_scale in
      (success, reduce_native (λ d s. hw.add32 d (hw.mul32 k s)) m at src count)
  cpu_scaled_accumulate float64 m at src count pre_scale =
      (success, reduce_native (λ d s. hw.add64 d (hw.mul64 pre_scale s)) m at src count)
  cpu_scaled_accumulate float16 m at src count pre_scale =
      let k = hw.narrow pre_scale in
      let step : ℕ → ℕ → ℕ =
        λ d s. float_to_half (hw.add32 (half_to_float d) (hw.mul32 k (half_to_float s))) in
      (success, reduce_native step m at src count)
  cpu_scaled_accumulate bfloat16 m at src count pre_scale =
      let k = hw.narrow pre_scale in
      let step : ℕ → ℕ → ℕ =
        λ d s. float_to_bf16 (hw.add32 (bf16_to_float d) (hw.mul32 k (bf16_to_float s))) in
      (success, reduce_native step m at src count)
  cpu_scaled_accumulate _ m at src count pre_scale = (invalid_argument, m)

  -- `cpuScaleCopy`
  pub cpu_scale_copy : DataType → Mem ℕ → ℕ → Mem ℕ → ℕ → ℕ → Result × Mem ℕ
  unfolding map_from
  cpu_scale_copy float32 m at src count factor =
      let k = hw.narrow factor in (success, map_from (λ s. hw.mul32 k s) m at src 0 count)
  cpu_scale_copy float64 m at src count factor =
      (success, map_from (λ s. hw.mul64 factor s) m at src 0 count)
  cpu_scale_copy float16 m at src count factor =
      let k = hw.narrow factor in
      (success, map_from (λ s. float_to_half (hw.mul32 k (half_to_float s))) m at src 0 count)
  cpu_scale_copy bfloat16 m at src count factor =
      let k = hw.narrow factor in
      (success, map_from (λ s. float_to_bf16 (hw.mul32 k (bf16_to_float s))) m at src 0 count)
  cpu_scale_copy _ m at src count factor = (invalid_argument, m)

  -- `cpuScale`
  pub cpu_scale : DataType → Mem ℕ → ℕ → ℕ → ℕ → Result × Mem ℕ
  unfolding apply_from
  cpu_scale float32 m at count factor =
      (success, apply_from (λ p. hw.mul32 p (hw.narrow factor)) m at 0 count)
  cpu_scale float64 m at count factor = (success, apply_from (λ p. hw.mul64 p factor) m at 0 count)
  cpu_scale float16 m at count factor =
      let step : ℕ → ℕ = λ p. float_to_half (hw.mul32 (half_to_float p) (hw.narrow factor)) in
      (success, apply_from step m at 0 count)
  cpu_scale bfloat16 m at count factor =
      let step : ℕ → ℕ = λ p. float_to_bf16 (hw.mul32 (bf16_to_float p) (hw.narrow factor)) in
      (success, apply_from step m at 0 count)
  cpu_scale _ m at count factor = (invalid_argument, m)

  -- The three scaling loops succeed on the floating-point types alone. On any other type they
  -- answer `vcclInvalidArgument` and leave the buffer as it was.
  scale_error :
      (dt : DataType) (m : Mem ℕ) (at : ℕ) (src : Mem ℕ) (count factor : ℕ)
      → is_float_type dt ≡ false
      → (cpu_scaled_accumulate dt m at src count factor ≡ (invalid_argument, m))
        × (cpu_scale_copy dt m at src count factor ≡ (invalid_argument, m))
        × (cpu_scale dt m at count factor ≡ (invalid_argument, m))
  unfolding cpu_scaled_accumulate cpu_scale_copy cpu_scale is_float_type
  scale_error int8 m at src count factor h = (refl, refl, refl)
  scale_error uint8 m at src count factor h = (refl, refl, refl)
  scale_error int32 m at src count factor h = (refl, refl, refl)
  scale_error uint32 m at src count factor h = (refl, refl, refl)
  scale_error int64 m at src count factor h = (refl, refl, refl)
  scale_error uint64 m at src count factor h = (refl, refl, refl)
  scale_error (other t) m at src count factor h = (refl, refl, refl)
  scale_error float16 m at src count factor h = absurd (false≢true (sym h))
  scale_error float32 m at src count factor h = absurd (false≢true (sym h))
  scale_error float64 m at src count factor h = absurd (false≢true (sym h))
  scale_error bfloat16 m at src count factor h = absurd (false≢true (sym h))

-- A product added to an element, or a product copied and the copy added.
fused :
    (add mul : ℕ → ℕ → ℕ) (k : ℕ) (m : Mem ℕ) (at : ℕ) (src tmp : Mem ℕ) (count j : ℕ)
    → reduce_native (λ d s. add d (mul k s)) m at src count j ≡ (
        if leb at j && ltb j (at + count)
        then add (m j) (map_from (λ s. mul k s) tmp 0 src 0 count (j - at))
        else m j)
fused add mul k m at src tmp count j = ground (
  arith,
  reduce_native_lem (λ d s. add d (mul k s)) m at src count j,
  map_from-eq (λ s. mul k s) tmp 0 src 0 count (j - at),
)

module _ (hw : Hardware) (doc : IsDocumented hw) where
  -- For `float` and `double`, whatever the processor offers: to accumulate with a scale is to scale
  -- a copy into a scratch buffer and then to add that up by `cpuReduce`.
  cpu_scaled_accumulate_lem :
      (dt : DataType) (m : Mem ℕ) (at : ℕ) (src tmp : Mem ℕ) (count factor : ℕ)
      → (dt ≡ float32) ⊎ (dt ≡ float64)
      → cpu_scaled_accumulate hw dt m at src count factor
        ≡ cpu_reduce hw dt (pos sum_op) m at (cpu_scale_copy hw dt tmp 0 src count factor).1 count
  unfolding cpu_scaled_accumulate cpu_scale_copy element apply_op type_size
  cpu_scaled_accumulate_lem dt m at src tmp count factor h = elim h [
    | inl e ↦ rw e (
        ap (λ x. (success, x))
          (fun_ext λ j. fused hw.add32 hw.mul32 (hw.narrow factor) m at src tmp count j)
        ∙ sym (
            cpu_reduce_lem hw doc (pos sum_op) m at
              (cpu_scale_copy hw float32 tmp 0 src count factor).1 count float32 (λ i l. _)))
    | inr e ↦ rw e (
        ap (λ x. (success, x)) (fun_ext λ j. fused hw.add64 hw.mul64 factor m at src tmp count j)
        ∙ sym (
            cpu_reduce_lem hw doc (pos sum_op) m at
              (cpu_scale_copy hw float64 tmp 0 src count factor).1 count float64 (λ i l. _)))
  ]

in_place :
    {f g : ℕ → ℕ} (m : Mem ℕ) (at count : ℕ)
    → ((p : ℕ) → f p ≡ g p)
    → ◌≡◌ {A = Result × Mem ℕ}
        (success, apply_from f m at 0 count)
        (success, map_from g m at (λ i. m (at + i)) 0 count)
in_place {f} {g} m at count h =
    ap (λ x. (success, x))
      (fun_ext λ j. ground (
        arith,
        apply_from-eq f m at 0 count j,
        map_from-eq g m at (λ i. m (at + i)) 0 count j,
        h (m j),
      ))

-- Where a product does not depend on the order of its factors: to scale in place is to copy with
-- the scale.
pub cpu_scale_lem :
    (hw : Hardware) (dt : DataType) (m : Mem ℕ) (at count factor : ℕ)
    → ((a b : ℕ) → hw.mul32 a b ≡ hw.mul32 b a)
    → ((a b : ℕ) → hw.mul64 a b ≡ hw.mul64 b a)
    → cpu_scale hw dt m at count factor ≡ cpu_scale_copy hw dt m at (λ i. m (at + i)) count factor
unfolding cpu_scale cpu_scale_copy
cpu_scale_lem hw float32 m at count factor c₁ c₂ = in_place m at count λ p. c₁ p (hw.narrow factor)
cpu_scale_lem hw float64 m at count factor c₁ c₂ = in_place m at count λ p. c₂ p factor
cpu_scale_lem hw float16 m at count factor c₁ c₂ =
    in_place m at count λ p. ap float_to_half (c₁ (half_to_float p) (hw.narrow factor))
cpu_scale_lem hw bfloat16 m at count factor c₁ c₂ =
    in_place m at count λ p. ap float_to_bf16 (c₁ (bf16_to_float p) (hw.narrow factor))
cpu_scale_lem hw int8 m at count factor c₁ c₂ = refl
cpu_scale_lem hw uint8 m at count factor c₁ c₂ = refl
cpu_scale_lem hw int32 m at count factor c₁ c₂ = refl
cpu_scale_lem hw uint32 m at count factor c₁ c₂ = refl
cpu_scale_lem hw int64 m at count factor c₁ c₂ = refl
cpu_scale_lem hw uint64 m at count factor c₁ c₂ = refl
cpu_scale_lem hw (other t) m at count factor c₁ c₂ = refl
