-- ===== src/Reduce/Dispatch.antt =====
-- src/core/reduce.cc: `cpuReduce`, which picks a loop by data type, operator and processor.
use vkccl.Prelude.{
  ◌/◌, ◌*◌, ℕ, ◌+◌, ◌-◌, ◌<◌, ◌≡◌, refl, sym, ap, fun_ext, ◌∙◌, inl, inr, Bool, true, false, not,
  ◌&&◌, ◌||◌, false≢true, none, some, arith, ltb, leb, ◌==◌, if◌then◌else◌, Bool-cases, ℤ, is_neg,
  below, to_ℕ,
}
use vkccl.Types.{
  Result, success, invalid_argument, DataType, int8, uint8, int32, uint32, int64, uint64, float16,
  float32, float64, bfloat16, other, type_size, sum_op, num_ops,
}
use vkccl.Net.{Mem}
use vkccl.Reduce.Loops.{reduce_native, reduce_native_lem}
use vkccl.Reduce.Codec.{half_to_float, float_to_half, bf16_to_float, float_to_bf16}
use vkccl.Reduce.Hardware.{
  Hardware, IsDocumented, apply_op, float32_arith, float64_arith, unsigned_arith, signed_arith,
}
use vkccl.Reduce.Kernels.{
  through, reduce16, f32_simd_reduce, f16_sum, bf16_sum, FiniteSum, f32_simd_reduce_lem,
  f16_sum_lem, bf16_sum_lem,
}

-- `op == vcclSum`
abbrev is_sum : ℤ → Bool
is_sum op = not (is_neg op) && to_ℕ op == sum_op

module _ (hw : Hardware) where
  -- The case of `vcclFloat32`.
  abbrev pub reduce_float32 : ℤ → Mem ℕ → ℕ → Mem ℕ → ℕ → Mem ℕ
  reduce_float32 op m at src count =
      let scalar = reduce_native (apply_op (float32_arith hw) op) m at src count in
      if hw.has_avx2
      then elim (f32_simd_reduce hw op m at src count) [ none ↦ scalar | some m' ↦ m' ]
      else scalar

  abbrev pub reduce_float16 : ℤ → Mem ℕ → ℕ → Mem ℕ → ℕ → Mem ℕ
  reduce_float16 op m at src count =
      if is_sum op && hw.has_avx2 && hw.has_f16c
      then f16_sum hw m at src count
      else reduce16 half_to_float float_to_half (apply_op (float32_arith hw) op) m at src count

  abbrev pub reduce_bfloat16 : ℤ → Mem ℕ → ℕ → Mem ℕ → ℕ → Mem ℕ
  reduce_bfloat16 op m at src count =
      if is_sum op && hw.has_avx2
      then bf16_sum hw m at src count
      else reduce16 bf16_to_float float_to_bf16 (apply_op (float32_arith hw) op) m at src count

  -- The `switch` on the data type.
  pub reduce_typed : DataType → ℤ → Mem ℕ → ℕ → Mem ℕ → ℕ → Result × Mem ℕ
  reduce_typed int8 op m at src count =
      (success, reduce_native (apply_op (signed_arith 8) op) m at src count)
  reduce_typed uint8 op m at src count =
      (success, reduce_native (apply_op (unsigned_arith 8) op) m at src count)
  reduce_typed int32 op m at src count =
      (success, reduce_native (apply_op (signed_arith 32) op) m at src count)
  reduce_typed uint32 op m at src count =
      (success, reduce_native (apply_op (unsigned_arith 32) op) m at src count)
  reduce_typed int64 op m at src count =
      (success, reduce_native (apply_op (signed_arith 64) op) m at src count)
  reduce_typed uint64 op m at src count =
      (success, reduce_native (apply_op (unsigned_arith 64) op) m at src count)
  reduce_typed float32 op m at src count = (success, reduce_float32 op m at src count)
  reduce_typed float64 op m at src count =
      (success, reduce_native (apply_op (float64_arith hw) op) m at src count)
  reduce_typed float16 op m at src count = (success, reduce_float16 op m at src count)
  reduce_typed bfloat16 op m at src count = (success, reduce_bfloat16 op m at src count)
  reduce_typed (other t) op m at src count = (invalid_argument, m)

  -- `cpuReduce`: the `count` elements of `dst`, which is `m` from `at` on.
  unfoldable pub cpu_reduce : DataType → ℤ → Mem ℕ → ℕ → Mem ℕ → ℕ → Result × Mem ℕ
  cpu_reduce dt op m at src count =
      if is_neg op || not (below op num_ops)
      then (invalid_argument, m)
      else reduce_typed dt op m at src count

-- What an element becomes, by data type and operator, read off one pair at a time.
unfoldable pub element : Hardware → DataType → ℤ → ℕ → ℕ → ℕ
element hw int8 op = apply_op (signed_arith 8) op
element hw int32 op = apply_op (signed_arith 32) op
element hw int64 op = apply_op (signed_arith 64) op
element hw uint8 op = apply_op (unsigned_arith 8) op
element hw uint32 op = apply_op (unsigned_arith 32) op
element hw uint64 op = apply_op (unsigned_arith 64) op
element hw float32 op = apply_op (float32_arith hw) op
element hw float64 op = apply_op (float64_arith hw) op
element hw float16 op = through half_to_float float_to_half (apply_op (float32_arith hw) op)
element hw bfloat16 op = through bf16_to_float float_to_bf16 (apply_op (float32_arith hw) op)
element hw (other t) op = λ a b. a

abbrev pub is_valid_op : ℤ → Bool
is_valid_op op = not (is_neg op) && below op num_ops

abbrev pub is_known : DataType → Bool
is_known dt = ltb 0 (type_size dt)

abbrev pub Finite : Hardware → DataType → Mem ℕ → ℕ → Mem ℕ → ℕ → Type 0
Finite hw dt m at src count = (i : ℕ) → i < count → FiniteSum hw dt (m (at + i)) (src i)

-- Whether the conversions are left to F16C, as they are for a sum of halves on a processor with it.
abbrev pub by_f16c : Hardware → DataType → ℤ → Bool
by_f16c hw float16 op = is_sum op && hw.has_avx2 && hw.has_f16c
by_f16c hw _ op = false

-- What the element in place `i` of `count` becomes: F16C converts those of full blocks of eight.
abbrev pub element_at : Hardware → DataType → ℤ → ℕ → ℕ → ℕ → ℕ → ℕ
element_at hw dt op count i a b =
    if by_f16c hw dt op && ltb i (count / 8 * 8)
    then through hw.cvtph_ps hw.cvtps_ph hw.add32 a b
    else element hw dt op a b

module _ (hw : Hardware) (doc : IsDocumented hw) (op : ℤ) (m : Mem ℕ) (at : ℕ) (src : Mem ℕ)
    (count : ℕ) where
  reduce_float32-eq :
      is_valid_op op ≡ true
      → reduce_float32 hw op m at src count
        ≡ reduce_native (apply_op (float32_arith hw) op) m at src count
  reduce_float32-eq v = elim (Bool-cases hw.has_avx2) [
    | inl e ↦
        rw (f32_simd_reduce_lem hw doc op m at src count (ground (arith, v)) (ground (arith, v)), e)
          refl
    | inr e ↦ rw e refl
  ]

  sum_only : is_sum op ≡ true → apply_op (float32_arith hw) op ≡ hw.add32
  unfolding apply_op
  sum_only h = fun_ext λ a. fun_ext λ b. ground (arith, h)

  reduce_typed-eq :
      (dt : DataType)
      → by_f16c hw dt op ≡ false
      → Finite hw dt m at src count
      → is_valid_op op ≡ true
      → is_known dt ≡ true
      → reduce_typed hw dt op m at src count
        ≡ (success, reduce_native (element hw dt op) m at src count)
  unfolding reduce_typed element type_size reduce16
  reduce_typed-eq int8 n fin v k = refl
  reduce_typed-eq uint8 n fin v k = refl
  reduce_typed-eq int32 n fin v k = refl
  reduce_typed-eq uint32 n fin v k = refl
  reduce_typed-eq int64 n fin v k = refl
  reduce_typed-eq uint64 n fin v k = refl
  reduce_typed-eq float32 n fin v k = rw (reduce_float32-eq v) refl
  reduce_typed-eq float64 n fin v k = refl
  reduce_typed-eq float16 n fin v k = rw n refl
  reduce_typed-eq bfloat16 n fin v k = elim (Bool-cases (is_sum op && hw.has_avx2)) [
    | inl e ↦ rw (e, sum_only (ground (arith, e)), bf16_sum_lem hw doc m at src count fin) refl
    | inr e ↦ rw e refl
  ]
  reduce_typed-eq (other t) n fin v k = absurd (false≢true k)

  reduce_typed-f16c :
      (dt : DataType)
      → by_f16c hw dt op ≡ true
      → reduce_typed hw dt op m at src count ≡ (
        success,
        λ j.
            if leb at j && ltb j (at + count)
            then (if ltb (j - at) (count / 8 * 8)
                then through hw.cvtph_ps hw.cvtps_ph hw.add32 (m j) (src (j - at))
                else element hw dt op (m j) (src (j - at)))
            else m j,
      )
  unfolding reduce_typed element
  reduce_typed-f16c int8 c = absurd (false≢true c)
  reduce_typed-f16c uint8 c = absurd (false≢true c)
  reduce_typed-f16c int32 c = absurd (false≢true c)
  reduce_typed-f16c uint32 c = absurd (false≢true c)
  reduce_typed-f16c int64 c = absurd (false≢true c)
  reduce_typed-f16c uint64 c = absurd (false≢true c)
  reduce_typed-f16c float16 c =
      rw (c, sum_only (ground (arith, c)))
        (ap (λ x. (success, x)) (fun_ext λ j. f16_sum_lem hw doc m at src count j))
  reduce_typed-f16c float32 c = absurd (false≢true c)
  reduce_typed-f16c float64 c = absurd (false≢true c)
  reduce_typed-f16c bfloat16 c = absurd (false≢true c)
  reduce_typed-f16c (other t) c = absurd (false≢true c)

  reduce_typed-unknown :
      (dt : DataType)
      → is_known dt ≡ false
      → reduce_typed hw dt op m at src count ≡ (invalid_argument, m)
  unfolding reduce_typed type_size
  reduce_typed-unknown int8 k = absurd (false≢true (sym k))
  reduce_typed-unknown uint8 k = absurd (false≢true (sym k))
  reduce_typed-unknown int32 k = absurd (false≢true (sym k))
  reduce_typed-unknown uint32 k = absurd (false≢true (sym k))
  reduce_typed-unknown int64 k = absurd (false≢true (sym k))
  reduce_typed-unknown uint64 k = absurd (false≢true (sym k))
  reduce_typed-unknown float16 k = absurd (false≢true (sym k))
  reduce_typed-unknown float32 k = absurd (false≢true (sym k))
  reduce_typed-unknown float64 k = absurd (false≢true (sym k))
  reduce_typed-unknown bfloat16 k = absurd (false≢true (sym k))
  reduce_typed-unknown (other t) k = refl

  -- Whatever the processor offers: `cpuReduce` refuses an operator that is not built in and an
  -- unknown data type and then leaves the buffer as it was; else it succeeds, each of the `count`
  -- elements has become the operator's value of it and its partner, computed one element at a time,
  -- and no other element has changed. For sums of halves on a processor with F16C, its conversions
  -- take the place of the program's in the full blocks of eight. In bfloat16 this needs sums that are
  -- no NaN.
  pub cpu_reduce_lem :
      (dt : DataType)
      → Finite hw dt m at src count
      → cpu_reduce hw dt op m at src count ≡ (
          if is_valid_op op && is_known dt
          then (
            success,
            λ j.
                if leb at j && ltb j (at + count)
                then element_at hw dt op count (j - at) (m j) (src (j - at))
                else m j,
          )
          else (invalid_argument, m))
  unfolding cpu_reduce
  cpu_reduce_lem dt fin = elim (Bool-cases (is_neg op || not (below op num_ops))) [
    | inl e ↦ let v : is_valid_op op ≡ false = ground (arith, e) in rw (e, v) refl
    | inr e ↦
        let v : is_valid_op op ≡ true = ground (arith, e) in
        elim (Bool-cases (is_known dt)) [
          | inl k ↦ elim (Bool-cases (by_f16c hw dt op)) [
            | inl c ↦ rw (e, v, k, c) (reduce_typed-f16c dt c)
            | inr n ↦
                rw (e, v, k, n)
                  (reduce_typed-eq dt n fin v k
                    ∙ ap (λ x. (success, x))
                        (fun_ext λ j. reduce_native_lem (element hw dt op) m at src count j))
          ]
          | inr k ↦ rw (e, v, k) (reduce_typed-unknown dt k)
        ]
  ]
