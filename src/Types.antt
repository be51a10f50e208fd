-- ===== src/Types.antt =====
-- include/vccl.h and src/core/types.cc: result codes, data types, operator numbers.
use vkccl.Prelude.{
  ℕ, ◌≡◌, refl, sym, subst, ◌∙◌, inl, inr, Bool, true, false, not, false≢true, if◌then◌else◌,
  Bool-cases,
}

-- `vcclResult_t`
pub data Result : Type 0 where
  success unhandled_error system_error internal_error : Result
  invalid_argument invalid_usage remote_error : Result

abbrev pub is_success : Result → Bool
is_success success = true
is_success _ = false

-- Code that returns a result which is not a success, as `VCCLCHECK` does, and goes on otherwise: if
-- it succeeds, so did the result, and it ends as what follows.
pub checked :
    {X : Type 0} (res : Result) (x : X) (rest : Result × X)
    → is_success (if not (is_success res) then (res, x) else rest).0 ≡ true
    → (is_success res ≡ true)
      × ((if not (is_success res) then (res, x) else rest) ≡ rest)
      × (is_success rest.0 ≡ true)
checked res x rest e = elim (Bool-cases (is_success res)) [
  | inl ok ↦
      rw ok (refl, refl, subst (λ b. is_success (if not b then (res, x) else rest).0 ≡ true) ok e)
  | inr bad ↦ absurd (
      false≢true
        (sym bad ∙ subst (λ b. is_success (if not b then (res, x) else rest).0 ≡ true) bad e))
]

-- `vcclDataType_t`; `other` is any value outside the enumerators.
pub data DataType : Type 0 where
  int8 uint8 int32 uint32 int64 uint64 float16 float32 float64 bfloat16 : DataType
  other : ℕ → DataType

-- `vcclTypeSize`
unfoldable pub type_size : DataType → ℕ
type_size int8 = 1
type_size uint8 = 1
type_size float16 = 2
type_size bfloat16 = 2
type_size int32 = 4
type_size uint32 = 4
type_size float32 = 4
type_size int64 = 8
type_size uint64 = 8
type_size float64 = 8
type_size (other n) = 0

-- `isFloatType` of src/core/collectives.cc
unfoldable pub is_float_type : DataType → Bool
is_float_type float16 = true
is_float_type bfloat16 = true
is_float_type float32 = true
is_float_type float64 = true
is_float_type _ = false

-- The values of `vcclRedOp_t` that are built in; an operator is a C `int`, and the values from
-- `num_ops` on are a communicator's own.
abbrev pub sum_op : ℕ
sum_op = 0

abbrev pub prod_op : ℕ
prod_op = 1

abbrev pub max_op : ℕ
max_op = 2

abbrev pub min_op : ℕ
min_op = 3

abbrev pub avg_op : ℕ
avg_op = 4

abbrev pub num_ops : ℕ
num_ops = 5
