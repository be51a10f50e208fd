-- ===== src/Comm/CustomOps.antt =====
-- src/core/comm.cc: `vcclRedOpCreatePreMulSum` and `vcclRedOpDestroy`; src/core/comm.h: `premulScalar`;
-- src/core/collectives.cc: `resolveOp`. The scalar of an operator has passed the decoding of its data
-- type; its type (a `double`) is a parameter.
use vkccl.Prelude.{
  ℕ, zero, suc, ◌+◌, ◌-◌, ◌≤◌, ◌<◌, ◌≡◌, ◌≢◌, refl, Bool, true, false, not, ◌&&◌, List, [], ◌∷◌,
  Option, none, some, arith, ltb, leb, ◌==◌, if◌then◌else◌, get_elem?, set, ℤ, pos, negsuc, ◌⊎◌,
  inl, inr, Option-cases, Bool-cases,
}
use vkccl.Types.{
  Result, success, invalid_argument, DataType, is_float_type, num_ops, sum_op, avg_op,
}

-- `vcclComm::CustomOp`
pub record CustomOp (V : Type 0) : Type 0 where
  pub scalar : V
  pub active : Bool

module _ {V : Type 0} where
  abbrev is_active : Option (CustomOp V) → Bool
  is_active none = false
  is_active (some c) = c.active

  unfoldable pub active_scalar : Option (CustomOp V) → Option V
  active_scalar none = none
  active_scalar (some c) = if c.active then some c.scalar else none

  -- `premulScalar(op, &scalar)`: `none` for `false`.
  unfoldable pub premul_scalar : List (CustomOp V) → ℤ → Option V
  unfolding active_scalar
  premul_scalar ops (negsuc k) = none
  premul_scalar ops (pos k) =
      if ltb k num_ops then none else active_scalar (get_elem? ops (k - num_ops))

  -- The loop over the slots: the first inactive slot is taken, or a slot is added at the end.
  -- The index of the slot is counted from `i`.
  take_slot : V → List (CustomOp V) → ℕ → ℕ × List (CustomOp V)
  take_slot v [] i = (i, record { scalar = v; active = true } ∷ [])
  take_slot v (c ∷ cs) i =
      let rest = take_slot v cs (i + 1) in
      if c.active then (rest.0, c ∷ rest.1) else (i, record { scalar = v; active = true } ∷ cs)

  -- `vcclRedOpCreatePreMulSum` for a scalar that is decoded; `none` is a data type that the switch
  -- refuses.
  pub create_premul_sum : DataType → V → List (CustomOp V) → Result × Option ℤ × List (CustomOp V)
  create_premul_sum dt v ops =
      if is_float_type dt
      then (let slot = take_slot v ops 0 in (success, some (pos (num_ops + slot.0)), slot.1))
      else (invalid_argument, none, ops)

  -- `vcclRedOpDestroy`
  pub destroy : ℤ → List (CustomOp V) → Result × List (CustomOp V)
  destroy (negsuc k) ops = (invalid_argument, ops)
  destroy (pos k) ops =
      if ltb k num_ops then (invalid_argument, ops) else elim (get_elem? ops (k - num_ops)) [
        | none ↦ (invalid_argument, ops)
        | some c ↦
            if c.active
            then (success, set ops (k - num_ops) (record c { active = false }))
            else (invalid_argument, ops)
      ]

  -- What `resolveOp` gives for an operator: the built-in operator to run, and the scalar of a
  -- PreMulSum.
  unfoldable pub resolve_op : List (CustomOp V) → DataType → ℤ → Result × Option (ℕ × Option V)
  resolve_op ops dt (negsuc k) = (invalid_argument, none)
  resolve_op ops dt (pos k) =
      if leb num_ops k
      then elim (premul_scalar ops (pos k)) [
        | none ↦ (invalid_argument, none)
        | some v ↦
            if not (is_float_type dt)
            then (invalid_argument, none)
            else (success, some (sum_op, some v))
      ]
      else if k == avg_op && not (is_float_type dt)
      then (invalid_argument, none)
      else (success, some (k, none))

  take_slot-ge : (v : V) (ops : List (CustomOp V)) (i : ℕ) → i ≤ (take_slot v ops i).0
  unfolding take_slot
  take_slot-ge v [] i = omega arith
  take_slot-ge v (c ∷ cs) i = ground (arith, take_slot-ge v cs (i + 1))

  -- The table as a map from slots to scalars: the slot taken was free, and no other changes.
  slot_after :
      (v : V) (ops : List (CustomOp V)) (i j : ℕ)
      → active_scalar (get_elem? (take_slot v ops i).1 j)
        ≡ (if i + j == (take_slot v ops i).0 then some v else active_scalar (get_elem? ops j))
  unfolding take_slot active_scalar
  slot_after v [] i zero = ground arith
  slot_after v [] i (suc j) = ground arith
  slot_after v (c ∷ cs) i zero = ground (arith, take_slot-ge v cs (i + 1))
  slot_after v (c ∷ cs) i (suc j) =
      ground (arith, slot_after v cs (i + 1) j, take_slot-ge v cs (i + 1))

  slot_free :
      (v : V) (ops : List (CustomOp V)) (i j : ℕ)
      → i + j ≡ (take_slot v ops i).0
      → active_scalar (get_elem? ops j) ≡ none
  unfolding take_slot active_scalar
  slot_free v [] i j e = refl
  slot_free v (c ∷ cs) i zero e = ground (arith, take_slot-ge v cs (i + 1))
  slot_free v (c ∷ cs) i (suc j) e = ground (arith, slot_free v cs (i + 1) j)

  set_inactive :
      (ops : List (CustomOp V)) (k j : ℕ) (c : CustomOp V)
      → get_elem? ops k ≡ some c
      → active_scalar (get_elem? (set ops k (record c { active = false })) j)
        ≡ (if j == k then none else active_scalar (get_elem? ops j))
  unfolding active_scalar
  set_inactive [] k j c e = cc
  set_inactive (x ∷ xs) zero zero c e = refl
  set_inactive (x ∷ xs) zero (suc j) c e = ground arith
  set_inactive (x ∷ xs) (suc k) zero c e = ground arith
  set_inactive (x ∷ xs) (suc k) (suc j) c e = ground (arith, set_inactive xs k j c e)

  -- Creating an operator of a float type succeeds with a number that named no operator before.
  -- From then on the number stands for the scalar given, and every other number for what it stood
  -- for before, so a slot in use is never handed out again.
  pub create_premul_sum_lem :
      (dt : DataType) (v : V) (ops : List (CustomOp V))
      → is_float_type dt ≡ true
      → (k : ℕ) × (ops' : List (CustomOp V)) × (create_premul_sum dt v ops
          ≡ (success, some (pos k), ops'))
        × (premul_scalar ops (pos k) ≡ none)
        × ((j : ℕ)
            → premul_scalar ops' (pos j) ≡ (if j == k then some v else premul_scalar ops (pos j)))
  unfolding create_premul_sum premul_scalar
  create_premul_sum_lem dt v ops h =
      let slot = take_slot v ops 0 in
      (
        num_ops + slot.0,
        slot.1,
        rw h,
        ground (arith, slot_free v ops 0 (num_ops + slot.0 - num_ops)),
        λ j. ground (arith, slot_after v ops 0 (j - num_ops)),
      )

  -- Destroying an operator that is not active fails and changes nothing; destroying an active one
  -- succeeds, and afterwards its number stands for nothing, while every other number stands for
  -- what it stood for before.
  destroy_lem :
      (k : ℕ) (ops : List (CustomOp V))
      → ((premul_scalar ops (pos k) ≡ none) × (destroy (pos k) ops ≡ (invalid_argument, ops)))
        ⊎ ((ops' : List (CustomOp V)) × (destroy (pos k) ops ≡ (success, ops'))
            × (premul_scalar ops (pos k) ≢ none)
            × ((j : ℕ)
                → premul_scalar ops' (pos j)
                  ≡ (if j == k then none else premul_scalar ops (pos j))))
  unfolding destroy premul_scalar
  destroy_lem k ops = elim (Bool-cases (ltb k num_ops)) [
    | inl small ↦ inl (rw small, rw small)
    | inr big ↦ elim (Option-cases (get_elem? ops (k - num_ops))) [
      | inl e ↦ inl (rw (big, e), rw (big, e))
      | inr (c, e) ↦ elim (Bool-cases c.active) [
        | inr off ↦ inl (ground arith, ground arith)
        | inl on ↦ inr (
          set ops (k - num_ops) (record c { active = false }),
          ground arith,
          ground arith,
          λ j. ground (arith, set_inactive ops (k - num_ops) (j - num_ops) c e),
        )
      ]
    ]
  ]

  -- An operator that `resolveOp` accepts runs as a built-in one, so `cpuReduce` knows it; an
  -- average and a PreMulSum are accepted for float types only, and a PreMulSum runs as a sum with
  -- the scalar that its number stands for.
  pub resolve_op_lem :
      (ops : List (CustomOp V)) (dt : DataType) (op : ℤ) (k : ℕ) (s : Option V)
      → resolve_op ops dt op ≡ (success, some (k, s))
      → (k < num_ops)
        × ((k ≡ avg_op) → is_float_type dt ≡ true)
        × ((op ≡ pos k) × (s ≡ none)
            ⊎ (k ≡ sum_op) × (is_float_type dt ≡ true) × (s ≡ premul_scalar ops op) × (s ≢ none))
  unfolding resolve_op
  resolve_op_lem ops dt (negsuc m) k s e = absurd (ground arith)
  resolve_op_lem ops dt (pos m) k s e = (ground arith, ground arith, ground arith)
