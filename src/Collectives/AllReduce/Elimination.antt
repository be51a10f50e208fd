-- ===== src/Collectives/AllReduce/Elimination.antt =====
-- src/core/collectives.cc: `pow2ElimAllReduce` of all ranks, for any operation on elements. A step in
-- which calls have no partner has no result, as in Net.
pub mod Numbering
pub mod Agreement
use vkccl.Prelude.{
  ℕ, zero, suc, ◌+◌, ◌-◌, ◌*◌, ◌/◌, ◌%◌, bit_xor, Bool, true, false, ◌&&◌, Option, none, some, ltb,
  leb, ◌==◌, if◌then◌else◌,
}
use vkccl.Net.{World, all_below, copy_to}
use vkccl.Reduce.Loops.{reduce_native}

-- `while (p2 * 2 <= n) p2 <<= 1;`, on fuel.
unfoldable pub floor_pow2 : ℕ → ℕ → ℕ → ℕ
floor_pow2 n zero p2 = p2
floor_pow2 n (suc fuel) p2 =
    let rest = floor_pow2 n fuel (p2 * 2) in if leb (p2 * 2) n then rest else p2

module _ (n p2 : ℕ) where
  abbrev pub extra : ℕ
  extra = n - p2

  -- `evenSurvivor`, `oddEliminated` and `newRank`, where `none` is -1.
  abbrev pub even_survivor : ℕ → Bool
  even_survivor r = ltb r (2 * extra) && r % 2 == 0

  abbrev pub odd_eliminated : ℕ → Bool
  odd_eliminated r = ltb r (2 * extra) && r % 2 == 1

  abbrev pub active_rank : ℕ → Option ℕ
  active_rank r =
      if ltb r (2 * extra) then (if r % 2 == 1 then none else some (r / 2)) else some (r - extra)

  -- `(newPeer < extra) ? newPeer * 2 : newPeer + extra`
  abbrev pub old_rank : ℕ → ℕ
  old_rank u = if ltb u extra then u * 2 else u + extra

  -- The sends and receives of the first and the last step have each other as partners.
  unfoldable pub pair_matches : ℕ → Bool
  pair_matches r =
      if even_survivor r
      then ltb (r + 1) n && odd_eliminated (r + 1)
      else if odd_eliminated r
      then even_survivor (r - 1)
      else true

  -- The partner of a rank in a step of the core.
  abbrev pub core_peer : ℕ → ℕ → ℕ
  core_peer mask r = elim (active_rank r) [ none ↦ r | some u ↦ old_rank (bit_xor u mask) ]

  abbrev pub is_active : ℕ → Bool
  is_active r = elim (active_rank r) [ none ↦ false | some u ↦ true ]

  unfoldable pub core_matches : ℕ → ℕ → Bool
  core_matches mask r =
      if is_active r
      then ltb (core_peer mask r) n
        && is_active (core_peer mask r)
        && core_peer mask (core_peer mask r) == r
      else true

module _ {A : Type 0} (op : A → A → A) (n count p2 : ℕ) where
  -- An even survivor adds its neighbour's buffer to its own.
  unfoldable pub pre_step : World A → Option (World A)
  pre_step w =
      if all_below n (pair_matches n p2)
      then some
          (λ r. if even_survivor n p2 r then reduce_native op (w r) 0 (w (r + 1)) count else w r)
      else none

  unfoldable pub core_step : ℕ → World A → Option (World A)
  core_step mask w =
      if all_below n (core_matches n p2 mask)
      then some (λ r.
        if is_active n p2 r
        then reduce_native op (w r) 0 (w (core_peer n p2 mask r)) count
        else w r)
      else none

  -- `for (auto& cp : corePeers)`, on fuel.
  unfoldable pub core_from : ℕ → ℕ → World A → Option (World A)
  core_from zero mask w = some w
  core_from (suc fuel) mask w =
      let rest : Option (World A) = elim (core_step mask w) [
        | none ↦ none
        | some v ↦ core_from fuel (mask * 2) v
      ] in
      if ltb mask p2 then rest else some w

  -- An eliminated rank gets the result of its neighbour.
  unfoldable pub post_step : World A → Option (World A)
  post_step w =
      if all_below n (pair_matches n p2)
      then some (λ r. if odd_eliminated n p2 r then copy_to (w r) 0 count (w (r - 1)) else w r)
      else none

  -- The three parts of `pow2ElimAllReduce`; the mask doubles, so `n` rounds are enough.
  unfoldable pub elim_rounds : World A → Option (World A)
  elim_rounds w = elim (pre_step w) [
    | none ↦ none
    | some v ↦ elim (core_from n 1 v) [ none ↦ none | some u ↦ post_step u ]
  ]

-- `pow2ElimAllReduce`
unfoldable pub elim_all_reduce : {A : Type 0} → (A → A → A) → ℕ → ℕ → World A → Option (World A)
unfolding floor_pow2 elim_rounds
elim_all_reduce op n count w = elim_rounds op n count (floor_pow2 n n 1) w
