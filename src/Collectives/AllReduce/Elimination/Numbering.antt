-- ===== src/Collectives/AllReduce/Elimination/Numbering.antt =====
-- src/core/collectives.cc: the ranks that stay in `pow2ElimAllReduce`, by their old and new numbers.
use native.Mathlib.Nat.{pow-suc}
use vkccl.Prelude.{
  ℕ, zero, suc, ◌+◌, ◌*◌, ◌^◌, ◌≤◌, ◌<◌, bit_xor, ◌≡◌, refl, sym, ap, ◌∙◌, inl, inr, true, false,
  none, some, arith, dec_le, leb, le→leb, Option-cases, pow_pos,
}
use vkccl.Net.{all_below, all_below_intro}
use vkccl.Collectives.AllReduce.Elimination.{
  floor_pow2, active_rank, old_rank, pair_matches, core_peer, is_active, core_matches,
}
use vkccl.Collectives.AllGather.Doubling.{partner_there}

-- The power of two below a number.
pub floor_pow2_lem :
    (n fuel k : ℕ)
    → 2 ^ k ≤ n
    → n < 2 ^ k + fuel
    → (m : ℕ) × (floor_pow2 n fuel (2 ^ k) ≡ 2 ^ m) × (2 ^ m ≤ n) × (n < 2 * 2 ^ m)
unfolding floor_pow2
floor_pow2_lem n zero k h l = absurd (omega (arith, h, l))
floor_pow2_lem n (suc fuel) k h l = elim (dec_le (2 ^ k * 2) n) [
  | yes p ↦
      let (m, e, a, b) =
        floor_pow2_lem n fuel (suc k) (omega (arith, p, pow-suc 2 k))
          (omega (arith, l, pow-suc 2 k, pow_pos k)) in
      (m, rw (le→leb (2 ^ k * 2) n p, sym (pow-suc 2 k)) e, a, b)
  | no p ↦
      let t : leb (2 ^ k * 2) n ≡ false = ground (arith, p) in (k, rw t refl, h, omega (arith, p))
]

module _ (n p2 : ℕ) (lo : p2 ≤ n) (hi : n < 2 * p2) where
  pub old_rank-lt : (u : ℕ) → u < p2 → old_rank n p2 u < n
  old_rank-lt u h = ground arith

  pub active-old_rank : (u : ℕ) → active_rank n p2 (old_rank n p2 u) ≡ some u
  active-old_rank u = ground arith

  pub active_rank-old :
      (r u : ℕ) → r < n → active_rank n p2 r ≡ some u → (old_rank n p2 u ≡ r) × (u < p2)
  active_rank-old r u h e = ground (arith, e)

  pub pairs_match : all_below n (pair_matches n p2) ≡ true
  unfolding pair_matches
  pairs_match = all_below_intro n (pair_matches n p2) λ r h. ground arith

  -- The partner of an active rank, by its new number.
  pub core_peer-eq :
      (mask r u : ℕ)
      → active_rank n p2 r ≡ some u
      → core_peer n p2 mask r ≡ old_rank n p2 (bit_xor u mask)
  core_peer-eq mask r u e =
      ap (λ o. elim o [ none ↦ r | some u ↦ old_rank n p2 (bit_xor u mask) ]) e

  pub is_active-eq : (r u : ℕ) → active_rank n p2 r ≡ some u → is_active n p2 r ≡ true
  is_active-eq r u e = ap (λ o. elim o [ none ↦ false | some u ↦ true ]) e

  core_matches-active :
      (k e r u : ℕ)
      → p2 ≡ 2 * e * 2 ^ k
      → r < n
      → active_rank n p2 r ≡ some u
      → core_matches n p2 (2 ^ k) r ≡ true
  unfolding core_matches
  core_matches-active k e r u h hr a =
      let m : ℕ = 2 ^ k in
      let (own, lt) = active_rank-old r u hr a in
      let (plt, back) = partner_there k e p2 u h lt in
      let peer : ℕ = old_rank n p2 (bit_xor u m) in
      let there = active-old_rank (bit_xor u m) in
      let again : core_peer n p2 m peer ≡ r =
        core_peer-eq m peer (bit_xor u m) there ∙ ap (old_rank n p2) back ∙ own in
      rw (is_active-eq r u a, core_peer-eq m r u a, is_active-eq peer (bit_xor u m) there, again)
        (ground (arith, old_rank-lt (bit_xor u m) plt))

  pub core_match : (k e : ℕ) → p2 ≡ 2 * e * 2 ^ k → all_below n (core_matches n p2 (2 ^ k)) ≡ true
  unfolding core_matches
  core_match k e h = all_below_intro n (core_matches n p2 (2 ^ k)) λ r hr.
      elim (Option-cases (active_rank n p2 r)) [
        | inl z ↦
            let off : is_active n p2 r ≡ false =
              ap (λ o. elim o [ none ↦ false | some u ↦ true ]) z in
            rw off refl
        | inr (u, z) ↦ core_matches-active k e r u h hr z
      ]
