-- ===== src/Collectives/AllReduce/Trees.antt =====
-- The two all-reduces in logarithmically many steps combine every rank once.
use vkccl.Prelude.{
  ℕ, ◌+◌, ◌-◌, ◌*◌, ◌^◌, ◌≤◌, ◌<◌, ◌≡◌, refl, inl, inr, arith, ltb, if◌then◌else◌, Bool-cases,
}
use vkccl.Net.{World}
use vkccl.Collectives.Combined.{Combined, one, both, everyone, block, recount, tree-Combined}
use vkccl.Collectives.AllReduce.Doubling.{tree}
use vkccl.Collectives.AllReduce.Elimination.Agreement.{merged_of}

-- The first rank that goes into the group of an active rank, with `e` groups of two.
abbrev start_of : ℕ → ℕ → ℕ
start_of e u = if ltb u e then 2 * u else u + e

module _ {A : Type 0} (op : A → A → A) (w : World A) (i : ℕ) where
  pub doubled-Combined : (k : ℕ) → Combined op (λ r. w r i) (everyone (2 ^ k)) (tree op w k 0 i)
  doubled-Combined k =
      let (m, c) =
        tree-Combined op (λ r. w r i) w (λ u. u) i (λ u. omega arith)
          (λ u. one u (λ q. ground arith)) k 0 in
      recount c (λ q.
        let a : 0 * 2 ^ k ≡ 0 = omega arith in
        let b : (0 + 1) * 2 ^ k ≡ 2 ^ k = omega arith in ground arith)

  merged-leaf :
      (n p u : ℕ)
      → Combined op
          (λ r. w r i)
          (block (start_of (n - p) u) (start_of (n - p) (u + 1)))
          (merged_of op n p w u i)
  merged-leaf n p u = elim (Bool-cases (ltb u (n - p))) [
    | inl t ↦
        rw t (both (one (u * 2) (λ q. refl)) (one (u * 2 + 1) (λ q. refl)) (λ q. ground (arith, t)))
    | inr t ↦ rw t (one (u + (n - p)) (λ q. ground (arith, t)))
  ]

  pub merged-Combined :
      (n k : ℕ)
      → 2 ^ k ≤ n
      → n < 2 * 2 ^ k
      → Combined op (λ r. w r i) (everyone n) (tree op (merged_of op n (2 ^ k) w) k 0 i)
  merged-Combined n k lo hi =
      let (m, c) =
        tree-Combined op (λ r. w r i) (merged_of op n (2 ^ k) w) (start_of (n - 2 ^ k)) i
          (λ u. ground arith) (merged-leaf n (2 ^ k)) k 0 in
      recount c (λ q.
        let a : 0 * 2 ^ k ≡ 0 = omega arith in
        let b : (0 + 1) * 2 ^ k ≡ 2 ^ k = omega arith in ground arith)
