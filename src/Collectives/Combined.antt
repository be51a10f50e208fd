-- ===== src/Collectives/Combined.antt =====
-- What a reduction over all ranks promises, apart from the code: an element combined from the
-- contributions of the ranks, each taken a certain number of times, in some order and grouping.
use native.Mathlib.Nat.{pow-suc}
use vkccl.Prelude.{
  ℕ, zero, suc, ◌+◌, ◌-◌, ◌*◌, ◌%◌, ◌^◌, ◌≤◌, ◌<◌, ◌≡◌, refl, ap, ◌∙◌, ◌&&◌, arith, ltb, leb, ◌==◌,
  if◌then◌else◌, wrap,
}
use vkccl.Net.{World}
use vkccl.Collectives.Ring.Positions.{dist, dist-lt}
use vkccl.Collectives.Ring.Fold.{ring_fold}
use vkccl.Collectives.AllReduce.Doubling.{tree}

-- `times q` says how often the contribution of rank `q` goes in.
pub data Combined {A : Type 0} (op : A → A → A) (x : ℕ → A) : (ℕ → ℕ) → A → Type 0 where
  one :
      (r : ℕ) {times : ℕ → ℕ}
      → ((q : ℕ) → times q ≡ (if q == r then 1 else 0))
      → Combined op x times (x r)
  both :
      {these those times : ℕ → ℕ} {a b : A}
      → Combined op x these a
      → Combined op x those b
      → ((q : ℕ) → times q ≡ these q + those q)
      → Combined op x times (op a b)

-- Every rank below `n` goes in once.
abbrev pub everyone : ℕ → ℕ → ℕ
everyone n q = if ltb q n then 1 else 0

-- The ranks from `lo` up to `hi`.
abbrev pub block : ℕ → ℕ → ℕ → ℕ
block lo hi q = if leb lo q && ltb q hi then 1 else 0

pub recount :
    {A : Type 0} {op : A → A → A} {x : ℕ → A} {these times : ℕ → ℕ} {a : A}
    → Combined op x these a
    → ((q : ℕ) → times q ≡ these q)
    → Combined op x times a
recount (one r h) e = one r (λ q. e q ∙ h q)
recount (both c d h) e = both c d (λ q. e q ∙ h q)

-- A tree over groups of ranks that follow one another combines all their ranks.
pub tree-Combined :
    {A : Type 0} (op : A → A → A) (x : ℕ → A) (w : World A) (start : ℕ → ℕ) (i : ℕ)
    → ((u : ℕ) → start u ≤ start (u + 1))
    → ((u : ℕ) → Combined op x (block (start u) (start (u + 1))) (w u i))
    → (k q : ℕ)
    → (start (q * 2 ^ k) ≤ start ((q + 1) * 2 ^ k))
      × Combined op x (block (start (q * 2 ^ k)) (start ((q + 1) * 2 ^ k))) (tree op w k q i)
tree-Combined op x w start i mono leaf zero q =
    let a : q * 2 ^ 0 ≡ q = omega arith in
    let b : (q + 1) * 2 ^ 0 ≡ q + 1 = omega arith in rw (a, b) (mono q, leaf q)
tree-Combined op x w start i mono leaf (suc k) q =
    let (m, c) = tree-Combined op x w start i mono leaf k (2 * q) in
    let (m', c') = tree-Combined op x w start i mono leaf k (2 * q + 1) in
    let a : q * 2 ^ suc k ≡ 2 * q * 2 ^ k = ap (λ z. q * z) (pow-suc 2 k) ∙ omega arith in
    let b : (q + 1) * 2 ^ suc k ≡ (2 * q + 1 + 1) * 2 ^ k =
      ap (λ z. (q + 1) * z) (pow-suc 2 k) ∙ omega arith in
    rw (a, b) (omega arith, both c c' (λ r. ground arith))

pub ring_fold-Combined :
    {A : Type 0} (op : A → A → A) (n : ℕ) (w : World A) (c i : ℕ)
    → c < n
    → (hops : ℕ) → hops < n
    → Combined op
        (λ r. w r i)
        (λ q. if ltb q n && leb (dist n c q) hops then 1 else 0)
        (ring_fold op n w c i hops)
unfolding ring_fold dist
ring_fold-Combined op n w c i hc zero h = one c (λ q. ground (arith, wrap (q + n - c) n))
ring_fold-Combined op n w c i hc (suc hops) h =
    both (one ((c + suc hops) % n) (λ q. refl))
      (ring_fold-Combined op n w c i hc hops (omega arith))
      (λ q. ground (arith, wrap (q + n - c) n, wrap (c + suc hops) n))

-- A ring once round combines every rank.
pub ring-Combined :
    {A : Type 0} (op : A → A → A) (n : ℕ) (w : World A) (c i : ℕ)
    → c < n
    → Combined op (λ r. w r i) (everyone n) (ring_fold op n w c i (n - 1))
ring-Combined op n w c i hc =
    recount (ring_fold-Combined op n w c i hc (n - 1) (omega arith))
      (λ q. ground (arith, dist-lt n c q))
