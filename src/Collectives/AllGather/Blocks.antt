-- ===== src/Collectives/AllGather/Blocks.antt =====
-- src/core/collectives.cc: buffers of equal blocks, and the start of an all-gather.
use native.Mathlib.Nat.{mul-le-mul_right, div-eq_of_lt-le, mul-add-mod_self_right, mod-eq_of_lt}
use vkccl.Prelude.{
  ℕ, ◌+◌, ◌-◌, ◌*◌, ◌/◌, ◌%◌, ◌≤◌, ◌<◌, ◌≡◌, ap, ◌∙◌, ◌&&◌, arith, dec_lt, ltb, leb, if◌then◌else◌,
}
use vkccl.Collectives.Rooted.Gather.{block_apart}
use vkccl.Net.{Mem, World, copy_to}

-- A number by its quotient and remainder.
pub quotient : (q m t : ℕ) → t < m → (q * m + t) / m ≡ q
quotient q m t h = div-eq_of_lt-le {k = q} m (omega arith) (omega arith)

pub remainder : (q m t : ℕ) → t < m → (q * m + t) % m ≡ t
remainder q m t h = mul-add-mod_self_right q m t ∙ mod-eq_of_lt h

-- A copy of `m` blocks to block `c` changes those blocks and no other.
pub copy_blocks :
    {A : Type 0} (into : Mem A) (size c m p i : ℕ) (f : Mem A)
    → i < size
    → copy_to into (c * size) (m * size) f (p * size + i)
      ≡ (if leb c p && ltb p (c + m) then f ((p - c) * size + i) else into (p * size + i))
unfolding copy_to
copy_blocks into size c m p i f h =
    let lo = λ (l : c ≤ p). mul-le-mul_right {m = c} {n = p} size l in
    let hi = λ (l : c + m ≤ p). mul-le-mul_right {m = c + m} {n = p} size l in
    elim (dec_lt p c) [
      | yes a ↦ ground (arith, block_apart size p c i h a)
      | no a ↦ elim (dec_lt p (c + m)) [
        | yes b ↦
            let q : p - c + c ≡ p = omega arith in
            let d : (p - c + c) * size ≡ p * size = ap (λ k. k * size) q in
            let e : p * size + i - c * size ≡ (p - c) * size + i = omega (arith, d) in
            ground (arith, e, lo, block_apart size p (c + m) i h b)
        | no b ↦ ground (arith, lo, hi)
      ]
    ]

pub blocks_beyond :
    {A : Type 0} (into : Mem A) (size c m n j : ℕ) (f : Mem A)
    → c + m ≤ n
    → n * size ≤ j
    → copy_to into (c * size) (m * size) f j ≡ into j
unfolding copy_to
blocks_beyond into size c m n j f h hj = ground (arith, mul-le-mul_right {m = c + m} {n = n} size h)

-- What an all-gather promises of the buffers of all ranks, where rank `p` contributes block `p`.
module _ {A : Type 0} (n chunk : ℕ) (blocks : ℕ → ℕ → A) (w₀ : World A) where
  -- Nothing past the last block has changed.
  abbrev pub Frame : World A → Type 0
  Frame w = (r j : ℕ) → r < n → n * chunk ≤ j → w r j ≡ w₀ r j

  -- Every rank holds the blocks of all ranks in their order.
  abbrev pub AllBlocks : World A → Type 0
  AllBlocks w = (r p j : ℕ) → r < n → p < n → j < chunk → w r (p * chunk + j) ≡ blocks p j
