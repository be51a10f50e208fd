-- ===== src/Collectives/Chunks.antt =====
-- src/core/collectives.cc: `Chunk` and `makeChunks`, and the tables of equal chunks. A table of `n`
-- chunks is a function of the index below `n`; offsets and sizes are in bytes, as in the code.
use native.Mathlib.Nat.{mul-div_cancel, div-eq_of_eq-mul_left, le_trans, le_of_eq}
use vkccl.Prelude.{ℕ, zero, suc, ◌+◌, ◌-◌, ◌*◌, ◌/◌, ◌≤◌, ◌<◌, ◌≡◌, min, arith, ap, subst, dec_lt}

pub record Chunk : Type 0 where
  pub offset : ℕ
  pub bytes : ℕ

abbrev pub per_chunk : ℕ → ℕ → ℕ
per_chunk count n = (count + n - 1) / n

-- `makeChunks`
pub make_chunks : ℕ → ℕ → ℕ → ℕ → Chunk
make_chunks count n esize i =
    let begin = min (per_chunk count n * i) count in
    let end = min (per_chunk count n * (i + 1)) count in
    record { offset = begin * esize; bytes = (end - begin) * esize }

-- The table of `doAllGather`'s ring.
pub equal_chunks : ℕ → ℕ → Chunk
equal_chunks chunk_bytes i = record { offset = i * chunk_bytes; bytes = chunk_bytes }

-- The chunks lie end to end: chunk `c` holds the elements from `cut c` up to `cut (c + 1)`.
pub record Tiles (esize : ℕ) (chunks : ℕ → Chunk) (cut : ℕ → ℕ) : Type 0 where
  pub mono : (c : ℕ) → cut c ≤ cut (c + 1)
  pub first : (c : ℕ) → (chunks c).offset / esize ≡ cut c
  pub count : (c : ℕ) → (chunks c).bytes / esize ≡ cut (c + 1) - cut c

abbrev pub InChunk : (ℕ → ℕ) → ℕ → ℕ → Type 0
InChunk cut c i = (cut c ≤ i) × (i < cut (c + 1))

module _ {esize : ℕ} {chunks : ℕ → Chunk} {cut : ℕ → ℕ} (t : Tiles esize chunks cut) where
  pub cut_mono : (c k : ℕ) → cut c ≤ cut (c + k)
  cut_mono c zero = le_of_eq (ap cut (omega arith))
  cut_mono c (suc k) =
      le_trans (cut_mono c k) (le_trans (t.mono (c + k)) (le_of_eq (ap cut (omega arith))))

  pub cut_le : (c d : ℕ) → c ≤ d → cut c ≤ cut d
  cut_le c d h =
      let e : c + (d - c) ≡ d = omega arith in subst (λ k. cut c ≤ cut k) e (cut_mono c (d - c))

  -- An element lies in one chunk only.
  pub InChunk-unique : (c d i : ℕ) → InChunk cut c i → InChunk cut d i → c ≡ d
  InChunk-unique c d i h k = elim (dec_lt c d) [
    | yes p ↦ absurd (omega (arith, cut_le (c + 1) d (omega arith)))
    | no p ↦ elim (dec_lt d c) [
      | yes q ↦ absurd (omega (arith, cut_le (d + 1) c (omega arith)))
      | no q ↦ omega arith
    ]
  ]

pub make_chunks-Tiles :
    (count n esize : ℕ)
    → 0 < esize
    → Tiles esize (make_chunks count n esize) (λ c. min (per_chunk count n * c) count)
unfolding make_chunks
make_chunks-Tiles count n esize h = record {
  mono = λ c. grind arith;
  first = λ c. mul-div_cancel _ h;
  count = λ c. mul-div_cancel _ h;
}

pub equal_chunks-Tiles :
    (count esize : ℕ) → 0 < esize → Tiles esize (equal_chunks (count * esize)) (λ c. c * count)
unfolding equal_chunks
equal_chunks-Tiles count esize h = record {
  mono = λ c. grind arith;
  first = λ c. div-eq_of_eq-mul_left h (omega arith);
  count = λ c. omega (arith, mul-div_cancel count h);
}
