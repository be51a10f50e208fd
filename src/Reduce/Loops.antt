-- ===== src/Reduce/Loops.antt =====
-- src/core/reduce.cc: `reduceNative`, the loop that every reduction of `cpuReduce` is, over any
-- element operation. A buffer is read by the index of its elements.
use vkccl.Prelude.{ℕ, zero, suc, ◌+◌, ◌-◌, ◌≡◌, ◌&&◌, arith, ltb, leb, ◌==◌, if◌then◌else◌}
use vkccl.Net.{Mem}

module _ {A : Type 0} where
  abbrev pub update : Mem A → ℕ → A → Mem A
  update m i v j = if j == i then v else m j

  -- `for (; i < count; i++) dst[i] = applyOp(op, dst[i], src[i]);` with `left` rounds to go.
  pub reduce_from : (A → A → A) → Mem A → ℕ → Mem A → ℕ → ℕ → Mem A
  reduce_from op m at src i zero = m
  reduce_from op m at src i (suc left) =
      reduce_from op (update m (at + i) (op (m (at + i)) (src i))) at src (i + 1) left

  -- `reduceNative` with `dst` at offset `at` of a buffer.
  pub reduce_native : (A → A → A) → Mem A → ℕ → Mem A → ℕ → Mem A
  reduce_native op m at src count = reduce_from op m at src 0 count

  pub reduce_from-eq :
      (op : A → A → A) (m : Mem A) (at : ℕ) (src : Mem A) (i left j : ℕ)
      → reduce_from op m at src i left j
        ≡ (if leb (at + i) j && ltb j (at + i + left) then op (m j) (src (j - at)) else m j)
  unfolding reduce_from
  reduce_from-eq op m at src i zero j = ground arith
  reduce_from-eq op m at src i (suc left) j =
      ground (
        arith,
        reduce_from-eq op (update m (at + i) (op (m (at + i)) (src i))) at src (i + 1) left j,
      )

  -- The loop combines the elements of its range, each with its own partner, and nothing else.
  pub reduce_native_lem :
      (op : A → A → A) (m : Mem A) (at : ℕ) (src : Mem A) (count j : ℕ)
      → reduce_native op m at src count j
        ≡ (if leb at j && ltb j (at + count) then op (m j) (src (j - at)) else m j)
  unfolding reduce_native
  reduce_native_lem op m at src count j = ground (arith, reduce_from-eq op m at src 0 count j)
