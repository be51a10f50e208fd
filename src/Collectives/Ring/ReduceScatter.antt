-- ===== src/Collectives/Ring/ReduceScatter.antt =====
-- src/core/collectives.cc: `ringReduceScatter`.
use vkccl.Prelude.{
  ℕ, ◌+◌, ◌-◌, ◌/◌, ◌%◌, ◌≤◌, ◌<◌, ◌≡◌, ◌⊎◌, inl, inr, ◌∙◌, ◌&&◌, ap, sym, subst, refl, true,
  Option, none, some, arith, ltb, leb, if◌then◌else◌, ℕ_discrete,
}
use native.Mathlib.Nat.{div-le_self}
use vkccl.Topology.{next, prev, prev-lt, next-lt, next-prev, prev-next}
use vkccl.Net.{World, SendRecv, matches, matches_intro, exchange, exchange-eq, rounds, rounds_inv}
use vkccl.Reduce.Loops.{reduce_native, reduce_native_lem}
use vkccl.Collectives.Chunks.{Chunk, Tiles, InChunk, InChunk-unique, cut_le}
use vkccl.Collectives.Ring.Positions.{
  reduce_send, reduce_recv, dist, reduce_recv-lt, reduce_send-prev, dist-reduce_recv,
  dist-reduce_recv-prev, reduce_recv_unique, dist_zero, dist_add, dist-next,
}
use vkccl.Collectives.Ring.Fold.{ring_fold, ring_fold_step}

module _ {A : Type 0} (op : A → A → A) (n esize : ℕ) (chunks : ℕ → Chunk) where
  -- The `sendRecv` of rank `r` in step `s`; it receives into the scratch buffer.
  pub reduce_scatter_call : ℕ → ℕ → SendRecv
  reduce_scatter_call s r = record {
    send_peer = next n r;
    send_at = (chunks (reduce_send n r s)).offset / esize;
    send_len = (chunks (reduce_send n r s)).bytes;
    recv_peer = prev n r;
    recv_len = (chunks (reduce_recv n r s)).bytes;
  }

  -- `cpuReduce` of the scratch buffer into the chunk received.
  pub accumulate : ℕ → World A → World A → World A
  accumulate s w scratch r =
      let rc = chunks (reduce_recv n r s) in
      if ltb 0 rc.bytes
      then reduce_native op (w r) (rc.offset / esize) (scratch r) (rc.bytes / esize)
      else w r

  pub reduce_scatter_step : ℕ → World A → Option (World A)
  reduce_scatter_step s w = elim (exchange n (reduce_scatter_call s) w) [
    | none ↦ none
    | some scratch ↦ some (accumulate s w scratch)
  ]

  pub ring_reduce_scatter : World A → Option (World A)
  ring_reduce_scatter w = rounds reduce_scatter_step (n - 1) 0 w

module _ {A : Type 0} (op : A → A → A) (n esize : ℕ) (chunks : ℕ → Chunk) (cut : ℕ → ℕ)
    (t : Tiles esize chunks cut) (w₀ : World A) where
  -- After `s` steps an element is reduced as far as its chunk has travelled.
  abbrev Reduced : ℕ → World A → Type 0
  Reduced s w =
      (r c i : ℕ)
      → r < n
      → c < n
      → InChunk cut c i
      → w r i ≡ (if leb (dist n c r) s then ring_fold op n w₀ c i (dist n c r) else w₀ r i)

  abbrev pub Untouched : World A → Type 0
  Untouched w = (r i : ℕ) → r < n → (i < cut 0) ⊎ (cut n ≤ i) → w r i ≡ w₀ r i

  start-Reduced : Reduced 0 w₀
  unfolding ring_fold
  start-Reduced r c i hr hc hi = ground (arith, dist_zero n c r hc hr)

  call-matches :
      (s r : ℕ) → s + 1 < n → r < n → matches n (reduce_scatter_call op n esize chunks s) r ≡ true
  unfolding reduce_scatter_call
  call-matches s r hs hr =
      matches_intro n (reduce_scatter_call op n esize chunks s) r (prev-lt n r hr) (next-lt n r hr)
        (next-prev n r hr) (ap (λ k. (chunks k).bytes) (reduce_send-prev n r s hr hs))
        (prev-next n r hr)

  scratch_of : ℕ → World A → World A
  unfolding reduce_scatter_call
  scratch_of s w r i = w (prev n r) ((chunks (reduce_send n (prev n r) s)).offset / esize + i)

  accumulate-eq :
      (s : ℕ) (w scratch : World A) (r j : ℕ)
      → let k = reduce_recv n r s in
        accumulate op n esize chunks s w scratch r j ≡ (
          if leb (cut k) j && ltb j (cut (k + 1))
          then op (w r j) (scratch r (j - cut k))
          else w r j)
  unfolding accumulate
  accumulate-eq s w scratch r j = ground (
    arith,
    t.first (reduce_recv n r s),
    t.count (reduce_recv n r s),
    t.mono (reduce_recv n r s),
    div-le_self (chunks (reduce_recv n r s)).bytes esize,
    reduce_native_lem op (w r) ((chunks (reduce_recv n r s)).offset / esize) (scratch r)
        ((chunks (reduce_recv n r s)).bytes / esize) j,
  )

  scratch_of-eq :
      (s : ℕ) (w : World A) (r j : ℕ)
      → s + 1 < n
      → r < n
      → cut (reduce_recv n r s) ≤ j
      → scratch_of s w r (j - cut (reduce_recv n r s)) ≡ w (prev n r) j
  unfolding scratch_of
  scratch_of-eq s w r j hs hr h =
      rw (reduce_send-prev n r s hr hs, t.first (reduce_recv n r s))
        (ap (w (prev n r)) (omega arith))

  -- The chunk received gains the contribution of this rank.
  received :
      (s : ℕ) (w : World A) (r i : ℕ)
      → s + 1 < n
      → r < n
      → InChunk cut (reduce_recv n r s) i
      → Reduced s w
      → let k = reduce_recv n r s in
        accumulate op n esize chunks s w (scratch_of s w) r i
        ≡ (if leb (dist n k r) (s + 1) then ring_fold op n w₀ k i (dist n k r) else w₀ r i)
  received s w r i hs hr hi h =
      let k = reduce_recv n r s in
      let hk : k < n = reduce_recv-lt n r s hr hs in
      let d : dist n k r ≡ s + 1 = dist-reduce_recv n r s hr hs in
      ground (
        arith,
        accumulate-eq s w (scratch_of s w) r i,
        scratch_of-eq s w r i hs hr hi.0,
        dist-reduce_recv-prev n r s hr hs,
        h r k i hr hk hi,
        h (prev n r) k i (prev-lt n r hr) hk hi,
        ring_fold_step op n w₀ k i s,
        subst (λ m. (k + m) % n ≡ r) d (dist_add n k r hk hr),
      )

  -- Every other element keeps its value.
  kept :
      (s : ℕ) (w scratch : World A) (r i : ℕ)
      → ¬ InChunk cut (reduce_recv n r s) i
      → accumulate op n esize chunks s w scratch r i ≡ w r i
  kept s w scratch r i out =
      ground
        (arith, accumulate-eq s w scratch r i, λ (p : InChunk cut (reduce_recv n r s) i). out p)

  accumulate-Reduced :
      (s : ℕ) (w : World A)
      → s + 1 < n
      → Reduced s w
      → Reduced (s + 1) (accumulate op n esize chunks s w (scratch_of s w))
  accumulate-Reduced s w hs h r c i hr hc hi = elim (ℕ_discrete c (reduce_recv n r s)) [
    | yes e ↦
        subst
          (λ c.
            accumulate op n esize chunks s w (scratch_of s w) r i
            ≡ (if leb (dist n c r) (s + 1) then ring_fold op n w₀ c i (dist n c r) else w₀ r i))
          (sym e) (received s w r i hs hr (subst (λ c. InChunk cut c i) e hi) h)
    | no ne ↦ ground (
      arith,
      kept s w (scratch_of s w) r i (λ p. ne (InChunk-unique t c (reduce_recv n r s) i hi p)),
      h r c i hr hc hi,
      reduce_recv_unique n r s hr hs c hc,
    )
  ]

  accumulate-Untouched :
      (s : ℕ) (w scratch : World A)
      → s + 1 < n
      → Untouched w
      → Untouched (accumulate op n esize chunks s w scratch)
  accumulate-Untouched s w scratch hs h r i hr out =
      kept s w scratch r i (λ p. elim out [
        | inl below ↦ omega (arith, cut_le t 0 (reduce_recv n r s) (omega arith))
        | inr above ↦
            omega (
              arith,
              cut_le t (reduce_recv n r s + 1) n (omega (arith, reduce_recv-lt n r s hr hs)),
            )
      ])
      ∙ h r i hr out

  step-Reduced :
      (s : ℕ) (w : World A)
      → s + 1 < n
      → Reduced s w × Untouched w
      → (v : World A) × (reduce_scatter_step op n esize chunks s w ≡ some v)
        × (Reduced (s + 1) v × Untouched v)
  unfolding reduce_scatter_step scratch_of
  step-Reduced s w hs (h, u) = (
    accumulate op n esize chunks s w (scratch_of s w),
    rw (
      exchange-eq n (reduce_scatter_call op n esize chunks s) w (λ r hr. call-matches s r hs hr),
      reduce_scatter_step,
    ),
    (accumulate-Reduced s w hs h, accumulate-Untouched s w (scratch_of s w) hs u),
  )

  pub ring_reduce_scatter-Reduced :
      0 < n
      → (v : World A) × (ring_reduce_scatter op n esize chunks w₀ ≡ some v)
        × (Reduced (n - 1) v × Untouched v)
  unfolding ring_reduce_scatter
  ring_reduce_scatter-Reduced hn =
      rounds_inv (λ s w. Reduced s w × Untouched w) (reduce_scatter_step op n esize chunks) (n - 1)
        (λ s w hs h. step-Reduced s w (omega arith) h) (n - 1) 0 w₀ (omega arith)
        (start-Reduced, λ r i hr out. refl)

  -- For any operation and any chunks that lie end to end, the reduce-scatter of `n` ranks runs to
  -- its end with every call matched. Then each rank `r` holds chunk `(r + 1) % n` fully reduced, the
  -- ranks' elements being combined in the ring order from rank `(r + 1) % n` on, and no element
  -- outside the chunks has changed on any rank.
  pub ring_reduce_scatter_lem :
      0 < n
      → (v : World A) × (ring_reduce_scatter op n esize chunks w₀ ≡ some v)
        × ((r i : ℕ)
            → r < n
            → InChunk cut (next n r) i
            → v r i ≡ ring_fold op n w₀ (next n r) i (n - 1))
        × Untouched v
  ring_reduce_scatter_lem hn =
      let (v, run, (h, u)) = ring_reduce_scatter-Reduced hn in
      (
        v,
        run,
        λ r i hr hi. ground (arith, h r (next n r) i hr (next-lt n r hr) hi, dist-next n r hr),
        u,
      )
