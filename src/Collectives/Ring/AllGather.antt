-- ===== src/Collectives/Ring/AllGather.antt =====
-- src/core/collectives.cc: `ringAllGather`.
use vkccl.Prelude.{
  ℕ, ◌+◌, ◌-◌, ◌/◌, ◌%◌, ◌≤◌, ◌<◌, ◌≡◌, ◌⊎◌, ◌&&◌, ap, subst, refl, true, Option, none, some, arith,
  ltb, leb, if◌then◌else◌, ℕ_discrete,
}
use vkccl.Topology.{next, prev, prev-lt, next-lt, next-prev, prev-next}
use vkccl.Net.{
  World, SendRecv, matches, matches_intro, exchange, exchange-eq, rounds, rounds_inv, copy_to,
}
use vkccl.Collectives.Chunks.{Chunk, Tiles, InChunk, InChunk-unique, cut_le}
use vkccl.Collectives.Ring.Positions.{
  gather_send, gather_recv, held, gather_recv-lt, gather_send-prev, held-gather_recv-prev,
  gather_recv_unique, held-lt, held_zero,
}

module _ (n esize shift : ℕ) (chunks : ℕ → Chunk) where
  -- The `sendRecv` of rank `r` in step `s`; it receives into the buffer itself. `postRecvs` has
  -- announced the same receives before the loop; it moves no data.
  pub all_gather_call : ℕ → ℕ → SendRecv
  all_gather_call s r = record {
    send_peer = next n r;
    send_at = (chunks (gather_send n shift r s)).offset / esize;
    send_len = (chunks (gather_send n shift r s)).bytes;
    recv_peer = prev n r;
    recv_len = (chunks (gather_recv n shift r s)).bytes;
  }

module _ {A : Type 0} (n esize shift : ℕ) (chunks : ℕ → Chunk) where
  -- The received chunk goes to its own place.
  pub store : ℕ → World A → World A → World A
  store s w received r =
      let rc = chunks (gather_recv n shift r s) in
      copy_to (w r) (rc.offset / esize) (rc.bytes / esize) (received r)

  pub all_gather_step : ℕ → World A → Option (World A)
  all_gather_step s w = elim (exchange n (all_gather_call n esize shift chunks s) w) [
    | none ↦ none
    | some received ↦ some (store s w received)
  ]

  pub ring_all_gather : World A → Option (World A)
  ring_all_gather w = rounds all_gather_step (n - 1) 0 w

module _ {A : Type 0} (n esize shift : ℕ) (chunks : ℕ → Chunk) (cut : ℕ → ℕ)
    (t : Tiles esize chunks cut) (small : shift ≤ 1) (w₀ : World A) (good : ℕ → A) where
  -- After `s` steps a rank holds the chunks that have reached it.
  abbrev Gathered : ℕ → World A → Type 0
  Gathered s w =
      (r c i : ℕ) → r < n → c < n → InChunk cut c i → held n shift c r ≤ s → w r i ≡ good i

  abbrev pub Outside : World A → Type 0
  Outside w = (r i : ℕ) → r < n → (i < cut 0) ⊎ (cut n ≤ i) → w r i ≡ w₀ r i

  call-matches :
      (s r : ℕ) → s + 1 < n → r < n → matches n (all_gather_call n esize shift chunks s) r ≡ true
  unfolding all_gather_call
  call-matches s r hs hr =
      matches_intro n (all_gather_call n esize shift chunks s) r (prev-lt n r hr) (next-lt n r hr)
        (next-prev n r hr) (ap (λ k. (chunks k).bytes) (gather_send-prev n shift small r s hr hs))
        (prev-next n r hr)

  received_of : ℕ → World A → World A
  received_of s w r i =
      w (prev n r) ((chunks (gather_send n shift (prev n r) s)).offset / esize + i)

  store-eq :
      (s : ℕ) (w : World A) (r j : ℕ)
      → s + 1 < n
      → r < n
      → let k = gather_recv n shift r s in
        store n esize shift chunks s w (received_of s w) r j
        ≡ (if leb (cut k) j && ltb j (cut (k + 1)) then w (prev n r) j else w r j)
  unfolding store received_of copy_to
  store-eq s w r j hs hr =
      let k = gather_recv n shift r s in
      rw (gather_send-prev n shift small r s hr hs) (ground (arith, t.first k, t.count k, t.mono k))

  store-Gathered :
      (s : ℕ) (w : World A)
      → s + 1 < n
      → Gathered s w
      → Gathered (s + 1) (store n esize shift chunks s w (received_of s w))
  store-Gathered s w hs h r c i hr hc hi hd = elim (ℕ_discrete c (gather_recv n shift r s)) [
    | yes e ↦
        let k = gather_recv n shift r s in
        let hk : InChunk cut k i = subst (λ c. InChunk cut c i) e hi in
        ground (
          arith,
          store-eq s w r i hs hr,
          hk,
          h (prev n r) k i (prev-lt n r hr) (gather_recv-lt n shift small r s hr hs) hk,
          held-gather_recv-prev n shift small r s hr hs,
        )
    | no ne ↦ ground (
      arith,
      store-eq s w r i hs hr,
      λ (p : InChunk cut (gather_recv n shift r s) i).
          ne (InChunk-unique t c (gather_recv n shift r s) i hi p),
      h r c i hr hc hi,
      gather_recv_unique n shift small r s hr hs c hc,
    )
  ]

  -- A store goes to one chunk, so it stays inside the table.
  store-Outside :
      (s : ℕ) (w : World A)
      → s + 1 < n
      → Outside w
      → Outside (store n esize shift chunks s w (received_of s w))
  store-Outside s w hs h r i hr out =
      let k = gather_recv n shift r s in
      ground (
        arith,
        store-eq s w r i hs hr,
        h r i hr out,
        cut_le t 0 k (omega arith),
        cut_le t (k + 1) n (omega (arith, gather_recv-lt n shift small r s hr hs)),
      )

  step-Gathered :
      (s : ℕ) (w : World A)
      → s + 1 < n
      → Gathered s w × Outside w
      → (v : World A) × (all_gather_step n esize shift chunks s w ≡ some v)
        × (Gathered (s + 1) v × Outside v)
  unfolding all_gather_step all_gather_call received_of
  step-Gathered s w hs (h, u) = (
    store n esize shift chunks s w (received_of s w),
    rw (
      exchange-eq n (all_gather_call n esize shift chunks s) w (λ r hr. call-matches s r hs hr),
      all_gather_step,
    ),
    (store-Gathered s w hs h, store-Outside s w hs u),
  )

  -- For any chunks that lie end to end: if each rank `r` starts with good values in chunk
  -- `(r + startShift) % n`, then the all-gather of `n` ranks runs to its end with every call
  -- matched, every rank ends with the good values in all chunks, and no element outside the chunks
  -- has changed.
  pub ring_all_gather_lem :
      0 < n
      → ((r i : ℕ) → r < n → InChunk cut ((r + shift) % n) i → w₀ r i ≡ good i)
      → (v : World A) × (ring_all_gather n esize shift chunks w₀ ≡ some v)
        × ((r c i : ℕ) → r < n → c < n → InChunk cut c i → v r i ≡ good i)
        × Outside v
  unfolding ring_all_gather
  ring_all_gather_lem hn start =
      let (v, run, (h, u)) =
        rounds_inv (λ s w. Gathered s w × Outside w) (all_gather_step n esize shift chunks) (n - 1)
          (λ s w hs h. step-Gathered s w (omega arith) h) (n - 1) 0 w₀ (omega arith)
          (
            (λ r c i hr hc hi hd. start r i hr (
                subst (λ c. InChunk cut c i) (held_zero n shift small c r hc hr (omega arith)) hi)),
            λ r i hr out. refl,
          ) in
      (
        v,
        run,
        (λ r c i hr hc hi. h r c i hr hc hi (omega (arith, held-lt n shift small c r hc hr))),
        u,
      )
