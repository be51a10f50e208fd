-- ===== src/Collectives/AllReduce/Ring.antt =====
-- src/core/collectives.cc: `doAllReduce` by the ring.
use vkccl.Prelude.{
  ℕ, zero, suc, ◌+◌, ◌-◌, ◌*◌, ◌/◌, ◌%◌, ◌≤◌, ◌<◌, min, ◌≡◌, refl, sym, ap, ◌⊎◌, inr, ◌&&◌, some,
  arith, dec_lt, ltb, leb, if◌then◌else◌,
}
use native.Mathlib.Nat.{div-le_self, div-add-mod', mod-lt}
use vkccl.Topology.{next, next-lt}
use vkccl.Net.{World}
use vkccl.Collectives.Chunks.{
  Chunk, per_chunk, make_chunks, Tiles, InChunk, cut_le, InChunk-unique, make_chunks-Tiles,
}
use vkccl.Collectives.Ring.Fold.{ring_fold}
use vkccl.Collectives.Ring.ReduceScatter.{ring_reduce_scatter_lem}
use vkccl.Collectives.Ring.AllGather.{ring_all_gather_lem}
use vkccl.Collectives.ReduceScatter.{Operator}
use vkccl.Collectives.Combined.{ring-Combined}
use vkccl.Collectives.AllReduce.Choice.{average_mine, ring_all_reduce}
use vkccl.Collectives.AllReduce.Promise.{
  average_part-eq, start, own_input-eq, finish, Reduced, at_start,
}

-- The chunk that an element lies in.
chunk_index : (ℕ → ℕ) → ℕ → ℕ → ℕ
chunk_index cut zero i = 0
chunk_index cut (suc n) i = let rest = chunk_index cut n i in if leb (cut n) i then n else rest

chunk_index-InChunk :
    (cut : ℕ → ℕ) (n i : ℕ)
    → cut 0 ≤ i
    → i < cut n
    → (chunk_index cut n i < n) × InChunk cut (chunk_index cut n i) i
unfolding chunk_index
chunk_index-InChunk cut zero i lo hi = absurd (omega arith)
chunk_index-InChunk cut (suc n) i lo hi =
    let e : cut (suc n) ≡ cut (n + 1) = ap cut (omega arith) in
    ground (arith, e, chunk_index-InChunk cut n i lo)

last_cut : (count n : ℕ) → 0 < n → count ≤ per_chunk count n * n
last_cut count n h = omega (arith, div-add-mod' (count + n - 1) n, mod-lt (count + n - 1) h)

module _ {A : Type 0} (o : Operator A) (n count esize : ℕ) (send recv : World A) where
  abbrev begin : World A
  begin = start o n count esize send recv

  module _ (hn : 1 < n) (he : 0 < esize) where
    abbrev chunks : ℕ → Chunk
    chunks = make_chunks count n esize

    abbrev cut : ℕ → ℕ
    cut c = min (per_chunk count n * c) count

    tiles : Tiles esize chunks cut
    tiles = make_chunks-Tiles count n esize he

    whole_cut : (cut 0 ≡ 0) × (cut n ≡ count)
    whole_cut = (omega arith, omega (arith, last_cut count n (omega arith)))

    average_mine-eq :
        (w : World A) (r j : ℕ)
        → average_mine o n count esize chunks w r j ≡ (
            if leb (cut ((r + 1) % n)) j && ltb j (cut ((r + 1) % n + 1))
            then (if o.is_avg then o.average (w r j) else w r j)
            else w r j)
    unfolding average_mine
    average_mine-eq w r j =
        let mine = chunks ((r + 1) % n) in
        ground (
          arith,
          tiles.first ((r + 1) % n),
          tiles.count ((r + 1) % n),
          tiles.mono ((r + 1) % n),
          div-le_self mine.bytes esize,
          average_part-eq o (mine.offset / esize) (mine.bytes / esize) (w r) j,
        )

    around : ℕ → A
    around i = ring_fold o.reduce n begin (chunk_index cut n i) i (n - 1)

    abbrev good : ℕ → A
    good i = if o.is_avg then o.average (around i) else around i

    located : (c i : ℕ) → c < n → InChunk cut c i → chunk_index cut n i ≡ c
    located c i hc h =
        let z : cut 0 ≤ i = omega (arith, whole_cut) in
        let (lt, inside) =
          chunk_index-InChunk cut n i z (omega (arith, cut_le tiles (c + 1) n (omega arith), h)) in
        InChunk-unique tiles (chunk_index cut n i) c i inside h

    index-lt : (i : ℕ) → i < count → chunk_index cut n i < n
    index-lt i h =
        (chunk_index-InChunk cut n i (omega (arith, whole_cut)) (omega (arith, h, whole_cut))).0

    own-good :
        (r i : ℕ) (v : World A)
        → r < n
        → InChunk cut (next n r) i
        → v r i ≡ ring_fold o.reduce n begin (next n r) i (n - 1)
        → average_mine o n count esize chunks v r i ≡ good i
    unfolding next around
    own-good r i v hr h e =
        let at = located (next n r) i (next-lt n r hr) h in
        let same = ap (λ c. ring_fold o.reduce n begin c i (n - 1)) (sym at) in
        ground (arith, average_mine-eq v r i, e, same, h)

    ends :
        (v u : World A) (r i : ℕ)
        → r < n
        → ((c i : ℕ) → r < n → c < n → InChunk cut c i → u r i ≡ good i)
        → ((i < cut 0) ⊎ (cut n ≤ i) → u r i ≡ average_mine o n count esize chunks v r i)
        → ((i < cut 0) ⊎ (cut n ≤ i) → v r i ≡ begin r i)
        → u r i ≡ (if ltb i count then finish o n count esize send recv (around i) else recv r i)
    ends v u r i hr all rest out = elim (dec_lt i count) [
      | yes p ↦
          let inside =
            (chunk_index-InChunk cut n i (omega (arith, whole_cut))
              (omega (arith, p, whole_cut))).1 in
          ground (arith, p, all (chunk_index cut n i) i hr (index-lt i p) inside)
      | no p ↦
          let past : cut n ≤ i = omega (arith, whole_cut, p) in
          ground (
            arith,
            p,
            rest (inr past),
            out (inr past),
            average_mine-eq v r i,
            own_input-eq o n count esize send recv r i,
          )
    ]

    pub ring-Reduced :
        (v : World A) × (ring_all_reduce o n count esize begin ≡ some v)
        × Reduced o n count esize send recv v
    unfolding ring_all_reduce around next
    ring-Reduced =
        let (v, run, own, out) =
          ring_reduce_scatter_lem o.reduce n esize chunks cut tiles begin (omega arith) in
        let v' : World A = average_mine o n count esize chunks v in
        let (u, run', all, rest) =
          ring_all_gather_lem n esize 1 chunks cut tiles (omega arith) v' good (omega arith)
            (λ r i hr h. own-good r i v hr h (own r i hr h)) in
        (
          u,
          rw (ring_all_reduce, run, run') refl,
          (
            around,
            (λ i h.
                at_start o n count esize send recv i h
                  (ring-Combined o.reduce n begin (chunk_index cut n i) i (index-lt i h))),
            λ r i hr. ends v u r i hr (λ c i hr hc h. all r c i hr hc h) (rest r i hr) (out r i hr),
          ),
        )
