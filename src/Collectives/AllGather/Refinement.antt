-- ===== src/Collectives/AllGather/Refinement.antt =====
-- src/core/collectives.cc: what `doAllGather` promises, whichever algorithm it takes.
use native.Mathlib.Nat.{div-add-mod', mod-lt, mul-le-mul_right}
use vkccl.Prelude.{
  ℕ, zero, suc, ◌+◌, ◌-◌, ◌*◌, ◌/◌, ◌%◌, ◌≤◌, ◌<◌, ◌≡◌, refl, sym, ap, subst, ◌∙◌, inl, inr, true,
  ◌||◌, Option, some, arith, dec_lt, ℕ_discrete, ltb, ◌==◌, if◌then◌else◌, Bool-cases, pow2_sound,
}
use vkccl.Net.{World}
use vkccl.Collectives.Chunks.{equal_chunks, Tiles, InChunk, equal_chunks-Tiles}
use vkccl.Collectives.Rooted.Gather.{copy_block, copy_beyond}
use vkccl.Collectives.Ring.AllGather.{ring_all_gather, ring_all_gather_lem}
use vkccl.Collectives.AllGather.{
  doubling_all_gather, Algorithm, log_path, is_pow2, all_gather_own, all_gather,
}
use vkccl.Collectives.AllGather.Blocks.{quotient, remainder, Frame, AllBlocks}
use vkccl.Collectives.AllGather.Bruck.{bruck_all_gather_lem}
use vkccl.Collectives.AllGather.Doubling.{doubling_all_gather_lem}

-- The contract: every receive buffer is the send buffers one after the other, and what lies past
-- them is what was there.
abbrev pub gathered : {A : Type 0} → ℕ → ℕ → World A → World A → World A
gathered n chunk send recv r i =
    if ltb i (n * chunk) then send (i / chunk) (i % chunk) else recv r i

factor_pos : (n c i : ℕ) → i < n * c → 0 < c
factor_pos n zero i h = absurd (omega arith)
factor_pos n (suc c) i h = omega arith

module _ {A : Type 0} (n chunk : ℕ) (send recv : World A) where
  of_blocks :
      (v : World A)
      → AllBlocks n chunk send recv v
      → Frame n chunk send recv v
      → (r i : ℕ) → r < n
      → v r i ≡ gathered n chunk send recv r i
  of_blocks v h f r i hr = elim (dec_lt i (n * chunk)) [
    | no p ↦ ground (arith, f r i hr (omega arith))
    | yes p ↦
        let hc : 0 < chunk = factor_pos n chunk i p in
        let q : ℕ = i / chunk in
        let t : ℕ = i % chunk in
        let e : q * chunk + t ≡ i = div-add-mod' i chunk in
        let past : n ≤ q → n * chunk ≤ q * chunk = λ l. mul-le-mul_right {m = n} {n = q} chunk l in
        let hq : q < n = grind (arith, past, e, p) in
        ground (arith, p, ap (v r) e, h r q t hr hq (mod-lt i hc))
  ]

module _ {A : Type 0} (n count esize : ℕ) (send recv : World A) where
  abbrev start : World A
  start = all_gather_own n count esize send recv

  own-Frame : Frame n (count * esize) send recv start
  unfolding all_gather_own
  own-Frame r j hr hj = copy_beyond (recv r) (count * esize) r n j (send r) hr hj

  own-block : (r j : ℕ) → r < n → j < count * esize → start r (r * (count * esize) + j) ≡ send r j
  unfolding all_gather_own
  own-block r j hr hj = ground (arith, copy_block (recv r) (count * esize) r r j (send r) hj)

  ring_start :
      (r i : ℕ)
      → r < n
      → InChunk (λ k. k * (count * esize)) ((r + 0) % n) i
      → start r i ≡ send (i / (count * esize)) (i % (count * esize))
  ring_start r i hr (lo, hi) =
      let c : ℕ = count * esize in
      let m : (r + 0) % n ≡ r = grind arith in
      let lo' : r * c ≤ i = subst (λ k. k * c ≤ i) m lo in
      let hi' : i < (r + 1) * c = subst (λ k. i < (k + 1) * c) m hi in
      let t : ℕ = i - r * c in
      let ht : t < c = omega (arith, lo', hi') in
      let e : r * c + t ≡ i = omega (arith, lo') in
      let q : i / c ≡ r = ap (λ x. x / c) (sym e) ∙ quotient r c t ht in
      let w : i % c ≡ t = ap (λ x. x % c) (sym e) ∙ remainder r c t ht in
      rw (q, w) (ap (start r) (sym e) ∙ own-block r t hr ht)

  in_chunk :
      (v : World A) (r p j : ℕ)
      → j < count * esize
      → v r (p * (count * esize) + j)
        ≡ send
            ((p * (count * esize) + j) / (count * esize))
            ((p * (count * esize) + j) % (count * esize))
      → v r (p * (count * esize) + j) ≡ send p j
  in_chunk v r p j hj e =
      let c : ℕ = count * esize in
      e ∙ ap (λ x. send x ((p * c + j) % c)) (quotient p c j hj) ∙ ap (send p) (remainder p c j hj)

  ring-Blocks :
      0 < n
      → (v : World A) × (ring_all_gather n 1 0 (equal_chunks (count * esize)) start ≡ some v)
        × AllBlocks n (count * esize) send recv v
        × Frame n (count * esize) send recv v
  ring-Blocks hn =
      let c : ℕ = count * esize in
      let one : c * 1 ≡ c = omega arith in
      let t : Tiles 1 (equal_chunks c) (λ k. k * c) =
        subst (λ x. Tiles 1 (equal_chunks x) (λ k. k * c)) one
          (equal_chunks-Tiles c 1 (omega arith)) in
      let good : ℕ → A = λ i. send (i / c) (i % c) in
      let own =
        λ (r i : ℕ) (hr : r < n) (h : InChunk (λ k. k * c) ((r + 0) % n) i). ring_start r i hr h in
      let (v, run, got, out) =
        ring_all_gather_lem n 1 0 (equal_chunks c) (λ k. k * c) t (omega arith) start good hn own in
      (
        v,
        run,
        (λ r p j hr hp hj.
            in_chunk v r p j hj (got r p (p * c + j) hr hp (omega arith, omega arith))),
        (λ r j hr hj. out r j hr (inr hj) ∙ own-Frame r j hr hj),
      )

  doubling-Blocks :
      is_pow2 n ≡ true
      → (v : World A) × (doubling_all_gather n (count * esize) start ≡ some v)
        × AllBlocks n (count * esize) send recv v
        × Frame n (count * esize) send recv v
  unfolding is_pow2
  doubling-Blocks h =
      let (k, e) = pow2_sound n n (omega arith) (ground (arith, h)) (ground (arith, h)) in
      doubling_all_gather_lem n (count * esize) send recv k start e own-block own-Frame

  -- With one rank or no element there is nothing to send.
  alone : (n == 1 || count == 0) ≡ true → AllBlocks n (count * esize) send recv start
  alone e r p j hr hp hj = elim (ℕ_discrete count 0) [
    | yes z ↦ absurd (grind (arith, factor_pos j count esize))
    | no nz ↦
        let same : p ≡ r = ground (arith, e, nz) in
        ap (λ k. start r (k * (count * esize) + j)) same
        ∙ own-block r j hr hj
        ∙ ap (λ k. send k j) (sym same)
  ]

  -- For any environment and any number of ranks above zero: `doAllGather` of all ranks runs to its
  -- end with every call matched, by the ring, by recursive doubling or by Bruck's algorithm, and
  -- the receive buffers are what the contract says.
  pub all_gather_lem :
      (algo : Algorithm) (rd_max : ℕ) (scratch : World A)
      → 0 < n
      → 0 < esize
      → (v : World A) × (all_gather n count esize algo rd_max scratch send recv ≡ some v)
        × ((r i : ℕ) → r < n → v r i ≡ gathered n (count * esize) send recv r i)
  unfolding all_gather
  all_gather_lem algo rd_max scratch hn he = elim (Bool-cases (n == 1 || count == 0)) [
    | inl e ↦ (start, rw e refl, of_blocks n c send recv start (alone e) own-Frame)
    | inr e ↦ elim (Bool-cases (log_path algo c rd_max)) [
      | inr l ↦ done (ring-Blocks hn) (rw (e, l) refl)
      | inl l ↦ elim (Bool-cases (is_pow2 n)) [
        | inl k ↦ done (doubling-Blocks k) (rw (e, l, k) refl)
        | inr k ↦
            done (bruck_all_gather_lem n c send recv scratch start hn own-block own-Frame)
              (rw (e, l, k) refl)
      ]
    ]
  ]
    where
      c : ℕ
      c = count * esize

      done :
          {o o' : Option (World A)}
          → (v : World A) × (o ≡ some v) × AllBlocks n c send recv v × Frame n c send recv v
          → o' ≡ o
          → (v : World A) × (o' ≡ some v) × ((r i : ℕ) → r < n → v r i ≡ gathered n c send recv r i)
      done (v, run, got, frame) e = (v, e ∙ run, of_blocks n c send recv v got frame)
