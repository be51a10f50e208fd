-- ===== src/Collectives/AllGather/Bruck.antt =====
-- src/core/collectives.cc: `bruckAllGather` on any number of ranks.
use native.Mathlib.Nat.{mod-add-mod, mul-le-mul_right}
use vkccl.Prelude.{
  ℕ, zero, suc, ◌+◌, ◌-◌, ◌*◌, ◌%◌, ◌≤◌, ◌<◌, min, ◌≡◌, refl, sym, ap, subst, ◌∙◌, true, false,
  ◌&&◌, some, arith, dec_lt, dec_le, ℕ_discrete, ltb, leb, if◌then◌else◌, lt→ltb, le→leb, ge→ltb,
  wrap,
}
use vkccl.Collectives.Rooted.Gather.{
  block_apart, copy_block, behind, peer-behind, behind-eq, behind-lt,
}
use vkccl.Net.{Mem, World, matches, exchange, copy_to, exchange-eq, matches_intro}
use vkccl.Collectives.AllGather.{
  bruck_xfer, bruck_call, bruck_store, bruck_from, rotate_from, bruck_start, bruck_end,
  bruck_all_gather,
}
use vkccl.Collectives.AllGather.Blocks.{copy_blocks, blocks_beyond, Frame, AllBlocks}

module _ {A : Type 0} (n chunk : ℕ) (blocks : ℕ → ℕ → A) (w₀ : World A) where
  -- Block `i` of rank `r` is that of the rank `i` places on.
  abbrev Rotated : ℕ → World A → Type 0
  Rotated held w =
      (r i j : ℕ) → r < n → i < held → j < chunk → w r (i * chunk + j) ≡ blocks ((r + i) % n) j

  xfer-eq :
      (pof2 : ℕ) → pof2 < n → bruck_xfer n chunk pof2 (pof2 * chunk) ≡ min pof2 (n - pof2) * chunk
  unfolding bruck_xfer
  xfer-eq pof2 h = elim (dec_le pof2 (n - pof2)) [
    | yes p ↦
        let e : min pof2 (n - pof2) ≡ pof2 = omega arith in rw (le→leb pof2 (n - pof2) p, e) refl
    | no p ↦
        let e : min pof2 (n - pof2) ≡ n - pof2 = omega arith in
        let l : leb pof2 (n - pof2) ≡ false = ground arith in rw (e, l) refl
  ]

  call-matches :
      (pof2 curr r : ℕ) → pof2 < n → r < n → matches n (bruck_call n chunk pof2 curr) r ≡ true
  unfolding bruck_call
  call-matches pof2 curr r hp hr =
      let a = wrap (r + n - pof2) n (omega arith) in
      let b = wrap (r + pof2) n (omega arith) in
      matches_intro n (bruck_call n chunk pof2 curr) r (omega (arith, b)) (omega (arith, a))
        (omega (arith, b, wrap ((r + pof2) % n + n - pof2) n (omega (arith, b)))) refl
        (omega (arith, a, wrap ((r + n - pof2) % n + pof2) n (omega (arith, a))))

  after : ℕ → World A → World A
  after pof2 w = bruck_store n chunk pof2 (pof2 * chunk) w λ r i. w ((r + pof2) % n) (0 + i)

  after-eq :
      (pof2 : ℕ) (w : World A) (r i j : ℕ)
      → pof2 < n
      → j < chunk
      → after pof2 w r (i * chunk + j) ≡ (
          if leb pof2 i && ltb i (pof2 + min pof2 (n - pof2))
          then w ((r + pof2) % n) (0 + ((i - pof2) * chunk + j))
          else w r (i * chunk + j))
  unfolding after bruck_store
  after-eq pof2 w r i j hp hj =
      rw (xfer-eq pof2 hp) (copy_blocks (w r) chunk pof2 (min pof2 (n - pof2)) i j _ hj)

  after-Frame :
      (pof2 : ℕ) (w : World A)
      → pof2 < n
      → Frame n chunk blocks w₀ w
      → Frame n chunk blocks w₀ (after pof2 w)
  unfolding after bruck_store
  after-Frame pof2 w hp h r j hr hj =
      rw (xfer-eq pof2 hp)
        (blocks_beyond (w r) chunk pof2 (min pof2 (n - pof2)) n j _ (omega arith) hj ∙ h r j hr hj)

  -- A step that holds `pof2` blocks ends with as many more, up to `n`.
  after-Rotated :
      (pof2 : ℕ) (w : World A)
      → pof2 < n
      → Rotated (min pof2 n) w
      → Rotated (min (pof2 * 2) n) (after pof2 w)
  after-Rotated pof2 w hp h r i j hr hi hj = elim (dec_lt i pof2) [
    | yes p ↦ ground (arith, after-eq pof2 w r i j hp hj, h r i j hr (omega arith) hj)
    | no p ↦
        let src = (r + pof2) % n in
        let e : r + pof2 + (i - pof2) ≡ r + i = omega arith in
        let m : (src + (i - pof2)) % n ≡ (r + i) % n =
          mod-add-mod (r + pof2) n (i - pof2) ∙ ap (λ k. k % n) e in
        let hs : src < n = omega (arith, wrap (r + pof2) n (omega arith)) in
        let got = h src (i - pof2) j hs (omega arith) hj ∙ ap (λ k. blocks k j) m in
        ground (arith, after-eq pof2 w r i j hp hj, got)
  ]

  next_curr :
      (pof2 : ℕ)
      → pof2 < n
      → pof2 * 2 < n
      → pof2 * chunk + bruck_xfer n chunk pof2 (pof2 * chunk) ≡ pof2 * 2 * chunk
  next_curr pof2 h l =
      let e : min pof2 (n - pof2) ≡ pof2 = omega arith in rw (xfer-eq pof2 h, e) (omega arith)

  delivered :
      (pof2 : ℕ) (w : World A)
      → pof2 < n
      → exchange n (bruck_call n chunk pof2 (pof2 * chunk)) w
        ≡ some (λ r i. w ((r + pof2) % n) (0 + i))
  unfolding bruck_call
  delivered pof2 w h =
      exchange-eq n (bruck_call n chunk pof2 (pof2 * chunk)) w
        λ r hr. call-matches pof2 (pof2 * chunk) r h hr

  step-eq :
      (fuel pof2 : ℕ) (w : World A)
      → pof2 < n
      → bruck_from n chunk (suc fuel) pof2 (pof2 * chunk) w
        ≡ bruck_from n chunk fuel
            (pof2 * 2)
            (pof2 * chunk + bruck_xfer n chunk pof2 (pof2 * chunk))
            (after pof2 w)
  unfolding bruck_from after
  step-eq fuel pof2 w p = rw (lt→ltb pof2 n p, delivered pof2 w p) refl

  bruck_from_lem :
      (fuel pof2 curr : ℕ) (w : World A)
      → 0 < pof2
      → n ≤ pof2 + fuel
      → (pof2 < n → curr ≡ pof2 * chunk)
      → Rotated (min pof2 n) w × Frame n chunk blocks w₀ w
      → (v : World A) × (bruck_from n chunk fuel pof2 curr w ≡ some v)
        × Rotated n v
        × Frame n chunk blocks w₀ v
  unfolding bruck_from
  bruck_from_lem zero pof2 curr w hp hf hc (h, f) =
      let e : min pof2 n ≡ n = omega arith in (w, refl, subst (λ k. Rotated k w) e h, f)
  bruck_from_lem (suc fuel) pof2 curr w hp hf hc (h, f) = elim (dec_lt pof2 n) [
    | yes p ↦
        let curr' : ℕ = pof2 * chunk + bruck_xfer n chunk pof2 (pof2 * chunk) in
        let (v, run, got, frame) =
          bruck_from_lem fuel (pof2 * 2) curr' (after pof2 w) (omega arith) (omega arith)
            (λ l. next_curr pof2 p l) (after-Rotated pof2 w p h, after-Frame pof2 w p f) in
        (
          v,
          ap (λ c. bruck_from n chunk (suc fuel) pof2 c w) (hc p) ∙ step-eq fuel pof2 w p ∙ run,
          got,
          frame,
        )
    | no p ↦
        let e : min pof2 n ≡ n = omega arith in
        (w, rw (ge→ltb pof2 n (omega arith)) refl, subst (λ k. Rotated k w) e h, f)
  ]

  -- The reorder: block `i` goes to the slot of its rank, and no two to the same.
  rotate_from-eq :
      (left r i p j : ℕ) (recv tmp : Mem A)
      → r < n
      → i + left ≡ n
      → p < n
      → j < chunk
      → rotate_from n chunk r recv left i tmp (p * chunk + j)
        ≡ (if leb i (behind n r p) then recv (behind n r p * chunk + j) else tmp (p * chunk + j))
  unfolding rotate_from
  rotate_from-eq zero r i p j recv tmp hr e hp hj = ground (arith, behind-lt n r hr p hp)
  rotate_from-eq (suc left) r i p j recv tmp hr e hp hj =
      let slot = (r + i) % n in
      let tmp' : Mem A = copy_to tmp (slot * chunk) chunk (λ k. recv (i * chunk + k)) in
      ground (
        arith,
        rotate_from-eq left r (i + 1) p j recv tmp' hr (omega arith) hp hj,
        copy_block tmp chunk p slot j (λ k. recv (i * chunk + k)) hj,
        peer-behind n r hr i (omega arith),
        behind-eq n r hr i p (omega arith) hp,
        ap (behind n r) {x = slot} {y = p},
      )

  end-AllBlocks :
      (scratch v : World A)
      → Rotated n v
      → AllBlocks n chunk blocks w₀ (bruck_end n chunk scratch v)
  unfolding bruck_end copy_to
  end-AllBlocks scratch v h r p j hr hp hj = elim (ℕ_discrete r 0) [
    | yes e ↦
        let m : (r + p) % n ≡ p = grind arith in
        ground (arith, h r p j hr hp hj, ap (λ k. blocks k j) m)
    | no ne ↦
        let k = behind n r p in
        let m : (r + k) % n ≡ p = sym (behind-eq n r hr k p (behind-lt n r hr p hp) hp refl) in
        let z : p * chunk + j - 0 ≡ p * chunk + j = omega arith in
        ground (
          arith,
          ap (rotate_from n chunk r (v r) n 0 (scratch r)) z,
          rotate_from-eq n r 0 p j (v r) (scratch r) hr (omega arith) hp hj,
          h r k j hr (behind-lt n r hr p hp) hj,
          ap (λ q. blocks q j) m,
          block_apart chunk p n j hj hp,
        )
  ]

  end-Frame :
      (scratch v : World A)
      → Frame n chunk blocks w₀ v
      → Frame n chunk blocks w₀ (bruck_end n chunk scratch v)
  unfolding bruck_end copy_to
  end-Frame scratch v h r j hr hj = ground (arith, h r j hr hj)

  start-Rotated :
      (w : World A)
      → ((r j : ℕ) → r < n → j < chunk → w r (r * chunk + j) ≡ blocks r j)
      → Rotated (min 1 n) (bruck_start n chunk w)
  unfolding bruck_start copy_to
  start-Rotated w h r zero j hr hi hj =
      let m : (r + 0) % n ≡ r = grind arith in
      let z : j - 0 ≡ j = omega arith in
      let o : 0 * chunk + j ≡ j = omega arith in
      let own : r ≡ 0 → w r j ≡ w r (r * chunk + j) = λ e. ap (w r) (grind arith) in
      rw (m, o) (ground (arith, own, h r j hr hj, ap (λ k. w r (r * chunk + k)) z))
  start-Rotated w h r (suc i) j hr hi hj = absurd (omega arith)

  start-Frame :
      (w : World A)
      → 0 < n
      → Frame n chunk blocks w₀ w
      → Frame n chunk blocks w₀ (bruck_start n chunk w)
  unfolding bruck_start copy_to
  start-Frame w hn h r j hr hj =
      ground (arith, h r j hr hj, mul-le-mul_right {m = 1} {n = n} chunk hn)

  pub bruck_all_gather_lem :
      (scratch w : World A)
      → 0 < n
      → ((r j : ℕ) → r < n → j < chunk → w r (r * chunk + j) ≡ blocks r j)
      → Frame n chunk blocks w₀ w
      → (v : World A) × (bruck_all_gather n chunk scratch w ≡ some v)
        × AllBlocks n chunk blocks w₀ v
        × Frame n chunk blocks w₀ v
  unfolding bruck_all_gather
  bruck_all_gather_lem scratch w hn own f =
      let (v, run, got, frame) =
        bruck_from_lem n 1 chunk (bruck_start n chunk w) (omega arith) (omega arith)
          (λ l. omega arith) (start-Rotated w own, start-Frame w hn f) in
      (
        bruck_end n chunk scratch v,
        rw (bruck_all_gather, run) refl,
        end-AllBlocks scratch v got,
        end-Frame scratch v frame,
      )
