-- ===== src/Collectives/AllGather/Doubling.antt =====
-- src/core/collectives.cc: `recursiveDoublingAllGather` on a power of two of ranks.
use native.Mathlib.Nat.{
  pow-suc, mod-lt, div-add-mod', div-eq_of_lt-le, div-eq_of_lt, mul-le-mul_right,
  div-div-eq-div-mul, mul_comm,
}
use vkccl.Prelude.{
  ℕ, zero, suc, ◌+◌, ◌-◌, ◌*◌, ◌/◌, ◌%◌, ◌^◌, ◌≤◌, ◌<◌, bit_xor, ◌≡◌, refl, sym, ap, subst, fun_ext,
  ◌∙◌, true, ◌&&◌, some, arith, ℕ_discrete, ltb, leb, ◌==◌, if◌then◌else◌, lt→ltb, ge→ltb, flip,
  pow_pos, bit_xor-pow, lt-pow,
}
use vkccl.Net.{Mem, World, matches, exchange, exchange-eq, matches_intro}
use vkccl.Collectives.Rooted.Gather.{block_apart}
use vkccl.Collectives.AllGather.{
  aligned, doubling_call, doubling_store, doubling_from, doubling_all_gather,
}
use vkccl.Collectives.AllGather.Blocks.{
  quotient, remainder, copy_blocks, blocks_beyond, Frame, AllBlocks,
}

flip_twice : (x : ℕ) → flip (flip x) ≡ x
flip_twice x = ground arith

-- The partner of a rank for the mask `m`: the other of the two halves of a group of `2 * m`.
pub partner : ℕ → ℕ → ℕ
partner m r = flip (r / m) * m + r % m

module _ (k : ℕ) where
  abbrev mask : ℕ
  mask = 2 ^ k

  pub partner-div : (r : ℕ) → partner mask r / mask ≡ flip (r / mask)
  unfolding partner
  partner-div r = quotient (flip (r / mask)) mask (r % mask) (mod-lt r (pow_pos k))

  partner_twice : (r : ℕ) → partner mask (partner mask r) ≡ r
  unfolding partner
  partner_twice r =
      let x : ℕ = r / mask in
      let t : ℕ = r % mask in
      let low : partner mask r % mask ≡ t = remainder (flip x) mask t (mod-lt r (pow_pos k)) in
      ap (λ q. flip q * mask + partner mask r % mask) (partner-div r)
      ∙ ap (λ b. flip (flip x) * mask + b) low
      ∙ ap (λ q. q * mask + t) (flip_twice x)
      ∙ div-add-mod' r mask

  -- The other half of a group of ranks is there as well.
  flip-lt : (e n r : ℕ) → n ≡ 2 * e * mask → r < n → flip (r / mask) < 2 * e
  flip-lt e n r h hr =
      let x : ℕ = r / mask in
      let below : 2 * e ≤ x → 2 * e * mask ≤ x * mask =
        λ l. mul-le-mul_right {m = 2 * e} {n = x} mask l in
      let small : x < 2 * e = grind (arith, below, div-add-mod' r mask, h, hr) in
      ground (arith, small)

  partner-lt : (e n r : ℕ) → n ≡ 2 * e * mask → r < n → partner mask r < n
  unfolding partner
  partner-lt e n r h hr = rw h (
      block_apart mask (flip (r / mask)) (2 * e) (r % mask) (mod-lt r (pow_pos k))
        (flip-lt e n r h hr))

-- Which numbers have the quotient `q`.
quotient_test : (m q b : ℕ) → 0 < m → (leb (q * m) b && ltb b (q * m + m)) ≡ (b / m == q)
quotient_test m q b hm = elim (ℕ_discrete (b / m) q) [
  | yes e ↦
      let c : q * m + b % m ≡ b = ap (λ x. x * m + b % m) (sym e) ∙ div-add-mod' b m in
      ground (arith, c, mod-lt b hm, e)
  | no ne ↦
      let same = λ (lo : q * m ≤ b) (hi : b < (q + 1) * m). ne (div-eq_of_lt-le {k = q} m lo hi) in
      ground (arith, same, ne)
]

pub xor-partner : (k r : ℕ) → bit_xor r (2 ^ k) ≡ partner (2 ^ k) r
unfolding partner
xor-partner k r = bit_xor-pow k r

-- The partner is a rank, and its partner is the rank again.
pub partner_there :
    (k e n r : ℕ)
    → n ≡ 2 * e * 2 ^ k
    → r < n
    → (bit_xor r (2 ^ k) < n) × (bit_xor (bit_xor r (2 ^ k)) (2 ^ k) ≡ r)
partner_there k e n r h hr =
    let p = xor-partner k r in
    (
      rw p (partner-lt k e n r h hr),
      ap (λ x. bit_xor x (2 ^ k)) p ∙ xor-partner k (partner (2 ^ k) r) ∙ partner_twice k r,
    )

-- Where rounds are left, the mask is below the number of ranks, and there is a next one.
pub more_rounds :
    (n left k : ℕ)
    → n ≡ 2 ^ suc left * 2 ^ k
    → (n ≡ 2 * 2 ^ left * 2 ^ k) × (2 ^ k < n) × (n ≡ 2 ^ left * 2 ^ suc k)
more_rounds n left k hn =
    let hn' : n ≡ 2 * 2 ^ left * 2 ^ k =
      hn ∙ ap (λ x. x * 2 ^ k) (pow-suc 2 left ∙ mul_comm (2 ^ left) 2) in
    let two : 2 * 2 ^ k ≤ 2 * 2 ^ left * 2 ^ k =
      mul-le-mul_right {m = 2} {n = 2 * 2 ^ left} (2 ^ k) (omega (arith, pow_pos left)) in
    (hn', omega (arith, two, hn', pow_pos k), rw (pow-suc 2 k) (omega (arith, hn')))

module _ {A : Type 0} (n chunk : ℕ) (blocks : ℕ → ℕ → A) (w₀ : World A) where
  -- A rank holds the blocks of its group of `m` ranks.
  abbrev Grouped : ℕ → World A → Type 0
  Grouped m w =
      (r b j : ℕ) → r < n → b < n → b / m ≡ r / m → j < chunk → w r (b * chunk + j) ≡ blocks b j

  call-matches :
      (k e curr r : ℕ)
      → n ≡ 2 * e * 2 ^ k
      → r < n
      → matches n (doubling_call n chunk (2 ^ k) curr) r ≡ true
  unfolding doubling_call
  call-matches k e curr r h hr =
      let (lt, back) = partner_there k e n r h hr in
      matches_intro n (doubling_call n chunk (2 ^ k) curr) r lt lt back refl back

  abbrev received_of : ℕ → World A → World A
  received_of m w r i = w (bit_xor r m) (aligned m (bit_xor r m) * chunk + i)

  after : ℕ → World A → World A
  after m w = doubling_store n chunk m (m * chunk) w (received_of m w)

  in_place :
      (m c q b j : ℕ) (own other : Mem A)
      → 0 < m
      → c ≡ q * m
      → (if leb c b && ltb b (c + m)
          then other (c * chunk + ((b - c) * chunk + j))
          else own (b * chunk + j))
        ≡ (if b / m == q then other (b * chunk + j) else own (b * chunk + j))
  in_place m c q b j own other hm e =
      let test : (leb c b && ltb b (c + m)) ≡ (b / m == q) = rw e (quotient_test m q b hm) in
      let place = λ (l : c ≤ b).
        let z : b - c + c ≡ b = omega arith in
        let d : (b - c + c) * chunk ≡ b * chunk = ap (λ x. x * chunk) z in
        let f : c * chunk + ((b - c) * chunk + j) ≡ b * chunk + j = omega (arith, d) in
        ap other f in
      ground (arith, place, test)

  -- A block of the partner's group comes from the partner, in its own place.
  after-eq :
      (k : ℕ) (w : World A) (r b j : ℕ)
      → j < chunk
      → after (2 ^ k) w r (b * chunk + j) ≡ (
          if b / 2 ^ k == flip (r / 2 ^ k)
          then w (partner (2 ^ k) r) (b * chunk + j)
          else w r (b * chunk + j))
  unfolding after doubling_store
  after-eq k w r b j hj =
      let m : ℕ = 2 ^ k in
      let c : ℕ = flip (r / m) * m in
      let got : received_of m w r ≡ (λ i. w (partner m r) (c * chunk + i)) =
        fun_ext λ i. rw (xor-partner k r, partner-div k r) refl in
      rw (got, xor-partner k r, partner-div k r)
        (copy_blocks (w r) chunk c m b j (λ i. w (partner m r) (c * chunk + i)) hj
          ∙ in_place m c (flip (r / m)) b j (w r) (w (partner m r)) (pow_pos k) refl)

  after-Grouped :
      (k e : ℕ) (w : World A)
      → n ≡ 2 * e * 2 ^ k
      → Grouped (2 ^ k) w
      → Grouped (2 ^ suc k) (after (2 ^ k) w)
  after-Grouped k e' w hn h r b j hr hb hg hj =
      let m : ℕ = 2 ^ k in
      let half = λ (x : ℕ). div-div-eq-div-mul x m 2 ∙ ap (λ y. x / y) (sym (pow-suc 2 k)) in
      let group : b / m / 2 ≡ r / m / 2 = half b ∙ hg ∙ sym (half r) in
      elim (ℕ_discrete (b / m) (flip (r / m))) [
        | yes e ↦ ground (
          arith,
          after-eq k w r b j hj,
          e,
          h (partner m r) b j (partner-lt k e' n r hn hr) hb (e ∙ sym (partner-div k r)) hj,
        )
        | no ne ↦
            let same : b / m ≡ r / m = ground (arith, group, ne) in
            ground (arith, after-eq k w r b j hj, ne, h r b j hr hb same hj)
      ]

  after-Frame :
      (k e : ℕ) (w : World A)
      → n ≡ 2 * e * 2 ^ k
      → Frame n chunk blocks w₀ w
      → Frame n chunk blocks w₀ (after (2 ^ k) w)
  unfolding after doubling_store
  after-Frame k e w hn h r j hr hj =
      let m : ℕ = 2 ^ k in
      let c : ℕ = flip (r / m) * m in
      let lt : flip (r / m) < 2 * e = flip-lt k e n r hn hr in
      let room : (flip (r / m) + 1) * m ≤ 2 * e * m =
        mul-le-mul_right {m = flip (r / m) + 1} {n = 2 * e} m (omega (arith, lt)) in
      let fits : c + m ≤ n = omega (arith, room, hn) in
      rw (xor-partner k r, partner-div k r)
        (blocks_beyond (w r) chunk c m n j _ fits hj ∙ h r j hr hj)

  delivered :
      (k e curr : ℕ) (w : World A)
      → n ≡ 2 * e * 2 ^ k
      → exchange n (doubling_call n chunk (2 ^ k) curr) w ≡ some (received_of (2 ^ k) w)
  unfolding doubling_call
  delivered k e curr w h =
      exchange-eq n (doubling_call n chunk (2 ^ k) curr) w λ r hr. call-matches k e curr r h hr

  step-eq :
      (fuel k e : ℕ) (w : World A)
      → n ≡ 2 * e * 2 ^ k
      → 2 ^ k < n
      → doubling_from n chunk (suc fuel) (2 ^ k) (2 ^ k * chunk) w
        ≡ doubling_from n chunk fuel (2 ^ suc k) (2 ^ suc k * chunk) (after (2 ^ k) w)
  unfolding doubling_from after
  step-eq fuel k e w hn hm =
      let c : 2 ^ k * chunk * 2 ≡ 2 ^ suc k * chunk =
        omega (arith, ap (λ x. x * chunk) (pow-suc 2 k)) in
      rw (lt→ltb (2 ^ k) n hm, delivered k e (2 ^ k * chunk) w hn, sym (pow-suc 2 k), c) refl

  -- `left` rounds are to go when `2 ^ left` groups are left.
  doubling_from_lem :
      (left fuel k : ℕ) (w : World A)
      → left ≤ fuel
      → n ≡ 2 ^ left * 2 ^ k
      → Grouped (2 ^ k) w × Frame n chunk blocks w₀ w
      → (v : World A) × (doubling_from n chunk fuel (2 ^ k) (2 ^ k * chunk) w ≡ some v)
        × Grouped n v
        × Frame n chunk blocks w₀ v
  unfolding doubling_from
  doubling_from_lem zero zero k w hf hn (h, f) =
      let e : 2 ^ k ≡ n = omega (arith, hn) in (w, refl, subst (λ m. Grouped m w) e h, f)
  doubling_from_lem zero (suc fuel) k w hf hn (h, f) =
      let e : 2 ^ k ≡ n = omega (arith, hn) in
      (w, rw (ge→ltb (2 ^ k) n (omega (arith, e))) refl, subst (λ m. Grouped m w) e h, f)
  doubling_from_lem (suc left) zero k w hf hn hs = absurd (omega arith)
  doubling_from_lem (suc left) (suc fuel) k w hf hn (h, f) =
      let (hn', hm, next) = more_rounds n left k hn in
      let (v, run, got, frame) =
        doubling_from_lem left fuel (suc k) (after (2 ^ k) w) (omega arith) next
          (after-Grouped k (2 ^ left) w hn' h, after-Frame k (2 ^ left) w hn' f) in
      (v, step-eq fuel k (2 ^ left) w hn' hm ∙ run, got, frame)

  pub doubling_all_gather_lem :
      (k : ℕ) (w : World A)
      → n ≡ 2 ^ k
      → ((r j : ℕ) → r < n → j < chunk → w r (r * chunk + j) ≡ blocks r j)
      → Frame n chunk blocks w₀ w
      → (v : World A) × (doubling_all_gather n chunk w ≡ some v)
        × AllBlocks n chunk blocks w₀ v
        × Frame n chunk blocks w₀ v
  unfolding doubling_all_gather
  doubling_all_gather_lem k w hn own f =
      let enough : k ≤ n = omega (arith, lt-pow k, hn) in
      let one : n ≡ 2 ^ k * 2 ^ 0 = omega (arith, hn) in
      let start : Grouped (2 ^ 0) w =
        λ r b j hr hb e hj. let same : b ≡ r = omega (arith, e) in rw same (own r j hr hj) in
      let (v, run, got, frame) = doubling_from_lem k n 0 w enough one (start, f) in
      let c : 1 * chunk ≡ chunk = omega arith in
      (
        v,
        rw c at run,
        (λ r p j hr hp hj. got r p j hr hp (div-eq_of_lt hp ∙ sym (div-eq_of_lt hr)) hj),
        frame,
      )
