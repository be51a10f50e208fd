-- ===== src/Collectives/AllReduce/Elimination/Agreement.antt =====
-- src/core/collectives.cc: what `pow2ElimAllReduce` leaves in every buffer.
use native.Mathlib.Nat.{pow-suc, div-div-eq-div-mul, div-eq_of_lt}
use vkccl.Prelude.{
  ℕ, zero, suc, ◌+◌, ◌-◌, ◌*◌, ◌/◌, ◌^◌, ◌≤◌, ◌<◌, bit_xor, ◌≡◌, refl, sym, ap, subst, ◌∙◌, inl,
  inr, true, false, some, arith, dec_lt, ltb, if◌then◌else◌, lt→ltb, ge→ltb, Bool-cases,
  Option-cases, flip, lt-pow,
}
use vkccl.Net.{Mem, World, copy_to}
use vkccl.Reduce.Loops.{reduce_native, reduce_native_lem}
use vkccl.Collectives.AllReduce.Doubling.{tree, tree_step}
use vkccl.Collectives.AllReduce.Elimination.{
  even_survivor, odd_eliminated, active_rank, old_rank, core_peer, is_active, pre_step, core_step,
  core_from, post_step, elim_rounds, elim_all_reduce,
}
use vkccl.Collectives.AllReduce.Elimination.Numbering.{
  floor_pow2_lem, active-old_rank, active_rank-old, pairs_match, core_peer-eq, is_active-eq,
  core_match,
}
use vkccl.Collectives.AllGather.Doubling.{partner-div, xor-partner, partner_there, more_rounds}

-- What the rank with a new number brings to the core: its own elements, with those of the
-- neighbour that it has taken in.
abbrev pub merged_of : {A : Type 0} → (A → A → A) → ℕ → ℕ → World A → World A
merged_of op n p2 w₀ u i =
    if ltb u (n - p2) then op (w₀ (u * 2) i) (w₀ (u * 2 + 1) i) else w₀ (u + (n - p2)) i

module _ {A : Type 0} (op : A → A → A) (comm : (a b : A) → op a b ≡ op b a) (n count p2 : ℕ)
    (lo : p2 ≤ n) (hi : n < 2 * p2) (w₀ : World A) where
  abbrev merged : World A
  merged = merged_of op n p2 w₀

  -- The active ranks hold what their group brought, and nothing past the elements changes.
  record Held (k : ℕ) (w : World A) : Type 0 where
    sums : (u i : ℕ) → u < p2 → i < count → w (old_rank n p2 u) i ≡ tree op merged k (u / 2 ^ k) i
    rest : (r i : ℕ) → count ≤ i → w r i ≡ w₀ r i

  -- One element of a reduction into the buffer.
  reduced :
      (own other : Mem A) (i : ℕ)
      → reduce_native op own 0 other count i ≡ (if ltb i count then op (own i) (other i) else own i)
  reduced own other i =
      let z : i - 0 ≡ i = omega arith in
      ground (arith, reduce_native_lem op own 0 other count i, ap other z)

  first : World A
  first r = if even_survivor n p2 r then reduce_native op (w₀ r) 0 (w₀ (r + 1)) count else w₀ r

  first-sums : (u i : ℕ) → u < p2 → i < count → first (old_rank n p2 u) i ≡ merged (u / 1) i
  unfolding first
  first-sums u i hu hc =
      let one : u / 1 ≡ u = omega arith in
      elim (dec_lt u (n - p2)) [
        | yes p ↦
            let o : old_rank n p2 u ≡ u * 2 = ground (arith, p) in
            let s : even_survivor n p2 (u * 2) ≡ true = ground (arith, p) in
            rw (o, s, one, lt→ltb u (n - p2) p)
              (ground (arith, reduced (w₀ (u * 2)) (w₀ (u * 2 + 1)) i, hc))
        | no p ↦
            let o : old_rank n p2 u ≡ u + (n - p2) = ground (arith, p) in
            let s : even_survivor n p2 (u + (n - p2)) ≡ false = ground (arith, p) in
            rw (o, s, one, ge→ltb u (n - p2) (omega (arith, p))) refl
      ]

  pre-Held : (pre_step op n count p2 w₀ ≡ some first) × Held 0 first
  unfolding pre_step first
  pre-Held = (
    rw (pairs_match n p2 lo hi) refl,
    record { sums = first-sums; rest = λ r i hc. ground (arith, reduced (w₀ r) (w₀ (r + 1)) i) },
  )

  next : ℕ → World A → World A
  next mask w r =
      if is_active n p2 r then reduce_native op (w r) 0 (w (core_peer n p2 mask r)) count else w r

  next-sums :
      (k e : ℕ) (w : World A) (u i : ℕ)
      → p2 ≡ 2 * e * 2 ^ k
      → Held k w
      → u < p2
      → i < count
      → next (2 ^ k) w (old_rank n p2 u) i ≡ tree op merged (suc k) (u / 2 ^ suc k) i
  unfolding next
  next-sums k e w u i hp h hu hc =
      let m : ℕ = 2 ^ k in
      let x : ℕ = u / m in
      let r : ℕ = old_rank n p2 u in
      let a = active-old_rank n p2 lo hi u in
      let (plt, back) = partner_there k e p2 u hp hu in
      let q : bit_xor u m / m ≡ flip x = ap (λ y. y / m) (xor-partner k u) ∙ partner-div k u in
      let up : x / 2 ≡ u / 2 ^ suc k =
        div-div-eq-div-mul u m 2 ∙ ap (λ y. u / y) (sym (pow-suc 2 k)) in
      let mine = h.sums u i hu hc in
      let theirs = h.sums (bit_xor u m) i plt hc ∙ ap (λ y. tree op merged k y i) q in
      rw (is_active-eq n p2 lo hi r u a, core_peer-eq n p2 lo hi m r u a)
        (reduced (w r) (w (old_rank n p2 (bit_xor u m))) i
          ∙ rw (lt→ltb i count hc, mine, theirs)
              (tree_step op comm merged k x i ∙ ap (λ y. tree op merged (suc k) y i) up))

  next-Held :
      (k e : ℕ) (w : World A)
      → p2 ≡ 2 * e * 2 ^ k
      → Held k w
      → (core_step op n count p2 (2 ^ k) w ≡ some (next (2 ^ k) w)) × Held (suc k) (next (2 ^ k) w)
  unfolding core_step next
  next-Held k e w hp h = (
    rw (core_match n p2 lo hi k e hp) refl,
    record {
      sums = λ u i hu hc. next-sums k e w u i hp h hu hc;
      rest =
          λ r i hc. ground (arith, reduced (w r) (w (core_peer n p2 (2 ^ k) r)) i, h.rest r i hc);
    },
  )

  core_from_lem :
      (left fuel k : ℕ) (w : World A)
      → left ≤ fuel
      → p2 ≡ 2 ^ left * 2 ^ k
      → Held k w
      → (v : World A) × (core_from op n count p2 fuel (2 ^ k) w ≡ some v) × Held (left + k) v
  unfolding core_from
  core_from_lem zero zero k w hf hn h =
      let e : k ≡ 0 + k = omega arith in (w, refl, subst (λ m. Held m w) e h)
  core_from_lem zero (suc fuel) k w hf hn h =
      let e : k ≡ 0 + k = omega arith in
      (w, rw (ge→ltb (2 ^ k) p2 (omega (arith, hn))) refl, subst (λ m. Held m w) e h)
  core_from_lem (suc left) zero k w hf hn h = absurd (omega arith)
  core_from_lem (suc left) (suc fuel) k w hf hn h =
      let (hn', hm, more) = more_rounds p2 left k hn in
      let (step, held) = next-Held k (2 ^ left) w hn' h in
      let (v, run, got) =
        core_from_lem left fuel (suc k) (next (2 ^ k) w) (omega arith) more held in
      let e : left + suc k ≡ suc left + k = omega arith in
      (v, rw (lt→ltb (2 ^ k) p2 hm, step, sym (pow-suc 2 k)) run, subst (λ m. Held m v) e got)

  last : World A → World A
  last w r = if odd_eliminated n p2 r then copy_to (w r) 0 count (w (r - 1)) else w r

  -- The tree over all active ranks.
  abbrev pub Agreed : ℕ → World A → Type 0
  Agreed k v = (r i : ℕ) → r < n → v r i ≡ (if ltb i count then tree op merged k 0 i else w₀ r i)

  all-Held :
      (k : ℕ) (w : World A) (u i : ℕ)
      → p2 ≡ 2 ^ k
      → Held k w
      → u < p2
      → i < count
      → w (old_rank n p2 u) i ≡ tree op merged k 0 i
  all-Held k w u i hk h hu hc =
      h.sums u i hu hc ∙ ap (λ q. tree op merged k q i) (div-eq_of_lt (omega (arith, hu, hk)))

  last-Agreed : (k : ℕ) (w : World A) → p2 ≡ 2 ^ k → Held k w → Agreed k (last w)
  unfolding last copy_to
  last-Agreed k w hk h r i hr = elim (dec_lt i count) [
    | no p ↦ ground (arith, h.rest r i (omega (arith, p)), p)
    | yes p ↦ elim (Bool-cases (odd_eliminated n p2 r)) [
      | inl odd ↦
          let z : i - 0 ≡ i = omega arith in
          let home : old_rank n p2 ((r - 1) / 2) ≡ r - 1 = ground (arith, odd) in
          let small : (r - 1) / 2 < p2 = ground (arith, odd) in
          let got = ap (λ q. w q i) (sym home) ∙ all-Held k w ((r - 1) / 2) i hk h small p in
          rw odd (ground (arith, ap (w (r - 1)) z, got, p))
      | inr even ↦ elim (Option-cases (active_rank n p2 r)) [
        | inl z ↦ absurd (ground (arith, z, even))
        | inr (u, z) ↦
            let (home, small) = active_rank-old n p2 lo hi r u hr z in
            let got = ap (λ q. w q i) (sym home) ∙ all-Held k w u i hk h small p in
            rw even (ground (arith, got, p))
      ]
    ]
  ]

  post-eq : (w : World A) → post_step op n count p2 w ≡ some (last w)
  unfolding post_step last
  post-eq w = rw (pairs_match n p2 lo hi) refl

  rounds_done :
      (k : ℕ) → p2 ≡ 2 ^ k → (v : World A) × (core_from op n count p2 n 1 first ≡ some v) × Held k v
  rounds_done k hk =
      let enough : k ≤ n = omega (arith, lt-pow k, hk, lo) in
      let one : p2 ≡ 2 ^ k * 2 ^ 0 = omega (arith, hk) in
      let (v, run, got) = core_from_lem k n 0 first enough one pre-Held.1 in
      let z : k + 0 ≡ k = omega arith in (v, run, subst (λ m. Held m v) z got)

  elim_rounds_lem :
      (k : ℕ) → p2 ≡ 2 ^ k → (v : World A) × (elim_rounds op n count p2 w₀ ≡ some v) × Agreed k v
  unfolding elim_rounds
  elim_rounds_lem k hk =
      let (v, run, held) = rounds_done k hk in
      (last v, rw (elim_rounds, pre-Held.0, run, post-eq v) refl, last-Agreed k v hk held)

-- For any operation that does not depend on the order of its two operands, on any number of ranks
-- above zero: the all-reduce by power-of-two elimination runs to its end with every call matched,
-- and every rank ends with the same elements, the pairwise combination of what the active ranks
-- brought (each its own elements with those of the neighbour that it has taken in), and with nothing
-- past them changed. The active ranks are the greatest power of two that is at most the number of
-- ranks.
pub elim_all_reduce_lem :
    {A : Type 0} (op : A → A → A) (n count : ℕ) (w₀ : World A)
    → ((a b : A) → op a b ≡ op b a)
    → 0 < n
    → (k : ℕ) × (v : World A) × (elim_all_reduce op n count w₀ ≡ some v)
      × (2 ^ k ≤ n)
      × (n < 2 * 2 ^ k)
      × ((r i : ℕ)
          → r < n
          → v r i ≡ (if ltb i count then tree op (merged_of op n (2 ^ k) w₀) k 0 i else w₀ r i))
unfolding elim_all_reduce
elim_all_reduce_lem op n count w₀ comm hn =
    let (k, e, lo, hi) = floor_pow2_lem n n 0 (omega arith) (omega arith) in
    let (v, run, same) = elim_rounds_lem op comm n count (2 ^ k) lo hi w₀ k refl in
    (k, v, ap (λ p2. elim_rounds op n count p2 w₀) e ∙ run, lo, hi, same)
