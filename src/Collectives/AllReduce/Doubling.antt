-- ===== src/Collectives/AllReduce/Doubling.antt =====
-- src/core/collectives.cc: what `recursiveDoublingAllReduce` leaves in every buffer.
use native.Mathlib.Nat.{pow-suc, div-div-eq-div-mul, div-eq_of_lt}
use vkccl.Prelude.{
  ℕ, zero, suc, ◌+◌, ◌-◌, ◌*◌, ◌/◌, ◌%◌, ◌^◌, ◌≤◌, ◌<◌, bit_xor, ◌≡◌, refl, sym, ap, subst, ◌∙◌,
  true, some, arith, ℕ_discrete, ltb, if◌then◌else◌, lt→ltb, ge→ltb, flip, lt-pow,
}
use vkccl.Net.{World, matches, exchange, exchange-eq, matches_intro}
use vkccl.Collectives.AllGather.Doubling.{partner-div, xor-partner, partner_there, more_rounds}
use vkccl.Collectives.AllReduce.{reduce_call, reduce_in, doubling_reduce_from, doubling_all_reduce}
use vkccl.Reduce.Loops.{reduce_native_lem}

-- The contributions of the ranks from `q * 2 ^ k` to `(q + 1) * 2 ^ k - 1` at element `i`, combined
-- pairwise.
abbrev pub tree : {A : Type 0} → (A → A → A) → World A → ℕ → ℕ → ℕ → A
tree op w₀ zero q i = w₀ q i
tree op w₀ (suc k) q i = op (tree op w₀ k (2 * q) i) (tree op w₀ k (2 * q + 1) i)

-- The two halves of a group, in either order.
pub tree_step :
    {A : Type 0} (op : A → A → A) (comm : (a b : A) → op a b ≡ op b a) (w₀ : World A) (k x i : ℕ)
    → op (tree op w₀ k x i) (tree op w₀ k (flip x) i) ≡ tree op w₀ (suc k) (x / 2) i
tree_step op comm w₀ k x i = elim (ℕ_discrete (x % 2) 0) [
  | yes e ↦ let a : 2 * (x / 2) ≡ x = omega (arith, e) in rw (e, a) refl
  | no ne ↦
      let e : x % 2 ≡ 1 = omega (arith, ne) in
      let a : 2 * (x / 2) ≡ x - 1 = omega (arith, e) in
      let b : x - 1 + 1 ≡ x = omega (arith, e) in rw (e, a, b) (comm _ _)
]

module _ {A : Type 0} (op : A → A → A) (comm : (a b : A) → op a b ≡ op b a) (n count esize : ℕ)
    (w₀ : World A) where
  -- Each rank holds what its group of `2 ^ k` ranks contributed.
  abbrev Summed : ℕ → World A → Type 0
  Summed k w =
      (r i : ℕ) → r < n → w r i ≡ (if ltb i count then tree op w₀ k (r / 2 ^ k) i else w₀ r i)

  call-matches :
      (k e r : ℕ)
      → n ≡ 2 * e * 2 ^ k
      → r < n
      → matches n (reduce_call (count * esize) (2 ^ k)) r ≡ true
  unfolding reduce_call
  call-matches k e r h hr =
      let (lt, back) = partner_there k e n r h hr in
      matches_intro n (reduce_call (count * esize) (2 ^ k)) r lt lt back refl back

  abbrev received_of : ℕ → World A → World A
  received_of k w r i = w (bit_xor r (2 ^ k)) (0 + i)

  after : ℕ → World A → World A
  after k w = reduce_in op n count esize w (received_of k w)

  after-Summed :
      (k e : ℕ) (w : World A) → n ≡ 2 * e * 2 ^ k → Summed k w → Summed (suc k) (after k w)
  unfolding after reduce_in
  after-Summed k e w hn h r i hr =
      let x : ℕ = r / 2 ^ k in
      let (lt, back) = partner_there k e n r hn hr in
      let p : ℕ = bit_xor r (2 ^ k) in
      let z : 0 + (i - 0) ≡ i = omega arith in
      let q : p / 2 ^ k ≡ flip x = ap (λ y. y / 2 ^ k) (xor-partner k r) ∙ partner-div k r in
      let up : x / 2 ≡ r / 2 ^ suc k =
        div-div-eq-div-mul r (2 ^ k) 2 ∙ ap (λ y. r / y) (sym (pow-suc 2 k)) in
      ground (
        arith,
        reduce_native_lem op (w r) 0 (received_of k w r) count i,
        ap (w p) z,
        h r i hr,
        h p i lt,
        ap (λ y. tree op w₀ k y i) q,
        tree_step op comm w₀ k x i,
        ap (λ y. tree op w₀ (suc k) y i) up,
      )

  step-eq :
      (fuel k e : ℕ) (w : World A)
      → n ≡ 2 * e * 2 ^ k
      → 2 ^ k < n
      → doubling_reduce_from op n count esize (suc fuel) (2 ^ k) w
        ≡ doubling_reduce_from op n count esize fuel (2 ^ suc k) (after k w)
  unfolding doubling_reduce_from after reduce_call
  step-eq fuel k e w hn hm =
      let met : exchange n (reduce_call (count * esize) (2 ^ k)) w ≡ some (received_of k w) =
        exchange-eq n (reduce_call (count * esize) (2 ^ k)) w λ r hr. call-matches k e r hn hr in
      rw (lt→ltb (2 ^ k) n hm, met, sym (pow-suc 2 k)) refl

  -- `left` rounds are to go when `2 ^ left` groups are left.
  doubling_reduce_from_lem :
      (left fuel k : ℕ) (w : World A)
      → left ≤ fuel
      → n ≡ 2 ^ left * 2 ^ k
      → Summed k w
      → (v : World A) × (doubling_reduce_from op n count esize fuel (2 ^ k) w ≡ some v)
        × Summed (left + k) v
  unfolding doubling_reduce_from
  doubling_reduce_from_lem zero zero k w hf hn h =
      let e : k ≡ 0 + k = omega arith in (w, refl, subst (λ m. Summed m w) e h)
  doubling_reduce_from_lem zero (suc fuel) k w hf hn h =
      let e : k ≡ 0 + k = omega arith in
      (w, rw (ge→ltb (2 ^ k) n (omega (arith, hn))) refl, subst (λ m. Summed m w) e h)
  doubling_reduce_from_lem (suc left) zero k w hf hn h = absurd (omega arith)
  doubling_reduce_from_lem (suc left) (suc fuel) k w hf hn h =
      let (hn', hm, next) = more_rounds n left k hn in
      let (v, run, got) =
        doubling_reduce_from_lem left fuel (suc k) (after k w) (omega arith) next
          (after-Summed k (2 ^ left) w hn' h) in
      let e : left + suc k ≡ suc left + k = omega arith in
      (v, step-eq fuel k (2 ^ left) w hn' hm ∙ run, subst (λ m. Summed m v) e got)

  -- One group is all ranks.
  whole :
      (k : ℕ) (v : World A)
      → Summed k v
      → n ≡ 2 ^ k
      → (r i : ℕ) → r < n
      → v r i ≡ (if ltb i count then tree op w₀ k 0 i else w₀ r i)
  whole k v h hn r i hr =
      let e : r / 2 ^ k ≡ 0 = div-eq_of_lt (omega (arith, hr, hn)) in
      ground (arith, h r i hr, ap (λ q. tree op w₀ k q i) e)

  -- For any operation that does not depend on the order of its two operands, on `2 ^ k` ranks: the
  -- all-reduce runs to its end with every call matched, every rank ends with the same elements, the
  -- contributions of all ranks combined pairwise, and nothing past them has changed.
  pub doubling_all_reduce_lem :
      (k : ℕ)
      → n ≡ 2 ^ k
      → (v : World A) × (doubling_all_reduce op n count esize w₀ ≡ some v)
        × ((r i : ℕ) → r < n → v r i ≡ (if ltb i count then tree op w₀ k 0 i else w₀ r i))
  unfolding doubling_all_reduce
  doubling_all_reduce_lem k hn =
      let enough : k ≤ n = omega (arith, lt-pow k, hn) in
      let one : n ≡ 2 ^ k * 2 ^ 0 = omega (arith, hn) in
      let start : Summed 0 w₀ =
        λ r i hr. let e : r / 1 ≡ r = omega arith in ground (arith, ap (λ q. w₀ q i) e) in
      let (v, run, got) = doubling_reduce_from_lem k n 0 w₀ enough one start in
      let z : k + 0 ≡ k = omega arith in
      (v, run, λ r i hr. whole k v (subst (λ m. Summed m v) z got) hn r i hr)
