-- ===== src/Collectives/AllReduce/Sum.antt =====
-- src/core/collectives.cc: `doAllReduce` with sums that wrap around, as those of the unsigned types.
use native.Mathlib.Nat.{add-mod, mod-mod, mod-lt, mod-eq_of_lt}
use vkccl.Prelude.{
  ℕ, zero, suc, ◌+◌, ◌*◌, ◌%◌, ◌≤◌, ◌<◌, ◌≡◌, refl, sym, ap, ◌∙◌, false, some, arith, dec_lt,
  ℕ_discrete, ltb, ◌==◌, if◌then◌else◌,
}
use vkccl.Net.{World}
use vkccl.Collectives.AllGather.{Algorithm}
use vkccl.Collectives.ReduceScatter.{Operator}
use vkccl.Collectives.Combined.{Combined, one, both, everyone}
use vkccl.Collectives.AllReduce.Choice.{all_reduce}
use vkccl.Collectives.AllReduce.Contract.{all_reduce_lem}

-- The sum of the contributions, each taken so many times.
weighted : (ℕ → ℕ) → (ℕ → ℕ) → ℕ → ℕ
weighted times x zero = 0
weighted times x (suc n) = weighted times x n + times n * x n

-- What the ranks below `n` contribute.
unfoldable pub total : (ℕ → ℕ) → ℕ → ℕ
total x zero = 0
total x (suc n) = total x n + x n

module _ (x : ℕ → ℕ) where
  weighted-one :
      (times : ℕ → ℕ) (r n : ℕ)
      → ((q : ℕ) → times q ≡ (if q == r then 1 else 0))
      → weighted times x n ≡ (if ltb r n then x r else 0)
  unfolding weighted
  weighted-one times r zero h = ground arith
  weighted-one times r (suc n) h = elim (ℕ_discrete n r) [
    | yes e ↦
        let m : times n * x n ≡ x r = ap (λ t. t * x n) (h n) ∙ ground (arith, ap x e, e) in
        ground (arith, weighted-one times r n h, m, e)
    | no ne ↦
        let m : times n * x n ≡ 0 = ap (λ t. t * x n) (h n) ∙ ground (arith, ne) in
        ground (arith, weighted-one times r n h, m, ne)
  ]

  weighted-add :
      (these those times : ℕ → ℕ) (n : ℕ)
      → ((q : ℕ) → times q ≡ these q + those q)
      → weighted times x n ≡ weighted these x n + weighted those x n
  unfolding weighted
  weighted-add these those times zero h = refl
  weighted-add these those times (suc n) h =
      omega (arith, weighted-add these those times n h, ap (λ t. t * x n) (h n))

  weighted-everyone : (n k : ℕ) → k ≤ n → weighted (everyone n) x k ≡ total x k
  unfolding weighted total
  weighted-everyone n zero h = refl
  weighted-everyone n (suc k) h =
      let once : everyone n k * x k ≡ x k = ground (arith, h) in
      omega (arith, weighted-everyone n k (omega arith), once)

-- `vcclSum` of numbers below a modulus; it scales nothing.
abbrev pub wrapping_sum : ℕ → Operator ℕ
wrapping_sum modulus = record {
  reduce = λ a b. (a + b) % modulus;
  scaled_add = λ a b. a;
  scaled = λ a. a;
  average = λ a. a;
  premul = false;
  is_avg = false;
}

module _ (modulus : ℕ) (hm : 0 < modulus) (x : ℕ → ℕ) where
  abbrev Summed : (ℕ → ℕ) → ℕ → Type 0
  Summed times a = Combined (wrapping_sum modulus).reduce x times a

  Combined-weighted :
      (n : ℕ) {times : ℕ → ℕ} {a : ℕ}
      → Summed times a
      → ((q : ℕ) → n ≤ q → times q ≡ 0)
      → a % modulus ≡ weighted times x n % modulus
  Combined-weighted n {times} (one r h) none_past =
      let t : r < n = ground (arith, none_past r, h r) in
      ap (λ z. z % modulus) (ground (arith, weighted-one x times r n h, t))
  Combined-weighted n {times} (both {these} {those} {a = a} {b} c d h) none_past =
      let p = Combined-weighted n c (λ q l. omega (arith, none_past q l, h q)) in
      let q = Combined-weighted n d (λ q l. omega (arith, none_past q l, h q)) in
      mod-mod (a + b) modulus
      ∙ add-mod a b modulus
      ∙ rw (p, q) (sym (add-mod (weighted these x n) (weighted those x n) modulus))
      ∙ ap (λ z. z % modulus) (sym (weighted-add x these those times n h))

  Combined-lt : {times : ℕ → ℕ} {a : ℕ} → ((q : ℕ) → x q < modulus) → Summed times a → a < modulus
  Combined-lt small (one r h) = small r
  Combined-lt small (both {a = a} {b} c d h) = mod-lt (a + b) hm

-- The sum of numbers below a modulus, such as the unsigned integers of some bits, in any environment
-- and on any number of ranks above zero: `doAllReduce` of all ranks runs to its end with every call
-- matched, every rank ends with the sums of what all the ranks sent, modulo that number, and with
-- nothing past them changed.
pub all_reduce_sum :
    (modulus n count esize : ℕ) (send recv : World ℕ) (algo : Algorithm) (rd_max : ℕ)
    → 0 < modulus
    → 0 < n
    → 0 < esize
    → ((r i : ℕ) → send r i < modulus)
    → (v : World ℕ) × (all_reduce (wrapping_sum modulus) n count esize algo rd_max send recv
        ≡ some v)
      × ((r i : ℕ)
          → r < n
          → v r i ≡ (if ltb i count then total (λ q. send q i) n % modulus else recv r i))
all_reduce_sum modulus n count esize send recv algo rd_max hm hn he small =
    let (v, run, (g, sum, same)) =
      all_reduce_lem (wrapping_sum modulus) n count esize send recv algo rd_max
        (λ a b. ap (λ z. z % modulus) (omega arith)) hn he in
    (
      v,
      run,
      λ r i hr. elim (dec_lt i count) [
        | yes p ↦
            let x : ℕ → ℕ = λ q. send q i in
            let lt = Combined-lt modulus hm x (λ q. small q i) (sum i p) in
            let w = Combined-weighted modulus hm x n (sum i p) (λ q l. ground arith) in
            let e = ap (λ z. z % modulus) (weighted-everyone x n n (omega arith)) in
            let m : g i % modulus ≡ g i = mod-eq_of_lt lt in ground (arith, same r i hr, p, w, e, m)
        | no p ↦ ground (arith, same r i hr, p)
      ],
    )
