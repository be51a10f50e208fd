-- ===== src/Collectives/AllReduce/Logarithmic.antt =====
-- src/core/collectives.cc: `doAllReduce` by recursive doubling or by power-of-two elimination.
use vkccl.Prelude.{
  ℕ, ◌^◌, ◌<◌, ◌≡◌, refl, sym, subst, inl, inr, true, Option, some, arith, ltb, if◌then◌else◌,
  Bool-cases, pow2_sound,
}
use vkccl.Net.{World}
use vkccl.Collectives.AllGather.{is_pow2}
use vkccl.Collectives.ReduceScatter.{Operator}
use vkccl.Collectives.Combined.{Combined, everyone}
use vkccl.Collectives.AllReduce.{doubling_all_reduce}
use vkccl.Collectives.AllReduce.Doubling.{tree, doubling_all_reduce_lem}
use vkccl.Collectives.AllReduce.Elimination.{elim_all_reduce}
use vkccl.Collectives.AllReduce.Elimination.Agreement.{merged_of, elim_all_reduce_lem}
use vkccl.Collectives.AllReduce.Choice.{average_part, log_all_reduce}
use vkccl.Collectives.AllReduce.Promise.{average_part-eq, start, own_input-eq, Reduced, at_start}
use vkccl.Collectives.AllReduce.Trees.{doubled-Combined, merged-Combined}

module _ {A : Type 0} (o : Operator A) (n count esize : ℕ) (send recv : World A) where
  abbrev begin : World A
  begin = start o n count esize send recv

  -- A run that leaves the same combination of all ranks' elements on each.
  abbrev Summed : Option (World A) → Type 0
  Summed run =
      (v : World A) × (run ≡ some v)
      × (g : ℕ → A) × ((i : ℕ) → i < count → Combined o.reduce (λ r. begin r i) (everyone n) (g i))
      × ((r i : ℕ) → r < n → v r i ≡ (if ltb i count then g i else begin r i))

  module _ (hn : 1 < n) (comm : (a b : A) → o.reduce a b ≡ o.reduce b a) where
    doubling-Summed : is_pow2 n ≡ true → Summed (doubling_all_reduce o.reduce n count esize begin)
    unfolding is_pow2
    doubling-Summed t =
        let (k, e) = pow2_sound n n (omega arith) (omega arith) (ground (arith, t)) in
        let (v, run, same) = doubling_all_reduce_lem o.reduce comm n count esize begin k e in
        (
          v,
          run,
          (λ i. tree o.reduce begin k 0 i),
          (λ i h.
              subst
                (λ m. Combined o.reduce (λ r. begin r i) (everyone m) (tree o.reduce begin k 0 i))
                (sym e) (doubled-Combined o.reduce begin i k)),
          same,
        )

    elim-Summed : Summed (elim_all_reduce o.reduce n count begin)
    elim-Summed =
        let (k, v, run, lo, hi, same) =
          elim_all_reduce_lem o.reduce n count begin comm (omega arith) in
        (
          v,
          run,
          (λ i. tree o.reduce (merged_of o.reduce n (2 ^ k) begin) k 0 i),
          (λ i h. merged-Combined o.reduce begin i n k lo hi),
          same,
        )

    log-Summed : Summed (
        if is_pow2 n
        then doubling_all_reduce o.reduce n count esize begin
        else elim_all_reduce o.reduce n count begin)
    log-Summed = elim (Bool-cases (is_pow2 n)) [
      | inl t ↦ rw t (doubling-Summed t)
      | inr t ↦ rw t elim-Summed
    ]

    pub log-Reduced :
        (v : World A) × (log_all_reduce o n count esize begin ≡ some v)
        × Reduced o n count esize send recv v
    unfolding log_all_reduce
    log-Reduced =
        let (v, run, g, sum, same) = log-Summed in
        (
          (λ r. average_part o 0 count (v r)),
          rw (log_all_reduce, run) refl,
          (
            g,
            (λ i h. at_start o n count esize send recv i h (sum i h)),
            λ r i hr. ground (
              arith,
              average_part-eq o 0 count (v r) i,
              same r i hr,
              own_input-eq o n count esize send recv r i,
            ),
          ),
        )
