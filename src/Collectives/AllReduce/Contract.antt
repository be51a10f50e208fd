-- ===== src/Collectives/AllReduce/Contract.antt =====
-- src/core/collectives.cc: what `doAllReduce` promises, whichever algorithm it takes.
use vkccl.Prelude.{
  ℕ, ◌*◌, ◌<◌, ◌≡◌, refl, ap, inl, inr, true, ◌||◌, some, arith, dec_lt, ◌==◌, Bool-cases,
}
use vkccl.Net.{World}
use vkccl.Collectives.AllGather.{Algorithm, log_path}
use vkccl.Collectives.ReduceScatter.{Operator, contribution}
use vkccl.Collectives.Combined.{one}
use vkccl.Collectives.AllReduce.Choice.{all_reduce}
use vkccl.Collectives.AllReduce.Promise.{start, own_input-eq, Reduced}
use vkccl.Collectives.AllReduce.Logarithmic.{log-Reduced}
use vkccl.Collectives.AllReduce.Ring.{ring-Reduced}

module _ {A : Type 0} (o : Operator A) (n count esize : ℕ) (send recv : World A) where
  abbrev begin : World A
  begin = start o n count esize send recv

  -- With one rank or no element there is nothing to send.
  alone : (n == 1 || count == 0) ≡ true → Reduced o n count esize send recv begin
  alone short = (
    (λ i. contribution o (send 0 i)),
    (λ i h. one 0 (λ q. ground (arith, short, h))),
    λ r i hr. elim (dec_lt i count) [
      | yes p ↦
          let same : r ≡ 0 = ground (arith, short, p) in
          let here = ap (λ r. contribution o (send r i)) same in
          ground (arith, own_input-eq o n count esize send recv r i, here, short, p)
      | no p ↦ ground (arith, own_input-eq o n count esize send recv r i, p)
    ],
  )

  -- For any operator whose reduction does not depend on the order of its two operands, with or
  -- without a scalar of its own, in any environment and on any number of ranks above zero:
  -- `doAllReduce` of all ranks runs to its end with every call matched, by recursive doubling, by
  -- power-of-two elimination or by the ring. Every rank ends with the same elements, each combined
  -- from exactly one contribution of each rank (scaled first where the operator has a scalar), and
  -- averaged where the operator is the average of several ranks; nothing past them has changed.
  pub all_reduce_lem :
      (algo : Algorithm) (rd_max : ℕ)
      → ((a b : A) → o.reduce a b ≡ o.reduce b a)
      → 0 < n
      → 0 < esize
      → (v : World A) × (all_reduce o n count esize algo rd_max send recv ≡ some v)
        × Reduced o n count esize send recv v
  unfolding all_reduce
  all_reduce_lem algo rd_max comm hn he = elim (Bool-cases (n == 1 || count == 0)) [
    | inl short ↦ (begin, rw short refl, alone short)
    | inr long ↦ elim (Bool-cases (log_path algo (count * esize) rd_max)) [
      | inl l ↦
          let (v, run, done) = log-Reduced o n count esize send recv (ground (arith, long)) comm in
          (v, rw (long, l) run, done)
      | inr l ↦
          let (v, run, done) = ring-Reduced o n count esize send recv (ground (arith, long)) he in
          (v, rw (long, l) run, done)
    ]
  ]
