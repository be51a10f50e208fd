-- ===== src/Collectives/AllReduce/Promise.antt =====
-- src/core/collectives.cc: the promise of `doAllReduce`, and its first and last steps.
use vkccl.Prelude.{
  ℕ, ◌+◌, ◌-◌, ◌<◌, ◌≡◌, refl, ap, subst, fun_ext, ◌∙◌, true, ◌&&◌, arith, dec_le, ltb, leb,
  if◌then◌else◌,
}
use vkccl.Net.{Mem, World, copy_to}
use vkccl.Collectives.ReduceScatter.{Operator, contribution}
use vkccl.Collectives.Combined.{Combined, everyone}
use vkccl.Collectives.AllReduce.Choice.{average_part, own_input}

module _ {A : Type 0} (o : Operator A) where
  pub average_part-eq :
      (at len : ℕ) (m : Mem A) (j : ℕ)
      → average_part o at len m j ≡ (
          if leb at j && ltb j (at + len) then (if o.is_avg then o.average (m j) else m j) else m j)
  unfolding average_part copy_to
  average_part-eq at len m j = elim (dec_le at j) [
    | yes p ↦
        let z : at + (j - at) ≡ j = omega arith in
        ground (arith, ap m z, ap (λ y. o.average (m y)) z)
    | no p ↦ ground arith
  ]

module _ {A : Type 0} (o : Operator A) (n count esize : ℕ) (send recv : World A) where
  abbrev pub start : World A
  start = own_input o n count esize send recv

  pub own_input-eq :
      (r i : ℕ) → start r i ≡ (if ltb i count then contribution o (send r i) else recv r i)
  unfolding own_input copy_to
  own_input-eq r i = let z : i - 0 ≡ i = omega arith in ground (arith, z)

  -- What a reduction with its average leaves, from what the ranks bring.
  abbrev pub finish : A → A
  finish a = if o.is_avg && ltb 1 n then o.average a else a

  -- Every rank ends with the same elements, each combined from one contribution of each rank.
  abbrev pub Reduced : World A → Type 0
  Reduced v =
      (g : ℕ → A) × ((i : ℕ)
        → i < count
        → Combined o.reduce (λ r. contribution o (send r i)) (everyone n) (g i))
      × ((r i : ℕ) → r < n → v r i ≡ (if ltb i count then finish (g i) else recv r i))

  -- Contributions are the elements that the algorithms start with.
  pub at_start :
      (i : ℕ) {a : A}
      → i < count
      → Combined o.reduce (λ r. start r i) (everyone n) a
      → Combined o.reduce (λ r. contribution o (send r i)) (everyone n) a
  at_start i {a} h c =
      subst (λ x. Combined o.reduce x (everyone n) a)
        (fun_ext
          λ r. let t : ltb i count ≡ true = ground (arith, h) in own_input-eq r i ∙ rw t refl)
        c
