-- ===== src/Collectives/Reduce/Chain.antt =====
-- src/core/collectives.cc: `doReduce` on all ranks, each fed with what is sent to it.
use vkccl.Prelude.{
  ℕ, zero, suc, ◌+◌, ◌-◌, ◌*◌, ◌%◌, ◌<◌, ◌≡◌, refl, sym, ap, subst, fun_ext, ◌∙◌, true, false, ◌&&◌,
  Option, none, some, List, [], arith, ℕ_discrete, ltb, ◌==◌, if◌then◌else◌, wrap,
}
use vkccl.Topology.{next, prev, prev-next}
use vkccl.Net.{Mem, World, copy_to}
use vkccl.Verbs.Segments.{Segment, segments, Aligned, segments-Aligned}
use vkccl.Collectives.Program.{Message, run}
use vkccl.Collectives.ReduceScatter.{Operator, contribution, add_in, add_in-eq}
use vkccl.Collectives.Reduce.{head_out, to_peer, reduce_rank}
use vkccl.Collectives.Reduce.Pieces.{
  closed, CarriesElements, head_out_lem, hop_out_lem, root_in_lem,
}

-- The ranks in the order of the chain, from the one after the root to the root.
module _ {A : Type 0} (o : Operator A) (n root count esize pipe : ℕ) (from into : World A) where
  abbrev pub rank_at : ℕ → ℕ
  rank_at k = (root + 1 + k) % n

  -- Each rank of the chain, run on what the rank before it has sent to it.
  unfoldable pub chain : ℕ → Option ((ℕ → List (Message A)) × Mem A)
  chain zero =
      reduce_rank o n root count esize pipe (rank_at 0) (λ p. []) (from (rank_at 0))
        (into (rank_at 0))
  chain (suc k) = elim (chain k) [
    | none ↦ none
    | some (box, buf) ↦
        reduce_rank o n root count esize pipe (rank_at (suc k))
          (λ p. if p == rank_at k then box (rank_at (suc k)) else []) (from (rank_at (suc k)))
          (into (rank_at (suc k)))
  ]

  -- Element `j` on its way: the head's own, scaled where the operator has a scalar, then joined by
  -- each rank's, by the loop that scales as it adds, or by the plain one.
  unfoldable pub passing : ℕ → Mem A
  passing zero j = let x : A = from (rank_at 0) j in if o.premul then o.scaled x else x
  passing (suc k) j =
      let x : A = from (rank_at (suc k)) j in
      if o.premul then o.scaled_add (passing k j) x else o.reduce (passing k j) x

  -- What the root receives.
  abbrev pub rooted : Mem A
  rooted j =
      if n == 1
      then (if o.premul then o.scaled (from root j) else from root j)
      else closed o (from root j) (passing (n - 2) j)

  module _ (hr : root < n) (p : ℕ) (hp : 0 < p) (he : 0 < esize) (whole : pipe ≡ p * esize) where
    abbrev pieces : List Segment
    pieces = segments pipe (count * esize)

    aligned : Aligned esize 0 count pieces
    aligned =
        subst (λ m. Aligned esize 0 count (segments m (count * esize))) (sym whole)
          (segments-Aligned esize p he hp count)

    head_first : (rank_at 0 == (root + 1) % n) ≡ true
    head_first = let z : root + 1 + 0 ≡ root + 1 = omega arith in ground (arith, ap (λ x. x % n) z)

    abbrev Passed : ℕ → Type 0
    Passed k =
        (box : ℕ → List (Message A)) × (chain k ≡ some (box, into (rank_at k)))
        × CarriesElements o esize (passing k) pieces (box (rank_at (suc k)))

    link : (k : ℕ) → k + 1 < n → next n (rank_at k) ≡ rank_at (suc k)
    unfolding next
    link k h = ground (
      arith,
      wrap (root + 1 + k) n (omega arith),
      wrap (root + 1 + suc k) n (omega arith),
      wrap ((root + 1 + k) % n + 1) n (omega (arith, wrap (root + 1 + k) n (omega arith))),
    )

    -- A rank looks for its messages where the rank before it is.
    hit : (k : ℕ) → k + 1 < n → (prev n (rank_at (suc k)) == rank_at k) ≡ true
    hit k h =
        let back : prev n (rank_at (suc k)) ≡ rank_at k =
          ap (prev n) (sym (link k h))
          ∙ prev-next n (rank_at k) (omega (arith, wrap (root + 1 + k) n (omega arith))) in
        ground (arith, back)

    -- What a rank sends to its neighbour reaches the next rank of the chain.
    reached :
        (k : ℕ) (f : Mem A) (out : List (Message A))
        → k + 1 < n
        → CarriesElements o esize f pieces out
        → CarriesElements o esize f pieces (to_peer (next n (rank_at k)) out (rank_at (suc k)))
    reached k f out h c =
        let there : (rank_at (suc k) == next n (rank_at k)) ≡ true = ground (arith, link k h) in
        rw there c

    added :
        (k : ℕ) (out : List (Message A))
        → CarriesElements o esize
            (λ j. add_in o (passing k j) (from (rank_at (suc k)) j))
            pieces
            out
        → CarriesElements o esize (passing (suc k)) pieces out
    unfolding passing
    added k out c =
        subst (λ f. CarriesElements o esize f pieces out)
          (fun_ext (λ j. add_in-eq o (passing k j) (from (rank_at (suc k)) j))) c

    passed : (k : ℕ) → k + 1 < n → 0 < count → Passed k
    unfolding chain reduce_rank passing
    passed zero h c =
        let head : (rank_at 0 == (root + 1) % n) ≡ true = head_first in
        let many : (n == 1) ≡ false = ground arith in
        let some_left : (count == 0) ≡ false = ground arith in
        (
          to_peer (next n (rank_at 0)) (head_out o esize (from (rank_at 0)) pieces),
          rw (many, some_left, head) refl,
          reached 0 (passing 0) _ h (head_out_lem o esize (from (rank_at 0)) pieces),
        )
    passed (suc k) h c =
        let (box, ok, carried) = passed k (omega arith) c in
        let ms : List (Message A) = box (rank_at (suc k)) in
        let many : (n == 1) ≡ false = ground arith in
        let some_left : (count == 0) ≡ false = ground arith in
        let not_head : (rank_at (suc k) == (root + 1) % n) ≡ false =
          ground
            (arith, wrap (root + 1 + suc k) n (omega arith), wrap (root + 1) n (omega arith)) in
        let not_root : (rank_at (suc k) == root) ≡ false =
          ground (arith, wrap (root + 1 + suc k) n (omega arith)) in
        let (out, run, c') =
          hop_out_lem o esize (from (rank_at (suc k))) (passing k) pieces ms carried in
        (
          to_peer (next n (rank_at (suc k))) out,
          rw (chain, ok, reduce_rank, many, some_left, not_head, not_root, hit k (omega arith), run)
              refl,
          reached (suc k) (passing (suc k)) out h (added k out c'),
        )

    -- With nothing to reduce every rank leaves at once.
    idle : (k : ℕ) → 1 < n → count ≡ 0 → chain k ≡ some ((λ q. []), into (rank_at k))
    unfolding chain reduce_rank
    idle zero h c =
        let many : (n == 1) ≡ false = ground (arith, h) in
        let empty : (count == 0) ≡ true = ground (arith, c) in rw (many, empty) refl
    idle (suc k) h c =
        let many : (n == 1) ≡ false = ground (arith, h) in
        let empty : (count == 0) ≡ true = ground (arith, c) in
        rw (chain, idle k h c, reduce_rank, many, empty) refl

    abbrev Ends : ℕ → Type 0
    Ends k =
        (box : ℕ → List (Message A)) × (buf : Mem A) × (chain k ≡ some (box, buf))
        × ((j : ℕ) → buf j ≡ (if k + 1 == n && ltb j count then rooted j else into (rank_at k) j))

    alone : n ≡ 1 → Ends 0
    unfolding chain reduce_rank copy_to
    alone h =
        let one : (n == 1) ≡ true = ground (arith, h) in
        let here : rank_at 0 ≡ root = ground (arith, wrap (root + 1 + 0) n (omega arith)) in
        (
          λ q. [],
          copy_to (into (rank_at 0)) 0 count (λ i. contribution o (from (rank_at 0) i)),
          rw one refl,
          λ j.
              let z : j - 0 ≡ j = omega arith in
              let mine = ap (λ r. contribution o (from r j)) here in ground (arith, z, mine, h),
        )

    at_root : (k : ℕ) → suc k + 1 ≡ n → 0 < count → Ends (suc k)
    unfolding chain reduce_rank
    at_root k h c =
        let (box, ok, carried) = passed k (omega arith) c in
        let here : rank_at (suc k) ≡ root =
          ground (arith, wrap (root + 1 + suc k) n (omega arith)) in
        let ms : List (Message A) = box root in
        let carried' : CarriesElements o esize (passing k) pieces ms =
          subst (λ r. CarriesElements o esize (passing k) pieces (box r)) here carried in
        let many : (n == 1) ≡ false = ground arith in
        let some_left : (count == 0) ≡ false = ground arith in
        let not_head : (root == (root + 1) % n) ≡ false =
          ground (arith, wrap (root + 1) n (omega arith)) in
        let self : (root == root) ≡ true = ground arith in
        let (buf, run, same) =
          root_in_lem o esize (from root) (passing k) 0 count pieces ms (into root) aligned
            carried' in
        let e : k ≡ n - 2 = omega arith in
        let last = λ (j : ℕ). ap (λ m. closed o (from root j) (passing m j)) e in
        let there = λ (j : ℕ). ap (λ r. into r j) here in
        (
          λ q. [],
          buf,
          rw
              (
                chain,
                ok,
                reduce_rank,
                hit k (omega arith),
                here,
                many,
                some_left,
                not_head,
                self,
                run,
              )
              refl,
          λ j. ground (arith, same j, last j, there j),
        )

    -- For any operator, with or without a scalar of its own, on any number of ranks above the root,
    -- in pieces of whole elements: every rank of `doReduce`, being sent what the rank before it
    -- sends to it, runs to its end. The receive buffer of the root, which is last, then starts with
    -- the ranks' elements, combined along the chain from the rank after the root to the root, and
    -- averaged where the operator is the average of several ranks, and is unchanged past them; no
    -- other receive buffer changes. Where the operator has a scalar, the elements of the first rank
    -- and of the root are scaled by `cpuScaleCopy`, and those of the ranks between are scaled and
    -- added in one step by `cpuScaledAccumulate`; else all are reduced as they are.
    pub reduce_lem : (k : ℕ) → k < n → Ends k
    reduce_lem k h = elim (ℕ_discrete n 1) [
      | yes one ↦ let z : 0 ≡ k = omega arith in subst Ends z (alone one)
      | no ne ↦ elim (ℕ_discrete count 0) [
        | yes empty ↦
            ((λ q. []), into (rank_at k), idle k (omega arith) empty, λ j. ground (arith, empty))
        | no nz ↦ elim (ℕ_discrete (k + 1) n) [
          | no before ↦
              let (out, ok, c) = passed k (omega arith) (omega arith) in
              (out, into (rank_at k), ok, λ j. ground (arith, before))
          | yes last ↦
              let z : suc (k - 1) ≡ k = omega arith in
              subst Ends z (at_root (k - 1) (omega arith) (omega arith))
        ]
      ]
    ]
