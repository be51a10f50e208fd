-- ===== src/Group/Order.antt =====
-- src/core/group.cc, `vcclGroupEnd`: the partition of the queued operations by communicator.
use vkccl.Prelude.{
  ℕ, suc, ◌+◌, ◌≤◌, ◌≡◌, refl, Bool, true, false, not, ◌&&◌, List, [], ◌∷◌, if◌then◌else◌, length,
  arith, map, ◌∙◌, ◌⊎◌, ◌==◌, inl, inr, ◌-◌, ℕ_discrete, ◌≢◌, Bool-cases,
}
use vkccl.Types.{Result, success, invalid_usage, is_success}
use vkccl.Group.{
  QueuedOp, Work, GroupState, Launch, seen, comm_order, queue_of, launches, first_error, group_end,
}

pub no_repeat : List ℕ → Bool
unfolding seen
no_repeat [] = true
no_repeat (c ∷ cs) = not (seen c cs) && no_repeat cs

-- The result of a group: a success where all are, else the first that is not.
pub data Answered : List Result → Result → Type 0 where
  all_good : Answered [] success
  passed_over :
      {r : Result} {rs : List Result} {res : Result}
      → is_success r ≡ true
      → Answered rs res
      → Answered (r ∷ rs) res
  fails_first : {r : Result} {rs : List Result} → is_success r ≡ false → Answered (r ∷ rs) r

Answered-first_error : (rs : List Result) → Answered rs (first_error rs)
unfolding first_error
Answered-first_error [] = all_good
Answered-first_error (r ∷ rs) = elim (Bool-cases (is_success r)) [
  | inl good ↦ rw good (passed_over good (Answered-first_error rs))
  | inr bad ↦ rw bad (fails_first bad)
]

-- The queue of a communicator: its operations, in issue order, and no other.
pub data Queued {C : Type 0} (c : ℕ) : List (QueuedOp C) → List (Work C) → Type 0 where
  no_more : Queued c [] []
  mine :
      {q : QueuedOp C} {qs : List (QueuedOp C)} {ws : List (Work C)}
      → q.comm ≡ c
      → Queued c qs ws
      → Queued c (q ∷ qs) (q.work ∷ ws)
  of_another :
      {q : QueuedOp C} {qs : List (QueuedOp C)} {ws : List (Work C)}
      → q.comm ≢ c
      → Queued c qs ws
      → Queued c (q ∷ qs) ws

-- The communicators by their first operation, after the known ones.
pub data Firsts {C : Type 0} : List ℕ → List (QueuedOp C) → List ℕ → Type 0 where
  no_first : {known : List ℕ} → Firsts known [] []
  not_first :
      {known : List ℕ} {q : QueuedOp C} {qs : List (QueuedOp C)} {cs : List ℕ}
      → seen q.comm known ≡ true
      → Firsts known qs cs
      → Firsts known (q ∷ qs) cs
  a_first :
      {known : List ℕ} {q : QueuedOp C} {qs : List (QueuedOp C)} {cs : List ℕ}
      → seen q.comm known ≡ false
      → Firsts (q.comm ∷ known) qs cs
      → Firsts known (q ∷ qs) (q.comm ∷ cs)

-- What is run: for each communicator of `order`, in that order, its queue.
abbrev pub Runs : {C : Type 0} → List ℕ → List (QueuedOp C) → List (Launch C) → Type 0
Runs [] qs [] = Unit {0}
Runs (c ∷ cs) qs ((k, ws) ∷ ls) = (k ≡ c) × Queued c qs ws × Runs cs qs ls
Runs [] qs (l ∷ ls) = ⊥
Runs (c ∷ cs) qs [] = ⊥

module _ {C : Type 0} where
  Queued-queue_of : (c : ℕ) (qs : List (QueuedOp C)) → Queued c qs (queue_of c qs)
  unfolding queue_of
  Queued-queue_of c [] = no_more
  Queued-queue_of c (q ∷ qs) = elim (Bool-cases (q.comm == c)) [
    | inl same ↦ rw same (mine (ground (arith, same)) (Queued-queue_of c qs))
    | inr other ↦ rw other (of_another (ground (arith, other)) (Queued-queue_of c qs))
  ]

  Runs-launches : (cs : List ℕ) (qs : List (QueuedOp C)) → Runs cs qs (launches cs qs)
  unfolding launches
  Runs-launches [] qs = tt
  Runs-launches (c ∷ cs) qs = (refl, Queued-queue_of c qs, Runs-launches cs qs)

  Firsts-comm_order :
      (known : List ℕ) (qs : List (QueuedOp C)) → Firsts known qs (comm_order known qs)
  unfolding comm_order
  Firsts-comm_order known [] = no_first
  Firsts-comm_order known (q ∷ qs) = elim (Bool-cases (seen q.comm known)) [
    | inl old ↦ rw old (not_first old (Firsts-comm_order known qs))
    | inr new ↦ rw new (a_first new (Firsts-comm_order (q.comm ∷ known) qs))
  ]

module _ {C : Type 0} where
  -- The operations in all queues.
  pub total_work : List (Launch C) → ℕ
  total_work [] = 0
  total_work ((c, ws) ∷ ls) = length ws + total_work ls

  occurs : ℕ → List (QueuedOp C) → Bool
  occurs k [] = false
  occurs k (q ∷ qs) = if k == q.comm then true else occurs k qs

  seen-comm_order :
      (k : ℕ) (known : List ℕ) (qs : List (QueuedOp C))
      → seen k (comm_order known qs) ≡ (not (seen k known) && occurs k qs)
  unfolding comm_order seen occurs
  seen-comm_order k known [] = ground arith
  seen-comm_order k known (q ∷ qs) =
      ground (arith, seen-comm_order k known qs, seen-comm_order k (q.comm ∷ known) qs)

  no_repeat-comm_order :
      (known : List ℕ) (qs : List (QueuedOp C)) → no_repeat (comm_order known qs) ≡ true
  unfolding comm_order no_repeat seen
  no_repeat-comm_order known [] = refl
  no_repeat-comm_order known (q ∷ qs) = ground (
    arith,
    no_repeat-comm_order known qs,
    no_repeat-comm_order (q.comm ∷ known) qs,
    seen-comm_order q.comm (q.comm ∷ known) qs,
  )

  -- How many operations belong to the communicators of a list.
  covered : List ℕ → List (QueuedOp C) → ℕ
  covered cs [] = 0
  covered cs (q ∷ qs) = let rest = covered cs qs in if seen q.comm cs then suc rest else rest

  total-step :
      (cs : List ℕ) (q : QueuedOp C) (qs : List (QueuedOp C))
      → no_repeat cs ≡ true
      → total_work (launches cs (q ∷ qs))
        ≡ total_work (launches cs qs) + (if seen q.comm cs then 1 else 0)
  unfolding total_work launches queue_of no_repeat seen
  total-step [] q qs h = omega arith
  total-step (c ∷ cs) q qs h = ground (arith, total-step cs q qs)

  total-launches :
      (cs : List ℕ) (qs : List (QueuedOp C))
      → no_repeat cs ≡ true
      → total_work (launches cs qs) ≡ covered cs qs
  unfolding total_work launches queue_of covered no_repeat
  total-launches [] [] h = refl
  total-launches (c ∷ cs) [] h = ground (arith, total-launches cs [])
  total-launches cs (q ∷ qs) h = ground (arith, total-step cs q qs h, total-launches cs qs h)

  covered_all :
      (cs : List ℕ) (qs : List (QueuedOp C))
      → ((k : ℕ) → occurs k qs ≡ true → seen k cs ≡ true)
      → covered cs qs ≡ length qs
  unfolding covered occurs
  covered_all cs [] h = refl
  covered_all cs (q ∷ qs) h =
      ground (arith, h q.comm, covered_all cs qs (λ k e. h k (ground arith)))

  total-comm_order :
      (qs : List (QueuedOp C)) → total_work (launches (comm_order [] qs) qs) ≡ length qs
  unfolding seen
  total-comm_order qs =
      total-launches (comm_order [] qs) qs (no_repeat-comm_order [] qs)
      ∙ covered_all (comm_order [] qs) qs (λ k e. ground (arith, seen-comm_order k [] qs))

-- The call that closes the outermost group runs, for each communicator with a queued operation,
-- once and in the order of their first operations, the queue of its operations in issue order: the
-- queues have as many operations as were queued, so every one is in exactly one of them. It answers
-- with the first failure of a queue, in that order, and leaves the thread with no group and no
-- operation. A nested end runs nothing, and an end without a start is an invalid usage that changes
-- nothing.
pub group_end_lem :
    {C : Type 0} (outcome : Launch C → Result) (g : GroupState C)
    → ((g.depth ≡ 0) × (group_end outcome g ≡ (invalid_usage, g, [])))
      ⊎ ((2 ≤ g.depth)
          × (group_end outcome g ≡ (success, record { depth = g.depth - 1; ops = g.ops }, [])))
      ⊎ ((order : List ℕ) × (runs : List (Launch C)) × (res : Result) × (g.depth ≡ 1)
          × (group_end outcome g ≡ (res, record { depth = 0; ops = [] }, runs))
          × Answered (map outcome runs) res
          × Firsts [] g.ops order
          × Runs order g.ops runs
          × (no_repeat order ≡ true)
          × (total_work runs ≡ length g.ops))
unfolding group_end
group_end_lem outcome g = elim (ℕ_discrete g.depth 0) [
  | yes z ↦ inl (z, ground arith)
  | no ¬z ↦ elim (ℕ_discrete g.depth 1) [
    | yes o ↦
        let order : List ℕ = comm_order [] g.ops in
        let runs : List (Launch _) = launches order g.ops in
        inr (
          inr (
            order,
            runs,
            first_error (map outcome runs),
            o,
            rw o refl,
            Answered-first_error (map outcome runs),
            Firsts-comm_order [] g.ops,
            Runs-launches order g.ops,
            no_repeat-comm_order [] g.ops,
            total-comm_order g.ops,
          ))
    | no ¬o ↦ inr (inl (omega arith, ground arith))
  ]
]
