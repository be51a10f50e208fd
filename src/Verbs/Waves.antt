-- ===== src/Verbs/Waves.antt =====
-- src/transport/verbs.cc: how `batch` cuts its operations into waves that the work queues can hold.
use vkccl.Prelude.{
  ℕ, zero, suc, ◌+◌, ◌≤◌, ◌<◌, ◌≡◌, refl, sym, ap, subst, ◌∙◌, ◌⊎◌, inl, inr, Bool, true, false,
  not, ◌&&◌, List, [], ◌∷◌, ◌++◌, arith, ℕ_discrete, ltb, ◌==◌, if◌then◌else◌, Bool-cases, length,
  length-append,
}
use vkccl.Group.{P2pOp}
use vkccl.Verbs.Segments.{needed_wrs}

-- `waveWrs`: the work requests of a wave by peer, and by direction: `true` for sends.
abbrev pub Load : Type 0
Load = ℕ → Bool → ℕ

abbrev pub bool_eq : Bool → Bool → Bool
bool_eq true b = b
bool_eq false b = not b

-- `dirCount += needed`
abbrev pub add_load : Load → ℕ → Bool → ℕ → Load
add_load load peer dir needed p d =
    if p == peer && bool_eq d dir then load p d + needed else load p d

-- The scan for `waveEnd`: the operations of the wave, and those after it.
take_wave : ℕ → ℕ → List P2pOp → Load → List P2pOp × List P2pOp
take_wave seg depth [] load = ([], [])
take_wave seg depth (op ∷ ops) load =
    let needed = needed_wrs seg op.bytes in
    let skip = take_wave seg depth ops load in
    let taken = take_wave seg depth ops (add_load load op.peer op.is_send needed) in
    if op.bytes == 0
    then (op ∷ skip.0, skip.1)
    else if ltb depth (load op.peer op.is_send + needed)
    then ([], op ∷ ops)
    else (op ∷ taken.0, taken.1)

-- A wave takes at least one operation.
at_least_one : P2pOp → List P2pOp → List P2pOp × List P2pOp → List P2pOp × List P2pOp
at_least_one op ops ([], rest) = (op ∷ [], ops)
at_least_one op ops (o ∷ os, rest) = (o ∷ os, rest)

-- `while (idx < ops.size())`, with the rounds left; there are no more waves than operations.
waves_from : ℕ → ℕ → ℕ → List P2pOp → List (List P2pOp)
waves_from fuel seg depth [] = []
waves_from zero seg depth (op ∷ ops) = []
waves_from (suc fuel) seg depth (op ∷ ops) =
    let (wave, rest) = at_least_one op ops (take_wave seg depth (op ∷ ops) (λ p d. 0)) in
    wave ∷ waves_from fuel seg depth rest

-- The waves of `batch`, for a segment size and a queue depth.
pub waves : ℕ → ℕ → List P2pOp → List (List P2pOp)
waves seg depth ops = waves_from (length ops) seg depth ops

-- The work requests of some operations to a peer in a direction.
pub wave_load : ℕ → List P2pOp → ℕ → Bool → ℕ
wave_load seg [] p d = 0
wave_load seg (op ∷ ops) p d =
    let rest = wave_load seg ops p d in
    if not (op.bytes == 0) && p == op.peer && bool_eq d op.is_send
    then needed_wrs seg op.bytes + rest
    else rest

pub concat : List (List P2pOp) → List P2pOp
concat [] = []
concat (w ∷ ws) = w ++ concat ws

-- Every wave is a single operation, or no queue has more than its depth.
pub Fit : ℕ → ℕ → List (List P2pOp) → Type 0
Fit seg depth [] = Unit {0}
Fit seg depth (w ∷ ws) =
    ((length w ≡ 1) ⊎ ((0 < length w) × ((p : ℕ) (d : Bool) → wave_load seg w p d ≤ depth)))
    × Fit seg depth ws

take_wave-concat :
    (seg depth : ℕ) (ops : List P2pOp) (load : Load)
    → (take_wave seg depth ops load).0 ++ (take_wave seg depth ops load).1 ≡ ops
unfolding take_wave
take_wave-concat seg depth [] load = refl
take_wave-concat seg depth (op ∷ ops) load =
    let ih = take_wave-concat seg depth ops load in
    let ih' =
      take_wave-concat seg depth ops (add_load load op.peer op.is_send (needed_wrs seg op.bytes)) in
    elim (Bool-cases (op.bytes == 0)) [
      | inl empty ↦ rw empty (ap (λ l. op ∷ l) ih)
      | inr some_ ↦
          rw some_
            (elim (Bool-cases (ltb depth (load op.peer op.is_send + needed_wrs seg op.bytes))) [
              | inl full ↦ rw full refl
              | inr room ↦ rw room (ap (λ l. op ∷ l) ih')
            ])
    ]

added_fits :
    (depth : ℕ) (load : Load) (peer needed : ℕ) (dir : Bool)
    → load peer dir + needed ≤ depth
    → ((p : ℕ) (d : Bool) → load p d ≤ depth)
    → (p : ℕ) (d : Bool) → add_load load peer dir needed p d ≤ depth
added_fits depth load peer needed true room h p true = elim (ℕ_discrete p peer) [
  | yes e ↦ rw e (ground arith)
  | no ne ↦ ground (arith, h p true)
]
added_fits depth load peer needed true room h p false = ground (arith, h p false)
added_fits depth load peer needed false room h p true = ground (arith, h p true)
added_fits depth load peer needed false room h p false = elim (ℕ_discrete p peer) [
  | yes e ↦ rw e (ground arith)
  | no ne ↦ ground (arith, h p false)
]

take_wave-fits :
    (seg depth : ℕ) (ops : List P2pOp) (load : Load) (p : ℕ) (d : Bool)
    → ((p : ℕ) (d : Bool) → load p d ≤ depth)
    → load p d + wave_load seg (take_wave seg depth ops load).0 p d ≤ depth
unfolding take_wave wave_load
take_wave-fits seg depth [] load p d h = omega (arith, h p d)
take_wave-fits seg depth (op ∷ ops) load p d h = elim (Bool-cases (op.bytes == 0)) [
  | inl empty ↦ ground (arith, take_wave-fits seg depth ops load p d h)
  | inr some_ ↦ elim (Bool-cases (ltb depth (load op.peer op.is_send + needed_wrs seg op.bytes))) [
    | inl full ↦ ground (arith, h p d)
    | inr room ↦
        let needed = needed_wrs seg op.bytes in
        let load' : Load = add_load load op.peer op.is_send needed in
        let small : (q : ℕ) (e : Bool) → load' q e ≤ depth =
          added_fits depth load op.peer needed op.is_send (ground arith) h in
        ground (arith, take_wave-fits seg depth ops load' p d small)
  ]
]

waves_from-concat :
    (fuel seg depth : ℕ) (ops : List P2pOp)
    → length ops ≤ fuel
    → (concat (waves_from fuel seg depth ops) ≡ ops) × Fit seg depth (waves_from fuel seg depth ops)
unfolding waves_from concat Fit at_least_one
waves_from-concat fuel seg depth [] h = (refl, tt)
waves_from-concat zero seg depth (op ∷ ops) h = absurd (omega arith)
waves_from-concat (suc fuel) seg depth (op ∷ ops) h =
    go (take_wave seg depth (op ∷ ops) (λ p d. 0)) refl
      (λ rest l. waves_from-concat fuel seg depth rest l)
  where
    go :
        (w : List P2pOp × List P2pOp)
        → take_wave seg depth (op ∷ ops) (λ p d. 0) ≡ w
        → ((rest : List P2pOp)
            → length rest ≤ fuel
            → (concat (waves_from fuel seg depth rest) ≡ rest)
              × Fit seg depth (waves_from fuel seg depth rest))
        → ((at_least_one op ops w).0 ++ concat (waves_from fuel seg depth (at_least_one op ops w).1)
            ≡ op ∷ ops)
          × (((length (at_least_one op ops w).0 ≡ 1)
                ⊎ ((0 < length (at_least_one op ops w).0)
                    × ((p : ℕ) (d : Bool) → wave_load seg (at_least_one op ops w).0 p d ≤ depth)))
              × Fit seg depth (waves_from fuel seg depth (at_least_one op ops w).1))
    go ([], rest) e ih =
        let (same, fit) = ih ops (omega arith) in (ap (λ l. op ∷ l) same, (inl refl, fit))
    go (o ∷ os, rest) e ih =
        let whole : (o ∷ os) ++ rest ≡ op ∷ ops =
          ap (λ w. w.0 ++ w.1) (sym e) ∙ take_wave-concat seg depth (op ∷ ops) (λ p d. 0) in
        let len : length ((o ∷ os) ++ rest) ≡ length (op ∷ ops) = ap length whole in
        let (same, fit) = ih rest (omega (arith, length-append (o ∷ os) rest)) in
        (
          ap (λ l. (o ∷ os) ++ l) same ∙ whole,
          (
            inr (
              omega arith,
              λ p d.
                  let f = take_wave-fits seg depth (op ∷ ops) (λ q b. 0) p d (λ q b. omega arith) in
                  let f' : 0 + wave_load seg (o ∷ os) p d ≤ depth =
                    subst (λ w. 0 + wave_load seg w.0 p d ≤ depth) e f in
                  omega arith,
            ),
            fit,
          ),
        )

-- Whatever the operations, the waves of `batch` are the operations in their order, each in one wave;
-- and in every wave that has more than one operation, no peer has more work requests in one
-- direction than the depth of its queue.
pub waves_lem :
    (seg depth : ℕ) (ops : List P2pOp)
    → (concat (waves seg depth ops) ≡ ops) × Fit seg depth (waves seg depth ops)
unfolding waves
waves_lem seg depth ops = waves_from-concat (length ops) seg depth ops (omega arith)

-- Some operations make at least one wave.
pub waves-cons :
    (seg depth : ℕ) (op : P2pOp) (ops : List P2pOp)
    → (wave : List P2pOp) × (rest : List (List P2pOp)) × (waves seg depth (op ∷ ops) ≡ wave ∷ rest)
unfolding waves waves_from
waves-cons seg depth op ops = (_, _, refl)

pub waves-nil : (seg depth : ℕ) → waves seg depth [] ≡ []
unfolding waves waves_from
waves-nil seg depth = refl
