-- ===== src/Tcp/Batch/Delivery.antt =====
-- src/transport/tcp.cc: the bytes that `TcpTransport::batch` moves through each socket and direction.
use vkccl.Prelude.{
  ℕ, zero, suc, ◌+◌, ◌-◌, ◌*◌, ◌≤◌, ◌<◌, min, ◌≡◌, refl, sym, ap, subst, ◌∙◌, ◌≢◌, inl, inr, Bool,
  true, false, not, ◌&&◌, ◌||◌, false≢true, none, some, List, [], ◌∷◌, ◌++◌, arith, ℕ_discrete, ltb,
  ◌==◌, if◌then◌else◌, Bool-cases, Option-cases, length, length-append,
}
use vkccl.Group.{P2pOp}
use vkccl.Socket.{End, done, error, waiting}
use vkccl.Tcp.Batch.{
  Active, Queues, Answer, advanced, blocked, hung_up, broken, Piece, Visited, slot_of, fill, visit,
  and_then, pass, Round, batch_loop, no_queues, tcp_batch,
}
use vkccl.Reduce.Loops.{update}

-- The addresses of `n` bytes from `a` on.
abbrev pub range : ℕ → ℕ → List ℕ
range a zero = []
range a (suc n) = a ∷ range (a + 1) n

-- The bytes of a slot, in the order of their moves.
abbrev pub bytes_of : ℕ → List Piece → List ℕ
bytes_of s [] = []
bytes_of s (p ∷ ps) = (if p.slot == s then range p.addr p.len else []) ++ bytes_of s ps

-- The bytes that the operations of a slot name, in the order of their issue.
abbrev pub wanted : ℕ → List P2pOp → List ℕ
wanted s [] = []
wanted s (op ∷ ops) = (if slot_of op == s then range op.buf op.bytes else []) ++ wanted s ops

abbrev todo : List Active → List ℕ
todo [] = []
todo (a ∷ q) = range (a.buf + a.done) (a.bytes - a.done) ++ todo q

append_assoc : (xs ys zs : List ℕ) → (xs ++ ys) ++ zs ≡ xs ++ (ys ++ zs)
append_assoc [] ys zs = refl
append_assoc (x ∷ xs) ys zs = ap (λ t. x ∷ t) (append_assoc xs ys zs)

append_nil : (xs : List ℕ) → xs ++ [] ≡ xs
append_nil [] = refl
append_nil (x ∷ xs) = ap (λ t. x ∷ t) (append_nil xs)

bytes_of-append :
    (s : ℕ) (ps qs : List Piece) → bytes_of s (ps ++ qs) ≡ bytes_of s ps ++ bytes_of s qs
bytes_of-append s [] qs = refl
bytes_of-append s (p ∷ ps) qs =
    ap (λ t. (if p.slot == s then range p.addr p.len else []) ++ t) (bytes_of-append s ps qs)
    ∙ sym (
        append_assoc (if p.slot == s then range p.addr p.len else []) (bytes_of s ps)
          (bytes_of s qs))

range_split : (a m n : ℕ) → range a (m + n) ≡ range a m ++ range (a + m) n
range_split a zero n =
    let e₁ : 0 + n ≡ n = omega arith in let e₂ : a + 0 ≡ a = omega arith in rw (e₁, e₂) refl
range_split a (suc m) n =
    let e₁ : suc m + n ≡ suc (m + n) = omega arith in
    let e₂ : a + suc m ≡ a + 1 + m = omega arith in
    rw (e₁, e₂) (ap (λ t. a ∷ t) (range_split (a + 1) m n))

some_inj : {X : Type 0} {x y : X} → some x ≡ some y → x ≡ y
some_inj {x = x} e = ap (λ o. elim o [ none ↦ x | some z ↦ z ]) e

own_slot : (s : ℕ) (xs : List ℕ) → (if s == s then xs else []) ≡ xs
own_slot s xs = ground arith

-- A visit moves the first bytes that are left.
abbrev Moves : ℕ → List Active → Visited (List Active) → Type 0
Moves slot q v =
    (bytes_of slot v.pieces ++ todo v.left ≡ todo q)
    × ((s : ℕ) → s ≢ slot → bytes_of s v.pieces ≡ [])
    × (length v.left + v.finished ≡ length q)

idle :
    (slot : ℕ) (q : List Active)
    → Moves slot q (record { left = q; progressed = false; pieces = []; finished = 0 })
idle slot q = (refl, (λ s h. refl), omega arith)

other_slot : (s slot : ℕ) (xs : List ℕ) → s ≢ slot → (if slot == s then xs else []) ++ [] ≡ []
other_slot s slot xs h = let e : (slot == s) ≡ false = ground (arith, h) in rw e refl

visit_lem :
    (slot : ℕ) (answer : Answer) (q : List Active) (v : Visited (List Active))
    → visit slot answer q ≡ some v
    → Moves slot q v
unfolding visit
visit_lem slot answer [] v e = subst (Moves slot []) (some_inj e) (idle slot [])
visit_lem slot blocked (a ∷ q) v e = subst (Moves slot (a ∷ q)) (some_inj e) (idle slot (a ∷ q))
visit_lem slot hung_up (a ∷ q) v e = absurd (ground (arith, e))
visit_lem slot broken (a ∷ q) v e = absurd (ground (arith, e))
visit_lem slot (advanced j) (a ∷ q) v e =
    let k : ℕ = min (suc j) (a.bytes - a.done) in
    let here : ℕ = a.buf + a.done in
    let out = λ (s : ℕ) (h : s ≢ slot). other_slot s slot (range here k) h in
    let own : (if slot == slot then range here k else []) ++ [] ≡ range here k =
      append_nil (if slot == slot then range here k else []) ∙ own_slot slot (range here k) in
    elim (Bool-cases (a.done + k == a.bytes)) [
      | inl f ↦
          let n : k ≡ a.bytes - a.done = ground (arith, f) in
          subst (Moves slot (a ∷ q)) (some_inj (rw f at e))
            (ap (λ t. t ++ todo q) own ∙ ap (λ x. range here x ++ todo q) n, out, omega arith)
      | inr f ↦
          let n : k + (a.bytes - (a.done + k)) ≡ a.bytes - a.done = omega arith in
          let b : a.buf + (a.done + k) ≡ here + k = omega arith in
          subst (Moves slot (a ∷ q)) (some_inj (rw f at e)) (
            ap (λ t. t ++ (range (a.buf + (a.done + k)) (a.bytes - (a.done + k)) ++ todo q)) own
                ∙ sym (
                    append_assoc (range here k)
                      (range (a.buf + (a.done + k)) (a.bytes - (a.done + k))) (todo q))
                ∙ ap (λ x. (range here k ++ range x (a.bytes - (a.done + k))) ++ todo q) b
                ∙ ap (λ t. t ++ todo q) (sym (range_split here k (a.bytes - (a.done + k))))
                ∙ ap (λ x. range here x ++ todo q) n,
            out,
            omega arith,
          )
    ]

update_other : (qs : Queues) (i s : ℕ) (q : List Active) → s ≢ i → update qs i q s ≡ qs s
update_other qs i s q ne = ground (arith, ne)

-- The operations in `left` queues from `i` on.
abbrev total : ℕ → ℕ → Queues → ℕ
total i zero qs = 0
total i (suc left) qs = length (qs i) + total (i + 1) left qs

total-same :
    (i left : ℕ) (qs qs' : Queues)
    → ((s : ℕ) → i ≤ s → qs s ≡ qs' s)
    → total i left qs ≡ total i left qs'
total-same i zero qs qs' h = refl
total-same i (suc left) qs qs' h = omega (
  arith,
  ap length (h i (omega arith)),
  total-same (i + 1) left qs qs' (λ s l. h s (omega arith)),
)

-- A pass moves, in each of its slots, the first bytes that are left.
abbrev Passes : ℕ → ℕ → Queues → Visited Queues → Type 0
Passes i left qs v =
    ((s : ℕ) → bytes_of s v.pieces ++ todo (v.left s) ≡ todo (qs s))
    × ((s : ℕ) → s < i → (bytes_of s v.pieces ≡ []) × (v.left s ≡ qs s))
    × (total i left v.left + v.finished ≡ total i left qs)

joined :
    (i left : ℕ) (qs : Queues) (u : Visited (List Active)) (r : Visited Queues)
    → Moves i (qs i) u
    → Passes (i + 1) left (update qs i u.left) r
    → Passes i (suc left) qs (record {
      left = r.left;
      progressed = u.progressed || r.progressed;
      pieces = u.pieces ++ r.pieces;
      finished = u.finished + r.finished;
    })
joined i left qs u r (m₁, m₂, m₃) (p₁, p₂, p₃) =
    let qs₁ : Queues = update qs i u.left in
    let (quiet, kept) = p₂ i (omega arith) in
    let here : qs₁ i ≡ u.left = ground arith in
    let there = λ (s : ℕ) (ne : s ≢ i). update_other qs i s u.left ne in
    let both = λ (s : ℕ). bytes_of-append s u.pieces r.pieces in
    (
      (λ s. elim (ℕ_discrete s i) [
        | yes e ↦ rw e (
            ap (λ t. t ++ todo (r.left i)) (both i)
            ∙ ap (λ t. (bytes_of i u.pieces ++ t) ++ todo (r.left i)) quiet
            ∙ ap (λ t. t ++ todo (r.left i)) (append_nil (bytes_of i u.pieces))
            ∙ ap (λ q. bytes_of i u.pieces ++ todo q) (kept ∙ here)
            ∙ m₁)
        | no ne ↦
            ap (λ t. t ++ todo (r.left s)) (both s)
            ∙ ap (λ t. (t ++ bytes_of s r.pieces) ++ todo (r.left s)) (m₂ s ne)
            ∙ p₁ s
            ∙ ap todo (there s ne)
      ]),
      (λ s l.
          let ne : s ≢ i = omega arith in
          let (a, b) = p₂ s (omega arith) in
          (both s ∙ ap (λ t. t ++ bytes_of s r.pieces) (m₂ s ne) ∙ a, b ∙ there s ne)),
      omega (
        arith,
        p₃,
        m₃,
        ap length (kept ∙ here),
        total-same (i + 1) left qs₁ qs (λ s l. there s (omega arith)),
      ),
    )

pass_lem :
    (answers : ℕ → Answer) (i left : ℕ) (qs : Queues) (v : Visited Queues)
    → pass answers i left qs ≡ some v
    → Passes i left qs v
unfolding pass and_then
pass_lem answers i zero qs v e =
    subst (Passes i zero qs) (some_inj e) ((λ s. refl), (λ s h. (refl, refl)), omega arith)
pass_lem answers i (suc left) qs v e = elim (Option-cases (visit i (answers i) (qs i))) [
  | inl z ↦ absurd (ground (arith, (rw z at e)))
  | inr (u, z) ↦
      let qs₁ : Queues = update qs i u.left in
      elim (Option-cases (pass answers (i + 1) left qs₁)) [
        | inl y ↦ absurd (ground (arith, (rw (z, y) at e)))
        | inr (r, y) ↦ subst (Passes i (suc left) qs) (some_inj (rw (z, y) at e)) (
            joined i left qs u r (visit_lem i (answers i) (qs i) u z)
              (pass_lem answers (i + 1) left qs₁ r y))
      ]
]

-- What a slot has moved, and what is left of it.
abbrev Accounts : (ℕ → List ℕ) → ℕ → Queues → ℕ → List Piece → Type 0
Accounts all nranks qs remaining log =
    ((s : ℕ) → bytes_of s log ++ todo (qs s) ≡ all s) × (total 0 (2 * nranks) qs ≡ remaining)

-- No queue has an operation left.
total-zero :
    (i left : ℕ) (qs : Queues) (s : ℕ)
    → total i left qs ≡ 0
    → i ≤ s
    → s < i + left
    → todo (qs s) ≡ []
total-zero i zero qs s h a b = absurd (omega arith)
total-zero i (suc left) qs s h a b = elim (ℕ_discrete s i) [
  | yes e ↦ rw e (empty (qs i) (omega (arith, h)))
  | no ne ↦ total-zero (i + 1) left qs s (omega (arith, h)) (omega arith) (omega arith)
]
  where
    empty : (q : List Active) → length q ≡ 0 → todo q ≡ []
    empty [] h = refl
    empty (a ∷ q) h = absurd (omega (arith, h))

all_moved :
    (all : ℕ → List ℕ) (nranks : ℕ) (qs : Queues) (remaining : ℕ) (log : List Piece)
    → Accounts all nranks qs remaining log
    → remaining ≡ 0
    → (s : ℕ) → s < 2 * nranks
    → bytes_of s log ≡ all s
all_moved all nranks qs remaining log (h, t) z s l =
    sym (append_nil (bytes_of s log))
    ∙ ap (λ u. bytes_of s log ++ u)
        (sym (total-zero 0 (2 * nranks) qs s (omega (arith, t, z)) (omega arith) (omega arith)))
    ∙ h s

abbrev is_done : End → Bool
is_done done = true
is_done error = false
is_done waiting = false

not_done :
    {X : Type 0} (end : End) (log out : List Piece)
    → is_done end ≡ false
    → ◌≡◌ {A = End × List Piece} (end, log) (done, out)
    → X
not_done end log out f e = absurd (false≢true (sym f ∙ ap (λ x. is_done x.0) e))

next_round :
    (all : ℕ → List ℕ) (nranks : ℕ) (qs : Queues) (remaining : ℕ) (log : List Piece)
    (v : Visited Queues)
    → Accounts all nranks qs remaining log
    → Passes 0 (2 * nranks) qs v
    → Accounts all nranks v.left (remaining - v.finished) (log ++ v.pieces)
next_round all nranks qs remaining log v (h, t) (p₁, p₂, p₃) = (
  (λ s.
      ap (λ u. u ++ todo (v.left s)) (bytes_of-append s log v.pieces)
      ∙ append_assoc (bytes_of s log) (bytes_of s v.pieces) (todo (v.left s))
      ∙ ap (λ u. bytes_of s log ++ u) (p₁ s)
      ∙ h s),
  omega (arith, p₃, t),
)

batch_loop_lem :
    (all : ℕ → List ℕ) (nranks : ℕ) (ts : List Round) (qs : Queues) (remaining : ℕ)
    (log out : List Piece)
    → Accounts all nranks qs remaining log
    → batch_loop nranks ts qs remaining log ≡ (done, out)
    → (s : ℕ) → s < 2 * nranks
    → bytes_of s out ≡ all s
unfolding batch_loop
batch_loop_lem all nranks [] qs remaining log out h e s l = elim (Bool-cases (ltb 0 remaining)) [
  | inl f ↦ not_done waiting log out refl (rw f at e)
  | inr f ↦
      let same : log ≡ out = ap (λ x. x.1) (rw f at e) in
      rw (sym same) (all_moved all nranks qs remaining log h (ground (arith, f)) s l)
]
batch_loop_lem all nranks (t ∷ ts) qs remaining log out h e s l =
    elim (Bool-cases (ltb 0 remaining)) [
      | inr f ↦
          let same : log ≡ out = ap (λ x. x.1) (rw f at e) in
          rw (sym same) (all_moved all nranks qs remaining log h (ground (arith, f)) s l)
      | inl f ↦ elim (Option-cases (pass t.answers 0 (2 * nranks) qs)) [
        | inl z ↦ not_done error log out refl (rw (f, z) at e)
        | inr (v, z) ↦ elim (Bool-cases t.aborted) [
          | inl a ↦ not_done error (log ++ v.pieces) out refl (rw (f, z, a) at e)
          | inr a ↦ elim (Bool-cases (not v.progressed && (t.poll_failed || t.expired))) [
            | inl b ↦ not_done error (log ++ v.pieces) out refl (rw (f, z, a, b) at e)
            | inr b ↦
                batch_loop_lem all nranks ts v.left (remaining - v.finished) (log ++ v.pieces) out
                  (next_round all nranks qs remaining log v h
                    (pass_lem t.answers 0 (2 * nranks) qs v z))
                  (rw (f, z, a, b) at e) s l
          ]
        ]
      ]
    ]

-- Every peer is a rank.
abbrev pub AllPeers : ℕ → List P2pOp → Type 0
AllPeers nranks [] = Unit
AllPeers nranks (op ∷ ops) = (op.peer < nranks) × AllPeers nranks ops

nothing : (b : Bool) (a n : ℕ) → n ≡ 0 → (if b then range a n else []) ≡ []
nothing true a n h = rw h refl
nothing false a n h = refl

slot_lt : (nranks : ℕ) (op : P2pOp) → op.peer < nranks → slot_of op < 2 * nranks
slot_lt nranks op h = ground (arith, h)

total-update :
    (i left : ℕ) (qs : Queues) (s : ℕ) (q : List Active)
    → i ≤ s
    → s < i + left
    → total i left (update qs s q) + length (qs s) ≡ total i left qs + length q
total-update i zero qs s q a b = absurd (omega arith)
total-update i (suc left) qs s q a b = elim (ℕ_discrete i s) [
  | yes e ↦
      let here : update qs s q i ≡ q = ground (arith, e) in
      omega (
        arith,
        ap length here,
        ap (λ k. length (qs k)) e,
        total-same (i + 1) left (update qs s q) qs
            (λ k l. update_other qs s k q (omega (arith, e))),
      )
  | no ne ↦ omega (
    arith,
    ap length (update_other qs s i q ne),
    total-update (i + 1) left qs s q (omega arith) (omega arith),
  )
]

todo-append : (q q' : List Active) → todo (q ++ q') ≡ todo q ++ todo q'
todo-append [] q' = refl
todo-append (a ∷ q) q' =
    ap (λ t. range (a.buf + a.done) (a.bytes - a.done) ++ t) (todo-append q q')
    ∙ sym (append_assoc (range (a.buf + a.done) (a.bytes - a.done)) (todo q) (todo q'))

todo-push :
    (qs : Queues) (slot : ℕ) (a : Active) (s : ℕ)
    → todo (update qs slot (qs slot ++ a ∷ []) s)
      ≡ todo (qs s) ++ (if slot == s then todo (a ∷ []) else [])
todo-push qs slot a s = elim (ℕ_discrete s slot) [
  | yes e ↦
      let here : update qs slot (qs slot ++ a ∷ []) slot ≡ qs slot ++ a ∷ [] = ground arith in
      rw e (
        ap todo here
        ∙ todo-append (qs slot) (a ∷ [])
        ∙ ap (λ u. todo (qs slot) ++ u) (sym (own_slot slot (todo (a ∷ [])))))
  | no ne ↦
      let off : (slot == s) ≡ false = ground (arith, ne) in
      ap todo (update_other qs slot s (qs slot ++ a ∷ []) ne)
      ∙ rw off (sym (append_nil (todo (qs s))))
]

whole_op :
    (op : P2pOp)
    → todo (record { buf = op.buf; bytes = op.bytes; done = 0 } ∷ []) ≡ range op.buf op.bytes
whole_op op =
    let e₁ : op.buf + 0 ≡ op.buf = omega arith in
    let e₂ : op.bytes - 0 ≡ op.bytes = omega arith in
    rw (e₁, e₂) (append_nil (range op.buf op.bytes))

fill_lem :
    (nranks : ℕ) (ops : List P2pOp) (qs : Queues) (remaining : ℕ)
    → total 0 (2 * nranks) qs ≡ remaining
    → AllPeers nranks ops
    → let (qs', remaining') = fill ops qs remaining in
      ((s : ℕ) → todo (qs' s) ≡ todo (qs s) ++ wanted s ops)
      × (total 0 (2 * nranks) qs' ≡ remaining')
unfolding fill
fill_lem nranks [] qs remaining h p = ((λ s. sym (append_nil (todo (qs s)))), h)
fill_lem nranks (op ∷ ops) qs remaining h (lt, p) =
    let slot : ℕ = slot_of op in
    let a : Active = record { buf = op.buf; bytes = op.bytes; done = 0 } in
    let qs₁ : Queues = update qs slot (qs slot ++ a ∷ []) in
    elim (Bool-cases (op.bytes == 0)) [
      | inl z ↦
          let (b, t) = fill_lem nranks ops qs remaining h p in
          let none : op.bytes ≡ 0 = ground (arith, z) in
          let skip = λ (s : ℕ). nothing (slot_of op == s) op.buf op.bytes none in
          (rw z (λ s. b s ∙ ap (λ u. todo (qs s) ++ (u ++ wanted s ops)) (sym (skip s))), rw z t)
      | inr z ↦
          let more : total 0 (2 * nranks) qs₁ ≡ remaining + 1 = omega (
            arith,
            total-update 0 (2 * nranks) qs slot (qs slot ++ a ∷ []) (omega arith)
                (omega (arith, slot_lt nranks op lt)),
            length-append (qs slot) (a ∷ []),
            h,
          ) in
          let (b, t) = fill_lem nranks ops qs₁ (remaining + 1) more p in
          (
            rw z (λ s.
                b s
                ∙ ap (λ u. u ++ wanted s ops) (todo-push qs slot a s)
                ∙ append_assoc (todo (qs s)) (if slot == s then todo (a ∷ []) else [])
                    (wanted s ops)
                ∙ ap (λ u. todo (qs s) ++ ((if slot == s then u else []) ++ wanted s ops))
                    (whole_op op)),
            rw z t,
          )
    ]

empty_total : (i left : ℕ) → total i left no_queues ≡ 0
empty_total i zero = refl
empty_total i (suc left) = omega (arith, empty_total (i + 1) left)

-- For operations whose peers are ranks, whatever the system answers: when `batch` ends with
-- success, what has gone through each socket in each direction is, byte by byte, the buffers of its
-- operations in the order of their issue.
pub tcp_batch_lem :
    (nranks : ℕ) (rounds : List Round) (ops : List P2pOp) (out : List Piece)
    → AllPeers nranks ops
    → tcp_batch nranks rounds ops ≡ (done, out)
    → (s : ℕ) → s < 2 * nranks
    → bytes_of s out ≡ wanted s ops
unfolding tcp_batch
tcp_batch_lem nranks rounds ops out p e s l =
    let (b, t) = fill_lem nranks ops no_queues 0 (empty_total 0 (2 * nranks)) p in
    batch_loop_lem (λ s. wanted s ops) nranks rounds (fill ops no_queues 0).0
      (fill ops no_queues 0).1 [] out (b, t) e s l
