-- ===== src/Collectives/Api/Checks.antt =====
-- src/core/collectives.cc: what the checks of the entry points ensure.
use mathlib.Core.Option.{some-injective, none-ne-some}
use vkccl.Prelude.{
  ℕ, ◌<◌, ◌≡◌, refl, sym, subst, ap, ◌∙◌, ◌≢◌, inl, inr, true, false, Option, none, some, arith,
  Bool-cases, ℤ, pos, negsuc, to_ℕ,
}
use vkccl.Types.{Result, success, type_size, is_float_type, sum_op, avg_op, num_ops}
use vkccl.Comm.CustomOps.{resolve_op, resolve_op_lem}
use vkccl.Comm.Errors.{check_comm}
use vkccl.Collectives.Api.{
  Comm, Reduction, Args, Call, do_all_gather, do_reduce_scatter, do_all_reduce, do_reduce,
  do_broadcast, do_gather, do_scatter, do_all_to_allv, p2p_op, Request, all_gather, all_to_all,
  reduce_scatter, all_reduce, reduce, broadcast, gather, scatter, all_to_allv, send, recv,
  op_answer, with_op, with_args, with_root, with_peer, entry, request,
}

abbrev Both : Args → Type 0
Both a = (0 < a.sendbuff) × (0 < a.recvbuff) × (0 < type_size a.datatype)

module _ {V : Type 0} where
  -- What the implementation of a call relies on.
  abbrev Reducible : Args → Reduction V → Type 0
  Reducible a r =
      (r.op < num_ops)
      × ((r.op ≡ avg_op) → is_float_type a.datatype ≡ true)
      × ((r.premul ≢ none) → (r.op ≡ sum_op) × (is_float_type a.datatype ≡ true))

  abbrev Rooted : Comm V → Args → ℕ → ℕ → ℕ → Type 0
  Rooted c a buff at_root root =
      (root < c.nranks) × (0 < buff) × ((c.rank ≡ root) → 0 < at_root) × (0 < type_size a.datatype)

  abbrev pub Valid : Comm V → Call V → Type 0
  Valid c (do_all_gather a) = Both a
  Valid c (do_all_to_allv a) = Both a
  Valid c (do_reduce_scatter a r) = Both a × Reducible a r
  Valid c (do_all_reduce a r) = Both a × Reducible a r
  Valid c (do_reduce a r root) = Rooted c a a.sendbuff a.recvbuff root × Reducible a r
  Valid c (do_broadcast a root) = Rooted c a a.recvbuff a.sendbuff root
  Valid c (do_gather a root) = Rooted c a a.sendbuff a.recvbuff root
  Valid c (do_scatter a root) = Rooted c a a.recvbuff a.sendbuff root
  Valid c (p2p_op op) = (op.peer < c.nranks) × (op.peer ≢ c.rank) × (0 < op.buf)

-- What an entry point has checked of its own arguments: the data type has a size, and the tables of
-- `vcclAllToAllv` are given.
abbrev pub Checked : Request → Type 0
Checked (all_gather a) = 0 < type_size a.datatype
Checked (all_to_all a) = 0 < type_size a.datatype
Checked (reduce_scatter a op) = 0 < type_size a.datatype
Checked (all_reduce a op) = 0 < type_size a.datatype
Checked (reduce a op root) = 0 < type_size a.datatype
Checked (broadcast a root) = 0 < type_size a.datatype
Checked (gather a root) = 0 < type_size a.datatype
Checked (scatter a root) = 0 < type_size a.datatype
Checked (all_to_allv a sc sd rc rd) =
    (0 < type_size a.datatype) × (sc ≡ true) × (sd ≡ true) × (rc ≡ true) × (rd ≡ true)
Checked (send a peer) = 0 < type_size a.datatype
Checked (recv a peer) = 0 < type_size a.datatype

module _ {V : Type 0} (run : Call V → Result) where
  same_call :
      (k : Reduction V → Call V) (op : ℕ) (s : Option V) (res : Result) (call : Call V)
      → ◌≡◌ {A = Result × Option (Call V)}
          (run (k (record { op = op; premul = s })), some (k (record { op = op; premul = s })))
          (res, some call)
      → call ≡ k (record { op = op; premul = s })
  same_call k op s res call e = sym (some-injective _ _ (ap (λ x. x.1) e))

  op_answer_inv :
      (c : Comm V) (a : Args) (op : ℤ) (k : Reduction V → Call V)
      (answer : Result × Option (ℕ × Option V)) (res : Result) (call : Call V)
      → resolve_op c.custom_ops a.datatype op ≡ answer
      → op_answer run k answer ≡ (res, some call)
      → (r : Reduction V) × (call ≡ k r) × Reducible a r × (res ≡ run call)
  unfolding op_answer
  op_answer_inv c a op k (success, some (op', s)) res call q e =
      let (small, avg, kind) = resolve_op_lem c.custom_ops a.datatype op op' s q in
      (
        record { op = op'; premul = s },
        same_call k op' s res call e,
        (small, avg, (λ ne. ground arith)),
        sym (ap (λ x. x.0) e) ∙ ap run (sym (same_call k op' s res call e)),
      )
  op_answer_inv c a op k (success, none) res call q e = absurd (ground arith)
  op_answer_inv c a op k (other_, answer) res call q e = absurd (ground arith)

  with_args_inv :
      (a : Args) (k : Result × Option (Call V)) (res : Result) (call : Call V)
      → with_args a k ≡ (res, some call)
      → Both a × (k ≡ (res, some call))
  unfolding with_args
  with_args_inv a k res call e = (ground arith, ground arith)

  with_root_inv :
      (c : Comm V) (a : Args) (buff at_root : ℕ) (root : ℤ) (k : Result × Option (Call V))
      (res : Result) (call : Call V)
      → with_root c a buff at_root root k ≡ (res, some call)
      → Rooted c a buff at_root (to_ℕ root) × (k ≡ (res, some call))
  unfolding with_root
  with_root_inv c a buff at_root (pos root) k res call e = (ground arith, ground arith)
  with_root_inv c a buff at_root (negsuc root) k res call e = absurd (ground arith)

  with_peer_inv :
      (c : Comm V) (a : Args) (buff : ℕ) (peer : ℤ) (k : Result × Option (Call V)) (res : Result)
      (call : Call V)
      → with_peer c a buff peer k ≡ (res, some call)
      → (to_ℕ peer < c.nranks)
        × (to_ℕ peer ≢ c.rank)
        × (0 < buff)
        × (0 < type_size a.datatype)
        × (k ≡ (res, some call))
  unfolding with_peer
  with_peer_inv c a buff (pos peer) k res call e =
      (ground arith, ground arith, ground arith, ground arith, ground arith)
  with_peer_inv c a buff (negsuc peer) k res call e = absurd (ground arith)

  accepted :
      (c : Comm V) (x call : Call V) (res : Result)
      → ◌≡◌ {A = Result × Option (Call V)} (run x, some x) (res, some call)
      → Valid c x
      → Valid c call × (res ≡ run call)
  accepted c x call res e v =
      let same : x ≡ call = some-injective _ _ (ap (λ y. y.1) e) in
      (subst (Valid c) same v, sym (ap (λ y. y.0) e) ∙ ap run same)

  reduction :
      (c : Comm V) (a : Args) (op : ℤ) (k : Reduction V → Call V) (res : Result) (call : Call V)
      → with_op run c a op k ≡ (res, some call)
      → ((r : Reduction V) → Reducible a r → Valid c (k r))
      → Valid c call × (res ≡ run call)
  unfolding with_op
  reduction c a op k res call e v =
      let (r, same, ok, good) =
        op_answer_inv c a op k (resolve_op c.custom_ops a.datatype op) res call refl e in
      (subst (Valid c) (sym same) (v r ok), good)

  and_checked : {A B C : Type 0} → A × B → C → A × B × C
  and_checked (a, b) c = (a, b, c)

  entry-Valid :
      (c : Comm V) (r : Request) (res : Result) (call : Call V)
      → entry run c r ≡ (res, some call)
      → Valid c call × (res ≡ run call) × Checked r
  unfolding entry
  entry-Valid c (all_gather a) res call e =
      let (b, k) = with_args_inv a _ res call e in
      and_checked (accepted c (do_all_gather a) call res k b) b.2
  entry-Valid c (all_to_all a) res call e =
      let (b, k) = with_args_inv a _ res call e in
      and_checked (accepted c (do_all_to_allv a) call res k b) b.2
  entry-Valid c (reduce_scatter a op) res call e =
      let (b, k) = with_args_inv a _ res call e in
      and_checked (reduction c a op (do_reduce_scatter a) res call k (λ r ok. (b, ok))) b.2
  entry-Valid c (all_reduce a op) res call e =
      let (b, k) = with_args_inv a _ res call e in
      and_checked (reduction c a op (do_all_reduce a) res call k (λ r ok. (b, ok))) b.2
  entry-Valid c (reduce a op root) res call e =
      let (b, k) = with_root_inv c a a.sendbuff a.recvbuff root _ res call e in
      and_checked (reduction c a op (λ r. do_reduce a r (to_ℕ root)) res call k (λ r ok. (b, ok)))
        b.3
  entry-Valid c (broadcast a root) res call e =
      let (b, k) = with_root_inv c a a.recvbuff a.sendbuff root _ res call e in
      and_checked (accepted c (do_broadcast a (to_ℕ root)) call res k b) b.3
  entry-Valid c (gather a root) res call e =
      let (b, k) = with_root_inv c a a.sendbuff a.recvbuff root _ res call e in
      and_checked (accepted c (do_gather a (to_ℕ root)) call res k b) b.3
  entry-Valid c (scatter a root) res call e =
      let (b, k) = with_root_inv c a a.recvbuff a.sendbuff root _ res call e in
      and_checked (accepted c (do_scatter a (to_ℕ root)) call res k b) b.3
  entry-Valid c (all_to_allv a true true true true) res call e =
      let (b, k) = with_args_inv a _ res call e in
      and_checked (accepted c (do_all_to_allv a) call res k b) (b.2, refl, refl, refl, refl)
  entry-Valid c (all_to_allv a sc sd rc rd) res call e =
      let (b, k) = with_args_inv a _ res call e in absurd (none-ne-some call (ap (λ x. x.1) k))
  entry-Valid c (send a peer) res call e =
      let (lt, ne, b, sized, k) = with_peer_inv c a a.sendbuff peer _ res call e in
      and_checked (accepted c _ call res k (lt, ne, b)) sized
  entry-Valid c (recv a peer) res call e =
      let (lt, ne, b, sized, k) = with_peer_inv c a a.recvbuff peer _ res call e in
      and_checked (accepted c _ call res k (lt, ne, b)) sized

-- What a request hands to an implementation is what that relies on, the answer is the result of the
-- implementation, and the communicator is not aborted: the buffers that the rank needs are not null
-- and the data type has a size; a root is a rank, and a peer is another rank; a reduction is by a
-- built-in operator, an average only of floats, and a PreMulSum is a sum of floats; the four tables
-- of `vcclAllToAllv` are given.
pub request_lem :
    {V : Type 0} (run : Call V → Result) (c : Comm V) (r : Request) (res : Result) (call : Call V)
    → request run (some c) r ≡ (res, some call)
    → Valid c call × Checked r × (res ≡ run call) × (c.errors.aborted ≡ false)
unfolding request check_comm
request_lem run c r res call e = elim (Bool-cases c.errors.aborted) [
  | inl dead ↦ absurd (ground arith)
  | inr alive ↦ let (v, ok, ch) = entry-Valid run c r res call (ground arith) in (v, ch, ok, alive)
]
