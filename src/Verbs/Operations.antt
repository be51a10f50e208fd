-- ===== src/Verbs/Operations.antt =====
-- src/transport/verbs.cc: `send`, `recv`, `sendRecv`, `batch` and `postRecvs` with what they post, and
-- the guard that cleans up after a failure. What the RDMA library answers is an argument: whether
-- each coming post succeeds stands in the state, and what a wait sees, with what the NIC has
-- written into memory by its end, comes with each call. Timing counters are left out.
pub mod Batch
pub mod Ends
pub mod Steps
pub mod Cleanup
pub mod Delivery
pub mod Queued
mod Tests
use vkccl.Prelude.{
  ℕ, ◌+◌, Bool, true, false, Option, none, some, List, [], ◌∷◌, ◌++◌, leb, ◌==◌, if◌then◌else◌,
}
use vkccl.Types.{Result, system_error}
use vkccl.Net.{Mem, copy_to}
use vkccl.Verbs.Regions.{Regions, next_pin, later_pins, Mr, Resolved, resolve}
use vkccl.Verbs.Segments.{Segment, segments}
use vkccl.Verbs.Completions.{Poll, Signals, Wait, done, error, poll_peer, Round, wait_both}

-- `Copyback`
pub record Copyback : Type 0 where
  pub dst : ℕ
  pub src : ℕ
  pub len : ℕ

-- A work request that is posted: a send or a receive of a peer, with the address, length and key of
-- its scatter-gather entry; the key is that of a registration, which an inline send has none of.
pub record WorkRequest : Type 0 where
  pub is_send : Bool
  pub peer : ℕ
  pub addr : ℕ
  pub len : ℕ
  pub lkey : Option Mr

-- The state of a `VerbsTransport`, with the memory of the process and the work requests posted.
pub record Nic : Type 0 where
  pub regs : Regions
  pub temps : List Mr
  pub copybacks : List Copyback
  pub pre_posted : ℕ → List ℕ
  pub surplus : ℕ → ℕ
  pub mem : Mem ℕ
  pub posts : List Bool
  pub posted : List WorkRequest

-- How a call ends: with a value, with an error, or it still waits when what it sees is used up.
pub data Outcome (A : Type 0) : Type 0 where
  ok : A → Nic → Outcome A
  fails : Result → Nic → Outcome A
  blocked : Outcome A

abbrev pub M : Type 0 → Type 0
M A = Nic → Outcome A

infixl 5 ◌>>=◌ ◌>>◌
-- `VCCLCHECK`: an error goes on to the caller.
abbrev pub ◌>>=◌ : {A B : Type 0} → M A → (A → M B) → M B
◌>>=◌ m f s = elim (m s) [ ok a t ↦ f a t | fails e t ↦ fails e t | blocked ↦ blocked ]

abbrev pub ◌>>◌ : {B : Type 0} → M (Unit {0}) → M B → M B
m >> k = m >>= λ _. k

abbrev pub pure : {A : Type 0} → A → M A
pure a s = ok a s

abbrev pub at : {A : Type 0} → (ℕ → A) → ℕ → A → ℕ → A
at f p a q = if q == p then a else f q

unfoldable pub flush : List Copyback → Mem ℕ → Mem ℕ
flush [] mem = mem
flush (cb ∷ cbs) mem = flush cbs (copy_to mem cb.dst cb.len (λ i. mem (cb.src + i)))

-- `drainCompleted`
unfoldable pub drain_completed : M (Unit {0})
unfolding flush
drain_completed s = ok tt (record s { mem = flush s.copybacks s.mem; copybacks = []; temps = [] })

-- `discardPending`
unfoldable pub discard_pending : Nic → Nic
discard_pending s = record s { copybacks = []; temps = []; pre_posted = λ p. []; surplus = λ p. 0 }

-- `DrainGuard`: the body of a call, which is committed where it returns.
abbrev pub guarded : {A : Type 0} → M A → M A
guarded m s = elim (m s) [
  | ok a t ↦ ok a t
  | fails e t ↦ fails e (discard_pending t)
  | blocked ↦ blocked
]

-- One work request for each segment; `*wrs` counts those posted.
unfoldable pub post_all : (Segment → WorkRequest) → List Segment → ℕ → M ℕ
post_all request [] wrs s = ok wrs s
post_all request (seg ∷ segs) wrs s =
    let t : Nic = record s { posts = later_pins s.posts } in
    let rest =
      post_all request segs (wrs + 1) (record t { posted = s.posted ++ request seg ∷ [] }) in
    if next_pin s.posts then rest else fails system_error t

-- The request for a segment of a resolved range.
abbrev pub part_of : Bool → ℕ → Resolved → Segment → WorkRequest
part_of is_send peer r seg = record {
  is_send = is_send;
  peer = peer;
  addr = r.nic_addr + seg.offset;
  len = seg.bytes;
  lkey = some r.mr;
}

-- An inline send, of the whole buffer.
abbrev pub inline_of : ℕ → ℕ → Segment → WorkRequest
inline_of peer buf seg = record {
  is_send = true;
  peer = peer;
  addr = buf;
  len = seg.bytes;
  lkey = none;
}

-- `resolve` on the state.
unfoldable pub resolved : Nic → Option Resolved × Regions × List Mr → Outcome Resolved
resolved s (none, regs, temps) = fails system_error (record s { regs = regs; temps = temps })
resolved s (some r, regs, temps) = ok r (record s { regs = regs; temps = temps })

unfoldable pub resolve_range : ℕ → ℕ → M Resolved
unfolding resolved resolve
resolve_range buf bytes s = resolved s (resolve s.regs s.temps buf bytes)

-- memcpy of a bounced send into its staging buffer.
unfoldable pub stage : ℕ → ℕ → Resolved → M (Unit {0})
unfolding copy_to
stage buf bytes r s =
    if r.bounced
    then ok tt (record s { mem = copy_to s.mem r.nic_addr bytes (λ i. s.mem (buf + i)) })
    else ok tt s

unfoldable pub note_copyback : ℕ → ℕ → Resolved → M (Unit {0})
note_copyback buf bytes r s =
    if r.bounced
    then ok tt (record s {
      copybacks = s.copybacks ++ record { dst = buf; src = r.nic_addr; len = bytes } ∷ [];
    })
    else ok tt s

-- What stays the same: the segment size, and the inline threshold of each peer (`maxInline_`).
pub record Limits : Type 0 where
  pub max_seg : ℕ
  pub max_inline : ℕ → ℕ

-- What a call's wait sees, and what the NIC does to memory by its end: for one peer, and for two.
pub record Wire : Type 0 where
  pub polls : List (Poll × Signals)
  pub rounds : List Round
  pub delivered : Mem ℕ → Mem ℕ

-- A peer, a buffer and its length: `RecvReq`, and the arguments of `send` and `recv`.
pub record Transfer : Type 0 where
  pub peer : ℕ
  pub buf : ℕ
  pub bytes : ℕ

module _ (lim : Limits) where
  -- `postSend`; a small payload goes inline, with no registration.
  unfoldable pub post_send : Transfer → M ℕ
  unfolding post_all resolve_range stage
  post_send q s =
      let inline = record { offset = 0; bytes = q.bytes } ∷ [] in
      let long : M ℕ = (do
        r ← resolve_range q.buf q.bytes
        stage q.buf q.bytes r
        post_all (part_of true q.peer r) (segments lim.max_seg q.bytes) 0) in
      if leb q.bytes (lim.max_inline q.peer)
      then post_all (inline_of q.peer q.buf) inline 0 s
      else long s

  -- `postRecv`
  unfoldable pub post_recv : Transfer → M ℕ
  unfolding post_all resolve_range note_copyback
  post_recv q = do
    r ← resolve_range q.buf q.bytes
    note_copyback q.buf q.bytes r
    post_all (part_of false q.peer r) (segments lim.max_seg q.bytes) 0

  -- A receive that was posted before is taken from the front of the peer's queue, else posted now.
  unfoldable pub taken : Transfer → List ℕ → M ℕ
  unfolding post_recv
  taken q [] s = post_recv q s
  taken q (wrs ∷ rest) s = ok wrs (record s { pre_posted = at s.pre_posted q.peer rest })

  unfoldable pub take_recv : Transfer → M ℕ
  unfolding taken
  take_recv q s = taken q (s.pre_posted q.peer) s

-- The end of a wait, with the receive surplus of its peer.
unfoldable pub waited : ℕ → Wait → M (Unit {0})
waited peer (done left) s = ok tt (record s { surplus = at s.surplus peer left })
waited peer (error e) s = fails e s
waited peer Wait.waiting s = blocked

-- `pollPeer` on the state.
unfoldable pub wait_peer : Wire → ℕ → ℕ → ℕ → M (Unit {0})
unfolding waited
wait_peer wire peer sends recvs s =
    waited peer (poll_peer wire.polls sends recvs (s.surplus peer))
      (record s { mem = wire.delivered s.mem })

-- The wait of `sendRecv` for two different peers.
unfoldable pub wait_two : Wire → ℕ → ℕ → ℕ → M (Unit {0})
unfolding waited
wait_two wire recv_peer sends recvs s =
    waited recv_peer (wait_both wire.rounds sends recvs (s.surplus recv_peer))
      (record s { mem = wire.delivered s.mem })

module _ (lim : Limits) where
  -- `send`
  unfoldable pub send : Transfer → Wire → M (Unit {0})
  unfolding post_send wait_peer drain_completed discard_pending
  send q wire =
      let body : M (Unit {0}) = (do
        wrs ← post_send lim q
        wait_peer wire q.peer wrs 0
        drain_completed) in
      if q.bytes == 0 then pure tt else guarded body

  -- `recv`
  unfoldable pub recv : Transfer → Wire → M (Unit {0})
  unfolding take_recv wait_peer drain_completed discard_pending
  recv q wire =
      let body : M (Unit {0}) = (do
        wrs ← take_recv lim q
        wait_peer wire q.peer 0 wrs
        drain_completed) in
      if q.bytes == 0 then pure tt else guarded body

  -- `sendRecv`
  unfoldable pub send_recv : Transfer → Transfer → Wire → M (Unit {0})
  unfolding take_recv post_send wait_peer wait_two drain_completed discard_pending
  send_recv sq rq wire =
      let wait : ℕ → ℕ → M (Unit {0}) =
        if sq.peer == rq.peer then wait_peer wire sq.peer else wait_two wire rq.peer in
      guarded (do
        recv_wrs ← (if rq.bytes == 0 then pure 0 else take_recv lim rq)
        send_wrs ← (if sq.bytes == 0 then pure 0 else post_send lim sq)
        wait send_wrs recv_wrs
        drain_completed)

  -- `prePostedRecv_[r.peer].push_back(wrs)`
  unfoldable pub push_posted : ℕ → ℕ → M (Unit {0})
  push_posted peer wrs s =
      ok tt (record s { pre_posted = at s.pre_posted peer (s.pre_posted peer ++ wrs ∷ []) })

  unfoldable pub post_each : List Transfer → M (Unit {0})
  unfolding post_recv push_posted
  post_each [] = pure tt
  post_each (q ∷ qs) =
      let rest = post_each qs in
      let here : M (Unit {0}) = (do wrs ← post_recv lim q; push_posted q.peer wrs; rest) in
      if q.bytes == 0 then rest else here

  -- `postRecvs`
  unfoldable pub post_recvs : List Transfer → M (Unit {0})
  unfolding discard_pending post_each
  post_recvs qs = guarded (post_each qs)
