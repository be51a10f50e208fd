-- ===== src/Verbs/Operations/Cleanup.antt =====
-- src/transport/verbs.cc: what every call leaves behind, whatever the RDMA library answers.
use vkccl.Prelude.{
  ℕ, ◌≡◌, refl, sym, ◌∙◌, Bool, true, false, not, false≢true, List, [], ◌∷◌, arith, ◌==◌,
  if◌then◌else◌,
}
use vkccl.Verbs.Regions.{Region}
use vkccl.Verbs.Segments.{queue_depth}
use vkccl.Verbs.Waves.{waves, waves-cons, waves-nil}
use vkccl.Verbs.Operations.{
  Nic, Outcome, M, pure, discard_pending, Limits, Wire, Transfer, post_send, take_recv, wait_peer,
  wait_two, send, recv, send_recv, post_each, post_recvs,
}
use vkccl.Group.{P2pOp}
use vkccl.Verbs.Operations.Batch.{WaveWire, run_waves, batch}
use vkccl.Verbs.Operations.Ends.{Ends, Ends-bind, Ends-guarded, Ends-mono}
use vkccl.Verbs.Operations.Steps.{
  Settled, Reset, Same, Tidy, waited-Keeps, post_send-Keeps, taken-Keeps, post_each-Keeps,
  ends_settled, drained, either-Keeps, run_waves-Settled,
}

-- The calls of a transport that post work.
pub data TransportCall : Type 0 where
  sending receiving : Transfer → Wire → TransportCall
  exchanging : Transfer → Transfer → Wire → TransportCall
  batching : List P2pOp → List WaveWire → TransportCall
  posting : List Transfer → TransportCall

-- A call that waits for some work.
abbrev pub waits : TransportCall → Bool
waits (sending q wire) = not (q.bytes == 0)
waits (receiving q wire) = not (q.bytes == 0)
waits (exchanging sq rq wire) = true
waits (batching [] wires) = false
waits (batching (op ∷ ops) wires) = true
waits (posting qs) = false

module _ (lim : Limits) (nranks : ℕ) where
  unfoldable pub perform : TransportCall → M (Unit {0})
  perform (sending q wire) = send lim q wire
  perform (receiving q wire) = recv lim q wire
  perform (exchanging sq rq wire) = send_recv lim sq rq wire
  perform (batching ops wires) = batch lim nranks ops wires
  perform (posting qs) = post_recvs lim qs

  abbrev pub Finished : TransportCall → Nic → Unit {0} → Nic → Type 0
  Finished c s _ u = (u.regs.regions ≡ s.regs.regions) × (waits c ≡ true → Settled u)

  abbrev pub Failed : Nic → Nic → Type 0
  Failed s u = (u.regs.regions ≡ s.regs.regions) × Reset u

  module _ (s : Nic) where
    abbrev rs : List Region
    rs = s.regs.regions

    settle :
        (c : TransportCall) (o : Outcome (Unit {0}))
        → Ends (Tidy rs) (Failed s) o
        → Ends (Finished c s) (Failed s) o
    settle c o h = Ends-mono (Tidy rs) (Finished c s) (Failed s) o h (λ a t (k, l). (k, λ _. l))

    idle_or :
        (c : TransportCall) (b : Bool) (m : M (Unit {0}))
        → waits c ≡ not b
        → Ends (Tidy rs) (Failed s) (m s)
        → Ends (Finished c s) (Failed s) ((if b then pure tt else m) s)
    idle_or c true m e h = (refl, λ t. absurd (ground (arith, e, t)))
    idle_or c false m e h = settle c (m s) h

    either_wait :
        (b : Bool) (wire : Wire) (p q sends recvs : ℕ) (t : Nic)
        → Same rs t
        → Ends
            (λ _. Same rs)
            (Same rs)
            ((if b then wait_peer wire p else wait_two wire q) sends recvs t)
    unfolding wait_peer wait_two
    either_wait true wire p q sends recvs t h = waited-Keeps rs p _ _ h
    either_wait false wire p q sends recvs t h = waited-Keeps rs q _ _ h

    reset_lem : (t : Nic) → Reset (discard_pending t)
    unfolding discard_pending
    reset_lem t = ((refl, refl), (λ p. refl), λ p. refl)

    not_empty : {A : Type 0} {x : A} {xs : List A} → x ∷ xs ≡ [] → Settled s
    not_empty h = absurd (cc)

    -- Whatever the RDMA library answers: no call of a transport makes or drops a region. Where a
    -- call that waits for work returns, no temporary registration is held and no bounced receive is
    -- left to copy out. Where a call fails, that holds too, and no pre-posted receive and no credit
    -- is remembered.
    pub call_lem : (c : TransportCall) → Ends (Finished c s) (Failed s) (perform c s)
    unfolding perform send recv send_recv post_recvs batch wait_peer wait_two take_recv
        discard_pending
    call_lem (sending q wire) = idle_or (sending q wire) (q.bytes == 0) _ refl (
        ends_settled rs lim (post_send lim q) _ s (post_send-Keeps rs lim q s refl)
          λ wrs t k. drained rs lim (wait_peer wire q.peer wrs 0) t (waited-Keeps rs q.peer _ _ k))
    call_lem (receiving q wire) = idle_or (receiving q wire) (q.bytes == 0) _ refl (
        ends_settled rs lim (take_recv lim q) _ s (taken-Keeps rs lim q _ s refl)
          λ wrs t k. drained rs lim (wait_peer wire q.peer 0 wrs) t (waited-Keeps rs q.peer _ _ k))
    call_lem (exchanging sq rq wire) = settle (exchanging sq rq wire) _ (
        ends_settled rs lim (if rq.bytes == 0 then pure 0 else take_recv lim rq) _ s
          (either-Keeps rs lim (rq.bytes == 0) (pure 0) (take_recv lim rq) s refl
            (taken-Keeps rs lim rq _ s refl))
          λ recv_wrs t k.
            Ends-bind (Same rs) (λ _. Same rs) (Tidy rs)
              (if sq.bytes == 0 then pure 0 else post_send lim sq) _ t
              (either-Keeps rs lim (sq.bytes == 0) (pure 0) (post_send lim sq) t k
                (post_send-Keeps rs lim sq t k))
              λ send_wrs u l.
                drained rs lim
                  ((if sq.peer == rq.peer then wait_peer wire sq.peer else wait_two wire rq.peer)
                    send_wrs recv_wrs)
                  u (either_wait (sq.peer == rq.peer) wire sq.peer rq.peer send_wrs recv_wrs u l))
    call_lem (batching [] wires) =
        rw (batch, waves-nil lim.max_seg queue_depth, run_waves) (refl, λ e. absurd (false≢true e))
    call_lem (batching (op ∷ ops) wires) =
        let (w, ws, e) = waves-cons lim.max_seg queue_depth op ops in
        settle (batching (op ∷ ops) wires) _ (
          Ends-guarded (Tidy rs) (Same rs) (Failed s)
            (run_waves lim nranks (waves lim.max_seg queue_depth (op ∷ ops)) wires) s
            (run_waves-Settled rs lim nranks _ wires s refl (λ z. not_empty (sym e ∙ z)))
            (λ t k. (k, reset_lem t)))
    call_lem (posting qs) =
        Ends-mono (λ _. Same rs) (Finished (posting qs) s) (Failed s) _
          (Ends-guarded (λ _. Same rs) (Same rs) (Failed s) (post_each lim qs) s
            (post_each-Keeps rs lim qs s refl) (λ t k. (k, reset_lem t)))
          (λ a t k. (k, λ e. absurd (false≢true e)))
