-- ===== src/Verbs/Operations/Queued.antt =====
-- src/transport/verbs.cc: a receive that was posted by `postRecvs` before another call.
use vkccl.Prelude.{ℕ, ◌+◌, ◌<◌, ◌≡◌, refl, ap, ◌∙◌, Bool, true, ◌&&◌, ◌||◌, List, [], ◌∷◌, ltb, leb}
use vkccl.Net.{Mem}
use vkccl.Verbs.Operations.{
  WorkRequest, Nic, ok, flush, Limits, Wire, Transfer, taken, take_recv, recv,
}
use vkccl.Verbs.Operations.Ends.{Ends, Ends-ok}
use vkccl.Verbs.Operations.Cleanup.{TransportCall, waits, perform, Finished, Failed, call_lem}
use vkccl.Verbs.Operations.Delivery.{Left, Either, transfer_lem, nonempty}

-- Whether no receive that is posted names an address.
unfoldable pub untouched : ℕ → List WorkRequest → Bool
untouched a [] = true
untouched a (w ∷ ws) = (w.is_send || ltb a w.addr || leb (w.addr + w.len) a) && untouched a ws

-- What a NIC may do to memory: it writes only where a posted receive names an address.
abbrev pub WritesWherePosted : List WorkRequest → (Mem ℕ → Mem ℕ) → Type 0
WritesWherePosted ws delivered = (m : Mem ℕ) (a : ℕ) → untouched a ws ≡ true → delivered m a ≡ m a

module _ (lim : Limits) (nranks : ℕ) where
  -- A receive that was posted before the call copies nothing out where nothing is noted.
  popped_lem :
      (q : Transfer) (wire : Wire) (s : Nic) (wrs : ℕ) (rest : List ℕ)
      → s.copybacks ≡ []
      → s.pre_posted q.peer ≡ wrs ∷ rest
      → 0 < q.bytes
      → Ends (λ _. Left (wire.delivered s.mem) s.posted) (Either wire s.mem) (recv lim q wire s)
  unfolding recv take_recv flush taken
  popped_lem q wire s wrs rest none_pending queued some_bytes =
      nonempty q.bytes _ _ (Either wire s.mem) s some_bytes (
        transfer_lem wire q.peer (λ wrs. 0) (λ wrs. wrs) (take_recv lim q) s.mem [] s.posted s
          (rw (take_recv, queued, taken) (refl, none_pending, refl)))

  -- A receive that is taken from the queue of its peer after any call that waits for work has
  -- returned, from a buffer that no posted receive names (a bounced one: those of its range name a
  -- staging buffer), on a NIC that writes only where a posted receive names an address: when it
  -- returns, the buffer holds what it held when the receive was called, whatever has arrived in the
  -- staging buffer meanwhile, and no other receive has been posted.
  pub staged_recv_lost :
      (c : TransportCall) (s t u : Nic) (q : Transfer) (wire : Wire) (wrs : ℕ) (rest : List ℕ)
      → waits c ≡ true
      → perform lim nranks c s ≡ ok tt t
      → t.pre_posted q.peer ≡ wrs ∷ rest
      → 0 < q.bytes
      → ((i : ℕ) → i < q.bytes → untouched (q.buf + i) t.posted ≡ true)
      → WritesWherePosted t.posted wire.delivered
      → recv lim q wire t ≡ ok tt u
      → ((i : ℕ) → i < q.bytes → u.mem (q.buf + i) ≡ t.mem (q.buf + i)) × (u.posted ≡ t.posted)
  staged_recv_lost c s t u q wire wrs rest busy returned queued some_bytes bounced nic received =
      let settled =
        (Ends-ok (Finished lim nranks c s) (Failed lim nranks s) (call_lem lim nranks s c)
            returned).1
          busy in
      let (e, posted) =
        Ends-ok (λ _. Left (wire.delivered t.mem) t.posted) (Either wire t.mem)
          (popped_lem q wire t wrs rest settled.1 queued some_bytes) received in
      ((λ i h. ap (λ m. m (q.buf + i)) e ∙ nic t.mem (q.buf + i) (bounced i h)), posted)
