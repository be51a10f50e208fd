-- ===== src/Verbs/Operations/Delivery.antt =====
-- src/transport/verbs.cc: where the bytes of a transfer are: those of a send when the NIC reads them, and
-- those of a receive when it returns.
use vkccl.Prelude.{
  ℕ, ◌+◌, ◌-◌, ◌≤◌, ◌<◌, ◌≡◌, refl, ap, ◌⊎◌, inl, inr, Bool, true, false, some, map, List, [], ◌∷◌,
  ◌++◌, arith, ◌==◌, if◌then◌else◌,
}
use vkccl.Net.{Mem, copy_to}
use vkccl.Verbs.Regions.{Regions, Mr, mr_start, mr_origin, Resolved, resolve}
use vkccl.Verbs.Segments.{segments}
use vkccl.Verbs.Completions.{Wait, done, error}
use vkccl.Verbs.Operations.{
  Copyback, WorkRequest, part_of, Nic, M, ◌>>=◌, ◌>>◌, pure, flush, drain_completed,
  discard_pending, guarded, Limits, Wire, Transfer, waited, wait_peer,
}
use vkccl.Verbs.Operations.Ends.{Ends, Ends-bind, Ends-guarded, Ends-weaken}

-- What memory holds, the bounced receives to copy out, and the work requests posted.
abbrev pub Has : Mem ℕ → List Copyback → List WorkRequest → Nic → Type 0
Has m cbs ws t = (t.mem ≡ m) × (t.copybacks ≡ cbs) × (t.posted ≡ ws)

-- What memory holds, and the work requests posted.
abbrev pub Left : Mem ℕ → List WorkRequest → Nic → Type 0
Left m ws t = (t.mem ≡ m) × (t.posted ≡ ws)

abbrev pub Holds : Mem ℕ → Nic → Type 0
Holds m t = t.mem ≡ m

module _ (m : Mem ℕ) (cbs : List Copyback) where
  module _ (ws : List WorkRequest) where
    waited-Has :
        (peer : ℕ) (w : Wait) (s : Nic)
        → Has m cbs ws s
        → Ends (λ _. Has m cbs ws) (Holds m) (waited peer w s)
    unfolding waited
    waited-Has peer (done left) s h = h
    waited-Has peer (error e) s h = h.0
    waited-Has peer Wait.waiting s h = tt

    drain-Has :
        (s : Nic) → Has m cbs ws s → Ends (λ _. Left (flush cbs m) ws) (Holds m) (drain_completed s)
    unfolding drain_completed
    drain-Has s h = (rw (h.0, h.1) refl, h.2)

-- The copy that a bounced receive needs.
abbrev copy_out : Transfer → Resolved → List Copyback
copy_out q r =
    if r.bounced then record { dst = q.buf; src = r.nic_addr; len = q.bytes } ∷ [] else []

-- Memory with a bounced send in its staging buffer.
abbrev staged : Transfer → Resolved → Mem ℕ → Mem ℕ
staged q r m = if r.bounced then copy_to m r.nic_addr q.bytes (λ i. m (q.buf + i)) else m

-- Memory after a call that fails: before its wait, or in it.
abbrev pub Either : Wire → Mem ℕ → Nic → Type 0
Either wire m t = (t.mem ≡ m) ⊎ (t.mem ≡ wire.delivered m)

-- The wait of a call after its posts, and what is then copied out.
pub transfer_lem :
    (wire : Wire) (peer : ℕ) (sends recvs : ℕ → ℕ) (post : M ℕ) (m : Mem ℕ) (cbs : List Copyback)
    (ws : List WorkRequest) (s : Nic)
    → Ends (λ _. Has m cbs ws) (Holds m) (post s)
    → Ends
        (λ _. Left (flush cbs (wire.delivered m)) ws)
        (Either wire m)
        (guarded (post >>= λ wrs. wait_peer wire peer (sends wrs) (recvs wrs) >> drain_completed) s)
unfolding wait_peer discard_pending
transfer_lem wire peer sends recvs post m cbs ws s h =
    let after : Mem ℕ = wire.delivered m in
    let over : Unit {0} → Nic → Type 0 = λ _. Left (flush cbs after) ws in
    Ends-guarded over (Either wire m) (Either wire m)
      (post >>= λ wrs. wait_peer wire peer (sends wrs) (recvs wrs) >> drain_completed) s
      (Ends-bind (Either wire m) (λ _. Has m cbs ws) over post _ s
        (Ends-weaken (λ _. Has m cbs ws) (Holds m) (Either wire m) (post s) h (λ t e. inl e))
        λ wrs t k.
          Ends-weaken over (Holds after) (Either wire m) _
            (Ends-bind (Holds after) (λ _. Has after cbs ws) over
              (wait_peer wire peer (sends wrs) (recvs wrs)) (λ _. drain_completed) t
              (waited-Has after cbs ws peer _ _ (ap wire.delivered k.0, k.1, k.2))
              λ _ u l. drain-Has after cbs ws u l)
            (λ u e. inr e))
      (λ t e. e)

-- A nonempty call is its body.
pub nonempty :
    (bytes : ℕ) (m : M (Unit {0})) (P : Unit {0} → Nic → Type 0) (Q : Nic → Type 0) (s : Nic)
    → 0 < bytes
    → Ends P Q (m s)
    → Ends P Q ((if bytes == 0 then pure tt else m) s)
nonempty bytes m P Q s h k = let t : (bytes == 0) ≡ false = ground (arith, h) in rw t k

module _ (lim : Limits) (q : Transfer) (wire : Wire) (s : Nic) (r : Resolved) (regs : Regions)
    (temps : List Mr) (place : resolve s.regs s.temps q.buf q.bytes ≡ (some r, regs, temps))
    (none_pending : s.copybacks ≡ []) where
  -- The work requests of the transfer, after those posted before.
  abbrev pub with_parts : Bool → List WorkRequest
  with_parts is_send = s.posted ++ map (part_of is_send q.peer r) (segments lim.max_seg q.bytes)

  abbrev Noted : Unit {0} → Nic → Type 0
  Noted _ = Has s.mem (copy_out q r) s.posted

  abbrev RecvPosted : ℕ → Nic → Type 0
  RecvPosted _ = Has s.mem (copy_out q r) (with_parts false)

  abbrev SendPosted : ℕ → Nic → Type 0
  SendPosted _ = Has (staged q r s.mem) [] (with_parts true)

  abbrev pub Elsewhere : ℕ → ℕ → Type 0
  Elsewhere start a = (a < start) ⊎ (start + q.bytes ≤ a)

  -- The range that the NIC is given is the one that the buffer has in its registration.
  abbrev pub InPlace : Type 0
  InPlace = r.nic_addr ≡ mr_start r.mr + (q.buf - mr_origin r.mr)

  abbrev pub Received : Unit {0} → Nic → Type 0
  Received _ t =
      (t.posted ≡ with_parts false)
      × ((i : ℕ) → i < q.bytes → t.mem (q.buf + i) ≡ wire.delivered s.mem (r.nic_addr + i))
      × ((a : ℕ) → Elsewhere q.buf a → t.mem a ≡ wire.delivered s.mem a)

  abbrev pub Carried : Unit {0} → Nic → Type 0
  Carried _ t =
      (m : Mem ℕ) × (t.mem ≡ wire.delivered m)
      × (t.posted ≡ with_parts true)
      × ((i : ℕ) → i < q.bytes → m (r.nic_addr + i) ≡ s.mem (q.buf + i))
      × ((a : ℕ) → Elsewhere r.nic_addr a → m a ≡ s.mem a)
