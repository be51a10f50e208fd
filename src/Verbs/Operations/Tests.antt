-- ===== src/Verbs/Operations/Tests.antt =====
-- src/transport/verbs.cc: two ranks, a staged region of 64 bytes at 1000 with its buffer at 5000, and a NIC
-- that writes 7 into the first half of that buffer.
use vkccl.Prelude.{
  ℕ, ◌+◌, ◌<◌, ◌≡◌, refl, sym, ap, ◌∙◌, ◌&&◌, ltb, leb, if◌then◌else◌, true, false, some, [], ◌∷◌,
  arith,
}
use vkccl.Verbs.Regions.{Region, region, Resolved}
use vkccl.Verbs.Segments.{Segment, segments}
use vkccl.Verbs.Completions.{receive, sent, reaped, Signals, poll_once, poll_peer}
use vkccl.Net.{Mem}
use vkccl.Verbs.Operations.{
  part_of, Nic, Outcome, ok, fails, Limits, Wire, Transfer, recv, post_recvs,
}
use vkccl.Verbs.Operations.Ends.{Ends}
use vkccl.Verbs.Operations.Cleanup.{receiving, perform, Finished, Failed, call_lem}
use vkccl.Verbs.Operations.Queued.{untouched, WritesWherePosted, staged_recv_lost}

abbrev vram : Region
vram = record { handle = 1; start = 1000; len = 64; staging = some 5000 }

abbrev new_nic : Nic
new_nic = record {
  regs = record { regions = vram ∷ []; pins = [] };
  temps = [];
  copybacks = [];
  pre_posted = λ p. [];
  surplus = λ p. 0;
  mem = λ a. a;
  posts = [];
  posted = [];
}

abbrev limits : Limits
limits = record { max_seg = 16; max_inline = λ p. 8 }

abbrev calm : Signals
calm = record { aborted = false; fatal = false; expired = false }

-- The staging places of both receives are written.
abbrev write_staging : Mem ℕ → Mem ℕ
write_staging m a = if leb 5000 a && ltb a 5032 then 7 else m a

abbrev one_recv : Wire
one_recv = record {
  polls = (reaped (receive ∷ []), calm) ∷ [];
  rounds = [];
  delivered = write_staging;
}

abbrev first : Transfer
first = record { peer = 1; buf = 1000; bytes = 16 }

abbrev second : Transfer
second = record { peer = 1; buf = 1016; bytes = 16 }

abbrev outgoing : Transfer
outgoing = record { peer = 1; buf = 1032; bytes = 16 }

abbrev one_sent : Wire
one_sent = record { polls = (reaped (sent ∷ []), calm) ∷ []; rounds = []; delivered = λ m. m }

abbrev end_of : Outcome (Unit {0}) → Nic
end_of (ok a t) = t
end_of (fails e t) = t
end_of Outcome.blocked = new_nic

-- Two receives posted before; the first is taken; then the second.
queued : Nic
unfolding post_recvs
queued = end_of (post_recvs limits (first ∷ second ∷ []) new_nic)

taken_one : Nic
unfolding recv queued
taken_one = end_of (recv limits first one_recv queued)

taken_both : Nic
unfolding recv taken_one
taken_both = end_of (recv limits second one_recv taken_one)

call_lem_example :
    Ends
      (Finished limits 2 (receiving first one_recv) new_nic)
      (Failed limits 2 new_nic)
      (perform limits 2 (receiving first one_recv) new_nic)
call_lem_example = call_lem limits 2 new_nic (receiving first one_recv)

abbrev placed : Resolved
placed = record { mr = region vram; nic_addr = 5000; bounced = true }

abbrev next_placed : Resolved
next_placed = record { mr = region vram; nic_addr = 5016; bounced = true }

abbrev at_start : Segment
at_start = record { offset = 0; bytes = 16 }

abbrev outgoing_range : Resolved
outgoing_range = record { mr = region vram; nic_addr = 5032; bounced = true }

run_one : perform limits 2 (receiving first one_recv) queued ≡ ok tt taken_one
unfolding perform recv queued taken_one poll_peer poll_once post_recvs segments
run_one = refl

still_queued : taken_one.pre_posted 1 ≡ 1 ∷ []
unfolding taken_one recv queued poll_peer poll_once post_recvs segments
still_queued = refl

run_second : recv limits second one_recv taken_one ≡ ok tt taken_both
unfolding recv taken_both taken_one queued poll_peer poll_once post_recvs segments
run_second = refl

posted_parts :
    taken_one.posted ≡ part_of false 1 placed at_start ∷ part_of false 1 next_placed at_start ∷ []
unfolding taken_one recv queued poll_peer poll_once post_recvs segments
posted_parts = refl

bounced_second : (i : ℕ) → i < 16 → untouched (1016 + i) taken_one.posted ≡ true
unfolding untouched
bounced_second i h = rw posted_parts (ground (arith, h))

staging_only : WritesWherePosted taken_one.posted one_recv.delivered
unfolding untouched
staging_only m a h =
    let free : untouched a
          (part_of false 1 placed at_start ∷ part_of false 1 next_placed at_start ∷ [])
        ≡ true =
      ap (untouched a) (sym posted_parts) ∙ h in
    ground (arith, free)

staged_recv_lost_example :
    ((i : ℕ) → i < 16 → taken_both.mem (1016 + i) ≡ taken_one.mem (1016 + i))
    × (taken_both.posted ≡ taken_one.posted)
staged_recv_lost_example =
    staged_recv_lost limits 2 (receiving first one_recv) queued taken_one taken_both second one_recv
      1 [] refl run_one still_queued (omega arith) bounced_second staging_only run_second
