-- ===== src/Verbs/Tests.antt =====
-- The RDMA transport in use: one staged region, a range outside it, and completions of two polls.
use vkccl.Prelude.{
  if◌then◌else◌, ℕ, ◌+◌, ◌-◌, ◌≤◌, ◌≡◌, refl, true, false, none, some, List, [], ◌∷◌, ◌++◌, map,
  arith, length, take,
}
use vkccl.Types.{success}
use vkccl.Comm.MrCache.Laws.{Owned}
use vkccl.Comm.MrCache.{cache_get, cache_put}
use vkccl.Comm.MrCache.Scoped.{Scope, scoped_add}
use vkccl.Verbs.Regions.{
  reg_mr, Region, Regions, covers, region, temporary, Resolved, resolve, mr_start, mr_len,
  mr_origin, resolve_lem,
}
use vkccl.Verbs.Registration.{verbs_registrar, scoped_add_again}
use vkccl.Verbs.Segments.{segments, needed_wrs, Covering, segments_lem}
use vkccl.Group.{P2pOp}
use vkccl.Verbs.Waves.{waves, concat, Fit, waves_lem}
use vkccl.Verbs.Completions.{
  poll_once, Poll, reaped, receive, sent, Signals, done, poll_peer, Round, wait_both, receives,
  others, total, poll_peer_lem, strip, wait_both-strip,
}

abbrev staged : Region
staged = record { handle = 1; start = 4096; len = 64; staging = some 100000 }

abbrev pinned : Regions
pinned = record { regions = staged ∷ []; pins = true ∷ true ∷ [] }

abbrev bounced : Resolved
bounced = record { mr = region staged; nic_addr = 100016; bounced = true }

resolved : resolve pinned [] 4112 8 ≡ (some bounced, pinned, [])
unfolding resolve
resolved = refl

resolve_example :
    (mr_start (region staged) ≤ 100016)
    × (100016 + 8 ≤ mr_start (region staged) + mr_len (region staged))
    × (mr_origin (region staged) ≤ 4112)
    × (100016 ≡ mr_start (region staged) + (4112 - mr_origin (region staged)))
    × (pinned.regions ≡ pinned.regions)
    × ([] ≡ (if covers pinned 4112 8 then [] else [] ++ temporary 4112 8 ∷ []))
resolve_example = resolve_lem pinned [] 4112 8 bounced pinned [] resolved

abbrev nothing : Scope verbs_registrar
nothing = record { cache = record { entries = []; clock = 0 }; transport = pinned; handles = [] }

nothing-Owned : Owned verbs_registrar nothing.cache nothing.transport
nothing-Owned = record { distinct = tt; registered = λ h p. ground arith }

abbrev after_add : Scope verbs_registrar
after_add = record {
  cache = record {
    entries = record { addr = 8192; len = 32; handle = 2; seq = 1 } ∷ [];
    clock = 1;
  };
  transport = record {
    regions = staged ∷ record { handle = 2; start = 8192; len = 32; staging = none } ∷ [];
    pins = true ∷ [];
  };
  handles = [];
}

added : scoped_add verbs_registrar 4 8192 32 nothing ≡ (success, after_add)
unfolding scoped_add covers cache_get reg_mr cache_put
added = refl

scoped_add_again_example : scoped_add verbs_registrar 4 8200 8 after_add ≡ (success, after_add)
unfolding cache_get
scoped_add_again_example =
    scoped_add_again 4 8192 32 8200 8 nothing after_add nothing-Owned (omega arith) (omega arith)
      refl added (omega arith) (omega arith)

segments_example : Covering 4 0 10 (segments 4 10) × (length (segments 4 10) ≡ needed_wrs 4 10)
segments_example = segments_lem 4 10 (omega arith)

abbrev calm : Signals
calm = record { aborted = false; fatal = false; expired = false }

abbrev polls : List (Poll × Signals)
polls = (reaped (receive ∷ receive ∷ []), calm) ∷ (reaped (sent ∷ receive ∷ []), calm) ∷ []

waited : poll_peer polls 1 3 1 ≡ done 1
unfolding poll_peer poll_once
waited = refl

poll_peer_example :
    (k : ℕ) × (1 + 3 ≡ 1 + total receives (take k polls)) × (1 ≤ total others (take k polls))
poll_peer_example = poll_peer_lem polls 1 3 1 1 waited

abbrev both : List Round
both =
    record {
      send_queue = reaped (receive ∷ sent ∷ []);
      recv_queue = reaped (receive ∷ []);
      signals = calm;
    }
    ∷ []

wait_both-strip_example : wait_both (map strip both) 1 1 0 ≡ wait_both both 1 1 0
wait_both-strip_example = wait_both-strip both 1 1 0

abbrev send_to : ℕ → ℕ → P2pOp
send_to p n = record { is_send = true; peer = p; buf = 4096; bytes = n }

abbrev sends : List P2pOp
sends = send_to 1 6 ∷ send_to 2 6 ∷ send_to 1 9 ∷ send_to 1 40 ∷ []

waves_example : (concat (waves 4 4 sends) ≡ sends) × Fit 4 4 (waves 4 4 sends)
waves_example = waves_lem 4 4 sends
