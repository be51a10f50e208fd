-- ===== src/Verbs/Completions.antt =====
-- src/transport/verbs.cc: how a wait counts completions (`pollOnce`, `takeRecvSurplus`, `pollPeer`, and
-- the two-queue wait of `sendRecv`). What each call of `ibv_poll_cq` answers is an argument.
use vkccl.Prelude.{
  ℕ, suc, ◌+◌, ◌-◌, ◌≤◌, ◌≡◌, ◌⊎◌, refl, Bool, true, false, ◌||◌, List, [], ◌∷◌, Option, none, some,
  arith, ltb, if◌then◌else◌, min, inl, inr, Bool-cases, take, map,
}
use vkccl.Types.{Result, system_error, remote_error}

-- A work completion: one that failed, a receive, or another.
pub data Wc : Type 0 where
  failed receive sent : Wc

-- What the loop sees between two polls: `isAborted`, `drainAsyncFatal` and the deadline.
pub record Signals : Type 0 where
  pub aborted : Bool
  pub fatal : Bool
  pub expired : Bool

-- What a call of `ibv_poll_cq` answers: a failure, or the completions that it reaped.
pub data Poll : Type 0 where
  poll_failed : Poll
  reaped : List Wc → Poll

-- The completions counted, receives and others, or the result of a poll that goes wrong.
pub data Count : Type 0 where
  counted : ℕ → ℕ → Count
  uncounted : Result → Count

-- The loop of `pollOnce` over the completions, `none` where one has failed.
unfoldable pub count_wcs : List Wc → ℕ → ℕ → Option (ℕ × ℕ)
count_wcs [] sends recvs = some (sends, recvs)
count_wcs (failed ∷ wcs) sends recvs = none
count_wcs (receive ∷ wcs) sends recvs = count_wcs wcs sends (recvs + 1)
count_wcs (sent ∷ wcs) sends recvs = count_wcs wcs (sends + 1) recvs

unfoldable pub count_of : Option (ℕ × ℕ) → Count
count_of none = uncounted remote_error
count_of (some (sends, recvs)) = counted sends recvs

-- `pollOnce`
unfoldable pub poll_once : Poll → ℕ → ℕ → Count
unfolding count_wcs count_of
poll_once poll_failed sends recvs = uncounted system_error
poll_once (reaped wcs) sends recvs = count_of (count_wcs wcs sends recvs)

-- `takeRecvSurplus`: how many are still to wait for, and the surplus that stays.
unfoldable pub take_recv_surplus : ℕ → ℕ → ℕ × ℕ
take_recv_surplus surplus want = (want - min want surplus, surplus - min want surplus)

-- How a wait ends, with the receive surplus of its peer; `waiting` is a wait whose polls are used
-- up.
pub data Wait : Type 0 where
  done : ℕ → Wait
  error : Result → Wait
  waiting : Wait

-- The loop of `pollPeer`.
unfoldable pub poll_peer_from : List (Poll × Signals) → ℕ → ℕ → ℕ → ℕ → ℕ → Wait
poll_peer_from [] sends recvs sent_so_far recvd surplus =
    if ltb sent_so_far sends || ltb recvd recvs then waiting else done (surplus + (recvd - recvs))
poll_peer_from ((poll, sig) ∷ polls) sends recvs sent_so_far recvd surplus =
    if ltb sent_so_far sends || ltb recvd recvs
    then elim (poll_once poll sent_so_far recvd) [
      | uncounted e ↦ error e
      | counted s r ↦
          if sig.aborted
          then error system_error
          else if sig.fatal
          then error remote_error
          else if sig.expired
          then error system_error
          else poll_peer_from polls sends recvs s r surplus
    ]
    else done (surplus + (recvd - recvs))

-- `pollPeer` of a peer with the given receive surplus.
unfoldable pub poll_peer : List (Poll × Signals) → ℕ → ℕ → ℕ → Wait
unfolding poll_peer_from take_recv_surplus
poll_peer polls send_wrs recv_wrs surplus =
    let (need, left) = take_recv_surplus surplus recv_wrs in
    poll_peer_from polls send_wrs need 0 0 left

-- One round of the wait of `sendRecv` with two peers: what a poll of the sending peer's queue
-- reaps, and one of the receiving peer's.
pub record Round : Type 0 where
  pub send_queue : Poll
  pub recv_queue : Poll
  pub signals : Signals

-- A poll that is made only while something is missing. Each counts one kind of completion: the
-- pointer for the other is null.
abbrev sends_of : Count → Count
sends_of (counted s r) = counted s 0
sends_of (uncounted e) = uncounted e

abbrev recvs_of : Count → Count
recvs_of (counted s r) = counted 0 r
recvs_of (uncounted e) = uncounted e

poll_sends : Bool → Poll → ℕ → Count
poll_sends false poll n = counted n 0
poll_sends true poll n = sends_of (poll_once poll n 0)

poll_recvs : Bool → Poll → ℕ → Count
poll_recvs false poll n = counted 0 n
poll_recvs true poll n = recvs_of (poll_once poll 0 n)

-- The loop of `sendRecv` for two different peers.
wait_both_from : List Round → ℕ → ℕ → ℕ → ℕ → ℕ → Wait
wait_both_from [] sends recvs sent_so_far recvd surplus =
    if ltb sent_so_far sends || ltb recvd recvs then waiting else done (surplus + (recvd - recvs))
wait_both_from (round ∷ rounds) sends recvs sent_so_far recvd surplus =
    if ltb sent_so_far sends || ltb recvd recvs
    then elim (poll_sends (ltb sent_so_far sends) round.send_queue sent_so_far) [
      | uncounted e ↦ error e
      | counted s _ ↦ elim (poll_recvs (ltb recvd recvs) round.recv_queue recvd) [
        | uncounted e ↦ error e
        | counted _ r ↦
            if round.signals.fatal
            then error remote_error
            else if round.signals.expired
            then error system_error
            else wait_both_from rounds sends recvs s r surplus
      ]
    ]
    else done (surplus + (recvd - recvs))

-- That wait, with the receive surplus of the receiving peer.
pub wait_both : List Round → ℕ → ℕ → ℕ → Wait
unfolding wait_both_from take_recv_surplus
wait_both rounds send_wrs recv_wrs surplus =
    let (need, left) = take_recv_surplus surplus recv_wrs in
    wait_both_from rounds send_wrs need 0 0 left

-- How many receives, and how many others, some polls reaped.
pub receives : List Wc → ℕ
receives [] = 0
receives (receive ∷ wcs) = receives wcs + 1
receives (sent ∷ wcs) = receives wcs
receives (failed ∷ wcs) = receives wcs

pub others : List Wc → ℕ
others [] = 0
others (receive ∷ wcs) = others wcs
others (sent ∷ wcs) = others wcs + 1
others (failed ∷ wcs) = others wcs

-- How many completions of a kind a poll brings.
pub reaped_by : (List Wc → ℕ) → Poll → ℕ
reaped_by f poll_failed = 0
reaped_by f (reaped wcs) = f wcs

pub total : (List Wc → ℕ) → List (Poll × Signals) → ℕ
total f [] = 0
total f ((poll, sig) ∷ polls) = reaped_by f poll + total f polls

count_wcs_lem :
    (wcs : List Wc) (sends recvs s r : ℕ)
    → count_of (count_wcs wcs sends recvs) ≡ counted s r
    → (s ≡ sends + others wcs) × (r ≡ recvs + receives wcs)
unfolding count_wcs count_of others receives
count_wcs_lem [] sends recvs s r e = (ground arith, ground arith)
count_wcs_lem (failed ∷ wcs) sends recvs s r e = cc
count_wcs_lem (receive ∷ wcs) sends recvs s r e =
    omega (arith, count_wcs_lem wcs sends (recvs + 1) s r e)
count_wcs_lem (sent ∷ wcs) sends recvs s r e =
    omega (arith, count_wcs_lem wcs (sends + 1) recvs s r e)

poll_once_lem :
    (poll : Poll) (sends recvs s r : ℕ)
    → poll_once poll sends recvs ≡ counted s r
    → (s ≡ sends + reaped_by others poll) × (r ≡ recvs + reaped_by receives poll)
unfolding poll_once reaped_by
poll_once_lem poll_failed sends recvs s r e = cc
poll_once_lem (reaped wcs) sends recvs s r e = count_wcs_lem wcs sends recvs s r e

Count-cases :
    (c : Count) → ((e : Result) × (c ≡ uncounted e)) ⊎ ((s : ℕ) × (r : ℕ) × (c ≡ counted s r))
Count-cases (uncounted e) = inl (e, refl)
Count-cases (counted s r) = inr (s, r, refl)

-- The polls that a wait used.
abbrev Used : List (Poll × Signals) → ℕ → ℕ → ℕ → ℕ → ℕ → ℕ → Type 0
Used polls sends recvs sent_so_far recvd surplus after =
    (k : ℕ) × (after + recvs ≡ surplus + recvd + total receives (take k polls))
    × (sends ≤ sent_so_far + total others (take k polls))
    × (recvs ≤ recvd + total receives (take k polls))

poll_peer_from_lem :
    (polls : List (Poll × Signals)) (sends recvs sent_so_far recvd surplus after : ℕ)
    → poll_peer_from polls sends recvs sent_so_far recvd surplus ≡ done after
    → Used polls sends recvs sent_so_far recvd surplus after
unfolding poll_peer_from total
poll_peer_from_lem [] sends recvs s r surplus after e =
    (0, ground arith, ground arith, ground arith)
poll_peer_from_lem ((poll, sig) ∷ polls) sends recvs s r surplus after e =
    elim (Bool-cases (ltb s sends || ltb r recvs)) [
      | inr over ↦ (0, ground arith, ground arith, ground arith)
      | inl more ↦ elim (Count-cases (poll_once poll s r)) [
        | inl (bad, e') ↦ absurd (ground arith)
        | inr (s', r', good) ↦
            let (k, kept, enough_sends, enough_recvs) =
              poll_peer_from_lem polls sends recvs s' r' surplus after (ground arith) in
            let (es, er) = poll_once_lem poll s r s' r' good in
            (suc k, omega arith, omega arith, omega arith)
      ]
    ]

-- A wait on one peer loses no completion. When `pollPeer` succeeds, some first `k` of its polls
-- reaped at least the sends asked for, and the receives asked for are made up by the surplus taken
-- and the receives reaped: what is left of both is the surplus afterwards.
pub poll_peer_lem :
    (polls : List (Poll × Signals)) (send_wrs recv_wrs surplus after : ℕ)
    → poll_peer polls send_wrs recv_wrs surplus ≡ done after
    → (k : ℕ) × (after + recv_wrs ≡ surplus + total receives (take k polls))
      × (send_wrs ≤ total others (take k polls))
unfolding poll_peer take_recv_surplus
poll_peer_lem polls send_wrs recv_wrs surplus after e =
    let (k, kept, enough_sends, enough_recvs) =
      poll_peer_from_lem polls send_wrs (recv_wrs - min recv_wrs surplus) 0 0
        (surplus - min recv_wrs surplus) after e in
    (k, omega arith, omega arith)

-- A round with the receives taken out of the sending peer's queue, and with no abort.
pub without_receives : List Wc → List Wc
without_receives [] = []
without_receives (receive ∷ wcs) = without_receives wcs
without_receives (sent ∷ wcs) = sent ∷ without_receives wcs
without_receives (failed ∷ wcs) = failed ∷ without_receives wcs

pub stripped : Poll → Poll
stripped poll_failed = poll_failed
stripped (reaped wcs) = reaped (without_receives wcs)

pub strip : Round → Round
strip round = record {
  send_queue = stripped round.send_queue;
  recv_queue = round.recv_queue;
  signals = record {
    aborted = false;
    fatal = round.signals.fatal;
    expired = round.signals.expired;
  };
}

sends-without :
    (wcs : List Wc) (n r r' : ℕ)
    → sends_of (count_of (count_wcs (without_receives wcs) n r))
      ≡ sends_of (count_of (count_wcs wcs n r'))
unfolding count_wcs count_of without_receives
sends-without [] n r r' = refl
sends-without (failed ∷ wcs) n r r' = refl
sends-without (receive ∷ wcs) n r r' = sends-without wcs n r (r' + 1)
sends-without (sent ∷ wcs) n r r' = sends-without wcs (n + 1) r r'

poll_sends-stripped :
    (b : Bool) (poll : Poll) (n : ℕ) → poll_sends b (stripped poll) n ≡ poll_sends b poll n
unfolding poll_sends poll_once stripped
poll_sends-stripped false poll n = refl
poll_sends-stripped true poll_failed n = refl
poll_sends-stripped true (reaped wcs) n = sends-without wcs n 0 0

wait_both_from-strip :
    (rounds : List Round) (sends recvs s r surplus : ℕ)
    → wait_both_from (map strip rounds) sends recvs s r surplus
      ≡ wait_both_from rounds sends recvs s r surplus
unfolding wait_both_from strip
wait_both_from-strip [] sends recvs s r surplus = refl
wait_both_from-strip (round ∷ rounds) sends recvs s r surplus =
    rw (poll_sends-stripped (ltb s sends) round.send_queue s)
      (elim (Count-cases (poll_sends (ltb s sends) round.send_queue s)) [
        | inl (e', e) ↦ ground arith
        | inr (s', z, e) ↦ elim (Count-cases (poll_recvs (ltb r recvs) round.recv_queue r)) [
          | inl (f', f) ↦ ground arith
          | inr (z', r', f) ↦ ground (arith, wait_both_from-strip rounds sends recvs s' r' surplus)
        ]
      ])

-- The wait of `sendRecv` on two peers does not see two things, whatever the rounds: a receive that
-- completes in the sending peer's queue, which is dropped without a credit, and an abort. With
-- both taken out of every round the wait ends in the same way and with the same surplus.
pub wait_both-strip :
    (rounds : List Round) (send_wrs recv_wrs surplus : ℕ)
    → wait_both (map strip rounds) send_wrs recv_wrs surplus
      ≡ wait_both rounds send_wrs recv_wrs surplus
unfolding wait_both
wait_both-strip rounds send_wrs recv_wrs surplus = wait_both_from-strip rounds send_wrs _ 0 0 _
