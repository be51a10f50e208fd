-- ===== src/Verbs/Connect.antt =====
-- src/transport/verbs.cc: `VerbsTransport::create`, which gives every pair of ranks a queue pair at
-- each end, exchanges what the other end has to know, and connects them. What the RDMA library, the
-- random numbers and the bootstrap's sockets answer is an argument; `asked` records the changes of
-- a queue pair that `ibv_modify_qp` has accepted. `htonl` and `htons` are parameters.
pub mod Pairs
pub mod Job
mod Tests
use vkccl.Prelude.{
  ℕ, zero, suc, ◌+◌, ◌-◌, ◌%◌, ◌^◌, min, Bool, true, false, not, Option, none, some, List, [], ◌∷◌,
  ◌++◌, ◌==◌, if◌then◌else◌,
}
use vkccl.Types.{Result, success, system_error, is_success}
use vkccl.Bootstrap.Gather.{Answers, all_gather}

-- The part of a `Device` that a connection uses.
pub record Device : Type 0 where
  pub port : ℕ
  pub lid : ℕ
  pub active_mtu : ℕ
  pub gid_index : ℕ
  pub gid : List ℕ
  pub roce : Bool

-- `QpInfo`
pub record QpInfo : Type 0 where
  pub qpn : ℕ
  pub psn : ℕ
  pub lid : ℕ
  pub mtu : ℕ
  pub gid : List ℕ

abbrev pub no_info : QpInfo
no_info = record { qpn = 0; psn = 0; lid = 0; mtu = 0; gid = [] }

-- Where the packets of a connection go.
pub data Route : Type 0 where
  to_gid : List ℕ → ℕ → Route
  to_lid : ℕ → Route

-- The attributes of the step to RTR.
pub record Rtr : Type 0 where
  pub path_mtu : ℕ
  pub dest_qp_num : ℕ
  pub rq_psn : ℕ
  pub min_rnr_timer : ℕ
  pub port : ℕ
  pub route : Route

-- A call of `ibv_modify_qp`: to INIT on a port, to RTR, and to RTS with the sender's number.
pub data Modify : Type 0 where
  to_init : ℕ → Modify
  to_rtr : Rtr → Modify
  to_rts : ℕ → Modify

-- `cqs_`, `qps_` with the numbers of the queue pairs, `maxInline_`, and the changes accepted.
pub record Endpoint : Type 0 where
  pub cqs : ℕ → Option ℕ
  pub qps : ℕ → Option ℕ
  pub max_inline : ℕ → ℕ
  pub asked : ℕ → List Modify

abbrev pub new_endpoint : Endpoint
new_endpoint = record { cqs = λ p. none; qps = λ p. none; max_inline = λ p. 0; asked = λ p. [] }

-- What `ibv_create_cq` answers for a peer, and `ibv_create_qp` with inline data and without: the
-- number of the queue pair and the inline size granted.
pub record Making : Type 0 where
  pub cq : Option ℕ
  pub inlined : Option (ℕ × ℕ)
  pub plain : Option (ℕ × ℕ)

-- What the calls of one rank answer.
pub record Responses : Type 0 where
  pub making : ℕ → Making
  pub modify : ℕ → Modify → Bool
  pub draws : ℕ → ℕ
  pub min_rnr_timer : Option ℕ
  pub gathered : Answers (ℕ → QpInfo)
  pub met : Answers ℕ

-- The change `m` of the queue pair of a peer, where it is accepted.
abbrev pub note : ℕ → Modify → Endpoint → Endpoint
note peer m s = record s { asked = λ p. if p == peer then s.asked peer ++ m ∷ [] else s.asked p }

unfoldable pub answered : Bool → ℕ → Modify → Endpoint → Result × Endpoint
answered true peer m s = (success, note peer m s)
answered false peer m s = (system_error, s)

-- A call of `ibv_modify_qp` on the queue pair of a peer.
unfoldable pub ask : Responses → ℕ → Modify → Endpoint → Result × Endpoint
ask calls peer m s = answered (calls.modify peer m) peer m s

-- The second call of `ibv_create_qp`, where the first has failed.
unfoldable pub made_qp : Making → Option (ℕ × ℕ)
made_qp making = elim making.inlined [ some qp ↦ some qp | none ↦ making.plain ]

-- The end of `createQp`.
unfoldable pub with_qp : Responses → Device → ℕ → Option (ℕ × ℕ) → Endpoint → Result × Endpoint
with_qp calls dev peer none s = (system_error, s)
with_qp calls dev peer (some (qpn, granted)) s = ask calls peer (to_init dev.port) (record s {
  qps = λ p. if p == peer then some qpn else s.qps p;
  max_inline = λ p. if p == peer then granted else s.max_inline p;
})

unfoldable pub with_cq : Responses → Device → ℕ → Option ℕ → Endpoint → Result × Endpoint
with_cq calls dev peer none s = (system_error, s)
with_cq calls dev peer (some cq) s =
    with_qp calls dev peer (made_qp (calls.making peer))
      (record s { cqs = λ p. if p == peer then some cq else s.cqs p })

-- `createQp`
unfoldable pub create_qp : Responses → Device → ℕ → Endpoint → Result × Endpoint
create_qp calls dev peer s = with_cq calls dev peer (calls.making peer).cq s

-- A loop of `create` over the peers, with the peers left, that stops where the body fails.
unfoldable pub each_peer :
    (ℕ → Endpoint → Result × Endpoint) → ℕ → ℕ → ℕ → Endpoint → Result × Endpoint
each_peer body rank p zero s = (success, s)
each_peer body rank p (suc left) s =
    let (res, s') = body p s in
    let skip = each_peer body rank (p + 1) left s in
    let rest = each_peer body rank (p + 1) left s' in
    if p == rank then skip else if not (is_success res) then (res, s') else rest

-- The entry of `local` for a peer.
unfoldable pub local_info : Responses → Device → ℕ → ℕ → Option ℕ → QpInfo
local_info calls dev rank p none = no_info
local_info calls dev rank p (some qpn) = if p == rank then no_info else record {
  qpn = qpn;
  psn = calls.draws p % 2 ^ 24;
  lid = dev.lid;
  mtu = dev.active_mtu;
  gid = dev.gid;
}

-- The attributes of the step to RTR; `VCCL_MIN_RNR_TIMER` may choose the timer.
unfoldable pub rtr_attr : Responses → Device → QpInfo → QpInfo → Rtr
rtr_attr calls dev mine theirs = record {
  path_mtu = min mine.mtu theirs.mtu;
  dest_qp_num = theirs.qpn;
  rq_psn = theirs.psn;
  min_rnr_timer = elim calls.min_rnr_timer [ none ↦ 1 | some t ↦ t % 2 ^ 5 ];
  port = dev.port;
  route = if dev.roce then to_gid theirs.gid dev.gid_index else to_lid theirs.lid;
}

-- `connectQp`
unfoldable pub connect_qp : Responses → Device → QpInfo → QpInfo → ℕ → Endpoint → Result × Endpoint
connect_qp calls dev mine theirs peer s =
    let (res, s') = ask calls peer (to_rtr (rtr_attr calls dev mine theirs)) s in
    if not (is_success res) then (res, s') else ask calls peer (to_rts mine.psn) s'

module _ (htonl htons : ℕ → ℕ) where
  -- `qpInfoSwap`
  unfoldable pub qp_info_swap : QpInfo → QpInfo
  qp_info_swap q = record q { qpn = htonl q.qpn; psn = htonl q.psn; lid = htons q.lid }

  -- The row of `all` that a rank brings to the exchange.
  unfoldable pub wire_row : Responses → Device → ℕ → Endpoint → ℕ → QpInfo
  wire_row calls dev rank s p =
      let info = local_info calls dev rank p (s.qps p) in
      if p == rank then info else qp_info_swap info

  -- The buffer that a rank brings to the exchange.
  unfoldable pub own_table : Responses → Device → ℕ → Endpoint → ℕ → ℕ → QpInfo
  own_table calls dev rank s r = if r == rank then wire_row calls dev rank s else λ p. no_info

  -- `create` after the queue pairs, with the table after the exchange.
  unfoldable pub exchange_and_connect :
      Responses → Device → ℕ → ℕ → Endpoint → Result × (ℕ → ℕ → QpInfo) → Result × Endpoint
  exchange_and_connect calls dev nranks rank s (res, all) =
      let (res', s') =
        each_peer
          (λ p. connect_qp calls dev (qp_info_swap (all rank p)) (qp_info_swap (all p rank)) p) rank
          0 nranks s in
      let barrier = all_gather nranks rank calls.met (λ r. 0) in
      if not (is_success res)
      then (res, s)
      else if not (is_success res')
      then (res', s')
      else (barrier.0, s')

  -- `VerbsTransport::create`, after `openDevice`.
  unfoldable pub create : Responses → Device → ℕ → ℕ → Result × Endpoint
  create calls dev nranks rank =
      let (res, s) = each_peer (create_qp calls dev) rank 0 nranks new_endpoint in
      let rest =
        exchange_and_connect calls dev nranks rank s
          (all_gather nranks rank calls.gathered (own_table calls dev rank s)) in
      if not (is_success res) then (res, s) else rest
