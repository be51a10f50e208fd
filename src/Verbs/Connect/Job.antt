-- ===== src/Verbs/Connect/Job.antt =====
-- src/transport/verbs.cc: `VerbsTransport::create` of all ranks of a job.
use vkccl.Prelude.{
  ℕ, ◌%◌, ◌^◌, ◌<◌, ◌≡◌, ◌≢◌, refl, sym, ap, ◌∙◌, true, not, none, some, List, [], ◌∷◌, arith,
  if◌then◌else◌, min,
}
use vkccl.Types.{Result, is_success, checked}
use vkccl.Bootstrap.Gather.{all_gather, Relayed, all_gather_lem}
use vkccl.Verbs.Connect.{
  Device, QpInfo, to_gid, to_lid, Modify, to_init, to_rtr, to_rts, Endpoint, new_endpoint,
  Responses, note, answered, ask, create_qp, each_peer, local_info, rtr_attr, connect_qp,
  qp_info_swap, wire_row, own_table, exchange_and_connect, create,
}
use vkccl.Verbs.Connect.Pairs.{Ready, each_peer_lem, answered_lem, created_lem, same, other}

-- What a rank asks of the queue pair of a peer whose row in the table is `theirs`.
abbrev steps : Responses → Device → QpInfo → QpInfo → List Modify
steps calls dev mine theirs =
    to_init dev.port ∷ to_rtr (rtr_attr calls dev mine theirs) ∷ to_rts mine.psn ∷ []

module _ (calls : Responses) (dev : Device) where
  connect_qp_lem :
      (mine theirs : QpInfo) (p : ℕ) (s : Endpoint)
      → is_success (connect_qp calls dev mine theirs p s).0 ≡ true
      → (connect_qp calls dev mine theirs p s).1
        ≡ note p (to_rts mine.psn) (note p (to_rtr (rtr_attr calls dev mine theirs)) s)
  unfolding connect_qp ask
  connect_qp_lem mine theirs p s e =
      let m : Modify = to_rtr (rtr_attr calls dev mine theirs) in
      let one : Result × Endpoint = answered (calls.modify p m) p m s in
      let (a, e', b) = checked one.0 one.1 (ask calls p (to_rts mine.psn) one.1) e in
      ap (λ x. x.1) e'
      ∙ answered_lem _ p (to_rts mine.psn) one.1 b
      ∙ ap (note p (to_rts mine.psn)) (answered_lem _ p m s a)

  module _ (rank : ℕ) (made : Endpoint) (all : ℕ → ℕ → QpInfo) where
    abbrev Initial : Endpoint → ℕ → Type 0
    Initial s q = (s.qps q ≡ made.qps q) × (s.asked q ≡ to_init dev.port ∷ [])

    abbrev Connected : Endpoint → ℕ → Type 0
    Connected s q = (s.qps q ≡ made.qps q) × (s.asked q ≡ steps calls dev (all rank q) (all q rank))

    connects :
        (p : ℕ) (s : Endpoint)
        → p ≢ rank
        → is_success (connect_qp calls dev (all rank p) (all p rank) p s).0 ≡ true
        → Initial s p
        → Connected (connect_qp calls dev (all rank p) (all p rank) p s).1 p
          × ((q : ℕ)
              → q ≢ p
              → (Initial s q → Initial (connect_qp calls dev (all rank p) (all p rank) p s).1 q)
                × (Connected s q
                    → Connected (connect_qp calls dev (all rank p) (all p rank) p s).1 q))
    connects p s own e (num, asked) =
        rw (connect_qp_lem (all rank p) (all p rank) p s e)
          ((num, rw (same p, asked) refl), λ q ne. rw (other q p ne) ((λ h. h), (λ h. h)))

module _ (htonl htons : ℕ → ℕ) (calls : Responses) (dev : Device) (nranks rank : ℕ) where
  -- The endpoint of a rank before the exchange.
  abbrev pub before_exchange : Endpoint
  before_exchange = (each_peer (create_qp calls dev) rank 0 nranks new_endpoint).1

  abbrev exchanged : Result × (ℕ → ℕ → QpInfo)
  exchanged =
      all_gather nranks rank calls.gathered (own_table htonl htons calls dev rank before_exchange)

  create_lem :
      is_success (create htonl htons calls dev nranks rank).0 ≡ true
      → (is_success exchanged.0 ≡ true)
        × ((q : ℕ)
            → q < nranks
            → q ≢ rank
            → Ready dev before_exchange q
              × Connected calls dev rank before_exchange
                  (λ r p. qp_info_swap htonl htons (exchanged.1 r p))
                  (create htonl htons calls dev nranks rank).1
                  q)
  unfolding create exchange_and_connect
  create_lem e =
      let all : ℕ → ℕ → QpInfo = λ r p. qp_info_swap htonl htons (exchanged.1 r p) in
      let body : ℕ → Endpoint → Result × Endpoint =
        λ p. connect_qp calls dev (all rank p) (all p rank) p in
      let loop : Result × Endpoint = each_peer body rank 0 nranks before_exchange in
      let (a, ea, e1) =
        checked (each_peer (create_qp calls dev) rank 0 nranks new_endpoint).0 before_exchange
          (exchange_and_connect htonl htons calls dev nranks rank before_exchange exchanged) e in
      let end : Result × Endpoint = ((all_gather nranks rank calls.met (λ r. 0)).0, loop.1) in
      let (b, eb, e2) =
        checked exchanged.0 before_exchange (if not (is_success loop.0) then loop else end) e1 in
      let (c, ec, e3) = checked loop.0 loop.1 end e2 in
      (
        b,
        λ q hq ne.
            let ready : Ready dev before_exchange q = created_lem calls dev rank nranks a q hq ne in
            (
              ready,
              rw (ap (λ x. x.1) (ea ∙ eb ∙ ec)) (
                  each_peer_lem rank body (Initial calls dev rank before_exchange all)
                    (Connected calls dev rank before_exchange all)
                    (connects calls dev rank before_exchange all) 0 nranks before_exchange c
                    (λ q h ne. absurd (omega (arith, h)))
                    (λ q h h' ne.
                      let (n, num, asked) =
                        created_lem calls dev rank nranks a q (omega (arith, h')) ne in
                      (refl, asked))
                    q (omega (arith, hq)) ne),
            ),
      )

-- A job: what the calls of each rank answer, and the device that it has opened.
module _ (htonl htons : ℕ → ℕ) (calls : ℕ → Responses) (dev : ℕ → Device) (nranks : ℕ) where
  -- The entry of rank `r` for its peer `p`, whose queue pair at `r` has number `a`.
  abbrev pub entry : ℕ → ℕ → ℕ → QpInfo
  entry r p a = record {
    qpn = a;
    psn = (calls r).draws p % 2 ^ 24;
    lid = (dev r).lid;
    mtu = (dev r).active_mtu;
    gid = (dev r).gid;
  }

  -- What rank `r` asks of its queue pair `a` for `p`, whose queue pair for `r` is `b`.
  abbrev pub asks : ℕ → ℕ → ℕ → ℕ → List Modify
  asks r p a b =
      to_init (dev r).port
      ∷ to_rtr (record {
        path_mtu = min (dev r).active_mtu (dev p).active_mtu;
        dest_qp_num = b;
        rq_psn = (calls p).draws r % 2 ^ 24;
        min_rnr_timer = elim (calls r).min_rnr_timer [ none ↦ 1 | some t ↦ t % 2 ^ 5 ];
        port = (dev r).port;
        route = if (dev r).roce then to_gid (dev p).gid (dev r).gid_index else to_lid (dev p).lid;
      })
      ∷ to_rts ((calls r).draws p % 2 ^ 24)
      ∷ []

  abbrev pub endpoint : ℕ → Endpoint
  endpoint r = (create htonl htons (calls r) (dev r) nranks r).1

  -- The table that a rank brings to the exchange.
  abbrev pub brought : ℕ → ℕ → ℕ → QpInfo
  brought r =
      own_table htonl htons (calls r) (dev r) r
        (before_exchange htonl htons (calls r) (dev r) nranks r)

  abbrev Opened : Type 0
  Opened =
      ((x : ℕ) → htonl (htonl x) ≡ x)
      × ((x : ℕ) → htons (htons x) ≡ x)
      × Relayed nranks (λ r. (calls r).gathered) brought
      × ((r : ℕ) → r < nranks → is_success (create htonl htons (calls r) (dev r) nranks r).0 ≡ true)

  abbrev Number : ℕ → ℕ → ℕ → Type 0
  Number r p a = (before_exchange htonl htons (calls r) (dev r) nranks r).qps p ≡ some a

  swapped :
      ((x : ℕ) → htonl (htonl x) ≡ x)
      → ((x : ℕ) → htons (htons x) ≡ x)
      → (q : QpInfo) → qp_info_swap htonl htons (qp_info_swap htonl htons q) ≡ q
  unfolding qp_info_swap
  swapped long short q = rw (long q.qpn, long q.psn, short q.lid) refl

  -- The entry that a rank reads in its table.
  entry_lem :
      Opened
      → (at r p a : ℕ) → at < nranks
      → r < nranks
      → p ≢ r
      → Number r p a
      → qp_info_swap htonl htons ((exchanged htonl htons (calls at) (dev at) nranks at).1 r p)
        ≡ entry r p a
  unfolding own_table wire_row local_info
  entry_lem (long, short, relayed, ok) at r p a hat hr ne num =
      ap (λ row. qp_info_swap htonl htons (row p))
        (all_gather_lem nranks (λ r. (calls r).gathered) brought relayed
          (λ r h. (create_lem htonl htons (calls r) (dev r) nranks r (ok r h)).0) at r hat hr)
      ∙ rw (same r, num, other p r ne) (swapped long short (entry r p a))

  -- What a rank asks of its queue pair.
  asks_lem :
      Opened
      → (r p a b : ℕ) → r < nranks
      → p < nranks
      → p ≢ r
      → Number r p a
      → Number p r b
      → ((endpoint r).qps p ≡ some a) × ((endpoint r).asked p ≡ asks r p a b)
  unfolding rtr_attr
  asks_lem opened r p a b hr hp ne mine theirs =
      let (ready, (num, asked)) =
        (create_lem htonl htons (calls r) (dev r) nranks r (opened.3 r hr)).1 p hp ne in
      (
        num ∙ mine,
        asked
            ∙ rw
                (
                  entry_lem opened r r p a hr hr ne mine,
                  entry_lem opened r p r b hr hp (λ e. ne (sym e)) theirs,
                )
                refl,
      )

  -- Where `htonl` and `htons` undo themselves, as they do where the bytes are swapped and where they
  -- are not, the receives of the exchange bring what their peers have sent, and `create` succeeds on
  -- every rank: for any two ranks, each has asked its queue pair for the other to go to INIT on its
  -- port, to RTR with the number of the other's queue pair for it, the other's first packet number,
  -- the smaller MTU of both devices and the address of the other's device, and to RTS with its own
  -- first packet number; so both ends have each other's numbers.
  pub create_job_lem :
      ((x : ℕ) → htonl (htonl x) ≡ x)
      → ((x : ℕ) → htons (htons x) ≡ x)
      → Relayed nranks (λ r. (calls r).gathered) brought
      → ((r : ℕ) → r < nranks → is_success (create htonl htons (calls r) (dev r) nranks r).0 ≡ true)
      → (r p : ℕ) → r < nranks
      → p < nranks
      → r ≢ p
      → (a b : ℕ) × ((endpoint r).qps p ≡ some a)
        × ((endpoint p).qps r ≡ some b)
        × ((endpoint r).asked p ≡ asks r p a b)
        × ((endpoint p).asked r ≡ asks p r b a)
  create_job_lem long short relayed ok r p hr hp ne =
      let opened : Opened = (long, short, relayed, ok) in
      let back : p ≢ r = λ e. ne (sym e) in
      let (a, mine, s) =
        ((create_lem htonl htons (calls r) (dev r) nranks r (ok r hr)).1 p hp back).0 in
      let (b, theirs, t) =
        ((create_lem htonl htons (calls p) (dev p) nranks p (ok p hp)).1 r hr ne).0 in
      let (num, asked) = asks_lem opened r p a b hr hp back mine theirs in
      let (num', asked') = asks_lem opened p r b a hp hr ne theirs mine in
      (a, b, num, num', asked, asked')
