-- ===== src/Verbs/Connect/Pairs.antt =====
-- src/transport/verbs.cc: the two ends of a pair of ranks after `VerbsTransport::create`.
use vkccl.Prelude.{
  ℕ, zero, suc, ◌+◌, ◌≤◌, ◌<◌, ◌≡◌, ◌≢◌, refl, sym, ap, ◌∙◌, inl, inr, Bool, true, false, not,
  false≢true, Option, none, some, [], ◌∷◌, arith, ℕ_discrete, ◌==◌, if◌then◌else◌, Bool-cases,
}
use vkccl.Types.{Result, is_success, checked}
use vkccl.Verbs.Connect.{
  Device, Modify, to_init, Endpoint, new_endpoint, Responses, note, answered, ask, made_qp, with_qp,
  with_cq, create_qp, each_peer,
}

-- A queue pair with a number, in INIT.
abbrev pub Ready : Device → Endpoint → ℕ → Type 0
Ready dev s q = (qpn : ℕ) × (s.qps q ≡ some qpn) × (s.asked q ≡ to_init dev.port ∷ [])

-- The queue pair of `q` is the same in both states.
abbrev pub Kept : Endpoint → Endpoint → ℕ → Type 0
Kept s t q = (t.qps q ≡ s.qps q) × (t.asked q ≡ s.asked q)

-- A loop over the peers, whose body takes a peer that is `Before` to one that is `After` and keeps
-- the other peers: where it succeeds, all peers are `After`.
module _ (rank : ℕ) (body : ℕ → Endpoint → Result × Endpoint) (Before After : Endpoint → ℕ → Type 0)
    (step : (p : ℕ) (s : Endpoint)
      → p ≢ rank
      → is_success (body p s).0 ≡ true
      → Before s p
      → After (body p s).1 p
        × ((q : ℕ)
            → q ≢ p
            → (Before s q → Before (body p s).1 q) × (After s q → After (body p s).1 q))) where
  pub each_peer_lem :
      (p left : ℕ) (s : Endpoint)
      → is_success (each_peer body rank p left s).0 ≡ true
      → ((q : ℕ) → q < p → q ≢ rank → After s q)
      → ((q : ℕ) → p ≤ q → q < p + left → q ≢ rank → Before s q)
      → (q : ℕ) → q < p + left
      → q ≢ rank
      → After (each_peer body rank p left s).1 q
  unfolding each_peer
  each_peer_lem p zero s e before after q hq ne = before q (omega (arith, hq)) ne
  each_peer_lem p (suc left) s e before after q hq ne =
      let t : Endpoint = (body p s).1 in
      let turn : Result × Endpoint =
        if not (is_success (body p s).0) then body p s else each_peer body rank (p + 1) left t in
      elim (Bool-cases (p == rank)) [
        | inl own ↦
            let skip : each_peer body rank p (suc left) s ≡ each_peer body rank (p + 1) left s =
              rw own refl in
            rw skip (
              each_peer_lem (p + 1) left s (ap (λ x. is_success x.0) (sym skip) ∙ e)
                (λ q h other. before q (ground (arith, own, h, other)) other)
                (λ q h h'. after q (omega (arith, h)) (omega (arith, h'))) q (omega (arith, hq)) ne)
        | inr peer ↦
            let go : each_peer body rank p (suc left) s ≡ turn = rw peer refl in
            let (made, e', rest) =
              checked (body p s).0 t (each_peer body rank (p + 1) left t)
                (ap (λ x. is_success x.0) (sym go) ∙ e) in
            let own : p ≢ rank = ground (arith, peer) in
            let (here, kept) = step p s own made (after p (omega arith) (omega arith) own) in
            rw (go, e')
              (each_peer_lem (p + 1) left t rest
                (λ q h other. elim (ℕ_discrete q p) [
                  | yes e ↦ rw e here
                  | no ne ↦ (kept q ne).1 (before q (omega (arith, h, ne)) other)
                ])
                (λ q h h' other.
                  (kept q (omega (arith, h))).0
                    (after q (omega (arith, h)) (omega (arith, h')) other))
                q (omega (arith, hq)) ne)
      ]

-- A change that is accepted is recorded, and nothing else.
pub answered_lem :
    (b : Bool) (p : ℕ) (m : Modify) (s : Endpoint)
    → is_success (answered b p m s).0 ≡ true
    → (answered b p m s).1 ≡ note p m s
unfolding answered
answered_lem true p m s e = refl
answered_lem false p m s e = absurd (false≢true e)

pub same : (p : ℕ) → (p == p) ≡ true
same p = ground arith

pub other : (q p : ℕ) → q ≢ p → (q == p) ≡ false
other q p ne = ground (arith, ne)

module _ (calls : Responses) (dev : Device) where
  abbrev Made : ℕ → Endpoint → Endpoint → Type 0
  Made p s t = Ready dev t p × ((q : ℕ) → q ≢ p → Kept s t q)

  with_qp_lem :
      (p : ℕ) (made : Option (ℕ × ℕ)) (s : Endpoint)
      → is_success (with_qp calls dev p made s).0 ≡ true
      → s.asked p ≡ []
      → Made p s (with_qp calls dev p made s).1
  unfolding with_qp ask
  with_qp_lem p none s e fresh = absurd (false≢true e)
  with_qp_lem p (some (qpn, granted)) s e fresh =
      rw (answered_lem (calls.modify p (to_init dev.port)) p (to_init dev.port) _ e)
        ((qpn, rw (same p) refl, rw (same p, fresh) refl), λ q ne. rw (other q p ne) (refl, refl))

  with_cq_lem :
      (p : ℕ) (cq : Option ℕ) (s : Endpoint)
      → is_success (with_cq calls dev p cq s).0 ≡ true
      → s.asked p ≡ []
      → Made p s (with_cq calls dev p cq s).1
  unfolding with_cq
  with_cq_lem p none s e fresh = absurd (false≢true e)
  with_cq_lem p (some cq) s e fresh = with_qp_lem p (made_qp (calls.making p)) _ e fresh

  -- Where the queue pairs of a rank are created, each is ready.
  pub created_lem :
      (rank nranks : ℕ)
      → is_success (each_peer (create_qp calls dev) rank 0 nranks new_endpoint).0 ≡ true
      → (q : ℕ) → q < nranks
      → q ≢ rank
      → Ready dev (each_peer (create_qp calls dev) rank 0 nranks new_endpoint).1 q
  unfolding create_qp
  created_lem rank nranks e q hq ne =
      each_peer_lem rank (create_qp calls dev) (λ s q. s.asked q ≡ []) (Ready dev)
        (λ p s own ok fresh.
          let (here, kept) = with_cq_lem p (calls.making p).cq s ok fresh in
          (
            here,
            λ q ne. (
              (λ h. (kept q ne).1 ∙ h),
              (λ h. let (n, num, asked) = h in (n, (kept q ne).0 ∙ num, (kept q ne).1 ∙ asked)),
            ),
          ))
        0 nranks new_endpoint e (λ q h ne. absurd (omega (arith, h))) (λ q h h' ne. refl) q
        (omega (arith, hq)) ne
