-- ===== src/Tcp/Mesh.antt =====
-- src/transport/tcp.cc: `TcpTransport::create`, which connects every pair of ranks, and
-- `transportCreate`. What the calls of the system and of the bootstrap answer is an argument.
use vkccl.Prelude.{
  ℕ, zero, suc, ◌+◌, ◌-◌, ◌≤◌, ◌<◌, ◌≡◌, refl, sym, ap, fun_ext, ◌∙◌, inl, inr, Bool, true, false,
  not, ◌||◌, false≢true, Option, none, some, arith, dec_le, leb, ◌==◌, if◌then◌else◌, Bool-cases, ℤ,
  is_neg, to_ℕ,
}
use vkccl.Types.{
  Result, success, unhandled_error, system_error, internal_error, invalid_argument, invalid_usage,
  remote_error, is_success,
}
use vkccl.Slots.{is_free, count, none_yet, count-full, put, count-put}

-- The socket of `connectTo` for a peer, and the results of `connectTo` and `sendAll`.
pub record Dial : Type 0 where
  pub connected : Result
  pub fd : ℕ
  pub greeted : Result

-- The socket of `acceptOne` in a turn, the rank that `recvAll` brings, and the results of both.
pub record Visit : Type 0 where
  pub accepted : Result
  pub fd : ℕ
  pub received : Result
  pub peer_rank : ℤ

abbrev pub Fds : Type 0
Fds = ℕ → Option ℕ

-- `for (int peer = 0; peer < rank; peer++)`, with the peers left.
unfoldable pub connect_peers : (ℕ → Dial) → ℕ → ℕ → Fds → Result × Fds
connect_peers dials peer zero fds = (success, fds)
connect_peers dials peer (suc left) fds =
    let d = dials peer in
    let rest = connect_peers dials (peer + 1) left (put fds peer d.fd) in
    if not (is_success d.connected)
    then (d.connected, fds)
    else if not (is_success d.greeted)
    then (d.greeted, fds)
    else rest

-- `for (int i = rank + 1; i < nranks; i++)`, with the turns left.
unfoldable pub accept_peers : ℕ → ℕ → (ℕ → Visit) → ℕ → ℕ → Fds → Result × Fds
accept_peers rank nranks visits i zero fds = (success, fds)
accept_peers rank nranks visits i (suc left) fds =
    let v = visits i in
    let rest = accept_peers rank nranks visits (i + 1) left (put fds (to_ℕ v.peer_rank) v.fd) in
    if not (is_success v.accepted)
    then (v.accepted, fds)
    else if not (is_success v.received)
    then (v.received, fds)
    else if is_neg v.peer_rank
        || leb (to_ℕ v.peer_rank) rank
        || leb nranks (to_ℕ v.peer_rank)
        || not (is_free (fds (to_ℕ v.peer_rank)))
    then (internal_error, fds)
    else rest

-- The results of `createListenSocket`, `getAdvertisedAddr` and the bootstrap's all-gather.
pub record Setup : Type 0 where
  pub listening : Result
  pub advertised : Result
  pub gathered : Result

abbrev pub no_fds : Fds
no_fds r = none

-- The accepting half of `create`, after the connecting one.
unfoldable pub then_accept : ℕ → ℕ → (ℕ → Visit) → Result × Fds → Result × Fds
then_accept rank nranks visits (res, fds) =
    if is_success res
    then accept_peers rank nranks visits (rank + 1) (nranks - (rank + 1)) fds
    else (res, fds)

-- `TcpTransport::create`
unfoldable pub tcp_create : Setup → (ℕ → Dial) → (ℕ → Visit) → ℕ → ℕ → Result × Fds
unfolding connect_peers accept_peers then_accept
tcp_create setup dials visits rank nranks =
    if not (is_success setup.listening)
    then (setup.listening, no_fds)
    else if not (is_success setup.advertised)
    then (setup.advertised, no_fds)
    else if not (is_success setup.gathered)
    then (setup.gathered, no_fds)
    else then_accept rank nranks visits (connect_peers dials 0 rank no_fds)

-- `VCCL_TRANSPORT`
pub data Choice : Type 0 where
  unset verbs tcp unknown : Choice

pub data Backend : Type 0 where
  verbs_backend tcp_backend : Backend

-- `transportCreate` of a build with verbs or without, up to the `create` that it calls.
unfoldable pub transport_create : Bool → Choice → Bool → Result × Option Backend
transport_create true unset available =
    if available then (success, some verbs_backend) else (success, some tcp_backend)
transport_create true verbs available =
    if available then (success, some verbs_backend) else (system_error, none)
transport_create true tcp available = (success, some tcp_backend)
transport_create true unknown available = (invalid_argument, none)
transport_create false unset available = (success, some tcp_backend)
transport_create false verbs available = (invalid_usage, none)
transport_create false tcp available = (success, some tcp_backend)
transport_create false unknown available = (invalid_argument, none)

-- A call that fails is not a success.
not_ok :
    {X : Type 0} (res : Result) (fds fds' : Fds)
    → is_success res ≡ false
    → ◌≡◌ {A = Result × Fds} (res, fds) (success, fds')
    → X
not_ok res fds fds' f e = absurd (false≢true (sym f ∙ ap (λ x. is_success x.0) e))

connect_peers_lem :
    (dials : ℕ → Dial) (peer left : ℕ) (fds fds' : Fds)
    → connect_peers dials peer left fds ≡ (success, fds')
    → ((p : ℕ) → p < peer → is_free (fds p) ≡ false)
    → ((p : ℕ) → peer ≤ p → fds p ≡ none)
    → ((p : ℕ) → p < peer + left → is_free (fds' p) ≡ false)
      × ((p : ℕ) → peer + left ≤ p → fds' p ≡ none)
unfolding connect_peers
connect_peers_lem dials peer zero fds fds' e lo hi =
    let same : fds ≡ fds' = ap (λ x. x.1) e in
    (
      (λ p h. ap (λ f. is_free (f p)) (sym same) ∙ lo p (omega arith)),
      (λ p h. ap (λ f. f p) (sym same) ∙ hi p (omega arith)),
    )
connect_peers_lem dials peer (suc left) fds fds' e lo hi =
    elim (Bool-cases (is_success (dials peer).connected)) [
      | inr c ↦ not_ok (dials peer).connected fds fds' c (rw c at e)
      | inl c ↦ elim (Bool-cases (is_success (dials peer).greeted)) [
        | inr g ↦ not_ok (dials peer).greeted fds fds' g (rw (c, g) at e)
        | inl g ↦
            let (a, b) =
              connect_peers_lem dials (peer + 1) left (put fds peer (dials peer).fd) fds'
                (rw (c, g) at e) (λ p h. ground (arith, lo p)) (λ p h. ground (arith, hi p)) in
            ((λ p h. a p (omega arith)), (λ p h. b p (omega arith)))
      ]
    ]

module _ (rank nranks : ℕ) (visits : ℕ → Visit) where
  -- The slots of the ranks above this one.
  abbrev above : Fds → Fds
  above fds j = fds (rank + j)

  above-put :
      (fds : Fds) (a fd : ℕ) → rank < a → above (put fds a fd) ≡ put (above fds) (a - rank) fd
  above-put fds a fd h = fun_ext λ j. ground arith

  accept_peers_lem :
      (i left : ℕ) (fds fds' : Fds)
      → accept_peers rank nranks visits i left fds ≡ (success, fds')
      → (count (nranks - (rank + 1)) (above fds') ≡ count (nranks - (rank + 1)) (above fds) + left)
        × ((p : ℕ) → p ≤ rank → fds' p ≡ fds p)
  unfolding accept_peers
  accept_peers_lem i zero fds fds' e =
      let same : fds ≡ fds' = ap (λ x. x.1) e in
      (rw (sym same) (omega arith), λ p h. ap (λ f. f p) (sym same))
  accept_peers_lem i (suc left) fds fds' e =
      let v = visits i in
      let a : ℕ = to_ℕ v.peer_rank in
      let bad = is_neg v.peer_rank || leb a rank || leb nranks a || not (is_free (fds a)) in
      elim (Bool-cases (is_success v.accepted)) [
        | inr c ↦ not_ok v.accepted fds fds' c (rw c at e)
        | inl c ↦ elim (Bool-cases (is_success v.received)) [
          | inr g ↦ not_ok v.received fds fds' g (rw (c, g) at e)
          | inl g ↦ elim (Bool-cases bad) [
            | inl b ↦ not_ok internal_error fds fds' refl (rw (c, g, b) at e)
            | inr b ↦
                let lo : rank < a = ground (arith, b) in
                let hi : a < nranks = ground (arith, b) in
                let free : is_free (fds (rank + (a - rank))) ≡ true =
                  let z : rank + (a - rank) ≡ a = omega (arith, lo) in rw z (ground (arith, b)) in
                let (n, f) =
                  accept_peers_lem (i + 1) left (put fds a v.fd) fds' (rw (c, g, b) at e) in
                let more =
                  count-put (nranks - (rank + 1)) (above fds) (a - rank) v.fd free
                    (omega (arith, lo)) in
                (
                  ground (
                    arith,
                    n,
                    ap (count (nranks - (rank + 1))) (above-put fds a v.fd lo),
                    more,
                    lo,
                    hi,
                  ),
                  λ p h. f p h ∙ ground (arith, lo),
                )
          ]
        ]
      ]

is_success-eq : (res : Result) → is_success res ≡ true → res ≡ success
is_success-eq success h = refl
is_success-eq unhandled_error h = absurd (false≢true h)
is_success-eq system_error h = absurd (false≢true h)
is_success-eq internal_error h = absurd (false≢true h)
is_success-eq invalid_argument h = absurd (false≢true h)
is_success-eq invalid_usage h = absurd (false≢true h)
is_success-eq remote_error h = absurd (false≢true h)

meshed :
    (dials : ℕ → Dial) (visits : ℕ → Visit) (rank nranks : ℕ) (fds : Fds)
    → rank < nranks
    → (x : Result × Fds) → connect_peers dials 0 rank no_fds ≡ x
    → then_accept rank nranks visits x ≡ (success, fds)
    → (p : ℕ) → p < nranks
    → is_free (fds p) ≡ (p == rank)
unfolding then_accept
meshed dials visits rank nranks fds h (res, fds₁) c e p hp = elim (Bool-cases (is_success res)) [
  | inr f ↦ not_ok res fds₁ fds f (rw f at e)
  | inl f ↦
      let ok : connect_peers dials 0 rank no_fds ≡ (success, fds₁) =
        c ∙ ap (λ r. (r, fds₁)) (is_success-eq res f) in
      let (lower, upper) =
        connect_peers_lem dials 0 rank no_fds fds₁ ok (λ q l. absurd (omega arith)) (λ q l. refl) in
      let m : ℕ = nranks - (rank + 1) in
      let (n, kept) = accept_peers_lem rank nranks visits (rank + 1) m fds₁ fds (rw f at e) in
      let none_above : above rank nranks visits fds₁ ≡ (λ j. none) =
        fun_ext λ j. upper (rank + j) (omega arith) in
      let full : count m (above rank nranks visits fds) ≡ m =
        omega (arith, n, ap (count m) none_above, none_yet m) in
      elim (dec_le p rank) [
        | yes l ↦ ground (arith, kept p l, lower p, upper p)
        | no g ↦
            let z : rank + (p - rank) ≡ p = omega arith in
            let busy =
              count-full m (above rank nranks visits fds) (p - rank) full (omega arith)
                (omega arith) in
            ground (arith, busy, ap fds z)
      ]
]

-- Whatever the calls answer: when `create` succeeds, a rank holds a socket for every other rank, and
-- none for itself.
pub tcp_create_lem :
    (setup : Setup) (dials : ℕ → Dial) (visits : ℕ → Visit) (rank nranks : ℕ) (fds : Fds)
    → rank < nranks
    → tcp_create setup dials visits rank nranks ≡ (success, fds)
    → (p : ℕ) → p < nranks
    → is_free (fds p) ≡ (p == rank)
unfolding tcp_create
tcp_create_lem setup dials visits rank nranks fds h e p hp =
    elim (Bool-cases (is_success setup.listening)) [
      | inr a ↦ not_ok setup.listening no_fds fds a (rw a at e)
      | inl a ↦ elim (Bool-cases (is_success setup.advertised)) [
        | inr b ↦ not_ok setup.advertised no_fds fds b (rw (a, b) at e)
        | inl b ↦ elim (Bool-cases (is_success setup.gathered)) [
          | inr c ↦ not_ok setup.gathered no_fds fds c (rw (a, b, c) at e)
          | inl c ↦
              meshed dials visits rank nranks fds h (connect_peers dials 0 rank no_fds) refl
                (rw (a, b, c) at e) p hp
        ]
      ]
    ]
