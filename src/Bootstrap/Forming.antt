-- ===== src/Bootstrap/Forming.antt =====
-- src/core/bootstrap.cc: the root's loop over its clients.
use vkccl.Prelude.{
  ℕ, zero, suc, ◌-◌, ◌≤◌, ◌<◌, ◌≡◌, refl, sym, ap, subst, ◌∙◌, ◌⊎◌, inl, inr, true, false,
  false≢true, Option, none, some, List, [], ◌∷◌, ◌++◌, map, arith, dec_lt, ℕ_discrete, ◌==◌, ltb→lt,
  lt→ltb, ge→ltb, Bool-cases, Option-cases, get_elem?, ℤ, pos, negsuc, is_neg, below, to_ℕ,
}
use vkccl.Bootstrap.{
  Hello, JobId, Host, Accept, client, Root, is_ok, admit, accept_loop, new_root, Registry,
  vccl_magic, root_listener, with_listener, root_init, client_hello,
}
use vkccl.Types.{Result, success}
use vkccl.Slots.{is_free, count, none_yet, count-le, count-full, count-all, put, count-put}

pos-to_ℕ : (i : ℤ) → is_neg i ≡ false → pos (to_ℕ i) ≡ i
pos-to_ℕ (pos n) h = refl
pos-to_ℕ (negsuc n) h = absurd (false≢true (sym h))

below-lt : (i : ℤ) (n : ℕ) → is_neg i ≡ false → below i n ≡ true → to_ℕ i < n
below-lt (pos k) n h l = ltb→lt k n l
below-lt (negsuc k) n h l = absurd (false≢true (sym h))

module _ (host : Host) (id : JobId) (nranks : ℕ) where
  abbrev pub Connection : Type 0
  Connection = ℕ × Option Hello

  abbrev pub accepted : Connection → Accept
  accepted (fd, hello) = client fd hello

  -- A `Hello` that passes the test is that of its rank, field by field.
  is_ok-hello :
      (s : Root) (h : Hello)
      → is_ok host id nranks s (some h) ≡ true
      → (h ≡ client_hello host id nranks (to_ℕ h.rank))
        × (0 < to_ℕ h.rank)
        × (to_ℕ h.rank < nranks)
        × (is_free (s.peer_fds (to_ℕ h.rank)) ≡ true)
  unfolding is_ok client_hello
  is_ok-hello s h e =
      let a : h.magic ≡ id.magic = ground (arith, e) in
      let b : h.salt ≡ id.salt = ground (arith, e) in
      let c : h.version ≡ host.version = ground (arith, e) in
      let d : h.nranks ≡ nranks = ground (arith, e) in
      let n : is_neg h.rank ≡ false = ground (arith, e) in
      let l : below h.rank nranks ≡ true = ground (arith, e) in
      let p : h.pad ≡ host.marker = ground (arith, e) in
      (
        rw (sym a, sym b, sym c, sym d, sym p, pos-to_ℕ h.rank n) refl,
        ground (arith, e),
        below-lt h.rank nranks n l,
        ground (arith, e),
      )

  is_ok-client :
      (s : Root) (r : ℕ)
      → 0 < r
      → r < nranks
      → is_free (s.peer_fds r) ≡ true
      → is_ok host id nranks s (some (client_hello host id nranks r)) ≡ true
  unfolding is_ok client_hello
  is_ok-client s r h l f = ground arith

  -- What is so after each turn: `connected` counts the sockets, and a socket of a rank is that of a
  -- client whose `Hello` is that rank's.
  record Sound (P : Connection → Type 0) (s : Root) : Type 0 where
    counted : s.connected ≡ count (nranks - 1) s.peer_fds
    source : (r fd : ℕ) → s.peer_fds r ≡ some fd → P (fd, some (client_hello host id nranks r))

  source_put :
      (P : Connection → Type 0) (s : Root) (fd : ℕ) (hello : Hello) (r fd' : ℕ)
      → P (fd, some hello)
      → ((r fd : ℕ) → s.peer_fds r ≡ some fd → P (fd, some (client_hello host id nranks r)))
      → hello ≡ client_hello host id nranks (to_ℕ hello.rank)
      → put s.peer_fds (to_ℕ hello.rank) fd r ≡ some fd'
      → P (fd', some (client_hello host id nranks r))
  source_put P s fd hello r fd' p src same q = elim (ℕ_discrete r (to_ℕ hello.rank)) [
    | yes e ↦
        let f : fd ≡ fd' = ground (arith, q, e) in
        let g : hello ≡ client_hello host id nranks r =
          same ∙ ap (client_hello host id nranks) (sym e) in
        subst (λ x. P (x, some (client_hello host id nranks r))) f (subst (λ x. P (fd, some x)) g p)
    | no ne ↦ src r fd' (ground (arith, q, ne))
  ]

  admit-Sound :
      (P : Connection → Type 0) (s : Root) (fd : ℕ) (hello : Option Hello)
      → P (fd, hello)
      → Sound P s
      → Sound P (admit host id nranks fd hello s)
  unfolding admit is_ok
  admit-Sound P s fd none p h = record { counted = h.counted; source = h.source }
  admit-Sound P s fd (some hello) p h = elim (Bool-cases (is_ok host id nranks s (some hello))) [
    | inr e ↦ rw e (record { counted = h.counted; source = h.source })
    | inl e ↦
        let (same, lo, hi, free) = is_ok-hello s hello e in
        rw e (record {
          counted = ground (
            arith,
            h.counted,
            hi,
            count-put (nranks - 1) s.peer_fds (to_ℕ hello.rank) fd free lo,
          );
          source = λ r fd' q. source_put P s fd hello r fd' p h.source same q;
        })
  ]

  -- A socket stays.
  admit-keeps :
      (s : Root) (fd : ℕ) (hello : Option Hello) (r : ℕ)
      → is_free (s.peer_fds r) ≡ false
      → is_free ((admit host id nranks fd hello s).peer_fds r) ≡ false
  unfolding admit
  admit-keeps s fd hello r h = ground (arith, h)

  admit-client :
      (s : Root) (fd r : ℕ)
      → 0 < r
      → r < nranks
      → is_free ((admit host id nranks fd (some (client_hello host id nranks r)) s).peer_fds r)
        ≡ false
  unfolding admit client_hello
  admit-client s fd r h l = elim (Bool-cases (is_free (s.peer_fds r))) [
    | inl e ↦ rw (is_ok-client s r h l e) (ground arith)
    | inr e ↦ admit-keeps s fd (some (client_hello host id nranks r)) r e
  ]

  -- The socket `fd` brought the `Hello` of rank `r`.
  abbrev pub Heard : List Connection → ℕ → ℕ → Type 0
  Heard cs r fd = (k : ℕ) × (get_elem? cs k ≡ some (fd, some (client_hello host id nranks r)))

  -- A client of rank `r` is in the list.
  abbrev pub Calls : ℕ → List Connection → Type 0
  Calls r cs =
      (k : ℕ) × (fd : ℕ) × (get_elem? cs k ≡ some (fd, some (client_hello host id nranks r)))

  abbrev pub Formed : (Connection → Type 0) → Root → Type 0
  Formed P s =
      (r : ℕ)
      → 0 < r
      → r < nranks
      → (fd : ℕ) × (s.peer_fds r ≡ some fd) × P (fd, some (client_hello host id nranks r))

  Sound-Formed :
      (P : Connection → Type 0) (s : Root) → Sound P s → nranks - 1 ≤ s.connected → Formed P s
  Sound-Formed P s h e r lo hi =
      let full : count (nranks - 1) s.peer_fds ≡ nranks - 1 =
        omega (arith, e, h.counted, count-le (nranks - 1) s.peer_fds) in
      let busy = count-full (nranks - 1) s.peer_fds r full lo (omega arith) in
      elim (Option-cases (s.peer_fds r)) [
        | inl z ↦ absurd (false≢true (ground (arith, busy, z)))
        | inr (fd, z) ↦ (fd, z, h.source r fd z)
      ]

  still_busy :
      (s : Root) (r : ℕ)
      → (is_free (s.peer_fds r) ≡ false) ⊎ Calls r []
      → is_free (s.peer_fds r) ≡ false
  still_busy s r (inl f) = f
  still_busy s r (inr (k, fd, e)) = absurd (ground (arith, e))

  -- A rank that has called, or is still to call.
  busy_or_to_come :
      (s : Root) (fd : ℕ) (hello : Option Hello) (cs : List Connection) (r : ℕ)
      → 0 < r
      → r < nranks
      → (is_free (s.peer_fds r) ≡ false) ⊎ Calls r ((fd, hello) ∷ cs)
      → (is_free ((admit host id nranks fd hello s).peer_fds r) ≡ false) ⊎ Calls r cs
  busy_or_to_come s fd hello cs r lo hi (inl f) = inl (admit-keeps s fd hello r f)
  busy_or_to_come s fd hello cs r lo hi (inr (zero, fd', e)) =
      let same : some (client_hello host id nranks r) ≡ hello = ground (arith, e) in
      inl (
        subst (λ x. is_free ((admit host id nranks fd x s).peer_fds r) ≡ false) same
          (admit-client s fd r lo hi))
  busy_or_to_come s fd hello cs r lo hi (inr (suc k, fd', e)) = inr (k, fd', e)

  loop_lem :
      (P : Connection → Type 0) (listen : ℕ) (cs : List Connection) (s : Root)
      → ((k : ℕ) (c : Connection) → get_elem? cs k ≡ some c → P c)
      → Sound P s
      → ((r : ℕ) → 0 < r → r < nranks → (is_free (s.peer_fds r) ≡ false) ⊎ Calls r cs)
      → (s' : Root) × (accept_loop host id nranks listen (map accepted cs) s ≡ some (success, s'))
        × Formed P s'
  unfolding accept_loop
  loop_lem P listen [] s hp h calls =
      let full : count (nranks - 1) s.peer_fds ≡ nranks - 1 =
        count-all (nranks - 1) s.peer_fds λ r lo hi. still_busy s r (calls r lo (omega arith)) in
      let e : nranks - 1 ≤ s.connected = omega (arith, full, h.counted) in
      (
        record s { closed = s.closed ++ listen ∷ [] },
        rw (ge→ltb s.connected (nranks - 1) e) refl,
        Sound-Formed P s h e,
      )
  loop_lem P listen ((fd, hello) ∷ cs) s hp h calls = elim (dec_lt s.connected (nranks - 1)) [
    | no p ↦ (
      record s { closed = s.closed ++ listen ∷ [] },
      rw (ge→ltb s.connected (nranks - 1) (omega arith)) refl,
      Sound-Formed P s h (omega arith),
    )
    | yes p ↦
        let (s', run, formed) =
          loop_lem P listen cs (admit host id nranks fd hello s) (λ k c e. hp (suc k) c e)
            (admit-Sound P s fd hello (hp 0 (fd, hello) refl) h)
            (λ r lo hi. busy_or_to_come s fd hello cs r lo hi (calls r lo hi)) in
        (s', rw (lt→ltb s.connected (nranks - 1) p) run, formed)
  ]

  -- However many strays call, and in whatever order: with the socket that its id names, rank 0 ends
  -- `init` with success once each of the other ranks of the job has called with its `Hello` and no
  -- `accept` has failed, and then it holds for every rank a socket on which that rank's `Hello`
  -- came, field by field.
  pub root_init_lem :
      (listen : ℕ) (bind : Result × ℕ) (es es' : Registry) (cs : List Connection)
      → id.magic ≡ vccl_magic
      → root_listener id bind es ≡ (success, some listen, es')
      → ((r : ℕ) → 0 < r → r < nranks → Calls r cs)
      → (s : Root) × (root_init host id nranks bind (map accepted cs) es ≡ some (success, s, es'))
        × ((r : ℕ) → 0 < r → r < nranks → (fd : ℕ) × (s.peer_fds r ≡ some fd) × Heard cs r fd)
  unfolding root_init with_listener
  root_init_lem listen bind es es' cs m l calls =
      let (s, run, formed) =
        loop_lem (λ c. (k : ℕ) × (get_elem? cs k ≡ some c)) listen cs new_root (λ k c e. (k, e))
          (record {
            counted = sym (none_yet (nranks - 1));
            source = λ r fd e. absurd (ground (arith, e));
          })
          (λ r lo hi. inr (calls r lo hi)) in
      let magic : (id.magic == vccl_magic) ≡ true = ground (arith, m) in
      (s, rw (magic, l, with_listener, run) refl, formed)
