-- ===== src/Collectives/Broadcast/Chain.antt =====
-- src/core/collectives.cc: `doBroadcast` on all ranks, each fed with what its neighbour sent.
use vkccl.Prelude.{
  ℕ, zero, suc, ◌+◌, ◌-◌, ◌≤◌, ◌<◌, ◌≡◌, refl, sym, ap, subst, ◌∙◌, ◌≢◌, inr, Option, none, some,
  [], arith, ◌==◌, wrap,
}
use vkccl.Topology.{next, prev, prev_cases, prev-lt, next-prev}
use vkccl.Net.{Mem, World, copy_to}
use vkccl.Verbs.Segments.{segments, segments_lem}
use vkccl.Collectives.Program.{Inbox, Outbox, addressed, run}
use vkccl.Collectives.Rooted.Gather.{behind, behind_zero}
use vkccl.Collectives.Broadcast.{broadcast}
use vkccl.Collectives.Broadcast.Pieces.{Carries, Carries-local, root_acts_lem, hop_acts_lem}

module _ {A : Type 0} (n root size pipe : ℕ) (from into : World A) where
  -- Rank `r` can run to its end with this outbox and receive buffer: the root by itself, another
  -- rank with the messages that its neighbour, having run, sent it.
  pub data Runs : ℕ → Outbox A → Mem A → Type 0 where
    at_root :
        (inbox : Inbox A) (out : Outbox A) (buf : Mem A)
        → run (broadcast n root size pipe root) inbox (from root) (into root) ≡ some (buf, out)
        → Runs root out buf
    after :
        (r : ℕ) (sent : Outbox A) (theirs : Mem A) (inbox : Inbox A) (out : Outbox A) (buf : Mem A)
        → r < n
        → r ≢ root
        → Runs (prev n r) sent theirs
        → inbox (prev n r) ≡ addressed r sent
        → run (broadcast n root size pipe r) inbox (from r) (into r) ≡ some (buf, out)
        → Runs r out buf

  module _ (hr : root < n) (hn : 1 < n) (hs : 0 < size) (hp : 0 < pipe) where
    abbrev Good : ℕ → Outbox A → Mem A → Type 0
    Good r out buf =
        ((i : ℕ) → i < size → buf i ≡ from root i)
        × ((i : ℕ) → size ≤ i → buf i ≡ into r i)
        × (next n r ≢ root → Carries (from root) (segments pipe size) (addressed (next n r) out))

    root_run :
        (inbox : Inbox A)
        → (out : Outbox A) × (buf : Mem A) × (run
              (broadcast n root size pipe root)
              inbox
              (from root)
              (into root)
            ≡ some (buf, out))
          × Good root out buf
    unfolding broadcast run copy_to
    root_run inbox =
        let own : Mem A = copy_to (into root) 0 size (λ i. from root (0 + i)) in
        let (out, ok, c) = root_acts_lem (next n root) (segments pipe size) inbox (from root) own in
        (
          out,
          own,
          ground (arith, ok),
          (
            (λ i h. ground arith),
            (λ i h. ground arith),
            λ ne.
                Carries-local own (from root) size pipe 0 (segments pipe size) _
                  (λ i h. ground arith) (segments_lem pipe size hp).0 c,
          ),
        )

    hop_run :
        (r : ℕ) (inbox : Inbox A)
        → r < n
        → r ≢ root
        → Carries (from root) (segments pipe size) (inbox (prev n r))
        → (out : Outbox A) × (buf : Mem A) × (run
              (broadcast n root size pipe r)
              inbox
              (from r)
              (into r)
            ≡ some (buf, out))
          × Good r out buf
    unfolding broadcast
    hop_run r inbox h ne c =
        let (buf, out, ok, got, frame, fwd) =
          hop_acts_lem (from root) (prev n r) (next n r) (next n r == root) size pipe 0
            (segments pipe size) (inbox (prev n r)) inbox (from r) (into r) refl
            (segments_lem pipe size hp).0 c in
        (
          out,
          buf,
          ground (arith, ok),
          ((λ i l. got i (omega arith) l), (λ i l. frame i (inr l)), λ nx. fwd (ground arith)),
        )

    same-Good :
        (r : ℕ) (out out' : Outbox A) (buf buf' : Mem A)
        → ◌≡◌ {A = Option (Mem A × Outbox A)} (some (buf, out)) (some (buf', out'))
        → Good r out buf
        → Good r out' buf'
    same-Good r out out' buf buf' e g =
        subst (λ (q : Mem A × Outbox A). Good r q.1 q.0)
          (ap (λ o. elim o [ none ↦ (buf, out) | some q ↦ q ]) e) g

    Runs-Good : (r : ℕ) (out : Outbox A) (buf : Mem A) → Runs r out buf → Good r out buf
    Runs-Good _ out buf (at_root inbox _ _ ok) =
        let (out', buf', ok', good) = root_run inbox in
        same-Good root out' out buf' buf (sym ok' ∙ ok) good
    Runs-Good _ out buf (after r sent theirs inbox _ _ h ne prior e ok) =
        let (g, f, c) = Runs-Good (prev n r) sent theirs prior in
        let (out', buf', ok', good) = hop_run r inbox h ne (
          rw e (
            subst (λ k. k ≢ root → Carries (from root) (segments pipe size) (addressed k sent))
              (next-prev n r h) c ne)) in
        same-Good r out' out buf' buf (sym ok' ∙ ok) good

    behind-prev :
        (r d : ℕ) → r < n → behind n root r ≡ suc d → (behind n root (prev n r) ≡ d) × (r ≢ root)
    unfolding behind
    behind-prev r d h e = (
      omega (
        arith,
        prev_cases n r h,
        wrap (r + n - root) n (omega arith),
        wrap (prev n r + n - root) n (omega (arith, prev-lt n r h)),
      ),
      λ q. absurd (omega (arith, wrap (r + n - root) n (omega arith))),
    )

    reaches :
        (d r : ℕ) → r < n → behind n root r ≡ d → (out : Outbox A) × (buf : Mem A) × Runs r out buf
    reaches zero r h e =
        let (out, buf, ok, good) = root_run (λ p. []) in
        subst (λ k. (out : Outbox A) × (buf : Mem A) × Runs k out buf)
          (sym (behind_zero n root hr r h e)) (out, buf, at_root (λ p. []) out buf ok)
    reaches (suc d) r h e =
        let (e', ne) = behind-prev r d h e in
        let (sent, theirs, prior) = reaches d (prev n r) (prev-lt n r h) e' in
        let (g, f, c) = Runs-Good (prev n r) sent theirs prior in
        let (out, buf, ok, good) =
          hop_run r (λ p. addressed r sent) h ne
            (subst (λ k. k ≢ root → Carries (from root) (segments pipe size) (addressed k sent))
              (next-prev n r h) c ne) in
        (out, buf, after r sent theirs (λ p. addressed r sent) out buf h ne prior refl ok)

    -- A broadcast of some bytes, in pieces of any size, over two ranks or more: every rank can run to
    -- its end, being sent what its neighbour sends, and its receive buffer then starts with the
    -- bytes of the root's send buffer and is unchanged past them.
    pub broadcast_lem :
        (r : ℕ)
        → r < n
        → (out : Outbox A) × (buf : Mem A) × Runs r out buf
          × ((i : ℕ) → i < size → buf i ≡ from root i)
          × ((i : ℕ) → size ≤ i → buf i ≡ into r i)
    broadcast_lem r h =
        let (out, buf, x) = reaches (behind n root r) r h refl in
        let (g, f, c) = Runs-Good r out buf x in (out, buf, x, g, f)

    -- However a rank comes to run to its end in such a broadcast, whatever else arrives at it, its
    -- receive buffer starts with the bytes of the root and is unchanged past them.
    broadcast_sound :
        (r : ℕ) (out : Outbox A) (buf : Mem A)
        → Runs r out buf
        → ((i : ℕ) → i < size → buf i ≡ from root i) × ((i : ℕ) → size ≤ i → buf i ≡ into r i)
    broadcast_sound r out buf x = let (g, f, c) = Runs-Good r out buf x in (g, f)
