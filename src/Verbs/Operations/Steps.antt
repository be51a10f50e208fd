-- ===== src/Verbs/Operations/Steps.antt =====
-- src/transport/verbs.cc: the steps of the calls keep the regions, and what ends a call.
use vkccl.Prelude.{
  ℕ, ◌+◌, ◌≡◌, refl, ◌∙◌, inl, inr, ◌⊎◌, Bool, true, false, ◌&&◌, Option, none, some, List, [], ◌∷◌,
  leb, ◌==◌, if◌then◌else◌, Bool-cases,
}
use vkccl.Types.{Result, system_error, remote_error}
use vkccl.Verbs.Regions.{Region, Regions, next_pin, Mr, Resolved, resolve, resolve-regions}
use vkccl.Verbs.Segments.{Segment, segments}
use vkccl.Verbs.Completions.{Signals, Wait, done, error}
use vkccl.Verbs.Operations.{
  Nic, Outcome, M, ◌>>=◌, ◌>>◌, pure, drain_completed, discard_pending, guarded, post_all,
  WorkRequest, inline_of, part_of, resolved, resolve_range, stage, note_copyback, Limits, Transfer,
  post_send, post_recv, taken, waited, push_posted, post_each,
}
use vkccl.Group.{P2pOp}
use vkccl.Verbs.Operations.Batch.{
  Counts, no_counts, Pass, WaveWire, Swept, swept, unswept, sweep, fail, after_pass, wave_wait,
  post_wave, deliver, run_waves,
}
use vkccl.Verbs.Operations.Ends.{Ends, Ends-bind, Ends-guarded, Ends-if}

-- No temporary registration is held and no bounced receive is left to copy.
abbrev pub Settled : Nic → Type 0
Settled t = (t.temps ≡ []) × (t.copybacks ≡ [])

-- Nor is a pre-posted receive or a credit remembered.
abbrev pub Reset : Nic → Type 0
Reset t = Settled t × ((p : ℕ) → t.pre_posted p ≡ []) × ((p : ℕ) → t.surplus p ≡ 0)

Swept-cases :
    (c : Swept) → ((e : Result) × (c ≡ unswept e)) ⊎ ((f : Counts) × (b : Bool) × (c ≡ swept f b))
Swept-cases (unswept e) = inl (e, refl)
Swept-cases (swept f b) = inr (f, b, refl)

module _ (rs : List Region) where
  abbrev pub Same : Nic → Type 0
  Same t = t.regs.regions ≡ rs

  abbrev pub Keeps : {A : Type 0} → Outcome A → Type 0
  Keeps = Ends (λ _. Same) Same

  abbrev pub Tidy : Unit {0} → Nic → Type 0
  Tidy _ u = Same u × Settled u

  keeps :
      {A B : Type 0} (m : M A) (f : A → M B) (s : Nic)
      → Keeps (m s)
      → ((a : A) (t : Nic) → Same t → Keeps (f a t))
      → Keeps ((m >>= f) s)
  keeps m f s h k = Ends-bind Same (λ _. Same) (λ _. Same) m f s h k

  post_all-Keeps :
      (request : Segment → WorkRequest) (segs : List Segment) (wrs : ℕ) (s : Nic)
      → Same s
      → Keeps (post_all request segs wrs s)
  unfolding post_all
  post_all-Keeps request [] wrs s h = h
  post_all-Keeps request (seg ∷ segs) wrs s h = elim (Bool-cases (next_pin s.posts)) [
    | inl e ↦ rw e (post_all-Keeps request segs (wrs + 1) _ h)
    | inr e ↦ rw e h
  ]

  resolved-Keeps :
      (s : Nic) (x : Option Resolved × Regions × List Mr) → x.1.regions ≡ rs → Keeps (resolved s x)
  unfolding resolved
  resolved-Keeps s (none, regs, temps) h = h
  resolved-Keeps s (some r, regs, temps) h = h

  resolve_range-Keeps : (buf bytes : ℕ) (s : Nic) → Same s → Keeps (resolve_range buf bytes s)
  unfolding resolve_range
  resolve_range-Keeps buf bytes s h =
      resolved-Keeps s (resolve s.regs s.temps buf bytes)
        (resolve-regions s.regs s.temps buf bytes ∙ h)

  stage-Keeps : (buf bytes : ℕ) (r : Resolved) (s : Nic) → Same s → Keeps (stage buf bytes r s)
  unfolding stage
  stage-Keeps buf bytes r s h = elim (Bool-cases r.bounced) [
    | inl e ↦ rw (stage, e) h
    | inr e ↦ rw (stage, e) h
  ]

  note_copyback-Keeps :
      (buf bytes : ℕ) (r : Resolved) (s : Nic) → Same s → Keeps (note_copyback buf bytes r s)
  unfolding note_copyback
  note_copyback-Keeps buf bytes r s h = elim (Bool-cases r.bounced) [
    | inl e ↦ rw (note_copyback, e) h
    | inr e ↦ rw (note_copyback, e) h
  ]

  pub waited-Keeps : (peer : ℕ) (w : Wait) (s : Nic) → Same s → Keeps (waited peer w s)
  unfolding waited
  waited-Keeps peer (done left) s h = h
  waited-Keeps peer (error e) s h = h
  waited-Keeps peer Wait.waiting s h = tt

  module _ (lim : Limits) where
    pub post_send-Keeps : (q : Transfer) (s : Nic) → Same s → Keeps (post_send lim q s)
    unfolding post_send
    post_send-Keeps q s h = elim (Bool-cases (leb q.bytes (lim.max_inline q.peer))) [
      | inl e ↦ rw e (
          post_all-Keeps (inline_of q.peer q.buf) (record { offset = 0; bytes = q.bytes } ∷ []) 0 s
            h)
      | inr e ↦ rw e (
          keeps (resolve_range q.buf q.bytes) _ s (resolve_range-Keeps q.buf q.bytes s h) λ r t k.
            keeps (stage q.buf q.bytes r) _ t (stage-Keeps q.buf q.bytes r t k)
              λ _ u l. post_all-Keeps (part_of true q.peer r) (segments lim.max_seg q.bytes) 0 u l)
    ]

    post_recv-Keeps : (q : Transfer) (s : Nic) → Same s → Keeps (post_recv lim q s)
    unfolding post_recv
    post_recv-Keeps q s h =
        keeps (resolve_range q.buf q.bytes) _ s (resolve_range-Keeps q.buf q.bytes s h) λ r t k.
          keeps (note_copyback q.buf q.bytes r) _ t (note_copyback-Keeps q.buf q.bytes r t k)
            λ _ u l. post_all-Keeps (part_of false q.peer r) (segments lim.max_seg q.bytes) 0 u l

    pub taken-Keeps : (q : Transfer) (l : List ℕ) (s : Nic) → Same s → Keeps (taken lim q l s)
    unfolding taken
    taken-Keeps q [] s h = post_recv-Keeps q s h
    taken-Keeps q (wrs ∷ rest) s h = h

    pub post_each-Keeps : (qs : List Transfer) (s : Nic) → Same s → Keeps (post_each lim qs s)
    unfolding post_each push_posted
    post_each-Keeps [] s h = h
    post_each-Keeps (q ∷ qs) s h = elim (Bool-cases (q.bytes == 0)) [
      | inl e ↦ rw e (post_each-Keeps qs s h)
      | inr e ↦
          rw e
            (keeps (post_recv lim q) _ s (post_recv-Keeps q s h) λ wrs t k. post_each-Keeps qs _ k)
    ]

    pub ends_settled :
        {A : Type 0} (m : M A) (f : A → M (Unit {0})) (s : Nic)
        → Keeps (m s)
        → ((a : A) (t : Nic) → Same t → Ends Tidy Same (f a t))
        → Ends Tidy (λ u. Same u × Reset u) (guarded (m >>= f) s)
    unfolding discard_pending
    ends_settled m f s h k =
        Ends-guarded Tidy Same (λ u. Same u × Reset u) (m >>= f) s
          (Ends-bind Same (λ _. Same) Tidy m f s h k)
          (λ t e. (e, ((refl, refl), (λ p. refl), λ p. refl)))

    pub drained :
        (m : M (Unit {0})) (s : Nic) → Keeps (m s) → Ends Tidy Same ((m >> drain_completed) s)
    unfolding drain_completed
    drained m s h =
        Ends-bind Same (λ _. Same) Tidy m (λ _. drain_completed) s h (λ a t e. (e, (refl, refl)))

    pub either-Keeps :
        {A : Type 0} (b : Bool) (x y : M A) (s : Nic)
        → Keeps (x s)
        → Keeps (y s)
        → Keeps ((if b then x else y) s)
    either-Keeps b x y s h k = Ends-if (λ _. Same) Same b x y s h k

    after_pass-Keeps :
        (sig : Signals) (pending : Bool) (again : M (Unit {0})) (s : Nic)
        → Same s
        → Keeps (again s)
        → Keeps (after_pass sig pending again s)
    unfolding after_pass
    after_pass-Keeps sig pending again s h k = either-Keeps sig.aborted (fail system_error) _ s h (
        either-Keeps sig.fatal (fail remote_error) _ s h (
          either-Keeps (pending && sig.expired) (fail system_error) _ s h
            (either-Keeps pending again (pure tt) s k h)))

    module _ (nranks : ℕ) where
      wave_wait-Keeps :
          (passes : List Pass) (posted found : Counts) (s : Nic)
          → Same s
          → Keeps (wave_wait nranks passes posted found s)
      unfolding wave_wait
      wave_wait-Keeps [] posted found s h = tt
      wave_wait-Keeps (pass ∷ passes) posted found s h =
          elim (Swept-cases (sweep pass.polls posted nranks 0 found false)) [
            | inl (e', e) ↦ rw (wave_wait, e) h
            | inr (found', pending, e) ↦
                rw (wave_wait, e)
                  (after_pass-Keeps pass.signals pending (wave_wait nranks passes posted found') s h
                    (wave_wait-Keeps passes posted found' s h))
          ]

      post_wave-Keeps :
          (ops : List P2pOp) (posted : Counts) (s : Nic)
          → Same s
          → Keeps (post_wave lim nranks ops posted s)
      unfolding post_wave
      post_wave-Keeps [] posted s h = h
      post_wave-Keeps (op ∷ ops) posted s h =
          let q : Transfer = record { peer = op.peer; buf = op.buf; bytes = op.bytes } in
          either-Keeps (op.bytes == 0) _ _ s (post_wave-Keeps ops posted s h) (
            either-Keeps op.is_send _ _ s
              (keeps (post_send lim q) _ s (post_send-Keeps q s h)
                λ wrs t k. post_wave-Keeps ops _ t k)
              (keeps (post_recv lim q) _ s (post_recv-Keeps q s h)
                λ wrs t k. post_wave-Keeps ops _ t k))

      -- A wave leaves nothing to release.
      pub run_waves-Settled :
          (ws : List (List P2pOp)) (wires : List WaveWire) (s : Nic)
          → Same s
          → (ws ≡ [] → Settled s)
          → Ends Tidy Same (run_waves lim nranks ws wires s)
      unfolding run_waves deliver drain_completed
      run_waves-Settled [] wires s h idle = (h, idle refl)
      run_waves-Settled (wave ∷ rest) [] s h idle = tt
      run_waves-Settled (wave ∷ rest) (wire ∷ wires) s h idle =
          Ends-bind Same (λ _. Same) Tidy (post_wave lim nranks wave no_counts) _ s
            (post_wave-Keeps wave no_counts s h)
            λ posted t k.
              Ends-bind Same (λ _. Same) Tidy (wave_wait nranks wire.passes posted no_counts) _
                (record t { mem = wire.delivered t.mem })
                (wave_wait-Keeps wire.passes posted no_counts _ k)
                λ _ u l. run_waves-Settled rest wires _ l (λ e. (refl, refl))
