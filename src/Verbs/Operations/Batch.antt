-- ===== src/Verbs/Operations/Batch.antt =====
-- src/transport/verbs.cc: `batch`, which posts its operations in waves and waits for each wave.
use vkccl.Prelude.{
  ℕ, zero, suc, ◌+◌, Bool, false, ◌&&◌, ◌||◌, List, [], ◌∷◌, ltb, ◌==◌, if◌then◌else◌,
}
use vkccl.Types.{Result, system_error, remote_error}
use vkccl.Net.{Mem}
use vkccl.Group.{P2pOp}
use vkccl.Verbs.Segments.{queue_depth}
use vkccl.Verbs.Completions.{Poll, counted, uncounted, Signals, poll_once}
use vkccl.Verbs.Waves.{waves}
use vkccl.Verbs.Operations.{
  ok, fails, blocked, M, ◌>>=◌, ◌>>◌, pure, at, drain_completed, discard_pending, guarded, Limits,
  Transfer, post_send, post_recv,
}

-- How many sends and receives: `posted` and `done`, by peer.
pub record Counts : Type 0 where
  pub sends : ℕ → ℕ
  pub recvs : ℕ → ℕ

abbrev pub no_counts : Counts
no_counts = record { sends = λ p. 0; recvs = λ p. 0 }

-- One round of the wait of a wave: what a poll of each peer's queue answers.
pub record Pass : Type 0 where
  pub polls : ℕ → Poll
  pub signals : Signals

-- The rounds that the wait of a wave sees, and what the NIC does to memory by its end.
pub record WaveWire : Type 0 where
  pub passes : List Pass
  pub delivered : Mem ℕ → Mem ℕ

abbrev pub is_missing : Counts → Counts → ℕ → Bool
is_missing posted found p =
    ltb (found.sends p) (posted.sends p) || ltb (found.recvs p) (posted.recvs p)

-- What a sweep ends with: what is done after it and `pending`, or the result of a poll that goes
-- wrong.
pub data Swept : Type 0 where
  swept : Counts → Bool → Swept
  unswept : Result → Swept

-- The sweep of a round over the peers, from `p` on.
unfoldable pub sweep : (ℕ → Poll) → Counts → ℕ → ℕ → Counts → Bool → Swept
sweep polls posted zero p found pending = swept found pending
sweep polls posted (suc left) p found pending =
    let skip = sweep polls posted left (p + 1) found pending in
    let polled : Swept = elim (poll_once (polls p) (found.sends p) (found.recvs p)) [
      | uncounted e ↦ unswept e
      | counted a b ↦
          let found' : Counts = record { sends = at found.sends p a; recvs = at found.recvs p b } in
          sweep polls posted left (p + 1) found' (pending || is_missing posted found' p)
    ] in
    if is_missing posted found p then polled else skip

abbrev pub fail : Result → M (Unit {0})
fail e s = fails e s

-- The checks at the end of a round.
unfoldable pub after_pass : Signals → Bool → M (Unit {0}) → M (Unit {0})
after_pass sig pending again =
    if sig.aborted
    then fail system_error
    else if sig.fatal
    then fail remote_error
    else if pending && sig.expired
    then fail system_error
    else if pending
    then again
    else pure tt

-- `while (pending)`, over the peers below `nranks`.
unfoldable pub wave_wait : ℕ → List Pass → Counts → Counts → M (Unit {0})
unfolding after_pass sweep
wave_wait nranks [] posted found s = blocked
wave_wait nranks (pass ∷ passes) posted found s =
    elim (sweep pass.polls posted nranks 0 found false) [
      | unswept e ↦ fails e s
      | swept found' pending ↦
          after_pass pass.signals pending (wave_wait nranks passes posted found') s
    ]

module _ (lim : Limits) (nranks : ℕ) where
  -- The posts of a wave.
  unfoldable pub post_wave : List P2pOp → Counts → M Counts
  post_wave [] posted = pure posted
  post_wave (op ∷ ops) posted =
      let q : Transfer = record { peer = op.peer; buf = op.buf; bytes = op.bytes } in
      let skip = post_wave ops posted in
      let sending : M Counts = (do
        wrs ← post_send lim q
        post_wave ops
            (record posted { sends = at posted.sends op.peer (posted.sends op.peer + wrs) })) in
      let receiving : M Counts = (do
        wrs ← post_recv lim q
        post_wave ops
            (record posted { recvs = at posted.recvs op.peer (posted.recvs op.peer + wrs) })) in
      if op.bytes == 0 then skip else if op.is_send then sending else receiving

  -- The NIC works while a wave waits.
  unfoldable pub deliver : (Mem ℕ → Mem ℕ) → M (Unit {0})
  deliver delivered s = ok tt (record s { mem = delivered s.mem })

  unfoldable pub run_waves : List (List P2pOp) → List WaveWire → M (Unit {0})
  unfolding post_wave wave_wait deliver drain_completed
  run_waves [] wires = pure tt
  run_waves (wave ∷ rest) [] = λ s. blocked
  run_waves (wave ∷ rest) (wire ∷ wires) =
      let later = run_waves rest wires in
      do
        posted ← post_wave wave no_counts
        deliver wire.delivered
        wave_wait nranks wire.passes posted no_counts
        drain_completed
        later

  -- `batch`
  unfoldable pub batch : List P2pOp → List WaveWire → M (Unit {0})
  unfolding run_waves discard_pending
  batch ops wires = guarded (run_waves (waves lim.max_seg queue_depth ops) wires)
