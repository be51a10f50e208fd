-- ===== src/Collectives/Rooted/Scatter.antt =====
-- src/core/collectives.cc: what `doScatter` leaves at each rank.
use vkccl.Prelude.{
  ℕ, zero, suc, ◌+◌, ◌-◌, ◌*◌, ◌%◌, ◌≤◌, ◌<◌, ◌≡◌, refl, ap, ◌≢◌, some, [], ◌∷◌, arith, ℕ_discrete,
  leb, if◌then◌else◌,
}
use vkccl.Net.{Mem, copy_to}
use vkccl.Collectives.Program.{Message, Inbox, Outbox, addressed, run}
use vkccl.Collectives.Rooted.{scatter_sends, scatter}
use vkccl.Collectives.Rooted.Gather.{behind, peer-behind, behind-eq, behind-lt, behind_zero}

module _ {A : Type 0} (n root size : ℕ) (hr : root < n) (from : Mem A) where
  -- The root's message for rank `p`.
  abbrev block : ℕ → Message A
  block p = record { len = size; bytes = λ i. from (p * size + i) }

  scatter_out : ℕ → ℕ → Outbox A
  scatter_out zero s = []
  scatter_out (suc left) s =
      let peer = (root + s) % n in (peer, block peer) ∷ scatter_out left (s + 1)

  scatter_sends_run :
      (left s : ℕ) (inbox : Inbox A) (into : Mem A)
      → run (scatter_sends n root size left s) inbox from into ≡ some (into, scatter_out left s)
  unfolding run scatter_sends scatter_out
  scatter_sends_run zero s inbox into = refl
  scatter_sends_run (suc left) s inbox into = rw (scatter_sends_run left (s + 1) inbox into) refl

  -- From step `s` on, a rank is sent its block once if its turn is still to come.
  addressed-scatter_out :
      (left s p : ℕ)
      → s + left ≡ n
      → p < n
      → addressed p (scatter_out left s) ≡ (if leb s (behind n root p) then block p ∷ [] else [])
  unfolding addressed scatter_out
  addressed-scatter_out zero s p e hp = ground (arith, behind-lt n root hr p hp)
  addressed-scatter_out (suc left) s p e hp =
      let peer = (root + s) % n in
      let (lt, back) = peer-behind n root hr s (omega arith) in
      elim (ℕ_discrete peer p) [
        | yes q ↦ rw q (
            ground (
              arith,
              addressed-scatter_out left (s + 1) p (omega arith) hp,
              ap (behind n root) q,
              back,
            ))
        | no nq ↦ ground (
          arith,
          addressed-scatter_out left (s + 1) p (omega arith) hp,
          behind-eq n root hr s p (omega arith) hp,
        )
      ]

  -- The receive buffer of rank `r` starts with its block of the root, and is else unchanged.
  abbrev pub Kept : ℕ → Mem A → Mem A → Type 0
  Kept r m into =
      ((i : ℕ) → i < size → m i ≡ from (r * size + i)) × ((j : ℕ) → size ≤ j → m j ≡ into j)

  -- A scatter of blocks that are not empty, over two ranks or more: the root sends every other rank
  -- one message and keeps its own block; each rank, given what the root sent it, ends with its block
  -- of the root's send buffer at the start of its receive buffer, and the rest of that unchanged.
  pub scatter_lem :
      1 < n
      → 0 < size
      → (out : Outbox A) × ((inbox : Inbox A) (into : Mem A)
          → (m : Mem A) × (run (scatter n root size root) inbox from into ≡ some (m, out))
            × Kept root m into)
        × ((r : ℕ) (own into : Mem A)
            → r < n
            → r ≢ root
            → (m : Mem A) × (run (scatter n root size r) (λ p. addressed r out) own into
                ≡ some (m, []))
              × Kept r m into)
  unfolding scatter run copy_to
  scatter_lem hn hs = (
    scatter_out (n - 1) 1,
    (λ inbox into. (
      copy_to into 0 size (λ i. from (root * size + i)),
      ground (
        arith,
        scatter_sends_run (n - 1) 1 inbox (copy_to into 0 size (λ i. from (root * size + i))),
      ),
      ((λ i hi. ground arith), λ j hj. ground arith),
    )),
    λ r own into h ne.
        let arrives : addressed r (scatter_out (n - 1) 1) ≡ block r ∷ [] =
          ground
            (arith, addressed-scatter_out (n - 1) 1 r (omega arith) h, behind_zero n root hr r h) in
        (
          copy_to into 0 size (block r).bytes,
          rw arrives (ground arith),
          ((λ i hi. ground arith), λ j hj. ground arith),
        ),
  )
