-- ===== src/Collectives/Rooted/Tests.antt =====
-- Four ranks with the root 2, in blocks of three bytes, and a broadcast of ten bytes in pieces of
-- four.
use vkccl.Prelude.{ℕ, ◌+◌, ◌*◌, ◌≤◌, ◌<◌, ◌≡◌, ◌≢◌, some, [], arith}
use vkccl.Net.{Mem, World}
use vkccl.Collectives.Program.{Inbox, Outbox, addressed, run}
use vkccl.Collectives.Rooted.{gather, scatter}
use vkccl.Collectives.Rooted.Gather.{gather_lem}
use vkccl.Collectives.Rooted.Scatter.{Kept, scatter_lem}

abbrev inputs : World ℕ
inputs r i = 100 * r + i

gather_example :
    (outs : ℕ → Outbox ℕ) × ((r : ℕ) (inbox : Inbox ℕ) (into : Mem ℕ)
      → r < 4
      → r ≢ 2
      → run (gather 4 2 3 r) inbox (inputs r) into ≡ some (into, outs r))
    × ((into : Mem ℕ)
        → (m : Mem ℕ) × (run (gather 4 2 3 2) (λ p. addressed 2 (outs p)) (inputs 2) into
            ≡ some (m, []))
          × ((p i : ℕ) → p < 4 → i < 3 → m (p * 3 + i) ≡ inputs p i)
          × ((j : ℕ) → 4 * 3 ≤ j → m j ≡ into j))
gather_example = gather_lem 4 2 3 (omega arith) inputs (omega arith) (omega arith)

scatter_example :
    (out : Outbox ℕ) × ((inbox : Inbox ℕ) (into : Mem ℕ)
      → (m : Mem ℕ) × (run (scatter 4 2 3 2) inbox (inputs 2) into ≡ some (m, out))
        × Kept 4 2 3 (omega arith) (inputs 2) 2 m into)
    × ((r : ℕ) (own into : Mem ℕ)
        → r < 4
        → r ≢ 2
        → (m : Mem ℕ) × (run (scatter 4 2 3 r) (λ p. addressed r out) own into ≡ some (m, []))
          × Kept 4 2 3 (omega arith) (inputs 2) r m into)
scatter_example = scatter_lem 4 2 3 (omega arith) (inputs 2) (omega arith) (omega arith)
