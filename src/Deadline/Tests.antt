-- ===== src/Deadline/Tests.antt =====
-- A watchdog of two seconds, half a second after it started.
use vkccl.Prelude.{ℕ, ◌+◌, ◌*◌, ◌≤◌, ◌<◌, max, ◌≡◌, ◌⊎◌, false, none, some, pos, to_ℕ}
use vkccl.Deadline.{deadline, expired, poll_ms, poll_ms_lem}

poll_ms_example :
    ((to_ℕ (pos 2) ≡ 0)
      × (poll_ms (deadline (pos 2) 1000) 500_001_000 ≡ none)
      × (expired (deadline (pos 2) 1000) 500_001_000 ≡ false))
    ⊎ ((m : ℕ) × (poll_ms (deadline (pos 2) 1000) 500_001_000 ≡ some m)
        × (m ≤ 60000)
        × (500_001_000 + m * 1_000_000 ≤ max 500_001_000 (1000 + to_ℕ (pos 2) * 1_000_000_000))
        × ((m ≡ 0) → 1000 + to_ℕ (pos 2) * 1_000_000_000 < 500_001_000 + 1_000_000))
poll_ms_example = poll_ms_lem (pos 2) 1000 500_001_000
