-- ===== src/Topology.antt =====
-- The ring of ranks: `vcclComm::next` and `vcclComm::prev` (src/core/comm.h).
use vkccl.Prelude.{ℕ, ◌+◌, ◌-◌, ◌%◌, ◌<◌, ◌≡◌, ◌⊎◌, arith, wrap}

module _ (n : ℕ) where
  unfoldable pub next : ℕ → ℕ
  next r = (r + 1) % n

  pub prev : ℕ → ℕ
  prev r = (r + n - 1) % n

  pub next_cases : (r : ℕ) → r < n → ((r + 1 < n) × (next r ≡ r + 1)) ⊎ ((r + 1 ≡ n) × (next r ≡ 0))
  unfolding next
  next_cases r h = ground (arith, wrap (r + 1) n (omega arith))

  pub prev_cases : (r : ℕ) → r < n → ((0 < r) × (prev r + 1 ≡ r)) ⊎ ((r ≡ 0) × (prev r + 1 ≡ n))
  unfolding prev
  prev_cases r h = ground (arith, wrap (r + n - 1) n (omega arith))

  pub next-lt : (r : ℕ) → r < n → next r < n
  next-lt r h = omega (arith, next_cases r h)

  pub prev-lt : (r : ℕ) → r < n → prev r < n
  prev-lt r h = omega (arith, prev_cases r h)

  -- The neighbours of a rank point back at it.
  pub next-prev : (r : ℕ) → r < n → next (prev r) ≡ r
  next-prev r h = omega (arith, prev_cases r h, next_cases (prev r) (prev-lt r h))

  pub prev-next : (r : ℕ) → r < n → prev (next r) ≡ r
  prev-next r h = omega (arith, next_cases r h, prev_cases (next r) (next-lt r h))
