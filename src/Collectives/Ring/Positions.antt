-- ===== src/Collectives/Ring/Positions.antt =====
-- src/core/collectives.cc: the chunk that a rank sends and the one that it receives in step `s` of
-- `ringReduceScatter` and of `ringAllGather`.
use vkccl.Prelude.{ℕ, ◌+◌, ◌-◌, ◌*◌, ◌%◌, ◌≤◌, ◌<◌, ◌≡◌, arith, wrap}
use vkccl.Topology.{prev, prev_cases, next, next_cases}

module _ (n : ℕ) where
  -- `(r - s + n) % n` and `(r - s - 1 + 2 * n) % n`
  pub reduce_send : ℕ → ℕ → ℕ
  reduce_send r s = (r + n - s) % n

  unfoldable pub reduce_recv : ℕ → ℕ → ℕ
  reduce_recv r s = (r + 2 * n - s - 1) % n

  -- `(r + startShift - s + 2 * n) % n` and `(r + startShift - s - 1 + 2 * n) % n`
  pub gather_send : ℕ → ℕ → ℕ → ℕ
  gather_send shift r s = (r + shift + 2 * n - s) % n

  pub gather_recv : ℕ → ℕ → ℕ → ℕ
  gather_recv shift r s = (r + shift + 2 * n - s - 1) % n

  -- How many hops rank `r` lies behind the rank that chunk `c` starts at.
  unfoldable pub dist : ℕ → ℕ → ℕ
  dist c r = (r + n - c) % n

  module _ (r s : ℕ) (hr : r < n) (hs : s + 1 < n) where
    pub reduce_recv-lt : reduce_recv r s < n
    unfolding reduce_recv
    reduce_recv-lt = omega (arith, wrap (r + 2 * n - s - 1) n (omega arith))

    pub reduce_send-prev : reduce_send (prev n r) s ≡ reduce_recv r s
    unfolding reduce_send reduce_recv
    reduce_send-prev = ground (
      arith,
      prev_cases n r hr,
      wrap (prev n r + n - s) n (omega (arith, prev_cases n r hr)),
      wrap (r + 2 * n - s - 1) n (omega arith),
    )

    pub dist-reduce_recv : dist (reduce_recv r s) r ≡ s + 1
    unfolding dist reduce_recv
    dist-reduce_recv = ground (
      arith,
      wrap (r + 2 * n - s - 1) n (omega arith),
      wrap (r + n - (r + 2 * n - s - 1) % n) n (omega arith),
    )

    pub dist-reduce_recv-prev : dist (reduce_recv r s) (prev n r) ≡ s
    unfolding dist reduce_recv
    dist-reduce_recv-prev = ground (
      arith,
      prev_cases n r hr,
      wrap (r + 2 * n - s - 1) n (omega arith),
      wrap (prev n r + n - (r + 2 * n - s - 1) % n) n (omega (arith, prev_cases n r hr)),
    )

    pub reduce_recv_unique : (c : ℕ) → c < n → dist c r ≡ s + 1 → c ≡ reduce_recv r s
    unfolding dist reduce_recv
    reduce_recv_unique c hc e =
        ground (arith, wrap (r + 2 * n - s - 1) n (omega arith), wrap (r + n - c) n (omega arith))

  pub dist-lt : (c r : ℕ) → c < n → r < n → dist c r < n
  unfolding dist
  dist-lt c r hc hr = ground (arith, wrap (r + n - c) n (omega arith))

  -- A chunk starts at the rank of its own number.
  pub dist_zero : (c r : ℕ) → c < n → r < n → dist c r ≡ 0 → c ≡ r
  unfolding dist
  dist_zero c r hc hr e = ground (arith, wrap (r + n - c) n (omega arith))

  -- The rank `k` hops behind the start of a chunk.
  pub dist_add : (c r : ℕ) → c < n → r < n → (c + dist c r) % n ≡ r
  unfolding dist
  dist_add c r hc hr = ground (
    arith,
    wrap (r + n - c) n (omega arith),
    wrap (c + (r + n - c) % n) n (omega (arith, wrap (r + n - c) n (omega arith))),
  )

  -- The last hop ends at the rank before the chunk's own.
  pub dist-next : (r : ℕ) → r < n → dist (next n r) r ≡ n - 1
  unfolding dist
  dist-next r hr =
      ground
        (arith, next_cases n r hr, wrap (r + n - next n r) n (omega (arith, next_cases n r hr)))

  -- How many steps chunk `c` takes to reach rank `r`, where rank `r` starts with chunk
  -- `(r + shift) % n`.
  pub held : ℕ → ℕ → ℕ → ℕ
  held shift c r = (r + shift + n - c) % n

  module _ (shift : ℕ) (small : shift ≤ 1) where
    module _ (r s : ℕ) (hr : r < n) (hs : s + 1 < n) where
      pub gather_recv-lt : gather_recv shift r s < n
      unfolding gather_recv
      gather_recv-lt = omega (arith, wrap (r + shift + 2 * n - s - 1) n (omega arith))

      pub gather_send-prev : gather_send shift (prev n r) s ≡ gather_recv shift r s
      unfolding gather_send gather_recv
      gather_send-prev = ground (
        arith,
        prev_cases n r hr,
        wrap (prev n r + shift + 2 * n - s) n (omega (arith, prev_cases n r hr)),
        wrap (r + shift + 2 * n - s - 1) n (omega arith),
      )

      pub held-gather_recv-prev : held shift (gather_recv shift r s) (prev n r) ≡ s
      unfolding held gather_recv
      held-gather_recv-prev = ground (
        arith,
        prev_cases n r hr,
        wrap (r + shift + 2 * n - s - 1) n (omega arith),
        wrap (prev n r + shift + n - (r + shift + 2 * n - s - 1) % n) n
            (omega (arith, prev_cases n r hr)),
      )

      pub gather_recv_unique : (c : ℕ) → c < n → held shift c r ≡ s + 1 → c ≡ gather_recv shift r s
      unfolding held gather_recv
      gather_recv_unique c hc e = ground (
        arith,
        wrap (r + shift + 2 * n - s - 1) n (omega arith),
        wrap (r + shift + n - c) n (omega arith),
      )

    pub held-lt : (c r : ℕ) → c < n → r < n → held shift c r < n
    unfolding held
    held-lt c r hc hr = ground (arith, wrap (r + shift + n - c) n (omega arith))

    -- A rank starts with one chunk.
    pub held_zero : (c r : ℕ) → c < n → r < n → held shift c r ≡ 0 → c ≡ (r + shift) % n
    unfolding held
    held_zero c r hc hr e =
        ground (arith, wrap (r + shift + n - c) n (omega arith), wrap (r + shift) n (omega arith))
