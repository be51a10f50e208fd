-- ===== src/Deadline.antt =====
-- src/util/deadline.h: the watchdog from VCCL_TIMEOUT. A time is a count of nanoseconds on the steady
-- clock, and the value of the variable is what `atoi` reads.
mod Tests
use vkccl.Prelude.{
  ℕ, ◌+◌, ◌-◌, ◌*◌, ◌/◌, ◌≤◌, ◌<◌, ◌≡◌, ◌↔◌, ◌&&◌, Bool, true, false, Option, none, some, arith,
  ltb, leb, dec_lt, lt→ltb, ge→ltb, if◌then◌else◌, ℤ, pos, negsuc, to_ℕ, max, ◌⊎◌, inl, inr,
}

-- `timeoutSeconds`
abbrev pub timeout_seconds : Option ℤ → ℤ
timeout_seconds none = pos 60
timeout_seconds (some v) = v

-- `connectTimeoutMs`
pub connect_timeout_ms : ℤ → ℕ
connect_timeout_ms (negsuc k) = 120000
connect_timeout_ms (pos secs) =
    if leb secs 0 then 120000 else if ltb 120 secs then 120000 else secs * 1000

-- `Deadline`
pub record Deadline : Type 0 where
  pub enabled : Bool
  pub end : ℕ

-- `Deadline()` at a time.
pub deadline : ℤ → ℕ → Deadline
deadline secs now = record { enabled = ltb 0 (to_ℕ secs); end = now + to_ℕ secs * 1_000_000_000 }

pub expired : Deadline → ℕ → Bool
expired d now = d.enabled && leb d.end now

-- `pollMs`: `none` stands for -1, a poll without a limit.
pub poll_ms : Deadline → ℕ → Option ℕ
poll_ms d now =
    let left = (d.end - now) / 1_000_000 in
    if d.enabled
    then some (if leb left 0 then 0 else if ltb 60000 left then 60000 else left)
    else none

-- A poll under a watchdog waits at most a minute and ends no later than the deadline; it returns
-- at once only in the last millisecond, so a loop that polls until `expired` neither sleeps past
-- the deadline nor spins long before it. Without a watchdog a poll has no limit and nothing expires.
pub poll_ms_lem :
    (secs : ℤ) (start now : ℕ)
    → ((to_ℕ secs ≡ 0)
        × (poll_ms (deadline secs start) now ≡ none)
        × (expired (deadline secs start) now ≡ false))
      ⊎ ((m : ℕ) × (poll_ms (deadline secs start) now ≡ some m)
          × (m ≤ 60000)
          × (now + m * 1_000_000 ≤ max now (start + to_ℕ secs * 1_000_000_000))
          × ((m ≡ 0) → start + to_ℕ secs * 1_000_000_000 < now + 1_000_000))
unfolding poll_ms deadline expired
poll_ms_lem (negsuc k) start now = inl (ground arith, ground arith, ground arith)
poll_ms_lem (pos secs) start now =
    let left = (start + secs * 1_000_000_000 - now) / 1_000_000 in
    elim (dec_lt 0 secs) [
      | yes l ↦ inr (
        if leb left 0 then 0 else if ltb 60000 left then 60000 else left,
        ground (arith, lt→ltb 0 secs l),
        ground arith,
        ground arith,
        ground arith,
      )
      | no ¬l ↦ inl (
        omega arith,
        ground (arith, ge→ltb 0 secs (omega arith)),
        ground (arith, ge→ltb 0 secs (omega arith)),
      )
    ]

-- A connect tries for at least a second and at most two minutes.
connect_timeout_bounds :
    (secs : ℤ) → (1000 ≤ connect_timeout_ms secs) × (connect_timeout_ms secs ≤ 120000)
unfolding connect_timeout_ms
connect_timeout_bounds (negsuc k) = omega arith
connect_timeout_bounds (pos secs) = ground arith
