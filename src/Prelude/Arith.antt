-- ===== src/Prelude/Arith.antt =====
-- Arithmetic of ring positions: remainders by the number of ranks.
use Prim.Native.Nat.{ℕ, ◌-◌, ◌*◌, ◌%◌, ◌≤◌, ◌<◌}
use mathlib.Core.Path.{◌≡◌}
use mathlib.Core.Logic.{◌⊎◌, inl, inr}
use native.Mathlib.Decide.{dec_lt}
use native.Mathlib.Nat.{mod-eq-sub-mod}
use native.Mathlib.Omega.{arith}

mod_once : (a n : ℕ) → a < n → a % n ≡ a
mod_once a n h = grind arith

mod_twice : (a n : ℕ) → n ≤ a → a < 2 * n → a % n ≡ a - n
mod_twice a n h k = grind arith

mod_thrice : (a n : ℕ) → 2 * n ≤ a → a < 3 * n → a % n ≡ a - 2 * n
mod_thrice a n h k = grind arith

mod_fourth : (a n : ℕ) → 3 * n ≤ a → a < 4 * n → a % n ≡ a - 3 * n
mod_fourth a n h k = omega (
  arith,
  mod-eq-sub-mod {n = a} {m = n} (omega arith),
  mod_thrice (a - n) n (omega arith) (omega arith),
)

-- A remainder of a number below four turns.
pub wrap :
    (a n : ℕ)
    → a < 4 * n
    → ((a < n) × (a % n ≡ a))
      ⊎ ((n ≤ a) × (a < 2 * n) × (a % n ≡ a - n))
      ⊎ ((2 * n ≤ a) × (a < 3 * n) × (a % n ≡ a - 2 * n))
      ⊎ ((3 * n ≤ a) × (a % n ≡ a - 3 * n))
wrap a n h = elim (dec_lt a n) [
  | yes p ↦ inl (p, mod_once a n p)
  | no p ↦ elim (dec_lt a (2 * n)) [
    | yes q ↦ inr (inl (omega arith, q, mod_twice a n (omega arith) q))
    | no q ↦ elim (dec_lt a (3 * n)) [
      | yes t ↦ inr (inr (inl (omega arith, t, mod_thrice a n (omega arith) t)))
      | no t ↦ inr (inr (inr (omega arith, mod_fourth a n (omega arith) h)))
    ]
  ]
]
