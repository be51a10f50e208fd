-- ===== src/Comm/Registrar.antt =====
-- src/transport/transport.h: what a communicator asks of its transport about memory registrations
-- (`regMr`, `deregMr`, `covers`), behind the laws that its clients rely on. A handle that is not
-- null is a number.
use vkccl.Prelude.{ℕ, Bool, true, false, ◌≡◌, Option, none, some, ◌==◌, if◌then◌else◌}
use vkccl.Types.{Result, success}

pub record Registrar : Type 1 where
  pub State : Type 0
  pub reg_mr : State → ℕ → ℕ → Result × Option ℕ × State
  pub dereg_mr : State → ℕ → State
  pub covers : State → ℕ → ℕ → Bool
  -- Which handles are registered.
  pub live : State → ℕ → Bool
  -- A new handle is one that was not registered, and no other changes.
  pub reg_live :
      (t : State) (addr len h : ℕ) (t' : State)
      → reg_mr t addr len ≡ (success, some h, t')
      → (live t h ≡ false) × ((j : ℕ) → live t' j ≡ (if j == h then true else live t j))
  -- A call that hands out no handle registers nothing.
  pub reg_none :
      (t : State) (addr len : ℕ) (res : Result) (t' : State)
      → reg_mr t addr len ≡ (res, none, t')
      → (j : ℕ) → live t' j ≡ live t j
  -- A call that fails hands out no handle.
  pub reg_fail :
      (t : State) (addr len h : ℕ) (res : Result) (t' : State)
      → reg_mr t addr len ≡ (res, some h, t')
      → res ≡ success
  pub dereg_live :
      (t : State) (h j : ℕ) → live (dereg_mr t h) j ≡ (if j == h then false else live t j)
