-- ===== src/Collectives/Ring/Fold.antt =====
-- What a ring reduction means, apart from the code: the contributions of the ranks combined in the
-- order in which a chunk travels.
use native.Mathlib.Numerals.{add-one}
use vkccl.Prelude.{◌≡◌, ℕ, zero, suc, ◌+◌, ◌%◌}
use vkccl.Net.{World}

-- The partial result of the elements that start at rank `c`, after `hops` hops: the new rank's
-- element is the left operand.
unfoldable pub ring_fold : {A : Type 0} → (A → A → A) → ℕ → World A → ℕ → ℕ → ℕ → A
ring_fold op n w c i zero = w c i
ring_fold op n w c i (suc hops) = op (w ((c + suc hops) % n) i) (ring_fold op n w c i hops)

pub ring_fold_step :
    {A : Type 0} (op : A → A → A) (n : ℕ) (w : World A) (c i hops : ℕ)
    → ring_fold op n w c i (hops + 1) ≡ op (w ((c + (hops + 1)) % n) i) (ring_fold op n w c i hops)
unfolding ring_fold
ring_fold_step op n w c i hops = rw (add-one hops)
