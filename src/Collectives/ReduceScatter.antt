-- ===== src/Collectives/ReduceScatter.antt =====
-- src/core/collectives.cc: `doReduceScatter` of all ranks, for any operation on elements. The loops
-- of src/core/reduce.cc are read element by element; they succeed, since the entry point has let
-- through only the types and operators that they know. The two buffers that take turns to receive
-- are the messages received.
pub mod Travel
mod Tests
use vkccl.Prelude.{
  ℕ, ◌+◌, ◌-◌, ◌*◌, ◌%◌, ◌≡◌, refl, Bool, true, false, ◌||◌, Option, none, some, ◌==◌,
  if◌then◌else◌,
}
use vkccl.Topology.{next, prev}
use vkccl.Net.{Mem, World, SendRecv, exchange, copy_to, rounds}
use vkccl.Reduce.Loops.{reduce_native}

-- The loops on one element: `cpuReduce`, `cpuScaledAccumulate`, `cpuScaleCopy` (or `cpuScale`) by
-- the scalar, and `cpuScale` by `1.0 / n`; and which of them the operator asks for.
pub record Operator (A : Type 0) : Type 0 where
  pub reduce : A → A → A
  pub scaled_add : A → A → A
  pub scaled : A → A
  pub average : A → A
  pub premul : Bool
  pub is_avg : Bool

-- `(r - s - 2 + 2 * n) % n`
abbrev pub scatter_recv : ℕ → ℕ → ℕ → ℕ
scatter_recv n r s = (r + 2 * n - s - 2) % n

-- `cpuScaleCopy` where the operator is a PreMulSum, else memcpy.
abbrev pub contribution : {A : Type 0} → Operator A → A → A
contribution o x = if o.premul then o.scaled x else x

-- `cpuScaledAccumulate` where the operator is a PreMulSum, else `cpuReduce`.
abbrev pub add_in : {A : Type 0} → Operator A → A → A → A
add_in o = if o.premul then o.scaled_add else o.reduce

applied :
    {A : Type 0} (b : Bool) (f g : A → A → A) (x y : A)
    → (if b then f else g) x y ≡ (if b then f x y else g x y)
applied true f g x y = refl
applied false f g x y = refl

-- One element that is added in.
pub add_in-eq :
    {A : Type 0} (o : Operator A) (sum x : A)
    → add_in o sum x ≡ (if o.premul then o.scaled_add sum x else o.reduce sum x)
add_in-eq o sum x = applied o.premul o.scaled_add o.reduce sum x

-- `send + c * chunkBytes`
abbrev pub chunk_of : {A : Type 0} → ℕ → World A → ℕ → ℕ → Mem A
chunk_of recvcount send r c i = send r (c * recvcount + i)

-- The `sendRecv` of a step, from `sendPtr`.
unfoldable pub partial_call : ℕ → ℕ → ℕ → ℕ → SendRecv
partial_call n recvcount esize r = record {
  send_peer = next n r;
  send_at = 0;
  send_len = recvcount * esize;
  recv_peer = prev n r;
  recv_len = recvcount * esize;
}

module _ {A : Type 0} (o : Operator A) (n recvcount esize : ℕ) (send : World A) where
  -- What `sendPtr` points to before the loop.
  unfoldable pub first_partial : World A
  first_partial r i = contribution o (chunk_of recvcount send r ((r + n - 1) % n) i)

  -- `cpuScaledAccumulate` or `cpuReduce` of the local chunk into the partial received.
  unfoldable pub hop : ℕ → World A → World A
  hop s received r =
      reduce_native (add_in o) (received r) 0 (chunk_of recvcount send r (scatter_recv n r s))
        recvcount

  -- The final hop reduces the partial received into the local chunk, in the receive buffer.
  unfoldable pub final_hop : ℕ → World A → World A → World A
  final_hop s received out r =
      reduce_native o.reduce
        (copy_to (out r) 0 recvcount
          (λ i. contribution o (chunk_of recvcount send r (scatter_recv n r s) i)))
        0 (received r) recvcount

  -- The partials to send and the receive buffers, after a step.
  unfoldable pub scatter_next : ℕ → World A → World A → World A × World A
  scatter_next s received out =
      if s + 2 == n then (received, final_hop s received out) else (hop s received, out)

  unfoldable pub scatter_step : ℕ → World A × World A → Option (World A × World A)
  scatter_step s (w, out) = elim (exchange n (partial_call n recvcount esize) w) [
    | none ↦ none
    | some received ↦ some (scatter_next s received out)
  ]

  -- `if (op == vcclAvg)`
  unfoldable pub averaged : World A → World A
  averaged out r =
      if o.is_avg then copy_to (out r) 0 recvcount (λ i. o.average (out r i)) else out r

  -- `doReduceScatter`
  unfoldable pub reduce_scatter : World A → Option (World A)
  reduce_scatter recv =
      let short : World A = λ r. copy_to (recv r) 0 recvcount (λ i. contribution o (send r i)) in
      let long : Option (World A) = elim (rounds scatter_step (n - 1) 0 (first_partial, recv)) [
        | none ↦ none
        | some st ↦ some (averaged st.1)
      ] in
      if n == 1 || recvcount == 0 then some short else long
