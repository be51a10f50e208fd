-- ===== src/Group/Runs.antt =====
-- src/core/group.cc, `runCommOps`: a queue is closures and maximal runs of point-to-point operations.
use vkccl.Prelude.{
  ℕ, zero, suc, ◌≤◌, ◌≡◌, refl, List, [], ◌∷◌, if◌then◌else◌, length, arith, inl, inr, Bool-cases,
}
use vkccl.Types.{
  Result, success, unhandled_error, system_error, internal_error, invalid_argument, invalid_usage,
  remote_error, is_success,
}
use vkccl.Group.{P2pOp, Work, closure, p2p, Machine, noting, span_p2p, run_from, run_comm_ops}

-- A closure, or operations for one call of `Transport::batch`.
pub data Segment (C : Type 0) : Type 0 where
  one : C → Segment C
  many : List P2pOp → Segment C

module _ {C : Type 0} where
  -- A point-to-point operation joins the batch that follows it.
  pub join : P2pOp → List (Segment C) → List (Segment C)
  join op [] = many (op ∷ []) ∷ []
  join op (one c ∷ gs) = many (op ∷ []) ∷ one c ∷ gs
  join op (many ops ∷ gs) = many (op ∷ ops) ∷ gs

  pub segments : List (Work C) → List (Segment C)
  unfolding join
  segments [] = []
  segments (closure c ∷ ws) = one c ∷ segments ws
  segments (p2p op ∷ ws) = join op (segments ws)

module _ {C S : Type 0} (M : Machine C S) where
  open M use {run, has_transport, batch, note_error}

  -- What a segment ends with and what runs after it: a failure is noted and ends the run.
  pub then_run : Result × S → (S → Result × S) → Result × S
  then_run (success, s) more = more s
  then_run (res, s) more = (res, note_error res s)

  -- The segments in order. A batch without a transport is an invalid usage, which is not noted.
  pub run_segments : List (Segment C) → S → Result × S
  unfolding then_run
  run_segments [] s = (success, s)
  run_segments (one c ∷ gs) s = then_run (run c s) (run_segments gs)
  run_segments (many ops ∷ gs) s =
      if has_transport s then then_run (batch ops s) (run_segments gs) else (invalid_usage, s)

  span_segments :
      (op : P2pOp) (ws : List (Work C))
      → segments (p2p op ∷ ws) ≡ many (op ∷ (span_p2p M ws).0) ∷ segments (span_p2p M ws).1
  unfolding segments join span_p2p
  span_segments op [] = refl
  span_segments op (closure c ∷ ws) = refl
  span_segments op (p2p o ∷ ws) = rw (span_segments o ws) refl

  span_shorter : (ws : List (Work C)) → length (span_p2p M ws).1 ≤ length ws
  unfolding span_p2p
  span_shorter [] = omega arith
  span_shorter (closure c ∷ ws) = omega arith
  span_shorter (p2p o ∷ ws) = let h = span_shorter ws in omega arith

  -- The code's guard on what a step has noted is the same.
  noted :
      (r : Result × S) (more : S → Result × S)
      → (if is_success (noting M r).0 then more (noting M r).1 else noting M r) ≡ then_run r more
  unfolding noting then_run
  noted (success, s) more = refl
  noted (unhandled_error, s) more = refl
  noted (system_error, s) more = refl
  noted (internal_error, s) more = refl
  noted (invalid_argument, s) more = refl
  noted (invalid_usage, s) more = refl
  noted (remote_error, s) more = refl

  run_from-segments :
      (fuel : ℕ) (ws : List (Work C)) (s : S)
      → length ws ≤ fuel
      → run_from M fuel ws s ≡ run_segments (segments ws) s
  unfolding run_from run_segments segments
  run_from-segments fuel [] s h = refl
  run_from-segments zero (w ∷ ws) s h = absurd (omega arith)
  run_from-segments (suc fuel) (closure c ∷ ws) s h =
      rw (run_from-segments fuel ws (noting M (run c s)).1 (omega arith))
        (noted (run c s) (run_segments (segments ws)))
  run_from-segments (suc fuel) (p2p op ∷ ws) s h =
      rw
        (
          span_segments op ws,
          run_from-segments fuel (span_p2p M ws).1 (noting M (batch (op ∷ (span_p2p M ws).0) s)).1
              (omega (arith, span_shorter ws)),
        )
        (elim (Bool-cases (has_transport s)) [
          | inl t ↦
              rw t (
                noted (batch (op ∷ (span_p2p M ws).0) s)
                  (run_segments (segments (span_p2p M ws).1)))
          | inr t ↦ rw t refl
        ])

-- `runCommOps` runs the maximal batches of consecutive point-to-point operations and the closures
-- between them in issue order, and stops at the first that fails, whose result is noted, or where a
-- batch has no transport, an invalid usage, which is not; its loop ends within one round for each
-- operation.
pub run_comm_ops_lem :
    {C S : Type 0} (M : Machine C S) (ws : List (Work C)) (s : S)
    → run_comm_ops M ws s ≡ run_segments M (segments ws) s
unfolding run_comm_ops
run_comm_ops_lem M ws s = run_from-segments M (length ws) ws s (omega arith)
