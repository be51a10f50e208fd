-- ===== src/Group/Tests.antt =====
-- A group of three operations on two communicators, and a queue on a machine that counts.
use vkccl.Prelude.{
  ℕ, ◌+◌, ◌-◌, ◌*◌, ◌≤◌, ◌≡◌, ◌⊎◌, true, List, [], ◌∷◌, map, ltb, ◌==◌, if◌then◌else◌, length,
}
use vkccl.Types.{Result, success, internal_error, invalid_usage, remote_error}
use vkccl.Group.{P2pOp, Work, closure, p2p, GroupState, Machine, run_comm_ops, Launch, group_end}
use vkccl.Group.Runs.{segments, run_segments, run_comm_ops_lem}
use vkccl.Group.Order.{Answered, Firsts, Runs, no_repeat, total_work, group_end_lem}

-- A closure adds its number, a batch adds its length, and a noted error multiplies by 100.
abbrev counter : Machine ℕ ℕ
counter = record {
  run = λ c s. (if ltb c 5 then success else internal_error, s + c);
  has_transport = λ s. true;
  batch = λ ops s. (success, s + length ops);
  send_recv = λ op s. (success, s);
  note_error = λ res s. s * 100;
}

abbrev send_one : P2pOp
send_one = record { is_send = true; peer = 1; buf = 0; bytes = 8 }

abbrev queue : List (Work ℕ)
queue = p2p send_one ∷ p2p send_one ∷ closure 3 ∷ closure 7 ∷ p2p send_one ∷ []

run_comm_ops_example : run_comm_ops counter queue 0 ≡ run_segments counter (segments queue) 0
run_comm_ops_example = run_comm_ops_lem counter queue 0

abbrev open_group : GroupState ℕ
open_group = record {
  depth = 1;
  ops =
      record { comm = 7; work = closure 1 }
      ∷ record { comm = 4; work = p2p send_one }
      ∷ record { comm = 7; work = p2p send_one }
      ∷ [];
}

abbrev outcome : Launch ℕ → Result
outcome l = if l.0 == 4 then remote_error else success

group_end_example :
    ((open_group.depth ≡ 0) × (group_end outcome open_group ≡ (invalid_usage, open_group, [])))
    ⊎ ((2 ≤ open_group.depth)
        × (group_end outcome open_group
            ≡ (success, record { depth = open_group.depth - 1; ops = open_group.ops }, [])))
    ⊎ ((order : List ℕ) × (runs : List (Launch ℕ)) × (res : Result) × (open_group.depth ≡ 1)
        × (group_end outcome open_group ≡ (res, record { depth = 0; ops = [] }, runs))
        × Answered (map outcome runs) res
        × Firsts [] open_group.ops order
        × Runs order open_group.ops runs
        × (no_repeat order ≡ true)
        × (total_work runs ≡ length open_group.ops))
group_end_example = group_end_lem outcome open_group
