-- ===== src/Tcp/Tests.antt =====
-- src/transport/tcp.cc: rank 1 of three ranks, and a batch with partial moves.
use vkccl.Prelude.{ℕ, ◌+◌, ◌≡◌, refl, true, false, Option, none, List, [], ◌∷◌, arith, ◌==◌, pos}
use vkccl.Types.{success, system_error}
use vkccl.Slots.{is_free, put}
use vkccl.Group.{P2pOp}
use vkccl.Socket.{done}
use vkccl.Tcp.Mesh.{
  Dial, Visit, connect_peers, accept_peers, Setup, no_fds, then_accept, tcp_create, verbs,
  transport_create, tcp_create_lem,
}
use vkccl.Tcp.Batch.{
  Answer, advanced, blocked, Piece, fill, visit, and_then, pass, Round, batch_loop, tcp_batch,
}
use vkccl.Tcp.Batch.Delivery.{bytes_of, wanted, tcp_batch_lem}

abbrev ready : Setup
ready = record { listening = success; advertised = success; gathered = success }

abbrev dials : ℕ → Dial
dials p = record { connected = success; fd = 20 + p; greeted = success }

abbrev visits : ℕ → Visit
visits i = record { accepted = success; fd = 30 + i; received = success; peer_rank = pos i }

abbrev mesh_fds : ℕ → Option ℕ
mesh_fds = put (put no_fds 0 20) 2 32

mesh_run : tcp_create ready dials visits 1 3 ≡ (success, mesh_fds)
unfolding tcp_create connect_peers accept_peers then_accept
mesh_run = refl

tcp_create_lem_example : is_free (mesh_fds 2) ≡ (2 == 1)
tcp_create_lem_example =
    tcp_create_lem ready dials visits 1 3 mesh_fds (omega arith) mesh_run 2 (omega arith)

abbrev p2p_ops : List P2pOp
p2p_ops =
    record { is_send = true; peer = 1; buf = 100; bytes = 3 }
    ∷ record { is_send = false; peer = 0; buf = 200; bytes = 1 }
    ∷ record { is_send = true; peer = 1; buf = 300; bytes = 1 }
    ∷ []

abbrev round_of : (ℕ → Answer) → Round
round_of f = record { answers = f; aborted = false; poll_failed = false; expired = false }

-- Two bytes, then nothing, then one, then the second operation.
abbrev p2p_rounds : List Round
p2p_rounds =
    round_of (λ s. advanced 1)
    ∷ round_of (λ s. blocked)
    ∷ round_of (λ s. advanced 5)
    ∷ round_of (λ s. advanced 0)
    ∷ []

abbrev p2p_log : List Piece
p2p_log =
    record { slot = 0; addr = 200; len = 1 }
    ∷ record { slot = 3; addr = 100; len = 2 }
    ∷ record { slot = 3; addr = 102; len = 1 }
    ∷ record { slot = 3; addr = 300; len = 1 }
    ∷ []

batch_run : tcp_batch 2 p2p_rounds p2p_ops ≡ (done, p2p_log)
unfolding tcp_batch fill batch_loop pass and_then visit
batch_run = refl

tcp_batch_lem_example : bytes_of 3 p2p_log ≡ wanted 3 p2p_ops
tcp_batch_lem_example =
    tcp_batch_lem 2 p2p_rounds p2p_ops p2p_log (omega arith, (omega arith, (omega arith, tt)))
      batch_run 3 (omega arith)

no_device : transport_create true verbs false ≡ (system_error, none)
unfolding transport_create
no_device = refl
