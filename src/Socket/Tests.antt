-- ===== src/Socket/Tests.antt =====
-- Three bytes sent in two moves and received in three, before two more.
use vkccl.Prelude.{ℕ, ◌≡◌, refl, false, List, [], ◌∷◌, ◌++◌, arith, length}
use vkccl.Socket.{Io, moved, interrupted, would_block, done, send_all, recv_all}
use vkccl.Socket.Streams.{calm, moves, transfer_lem, transfer_ends}

abbrev sends : List Io
sends = interrupted ∷ moved 1 ∷ would_block false ∷ moved 8 ∷ moved 0 ∷ []

abbrev recvs : List Io
recvs = moved 0 ∷ moved 0 ∷ would_block false ∷ moved 4 ∷ []

abbrev bytes : List ℕ
bytes = 1 ∷ 2 ∷ 3 ∷ []

abbrev later : List ℕ
later = 4 ∷ 5 ∷ []

ends :
    ((send_all sends bytes []).0 ≡ done)
    × ((recv_all recvs (length bytes) ((send_all sends bytes []).1 ++ later) []).0 ≡ done)
unfolding calm moves
ends = transfer_ends sends recvs bytes later refl refl (omega arith) (omega arith)

transfer_ends_example :
    ((send_all sends bytes []).0 ≡ done)
    × ((recv_all recvs (length bytes) ((send_all sends bytes []).1 ++ later) []).0 ≡ done)
unfolding calm moves
transfer_ends_example = transfer_ends sends recvs bytes later refl refl (omega arith) (omega arith)

transfer_example :
    recv_all recvs (length bytes) ((send_all sends bytes []).1 ++ later) [] ≡ (done, later, bytes)
transfer_example = transfer_lem sends recvs bytes later ends.0 ends.1
