-- ===== src/Socket.antt =====
-- src/util/socket.cc: `sendAll` and `recvAll`. What the kernel answers to each call
-- is an argument; the bytes of a connection are the list of those sent and not yet received.
pub mod Streams
mod Tests
use vkccl.Prelude.{
  ℕ, zero, suc, ◌-◌, min, Bool, List, [], ◌∷◌, ◌++◌, if◌then◌else◌, length, take, drop,
}

-- One `send` or `recv`: it moves at most `k + 1` bytes, is interrupted, would block (with whether the
-- deadline has passed after the `poll`), or fails.
pub data Io : Type 0 where
  moved : ℕ → Io
  interrupted : Io
  would_block : Bool → Io
  failed : Io

-- How a transfer ends; `waiting` is one whose answers are used up.
pub data End : Type 0 where
  done error waiting : End

module _ {A : Type 0} where
  -- `sendAll` with the bytes left to send, and the bytes in the connection.
  pub send_all : List Io → List A → List A → End × List A
  send_all ios [] wire = (done, wire)
  send_all [] (b ∷ bs) wire = (waiting, wire)
  send_all (moved k ∷ ios) (b ∷ bs) wire = send_all ios (drop k bs) (wire ++ b ∷ take k bs)
  send_all (interrupted ∷ ios) (b ∷ bs) wire = send_all ios (b ∷ bs) wire
  send_all (would_block expired ∷ ios) (b ∷ bs) wire =
      let rest = send_all ios (b ∷ bs) wire in if expired then (error, wire) else rest
  send_all (failed ∷ ios) (b ∷ bs) wire = (error, wire)

  -- `recvAll` with the number of bytes still wanted, the bytes in the connection, and those received.
  -- A `recv` moves no more than is wanted, and waits while the connection is empty.
  pub recv_all : List Io → ℕ → List A → List A → End × List A × List A
  recv_all ios zero wire got = (done, wire, got)
  recv_all [] (suc want) wire got = (waiting, wire, got)
  recv_all (moved k ∷ ios) (suc want) [] got = (waiting, [], got)
  recv_all (moved k ∷ ios) (suc want) (b ∷ wire) got =
      let n = min (min k want) (length wire) in
      recv_all ios (want - n) (drop n wire) (got ++ b ∷ take n wire)
  recv_all (interrupted ∷ ios) (suc want) wire got = recv_all ios (suc want) wire got
  recv_all (would_block expired ∷ ios) (suc want) wire got =
      let rest = recv_all ios (suc want) wire got in if expired then (error, wire, got) else rest
  recv_all (failed ∷ ios) (suc want) wire got = (error, wire, got)
