-- ===== src/Collectives/Reduce.antt =====
-- src/core/collectives.cc: `doReduce`, a pipelined chain from the rank after the root round to the root,
-- for any operation on elements. A rank is run on the messages that each rank sent it.
pub mod Pieces
pub mod Chain
mod Tests
use vkccl.Prelude.{ℕ, ◌+◌, ◌*◌, ◌/◌, ◌%◌, Option, none, some, List, [], ◌∷◌, ◌==◌, if◌then◌else◌}
use vkccl.Net.{Mem, copy_to}
use vkccl.Topology.{next, prev}
use vkccl.Reduce.Loops.{reduce_native}
use vkccl.Verbs.Segments.{Segment, segments}
use vkccl.Collectives.Program.{Message}
use vkccl.Collectives.ReduceScatter.{Operator, contribution, add_in}
use vkccl.Collectives.AllReduce.Choice.{average_part}

module _ {A : Type 0} (o : Operator A) (esize : ℕ) (from : Mem A) where
  -- The elements of a piece in the send buffer.
  abbrev pub own_piece : Segment → Mem A
  own_piece s i = from (s.offset / esize + i)

  -- The loop at the head of the chain.
  unfoldable pub head_out : List Segment → List (Message A)
  head_out [] = []
  head_out (s ∷ ss) =
      record { len = s.bytes; bytes = λ i. contribution o (own_piece s i) } ∷ head_out ss

  abbrev push : Message A → Option (List (Message A)) → Option (List (Message A))
  push m none = none
  push m (some ms) = some (m ∷ ms)

  -- The loop at a rank between the head and the root: it adds its elements to those passing by.
  unfoldable pub hop_out : List Segment → List (Message A) → Option (List (Message A))
  hop_out [] ms = some []
  hop_out (s ∷ ss) [] = none
  hop_out (s ∷ ss) (m ∷ ms) =
      let sum : Mem A = reduce_native (add_in o) m.bytes 0 (own_piece s) (s.bytes / esize) in
      let rest = push (record { len = s.bytes; bytes = sum }) (hop_out ss ms) in
      if m.len == s.bytes then rest else none

  -- One piece at the root.
  unfoldable pub root_piece : Segment → Mem A → Mem A → Mem A
  root_piece s received into =
      let at = s.offset / esize in
      let len = s.bytes / esize in
      let own : Mem A = copy_to into at len (λ i. contribution o (own_piece s i)) in
      average_part o at len (reduce_native o.reduce own at received len)

  -- The loop at the root.
  unfoldable pub root_in : List Segment → List (Message A) → Mem A → Option (Mem A)
  root_in [] ms into = some into
  root_in (s ∷ ss) [] into = none
  root_in (s ∷ ss) (m ∷ ms) into =
      let rest = root_in ss ms (root_piece s m.bytes into) in
      if m.len == s.bytes then rest else none

-- What a rank sends, by receiver, where it sends to one rank only.
abbrev pub to_peer : {A : Type 0} → ℕ → List (Message A) → ℕ → List (Message A)
to_peer peer ms q = if q == peer then ms else []

-- `doReduce` of rank `r`, with pieces of `pipe` bytes, and what each rank has sent to it: what it
-- sends, by receiver, and its receive buffer afterwards; `none` where a receive never gets its
-- message.
unfoldable pub reduce_rank :
    {A : Type 0}
    → Operator A
    → ℕ
    → ℕ
    → ℕ
    → ℕ
    → ℕ
    → ℕ
    → (ℕ → List (Message A))
    → Mem A
    → Mem A
    → Option ((ℕ → List (Message A)) × Mem A)
reduce_rank o n root count esize pipe r inbox from into =
    let pieces = segments pipe (count * esize) in
    let received = inbox (prev n r) in
    if n == 1
    then some ((λ q. []), copy_to into 0 count (λ i. contribution o (from i)))
    else if count == 0
    then some ((λ q. []), into)
    else if r == (root + 1) % n
    then some (to_peer (next n r) (head_out o esize from pieces), into)
    else if r == root
    then elim (root_in o esize from pieces received into) [
      | none ↦ none
      | some buf ↦ some ((λ q. []), buf)
    ]
    else elim (hop_out o esize from pieces received) [
      | none ↦ none
      | some out ↦ some (to_peer (next n r) out, into)
    ]
