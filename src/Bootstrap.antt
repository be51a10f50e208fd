-- ===== src/Bootstrap.antt =====
-- src/core/bootstrap.cc: `Hello`, `Bootstrap::init` and the registry of listening sockets. A socket is a number. What `accept` and `recvAll` bring, and whether a
-- socket can be bound or connected, is an argument.
pub mod Forming
pub mod Gather
mod Tests
use vkccl.Prelude.{
  ℕ, ◌+◌, ◌-◌, Bool, false, not, ◌&&◌, Option, none, some, List, [], ◌∷◌, ◌++◌, ltb, ◌==◌,
  if◌then◌else◌, ℤ, pos, is_neg, below, to_ℕ,
}
use vkccl.Types.{Result, success, invalid_argument, invalid_usage, is_success}
use vkccl.Slots.{is_free}

-- `Hello`
pub record Hello : Type 0 where
  pub magic : ℕ
  pub salt : ℕ
  pub version : ℕ
  pub nranks : ℕ
  pub rank : ℤ
  pub pad : ℕ

-- The unique id of a job, which names the socket of its root; `place` is the address part.
pub record JobId : Type 0 where
  pub magic : ℕ
  pub salt : ℕ
  pub place : ℕ

-- What the build and the host fix: `VCCL_VERSION_CODE` and `hostEndiannessMarker`.
pub record Host : Type 0 where
  pub version : ℕ
  pub marker : ℕ

-- One turn of `accept`: a client and its `Hello`, where `recvAll` brings it, or a failure.
pub data Accept : Type 0 where
  client : ℕ → Option Hello → Accept
  accept_failed : Result → Accept

-- The root while the job forms: `peerFds_`, `connected`, the sockets closed and the replies sent.
pub record Root : Type 0 where
  pub peer_fds : ℕ → Option ℕ
  pub connected : ℕ
  pub closed : List ℕ
  pub replies : List (ℕ × ℕ)

abbrev pub rank_of : Option Hello → ℕ
rank_of none = 0
rank_of (some h) = to_ℕ h.rank

module _ (host : Host) (id : JobId) (nranks : ℕ) where
  -- The test of a `Hello`.
  pub is_ok : Root → Option Hello → Bool
  is_ok s none = false
  is_ok s (some h) =
      h.magic == id.magic
      && h.salt == id.salt
      && h.version == host.version
      && h.nranks == nranks
      && not (is_neg h.rank)
      && ltb 0 (to_ℕ h.rank)
      && below h.rank nranks
      && is_free (s.peer_fds (to_ℕ h.rank))
      && h.pad == host.marker

  -- What follows the test, up to the end of the loop's body.
  pub admit : ℕ → Option Hello → Root → Root
  unfolding is_ok
  admit fd hello s =
      if is_ok s hello
      then record s {
        peer_fds = λ r. if r == rank_of hello then some fd else s.peer_fds r;
        connected = s.connected + 1;
        replies = s.replies ++ (fd, 1) ∷ [];
      }
      else record s { closed = s.closed ++ fd ∷ []; replies = s.replies ++ (fd, 0) ∷ [] }

  -- `while (connected < nranks - 1)`; `none` while the root waits for one more client.
  pub accept_loop : ℕ → List Accept → Root → Option (Result × Root)
  unfolding admit
  accept_loop listen [] s =
      if ltb s.connected (nranks - 1)
      then none
      else some (success, record s { closed = s.closed ++ listen ∷ [] })
  accept_loop listen (accept_failed res ∷ more) s =
      if ltb s.connected (nranks - 1)
      then some (res, record s { closed = s.closed ++ listen ∷ [] })
      else some (success, record s { closed = s.closed ++ listen ∷ [] })
  accept_loop listen (client fd hello ∷ more) s =
      let rest = accept_loop listen more (admit fd hello s) in
      if ltb s.connected (nranks - 1)
      then rest
      else some (success, record s { closed = s.closed ++ listen ∷ [] })

abbrev pub new_root : Root
new_root = record { peer_fds = λ r. none; connected = 0; closed = []; replies = [] }

-- `g_listenRegistry`
abbrev pub Registry : Type 0
Registry = List (JobId × ℕ)

-- The whole id is the key.
abbrev pub same_id : JobId → JobId → Bool
same_id a b = a.magic == b.magic && a.salt == b.salt && a.place == b.place

unfoldable pub find_listener : JobId → Registry → Option ℕ
find_listener id [] = none
find_listener id ((k, fd) ∷ es) =
    let rest = find_listener id es in if same_id k id then some fd else rest

unfoldable pub erase_listener : JobId → Registry → Registry
erase_listener id [] = []
erase_listener id ((k, fd) ∷ es) =
    let rest = erase_listener id es in if same_id k id then rest else (k, fd) ∷ rest

-- The end of `uniqueIdCreate`: the socket of an id, with the sockets closed.
unfoldable pub put_listener : JobId → ℕ → Registry → Registry × List ℕ
unfolding find_listener erase_listener
put_listener id fd es = (
  (id, fd) ∷ erase_listener id es,
  elim (find_listener id es) [ none ↦ [] | some old ↦ old ∷ [] ],
)

-- `kVcclMagic` and `kCommIdEnvSalt`
abbrev pub vccl_magic : ℕ
vccl_magic = 0x7663636c30312e30

abbrev pub comm_id_env_salt : ℕ
comm_id_env_salt = 0x7663636c2d656e76

-- The listening socket of rank 0: the one in the registry, or one bound now, which `bind` answers.
unfoldable pub root_listener : JobId → Result × ℕ → Registry → Result × Option ℕ × Registry
unfolding find_listener erase_listener
root_listener id (bound, fd) es = elim (find_listener id es) [
  | some old ↦ (success, some old, erase_listener id es)
  | none ↦
      if id.salt == comm_id_env_salt
      then (if is_success bound then (success, some fd, es) else (bound, none, es))
      else (invalid_usage, none, es)
]

-- The loop on the listening socket, if there is one.
unfoldable pub with_listener :
    Host
    → JobId
    → ℕ
    → List Accept
    → Result × Option ℕ × Registry
    → Option (Result × Root × Registry)
unfolding accept_loop
with_listener host id nranks accepts (res, none, es) = some (res, new_root, es)
with_listener host id nranks accepts (res, some listen, es) =
    elim (accept_loop host id nranks listen accepts new_root) [
      | none ↦ none
      | some (res', s) ↦ some (res', s, es)
    ]

-- `Bootstrap::init` of rank 0, `none` while it waits.
unfoldable pub root_init :
    Host → JobId → ℕ → Result × ℕ → List Accept → Registry → Option (Result × Root × Registry)
unfolding with_listener root_listener
root_init host id nranks bind accepts es =
    if not (id.magic == vccl_magic)
    then some (invalid_argument, new_root, es)
    else with_listener host id nranks accepts (root_listener id bind es)

-- The `Hello` of rank `rank`.
pub client_hello : Host → JobId → ℕ → ℕ → Hello
client_hello host id nranks rank = record {
  magic = id.magic;
  salt = id.salt;
  version = host.version;
  nranks = nranks;
  rank = pos rank;
  pad = host.marker;
}

-- `Bootstrap::init` of another rank: the results of `connectTo`, `sendAll` and `recvAll`, and the
-- reply.
unfoldable pub client_init : JobId → Result → Result → Result → ℕ → Result
client_init id connected sent received reply =
    if not (id.magic == vccl_magic)
    then invalid_argument
    else if not (is_success connected)
    then connected
    else if not (is_success sent)
    then sent
    else if not (is_success received)
    then received
    else if not (reply == 1)
    then invalid_usage
    else success
