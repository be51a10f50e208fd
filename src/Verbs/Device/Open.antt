-- ===== src/Verbs/Device/Open.antt =====
-- src/transport/verbs.cc: `openDevice`, with the contexts that it holds open.
pub mod Serving
use vkccl.Prelude.{
  ℕ, zero, suc, ◌+◌, ◌-◌, ◌<◌, ◌≡◌, refl, sym, ap, ◌∙◌, inl, inr, Bool, true, false, not, ◌&&◌,
  false≢true, Option, none, some, List, [], ◌∷◌, arith, ◌==◌, if◌then◌else◌, Bool-cases,
}
use vkccl.Types.{Result, success, system_error, is_success}
use vkccl.Verbs.Connect.{Device}
use vkccl.Verbs.Device.{Gid, GidTable, pick_gid}

-- `ibv_port_attr`
pub record PortAttr : Type 0 where
  pub active : Bool
  pub ethernet : Bool
  pub lid : ℕ
  pub active_mtu : ℕ
  pub gids : GidTable

-- What the library answers about a device of the list: whether its name is the one that
-- `VCCL_IB_HCA` asks for, if any; `ibv_open_device`, `ibv_query_device`, the number of ports,
-- `ibv_query_port`, and `ibv_alloc_pd`.
pub record Candidate : Type 0 where
  pub wanted : Bool
  pub opens : Bool
  pub queried : Bool
  pub phys_port_cnt : ℕ
  pub ports : ℕ → Option PortAttr
  pub pd : Option ℕ

-- `*dev`, in which a context is the index of its device, and the contexts that are open.
pub record Search : Type 0 where
  pub dev : Device
  pub ctx : Option ℕ
  pub pd : Option ℕ
  pub contexts : List ℕ

abbrev pub new_search : Search
new_search = record {
  dev = record { port = 1; lid = 0; active_mtu = 0; gid_index = 0; gid = []; roce = false };
  ctx = none;
  pd = none;
  contexts = [];
}

-- `ibv_close_device`
unfoldable pub close_device : ℕ → List ℕ → List ℕ
close_device i [] = []
close_device i (c ∷ cs) = if c == i then close_device i cs else c ∷ close_device i cs

-- The first port that is active, with the ports left.
unfoldable pub port_or : ℕ → Option PortAttr → Option (ℕ × PortAttr) → Option (ℕ × PortAttr)
port_or p none rest = rest
port_or p (some a) rest = if a.active then some (p, a) else rest

unfoldable pub find_port : (ℕ → Option PortAttr) → ℕ → ℕ → Option (ℕ × PortAttr)
find_port ports p zero = none
find_port ports p (suc left) = port_or p (ports p) (find_port ports (p + 1) left)

-- `dev->pd = ibv_alloc_pd(dev->ctx)` and what follows; `true` ends the loop.
unfoldable pub alloc_pd : ℕ → Option ℕ → Search → Bool × Search
alloc_pd i (some pd) s = (true, record s { pd = some pd })
alloc_pd i none s =
    (false, record s { pd = none; contexts = close_device i s.contexts; ctx = none })

-- What follows `pickGid`.
unfoldable pub with_gid : ℕ → Candidate → Option (ℕ × Gid) → Search → Bool × Search
with_gid i c none s = (false, record s { contexts = close_device i s.contexts; ctx = none })
with_gid i c (some (k, g)) s =
    alloc_pd i c.pd (record s { dev = record s.dev { gid_index = k; gid = g } })

-- What follows the search for a port.
unfoldable pub with_port : Option ℕ → ℕ → Candidate → Option (ℕ × PortAttr) → Search → Bool × Search
with_port env i c none s = (false, record s { contexts = close_device i s.contexts })
with_port env i c (some (p, a)) s =
    let s' = record s {
      ctx = some i;
      dev = record s.dev { port = p; lid = a.lid; active_mtu = a.active_mtu; roce = a.ethernet };
    } in
    if a.ethernet then with_gid i c (pick_gid env a.gids) s' else alloc_pd i c.pd s'

-- The body of the loop over the devices.
unfoldable pub try_device : Option ℕ → ℕ → Candidate → Search → Bool × Search
try_device env i c s =
    let opened = record s { contexts = i ∷ s.contexts } in
    if not (c.wanted && c.opens)
    then (false, s)
    else if not c.queried
    then (false, record opened { contexts = close_device i opened.contexts })
    else with_port env i c (find_port c.ports 1 c.phys_port_cnt) opened

-- The loop over the devices, which one that serves ends.
unfoldable pub try_devices : Option ℕ → ℕ → List Candidate → Search → Result × Search
try_devices env i [] s = (system_error, s)
try_devices env i (c ∷ cs) s =
    let (found, s') = try_device env i c s in
    let rest = try_devices env (i + 1) cs s' in if found then (success, s') else rest

-- `openDevice`, with the list of devices, which may be none or empty.
unfoldable pub open_device : Option ℕ → List Candidate → Result × Search
open_device env cs = try_devices env 0 cs new_search
