-- ===== src/Verbs/Device/Open/Serving.antt =====
-- src/transport/verbs.cc: the device that `openDevice` finds, and what it leaves open.
use mathlib.Core.Option.{some-ne-none}
use vkccl.Prelude.{
  ℕ, zero, suc, ◌+◌, ◌≡◌, refl, sym, ap, subst, ◌∙◌, ◌⊎◌, inl, inr, Bool, true, false, not, ◌&&◌,
  false≢true, Option, none, some, List, [], ◌∷◌, arith, if◌then◌else◌, get_elem?,
}
use vkccl.Types.{Result, success, system_error}
use vkccl.Verbs.Device.{Gid, GidTable, pick_gid}
use vkccl.Verbs.Device.Choice.{FirstBest, Picked, pick_gid_lem}
use vkccl.Verbs.Device.Open.{
  PortAttr, Candidate, Search, new_search, close_device, port_or, find_port, alloc_pd, with_gid,
  with_port, try_device, try_devices, open_device,
}

-- The device at `i`, which is `c`, is in use and is the only one open: its port is active, and on
-- Ethernet the GID is the one that `pickGid` chooses, the first of the best of the port where the
-- environment names no index.
pub record Serves (env : Option ℕ) (i : ℕ) (c : Candidate) (s : Search) : Type 0 where
  pub wanted : c.wanted ≡ true
  pub only : s.contexts ≡ i ∷ []
  pub ctx : s.ctx ≡ some i
  pub pd : (d : ℕ) × (s.pd ≡ some d)
  pub attr : PortAttr
  pub port : c.ports s.dev.port ≡ some attr
  pub active : attr.active ≡ true
  pub lid : s.dev.lid ≡ attr.lid
  pub mtu : s.dev.active_mtu ≡ attr.active_mtu
  pub roce : s.dev.roce ≡ attr.ethernet
  pub gid : attr.ethernet ≡ true → pick_gid env attr.gids ≡ some (s.dev.gid_index, s.dev.gid)
  pub best :
      attr.ethernet ≡ true
      → env ≡ none
      → FirstBest attr.gids attr.gids.len s.dev.gid_index s.dev.gid

-- Nothing is open.
abbrev Closed : Search → Type 0
Closed s = (s.contexts ≡ []) × (s.ctx ≡ none)

first_best :
    (env : Option ℕ) (table : GidTable) (k : ℕ) (g : Gid)
    → env ≡ none
    → pick_gid env table ≡ some (k, g)
    → FirstBest table table.len k g
first_best none table k g unset e = subst (Picked table) e (pick_gid_lem table)
first_best (some i) table k g unset e = absurd (some-ne-none i unset)

if_cases :
    {A : Type 0} (P : A → Type 0) (b : Bool) (x y : A)
    → (b ≡ true → P x)
    → (b ≡ false → P y)
    → P (if b then x else y)
if_cases P true x y yes_case no_case = yes_case refl
if_cases P false x y yes_case no_case = no_case refl

closed_own : (i : ℕ) → close_device i (i ∷ []) ≡ []
unfolding close_device
closed_own i = ground arith

-- A port that is active.
abbrev Found : (ℕ → Option PortAttr) → Option (ℕ × PortAttr) → Type 0
Found ports none = Unit {0}
Found ports (some (p, a)) = (ports p ≡ some a) × (a.active ≡ true)

port_or-Found :
    (ports : ℕ → Option PortAttr) (p : ℕ) (o : Option PortAttr) (rest : Option (ℕ × PortAttr))
    → ports p ≡ o
    → Found ports rest
    → Found ports (port_or p o rest)
unfolding port_or
port_or-Found ports p none rest e found = found
port_or-Found ports p (some a) rest e found =
    if_cases (Found ports) a.active (some (p, a)) rest (λ on. (e, on)) (λ off. found)

find_port-Found : (ports : ℕ → Option PortAttr) (p left : ℕ) → Found ports (find_port ports p left)
unfolding find_port
find_port-Found ports p zero = tt
find_port-Found ports p (suc left) =
    port_or-Found ports p (ports p) _ refl (find_port-Found ports (p + 1) left)

module _ (env : Option ℕ) (i : ℕ) (c : Candidate) where
  -- How a turn of the loop ends.
  abbrev Tried : Bool × Search → Type 0
  Tried (true, s) = Serves env i c s
  Tried (false, s) = Closed s

  -- A port is found and the device is the only one open.
  abbrev Ported : PortAttr → Search → Type 0
  Ported a s =
      (c.wanted ≡ true)
      × (s.contexts ≡ i ∷ [])
      × (s.ctx ≡ some i)
      × (c.ports s.dev.port ≡ some a)
      × (a.active ≡ true)
      × (s.dev.lid ≡ a.lid)
      × (s.dev.active_mtu ≡ a.active_mtu)
      × (s.dev.roce ≡ a.ethernet)

  alloc_pd-Tried :
      (a : PortAttr) (o : Option ℕ) (s : Search)
      → Ported a s
      → (a.ethernet ≡ true → pick_gid env a.gids ≡ some (s.dev.gid_index, s.dev.gid))
      → Tried (alloc_pd i o s)
  unfolding alloc_pd
  alloc_pd-Tried a none s (w, only, ctx, port, on, l, m, r) gid =
      (ap (close_device i) only ∙ closed_own i, refl)
  alloc_pd-Tried a (some d) s (w, only, ctx, port, on, l, m, r) gid = record {
    wanted = w;
    only = only;
    ctx = ctx;
    pd = (d, refl);
    attr = a;
    port = port;
    active = on;
    lid = l;
    mtu = m;
    roce = r;
    gid = gid;
    best = λ e unset. first_best env a.gids _ _ unset (gid e);
  }

  with_gid-Tried :
      (a : PortAttr) (o : Option (ℕ × Gid)) (s : Search)
      → pick_gid env a.gids ≡ o
      → Ported a s
      → Tried (with_gid i c o s)
  unfolding with_gid
  with_gid-Tried a none s e ported = (ap (close_device i) ported.1 ∙ closed_own i, refl)
  with_gid-Tried a (some (k, g)) s e ported = alloc_pd-Tried a c.pd _ ported (λ _. e)

  with_port-Tried :
      (o : Option (ℕ × PortAttr)) (s : Search)
      → Found c.ports o
      → c.wanted ≡ true
      → s.contexts ≡ i ∷ []
      → s.ctx ≡ none
      → Tried (with_port env i c o s)
  unfolding with_port
  with_port-Tried none s found w only ctx = (ap (close_device i) only ∙ closed_own i, ctx)
  with_port-Tried (some (p, a)) s (port, on) w only ctx =
      if_cases Tried a.ethernet _ _
        (λ yes_it.
          with_gid-Tried a (pick_gid env a.gids) _ refl (w, only, refl, port, on, refl, refl, refl))
        (λ no_it.
          alloc_pd-Tried a c.pd _ (w, only, refl, port, on, refl, refl, refl)
            (λ yes_it. absurd (false≢true (sym no_it ∙ yes_it))))

  try_device-Tried : (s : Search) → Closed s → Tried (try_device env i c s)
  unfolding try_device
  try_device-Tried s (none_open, ctx) =
      if_cases Tried (not (c.wanted && c.opens)) _ _ (λ skip. (none_open, ctx))
        (λ go.
          if_cases Tried (not c.queried) _ _
            (λ bad. (ap (λ cs. close_device i (i ∷ cs)) none_open ∙ closed_own i, ctx))
            (λ ok.
              with_port-Tried _ _ (find_port-Found c.ports 1 c.phys_port_cnt) (ground (arith, go))
                (ap (λ cs. i ∷ cs) none_open) ctx))

-- How the loop ends.
abbrev pub Searched : Option ℕ → ℕ → List Candidate → Result × Search → Type 0
Searched env i cs (res, s) =
    (res ≡ success)
      × ((k : ℕ) × (c : Candidate) × (get_elem? cs k ≡ some c) × Serves env (i + k) c s)
    ⊎ (res ≡ system_error) × Closed s

turn-Searched :
    (env : Option ℕ) (i : ℕ) (c : Candidate) (cs : List Candidate) (turn : Bool × Search)
    (rest : Search → Result × Search)
    → Tried env i c turn
    → ((s : Search) → Closed s → Searched env (i + 1) cs (rest s))
    → Searched env i (c ∷ cs) (if turn.0 then (success, turn.1) else rest turn.1)
turn-Searched env i c cs (true, s) rest serves later =
    inl (refl, (0, c, refl, subst (λ k. Serves env k c s) (omega arith) serves))
turn-Searched env i c cs (false, s) rest closed later = elim (later s closed) [
  | inl (e, (k, d, at_k, serves)) ↦
      inl (e, (suc k, d, at_k, subst (λ k. Serves env k d (rest s).1) (omega arith) serves))
  | inr closed' ↦ inr closed'
]

try_devices-Searched :
    (env : Option ℕ) (i : ℕ) (cs : List Candidate) (s : Search)
    → Closed s
    → Searched env i cs (try_devices env i cs s)
unfolding try_devices
try_devices-Searched env i [] s closed = inr (refl, closed)
try_devices-Searched env i (c ∷ cs) s closed =
    turn-Searched env i c cs (try_device env i c s) (try_devices env (i + 1) cs)
      (try_device-Tried env i c s closed) (try_devices-Searched env (i + 1) cs)

module _ (env : Option ℕ) (cs : List Candidate) where
  -- `openDevice` either finds a device, a success, which is the only one that it leaves open and
  -- which it has a protection domain for: it has the name asked for, the port in use is active, and
  -- on Ethernet the GID is the one that `pickGid` chooses, which without an index in the environment
  -- is the first of those that no usable GID of the port outscores; or it ends with a system error
  -- and leaves nothing open.
  pub open_device_lem : Searched env 0 cs (open_device env cs)
  unfolding open_device
  open_device_lem = try_devices-Searched env 0 cs new_search (refl, refl)
