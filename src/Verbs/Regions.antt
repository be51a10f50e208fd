-- ===== src/Verbs/Regions.antt =====
-- src/transport/verbs.cc: `regMr`, `regDmaBuf`, `deregMr`, `covers` and `resolve`. The answers of the
-- RDMA library and of `malloc` are arguments, taken from a list of answers to come. A handle is the
-- address of a node of `regions_`: a number that no other node has, and that may be used again once
-- the node is gone. Addresses are unbounded.
use vkccl.Prelude.{
  ℕ, ◌+◌, ◌-◌, ◌≤◌, ◌≡◌, ◌≢◌, refl, Bool, true, false, ◌&&◌, ◌||◌, List, [], ◌∷◌, ◌++◌, Option,
  none, some, arith, leb, ◌==◌, if◌then◌else◌, ◌⊎◌, inl, inr, Option-cases, Bool-cases, max,
}
use vkccl.Types.{Result, success, system_error, invalid_argument}

-- `Region`; `staging` is the address of the bounce buffer.
pub record Region : Type 0 where
  pub handle : ℕ
  pub start : ℕ
  pub len : ℕ
  pub staging : Option ℕ

-- `regions_`, and whether each coming call of `ibv_reg_mr` succeeds.
pub record Regions : Type 0 where
  pub regions : List Region
  pub pins : List Bool

abbrev pub next_pin : List Bool → Bool
next_pin [] = true
next_pin (b ∷ bs) = b

abbrev pub later_pins : List Bool → List Bool
later_pins [] = []
later_pins (b ∷ bs) = bs

-- An address that no node has.
abbrev fresh_handle : List Region → ℕ
fresh_handle [] = 1
fresh_handle (r ∷ rs) = max (r.handle + 1) (fresh_handle rs)

unfoldable pub push_region : ℕ → ℕ → Option ℕ → Regions → Result × Option ℕ × Regions
push_region start len staging t =
    let h = fresh_handle t.regions in
    (
      success,
      some h,
      record t {
        regions =
            t.regions ++ record { handle = h; start = start; len = len; staging = staging } ∷ [];
      },
    )

-- `regMr`
unfoldable pub reg_mr : Regions → ℕ → ℕ → Result × Option ℕ × Regions
unfolding push_region
reg_mr t buf bytes =
    let t' : Regions = record t { pins = later_pins t.pins } in
    if next_pin t.pins then push_region buf bytes none t' else (system_error, none, t')

-- `regDmaBuf`: whether `ibv_reg_dmabuf_mr` succeeds, and what `malloc` gives for the staging
-- buffer.
pub reg_dma_buf : Bool → Option ℕ → Regions → ℕ → ℕ → Result × Option ℕ × Regions
unfolding push_region
reg_dma_buf true staging t ptr bytes = push_region ptr bytes none t
reg_dma_buf false none t ptr bytes = (system_error, none, t)
reg_dma_buf false (some buffer) t ptr bytes =
    let t' : Regions = record t { pins = later_pins t.pins } in
    if next_pin t.pins then push_region ptr bytes (some buffer) t' else (system_error, none, t')

abbrev pub has_handle : List Region → ℕ → Bool
has_handle [] h = false
has_handle (r ∷ rs) h = h == r.handle || has_handle rs h

pub erase_handle : ℕ → List Region → List Region
erase_handle h [] = []
erase_handle h (r ∷ rs) = let rest = erase_handle h rs in if h == r.handle then rest else r ∷ rest

-- `deregMr`; `none` is the null handle. At most one node has the handle.
pub dereg_mr : Option ℕ → Regions → Result × Regions
unfolding erase_handle
dereg_mr none t = (success, t)
dereg_mr (some h) t =
    if has_handle t.regions h
    then (success, record t { regions = erase_handle h t.regions })
    else (invalid_argument, t)

-- `addr >= region.start && addr + bytes <= region.start + region.len`
abbrev pub contains : Region → ℕ → ℕ → Bool
contains r addr bytes = leb r.start addr && leb (addr + bytes) (r.start + r.len)

unfoldable pub find_region : ℕ → ℕ → List Region → Option Region
find_region addr bytes [] = none
find_region addr bytes (r ∷ rs) =
    let rest = find_region addr bytes rs in if contains r addr bytes then some r else rest

-- `covers`
unfoldable pub covers_any : ℕ → ℕ → List Region → Bool
covers_any addr bytes [] = false
covers_any addr bytes (r ∷ rs) = contains r addr bytes || covers_any addr bytes rs

unfoldable pub covers : Regions → ℕ → ℕ → Bool
unfolding covers_any
covers t addr bytes = covers_any addr bytes t.regions

-- The memory that the NIC may touch: a registered region, or a temporary registration of the
-- range itself.
pub data Mr : Type 0 where
  region : Region → Mr
  temporary : ℕ → ℕ → Mr

-- `Resolved`
pub record Resolved : Type 0 where
  pub mr : Mr
  pub nic_addr : ℕ
  pub bounced : Bool

unfoldable pub in_region : Region → Option ℕ → ℕ → Resolved
in_region r none addr = record { mr = region r; nic_addr = addr; bounced = false }
in_region r (some buffer) addr = record {
  mr = region r;
  nic_addr = buffer + (addr - r.start);
  bounced = true;
}

-- `resolve`, with the temporary registrations made so far; `none` for a failing `ibv_reg_mr`.
unfoldable pub resolve : Regions → List Mr → ℕ → ℕ → Option Resolved × Regions × List Mr
unfolding find_region in_region
resolve t temps addr bytes = elim (find_region addr bytes t.regions) [
  | some r ↦ (some (in_region r r.staging addr), t, temps)
  | none ↦
      let t' : Regions = record t { pins = later_pins t.pins } in
      if next_pin t.pins
      then (
        some (record { mr = temporary addr bytes; nic_addr = addr; bounced = false }),
        t',
        temps ++ temporary addr bytes ∷ [],
      )
      else (none, t', temps)
]

-- Where the memory of a registration lies, as the NIC sees it.
abbrev pub mr_start : Mr → ℕ
mr_start (region r) = elim r.staging [ none ↦ r.start | some buffer ↦ buffer ]
mr_start (temporary addr bytes) = addr

abbrev pub mr_len : Mr → ℕ
mr_len (region r) = r.len
mr_len (temporary addr bytes) = bytes

-- The address that the start of a registration stands for.
abbrev pub mr_origin : Mr → ℕ
mr_origin (region r) = r.start
mr_origin (temporary addr bytes) = addr

covers-find :
    (addr bytes : ℕ) (rs : List Region)
    → ((covers_any addr bytes rs ≡ false) × (find_region addr bytes rs ≡ none))
      ⊎ ((r : Region) × (covers_any addr bytes rs ≡ true)
          × (find_region addr bytes rs ≡ some r)
          × (contains r addr bytes ≡ true))
unfolding covers_any find_region
covers-find addr bytes [] = inl (refl, refl)
covers-find addr bytes (r ∷ rs) = elim (Bool-cases (contains r addr bytes)) [
  | inl hit ↦ inr (r, rw hit, rw hit, hit)
  | inr miss ↦ rw miss (covers-find addr bytes rs)
]

-- Whenever `resolve` succeeds, the range that the NIC is told to use lies inside one registration,
-- and starts as far into it, as the NIC sees it, as the range starts into what it stands for: byte
-- `i` of the range is used at its own place of the registration or of its staging buffer. It makes a
-- temporary registration, recorded for release, exactly where `covers` says that no region holds the
-- range; else it changes nothing.
pub resolve_lem :
    (t : Regions) (temps : List Mr) (addr bytes : ℕ) (out : Resolved) (t' : Regions)
    (temps' : List Mr)
    → resolve t temps addr bytes ≡ (some out, t', temps')
    → (mr_start out.mr ≤ out.nic_addr)
      × (out.nic_addr + bytes ≤ mr_start out.mr + mr_len out.mr)
      × (mr_origin out.mr ≤ addr)
      × (out.nic_addr ≡ mr_start out.mr + (addr - mr_origin out.mr))
      × (t'.regions ≡ t.regions)
      × (temps' ≡ (if covers t addr bytes then temps else temps ++ temporary addr bytes ∷ []))
unfolding resolve covers
resolve_lem t temps addr bytes out t' temps' e = elim (covers-find addr bytes t.regions) [
  | inl (c, f) ↦ ground arith
  | inr (r, c, f, k) ↦ elim (Option-cases r.staging) [
    | inl s ↦ ground arith
    | inr (buffer, s) ↦ ground arith
  ]
]

-- A range that is not bounced keeps its address.
pub resolve_in_place :
    (t : Regions) (temps : List Mr) (addr bytes : ℕ) (out : Resolved) (t' : Regions)
    (temps' : List Mr)
    → resolve t temps addr bytes ≡ (some out, t', temps')
    → out.bounced ≡ false
    → out.nic_addr ≡ addr
unfolding resolve
resolve_in_place t temps addr bytes out t' temps' e b = elim (covers-find addr bytes t.regions) [
  | inl (c, f) ↦ ground arith
  | inr (r, c, f, k) ↦ elim (Option-cases r.staging) [
    | inl s ↦ ground arith
    | inr (buffer, s) ↦ ground arith
  ]
]

-- No region comes or goes, whether `resolve` succeeds or fails.
pub resolve-regions :
    (t : Regions) (temps : List Mr) (addr bytes : ℕ)
    → (resolve t temps addr bytes).1.regions ≡ t.regions
unfolding resolve
resolve-regions t temps addr bytes = ground arith

pub has_handle-append :
    (rs : List Region) (r : Region) (h : ℕ)
    → has_handle (rs ++ r ∷ []) h ≡ (has_handle rs h || h == r.handle)
has_handle-append [] r h = ground arith
has_handle-append (x ∷ rs) r h = ground (arith, has_handle-append rs r h)

fresh-above : (rs : List Region) (h : ℕ) → fresh_handle rs ≤ h → has_handle rs h ≡ false
fresh-above [] h p = refl
fresh-above (r ∷ rs) h p = ground (arith, fresh-above rs h (omega arith))

has_handle-erase :
    (h : ℕ) (rs : List Region) (j : ℕ)
    → has_handle (erase_handle h rs) j ≡ (if j == h then false else has_handle rs j)
unfolding erase_handle
has_handle-erase h [] j = ground arith
has_handle-erase h (r ∷ rs) j = ground (arith, has_handle-erase h rs j)

-- `regMr` appends one region under a new handle, or changes no region.
pub reg_mr_cases :
    (t : Regions) (addr len : ℕ)
    → ((h : ℕ) × (t' : Regions) × (reg_mr t addr len ≡ (success, some h, t'))
        × (has_handle t.regions h ≡ false)
        × (t'.regions
            ≡ t.regions ++ record { handle = h; start = addr; len = len; staging = none } ∷ []))
      ⊎ ((t' : Regions) × (reg_mr t addr len ≡ (system_error, none, t')) × (t'.regions ≡ t.regions))
unfolding reg_mr push_region
reg_mr_cases t addr len = elim (Bool-cases (next_pin t.pins)) [
  | inl good ↦
      let h = fresh_handle t.regions in
      let r : Region = record { handle = h; start = addr; len = len; staging = none } in
      inl (
        h,
        record { regions = t.regions ++ r ∷ []; pins = later_pins t.pins },
        rw good,
        fresh-above t.regions h (omega arith),
        refl,
      )
  | inr bad ↦ inr (record t { pins = later_pins t.pins }, rw bad, refl)
]

pub dereg_mr-eq :
    (t : Regions) (h j : ℕ)
    → has_handle (dereg_mr (some h) t).1.regions j
      ≡ (if j == h then false else has_handle t.regions j)
unfolding dereg_mr
dereg_mr-eq t h j = ground (arith, has_handle-erase h t.regions j)

-- What `covers` says is a fact about one region, so it holds of every part of a covered range.
pub covers-part :
    (t : Regions) (addr bytes part len : ℕ)
    → covers t addr bytes ≡ true
    → addr ≤ part
    → part + len ≤ addr + bytes
    → covers t part len ≡ true
unfolding covers
covers-part t addr bytes part len h p q = covers_any-part t.regions h
  where
    covers_any-part :
        (rs : List Region) → covers_any addr bytes rs ≡ true → covers_any part len rs ≡ true
    covers_any-part [] e = e
    covers_any-part (r ∷ rs) e = ground (arith, covers_any-part rs)

covers_any-append :
    (rs : List Region) (r : Region) (addr bytes : ℕ)
    → contains r addr bytes ≡ true
    → covers_any addr bytes (rs ++ r ∷ []) ≡ true
unfolding covers_any
covers_any-append [] r addr bytes c = ground arith
covers_any-append (x ∷ rs) r addr bytes c = ground (arith, covers_any-append rs r addr bytes c)

erase_handle-append :
    (h : ℕ) (rs : List Region) (r : Region)
    → r.handle ≢ h
    → erase_handle h (rs ++ r ∷ []) ≡ erase_handle h rs ++ r ∷ []
unfolding erase_handle
erase_handle-append h [] r ne = ground arith
erase_handle-append h (x ∷ rs) r ne = ground (arith, erase_handle-append h rs r ne)

-- A region just registered covers its range, also when another is released after it.
pub covers_new :
    (t : Regions) (rs : List Region) (r : Region) (h : ℕ)
    → t.regions ≡ rs ++ r ∷ []
    → r.handle ≢ h
    → (covers t r.start r.len ≡ true) × (covers (dereg_mr (some h) t).1 r.start r.len ≡ true)
unfolding covers dereg_mr
covers_new t rs r h e ne = (
  rw e (covers_any-append rs r r.start r.len (ground arith)),
  elim (Bool-cases (has_handle t.regions h)) [
    | inl q ↦ rw q (
        rw (e, erase_handle-append h rs r ne)
          (covers_any-append (erase_handle h rs) r r.start r.len (ground arith)))
    | inr q ↦ rw q (rw e (covers_any-append rs r r.start r.len (ground arith)))
  ],
)
