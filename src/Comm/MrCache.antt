-- ===== src/Comm/MrCache.antt =====
-- src/core/comm.h: the cache of transient memory registrations (`mrCacheCap`, `mrCacheGet`,
-- `mrCachePut`, `flushMrCache`) over a transport's registrations.
pub mod Laws
pub mod Scoped
use vkccl.Prelude.{
  ℕ, zero, suc, ◌+◌, ◌≡◌, Bool, true, false, ◌&&◌, ◌||◌, List, [], ◌∷◌, ◌++◌, Option, none, some,
  ltb, leb, ◌==◌, if◌then◌else◌, get_elem?, erase_idx, length, ℤ, pos, negsuc,
}
use vkccl.Comm.Registrar.{Registrar}

-- `MrCacheEntry`; only handles that are not null are cached.
pub record Entry : Type 0 where
  pub addr : ℕ
  pub len : ℕ
  pub handle : ℕ
  pub seq : ℕ

-- `mrCache` and `mrClock`
pub record Cache : Type 0 where
  pub entries : List Entry
  pub clock : ℕ

-- `mrCacheCap`, from the text of VCCL_MR_CACHE: `none` where it is not set, and else whether it
-- is exactly "0" and the value of `atoi`.
pub cache_cap : Option (Bool × ℤ) → ℕ
cache_cap none = 16
cache_cap (some (true, v)) = 0
cache_cap (some (false, pos v)) = if ltb 0 v then v else 16
cache_cap (some (false, negsuc v)) = 16

-- The loop of `mrCacheGet`: the first entry with exactly this range is stamped.
unfoldable pub get_from : ℕ → ℕ → ℕ → List Entry → Option (ℕ × List Entry)
get_from addr len stamp [] = none
get_from addr len stamp (e ∷ es) =
    let rest = get_from addr len stamp es in
    if e.addr == addr && e.len == len
    then some (e.handle, record e { seq = stamp } ∷ es)
    else elim rest [ none ↦ none | some (h, es') ↦ some (h, e ∷ es') ]

-- `mrCacheGet`: the handle, or `none` for `false`.
unfoldable pub cache_get : ℕ → ℕ → Cache → Option ℕ × Cache
unfolding get_from
cache_get addr len c = elim (get_from addr len (c.clock + 1) c.entries) [
  | none ↦ (none, c)
  | some (h, es) ↦ (some h, record { entries = es; clock = c.clock + 1 })
]

-- `for (size_t i = 1; ...; i++) if (mrCache[i].seq < mrCache[victim].seq) victim = i;` over the
-- entries from `i` on, with the stamp of the victim so far.
victim_from : List Entry → ℕ → ℕ → ℕ → ℕ
victim_from [] i victim best = victim
victim_from (e ∷ es) i victim best =
    victim_from es (i + 1) (if ltb e.seq best then i else victim)
      (if ltb e.seq best then e.seq else best)

pub victim : List Entry → ℕ
unfolding victim_from
victim [] = 0
victim (e ∷ es) = victim_from es 1 0 e.seq

module _ (T : Registrar) where
  open T use {State, dereg_mr}

  -- The entry that goes when the cache is full.
  unfoldable pub evict : Cache → State → Cache × State
  evict c t = elim (get_elem? c.entries (victim c.entries)) [
    | none ↦ (c, t)
    | some e ↦ (record c { entries = erase_idx c.entries (victim c.entries) }, dereg_mr t e.handle)
  ]

  unfoldable pub push : ℕ → ℕ → ℕ → Cache → Cache
  push addr len h c = record {
    entries = c.entries ++ record { addr = addr; len = len; handle = h; seq = c.clock + 1 } ∷ [];
    clock = c.clock + 1;
  }

  -- `mrCachePut` with a capacity; `none` is a null handle.
  unfoldable pub cache_put : ℕ → ℕ → ℕ → Option ℕ → Cache → State → Cache × State
  unfolding evict push
  cache_put cap addr len none c t = (c, t)
  cache_put zero addr len (some h) c t = (c, t)
  cache_put (suc cap) addr len (some h) c t =
      if leb (suc cap) (length c.entries)
      then (let (c', t') = evict c t in (push addr len h c', t'))
      else (push addr len h c, t)

  dereg_all : List Entry → State → State
  dereg_all [] t = t
  dereg_all (e ∷ es) t = dereg_all es (dereg_mr t e.handle)

  -- `flushMrCache`
  pub cache_flush : Cache → State → Cache × State
  unfolding dereg_all
  cache_flush c t = (record c { entries = [] }, dereg_all c.entries t)
