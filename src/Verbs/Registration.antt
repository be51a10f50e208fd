-- ===== src/Verbs/Registration.antt =====
-- src/transport/verbs.cc as the registrar of a communicator (src/core/comm.h), and what its `covers` means
-- for the registration cache.
use vkccl.Prelude.{
  ℕ, suc, ◌+◌, ◌≤◌, ◌<◌, ◌≡◌, sym, ◌∙◌, ap, false≢true, true, false, [], ◌∷◌, ◌++◌, Option, none,
  some, arith, ◌==◌, if◌then◌else◌, ◌⊎◌, inl, inr,
}
use vkccl.Types.{Result, success}
use vkccl.Comm.Registrar.{Registrar}
use vkccl.Comm.MrCache.{Cache, cache_get, cache_put}
use vkccl.Comm.MrCache.Laws.{Owned, cache_put_transport}
use vkccl.Comm.MrCache.Scoped.{Scope, scoped_add, scoped_add_cases, scoped_add_covered}
use vkccl.Verbs.Regions.{
  Region, Regions, reg_mr, reg_mr_cases, dereg_mr, dereg_mr-eq, covers, has_handle,
  has_handle-append, covers-part, covers_new,
}

pub reg_live :
    (t : Regions) (addr len h : ℕ) (t' : Regions)
    → reg_mr t addr len ≡ (success, some h, t')
    → (has_handle t.regions h ≡ false)
      × ((j : ℕ) → has_handle t'.regions j ≡ (if j == h then true else has_handle t.regions j))
reg_live t addr len h t' e = elim (reg_mr_cases t addr len) [
  | inl (k, u, q, free, rs) ↦ (
    ground arith,
    λ j. ground (
      arith,
      has_handle-append t.regions (record { handle = k; start = addr; len = len; staging = none })
          j,
    ),
  )
  | inr (u, q, rs) ↦ absurd (ground arith)
]

pub reg_none :
    (t : Regions) (addr len : ℕ) (res : Result) (t' : Regions)
    → reg_mr t addr len ≡ (res, none, t')
    → (j : ℕ) → has_handle t'.regions j ≡ has_handle t.regions j
reg_none t addr len res t' e j = elim (reg_mr_cases t addr len) [
  | inl (k, u, q, free, rs) ↦ absurd (ground arith)
  | inr (u, q, rs) ↦ ground arith
]

pub reg_fail :
    (t : Regions) (addr len h : ℕ) (res : Result) (t' : Regions)
    → reg_mr t addr len ≡ (res, some h, t')
    → res ≡ success
reg_fail t addr len h res t' e = elim (reg_mr_cases t addr len) [
  | inl (k, u, q, free, rs) ↦ ground arith
  | inr (u, q, rs) ↦ absurd (ground arith)
]

-- The RDMA transport keeps the laws of a registrar.
abbrev pub verbs_registrar : Registrar
verbs_registrar = record {
  State = Regions;
  reg_mr = reg_mr;
  dereg_mr = λ t h. (dereg_mr (some h) t).1;
  covers = covers;
  live = λ t h. has_handle t.regions h;
  reg_live = reg_live;
  reg_none = reg_none;
  reg_fail = reg_fail;
  dereg_live = dereg_mr-eq;
}

-- The handle just handed out is not one of the cache, so making room for it leaves it alone.
put-covers :
    (size ptr bytes h : ℕ) (c : Cache) (t t' : Regions)
    → Owned verbs_registrar c t
    → reg_mr t ptr bytes ≡ (success, some h, t')
    → (covers t' ptr bytes ≡ true)
      × (covers (cache_put verbs_registrar size ptr bytes (some h) c t').1 ptr bytes ≡ true)
put-covers size ptr bytes h c t t' o e =
    let r : Region = record { handle = h; start = ptr; len = bytes; staging = none } in
    let at : t'.regions ≡ t.regions ++ r ∷ [] = elim (reg_mr_cases t ptr bytes) [
      | inl (k, u, q, free, rs) ↦ ground arith
      | inr (u, q, rs) ↦ absurd (ground arith)
    ] in
    let here = (covers_new t' t.regions r (suc h) at (λ q. absurd (omega arith))).0 in
    elim (cache_put_transport verbs_registrar size ptr bytes h c t') [
      | inl q ↦ (here, rw q here)
      | inr (x, kept, q) ↦ (
        here,
        rw q (
            (covers_new t' t.regions r x.handle at (λ same. false≢true (
              sym (reg_live t ptr bytes h t' e).0
              ∙ ap (has_handle t.regions) same
              ∙ o.registered x.handle kept))).1),
      )
    ]

-- On the RDMA transport the ranges of `ScopedReg` hit `covers` before they reach the cache: once a
-- range that the cache did not hold has been added with success, adding it again, or any part of
-- it, succeeds and changes nothing. So a repeat never stamps its cache entry as used, and a part of
-- a cached range counts as registered although it is no exact repeat.
pub scoped_add_again :
    (size ptr bytes part len : ℕ) (p q : Scope verbs_registrar)
    → Owned verbs_registrar p.cache p.transport
    → 0 < ptr
    → 0 < bytes
    → (cache_get ptr bytes p.cache).0 ≡ none
    → scoped_add verbs_registrar size ptr bytes p ≡ (success, q)
    → ptr ≤ part
    → part + len ≤ ptr + bytes
    → scoped_add verbs_registrar size part len q ≡ (success, q)
scoped_add_again size ptr bytes part len p q o hp hb miss e h k =
    scoped_add_covered verbs_registrar size part len q
      (covers-part q.transport ptr bytes part len held h k)
  where
    from_new :
        (h' : Option ℕ) (t : Regions)
        → reg_mr p.transport ptr bytes ≡ (success, h', t)
        → ((q.transport ≡ t)
            ⊎ (q.transport ≡ (cache_put verbs_registrar size ptr bytes h' p.cache t).1))
        → covers q.transport ptr bytes ≡ true
    from_new none t r at = elim (reg_mr_cases p.transport ptr bytes) [
      | inl (k', u, w, free, rs) ↦ absurd (ground arith)
      | inr (u, w, rs) ↦ absurd (ground arith)
    ]
    from_new (some h') t r at =
        let (plain, cached) = put-covers size ptr bytes h' p.cache p.transport t o r in
        elim at [ inl w ↦ rw w plain | inr w ↦ rw w cached ]

    held : covers q.transport ptr bytes ≡ true
    held = elim (scoped_add_cases verbs_registrar size ptr bytes p q hp hb miss e) [
      | inl (c, same) ↦ rw same c
      | inr (h', t, r, at) ↦ from_new h' t r at
    ]
