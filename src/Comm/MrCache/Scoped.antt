-- ===== src/Comm/MrCache/Scoped.antt =====
-- src/core/comm.h: `ScopedReg`, the registrations of one collective.
use vkccl.Prelude.{
  ℕ, ◌+◌, ◌<◌, ◌≡◌, refl, ◌∙◌, ap, Bool, true, false, not, ◌&&◌, ◌||◌, List, [], ◌∷◌, ◌++◌, Option,
  none, some, arith, ltb, ◌==◌, if◌then◌else◌, ◌⊎◌, inl, inr, Option-cases, Bool-cases, ltb→lt,
}
use vkccl.Types.{Result, success, is_success}
use vkccl.Comm.Registrar.{Registrar}
use vkccl.Comm.MrCache.{Entry, Cache, cache_get, get_from, cache_put, cache_flush, dereg_all}
use vkccl.Comm.MrCache.Laws.{holds, Distinct, Owned, outside, cache_put_lem}

module _ (T : Registrar) where
  open T use {State, reg_mr, dereg_mr, covers, live, reg_live, reg_none, reg_fail, dereg_live}

  -- The communicator's cache, its transport, and `handles_`.
  pub record Scope : Type 0 where
    pub cache : Cache
    pub transport : State
    pub handles : List ℕ

  -- What `add` does with the answer of `regMr`. With the cache: the cache takes the handle.
  unfoldable pub cache_answer : ℕ → ℕ → ℕ → Scope → Result × Option ℕ × State → Result × Scope
  cache_answer size ptr bytes p (success, h, t) =
      let (c', t') = cache_put T size ptr bytes h p.cache t in
      (success, record p { cache = c'; transport = t' })
  cache_answer size ptr bytes p (res, h, t) = (res, record p { transport = t })

  -- Without: `handles_` takes it.
  unfoldable pub keep_answer : Scope → Result × Option ℕ × State → Result × Scope
  keep_answer p (success, some h, t) =
      (success, record p { transport = t; handles = p.handles ++ h ∷ [] })
  keep_answer p (res, h, t) = (res, record p { transport = t })

  unfoldable pub add_cached : ℕ → ℕ → ℕ → Scope → Result × Scope
  unfolding cache_answer
  add_cached size ptr bytes p = elim (cache_get ptr bytes p.cache).0 [
    | some h ↦ (success, record p { cache = (cache_get ptr bytes p.cache).1 })
    | none ↦ cache_answer size ptr bytes p (reg_mr p.transport ptr bytes)
  ]

  unfoldable pub add_plain : ℕ → ℕ → Scope → Result × Scope
  unfolding keep_answer
  add_plain ptr bytes p = keep_answer p (reg_mr p.transport ptr bytes)

  -- `ScopedReg::add` on a communicator with a transport; 0 is the null pointer.
  unfoldable pub scoped_add : ℕ → ℕ → ℕ → Scope → Result × Scope
  unfolding add_cached add_plain
  scoped_add size ptr bytes p =
      if ptr == 0 || bytes == 0
      then (success, p)
      else if covers p.transport ptr bytes
      then (success, p)
      else if ltb 0 size
      then add_cached size ptr bytes p
      else add_plain ptr bytes p

  -- The calls of `reg.add` of a collective, up to the first that fails.
  pub scoped_adds : ℕ → List (ℕ × ℕ) → Scope → Result × Scope
  scoped_adds size [] p = (success, p)
  scoped_adds size ((ptr, bytes) ∷ rest) p =
      let (res, q) = scoped_add size ptr bytes p in
      let more = scoped_adds size rest q in if is_success res then more else (res, q)

  dereg_handles : List ℕ → State → State
  dereg_handles [] t = t
  dereg_handles (h ∷ hs) t = dereg_handles hs (dereg_mr t h)

  -- `~ScopedReg`
  pub scoped_end : Scope → Scope
  unfolding dereg_handles
  scoped_end p = record p { transport = dereg_handles p.handles p.transport; handles = [] }

abbrev pub mem : ℕ → List ℕ → Bool
mem j [] = false
mem j (h ∷ hs) = j == h || mem j hs

mem-append : (j h : ℕ) (hs : List ℕ) → mem j (hs ++ h ∷ []) ≡ (mem j hs || j == h)
mem-append j h [] = ground arith
mem-append j h (x ∷ hs) = ground (arith, mem-append j h hs)

-- A hit stamps an entry and keeps every handle.
get_from_lem :
    (addr len stamp : ℕ) (es : List Entry) (h : ℕ) (es' : List Entry)
    → get_from addr len stamp es ≡ some (h, es')
    → ((j : ℕ) → holds es' j ≡ holds es j) × (Distinct es → Distinct es')
unfolding get_from
get_from_lem addr len stamp [] h es' e = cc
get_from_lem addr len stamp (x ∷ es) h es' e = elim (Bool-cases (x.addr == addr && x.len == len)) [
  | inl hit ↦ ((λ j. ground arith), (λ d. ground arith))
  | inr miss ↦ elim (Option-cases (get_from addr len stamp es)) [
    | inl q ↦ absurd (ground arith)
    | inr ((k, rest), q) ↦
        let ih = get_from_lem addr len stamp es k rest q in
        ((λ j. ground (arith, ih.0 j)), (λ d. ground (arith, ih.1 d.1, ih.0 x.handle)))
  ]
]

cache_get_lem :
    (addr len : ℕ) (c : Cache)
    → ((j : ℕ) → holds (cache_get addr len c).1.entries j ≡ holds c.entries j)
      × (Distinct c.entries → Distinct (cache_get addr len c).1.entries)
unfolding cache_get
cache_get_lem addr len c = elim (Option-cases (get_from addr len (c.clock + 1) c.entries)) [
  | inl q ↦ rw (q, cache_get) ((λ j. refl), (λ d. d))
  | inr ((k, rest), q) ↦ rw (q, cache_get) (get_from_lem addr len (c.clock + 1) c.entries k rest q)
]

module _ (T : Registrar) where
  open T use {State, reg_mr, dereg_mr, covers, live, reg_live, reg_none, reg_fail, dereg_live}

  -- During a collective: what neither the cache nor `handles_` accounts for is as at the start.
  pub record Sound (base : ℕ → Bool) (p : Scope T) : Type 0 where
    pub owned : Owned T p.cache p.transport
    pub kept : (j : ℕ) → mem j p.handles ≡ true → outside T p.cache p.transport j ≡ true
    pub rest : (j : ℕ) → (outside T p.cache p.transport j && not (mem j p.handles)) ≡ base j

  unheld :
      (c : Cache) (t : State) (h : ℕ) → Owned T c t → live t h ≡ false → holds c.entries h ≡ false
  unheld c t h o l = ground (arith, o.registered h)

  -- A step that changes no count of registrations outside the cache.
  same-Sound :
      (base : ℕ → Bool) (p : Scope T) (c : Cache) (t : State)
      → Sound base p
      → Owned T c t
      → ((j : ℕ) → outside T c t j ≡ outside T p.cache p.transport j)
      → Sound base (record p { cache = c; transport = t })
  same-Sound base p c t s o e = record {
    owned = o;
    kept = λ j m. e j ∙ s.kept j m;
    rest = λ j. ap (λ b. b && not (mem j p.handles)) (e j) ∙ s.rest j;
  }

  -- A call of `regMr` that hands out no handle changes nothing.
  none-Sound :
      (base : ℕ → Bool) (p : Scope T) (ptr bytes : ℕ) (res : Result) (t : State)
      → reg_mr p.transport ptr bytes ≡ (res, none, t)
      → Sound base p
      → Sound base (record p { transport = t })
  none-Sound base p ptr bytes res t e s =
      let same = reg_none p.transport ptr bytes res t e in
      same-Sound base p p.cache t s
        (record {
          distinct = s.owned.distinct;
          registered = λ h q. same h ∙ s.owned.registered h q;
        })
        (λ j. ap (λ b. b && not (holds p.cache.entries j)) (same j))

  -- The new handle `h`, where the cache is left alone.
  module _ (base : ℕ → Bool) (p : Scope T) (ptr bytes h : ℕ) (t : State)
      (e : reg_mr p.transport ptr bytes ≡ (success, some h, t)) (s : Sound base p) where
    new_free : holds p.cache.entries h ≡ false
    new_free = unheld p.cache p.transport h s.owned (reg_live p.transport ptr bytes h t e).0

    new_Owned : Owned T p.cache t
    new_Owned = record {
      distinct = s.owned.distinct;
      registered =
          λ j q. ground (arith, (reg_live p.transport ptr bytes h t e).1 j, s.owned.registered j q);
    }

    new_outside :
        (j : ℕ) → outside T p.cache t j ≡ (if j == h then true else outside T p.cache p.transport j)
    new_outside j = ground (arith, (reg_live p.transport ptr bytes h t e).1 j, new_free)

  cache_answer-Sound :
      (size ptr bytes : ℕ) (p : Scope T) (base : ℕ → Bool) (r : Result × Option ℕ × State)
      → 0 < size
      → reg_mr p.transport ptr bytes ≡ r
      → Sound base p
      → Sound base (cache_answer T size ptr bytes p r).1
  unfolding cache_answer cache_put
  cache_answer-Sound size ptr bytes p base (success, some h, t) pos e s =
      let (o, out) =
        cache_put_lem T size ptr bytes h p.cache t pos (new_Owned base p ptr bytes h t e s)
          (new_free base p ptr bytes h t e s)
          (ground (arith, (reg_live p.transport ptr bytes h t e).1 h)) in
      same-Sound base p _ _ s o (λ j. ground (
        arith,
        out j,
        new_outside base p ptr bytes h t e s j,
        (reg_live p.transport ptr bytes h t e).0,
      ))
  cache_answer-Sound size ptr bytes p base (success, none, t) pos e s =
      none-Sound base p ptr bytes success t e s
  cache_answer-Sound size ptr bytes p base (res, none, t) pos e s =
      none-Sound base p ptr bytes _ t e s
  cache_answer-Sound size ptr bytes p base (res, some h, t) pos e s =
      cc (reg_fail p.transport ptr bytes h _ t e)

  keep_answer-Sound :
      (ptr bytes : ℕ) (p : Scope T) (base : ℕ → Bool) (r : Result × Option ℕ × State)
      → reg_mr p.transport ptr bytes ≡ r
      → Sound base p
      → Sound base (keep_answer T p r).1
  unfolding keep_answer
  keep_answer-Sound ptr bytes p base (success, some h, t) e s = record {
    owned = new_Owned base p ptr bytes h t e s;
    kept = λ j m.
        ground (arith, new_outside base p ptr bytes h t e s j, mem-append j h p.handles, s.kept j);
    rest = λ j. ground (
      arith,
      new_outside base p ptr bytes h t e s j,
      mem-append j h p.handles,
      s.rest j,
      (reg_live p.transport ptr bytes h t e).0,
    );
  }
  keep_answer-Sound ptr bytes p base (success, none, t) e s =
      none-Sound base p ptr bytes success t e s
  keep_answer-Sound ptr bytes p base (res, none, t) e s = none-Sound base p ptr bytes _ t e s
  keep_answer-Sound ptr bytes p base (res, some h, t) e s =
      cc (reg_fail p.transport ptr bytes h _ t e)

  add_cached-Sound :
      (size ptr bytes : ℕ) (p : Scope T) (base : ℕ → Bool)
      → 0 < size
      → Sound base p
      → Sound base (add_cached T size ptr bytes p).1
  unfolding add_cached
  add_cached-Sound size ptr bytes p base pos s =
      elim (Option-cases (cache_get ptr bytes p.cache).0) [
        | inl miss ↦ rw (miss, add_cached) (cache_answer-Sound size ptr bytes p base _ pos refl s)
        | inr (h, hit) ↦
            let (same, distinct) = cache_get_lem ptr bytes p.cache in
            rw (hit, add_cached)
              (same-Sound base p (cache_get ptr bytes p.cache).1 p.transport s
                (record {
                  distinct = distinct s.owned.distinct;
                  registered = λ j q. ground (arith, same j, s.owned.registered j);
                })
                (λ j. ap (λ b. live p.transport j && not b) (same j)))
      ]

  scoped_add-Sound :
      (size ptr bytes : ℕ) (p : Scope T) (base : ℕ → Bool)
      → Sound base p
      → Sound base (scoped_add T size ptr bytes p).1
  unfolding scoped_add
  scoped_add-Sound size ptr bytes p base s = elim (Bool-cases (ptr == 0 || bytes == 0)) [
    | inl q ↦ rw q s
    | inr q ↦ rw q (elim (Bool-cases (covers p.transport ptr bytes)) [
      | inl k ↦ rw k s
      | inr k ↦ rw k (elim (Bool-cases (ltb 0 size)) [
        | inl z ↦ rw z (add_cached-Sound size ptr bytes p base (ltb→lt 0 size z) s)
        | inr z ↦ rw z (unfold add_plain in keep_answer-Sound ptr bytes p base _ refl s)
      ])
    ])
  ]

  pub scoped_adds-Sound :
      (size : ℕ) (ranges : List (ℕ × ℕ)) (p : Scope T) (base : ℕ → Bool)
      → Sound base p
      → Sound base (scoped_adds T size ranges p).1
  unfolding scoped_adds
  scoped_adds-Sound size [] p base s = s
  scoped_adds-Sound size ((ptr, bytes) ∷ rest) p base s =
      let q = scoped_add-Sound size ptr bytes p base s in
      elim (Bool-cases (is_success (scoped_add T size ptr bytes p).0)) [
        | inl good ↦ rw good (scoped_adds-Sound size rest (scoped_add T size ptr bytes p).1 base q)
        | inr bad ↦ rw bad q
      ]

  live-dereg_handles :
      (hs : List ℕ) (t : State) (j : ℕ)
      → live (dereg_handles T hs t) j ≡ (live t j && not (mem j hs))
  unfolding dereg_handles
  live-dereg_handles [] t j = ground arith
  live-dereg_handles (h ∷ hs) t j =
      ground (arith, live-dereg_handles hs (dereg_mr t h) j, dereg_live t h j)

  pub end-Owned :
      (base : ℕ → Bool) (p : Scope T)
      → Sound base p
      → Owned T (scoped_end T p).cache (scoped_end T p).transport
  unfolding scoped_end
  end-Owned base p s = record {
    distinct = s.owned.distinct;
    registered = λ j q.
        ground (arith, live-dereg_handles p.handles p.transport j, s.owned.registered j, s.kept j);
  }

  pub end-outside :
      (base : ℕ → Bool) (p : Scope T)
      → Sound base p
      → (j : ℕ) → outside T (scoped_end T p).cache (scoped_end T p).transport j ≡ base j
  unfolding scoped_end
  end-outside base p s j = ground (arith, live-dereg_handles p.handles p.transport j, s.rest j)

  -- A collective that pins any ranges with `ScopedReg`, whether they are cached, already covered,
  -- refused by the transport or kept in `handles_`, leaves no registration behind but those that
  -- the cache holds: after the destructor every other handle is registered exactly if it was
  -- before, and every cached handle is registered and cached once.
  pub scoped_lem :
      (size : ℕ) (ranges : List (ℕ × ℕ)) (c : Cache) (t : State)
      → Owned T c t
      → let q =
          scoped_end T
            (scoped_adds T size ranges (record { cache = c; transport = t; handles = [] })).1 in
        Owned T q.cache q.transport × ((j : ℕ) → outside T q.cache q.transport j ≡ outside T c t j)
  unfolding scoped_end
  scoped_lem size ranges c t o =
      let p : Scope T = record { cache = c; transport = t; handles = [] } in
      let s =
        scoped_adds-Sound size ranges p (outside T c t)
          (record { owned = o; kept = λ j m. cc; rest = λ j. ground arith }) in
      let q = (scoped_adds T size ranges p).1 in
      (
        end-Owned (outside T c t) q s,
        λ j. ground (arith, live-dereg_handles q.handles q.transport j, s.rest j),
      )

  live-dereg_all :
      (es : List Entry) (t : State) (j : ℕ)
      → live (dereg_all T es t) j ≡ (live t j && not (holds es j))
  unfolding dereg_all
  live-dereg_all [] t j = ground arith
  live-dereg_all (e ∷ es) t j =
      ground (arith, live-dereg_all es (dereg_mr t e.handle) j, dereg_live t e.handle j)

  -- `flushMrCache` empties the cache and releases exactly the registrations that it held.
  pub cache_flush_lem :
      (c : Cache) (t : State)
      → let (c', t') = cache_flush T c t in
        (c'.entries ≡ []) × ((j : ℕ) → live t' j ≡ outside T c t j)
  unfolding cache_flush
  cache_flush_lem c t = (refl, live-dereg_all c.entries t)

  cache_answer_inv :
      (size ptr bytes : ℕ) (p q : Scope T) (r : Result × Option ℕ × State)
      → cache_answer T size ptr bytes p r ≡ (success, q)
      → (r.0 ≡ success) × (q.transport ≡ (cache_put T size ptr bytes r.1 p.cache r.2).1)
  unfolding cache_answer
  cache_answer_inv size ptr bytes p q (success, h, t) e = (refl, ground arith)
  cache_answer_inv size ptr bytes p q (res, h, t) e = absurd (ground arith)

  keep_answer_inv :
      (p q : Scope T) (r : Result × Option ℕ × State)
      → keep_answer T p r ≡ (success, q)
      → (r.0 ≡ success) × (q.transport ≡ r.2)
  unfolding keep_answer
  keep_answer_inv p q (success, some h, t) e = (refl, ground arith)
  keep_answer_inv p q (success, none, t) e = (refl, ground arith)
  keep_answer_inv p q (res, h, t) e = absurd (ground arith)

  -- How an `add` of a range that is not empty succeeds: the range is covered already, the cache has
  -- it, or `regMr` succeeds and the new handle goes to the cache or to `handles_`.
  pub scoped_add_cases :
      (size ptr bytes : ℕ) (p q : Scope T)
      → 0 < ptr
      → 0 < bytes
      → (cache_get ptr bytes p.cache).0 ≡ none
      → scoped_add T size ptr bytes p ≡ (success, q)
      → ((covers p.transport ptr bytes ≡ true) × (q.transport ≡ p.transport))
        ⊎ ((h : Option ℕ) × (t : State) × (reg_mr p.transport ptr bytes ≡ (success, h, t))
            × ((q.transport ≡ t) ⊎ (q.transport ≡ (cache_put T size ptr bytes h p.cache t).1)))
  unfolding scoped_add add_cached add_plain
  scoped_add_cases size ptr bytes p q hp hb miss e =
      let r = reg_mr p.transport ptr bytes in
      elim (Bool-cases (covers p.transport ptr bytes)) [
        | inl k ↦ inl (k, ground arith)
        | inr k ↦ inr (elim (Bool-cases (ltb 0 size)) [
          | inl z ↦
              let (good, at) = cache_answer_inv size ptr bytes p q r (ground arith) in
              (r.1, r.2, ground arith, inr at)
          | inr z ↦
              let (good, at) = keep_answer_inv p q r (ground arith) in
              (r.1, r.2, ground arith, inl at)
        ])
      ]

  pub scoped_add_covered :
      (size ptr bytes : ℕ) (p : Scope T)
      → covers p.transport ptr bytes ≡ true
      → scoped_add T size ptr bytes p ≡ (success, p)
  unfolding scoped_add
  scoped_add_covered size ptr bytes p c = ground arith
