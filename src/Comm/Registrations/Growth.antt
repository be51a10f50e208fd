-- ===== src/Comm/Registrations/Growth.antt =====
-- src/core/comm.h: `scratchAt` exchanges one registration of the transport for another.
use vkccl.Prelude.{
  ℕ, ◌≡◌, refl, Bool, true, false, not, ◌&&◌, ◌||◌, Option, none, some, List, [], ◌∷◌, arith, ◌==◌,
  inl, inr, Bool-cases, ltb,
}
use vkccl.Types.{Result, success}
use vkccl.Comm.Registrar.{Registrar}
use vkccl.Comm.MrCache.Scoped.{Scope, Sound}
use vkccl.Comm.Registrations.{Scratch, release, scratch_at, scratch_all}

-- Whether a registration, which may have no handle, has this one.
abbrev pub has : Option ℕ → ℕ → Bool
has none j = false
has (some h) j = j == h

module _ (T : Registrar) where
  open T use {State, reg_mr, dereg_mr, live, reg_live, reg_none, reg_fail, dereg_live}

  pub live-release :
      (h : Option ℕ) (t : State) (j : ℕ) → live (release T h t) j ≡ (live t j && not (has h j))
  live-release none t j = ground arith
  live-release (some h) t j = ground (arith, dereg_live t h j)

  -- What a call of `regMr` registers is the handle that it hands out.
  answered :
      (t : State) (addr len : ℕ) (r : Result × Option ℕ × State)
      → reg_mr t addr len ≡ r
      → ((j : ℕ) → live r.2 j ≡ (live t j || has r.1 j))
        × ((j : ℕ) → has r.1 j ≡ true → live t j ≡ false)
  answered t addr len (success, some h, t') e =
      let (free, now) = reg_live t addr len h t' e in
      ((λ j. ground (arith, now j)), (λ j q. ground (arith, free)))
  answered t addr len (res, none, t') e =
      ((λ j. ground (arith, reg_none t addr len res t' e j)), (λ j q. absurd (ground arith)))
  answered t addr len (res, some h, t') e = cc (reg_fail t addr len h _ t' e)

  -- The handle of the scratch buffer changes from one to another, which is new unless it is the
  -- same.
  unfoldable pub Grown : Option ℕ → State → Option ℕ → State → Type 0
  Grown h t h' t' =
      ((j : ℕ) → live t' j ≡ ((live t j && not (has h j)) || has h' j))
      × ((j : ℕ) → has h' j ≡ true → (live t j && not (has h j)) ≡ false)

  pub scratch_at-Grown :
      (place bytes : ℕ) (sc : Scratch) (t : State)
      → ((j : ℕ) → has sc.handle j ≡ true → live t j ≡ true)
      → let r = scratch_at T place bytes sc t in Grown sc.handle t r.0.handle r.1
  unfolding scratch_at Grown
  scratch_at-Grown place bytes sc t held =
      let (now, new) = answered (release T sc.handle t) place bytes _ refl in
      elim (Bool-cases (ltb sc.size bytes)) [
        | inl big ↦ rw big (
          (λ j. ground (arith, now j, live-release sc.handle t j)),
          (λ j q. ground (arith, new j q, live-release sc.handle t j)),
        )
        | inr small ↦ rw small ((λ j. ground (arith, held j)), (λ j q. ground (arith, q)))
      ]

  pub scratch_all-Grown :
      (places : List (ℕ × ℕ)) (sc : Scratch) (t : State)
      → ((j : ℕ) → has sc.handle j ≡ true → live t j ≡ true)
      → let r = scratch_all T places sc t in Grown sc.handle t r.0.handle r.1
  unfolding scratch_all Grown
  scratch_all-Grown [] sc t held = ((λ j. ground (arith, held j)), (λ j q. ground (arith, q)))
  scratch_all-Grown ((place, bytes) ∷ rest) sc t held =
      let (now, new) = scratch_at-Grown place bytes sc t held in
      let r = scratch_at T place bytes sc t in
      let (later, newer) = scratch_all-Grown rest r.0 r.1 (λ j q. ground (arith, now j, q)) in
      (
        (λ j. ground (arith, now j, new j, later j)),
        (λ j q. ground (arith, now j, new j, newer j q)),
      )

  -- In a `ScopedReg`, the scratch buffer is neither with the cache nor in `handles_`.
  pub Grown-Sound :
      (base : ℕ → Bool) (p : Scope T) (h h' : Option ℕ) (t' : State)
      → Grown h p.transport h' t'
      → ((j : ℕ) → has h j ≡ true → base j ≡ true)
      → Sound T base p
      → Sound T (λ j. (base j && not (has h j)) || has h' j) (record p { transport = t' })
  unfolding Grown
  Grown-Sound base p h h' t' (now, new) held s = record {
    owned = record {
      distinct = s.owned.distinct;
      registered = λ j q. ground (arith, now j, held j, s.rest j, s.owned.registered j q);
    };
    kept = λ j q. ground (arith, now j, held j, s.rest j, s.kept j q);
    rest = λ j. ground (arith, now j, new j, held j, s.rest j, s.kept j, s.owned.registered j);
  }
