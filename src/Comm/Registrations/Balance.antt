-- ===== src/Comm/Registrations/Balance.antt =====
-- src/core/comm.cc: a communicator gives back the registrations that it made, but for that of its
-- scratch buffer.
use vkccl.Prelude.{
  ℕ, ◌≡◌, refl, ◌∙◌, inl, inr, Bool, true, false, not, ◌&&◌, ◌||◌, Option, none, some, List, [],
  ◌∷◌, arith, ◌==◌, Bool-cases, Option-cases, if◌then◌else◌,
}
use vkccl.Comm.Registrar.{Registrar}
use vkccl.Comm.MrCache.Laws.{holds, Owned, outside}
use vkccl.Comm.MrCache.Scoped.{
  Scope, scoped_adds, scoped_adds-Sound, end-Owned, end-outside, cache_flush_lem,
}
use vkccl.Types.{Result, success, is_success}
use vkccl.Comm.MrCache.{cache_flush}
use vkccl.Comm.Registrations.Kept.{
  kept, Once, kept-append, Once-append, kept_of_find, kept-erase_reg, Once-erase_reg,
}
use vkccl.Comm.Registrations.Growth.{
  has, live-release, Grown, scratch_at-Grown, scratch_all-Grown, Grown-Sound,
}
use vkccl.Comm.Registrations.{
  MemReg, fresh_reg, find_reg, Comm, register_answer, register, release, deregister, release_all,
  destroy, collective, grow, scratch_all, Use, registers, deregisters, grows, collects, use_all,
}

module _ (T : Registrar) where
  open T use {State, reg_mr, dereg_mr, live, reg_live, reg_none, reg_fail, dereg_live}

  -- The live registrations are those of the cache, those of the user, each once, that of the scratch
  -- buffer, and `base`.
  record Balanced (base : ℕ → Bool) (c : Comm T) : Type 0 where
    owned : Owned T c.cache c.transport
    once : Once c.registrations
    user : (j : ℕ) → kept j c.registrations ≡ true → outside T c.cache c.transport j ≡ true
    scratch :
        (j : ℕ)
        → has c.scratch.handle j ≡ true
        → (outside T c.cache c.transport j && not (kept j c.registrations)) ≡ true
    rest :
        (j : ℕ)
        → (outside T c.cache c.transport j
            && not (kept j c.registrations)
            && not (has c.scratch.handle j))
          ≡ base j

  grow-Balanced :
      (base : ℕ → Bool) (place bytes : ℕ) (c : Comm T)
      → Balanced base c
      → Balanced base (grow T place bytes c)
  unfolding grow Grown
  grow-Balanced base place bytes c b =
      let (now, new) =
        scratch_at-Grown T place bytes c.scratch c.transport
          (λ j q. ground (arith, b.scratch j q)) in
      record {
        owned = record {
          distinct = b.owned.distinct;
          registered = λ j q. ground (arith, now j, b.scratch j, b.owned.registered j q);
        };
        once = b.once;
        user = λ j q. ground (arith, now j, b.scratch j, b.user j q);
        scratch =
            λ j q. ground (arith, now j, new j q, b.scratch j, b.user j, b.owned.registered j);
        rest = λ j.
            ground (arith, now j, new j, b.scratch j, b.user j, b.owned.registered j, b.rest j);
      }

  collective-Balanced :
      (base : ℕ → Bool) (size : ℕ) (ranges places : List (ℕ × ℕ)) (c : Comm T)
      → Balanced base c
      → Balanced base (collective T size ranges places c)
  unfolding collective Grown
  collective-Balanced base size ranges places c b =
      let p : Scope T = record { cache = c.cache; transport = c.transport; handles = [] } in
      let before : ℕ → Bool = outside T c.cache c.transport in
      let q = scoped_adds T size ranges p in
      let s =
        scoped_adds-Sound T size ranges p before
          (record { owned = b.owned; kept = λ j m. cc; rest = λ j. ground arith }) in
      let held : (j : ℕ) → has c.scratch.handle j ≡ true → before j ≡ true =
        λ j h. ground (arith, b.scratch j h) in
      let places' = if is_success q.0 then places else [] in
      let r = scratch_all T places' c.scratch q.1.transport in
      let g =
        scratch_all-Grown T places' c.scratch q.1.transport
          (λ j h. ground (arith, held j h, s.rest j)) in
      let s' = Grown-Sound T before q.1 c.scratch.handle r.0.handle r.1 g held s in
      let after = end-outside T _ (record q.1 { transport = r.1 }) s' in
      record {
        owned = end-Owned T _ (record q.1 { transport = r.1 }) s';
        once = b.once;
        user = λ j h. after j ∙ ground (arith, b.user j h, b.scratch j);
        scratch = λ j h. ground (arith, after j, g.1 j h, b.scratch j, b.user j, s.rest j);
        rest = λ j. ground (arith, after j, g.1 j, b.scratch j, b.user j, s.rest j, b.rest j);
      }

  deregister-Balanced :
      (base : ℕ → Bool) (a : ℕ) (c : Comm T) → Balanced base c → Balanced base (deregister T a c).1
  unfolding deregister
  deregister-Balanced base a c b = elim (Option-cases (find_reg a c.registrations)) [
    | inl e ↦ rw (e, deregister) b
    | inr (r, e) ↦
        let (empty, flushed) = cache_flush_lem T c.cache c.transport in
        let t = (cache_flush T c.cache c.transport).1 in
        let not_held : (j : ℕ) → holds (cache_flush T c.cache c.transport).0.entries j ≡ false =
          λ j. rw empty refl in
        rw (e, deregister)
          (record {
            owned = record {
              distinct = rw empty tt;
              registered = λ h p. absurd (ground (arith, not_held h));
            };
            once = Once-erase_reg c.registrations a b.once;
            scratch = λ j h. ground (
              arith,
              not_held j,
              live-release T r.handle t j,
              flushed j,
              kept-erase_reg c.registrations a j r b.once e,
              kept_of_find c.registrations a j r e,
              b.scratch j h,
            );
            user = λ j h. ground (
              arith,
              not_held j,
              live-release T r.handle t j,
              flushed j,
              kept-erase_reg c.registrations a j r b.once e,
              b.user j,
            );
            rest = λ j. ground (
              arith,
              not_held j,
              live-release T r.handle t j,
              flushed j,
              kept-erase_reg c.registrations a j r b.once e,
              b.user j,
              b.rest j,
              kept_of_find c.registrations a j r e,
            );
          })
  ]

  -- A call of `regMr` that hands out no handle.
  none-Balanced :
      (base : ℕ → Bool) (c : Comm T) (buff bytes : ℕ) (res : Result) (t : State)
      → reg_mr c.transport buff bytes ≡ (res, none, t)
      → Balanced base c
      → Balanced base (record c { transport = t })
  none-Balanced base c buff bytes res t e b =
      let same = reg_none c.transport buff bytes res t e in
      record {
        owned = record {
          distinct = b.owned.distinct;
          registered = λ h q. same h ∙ b.owned.registered h q;
        };
        once = b.once;
        user = λ j h. ground (arith, same j, b.user j h);
        scratch = λ j h. ground (arith, same j, b.scratch j h);
        rest = λ j. ground (arith, same j, b.rest j);
      }

  answer-Balanced :
      (base : ℕ → Bool) (c : Comm T) (buff bytes : ℕ) (r : Result × Option ℕ × State)
      → reg_mr c.transport buff bytes ≡ r
      → Balanced base c
      → Balanced base (register_answer T c r).2
  unfolding register_answer
  answer-Balanced base c buff bytes (success, some h, t) e b =
      let (free, now) = reg_live c.transport buff bytes h t e in
      let r : MemReg = record { at = fresh_reg c.registrations; handle = some h } in
      let unheld : holds c.cache.entries h ≡ false = ground (arith, b.owned.registered h) in
      let unkept : kept h c.registrations ≡ false = ground (arith, b.user h) in
      record {
        owned = record {
          distinct = b.owned.distinct;
          registered = λ j q. ground (arith, now j, b.owned.registered j q);
        };
        once = Once-append c.registrations r b.once (λ j q. ground (arith, unkept));
        user = λ j q. ground (arith, now j, kept-append c.registrations r j, b.user j, unheld);
        scratch = λ j q.
            ground (arith, now j, kept-append c.registrations r j, b.scratch j q, unheld, free);
        rest = λ j.
            ground
              (arith, now j, kept-append c.registrations r j, b.rest j, b.scratch j, unheld, free);
      }
  answer-Balanced base c buff bytes (success, none, t) e b =
      let r : MemReg = record { at = fresh_reg c.registrations; handle = none } in
      let n = none-Balanced base c buff bytes success t e b in
      record {
        owned = n.owned;
        once = Once-append c.registrations r b.once (λ j q. absurd (ground arith));
        user = λ j q. n.user j (ground (arith, kept-append c.registrations r j));
        scratch = λ j q. ground (arith, kept-append c.registrations r j, n.scratch j q);
        rest = λ j. ground (arith, kept-append c.registrations r j, n.rest j);
      }
  answer-Balanced base c buff bytes (res, none, t) e b = none-Balanced base c buff bytes _ t e b
  answer-Balanced base c buff bytes (res, some h, t) e b =
      cc (reg_fail c.transport buff bytes h _ t e)

  register-Balanced :
      (base : ℕ → Bool) (buff bytes : ℕ) (c : Comm T)
      → Balanced base c
      → Balanced base (register T buff bytes c).2
  unfolding register
  register-Balanced base buff bytes c b = elim (Bool-cases (buff == 0 || bytes == 0)) [
    | inl q ↦ rw q b
    | inr q ↦ rw q (answer-Balanced base c buff bytes _ refl b)
  ]

  use_all-Balanced :
      (base : ℕ → Bool) (size : ℕ) (us : List Use) (c : Comm T)
      → Balanced base c
      → Balanced base (use_all T size us c)
  unfolding use_all
  use_all-Balanced base size [] c b = b
  use_all-Balanced base size (registers buff bytes ∷ us) c b =
      use_all-Balanced base size us (register T buff bytes c).2
        (register-Balanced base buff bytes c b)
  use_all-Balanced base size (deregisters a ∷ us) c b =
      use_all-Balanced base size us (deregister T a c).1 (deregister-Balanced base a c b)
  use_all-Balanced base size (grows place bytes ∷ us) c b =
      use_all-Balanced base size us (grow T place bytes c) (grow-Balanced base place bytes c b)
  use_all-Balanced base size (collects ranges places ∷ us) c b =
      use_all-Balanced base size us (collective T size ranges places c)
        (collective-Balanced base size ranges places c b)

  live-release_all :
      (rs : List MemReg) (t : State) (j : ℕ)
      → live (release_all T rs t) j ≡ (live t j && not (kept j rs))
  unfolding release_all
  live-release_all [] t j = ground arith
  live-release_all (r ∷ rs) t j =
      ground (arith, live-release_all rs (release T r.handle t) j, live-release T r.handle t j)

  -- A new communicator on a transport.
  abbrev pub new_comm : State → Comm T
  new_comm t = record {
    cache = record { entries = []; clock = 0 };
    transport = t;
    registrations = [];
    scratch = record { size = 0; handle = none };
  }

  -- Whatever a program registers, deregisters and runs on a new communicator, in any order and with
  -- any failures: `vcclCommDestroy` leaves with the transport the registrations that it had before
  -- and that of the scratch buffer, which is none of those. None of the user, of the cache or of a
  -- `ScopedReg` stays, and no other is lost.
  pub destroy_balance :
      (size : ℕ) (us : List Use) (t : State) (j : ℕ)
      → let c = use_all T size us (new_comm t) in
        (live (destroy T c) j ≡ (live t j || has c.scratch.handle j))
        × (has c.scratch.handle j ≡ true → live t j ≡ false)
  unfolding destroy
  destroy_balance size us t j =
      let c = use_all T size us (new_comm t) in
      let b = use_all-Balanced (live t) size us (new_comm t) (record {
        owned = record { distinct = tt; registered = λ h p. absurd (ground arith) };
        once = tt;
        user = λ h p. absurd (ground arith);
        scratch = λ h p. absurd (ground arith);
        rest = λ h. ground arith;
      }) in
      (
        ground (
          arith,
          live-release_all c.registrations (cache_flush T c.cache c.transport).1 j,
          (cache_flush_lem T c.cache c.transport).1 j,
          b.scratch j,
          b.rest j,
        ),
        λ h. ground (arith, b.scratch j h, b.rest j),
      )
