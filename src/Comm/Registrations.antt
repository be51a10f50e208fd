-- ===== src/Comm/Registrations.antt =====
-- src/core/comm.cc: `vcclCommRegister`, `vcclCommDeregister` and `vcclCommDestroy`, with the cache and
-- `ScopedReg` and `scratchAt` of src/core/comm.h, over a transport's registrations. A `MemReg` is named by its
-- address, which no other one in `registrations` has.
pub mod Growth
pub mod Kept
pub mod Balance
use vkccl.Prelude.{
  ℕ, ◌+◌, max, ◌||◌, Option, none, some, List, [], ◌∷◌, ◌++◌, ◌==◌, ltb, if◌then◌else◌,
}
use vkccl.Types.{Result, success, invalid_argument, is_success}
use vkccl.Comm.Registrar.{Registrar}
use vkccl.Comm.MrCache.{Cache, cache_flush}
use vkccl.Comm.MrCache.Scoped.{scoped_adds, scoped_end}

-- `vcclComm::MemReg`
pub record MemReg : Type 0 where
  pub at : ℕ
  pub handle : Option ℕ

abbrev pub fresh_reg : List MemReg → ℕ
fresh_reg [] = 1
fresh_reg (r ∷ rs) = max (r.at + 1) (fresh_reg rs)

pub find_reg : ℕ → List MemReg → Option MemReg
find_reg a [] = none
find_reg a (r ∷ rs) = let rest = find_reg a rs in if r.at == a then some r else rest

-- `registrations.erase(it)` for the first one with the address.
pub erase_reg : ℕ → List MemReg → List MemReg
erase_reg a [] = []
erase_reg a (r ∷ rs) = let rest = erase_reg a rs in if r.at == a then rs else r ∷ rest

-- `scratch`, of which only the size matters here, and `scratchRegHandle`.
pub record Scratch : Type 0 where
  pub size : ℕ
  pub handle : Option ℕ

module _ (T : Registrar) where
  open T use {State, reg_mr, dereg_mr}

  -- `mrCache`, the transport, `registrations` and the scratch buffer of a communicator.
  pub record Comm : Type 0 where
    pub cache : Cache
    pub transport : State
    pub registrations : List MemReg
    pub scratch : Scratch

  pub register_answer : Comm → Result × Option ℕ × State → Result × Option ℕ × Comm
  register_answer c (success, h, t) =
      let a = fresh_reg c.registrations in
      (
        success,
        some a,
        record c {
          transport = t;
          registrations = c.registrations ++ record { at = a; handle = h } ∷ [];
        },
      )
  register_answer c (res, h, t) = (res, none, record c { transport = t })

  -- `vcclCommRegister` with a place for the handle.
  pub register : ℕ → ℕ → Comm → Result × Option ℕ × Comm
  unfolding register_answer
  register buff bytes c =
      if buff == 0 || bytes == 0
      then (invalid_argument, none, c)
      else register_answer c (reg_mr c.transport buff bytes)

  abbrev pub release : Option ℕ → State → State
  release none t = t
  release (some h) t = dereg_mr t h

  -- `vcclCommDeregister`
  pub deregister : ℕ → Comm → Result × Comm
  unfolding find_reg erase_reg
  deregister a c = elim (find_reg a c.registrations) [
    | none ↦ (invalid_argument, c)
    | some r ↦
        let (cache', t) = cache_flush T c.cache c.transport in
        (
          success,
          record {
            cache = cache';
            transport = release r.handle t;
            registrations = erase_reg a c.registrations;
            scratch = c.scratch;
          },
        )
  ]

  pub release_all : List MemReg → State → State
  release_all [] t = t
  release_all (r ∷ rs) t = release_all rs (release r.handle t)

  -- `vcclCommDestroy`: what is left of the transport's registrations.
  pub destroy : Comm → State
  unfolding release_all
  destroy c = release_all c.registrations (cache_flush T c.cache c.transport).1

  -- `scratchAt` of a size, on a communicator with a transport: the buffer grows where it is too
  -- small, to a new place, and is registered anew.
  pub scratch_at : ℕ → ℕ → Scratch → State → Scratch × State
  scratch_at place bytes sc t =
      let (res, h, t') = reg_mr (release sc.handle t) place bytes in
      if ltb sc.size bytes then (record { size = bytes; handle = h }, t') else (sc, t)

  pub scratch_all : List (ℕ × ℕ) → Scratch → State → Scratch × State
  unfolding scratch_at
  scratch_all [] sc t = (sc, t)
  scratch_all ((place, bytes) ∷ rest) sc t =
      let (sc', t') = scratch_at place bytes sc t in scratch_all rest sc' t'

  -- What is registered in a collective: its calls of `reg.add`, those of `scratchAt` where none of
  -- them has failed, and the end of its `ScopedReg`.
  pub collective : ℕ → List (ℕ × ℕ) → List (ℕ × ℕ) → Comm → Comm
  unfolding scratch_all
  collective size ranges places c =
      let (res, p) =
        scoped_adds T size ranges
          (record { cache = c.cache; transport = c.transport; handles = [] }) in
      let (sc, t) = scratch_all (if is_success res then places else []) c.scratch p.transport in
      let q = scoped_end T (record p { transport = t }) in
      record {
        cache = q.cache;
        transport = q.transport;
        registrations = c.registrations;
        scratch = sc;
      }

  -- `scratchAt` before the `ScopedReg` of a collective, as `doReduce` calls it.
  pub grow : ℕ → ℕ → Comm → Comm
  unfolding scratch_at
  grow place bytes c =
      let (sc, t) = scratch_at place bytes c.scratch c.transport in
      record c { transport = t; scratch = sc }

-- What a program does with a communicator's memory.
pub data Use : Type 0 where
  registers : ℕ → ℕ → Use
  deregisters : ℕ → Use
  grows : ℕ → ℕ → Use
  collects : List (ℕ × ℕ) → List (ℕ × ℕ) → Use

module _ (T : Registrar) where
  pub use_all : ℕ → List Use → Comm T → Comm T
  unfolding register deregister collective grow
  use_all size [] c = c
  use_all size (registers buff bytes ∷ us) c = use_all size us (register T buff bytes c).2
  use_all size (deregisters a ∷ us) c = use_all size us (deregister T a c).1
  use_all size (grows place bytes ∷ us) c = use_all size us (grow T place bytes c)
  use_all size (collects ranges places ∷ us) c = use_all size us (collective T size ranges places c)
