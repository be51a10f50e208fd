-- ===== src/Comm/Registrations/Kept.antt =====
-- src/core/comm.cc: the handles of `registrations`, each of which is in it once.
use vkccl.Prelude.{
  ℕ, ◌≡◌, refl, inl, inr, Bool, true, false, not, ◌&&◌, ◌||◌, some, List, [], ◌∷◌, ◌++◌, arith,
  ◌==◌, Bool-cases,
}
use vkccl.Comm.Registrations.{MemReg, find_reg, erase_reg}
use vkccl.Comm.Registrations.Growth.{has}

abbrev pub kept : ℕ → List MemReg → Bool
kept j [] = false
kept j (r ∷ rs) = has r.handle j || kept j rs

abbrev pub Once : List MemReg → Type 0
Once [] = Unit {0}
Once (r ∷ rs) = ((j : ℕ) → has r.handle j ≡ true → kept j rs ≡ false) × Once rs

pub kept-append :
    (rs : List MemReg) (r : MemReg) (j : ℕ) → kept j (rs ++ r ∷ []) ≡ (kept j rs || has r.handle j)
kept-append [] r j = ground arith
kept-append (x ∷ rs) r j = ground (arith, kept-append rs r j)

pub Once-append :
    (rs : List MemReg) (r : MemReg)
    → Once rs
    → ((j : ℕ) → has r.handle j ≡ true → kept j rs ≡ false)
    → Once (rs ++ r ∷ [])
Once-append [] r o n = ((λ j h. refl), tt)
Once-append (x ∷ rs) r o n = (
  (λ j h. ground (arith, kept-append rs r j, o.0 j, n j)),
  Once-append rs r o.1 (λ j h. ground (arith, n j h)),
)

pub kept_of_find :
    (rs : List MemReg) (a j : ℕ) (r : MemReg)
    → find_reg a rs ≡ some r
    → has r.handle j ≡ true
    → kept j rs ≡ true
unfolding find_reg
kept_of_find [] a j r e h = cc
kept_of_find (x ∷ rs) a j r e h = ground (arith, kept_of_find rs a j r)

pub kept-erase_reg :
    (rs : List MemReg) (a j : ℕ) (r : MemReg)
    → Once rs
    → find_reg a rs ≡ some r
    → kept j (erase_reg a rs) ≡ (kept j rs && not (has r.handle j))
unfolding find_reg erase_reg
kept-erase_reg [] a j r o e = cc
kept-erase_reg (x ∷ rs) a j r o e =
    ground (arith, kept-erase_reg rs a j r o.1, o.0 j, kept_of_find rs a j r)

kept_of_erase : (rs : List MemReg) (a j : ℕ) → kept j (erase_reg a rs) ≡ true → kept j rs ≡ true
unfolding erase_reg
kept_of_erase [] a j h = h
kept_of_erase (x ∷ rs) a j h = ground (arith, kept_of_erase rs a j)

pub Once-erase_reg : (rs : List MemReg) (a : ℕ) → Once rs → Once (erase_reg a rs)
unfolding erase_reg
Once-erase_reg [] a o = tt
Once-erase_reg (x ∷ rs) a o = elim (Bool-cases (x.at == a)) [
  | inl hit ↦ rw hit o.1
  | inr miss ↦
      rw miss ((λ j h. ground (arith, o.0 j, kept_of_erase rs a j)), Once-erase_reg rs a o.1)
]
