-- ===== src/Slots.antt =====
-- Tables of one socket for each rank: `Bootstrap::peerFds_` (src/core/bootstrap.cc) and
-- `TcpTransport::fds_` (src/transport/tcp.cc). A slot that holds -1 is `none`.
use vkccl.Prelude.{
  ℕ, zero, suc, ◌+◌, ◌≤◌, ◌<◌, ◌≡◌, refl, ap, Bool, true, false, Option, none, some, arith,
  ℕ_discrete, leb, ◌==◌, if◌then◌else◌,
}

-- `fds[rank] == -1`
abbrev pub is_free : Option ℕ → Bool
is_free none = true
is_free (some fd) = false

-- How many of the ranks 1 to `k` have a socket.
pub count : ℕ → (ℕ → Option ℕ) → ℕ
count zero f = 0
count (suc k) f = count k f + (if is_free (f (suc k)) then 0 else 1)

pub none_yet : (k : ℕ) → count k (λ r. none) ≡ 0
unfolding count
none_yet zero = refl
none_yet (suc k) = omega (arith, none_yet k)

pub count-le : (k : ℕ) (f : ℕ → Option ℕ) → count k f ≤ k
unfolding count
count-le zero f = omega arith
count-le (suc k) f = ground (arith, count-le k f)

pub count-full :
    (k : ℕ) (f : ℕ → Option ℕ) (r : ℕ) → count k f ≡ k → 0 < r → r ≤ k → is_free (f r) ≡ false
unfolding count
count-full zero f r e h l = absurd (omega arith)
count-full (suc k) f r e h l = elim (ℕ_discrete r (suc k)) [
  | yes q ↦ rw q (ground (arith, count-le k f, e))
  | no nq ↦ count-full k f r (ground (arith, count-le k f, e)) h (omega arith)
]

pub count-all :
    (k : ℕ) (f : ℕ → Option ℕ) → ((r : ℕ) → 0 < r → r ≤ k → is_free (f r) ≡ false) → count k f ≡ k
unfolding count
count-all zero f h = refl
count-all (suc k) f h =
    rw (h (suc k) (omega arith) (omega arith))
      (omega (arith, count-all k f (λ r a b. h r a (omega arith))))

-- `fds[a] = fd`
abbrev pub put : (ℕ → Option ℕ) → ℕ → ℕ → ℕ → Option ℕ
put f a fd r = if r == a then some fd else f r

pub count-put :
    (k : ℕ) (f : ℕ → Option ℕ) (a fd : ℕ)
    → is_free (f a) ≡ true
    → 0 < a
    → count k (put f a fd) ≡ count k f + (if leb a k then 1 else 0)
unfolding count
count-put zero f a fd h p = ground arith
count-put (suc k) f a fd h p = elim (ℕ_discrete (suc k) a) [
  | yes q ↦ ground (arith, count-put k f a fd h p, q, ap f q)
  | no nq ↦ ground (arith, count-put k f a fd h p, nq)
]
