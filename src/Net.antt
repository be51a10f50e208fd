-- ===== src/Net.antt =====
-- src/transport/transport.h: the contract of `Transport::sendRecv`, read for all ranks at once.
--
-- A collective is a fixed sequence of `sendRecv` calls on each rank. The k-th call of a rank that
-- receives from a peer takes the k-th message of that peer, so the calls of one round belong
-- together: `exchange` answers with the message that each rank receives, or with `none` where the
-- calls do not match (a message that nobody receives, a receive that nobody serves, or two
-- different sizes), which is where the code would block or corrupt a buffer.
use vkccl.Prelude.{
  ℕ, zero, suc, ◌+◌, ◌<◌, ◌≡◌, refl, Bool, true, ◌&&◌, Option, none, some, arith, ltb, ◌==◌,
  if◌then◌else◌, leb, ◌-◌, subst,
}

-- A buffer by the offset of its elements, and the buffers of all ranks.
abbrev pub Mem : Type 0 → Type 0
Mem A = ℕ → A

abbrev pub World : Type 0 → Type 0
World A = ℕ → Mem A

-- The arguments of one `sendRecv`; the receive buffer is named by the caller.
pub record SendRecv : Type 0 where
  pub send_peer : ℕ
  pub send_at : ℕ
  pub send_len : ℕ
  pub recv_peer : ℕ
  pub recv_len : ℕ

unfoldable pub all_below : ℕ → (ℕ → Bool) → Bool
all_below zero p = true
all_below (suc k) p = p k && all_below k p

pub all_below_intro : (k : ℕ) (p : ℕ → Bool) → ((r : ℕ) → r < k → p r ≡ true) → all_below k p ≡ true
unfolding all_below
all_below_intro zero p h = refl
all_below_intro (suc k) p h =
    ground (arith, h k (omega arith), all_below_intro k p (λ r l. h r (omega arith)))

-- Rank `r`'s call has a partner on both sides.
pub matches : ℕ → (ℕ → SendRecv) → ℕ → Bool
matches n x r =
    ltb (x r).recv_peer n
    && ltb (x r).send_peer n
    && (x (x r).recv_peer).send_peer == r
    && (x (x r).recv_peer).send_len == (x r).recv_len
    && (x (x r).send_peer).recv_peer == r

module _ {A : Type 0} where
  -- What each rank receives in one round.
  unfoldable pub exchange : ℕ → (ℕ → SendRecv) → World A → Option (World A)
  unfolding all_below matches
  exchange n x w =
      if all_below n (matches n x)
      then some (λ r i. w (x r).recv_peer ((x (x r).recv_peer).send_at + i))
      else none

  -- memcpy of `len` elements to offset `at`.
  unfoldable pub copy_to : Mem A → ℕ → ℕ → Mem A → Mem A
  copy_to m at len src i = if leb at i && ltb i (at + len) then src (i - at) else m i

-- `for (int s = ...; ...; s++)` over the rounds of a collective, with the rounds left.
pub rounds : {S : Type 0} → (ℕ → S → Option S) → ℕ → ℕ → S → Option S
rounds step zero s w = some w
rounds step (suc left) s w = elim (step s w) [ none ↦ none | some v ↦ rounds step left (s + 1) v ]

-- Rounds that match and keep an invariant run to the end and establish it.
pub rounds_inv :
    {S : Type 0} (P : ℕ → S → Type 0) (step : ℕ → S → Option S) (end : ℕ)
    → ((s : ℕ) (w : S) → s < end → P s w → (v : S) × (step s w ≡ some v) × P (s + 1) v)
    → (left s : ℕ) (w : S) → s + left ≡ end
    → P s w
    → (v : S) × (rounds step left s w ≡ some v) × P end v
unfolding rounds
rounds_inv P step end keep zero s w e h =
    let e' : s ≡ end = omega arith in (w, refl, subst (λ t. P t w) e' h)
rounds_inv P step end keep (suc left) s w e h =
    let (v, run, hv) = keep s w (omega arith) h in
    rw (run, rounds) (rounds_inv P step end keep left (s + 1) v (omega arith) hv)

-- A round whose calls all match delivers to every rank.
pub exchange-eq :
    {A : Type 0} (n : ℕ) (x : ℕ → SendRecv) (w : World A)
    → ((r : ℕ) → r < n → matches n x r ≡ true)
    → exchange n x w ≡ some (λ r i. w (x r).recv_peer ((x (x r).recv_peer).send_at + i))
unfolding exchange
exchange-eq n x w h = rw (all_below_intro n (matches n x) h)

pub matches_intro :
    (n : ℕ) (x : ℕ → SendRecv) (r : ℕ)
    → (x r).recv_peer < n
    → (x r).send_peer < n
    → (x (x r).recv_peer).send_peer ≡ r
    → (x (x r).recv_peer).send_len ≡ (x r).recv_len
    → (x (x r).send_peer).recv_peer ≡ r
    → matches n x r ≡ true
unfolding matches
matches_intro n x r h₁ h₂ h₃ h₄ h₅ = ground arith
