-- ===== src/Collectives/AllToAll.antt =====
-- src/core/collectives.cc: `doAllToAllv` and the tables of `vcclAllToAll`, on all ranks at once. The
-- two buffers of a rank do not overlap; offsets and counts are in elements.
mod Tests
use native.Mathlib.Nat.{mul-le-mul_right}
use vkccl.Prelude.{
  ℕ, ◌+◌, ◌-◌, ◌*◌, ◌%◌, ◌≤◌, ◌<◌, ◌≡◌, refl, ap, subst, ◌∙◌, true, Option, none, some, arith,
  dec_le, ℕ_discrete, ltb, if◌then◌else◌, wrap, below,
}
use vkccl.Net.{
  World, SendRecv, matches, exchange, copy_to, rounds, rounds_inv, exchange-eq, matches_intro,
}

-- The arguments of the ranks: what rank `r` has for, or awaits from, peer `p`.
pub record Tables : Type 0 where
  pub sendcounts : ℕ → ℕ → ℕ
  pub sdispls : ℕ → ℕ → ℕ
  pub recvcounts : ℕ → ℕ → ℕ
  pub rdispls : ℕ → ℕ → ℕ

-- The tables of `vcclAllToAll`.
pub all_to_all_tables : ℕ → Tables
all_to_all_tables count = record {
  sendcounts = λ r p. count;
  sdispls = λ r p. p * count;
  recvcounts = λ r p. count;
  rdispls = λ r p. p * count;
}

pub to : ℕ → ℕ → ℕ → ℕ
to n s r = (r + s) % n

pub from : ℕ → ℕ → ℕ → ℕ
from n s r = (r + n - s) % n

-- The `sendRecv` of rank `r` in step `s`.
pub all_to_all_call : ℕ → ℕ → Tables → ℕ → ℕ → SendRecv
all_to_all_call n esize t s r = record {
  send_peer = to n s r;
  send_at = t.sdispls r (to n s r);
  send_len = t.sendcounts r (to n s r) * esize;
  recv_peer = from n s r;
  recv_len = t.recvcounts r (from n s r) * esize;
}

module _ {A : Type 0} (n esize : ℕ) (t : Tables) (send : World A) where
  -- A rank's block for itself is copied.
  pub copy_own : World A → World A
  copy_own w r =
      if ltb 0 (t.sendcounts r r)
      then copy_to (w r) (t.rdispls r r) (t.sendcounts r r) (λ i. send r (t.sdispls r r + i))
      else w r

  pub place : ℕ → World A → World A → World A
  place s w received r =
      copy_to (w r) (t.rdispls r (from n s r)) (t.recvcounts r (from n s r)) (received r)

  pub all_to_all_step : ℕ → World A → Option (World A)
  all_to_all_step s w = elim (exchange n (all_to_all_call n esize t s) send) [
    | none ↦ none
    | some received ↦ some (place s w received)
  ]

  -- `doAllToAllv` on the receive buffers of all ranks.
  pub all_to_all : World A → Option (World A)
  all_to_all w = rounds all_to_all_step (n - 1) 1 (copy_own w)

to_from : (n s r : ℕ) → s < n → r < n → to n s (from n s r) ≡ r
unfolding to from
to_from n s r hs hr = omega (
  arith,
  wrap (r + n - s) n (omega arith),
  wrap ((r + n - s) % n + s) n (omega (arith, wrap (r + n - s) n (omega arith))),
)

from_to : (n s r : ℕ) → s < n → r < n → from n s (to n s r) ≡ r
unfolding to from
from_to n s r hs hr = omega (
  arith,
  wrap (r + s) n (omega arith),
  wrap ((r + s) % n + n - s) n (omega (arith, wrap (r + s) n (omega arith))),
)

from-lt : (n s r : ℕ) → s < n → r < n → from n s r < n
unfolding from
from-lt n s r hs hr = omega (arith, wrap (r + n - s) n (omega arith))

to-lt : (n s r : ℕ) → s < n → r < n → to n s r < n
unfolding to
to-lt n s r hs hr = omega (arith, wrap (r + s) n (omega arith))

-- The step in which a block arrives.
step_of : ℕ → ℕ → ℕ → ℕ
step_of n r p = from n p r

step_of-lt : (n r p : ℕ) → r < n → p < n → step_of n r p < n
unfolding step_of
step_of-lt n r p hr hp = from-lt n p r hp hr

step_of-from : (n s r : ℕ) → s < n → r < n → step_of n r (from n s r) ≡ s
unfolding step_of from
step_of-from n s r hs hr = omega (
  arith,
  wrap (r + n - s) n (omega arith),
  wrap (r + n - (r + n - s) % n) n (omega (arith, wrap (r + n - s) n (omega arith))),
)

from-step_of : (n s r p : ℕ) → s < n → r < n → p < n → step_of n r p ≡ s → p ≡ from n s r
unfolding step_of from
from-step_of n s r p hs hr hp e =
    omega (arith, wrap (r + n - p) n (omega arith), wrap (r + n - s) n (omega arith))

module _ {A : Type 0} (n esize : ℕ) (t : Tables) (send : World A) where
  abbrev pub InBlock : ℕ → ℕ → ℕ → Type 0
  InBlock r p j = (t.rdispls r p ≤ j) × (j < t.rdispls r p + t.recvcounts r p)

  -- The counts of each pair of ranks agree, and no two blocks of a receive buffer overlap.
  pub record Agree : Type 0 where
    pub counts : (r p : ℕ) → r < n → p < n → t.recvcounts r p ≡ t.sendcounts p r
    pub apart : (r p q j : ℕ) → r < n → p < n → q < n → InBlock r p j → InBlock r q j → p ≡ q

  abbrev Delivered : ℕ → World A → Type 0
  Delivered s w =
      (r p j : ℕ)
      → r < n
      → p < n
      → step_of n r p < s
      → InBlock r p j
      → w r j ≡ send p (t.sdispls p r + (j - t.rdispls r p))

  abbrev pub Frame : World A → World A → Type 0
  Frame w₀ w = (r j : ℕ) → r < n → ((p : ℕ) → p < n → ¬ InBlock r p j) → w r j ≡ w₀ r j

  received_of : ℕ → World A
  received_of s r i = send (from n s r) (t.sdispls (from n s r) (to n s (from n s r)) + i)

  step_zero : (r p : ℕ) → r < n → p < n → step_of n r p < 1 → p ≡ r
  unfolding step_of from
  step_zero r p hr hp h = omega (arith, wrap (r + n - p) n (omega arith))

  copy_own-Delivered : (w₀ : World A) → Agree → Delivered 1 (copy_own n esize t send w₀)
  unfolding copy_own copy_to
  copy_own-Delivered w₀ a r p j hr hp h b =
      ground (arith, step_zero r p hr hp h, a.counts r r hr hr)

  copy_own-Frame : (w₀ : World A) → Agree → Frame w₀ (copy_own n esize t send w₀)
  unfolding copy_own copy_to
  copy_own-Frame w₀ a r j hr out = ground (arith, out r hr, a.counts r r hr hr)

  place-Delivered :
      (s : ℕ) (w : World A)
      → s < n
      → Agree
      → Delivered s w
      → Delivered (s + 1) (place n esize t send s w (received_of s))
  unfolding place copy_to received_of
  place-Delivered s w hs a h r p j hr hp d b = elim (ℕ_discrete (step_of n r p) s) [
    | yes e ↦
        let b' : InBlock r (from n s r) j =
          subst (λ q. InBlock r q j) (from-step_of n s r p hs hr hp e) b in
        rw (from-step_of n s r p hs hr hp e, to_from n s r hs hr) (ground arith)
    | no ne ↦ ground (
      arith,
      h r p j hr hp (omega arith) b,
      λ (q : InBlock r (from n s r) j). ne (
          ap (step_of n r) (a.apart r p (from n s r) j hr hp (from-lt n s r hs hr) b q)
          ∙ step_of-from n s r hs hr),
    )
  ]

  place-Frame :
      (s : ℕ) (w₀ w : World A)
      → s < n
      → Frame w₀ w
      → Frame w₀ (place n esize t send s w (received_of s))
  unfolding place copy_to received_of
  place-Frame s w₀ w hs f r j hr out =
      ground (arith, out (from n s r) (from-lt n s r hs hr), f r j hr out)

  call-matches :
      (s r : ℕ) → s < n → r < n → Agree → matches n (all_to_all_call n esize t s) r ≡ true
  unfolding all_to_all_call
  call-matches s r hs hr a =
      let p = from n s r in
      matches_intro n (all_to_all_call n esize t s) r (from-lt n s r hs hr) (to-lt n s r hs hr)
        (to_from n s r hs hr) (rw (to_from n s r hs hr, a.counts r p hr (from-lt n s r hs hr)))
        (from_to n s r hs hr)

  -- For any number of ranks whose count tables agree and whose receive blocks do not overlap, the
  -- pairwise exchange runs to its end with every call matched. Every rank then has, in the block
  -- for each peer, the elements that the peer had for it, its own included, and nothing outside its
  -- blocks has changed.
  pub all_to_all_lem :
      (w₀ : World A)
      → 0 < n
      → Agree
      → (v : World A) × (all_to_all n esize t send w₀ ≡ some v)
        × ((r p i : ℕ)
            → r < n
            → p < n
            → i < t.recvcounts r p
            → v r (t.rdispls r p + i) ≡ send p (t.sdispls p r + i))
        × Frame w₀ v
  unfolding all_to_all all_to_all_step all_to_all_call received_of
  all_to_all_lem w₀ hn a =
      let (v, run, (h, f)) =
        rounds_inv (λ s w. Delivered s w × Frame w₀ w) (all_to_all_step n esize t send) n
          (λ s w hs (h, f). (
            place n esize t send s w (received_of s),
            rw (
              exchange-eq n (all_to_all_call n esize t s) send (λ r hr. call-matches s r hs hr a),
              all_to_all_step,
            ),
            (place-Delivered s w hs a h, place-Frame s w₀ w hs f),
          ))
          (n - 1) 1 (copy_own n esize t send w₀) (omega arith)
          (copy_own-Delivered w₀ a, copy_own-Frame w₀ a) in
      (
        v,
        run,
        (λ r p i hr hp hi.
            let e : t.rdispls r p + i - t.rdispls r p ≡ i = omega arith in
            h r p (t.rdispls r p + i) hr hp (step_of-lt n r p hr hp) (omega arith, omega arith)
            ∙ ap (λ k. send p (t.sdispls p r + k)) e),
        f,
      )

-- Blocks of one size, one after the other, do not overlap.
blocks_apart : (count p q j : ℕ) → j < p * count + count → q * count ≤ j → q ≤ p
blocks_apart count p q j below above = elim (dec_le q p) [
  | yes le ↦ le
  | no gt ↦ absurd (omega (arith, mul-le-mul_right {m = p + 1} {n = q} count (omega arith)))
]

pub all_to_all_tables-Agree :
    {A : Type 0} (n esize count : ℕ) (send : World A) → Agree n esize (all_to_all_tables count) send
unfolding all_to_all_tables
all_to_all_tables-Agree n esize count send = record {
  counts = λ r p hr hp. refl;
  apart = λ r p q j hr hp hq (lp, up) (lq, uq).
      omega (arith, blocks_apart count p q j up lq, blocks_apart count q p j uq lp);
}

-- `vcclAllToAll` of any count on any number of ranks: the call runs to its end, and block `p` of
-- rank `r` is block `r` of rank `p`.
all_to_all_uniform :
    {A : Type 0} (n esize count : ℕ) (send w₀ : World A)
    → 0 < n
    → (v : World A) × (all_to_all n esize (all_to_all_tables count) send w₀ ≡ some v)
      × ((r p i : ℕ) → r < n → p < n → i < count → v r (p * count + i) ≡ send p (r * count + i))
unfolding all_to_all_tables
all_to_all_uniform n esize count send w₀ hn =
    let (v, run, got, frame) =
      all_to_all_lem n esize (all_to_all_tables count) send w₀ hn
        (all_to_all_tables-Agree n esize count send) in
    (v, run, got)
