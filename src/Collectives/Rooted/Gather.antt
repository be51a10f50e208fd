-- ===== src/Collectives/Rooted/Gather.antt =====
-- src/core/collectives.cc: what `doGather` leaves at the root.
use native.Mathlib.Nat.{mul-le-mul_right}
use vkccl.Prelude.{
  ℕ, zero, suc, ◌+◌, ◌-◌, ◌*◌, ◌%◌, ◌≤◌, ◌<◌, ◌≡◌, refl, ap, ◌∙◌, ◌≢◌, some, [], ◌∷◌, arith,
  ℕ_discrete, leb, ◌==◌, if◌then◌else◌, wrap,
}
use vkccl.Net.{Mem, World, copy_to}
use vkccl.Collectives.Program.{Message, Inbox, Outbox, with_rest, addressed, run}
use vkccl.Collectives.Rooted.{gather, gather_recvs}

-- An element of a block of one size is in no other block, and in none from `q` on.
pub block_apart : (size p q i : ℕ) → i < size → p < q → p * size + i < q * size
block_apart size p q i h l = omega (arith, mul-le-mul_right {m = p + 1} {n = q} size (omega arith))

-- A copy to block `q` changes that block and no other.
pub copy_block :
    {A : Type 0} (into : Mem A) (size p q i : ℕ) (f : Mem A)
    → i < size
    → copy_to into (q * size) size f (p * size + i) ≡ (if p == q then f i else into (p * size + i))
unfolding copy_to
copy_block into size p q i f h = elim (ℕ_discrete p q) [
  | yes e ↦ let z : q * size + i - q * size ≡ i = omega arith in rw (e, z) (ground arith)
  | no ne ↦ ground (arith, block_apart size p q i h, mul-le-mul_right {m = q + 1} {n = p} size)
]

pub copy_beyond :
    {A : Type 0} (into : Mem A) (size q n j : ℕ) (f : Mem A)
    → q < n
    → n * size ≤ j
    → copy_to into (q * size) size f j ≡ into j
unfolding copy_to
copy_beyond into size q n j f hq hj =
    ground (arith, mul-le-mul_right {m = q + 1} {n = n} size (omega arith))

-- How far a rank stands behind the root.
unfoldable pub behind : ℕ → ℕ → ℕ → ℕ
behind n root p = (p + n - root) % n

module _ (n root : ℕ) (hr : root < n) where
  pub peer-behind : (s : ℕ) → s < n → ((root + s) % n < n) × (behind n root ((root + s) % n) ≡ s)
  unfolding behind
  peer-behind s h = (
    omega (arith, wrap (root + s) n (omega arith)),
    omega (
      arith,
      wrap (root + s) n (omega arith),
      wrap ((root + s) % n + n - root) n (omega (arith, wrap (root + s) n (omega arith))),
    ),
  )

  pub behind-eq : (s p : ℕ) → s < n → p < n → behind n root p ≡ s → p ≡ (root + s) % n
  unfolding behind
  behind-eq s p h hp e =
      omega (arith, wrap (root + s) n (omega arith), wrap (p + n - root) n (omega arith))

  pub behind-lt : (p : ℕ) → p < n → behind n root p < n
  unfolding behind
  behind-lt p hp = omega (arith, wrap (p + n - root) n (omega arith))

  pub behind_zero : (p : ℕ) → p < n → behind n root p ≡ 0 → p ≡ root
  unfolding behind
  behind_zero p hp e = omega (arith, wrap (p + n - root) n (omega arith))

module _ {A : Type 0} (n root size : ℕ) (hr : root < n) (w : World A) where
  -- What rank `p` sends.
  abbrev message : ℕ → Message A
  message p = record { len = size; bytes = λ i. w p (0 + i) }

  gather_recvs_lem :
      (left s : ℕ) (inbox : Inbox A) (from into : Mem A)
      → s + left ≡ n
      → ((k : ℕ) → s ≤ k → k < n → inbox ((root + k) % n) ≡ message ((root + k) % n) ∷ [])
      → (m : Mem A) × (run (gather_recvs n root size left s) inbox from into ≡ some (m, []))
        × ((p i : ℕ)
            → p < n
            → i < size
            → m (p * size + i) ≡ (if leb s (behind n root p) then w p i else into (p * size + i)))
        × ((j : ℕ) → n * size ≤ j → m j ≡ into j)
  unfolding run gather_recvs
  gather_recvs_lem zero s inbox from into e h =
      (into, refl, (λ p i hp hi. ground (arith, behind-lt n root hr p hp)), λ j hj. refl)
  gather_recvs_lem (suc left) s inbox from into e h =
      let peer = (root + s) % n in
      let (lt, back) = peer-behind n root hr s (omega arith) in
      let into' : Mem A = copy_to into (peer * size) size (message peer).bytes in
      let (m, ok, got, frame) =
        gather_recvs_lem left (s + 1) (with_rest inbox peer []) from into' (omega arith) (λ k hs hk.
          ground (
            arith,
            h k (omega arith) hk,
            back,
            peer-behind n root hr k hk,
            ap (behind n root) {x = (root + k) % n} {y = peer},
          )) in
      (
        m,
        rw (h s (omega arith) (omega arith)) (ground (arith, ok)),
        (λ p i hp hi. ground (
          arith,
          got p i hp hi,
          copy_block into size p peer i (message peer).bytes hi,
          back,
          behind-eq n root hr s p (omega arith) hp,
        )),
        λ j hj. frame j hj ∙ copy_beyond into size peer n j (message peer).bytes lt hj,
      )

  -- A gather of blocks that are not empty, over two ranks or more: every other rank sends its block
  -- and ends whatever arrives, and the root, given what they sent, receives all of it and ends with
  -- block `p` of its receive buffer equal to what rank `p` has in its send buffer, its own block
  -- included, and with the bytes past the last block unchanged.
  pub gather_lem :
      1 < n
      → 0 < size
      → (outs : ℕ → Outbox A) × ((r : ℕ) (inbox : Inbox A) (into : Mem A)
          → r < n
          → r ≢ root
          → run (gather n root size r) inbox (w r) into ≡ some (into, outs r))
        × ((into : Mem A)
            → (m : Mem A) × (run
                  (gather n root size root)
                  (λ p. addressed root (outs p))
                  (w root)
                  into
                ≡ some (m, []))
              × ((p i : ℕ) → p < n → i < size → m (p * size + i) ≡ w p i)
              × ((j : ℕ) → n * size ≤ j → m j ≡ into j))
  unfolding gather run addressed
  gather_lem hn hs = (
    (λ p. (root, message p) ∷ []),
    (λ r inbox into h ne. ground arith),
    λ into.
        let inbox : Inbox A = λ p. addressed root ((root, message p) ∷ []) in
        let own : Mem A = copy_to into (root * size) size (λ i. w root (0 + i)) in
        let (m, ok, got, frame) =
          gather_recvs_lem (n - 1) 1 inbox (w root) own (omega arith) (λ k a b. ground arith) in
        (
          m,
          ground (arith, ok),
          (λ p i hp hi. ground (
            arith,
            got p i hp hi,
            copy_block into size p root i (λ i. w root (0 + i)) hi,
            behind_zero n root hr p hp,
          )),
          λ j hj. frame j hj ∙ copy_beyond into size root n j (λ i. w root (0 + i)) hr hj,
        ),
  )
