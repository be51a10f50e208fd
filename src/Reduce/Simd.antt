-- ===== src/Reduce/Simd.antt =====
-- src/core/reduce.cc: the vector loops, eight elements at a time with a scalar tail.
use vkccl.Prelude.{
  ℕ, zero, suc, ◌+◌, ◌-◌, ◌*◌, ◌/◌, ◌≤◌, ◌<◌, ◌≡◌, refl, ap, fun_ext, ◌∙◌, false, ◌&&◌, arith,
  dec_le, ltb, leb, if◌then◌else◌, le→leb,
}
use vkccl.Net.{Mem}
use vkccl.Reduce.Loops.{reduce_from, reduce_native, reduce_from-eq, reduce_native_lem}
use vkccl.Reduce.Hardware.{Vec}

-- An unaligned load and store of eight elements.
abbrev pub load : Mem ℕ → ℕ → Vec
load m p l = m (p + l)

abbrev pub store8 : Mem ℕ → ℕ → Vec → Mem ℕ
store8 m p v j = if leb p j && ltb j (p + 8) then v (j - p) else m j

-- `for (; i + 8 <= n; i += 8)`: the buffer and `i` at the end.
pub blocks : (Vec → Vec → Vec) → Mem ℕ → ℕ → Mem ℕ → ℕ → ℕ → ℕ → Mem ℕ × ℕ
blocks f m at src n i zero = (m, i)
blocks f m at src n i (suc fuel) =
    let rest =
      blocks f (store8 m (at + i) (f (load m (at + i)) (load src i))) at src n (i + 8) fuel in
    if leb (i + 8) n then rest else (m, i)

-- The vector loop and its tail; there are fewer blocks than elements.
pub simd_loop : (Vec → Vec → Vec) → (ℕ → ℕ → ℕ) → Mem ℕ → ℕ → Mem ℕ → ℕ → Mem ℕ
unfolding blocks
simd_loop f op m at src n =
    let (m', i) = blocks f m at src n 0 n in reduce_from op m' at src i (n - i)

-- Where the kernel is the operation on every lane, the two loops are one scalar loop.
module _ (f : Vec → Vec → Vec) (op : ℕ → ℕ → ℕ) (at : ℕ) (src : Mem ℕ) (n : ℕ) where
  -- From element `i` of the buffer on.
  abbrev pub Agrees : ℕ → Mem ℕ → Type 0
  Agrees i m =
      (d s : Vec) (k l : ℕ)
      → l < 8
      → i ≤ k
      → k + l < n
      → d l ≡ m (at + (k + l))
      → s l ≡ src (k + l)
      → f d s l ≡ op (m (at + (k + l))) (src (k + l))

  abbrev after_block : Mem ℕ → ℕ → Mem ℕ
  after_block m i = store8 m (at + i) (f (load m (at + i)) (load src i))

  after_block-Agrees : (i : ℕ) (m : Mem ℕ) → Agrees i m → Agrees (i + 8) (after_block m i)
  after_block-Agrees i m h d s k l hl hk hn hd hs =
      let e : after_block m i (at + (k + l)) ≡ m (at + (k + l)) = ground arith in
      rw e (h d s k l hl (omega arith) hn (hd ∙ e) hs)

  lane :
      (i j : ℕ) (m : Mem ℕ)
      → Agrees i m
      → i + 8 ≤ n
      → at + i ≤ j
      → j < at + i + 8
      → f (load m (at + i)) (load src i) (j - (at + i)) ≡ op (m j) (src (j - at))
  lane i j m h hn lo hi =
      let l = j - (at + i) in
      let e₁ : at + (i + l) ≡ j = omega arith in
      let e₂ : i + l ≡ j - at = omega arith in
      let a : at + i + l ≡ at + (i + l) = omega arith in
      h (load m (at + i)) (load src i) i l (omega arith) (omega arith) (omega arith) (ap m a) refl
      ∙ (rw (e₁, e₂) refl)

  after_block-eq :
      (i j : ℕ) (m : Mem ℕ)
      → Agrees i m
      → i + 8 ≤ n
      → after_block m i j
        ≡ (if leb (at + i) j && ltb j (at + i + 8) then op (m j) (src (j - at)) else m j)
  after_block-eq i j m h hn =
      ground (arith, λ (lo : at + i ≤ j) (hi : j < at + i + 8). lane i j m h hn lo hi)

  blocks-eq :
      (fuel i : ℕ) (m : Mem ℕ)
      → Agrees i m
      → i ≤ n
      → let (m', e) = blocks f m at src n i fuel in
        (i ≤ e)
        × (e ≤ n)
        × ((j : ℕ)
            → m' j ≡ (if leb (at + i) j && ltb j (at + e) then op (m j) (src (j - at)) else m j))
  unfolding blocks
  blocks-eq zero i m h hn = (omega arith, omega arith, λ j. ground arith)
  blocks-eq (suc fuel) i m h hn = elim (dec_le (i + 8) n) [
    | yes p ↦
        let (a, b, c) = blocks-eq fuel (i + 8) (after_block m i) (after_block-Agrees i m h) p in
        rw (le→leb (i + 8) n p) (omega arith, b, λ j. ground (arith, c j, after_block-eq i j m h p))
    | no p ↦
        let e : leb (i + 8) n ≡ false = ground arith in
        rw e (omega arith, omega arith, λ j. ground arith)
  ]

  pub simd_loop_lem :
      (m : Mem ℕ) → Agrees 0 m → simd_loop f op m at src n ≡ reduce_native op m at src n
  unfolding simd_loop
  simd_loop_lem m h =
      let (a, b, c) = blocks-eq n 0 m h (omega arith) in
      fun_ext λ j. ground (
        arith,
        c j,
        reduce_native_lem op m at src n j,
        reduce_from-eq op (blocks f m at src n 0 n).0 at src (blocks f m at src n 0 n).1
            (n - (blocks f m at src n 0 n).1) j,
      )

  blocks_end :
      (fuel i : ℕ) (m : Mem ℕ)
      → i ≤ n
      → n ≤ i + fuel * 8
      → (blocks f m at src n i fuel).1 ≡ i + (n - i) / 8 * 8
  unfolding blocks
  blocks_end zero i m h k = omega arith
  blocks_end (suc fuel) i m h k = elim (dec_le (i + 8) n) [
    | yes p ↦
        rw (le→leb (i + 8) n p)
          (let ih = blocks_end fuel (i + 8) (after_block m i) p (omega arith) in omega (arith, ih))
    | no p ↦ let e : leb (i + 8) n ≡ false = ground arith in rw e (omega arith)
  ]

-- A kernel of single lanes: the elements of the full blocks are those of the kernel, the rest those
-- of the scalar tail.
pub simd_loop_lanes :
    (g op : ℕ → ℕ → ℕ) (at : ℕ) (src : Mem ℕ) (n : ℕ) (m : Mem ℕ) (j : ℕ)
    → simd_loop (λ d s l. g (d l) (s l)) op m at src n j ≡ (
        if leb at j && ltb j (at + n)
        then (if ltb (j - at) (n / 8 * 8) then g (m j) (src (j - at)) else op (m j) (src (j - at)))
        else m j)
unfolding simd_loop
simd_loop_lanes g op at src n m j =
    let f : Vec → Vec → Vec = λ d s l. g (d l) (s l) in
    let (a, b, c) =
      blocks-eq f g at src n n 0 m (λ d s k l hl hk hn hd hs. rw (hd, hs) refl) (omega arith) in
    let e = blocks_end f g at src n n 0 m (omega arith) (omega arith) in
    ground (
      arith,
      c j,
      e,
      reduce_from-eq op (blocks f m at src n 0 n).0 at src (blocks f m at src n 0 n).1
          (n - (blocks f m at src n 0 n).1) j,
    )
