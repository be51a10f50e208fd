-- ===== src/Verbs/Segments.antt =====
-- src/transport/verbs.cc: how `postSend` and `postRecv` cut a transfer into work requests of at most
-- `kMaxSegBytes` bytes, and how `batch` counts them.
use native.Mathlib.Nat.{add-div_right, div-eq_of_lt, mul-div_cancel, mul-le-mul_right}
use vkccl.Prelude.{
  ℕ, zero, suc, ◌+◌, ◌-◌, ◌*◌, ◌/◌, ◌^◌, ◌≤◌, ◌<◌, ◌≡◌, refl, ◌∙◌, ap, List, [], ◌∷◌, min, arith,
  ltb, if◌then◌else◌, length, Bool-cases, inl, inr, ltb→lt, ge→ltb, dec_le, dec_lt, subst, lt→ltb,
}

-- `kMaxSegBytes` and `kQueueDepth`
abbrev pub max_seg_bytes : ℕ
max_seg_bytes = 2 ^ 30

abbrev pub queue_depth : ℕ
queue_depth = 128

-- One work request: the offset into the buffer, and the bytes.
pub record Segment : Type 0 where
  pub offset : ℕ
  pub bytes : ℕ

-- `for (size_t off = 0; off < bytes; off += kMaxSegBytes)` with the segment size `max_seg`.
segments_from : ℕ → ℕ → ℕ → ℕ → List Segment
segments_from zero max_seg off bytes = []
segments_from (suc fuel) max_seg off bytes =
    let seg : Segment = record { offset = off; bytes = min max_seg (bytes - off) } in
    let rest = segments_from fuel max_seg (off + max_seg) bytes in
    if ltb off bytes then seg ∷ rest else []

-- The work requests of a transfer; a round takes at least one byte, so `bytes` rounds are enough.
unfoldable pub segments : ℕ → ℕ → List Segment
unfolding segments_from
segments max_seg bytes = segments_from bytes max_seg 0 bytes

-- `(op.bytes + kMaxSegBytes - 1) / kMaxSegBytes` in `batch`
pub needed_wrs : ℕ → ℕ → ℕ
needed_wrs max_seg bytes = (bytes + max_seg - 1) / max_seg

-- The segments follow one another from `off` to `bytes` and none is empty or too long.
abbrev pub Covering : ℕ → ℕ → ℕ → List Segment → Type 0
Covering max_seg off bytes [] = bytes ≤ off
Covering max_seg off bytes (s ∷ ss) =
    (s.offset ≡ off)
    × (0 < s.bytes)
    × (s.bytes ≤ max_seg)
    × (off + s.bytes ≤ bytes)
    × Covering max_seg (off + s.bytes) bytes ss

segments_done : (fuel m off bytes : ℕ) → bytes ≤ off → segments_from fuel m off bytes ≡ []
unfolding segments_from
segments_done zero m off bytes h = refl
segments_done (suc fuel) m off bytes h = rw (ge→ltb off bytes h)

segments_from-Covering :
    (fuel m off bytes : ℕ)
    → 0 < m
    → bytes ≤ off + fuel
    → Covering m off bytes (segments_from fuel m off bytes)
unfolding segments_from
segments_from-Covering zero m off bytes h b = omega arith
segments_from-Covering (suc fuel) m off bytes h b = elim (Bool-cases (ltb off bytes)) [
  | inr done ↦ rw done (ground arith)
  | inl more ↦
      let lt = ltb→lt off bytes more in
      rw more (
        refl,
        omega arith,
        omega arith,
        omega arith,
        elim (dec_le (off + m) bytes) [
          | yes whole ↦
              let e : off + min m (bytes - off) ≡ off + m = omega arith in
              rw e (segments_from-Covering fuel m (off + m) bytes h (omega arith))
          | no last ↦ rw (segments_done fuel m (off + m) bytes (omega arith)) (omega arith)
        ],
      )
]

rounded_up : (m a b : ℕ) → 0 < m → 0 < a → b ≡ a - m → (a + m - 1) / m ≡ suc ((b + m - 1) / m)
rounded_up m a b h p e = elim (dec_le m a) [
  | yes q ↦
      let split : a + m - 1 ≡ b + m - 1 + m = omega arith in
      rw split (omega (arith, add-div_right (b + m - 1) h))
  | no q ↦
      let split : a + m - 1 ≡ a - 1 + m = omega arith in
      let rest : b + m - 1 ≡ m - 1 = omega arith in
      rw (split, rest)
        (omega (
          arith,
          add-div_right (a - 1) h,
          div-eq_of_lt {n = a - 1} {m = m} (omega arith),
          div-eq_of_lt {n = m - 1} {m = m} (omega arith),
        ))
]

length-segments_from :
    (fuel m off bytes : ℕ)
    → 0 < m
    → bytes ≤ off + fuel
    → length (segments_from fuel m off bytes) ≡ (bytes - off + m - 1) / m
unfolding segments_from
length-segments_from zero m off bytes h b =
    let none_left : bytes - off + m - 1 ≡ m - 1 = omega arith in
    rw none_left (omega (arith, div-eq_of_lt {n = m - 1} {m = m} (omega arith)))
length-segments_from (suc fuel) m off bytes h b = elim (Bool-cases (ltb off bytes)) [
  | inr done ↦
      let none_left : bytes - off + m - 1 ≡ m - 1 = ground arith in
      rw (done, none_left) (omega (arith, div-eq_of_lt {n = m - 1} {m = m} (omega arith)))
  | inl more ↦ rw more (
      omega (
        arith,
        length-segments_from fuel m (off + m) bytes h (omega arith),
        rounded_up m (bytes - off) (bytes - (off + m)) h (omega (arith, ltb→lt off bytes more))
            (omega arith),
      ))
]

-- For any segment size above zero, the work requests of a transfer cover its bytes in order, from
-- the first to the last, without a gap or an overlap; none is empty or longer than the segment
-- size; and there are exactly as many as `batch` counts for the transfer.
pub segments_lem :
    (max_seg bytes : ℕ)
    → 0 < max_seg
    → Covering max_seg 0 bytes (segments max_seg bytes)
      × (length (segments max_seg bytes) ≡ needed_wrs max_seg bytes)
unfolding segments needed_wrs
segments_lem m bytes h = (
  segments_from-Covering bytes m 0 bytes h (omega arith),
  (let e : bytes - 0 ≡ bytes = omega arith in
      length-segments_from bytes m 0 bytes h (omega arith) ∙ ap (λ b. (b + m - 1) / m) e),
)

-- Segments that hold whole elements of `esize` bytes: they follow one another from element `a` to
-- element `count`.
abbrev pub Aligned : ℕ → ℕ → ℕ → List Segment → Type 0
Aligned esize a count [] = count ≤ a
Aligned esize a count (s ∷ ss) =
    (s.offset / esize ≡ a)
    × (a + s.bytes / esize ≤ count)
    × Aligned esize (a + s.bytes / esize) count ss

module _ (esize p : ℕ) (he : 0 < esize) (hp : 0 < p) where
  scaled_lt : (a count : ℕ) → a < count → a * esize < count * esize
  scaled_lt a count h = omega (arith, mul-le-mul_right {m = a + 1} {n = count} esize (omega arith))

  piece_size :
      (a count : ℕ)
      → a < count
      → min (p * esize) (count * esize - a * esize) ≡ min p (count - a) * esize
  piece_size a count h = elim (dec_le (a + p) count) [
    | yes whole ↦
        let e : min p (count - a) ≡ p = omega arith in
        rw e (omega (arith, mul-le-mul_right {m = a + p} {n = count} esize whole))
    | no last ↦
        let e : min p (count - a) ≡ count - a = omega arith in
        let k : ℕ = count - a in
        let split : count * esize ≡ (a + k) * esize = ap (λ c. c * esize) (omega arith) in
        let le : k * esize ≤ p * esize = mul-le-mul_right {m = k} {n = p} esize (omega arith) in
        rw e (omega (arith, split, le))
  ]

  segments_from-Aligned :
      (fuel a count : ℕ)
      → count ≤ a + fuel
      → Aligned esize a count (segments_from fuel (p * esize) (a * esize) (count * esize))
  unfolding segments_from
  segments_from-Aligned zero a count b = omega arith
  segments_from-Aligned (suc fuel) a count b = elim (dec_lt a count) [
    | no done ↦
        rw
          (ge→ltb (a * esize) (count * esize)
            (mul-le-mul_right {m = count} {n = a} esize (omega arith)))
          (omega arith)
    | yes more ↦
        let piece : min (p * esize) (count * esize - a * esize) ≡ min p (count - a) * esize =
          piece_size a count more in
        let size : min p (count - a) * esize / esize ≡ min p (count - a) = mul-div_cancel _ he in
        let next : a * esize + p * esize ≡ (a + p) * esize = omega arith in
        rw (lt→ltb (a * esize) (count * esize) (scaled_lt a count more), piece, size, next)
          (
            mul-div_cancel a he,
            omega arith,
            elim (dec_le (a + p) count) [
              | yes whole ↦
                  let e : a + min p (count - a) ≡ a + p = omega arith in
                  rw e (segments_from-Aligned fuel (a + p) count (omega arith))
              | no last ↦
                  rw
                    (segments_done fuel (p * esize) ((a + p) * esize) (count * esize)
                      (mul-le-mul_right {m = count} {n = a + p} esize (omega arith)))
                    (omega arith)
            ],
          )
  ]

  -- Where the segment size is a multiple of the element size.
  pub segments-Aligned : (count : ℕ) → Aligned esize 0 count (segments (p * esize) (count * esize))
  unfolding segments
  segments-Aligned count =
      let none_done : 0 * esize ≡ 0 = omega arith in
      let enough : count ≤ count * esize = grind arith in
      subst
        (λ z. Aligned esize 0 count (segments_from (count * esize) (p * esize) z (count * esize)))
        none_done (segments_from-Aligned (count * esize) 0 count (omega (arith, enough)))
