-- ===== src/Comm/MrCache/Laws.antt =====
-- src/core/comm.h: what the registration cache keeps: its entries are registered and distinct, it
-- stays within its capacity, and it evicts a least recently used entry.
use vkccl.Prelude.{
  ℕ, zero, suc, ◌+◌, ◌≤◌, ◌<◌, ◌≡◌, refl, ◌∙◌, ap, Bool, true, false, not, ◌&&◌, ◌||◌, List, [],
  ◌∷◌, ◌++◌, some, arith, leb, ◌==◌, get_elem?, erase_idx, length, ◌⊎◌, inl, inr, Option-cases,
  Bool-cases, length-append, length-erase_idx, dec_lt, lt→ltb, ge→ltb,
}
use native.Mathlib.Numerals.{add-one}
use native.Mathlib.Nat.{add_comm}
use vkccl.Comm.Registrar.{Registrar}
use vkccl.Comm.MrCache.{Entry, Cache, victim_from, victim, evict, push, cache_put}

-- Whether a handle is cached.
abbrev pub holds : List Entry → ℕ → Bool
holds [] h = false
holds (e ∷ es) h = h == e.handle || holds es h

-- No handle is cached twice.
abbrev pub Distinct : List Entry → Type 0
Distinct [] = Unit {0}
Distinct (e ∷ es) = (holds es e.handle ≡ false) × Distinct es

holds-append :
    (es : List Entry) (e : Entry) (h : ℕ) → holds (es ++ e ∷ []) h ≡ (holds es h || h == e.handle)
holds-append [] e h = ground arith
holds-append (x ∷ es) e h = ground (arith, holds-append es e h)

Distinct-append :
    (es : List Entry) (e : Entry)
    → Distinct es
    → holds es e.handle ≡ false
    → Distinct (es ++ e ∷ [])
Distinct-append [] e d n = (refl, tt)
Distinct-append (x ∷ es) e d n =
    ground (arith, holds-append es e x.handle, Distinct-append es e d.1)

holds_of_get :
    (es : List Entry) (i : ℕ) (e : Entry) → get_elem? es i ≡ some e → holds es e.handle ≡ true
holds_of_get [] i e g = cc
holds_of_get (x ∷ es) zero e g = ground arith
holds_of_get (x ∷ es) (suc i) e g = ground (arith, holds_of_get es i e g)

-- Evicting an entry takes out its handle and no other.
holds-erase_idx :
    (es : List Entry) (i h : ℕ) (e : Entry)
    → Distinct es
    → get_elem? es i ≡ some e
    → holds (erase_idx es i) h ≡ (holds es h && not (h == e.handle))
holds-erase_idx [] i h e d g = cc
holds-erase_idx (x ∷ es) zero h e d g = ground arith
holds-erase_idx (x ∷ es) (suc i) h e d g =
    ground (arith, holds-erase_idx es i h e d.1, holds_of_get es i e g)

holds_of_erase : (es : List Entry) (i h : ℕ) → holds (erase_idx es i) h ≡ true → holds es h ≡ true
holds_of_erase [] i h p = p
holds_of_erase (x ∷ es) zero h p = ground arith
holds_of_erase (x ∷ es) (suc i) h p = ground (arith, holds_of_erase es i h)

Distinct-erase_idx : (es : List Entry) (i : ℕ) → Distinct es → Distinct (erase_idx es i)
Distinct-erase_idx [] i d = tt
Distinct-erase_idx (x ∷ es) zero d = d.1
Distinct-erase_idx (x ∷ es) (suc i) d =
    ground (arith, Distinct-erase_idx es i d.1, holds_of_erase es i x.handle)

get-lt : (es : List Entry) (i : ℕ) (e : Entry) → get_elem? es i ≡ some e → i < length es
get-lt [] i e g = cc
get-lt (x ∷ es) zero e g = omega arith
get-lt (x ∷ es) (suc i) e g = omega (arith, get-lt es i e g)

-- The victim is an entry, and no entry is older.
abbrev Oldest : List Entry → ℕ → Type 0
Oldest es best = (j : ℕ) (e : Entry) → get_elem? es j ≡ some e → best ≤ e.seq

Oldest-cons : (x : Entry) (es : List Entry) (m : ℕ) → m ≤ x.seq → Oldest es m → Oldest (x ∷ es) m
Oldest-cons x es m h o zero e g = ground arith
Oldest-cons x es m h o (suc j) e g = o j e g

-- Where the loop ends: at the victim it started with, or at an entry of the list.
abbrev EndsAt : List Entry → ℕ → ℕ → ℕ → ℕ → ℕ → Type 0
EndsAt es i v best w m =
    ((w ≡ v) × (m ≡ best))
    ⊎ ((j : ℕ) × (e : Entry) × (w ≡ i + j) × (get_elem? es j ≡ some e) × (m ≡ e.seq))

victim_from_lem :
    (es : List Entry) (i v best : ℕ)
    → (m : ℕ) × (m ≤ best) × Oldest es m × EndsAt es i v best (victim_from es i v best) m
unfolding victim_from
victim_from_lem [] i v best = (best, omega arith, (λ j e g. cc), inl (refl, refl))
victim_from_lem (x ∷ es) i v best = elim (dec_lt x.seq best) [
  | yes p ↦ rw (lt→ltb x.seq best p) (
      let (m, le, old, ends) = victim_from_lem es (i + 1) i x.seq in
      (
        m,
        omega arith,
        Oldest-cons x es m le old,
        elim ends [
          | inl (at, same) ↦ inr (0, x, omega arith, refl, same)
          | inr (j, e, at, g, same) ↦ inr (suc j, e, omega arith, g, same)
        ],
      ))
  | no p ↦ rw (ge→ltb x.seq best (omega arith)) (
      let (m, le, old, ends) = victim_from_lem es (i + 1) v best in
      (
        m,
        le,
        Oldest-cons x es m (omega arith) old,
        elim ends [
          | inl q ↦ inl q
          | inr (j, e, at, g, same) ↦ inr (suc j, e, omega arith, g, same)
        ],
      ))
]

victim_lem :
    (es : List Entry)
    → 0 < length es
    → (e : Entry) × (get_elem? es (victim es) ≡ some e) × Oldest es e.seq
unfolding victim
victim_lem [] h = absurd (omega arith)
victim_lem (x ∷ es) h =
    let (m, le, old, ends) = victim_from_lem es 1 0 x.seq in
    elim ends [
      | inl (at, same) ↦ (x, rw at, Oldest-cons x es x.seq (omega arith) (rw (← same) old))
      | inr (j, e, at, g, same) ↦ (
        e,
        rw (at, add_comm 1 j, add-one j) g,
        Oldest-cons x es e.seq (omega arith) (rw (← same) old),
      )
    ]

module _ (T : Registrar) where
  open T use {State, live, dereg_mr, dereg_live}

  -- Every cached handle is registered, and no two entries share one.
  pub record Owned (c : Cache) (t : State) : Type 0 where
    pub distinct : Distinct c.entries
    pub registered : (h : ℕ) → holds c.entries h ≡ true → live t h ≡ true

  -- A registration that the cache does not account for.
  abbrev pub outside : Cache → State → ℕ → Bool
  outside c t h = live t h && not (holds c.entries h)

  evict_lem :
      (c : Cache) (t : State)
      → Owned c t
      → let (c', t') = evict T c t in
        Owned c' t'
        × ((h : ℕ) → outside c' t' h ≡ outside c t h)
        × ((h : ℕ)
            → holds c.entries h ≡ false
            → (live t' h ≡ live t h) × (holds c'.entries h ≡ false))
  unfolding evict
  evict_lem c t o = elim (Option-cases (get_elem? c.entries (victim c.entries))) [
    | inl e ↦ rw (e, evict) (o, (λ h. refl), (λ h n. (refl, n)))
    | inr (e, g) ↦
        rw (g, evict)
          (
            record {
              distinct = Distinct-erase_idx c.entries (victim c.entries) o.distinct;
              registered = λ h p. ground (
                arith,
                dereg_live t e.handle h,
                holds-erase_idx c.entries (victim c.entries) h e o.distinct g,
                o.registered h,
              );
            },
            (λ h. ground (
              arith,
              dereg_live t e.handle h,
              holds-erase_idx c.entries (victim c.entries) h e o.distinct g,
              holds_of_get c.entries (victim c.entries) e g,
            )),
            (λ h n. (
              ground
                  (arith, dereg_live t e.handle h, holds_of_get c.entries (victim c.entries) e g),
              ground (arith, holds-erase_idx c.entries (victim c.entries) h e o.distinct g),
            )),
          )
  ]

  push_lem :
      (addr len h : ℕ) (c : Cache) (t : State)
      → Owned c t
      → holds c.entries h ≡ false
      → live t h ≡ true
      → Owned (push T addr len h c) t
        × ((j : ℕ) → outside (push T addr len h c) t j ≡ (outside c t j && not (j == h)))
  unfolding push
  push_lem addr len h c t o n l = (
    record {
      distinct = Distinct-append c.entries _ o.distinct n;
      registered = λ j p. ground (
        arith,
        holds-append c.entries (record { addr = addr; len = len; handle = h; seq = c.clock + 1 }) j,
        o.registered j,
      );
    },
    λ j. ground (
      arith,
      holds-append c.entries (record { addr = addr; len = len; handle = h; seq = c.clock + 1 }) j,
    ),
  )

  gone :
      (c : Cache) (t : State) (e : Entry)
      → get_elem? c.entries (victim c.entries) ≡ some e
      → live (evict T c t).1 e.handle ≡ false
  unfolding evict
  gone c t e g = rw (g, evict) (ground (arith, dereg_live t e.handle e.handle))

  -- Putting a new registration into the cache keeps the cache sound, hands over the new handle and
  -- nothing else: what the cache does not account for is what it was, less the new handle.
  pub cache_put_lem :
      (size addr len h : ℕ) (c : Cache) (t : State)
      → 0 < size
      → Owned c t
      → holds c.entries h ≡ false
      → live t h ≡ true
      → let (c', t') = cache_put T size addr len (some h) c t in
        Owned c' t' × ((j : ℕ) → outside c' t' j ≡ (outside c t j && not (j == h)))
  unfolding cache_put
  cache_put_lem zero addr len h c t pos o n l = absurd (omega arith)
  cache_put_lem (suc size) addr len h c t pos o n l =
      elim (Bool-cases (leb (suc size) (length c.entries))) [
        | inl full ↦ rw full (
            let (o', same, others) = evict_lem c t o in
            let (l', n') = others h n in
            let (o'', gone) = push_lem addr len h (evict T c t).0 (evict T c t).1 o' n' (l' ∙ l) in
            (o'', λ j. gone j ∙ ap (λ b. b && not (j == h)) (same j)))
        | inr room ↦ rw room (push_lem addr len h c t o n l)
      ]

  length-evict :
      (c : Cache) (t : State)
      → 0 < length c.entries
      → length (evict T c t).0.entries + 1 ≡ length c.entries
  unfolding evict
  length-evict c t h =
      let (e, g, old) = victim_lem c.entries h in
      rw (g, evict)
        (length-erase_idx c.entries (victim c.entries) (get-lt c.entries (victim c.entries) e g))

  -- For a capacity above zero: a cache within its capacity stays within it. One that is full gives
  -- up the registration of an entry that was used no later than any other, which the transport
  -- then no longer holds.
  cache_put_bounded :
      (size addr len h : ℕ) (c : Cache) (t : State)
      → 0 < size
      → length c.entries ≤ size
      → let (c', t') = cache_put T size addr len (some h) c t in
        (length c'.entries ≤ size)
        × (length c.entries ≡ size
            → (e : Entry) × (get_elem? c.entries (victim c.entries) ≡ some e)
              × ((j : ℕ) (x : Entry) → get_elem? c.entries j ≡ some x → e.seq ≤ x.seq)
              × (live t' e.handle ≡ false))
  unfolding cache_put push
  cache_put_bounded zero addr len h c t pos b = absurd (omega arith)
  cache_put_bounded (suc size) addr len h c t pos b =
      elim (Bool-cases (leb (suc size) (length c.entries))) [
        | inl full ↦ rw full (
          omega (
            arith,
            length-evict c t (ground arith),
            length-append (evict T c t).0.entries (
                record { addr = addr; len = len; handle = h; seq = (evict T c t).0.clock + 1 }
                ∷ []),
          ),
          λ e. let (x, g, old) = victim_lem c.entries (omega arith) in (x, g, old, gone c t x g),
        )
        | inr room ↦ rw room (
          ground (
            arith,
            length-append c.entries
                (record { addr = addr; len = len; handle = h; seq = c.clock + 1 } ∷ []),
          ),
          λ e. absurd (ground arith),
        )
      ]

  -- What a put does to the transport: nothing, or it releases the handle of a cached entry.
  pub cache_put_transport :
      (size addr len : ℕ) (h : ℕ) (c : Cache) (t : State)
      → ((cache_put T size addr len (some h) c t).1 ≡ t)
        ⊎ ((e : Entry) × (holds c.entries e.handle ≡ true)
            × ((cache_put T size addr len (some h) c t).1 ≡ dereg_mr t e.handle))
  unfolding cache_put evict
  cache_put_transport zero addr len h c t = inl refl
  cache_put_transport (suc size) addr len h c t =
      elim (Bool-cases (leb (suc size) (length c.entries))) [
        | inr room ↦ inl (rw room)
        | inl full ↦ elim (Option-cases (get_elem? c.entries (victim c.entries))) [
          | inl q ↦ inl (rw (full, q, evict))
          | inr (e, g) ↦ inr (e, holds_of_get c.entries (victim c.entries) e g, rw (full, g, evict))
        ]
      ]
