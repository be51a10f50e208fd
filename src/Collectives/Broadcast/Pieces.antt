-- ===== src/Collectives/Broadcast/Pieces.antt =====
-- src/core/collectives.cc: what one rank of `doBroadcast` does with the pieces.
use vkccl.Prelude.{
  ℕ, ◌+◌, ◌-◌, ◌≤◌, ◌<◌, ◌≡◌, refl, sym, ap, subst, ◌∙◌, ◌⊎◌, Bool, true, false, some, List, [],
  ◌∷◌, arith,
}
use vkccl.Net.{Mem, copy_to}
use vkccl.Verbs.Segments.{Segment, Covering}
use vkccl.Collectives.Program.{Message, Inbox, Outbox, with_rest, addressed, run}
use vkccl.Collectives.Broadcast.{root_acts, hop_acts}

module _ {A : Type 0} (data_of : Mem A) where
  -- The messages carry the pieces of the data, one each, in order.
  pub Carries : List Segment → List (Message A) → Type 0
  Carries [] [] = Unit {0}
  Carries (s ∷ ss) (m ∷ ms) =
      (m.len ≡ s.bytes)
      × ((i : ℕ) → i < s.bytes → m.bytes i ≡ data_of (s.offset + i))
      × Carries ss ms
  Carries [] (m ∷ ms) = ⊥
  Carries (s ∷ ss) [] = ⊥

module _ {A : Type 0} where
  -- Only the data inside the pieces matters.
  pub Carries-local :
      (f g : Mem A) (size pipe off : ℕ) (ss : List Segment) (ms : List (Message A))
      → ((i : ℕ) → i < size → f i ≡ g i)
      → Covering pipe off size ss
      → Carries f ss ms
      → Carries g ss ms
  unfolding Carries
  Carries-local f g size pipe off [] [] h cov c = tt
  Carries-local f g size pipe off [] (m ∷ ms) h cov c = elim c [ ]
  Carries-local f g size pipe off (s ∷ ss) [] h cov c = elim c [ ]
  Carries-local f g size pipe off (s ∷ ss) (m ∷ ms) h cov c = (
    c.0,
    (λ i l. c.1 i l ∙ h (s.offset + i) (omega arith)),
    Carries-local f g size pipe (off + s.bytes) ss ms h cov.4 c.2,
  )

  addressed_self :
      (r : ℕ) (m : Message A) (out : Outbox A) → addressed r ((r, m) ∷ out) ≡ m ∷ addressed r out
  unfolding addressed
  addressed_self r m out = ground arith

  pub root_acts_lem :
      (nx : ℕ) (ss : List Segment) (inbox : Inbox A) (from into : Mem A)
      → (out : Outbox A) × (run (root_acts nx ss) inbox from into ≡ some (into, out))
        × Carries into ss (addressed nx out)
  unfolding run root_acts Carries addressed
  root_acts_lem nx [] inbox from into = ([], refl, tt)
  root_acts_lem nx (s ∷ ss) inbox from into =
      let (out, ok, c) = root_acts_lem nx ss inbox from into in
      let m : Message A = record { len = s.bytes; bytes = λ i. into (s.offset + i) } in
      ((nx, m) ∷ out, rw ok refl, ground (arith, c))

  stored :
      (into : Mem A) (off len : ℕ) (bytes data_of : Mem A)
      → ((i : ℕ) → i < len → bytes i ≡ data_of (off + i))
      → ((i : ℕ) → off ≤ i → i < off + len → copy_to into off len bytes i ≡ data_of i)
        × ((i : ℕ) → (i < off) ⊎ (off + len ≤ i) → copy_to into off len bytes i ≡ into i)
  unfolding copy_to
  stored into off len bytes data_of h = (
    (λ i lo hi.
        let e : off + (i - off) ≡ i = omega arith in
        ground (arith, h (i - off) (omega arith), ap data_of e)),
    λ i out. ground arith,
  )

  -- A rank that is sent the pieces of the data stores them all, and forwards the same pieces unless
  -- it is the tail.
  pub hop_acts_lem :
      (data_of : Mem A) (pv nx : ℕ) (tail : Bool) (size pipe off : ℕ) (ss : List Segment)
      (ms : List (Message A)) (inbox : Inbox A) (from into : Mem A)
      → inbox pv ≡ ms
      → Covering pipe off size ss
      → Carries data_of ss ms
      → (buf : Mem A) × (out : Outbox A) × (run (hop_acts pv nx tail ss) inbox from into
          ≡ some (buf, out))
        × ((i : ℕ) → off ≤ i → i < size → buf i ≡ data_of i)
        × ((i : ℕ) → (i < off) ⊎ (size ≤ i) → buf i ≡ into i)
        × (tail ≡ false → Carries data_of ss (addressed nx out))
  unfolding run hop_acts Carries addressed
  hop_acts_lem data_of pv nx tail size pipe off [] [] inbox from into e cov c =
      (into, [], refl, (λ i lo hi. absurd (omega arith)), (λ i out. refl), λ t. tt)
  hop_acts_lem data_of pv nx tail size pipe off [] (m ∷ ms) inbox from into e cov c = elim c [ ]
  hop_acts_lem data_of pv nx false size pipe off (s ∷ ss) [] inbox from into e cov c = elim c [ ]
  hop_acts_lem data_of pv nx true size pipe off (s ∷ ss) [] inbox from into e cov c = elim c [ ]
  hop_acts_lem data_of pv nx true size pipe off (s ∷ ss) (m ∷ ms) inbox from into e cov c =
      let into' : Mem A = copy_to into s.offset s.bytes m.bytes in
      let (here, else_) = stored into s.offset s.bytes m.bytes data_of c.1 in
      let (buf, out, ok, got, frame, fwd) =
        hop_acts_lem data_of pv nx true size pipe (off + s.bytes) ss ms (with_rest inbox pv ms) from
          into' (ground arith) cov.4 c.2 in
      (
        buf,
        out,
        rw e (ground (arith, ok)),
        (λ i lo hi. ground (arith, got i, frame i, here i)),
        (λ i o. ground (arith, frame i, else_ i)),
        λ t. absurd (ground arith),
      )
  hop_acts_lem data_of pv nx false size pipe off (s ∷ ss) (m ∷ ms) inbox from into e cov c =
      let into' : Mem A = copy_to into s.offset s.bytes m.bytes in
      let (here, else_) = stored into s.offset s.bytes m.bytes data_of c.1 in
      let (buf, out, ok, got, frame, fwd) =
        hop_acts_lem data_of pv nx false size pipe (off + s.bytes) ss ms (with_rest inbox pv ms)
          from into' (ground arith) cov.4 c.2 in
      (
        buf,
        (nx, record { len = s.bytes; bytes = λ i. into' (s.offset + i) }) ∷ out,
        rw e (ground (arith, ok)),
        (λ i lo hi. ground (arith, got i, frame i, here i)),
        (λ i o. ground (arith, frame i, else_ i)),
        λ t.
            subst (Carries data_of (s ∷ ss))
              (sym (
                addressed_self nx (record { len = s.bytes; bytes = λ i. into' (s.offset + i) })
                  out))
              (refl, (λ i h. here (s.offset + i) (omega arith) (omega arith)), fwd refl),
      )
