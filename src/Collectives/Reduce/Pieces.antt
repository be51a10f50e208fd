-- ===== src/Collectives/Reduce/Pieces.antt =====
-- src/core/collectives.cc: what one rank of `doReduce` does with the pieces.
use vkccl.Prelude.{
  ℕ, ◌+◌, ◌-◌, ◌/◌, ◌<◌, ◌≡◌, refl, ap, ◌∙◌, true, ◌&&◌, some, List, [], ◌∷◌, arith, dec_lt, dec_le,
  ltb, leb, ◌==◌, if◌then◌else◌,
}
use vkccl.Net.{Mem, copy_to}
use vkccl.Reduce.Loops.{reduce_native, reduce_native_lem}
use vkccl.Verbs.Segments.{Segment, Aligned}
use vkccl.Collectives.Program.{Message}
use vkccl.Collectives.ReduceScatter.{Operator, contribution, add_in}
use vkccl.Collectives.AllReduce.Promise.{average_part-eq}
use vkccl.Collectives.Reduce.{own_piece, head_out, hop_out, root_piece, root_in}

-- What the root makes of its own element and the sum that reaches it.
abbrev pub closed : {A : Type 0} → Operator A → A → A → A
closed o x a =
    let sum : _ = o.reduce (if o.premul then o.scaled x else x) a in
    if o.is_avg then o.average sum else sum

module _ {A : Type 0} (o : Operator A) (esize : ℕ) where
  -- The messages carry the elements of the pieces, one message each, in order.
  abbrev pub CarriesElements : Mem A → List Segment → List (Message A) → Type 0
  CarriesElements f [] [] = Unit {0}
  CarriesElements f (s ∷ ss) (m ∷ ms) =
      (m.len ≡ s.bytes)
      × ((i : ℕ) → i < s.bytes / esize → m.bytes i ≡ f (s.offset / esize + i))
      × CarriesElements f ss ms
  CarriesElements f [] (m ∷ ms) = ⊥
  CarriesElements f (s ∷ ss) [] = ⊥

  module _ (from : Mem A) where
    pub head_out_lem :
        (ss : List Segment)
        → CarriesElements (λ j. contribution o (from j)) ss (head_out o esize from ss)
    unfolding head_out
    head_out_lem [] = tt
    head_out_lem (s ∷ ss) = (refl, (λ i h. refl), head_out_lem ss)

    pub hop_out_lem :
        (f : Mem A) (ss : List Segment) (ms : List (Message A))
        → CarriesElements f ss ms
        → (out : List (Message A)) × (hop_out o esize from ss ms ≡ some out)
          × CarriesElements (λ j. add_in o (f j) (from j)) ss out
    unfolding hop_out
    hop_out_lem f [] [] c = ([], refl, tt)
    hop_out_lem f [] (m ∷ ms) c = elim c [ ]
    hop_out_lem f (s ∷ ss) [] c = elim c [ ]
    hop_out_lem f (s ∷ ss) (m ∷ ms) (e, got, rest) =
        let (out, ok, c) = hop_out_lem f ss ms rest in
        let sum : Mem A =
          reduce_native (add_in o) m.bytes 0 (own_piece o esize from s) (s.bytes / esize) in
        let t : (m.len == s.bytes) ≡ true = ground (arith, e) in
        (
          record { len = s.bytes; bytes = sum } ∷ out,
          rw (ok, t) refl,
          (
            refl,
            (λ i h.
                let z : i - 0 ≡ i = omega arith in
                let in_range : (leb 0 i && ltb i (0 + s.bytes / esize)) ≡ true =
                  ground (arith, h) in
                reduce_native_lem (add_in o) m.bytes 0 (own_piece o esize from s) (s.bytes / esize)
                  i
                ∙ rw (in_range, z, got i h) refl),
            c,
          ),
        )

    root_piece-eq :
        (s : Segment) (received into : Mem A) (j : ℕ)
        → root_piece o esize from s received into j ≡ (
            if leb (s.offset / esize) j && ltb j (s.offset / esize + s.bytes / esize)
            then closed o (from j) (received (j - s.offset / esize))
            else into j)
    unfolding root_piece copy_to
    root_piece-eq s received into j =
        let at : ℕ = s.offset / esize in
        let len : ℕ = s.bytes / esize in
        let own : Mem A = copy_to into at len (λ i. contribution o (own_piece o esize from s i)) in
        let sum : Mem A = reduce_native o.reduce own at received len in
        average_part-eq o at len sum j ∙ elim (dec_le at j) [
          | yes p ↦
              let e : at + (j - at) ≡ j = omega arith in
              let mine = ap (λ y. contribution o (from y)) e in
              ground (arith, reduce_native_lem o.reduce own at received len j, mine)
          | no p ↦ ground (arith, reduce_native_lem o.reduce own at received len j)
        ]

    pub root_in_lem :
        (f : Mem A) (a count : ℕ) (ss : List Segment) (ms : List (Message A)) (into : Mem A)
        → Aligned esize a count ss
        → CarriesElements f ss ms
        → (buf : Mem A) × (root_in o esize from ss ms into ≡ some buf)
          × ((j : ℕ) → buf j ≡ (if leb a j && ltb j count then closed o (from j) (f j) else into j))
    unfolding root_in
    root_in_lem f a count [] [] into al c = (into, refl, λ j. ground arith)
    root_in_lem f a count [] (m ∷ ms) into al c = elim c [ ]
    root_in_lem f a count (s ∷ ss) [] into al c = elim c [ ]
    root_in_lem f a count (s ∷ ss) (m ∷ ms) into (first, fits, al) (e, got, rest) =
        let next : Mem A = root_piece o esize from s m.bytes into in
        let (buf, ok, same) = root_in_lem f (a + s.bytes / esize) count ss ms next al rest in
        let t : (m.len == s.bytes) ≡ true = ground (arith, e) in
        (
          buf,
          rw (ok, t) refl,
          λ j.
              let piece = root_piece-eq s m.bytes into j in
              elim (dec_le (s.offset / esize) j) [
                | no p ↦ ground (arith, same j, piece, first, fits, p)
                | yes p ↦ elim (dec_lt j (s.offset / esize + s.bytes / esize)) [
                  | no q ↦ ground (arith, same j, piece, first, fits, p, q)
                  | yes q ↦
                      let z : s.offset / esize + (j - s.offset / esize) ≡ j = omega arith in
                      let here = got (j - s.offset / esize) (omega arith) ∙ ap f z in
                      ground (arith, same j, piece, first, fits, here, p, q)
                ]
              ],
        )
