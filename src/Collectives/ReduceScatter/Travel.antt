-- ===== src/Collectives/ReduceScatter/Travel.antt =====
-- src/core/collectives.cc: the partial sums of `doReduceScatter` on their way round the ring.
use vkccl.Prelude.{
  ℕ, zero, suc, ◌+◌, ◌-◌, ◌*◌, ◌%◌, ◌<◌, ◌≡◌, refl, sym, ap, fun_ext, ◌∙◌, inl, inr, true, false,
  not, ◌&&◌, ◌||◌, some, arith, dec_lt, ℕ_discrete, ltb, leb, ◌==◌, if◌then◌else◌, Bool-cases, wrap,
}
use vkccl.Topology.{prev, prev_cases, next-lt, prev-lt, next-prev, prev-next}
use vkccl.Net.{World, matches, copy_to, rounds, rounds_inv, exchange-eq, matches_intro}
use vkccl.Reduce.Loops.{reduce_native_lem}
use vkccl.Collectives.Ring.Positions.{reduce_recv}
use vkccl.Collectives.ReduceScatter.{
  Operator, scatter_recv, contribution, add_in, add_in-eq, chunk_of, partial_call, first_partial,
  hop, final_hop, scatter_next, scatter_step, averaged, reduce_scatter,
}

module _ {A : Type 0} (o : Operator A) (n recvcount : ℕ) (send : World A) where
  -- Element `i` of chunk `c` after `k` hops from rank `c + 1`: scaled there where the operator has a
  -- scalar, and then joined by each rank's, by the loop that scales as it adds, or by the plain one.
  unfoldable pub travel : ℕ → ℕ → ℕ → A
  travel c i zero =
      let x : A = send ((c + 1) % n) (c * recvcount + i) in if o.premul then o.scaled x else x
  travel c i (suc k) =
      let x : A = send ((c + 2 + k) % n) (c * recvcount + i) in
      let sum : A = travel c i k in if o.premul then o.scaled_add sum x else o.reduce sum x

module _ (n r s : ℕ) (hr : r < n) (hs : s + 1 < n) where
  scatter_recv-prev : reduce_recv n (prev n r) s ≡ scatter_recv n r s
  unfolding reduce_recv
  scatter_recv-prev = ground (
    arith,
    prev_cases n r hr,
    wrap (prev n r + 2 * n - s - 1) n (omega (arith, prev_cases n r hr)),
    wrap (r + 2 * n - s - 2) n (omega arith),
  )

  scatter_recv-next : scatter_recv n r s ≡ reduce_recv n r (s + 1)
  unfolding reduce_recv
  scatter_recv-next = ap (λ x. x % n) (omega arith)

  -- The chunk that a rank receives has come round from the rank after its own number.
  scatter_recv-hops : (scatter_recv n r s + 2 + s) % n ≡ r
  scatter_recv-hops = ground (
    arith,
    wrap (r + 2 * n - s - 2) n (omega arith),
    wrap ((r + 2 * n - s - 2) % n + 2 + s) n
        (omega (arith, wrap (r + 2 * n - s - 2) n (omega arith))),
  )

scatter_recv_last : (n r s : ℕ) → r < n → s + 2 ≡ n → scatter_recv n r s ≡ r
scatter_recv_last n r s hr e = ground (arith, wrap (r + 2 * n - s - 2) n (omega arith))

module _ {A : Type 0} (o : Operator A) (n recvcount esize : ℕ) (send recv : World A) where
  abbrev OnTheWay : ℕ → World A → Type 0
  OnTheWay s w =
      (r i : ℕ) → r < n → i < recvcount → w r i ≡ travel o n recvcount send (reduce_recv n r s) i s

  abbrev whole : World A
  whole r i =
      if ltb i recvcount
      then o.reduce
          (if o.premul then o.scaled (send r (r * recvcount + i)) else send r (r * recvcount + i))
          (travel o n recvcount send r i (n - 2))
      else recv r i

  abbrev Scattered : ℕ → World A × World A → Type 0
  Scattered s (w, out) =
      (s + 1 < n → OnTheWay s w × ((r i : ℕ) → r < n → out r i ≡ recv r i))
      × (s + 1 ≡ n → (r i : ℕ) → r < n → out r i ≡ whole r i)

  first-OnTheWay : 1 < n → OnTheWay 0 (first_partial o n recvcount esize send)
  unfolding first_partial travel reduce_recv
  first-OnTheWay hn r i hr hi =
      let e : (r + n - 1) % n ≡ (r + 2 * n - 0 - 1) % n =
        ground
          (arith, wrap (r + n - 1) n (omega arith), wrap (r + 2 * n - 0 - 1) n (omega arith)) in
      let home : ((r + 2 * n - 0 - 1) % n + 1) % n ≡ r = ground (
        arith,
        wrap (r + 2 * n - 0 - 1) n (omega arith),
        wrap ((r + 2 * n - 0 - 1) % n + 1) n
            (omega (arith, wrap (r + 2 * n - 0 - 1) n (omega arith))),
      ) in
      rw (e, home) refl

  -- What a rank receives in step `s`.
  abbrev got_of : World A → World A
  got_of w r i = w (prev n r) i

  got-travel :
      (s : ℕ) (w : World A) (r i : ℕ)
      → s + 1 < n
      → r < n
      → i < recvcount
      → OnTheWay s w
      → got_of w r i ≡ travel o n recvcount send (scatter_recv n r s) i s
  got-travel s w r i hs hr hi h =
      h (prev n r) i (prev-lt n r hr) hi
      ∙ ap (λ c. travel o n recvcount send c i s) (scatter_recv-prev n r s hr hs)

  hop-OnTheWay :
      (s : ℕ) (w : World A)
      → s + 2 < n
      → OnTheWay s w
      → OnTheWay (s + 1) (hop o n recvcount esize send s (got_of w))
  unfolding hop travel
  hop-OnTheWay s w hs h r i hr hi =
      let z : i - 0 ≡ i = omega arith in
      let c = scatter_recv n r s in
      let sum =
        reduce_native_lem (add_in o) (got_of w r) 0 (chunk_of recvcount send r c) recvcount i in
      let here = ap (λ q. send q (c * recvcount + i)) (scatter_recv-hops n r s hr (omega arith)) in
      let up : suc s ≡ s + 1 = omega arith in
      let inside : (leb 0 i && ltb i (0 + recvcount)) ≡ true = ground arith in
      let last =
        ap (λ d. travel o n recvcount send d i (s + 1))
          (scatter_recv-next n r s hr (omega arith)) in
      sum
      ∙ rw (inside, z, got-travel s w r i (omega arith) hr hi h, sym here) (add_in-eq o _ _)
      ∙ ap (λ m. travel o n recvcount send c i m) up
      ∙ last

  final_hop-eq :
      (s : ℕ) (w out : World A) (r i : ℕ)
      → final_hop o n recvcount esize send s (got_of w) out r i ≡ (
          if ltb i recvcount
          then o.reduce
              (contribution o (chunk_of recvcount send r (scatter_recv n r s) i))
              (w (prev n r) i)
          else out r i)
  unfolding final_hop copy_to
  final_hop-eq s w out r i =
      let z : i - 0 ≡ i = omega arith in
      let own =
        copy_to (out r) 0 recvcount
          (λ i. contribution o (chunk_of recvcount send r (scatter_recv n r s) i)) in
      ground (arith, z, reduce_native_lem o.reduce own 0 (got_of w r) recvcount i)

  final_hop-whole :
      (s : ℕ) (w out : World A)
      → s + 2 ≡ n
      → OnTheWay s w
      → ((r i : ℕ) → r < n → out r i ≡ recv r i)
      → (r i : ℕ) → r < n
      → final_hop o n recvcount esize send s (got_of w) out r i ≡ whole r i
  final_hop-whole s w out e h u r i hr = elim (dec_lt i recvcount) [
    | yes p ↦
        let k : s ≡ n - 2 = omega arith in
        let got = got-travel s w r i (omega arith) hr p h in
        let home = scatter_recv_last n r s hr e in
        let inside : ltb i recvcount ≡ true = ground (arith, p) in
        final_hop-eq s w out r i ∙ rw (inside, got, home, k) refl
    | no p ↦ ground (arith, final_hop-eq s w out r i, u r i hr, p)
  ]

  call-matches : (r : ℕ) → r < n → matches n (partial_call n recvcount esize) r ≡ true
  unfolding partial_call
  call-matches r hr =
      matches_intro n (partial_call n recvcount esize) r (prev-lt n r hr) (next-lt n r hr)
        (next-prev n r hr) refl (prev-next n r hr)

  next-Scattered :
      (s : ℕ) (w out : World A)
      → s + 1 < n
      → Scattered s (w, out)
      → Scattered (s + 1) (scatter_next o n recvcount esize send s (got_of w) out)
  unfolding scatter_next
  next-Scattered s w out hs (h, _) = elim (ℕ_discrete (s + 2) n) [
    | yes e ↦
        let t : (s + 2 == n) ≡ true = ground (arith, e) in
        rw t (
          λ l. absurd (omega arith),
          λ l r i hr. final_hop-whole s w out e (h hs).0 (h hs).1 r i hr,
        )
    | no ne ↦
        let t : (s + 2 == n) ≡ false = ground (arith, ne) in
        rw t
          (λ l. (hop-OnTheWay s w (omega arith) (h hs).0, (h hs).1), λ l. absurd (ne (omega arith)))
  ]

  step-Scattered :
      (s : ℕ) (st : World A × World A)
      → s < n - 1
      → Scattered s st
      → (v : World A × World A) × (scatter_step o n recvcount esize send s st ≡ some v)
        × Scattered (s + 1) v
  unfolding scatter_step partial_call
  step-Scattered s (w, out) hs h = (
    scatter_next o n recvcount esize send s (got_of w) out,
    rw (scatter_step, exchange-eq n (partial_call n recvcount esize) w (λ r hr. call-matches r hr))
        (ap (λ g. some (scatter_next o n recvcount esize send s g out))
          (fun_ext λ r. fun_ext λ i. let z : 0 + i ≡ i = omega arith in ap (w (prev n r)) z)),
    next-Scattered s w out (omega arith) h,
  )

  rounds_done :
      1 < n
      → (st : World A × World A) × (rounds
            (scatter_step o n recvcount esize send)
            (n - 1)
            0
            (first_partial o n recvcount esize send, recv)
          ≡ some st)
        × ((r i : ℕ) → r < n → st.1 r i ≡ whole r i)
  rounds_done hn =
      let (st, run, h) =
        rounds_inv Scattered (scatter_step o n recvcount esize send) (n - 1)
          (λ s st l h. step-Scattered s st l h) (n - 1) 0
          (first_partial o n recvcount esize send, recv) (omega arith)
          (λ l. (first-OnTheWay hn, λ r i hr. refl), λ e. absurd (omega arith)) in
      (st, run, h.1 (omega arith))

  -- What the reduce-scatter promises: rank `r` receives chunk `r` of what all the ranks have, added
  -- up along the ring from rank `r + 1` on, and divided by their number for an average.
  abbrev pub reduced_chunk : World A
  reduced_chunk r i =
      if not (ltb i recvcount)
      then recv r i
      else if n == 1
      then (if o.premul then o.scaled (send r i) else send r i)
      else if o.is_avg
      then o.average (whole r i)
      else whole r i

  averaged-eq :
      (out : World A) (r i : ℕ)
      → averaged o n recvcount esize send out r i
        ≡ (if ltb i recvcount then (if o.is_avg then o.average (out r i) else out r i) else out r i)
  unfolding averaged copy_to
  averaged-eq out r i = let z : i - 0 ≡ i = omega arith in ground (arith, z)

  -- For any operator, with or without a scalar of its own, on any number of ranks above zero: the
  -- reduce-scatter runs to its end with every call matched, and rank `r` ends with chunk `r` of the
  -- ranks' elements, combined along the ring from rank `r + 1` to rank `r`, and averaged where the operator is the average of several ranks, and
  -- with nothing past the chunk changed. Where the operator has a scalar, the elements of the first
  -- and of the last of these ranks are scaled by `cpuScaleCopy`, and those of the ranks between are
  -- scaled and added in one step by `cpuScaledAccumulate`; else all are reduced as they are.
  pub reduce_scatter_lem :
      0 < n
      → (v : World A) × (reduce_scatter o n recvcount esize send recv ≡ some v)
        × ((r i : ℕ) → r < n → v r i ≡ reduced_chunk r i)
  unfolding reduce_scatter copy_to
  reduce_scatter_lem hn = elim (Bool-cases (n == 1 || recvcount == 0)) [
    | inl short ↦ (
      λ r. copy_to (recv r) 0 recvcount (λ i. contribution o (send r i)),
      rw short refl,
      λ r i hr. let z : i - 0 ≡ i = omega arith in ground (arith, z, short),
    )
    | inr long ↦
        let (st, run, h) = rounds_done (ground (arith, long)) in
        (
          averaged o n recvcount esize send st.1,
          rw (long, run) refl,
          λ r i hr. ground (arith, averaged-eq st.1 r i, h r i hr, long),
        )
  ]
