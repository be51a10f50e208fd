-- ===== src/Bootstrap/Gather.antt =====
-- src/core/bootstrap.cc: `Bootstrap::allGather`. The buffer is a slice for each rank; what the calls
-- of `recvAll` and `sendAll` answer, with what a receive leaves in the buffer, is an argument.
use vkccl.Prelude.{
  ℕ, zero, suc, ◌+◌, ◌-◌, ◌≤◌, ◌<◌, ◌≡◌, refl, sym, ap, ◌∙◌, ◌⊎◌, inl, inr, true, false, not,
  false≢true, arith, dec_le, dec_lt, ◌==◌, if◌then◌else◌, Bool-cases,
}
use vkccl.Types.{Result, success, is_success, checked}

-- The results of the calls of one rank: as the root, `recvAll` and `sendAll` of each client; as a
-- client, `sendAll` and `recvAll`.
pub record Answers (A : Type 0) : Type 0 where
  pub from_client : ℕ → Result × A
  pub to_client : ℕ → Result
  pub to_root : Result
  pub from_root : Result × (ℕ → A)

-- A slice in its place.
abbrev with_slice : {A : Type 0} → ℕ → A → (ℕ → A) → ℕ → A
with_slice r slice base s = if s == r then slice else base s

-- The first loop of the root, with the clients left.
unfoldable pub receive_slices : {A : Type 0} → (ℕ → Result × A) → ℕ → ℕ → (ℕ → A) → Result × (ℕ → A)
receive_slices from r zero base = (success, base)
receive_slices from r (suc left) base =
    let (res, slice) = from r in
    let base' = with_slice r slice base in
    let rest = receive_slices from (r + 1) left base' in
    if not (is_success res) then (res, base') else rest

-- The second loop of the root.
unfoldable pub send_slices : (ℕ → Result) → ℕ → ℕ → Result
send_slices to r zero = success
send_slices to r (suc left) =
    let rest = send_slices to (r + 1) left in if not (is_success (to r)) then to r else rest

unfoldable pub then_send_slices :
    {A : Type 0} → (ℕ → Result) → ℕ → Result × (ℕ → A) → Result × (ℕ → A)
unfolding send_slices
then_send_slices to nranks (res, base) =
    if not (is_success res) then (res, base) else (send_slices to 1 (nranks - 1), base)

-- `Bootstrap::allGather` of a rank.
unfoldable pub all_gather : {A : Type 0} → ℕ → ℕ → Answers A → (ℕ → A) → Result × (ℕ → A)
unfolding receive_slices then_send_slices
all_gather nranks zero answers base =
    then_send_slices answers.to_client nranks
      (receive_slices answers.from_client 1 (nranks - 1) base)
all_gather nranks (suc rank) answers base =
    if not (is_success answers.to_root) then (answers.to_root, base) else answers.from_root

module _ {A : Type 0} (from : ℕ → Result × A) where
  abbrev next_base : ℕ → (ℕ → A) → ℕ → A
  next_base r base = with_slice r (from r).1 base

  -- What a turn of the first loop does next.
  goes_on :
      (r left : ℕ) (base : ℕ → A)
      → is_success (from r).0 ≡ true
      → receive_slices from r (suc left) base ≡ receive_slices from (r + 1) left (next_base r base)
  unfolding receive_slices
  goes_on r left base ok = rw ok refl

  stops :
      (r left : ℕ) (base : ℕ → A)
      → is_success (from r).0 ≡ false
      → receive_slices from r (suc left) base ≡ ((from r).0, next_base r base)
  unfolding receive_slices
  stops r left base bad = rw bad refl

  -- The first loop keeps the slices of the others.
  receive_slices_keeps :
      (r left : ℕ) (base : ℕ → A) (s : ℕ)
      → s < r ⊎ r + left ≤ s
      → (receive_slices from r left base).1 s ≡ base s
  unfolding receive_slices
  receive_slices_keeps r zero base s out = refl
  receive_slices_keeps r (suc left) base s out =
      let kept : next_base r base s ≡ base s = ground (arith, out) in
      elim (Bool-cases (is_success (from r).0)) [
        | inl ok ↦
            rw (goes_on r left base ok)
              (receive_slices_keeps (r + 1) left (next_base r base) s (ground (arith, out)) ∙ kept)
        | inr bad ↦ rw (stops r left base bad) kept
      ]

  -- A first loop that succeeds has received the slice of each client.
  receive_slices_gets :
      (r left : ℕ) (base : ℕ → A) (s : ℕ)
      → is_success (receive_slices from r left base).0 ≡ true
      → r ≤ s
      → s < r + left
      → (is_success (from s).0 ≡ true) × ((receive_slices from r left base).1 s ≡ (from s).1)
  unfolding receive_slices
  receive_slices_gets r zero base s e low high = absurd (omega (arith, low, high))
  receive_slices_gets r (suc left) base s e low high = elim (Bool-cases (is_success (from r).0)) [
    | inl ok ↦ rw (goes_on r left base ok) (elim (dec_le (r + 1) s) [
      | yes later ↦
          receive_slices_gets (r + 1) left (next_base r base) s
            (ap (λ x. is_success x.0) (sym (goes_on r left base ok)) ∙ e) later
            (omega (arith, high))
      | no now ↦
          let here : s ≡ r = omega (arith, low, now) in
          rw here (
            ok,
            receive_slices_keeps (r + 1) left (next_base r base) r (inl (omega arith))
                ∙ ground arith,
          )
    ])
    | inr bad ↦
        absurd (false≢true (sym bad ∙ ap (λ x. is_success x.0) (sym (stops r left base bad)) ∙ e))
  ]

-- An all-gather of all ranks. `answers r` is what the calls of rank `r` answer and `base r` the
-- buffer that it brings; a receive that succeeds leaves what its peer has sent.
pub record Relayed {A : Type 0} (nranks : ℕ) (answers : ℕ → Answers A) (base : ℕ → ℕ → A)
    : Type 0 where
  pub up :
      (r : ℕ)
      → is_success ((answers 0).from_client r).0 ≡ true
      → ((answers 0).from_client r).1 ≡ base r r
  pub down :
      (r q : ℕ)
      → is_success (answers r).from_root.0 ≡ true
      → q < nranks
      → (answers r).from_root.1 q ≡ (all_gather nranks 0 (answers 0) (base 0)).1 q

module _ {A : Type 0} (nranks : ℕ) (answers : ℕ → Answers A) (base : ℕ → ℕ → A) where
  -- The root has all slices.
  root_lem :
      Relayed nranks answers base
      → is_success (all_gather nranks 0 (answers 0) (base 0)).0 ≡ true
      → (q : ℕ) → q < nranks
      → (all_gather nranks 0 (answers 0) (base 0)).1 q ≡ base q q
  unfolding all_gather then_send_slices
  root_lem relayed ok q hq =
      let got : Result × (ℕ → A) = receive_slices (answers 0).from_client 1 (nranks - 1) (base 0) in
      let (c, e, sent) =
        checked got.0 got.1 (send_slices (answers 0).to_client 1 (nranks - 1), got.1) ok in
      ap (λ x. x.1 q) e ∙ elim (dec_lt 0 q) [
        | yes client ↦
            let (received, e') =
              receive_slices_gets (answers 0).from_client 1 (nranks - 1) (base 0) q c client
                (omega (arith, hq)) in
            e' ∙ relayed.up q received
        | no root ↦
            let here : q ≡ 0 = omega (arith, root) in
            rw here (
              receive_slices_keeps (answers 0).from_client 1 (nranks - 1) (base 0) 0
                (inl (omega arith)))
      ]

  -- Where every rank succeeds, each has the slices of all.
  pub all_gather_lem :
      Relayed nranks answers base
      → ((r : ℕ) → r < nranks → is_success (all_gather nranks r (answers r) (base r)).0 ≡ true)
      → (r q : ℕ) → r < nranks
      → q < nranks
      → (all_gather nranks r (answers r) (base r)).1 q ≡ base q q
  unfolding all_gather
  all_gather_lem relayed ok zero q hr hq = root_lem relayed (ok 0 hr) q hq
  all_gather_lem relayed ok (suc r) q hr hq =
      let (sent, e, received) =
        checked (answers (suc r)).to_root (base (suc r)) (answers (suc r)).from_root
          (ok (suc r) hr) in
      ap (λ x. x.1 q) e
      ∙ relayed.down (suc r) q received hq
      ∙ root_lem relayed (ok 0 (omega (arith, hr))) q hq
