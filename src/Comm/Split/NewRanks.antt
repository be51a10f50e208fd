-- ===== src/Comm/Split/NewRanks.antt =====
-- src/core/comm.cc: the new ranks of `vcclCommSplit`.
use vkccl.Prelude.{
  ℕ, zero, suc, ◌+◌, ◌<◌, ◌≡◌, refl, sym, ap, ◌∙◌, ◌≢◌, inl, inr, Bool, true, false, ◌&&◌, ◌||◌,
  Option, none, some, List, [], ◌∷◌, arith, ltb, leb, ◌==◌, Bool-cases, get_elem?, ℤ, pos, negsuc,
  is_neg, ◌≤◌,
}
use vkccl.Comm.Split.{
  SplitInfo, Member, int_eq, int_lt, before, collect, insert, sort, members, new_rank_from,
  new_rank,
}

-- Whether a list has a rank.
abbrev has_rank : ℕ → List Member → Bool
has_rank k [] = false
has_rank k (m ∷ ms) = m.member_rank == k || has_rank k ms

abbrev Apart : List Member → Type 0
Apart [] = Unit {0}
Apart (m ∷ ms) = (has_rank m.member_rank ms ≡ false) × Apart ms

-- Every member comes before the next.
abbrev pub Ordered : List Member → Type 0
Ordered [] = Unit {0}
Ordered (x ∷ []) = Unit {0}
Ordered (x ∷ y ∷ ms) = (before x y ≡ true) × Ordered (y ∷ ms)

-- Every member has its own key.
abbrev pub Keyed : (ℕ → SplitInfo) → List Member → Type 0
Keyed info [] = Unit {0}
Keyed info (m ∷ ms) = (m.member_key ≡ (info m.member_rank).key) × Keyed info ms

-- Every member is one of `n` ranks and has the color `c`.
abbrev pub Colored : ℕ → (ℕ → SplitInfo) → ℤ → List Member → Type 0
Colored n info c [] = Unit {0}
Colored n info c (m ∷ ms) =
    (m.member_rank < n) × ((info m.member_rank).color ≡ c) × Colored n info c ms

before_total : (x y : Member) → before x y ≡ false → before y x ≡ true
before_total x y h = by_keys x.member_key y.member_key h
  where
    by_keys :
        (a b : ℤ)
        → (int_lt a b || (int_eq a b && leb x.member_rank y.member_rank)) ≡ false
        → (int_lt b a || (int_eq b a && leb y.member_rank x.member_rank)) ≡ true
    by_keys (pos a) (pos b) h = ground arith
    by_keys (negsuc a) (negsuc b) h = ground arith
    by_keys (negsuc a) (pos b) h = ground arith
    by_keys (pos a) (negsuc b) h = ground arith

has_rank-collect :
    (info : ℕ → SplitInfo) (c : ℤ) (left r k : ℕ)
    → has_rank k (collect info c left r) ≡ (leb r k && ltb k (r + left) && int_eq (info k).color c)
unfolding collect
has_rank-collect info c zero r k = ground arith
has_rank-collect info c (suc left) r k = ground (
  arith,
  has_rank-collect info c left (r + 1) k,
  ap (λ j. int_eq (info j).color c) {x = r} {y = k},
)

Apart-collect : (info : ℕ → SplitInfo) (c : ℤ) (left r : ℕ) → Apart (collect info c left r)
unfolding collect
Apart-collect info c zero r = tt
Apart-collect info c (suc left) r = elim (Bool-cases (int_eq (info r).color c)) [
  | inl mine ↦
      rw mine
        (ground (arith, has_rank-collect info c left (r + 1) r), Apart-collect info c left (r + 1))
  | inr other_ ↦ rw other_ (Apart-collect info c left (r + 1))
]

has_rank-insert :
    (x : Member) (ms : List Member) (k : ℕ)
    → has_rank k (insert x ms) ≡ (x.member_rank == k || has_rank k ms)
unfolding insert
has_rank-insert x [] k = ground arith
has_rank-insert x (y ∷ ys) k = ground (arith, has_rank-insert x ys k)

Apart-insert :
    (x : Member) (ms : List Member)
    → has_rank x.member_rank ms ≡ false
    → Apart ms
    → Apart (insert x ms)
unfolding insert
Apart-insert x [] h a = (refl, tt)
Apart-insert x (y ∷ ys) h a = elim (Bool-cases (before x y)) [
  | inl first ↦ rw first (h, a)
  | inr later ↦
      rw later
        (ground (arith, has_rank-insert x ys y.member_rank), Apart-insert x ys (ground arith) a.1)
]

has_rank-sort : (ms : List Member) (k : ℕ) → has_rank k (sort ms) ≡ has_rank k ms
unfolding sort
has_rank-sort [] k = refl
has_rank-sort (x ∷ xs) k = ground (arith, has_rank-insert x (sort xs) k, has_rank-sort xs k)

Apart-sort : (ms : List Member) → Apart ms → Apart (sort ms)
unfolding sort
Apart-sort [] a = tt
Apart-sort (x ∷ xs) a =
    Apart-insert x (sort xs) (has_rank-sort xs x.member_rank ∙ a.0) (Apart-sort xs a.1)

Ordered-cons :
    (y x : Member) (ys : List Member)
    → before y x ≡ true
    → Ordered (y ∷ ys)
    → Ordered (insert x ys)
    → Ordered (y ∷ insert x ys)
unfolding insert
Ordered-cons y x [] h o i = (h, tt)
Ordered-cons y x (z ∷ zs) h o i = elim (Bool-cases (before x z)) [
  | inl first ↦ rw first (h, rw first at i)
  | inr later ↦ rw later (o.0, rw later at i)
]

Ordered-insert : (x : Member) (ms : List Member) → Ordered ms → Ordered (insert x ms)
unfolding insert
Ordered-insert x [] o = tt
Ordered-insert x (y ∷ ys) o = elim (Bool-cases (before x y)) [
  | inl first ↦ rw first (first, o)
  | inr later ↦
      rw later
        (Ordered-cons y x ys (before_total x y later) o (Ordered-insert x ys (Ordered-tail y ys o)))
]
  where
    Ordered-tail : (y : Member) (ys : List Member) → Ordered (y ∷ ys) → Ordered ys
    Ordered-tail y [] o = tt
    Ordered-tail y (z ∷ zs) o = o.1

Ordered-sort : (ms : List Member) → Ordered (sort ms)
unfolding sort
Ordered-sort [] = tt
Ordered-sort (x ∷ xs) = Ordered-insert x (sort xs) (Ordered-sort xs)

Keyed-collect : (info : ℕ → SplitInfo) (c : ℤ) (left r : ℕ) → Keyed info (collect info c left r)
unfolding collect
Keyed-collect info c zero r = tt
Keyed-collect info c (suc left) r = elim (Bool-cases (int_eq (info r).color c)) [
  | inl mine ↦ rw mine (refl, Keyed-collect info c left (r + 1))
  | inr other_ ↦ rw other_ (Keyed-collect info c left (r + 1))
]

Keyed-sort : (info : ℕ → SplitInfo) (ms : List Member) → Keyed info ms → Keyed info (sort ms)
unfolding sort insert
Keyed-sort info [] k = tt
Keyed-sort info (x ∷ xs) k = Keyed-insert (sort xs) (Keyed-sort info xs k.1)
  where
    Keyed-insert : (ms : List Member) → Keyed info ms → Keyed info (insert x ms)
    Keyed-insert [] q = (k.0, tt)
    Keyed-insert (y ∷ ys) q = elim (Bool-cases (before x y)) [
      | inl first ↦ rw first (k.0, q)
      | inr later ↦ rw later (q.0, Keyed-insert ys q.1)
    ]

int_eq-eq : (a b : ℤ) → int_eq a b ≡ true → a ≡ b
int_eq-eq (pos a) (pos b) e = ap pos (ground (arith, e))
int_eq-eq (negsuc a) (negsuc b) e = ap negsuc (ground (arith, e))
int_eq-eq (pos a) (negsuc b) e = absurd (ground arith)
int_eq-eq (negsuc a) (pos b) e = absurd (ground arith)

Colored-collect :
    (n : ℕ) (info : ℕ → SplitInfo) (c : ℤ) (left r : ℕ)
    → r + left ≤ n
    → Colored n info c (collect info c left r)
unfolding collect
Colored-collect n info c zero r h = tt
Colored-collect n info c (suc left) r h = elim (Bool-cases (int_eq (info r).color c)) [
  | inl mine ↦ rw mine (
    omega (arith, h),
    int_eq-eq (info r).color c mine,
    Colored-collect n info c left (r + 1) (omega (arith, h)),
  )
  | inr other_ ↦ rw other_ (Colored-collect n info c left (r + 1) (omega (arith, h)))
]

Colored-sort :
    (n : ℕ) (info : ℕ → SplitInfo) (c : ℤ) (ms : List Member)
    → Colored n info c ms
    → Colored n info c (sort ms)
unfolding sort insert
Colored-sort n info c [] k = tt
Colored-sort n info c (x ∷ xs) (low, mine, rest) =
    Colored-insert (sort xs) (Colored-sort n info c xs rest)
  where
    Colored-insert : (ms : List Member) → Colored n info c ms → Colored n info c (insert x ms)
    Colored-insert [] q = (low, mine, tt)
    Colored-insert (y ∷ ys) q = elim (Bool-cases (before x y)) [
      | inl first ↦ rw first (low, mine, q)
      | inr later ↦ rw later (q.0, q.1, Colored-insert ys q.2)
    ]

new_rank_absent :
    (rank : ℕ) (ms : List Member) (i : ℕ) (found : Option ℕ)
    → has_rank rank ms ≡ false
    → new_rank_from rank ms i found ≡ found
unfolding new_rank_from
new_rank_absent rank [] i found h = refl
new_rank_absent rank (m ∷ ms) i found h =
    ground (arith, new_rank_absent rank ms (i + 1) found (ground arith))

new_rank_present :
    (rank : ℕ) (ms : List Member) (i : ℕ) (found : Option ℕ)
    → Apart ms
    → has_rank rank ms ≡ true
    → (j : ℕ) × (m : Member) × (new_rank_from rank ms i found ≡ some (i + j))
      × (get_elem? ms j ≡ some m)
      × (m.member_rank ≡ rank)
unfolding new_rank_from
new_rank_present rank [] i found a h = absurd (ground arith)
new_rank_present rank (m ∷ ms) i found a h = elim (Bool-cases (m.member_rank == rank)) [
  | inl here ↦
      let e : m.member_rank ≡ rank = ground arith in
      (
        0,
        m,
        rw here (new_rank_absent rank ms (i + 1) (some i) (rw (← e) a.0) ∙ ap some (omega arith)),
        refl,
        e,
      )
  | inr there ↦
      let (j, x, run, at, same) = new_rank_present rank ms (i + 1) found a.1 (ground arith) in
      (suc j, x, rw there (run ∙ ap some (omega arith)), at, same)
]

-- A split with any colors and keys: the members of a color that is not negative are ranks of that
-- color, each with its own key, ordered by key and by rank among equal keys. Every rank of the color
-- finds itself among them, and its new rank is its place there.
pub new_rank_lem :
    (n : ℕ) (info : ℕ → SplitInfo) (rank : ℕ)
    → rank < n
    → is_neg (info rank).color ≡ false
    → let ms = members n info (info rank).color in
      Ordered ms
      × Keyed info ms
      × Colored n info (info rank).color ms
      × ((i : ℕ) × (m : Member) × (new_rank n info rank ≡ some i)
          × (get_elem? ms i ≡ some m)
          × (m.member_rank ≡ rank))
unfolding members new_rank
new_rank_lem n info rank h c =
    let c' = (info rank).color in
    let found = collect info c' n 0 in
    let (j, m, run, at, same) =
      new_rank_present rank (sort found) 0 none (Apart-sort found (Apart-collect info c' n 0)) (
        ground
          (arith, has_rank-sort found rank, has_rank-collect info c' n 0 rank, int_eq_self c')) in
    rw c (
      Ordered-sort found,
      Keyed-sort info found (Keyed-collect info c' n 0),
      Colored-sort n info c' found (Colored-collect n info c' n 0 (omega arith)),
      (j, m, run ∙ ap some (omega arith), at, same),
    )
  where
    int_eq_self : (a : ℤ) → int_eq a a ≡ true
    int_eq_self (pos a) = ground arith
    int_eq_self (negsuc a) = ground arith

new_rank_injective :
    (n : ℕ) (info : ℕ → SplitInfo) (r s : ℕ)
    → r < n
    → s < n
    → is_neg (info r).color ≡ false
    → (info r).color ≡ (info s).color
    → new_rank n info r ≡ new_rank n info s
    → r ≡ s
new_rank_injective n info r s hr hs c same e =
    let (o, k, d, (i, m, run, at, is)) = new_rank_lem n info r hr c in
    let (o', k', d', (i', m', run', at', is')) =
      new_rank_lem n info s hs (ap is_neg (sym same) ∙ c) in
    let one : i ≡ i' = cc in
    let at'' : get_elem? (members n info (info r).color) i ≡ some m' = rw (one, same) at' in
    let twin : m ≡ m' = cc in sym is ∙ ap (λ (x : Member). x.member_rank) twin ∙ is'

-- Two different ranks with one color that is not negative get different new ranks.
new_rank_apart :
    (n : ℕ) (info : ℕ → SplitInfo) (r s : ℕ)
    → r < n
    → s < n
    → is_neg (info r).color ≡ false
    → (info r).color ≡ (info s).color
    → r ≢ s
    → new_rank n info r ≢ new_rank n info s
new_rank_apart n info r s hr hs c same ne e = ne (new_rank_injective n info r s hr hs c same e)
