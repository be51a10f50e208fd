-- ===== src/Comm/Split.antt =====
-- src/core/comm.cc: `vcclCommSplit`, from the colors and keys that the ranks have exchanged to the
-- members of a color and the new rank. `std::sort` on pairs is an insertion sort.
pub mod NewRanks
mod Tests
use vkccl.Prelude.{
  ℕ, zero, suc, ◌+◌, Bool, true, false, ◌&&◌, ◌||◌, Option, none, some, List, [], ◌∷◌, ltb, leb,
  ◌==◌, if◌then◌else◌, ℤ, pos, negsuc, is_neg,
}

-- `SplitInfo`
pub record SplitInfo : Type 0 where
  pub color : ℤ
  pub key : ℤ

-- `std::pair<int32_t, int>`
pub record Member : Type 0 where
  pub member_key : ℤ
  pub member_rank : ℕ

abbrev pub int_eq : ℤ → ℤ → Bool
int_eq (pos a) (pos b) = a == b
int_eq (negsuc a) (negsuc b) = a == b
int_eq _ _ = false

abbrev pub int_lt : ℤ → ℤ → Bool
int_lt (pos a) (pos b) = ltb a b
int_lt (negsuc a) (negsuc b) = ltb b a
int_lt (negsuc a) (pos b) = true
int_lt (pos a) (negsuc b) = false

-- The order of pairs, an element before itself.
abbrev pub before : Member → Member → Bool
before x y =
    int_lt x.member_key y.member_key
    || (int_eq x.member_key y.member_key && leb x.member_rank y.member_rank)

-- `for (int r = 0; r < nranks; r++)` with the ranks left.
unfoldable pub collect : (ℕ → SplitInfo) → ℤ → ℕ → ℕ → List Member
collect info c zero r = []
collect info c (suc left) r =
    let rest = collect info c left (r + 1) in
    if int_eq (info r).color c
    then record { member_key = (info r).key; member_rank = r } ∷ rest
    else rest

unfoldable pub insert : Member → List Member → List Member
insert x [] = x ∷ []
insert x (y ∷ ys) = let rest = insert x ys in if before x y then x ∷ y ∷ ys else y ∷ rest

unfoldable pub sort : List Member → List Member
unfolding insert
sort [] = []
sort (x ∷ xs) = insert x (sort xs)

-- `members` of a color; a negative color has none.
unfoldable pub members : ℕ → (ℕ → SplitInfo) → ℤ → List Member
members n info c = if is_neg c then [] else sort (collect info c n 0)

-- The loop that sets `newRank`, from index `i`, with its value so far.
unfoldable pub new_rank_from : ℕ → List Member → ℕ → Option ℕ → Option ℕ
new_rank_from rank [] i found = found
new_rank_from rank (m ∷ ms) i found =
    new_rank_from rank ms (i + 1) (if m.member_rank == rank then some i else found)

-- `newRank` of a rank, by its own color; `none` for -1.
unfoldable pub new_rank : ℕ → (ℕ → SplitInfo) → ℕ → Option ℕ
new_rank n info rank = new_rank_from rank (members n info (info rank).color) 0 none
