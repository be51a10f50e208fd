-- ===== src/Verbs/Device/Choice.antt =====
-- src/transport/verbs.cc: which GID `pickGid` chooses.
use vkccl.Prelude.{
  ℕ, zero, suc, ◌+◌, ◌≤◌, ◌<◌, ◌≡◌, refl, sym, ap, ◌∙◌, inl, inr, Option, none, some, arith, dec_lt,
  subst, ltb, Bool-cases, ltb→lt,
}
use mathlib.Core.Option.{some-injective, none-ne-some}
use vkccl.Verbs.Device.{Gid, GidTable, score, usable, Best, better, consider, best_gid, pick_gid}

below_suc : (P : ℕ → Type 0) (n : ℕ) → ((j : ℕ) → j < n → P j) → P n → (j : ℕ) → j < n + 1 → P j
below_suc P n before at_n j h = elim (dec_lt j n) [
  | yes lower ↦ before j lower
  | no upper ↦ subst P (omega (arith, h, upper)) at_n
]

module _ (table : GidTable) where
  -- The GID `g` at `i` is the first of the best below `n`.
  abbrev pub FirstBest : ℕ → ℕ → Gid → Type 0
  FirstBest n i g =
      (i < n)
      × (usable table i ≡ some g)
      × ((j : ℕ) (h : Gid)
          → j < n
          → usable table j ≡ some h
          → (score table j h ≤ score table i g) × (j < i → score table j h < score table i g))

  abbrev Chosen : ℕ → Option Best → Type 0
  Chosen n none = (j : ℕ) → j < n → usable table j ≡ none
  Chosen n (some b) = FirstBest n b.index b.gid × (b.score ≡ score table b.index b.gid)

  same_score :
      (n : ℕ) (h g : Gid)
      → usable table n ≡ some h
      → usable table n ≡ some g
      → score table n h ≡ score table n g
  same_score n h g u e = ap (score table n) (some-injective h g (sym u ∙ e))

  consider-Chosen :
      (n : ℕ) (o : Option Gid) (best : Option Best)
      → usable table n ≡ o
      → Chosen n best
      → Chosen (n + 1) (consider table n o best)
  unfolding consider better
  consider-Chosen n none none e c = below_suc (λ j. usable table j ≡ none) n c e
  consider-Chosen n none (some b) e ((low, is_b, best), sc) =
      let all : (j : ℕ)
          → j < n + 1
          → (h : Gid) → usable table j ≡ some h
          → (score table j h ≤ score table b.index b.gid)
            × (j < b.index → score table j h < score table b.index b.gid) =
        below_suc _ n (λ j l h. best j h l) (λ h u. absurd (none-ne-some h (sym e ∙ u))) in
      ((omega (arith, low), is_b, λ j h l. all j l h), sc)
  consider-Chosen n (some g) none e c =
      let all : (j : ℕ)
          → j < n + 1
          → (h : Gid) → usable table j ≡ some h
          → (score table j h ≤ score table n g) × (j < n → score table j h < score table n g) =
        below_suc _ n (λ j l h u. absurd (none-ne-some h (sym (c j l) ∙ u)))
          (λ h u. (omega (arith, same_score n h g u e), λ l. absurd (omega (arith, l)))) in
      ((omega arith, e, λ j h l. all j l h), refl)
  consider-Chosen n (some g) (some b) e ((low, is_b, best), sc) =
      elim (Bool-cases (ltb b.score (score table n g))) [
        | inl more ↦
            let lt : b.score < score table n g = ltb→lt _ _ more in
            let all : (j : ℕ)
                → j < n + 1
                → (h : Gid) → usable table j ≡ some h
                → (score table j h ≤ score table n g)
                  × (j < n → score table j h < score table n g) =
              below_suc _ n
                (λ j l h u.
                  let (le, _) = best j h l u in
                  (omega (arith, le, lt, sc), λ _. omega (arith, le, lt, sc)))
                (λ h u. (omega (arith, same_score n h g u e), λ l. absurd (omega (arith, l)))) in
            rw more ((omega arith, e, λ j h l. all j l h), refl)
        | inr kept ↦
            let all : (j : ℕ)
                → j < n + 1
                → (h : Gid) → usable table j ≡ some h
                → (score table j h ≤ score table b.index b.gid)
                  × (j < b.index → score table j h < score table b.index b.gid) =
              below_suc _ n (λ j l h. best j h l)
                (λ h u. (
                  ground (arith, kept, sc, same_score n h g u e),
                  λ l. absurd (omega (arith, l, low)),
                )) in
            rw kept ((omega (arith, low), is_b, λ j h l. all j l h), sc)
      ]

  best_gid-Chosen :
      (i left : ℕ) (best : Option Best)
      → Chosen i best
      → Chosen (i + left) (best_gid table i left best)
  unfolding best_gid
  best_gid-Chosen i zero best c = subst (λ n. Chosen n best) (omega arith) c
  best_gid-Chosen i (suc left) best c =
      subst (λ n. Chosen n (best_gid table i (suc left) best)) (omega arith)
        (best_gid-Chosen (i + 1) left _ (consider-Chosen i (usable table i) best refl c))

  -- What `pickGid` answers where the environment names no index: the first of the best, and none
  -- only where there is none.
  abbrev pub Picked : Option (ℕ × Gid) → Type 0
  Picked none = (j : ℕ) → j < table.len → usable table j ≡ none
  Picked (some (i, g)) = FirstBest table.len i g

  picked :
      (best : Option Best)
      → Chosen table.len best
      → Picked (elim best [ none ↦ none | some b ↦ some (b.index, b.gid) ])
  picked none c = c
  picked (some b) c = c.0

  -- Without an index from the environment, `pickGid` fails only where no GID of the port is usable;
  -- where it chooses one, that is usable, no usable GID has a higher score, and none before it has
  -- the same.
  pub pick_gid_lem : Picked (pick_gid none table)
  unfolding pick_gid
  pick_gid_lem = picked _ (
      subst (λ n. Chosen n (best_gid table 0 table.len none)) (omega arith)
        (best_gid-Chosen 0 table.len none (λ j h. absurd (omega (arith, h)))))
