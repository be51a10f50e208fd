-- ===== src/Verbs/Operations/Ends.antt =====
-- How a call of the RDMA transport can end: a condition on the state where it returns, and one where
-- it fails.
use vkccl.Prelude.{◌≡◌, subst, Bool, true, false, if◌then◌else◌}
use vkccl.Verbs.Operations.{Nic, Outcome, ok, fails, blocked, M, ◌>>=◌, discard_pending, guarded}

abbrev pub Ends : {A : Type 0} → (A → Nic → Type 0) → (Nic → Type 0) → Outcome A → Type 0
Ends P Q (ok a t) = P a t
Ends P Q (fails e t) = Q t
Ends P Q blocked = Unit {0}

module _ {A B : Type 0} (Q : Nic → Type 0) where
  after :
      (P : A → Nic → Type 0) (R : B → Nic → Type 0) (o : Outcome A) (f : A → M B) (s : Nic)
      → Ends P Q o
      → ((a : A) (t : Nic) → P a t → Ends R Q (f a t))
      → Ends R Q (◌>>=◌ (λ _. o) f s)
  after P R (ok a t) f s h k = k a t h
  after P R (fails e t) f s h k = h
  after P R blocked f s h k = tt

  pub Ends-bind :
      (P : A → Nic → Type 0) (R : B → Nic → Type 0) (m : M A) (f : A → M B) (s : Nic)
      → Ends P Q (m s)
      → ((a : A) (t : Nic) → P a t → Ends R Q (f a t))
      → Ends R Q ((m >>= f) s)
  Ends-bind P R m f s h k = after P R (m s) f s h k

module _ {A : Type 0} where
  guard_after :
      (P : A → Nic → Type 0) (Q Q' : Nic → Type 0) (o : Outcome A) (s : Nic)
      → Ends P Q o
      → ((t : Nic) → Q t → Q' (discard_pending t))
      → Ends P Q' (guarded (λ _. o) s)
  guard_after P Q Q' (ok a t) s h k = h
  guard_after P Q Q' (fails e t) s h k = k t h
  guard_after P Q Q' blocked s h k = tt

  pub Ends-guarded :
      (P : A → Nic → Type 0) (Q Q' : Nic → Type 0) (m : M A) (s : Nic)
      → Ends P Q (m s)
      → ((t : Nic) → Q t → Q' (discard_pending t))
      → Ends P Q' (guarded m s)
  Ends-guarded P Q Q' m s h k = guard_after P Q Q' (m s) s h k

  -- A run that returns meets the condition.
  pub Ends-ok :
      (P : A → Nic → Type 0) (Q : Nic → Type 0) {o : Outcome A} {a : A} {t : Nic}
      → Ends P Q o
      → o ≡ ok a t
      → P a t
  Ends-ok P Q h e = subst (Ends P Q) e h

  pub Ends-if :
      (P : A → Nic → Type 0) (Q : Nic → Type 0) (b : Bool) (x y : M A) (s : Nic)
      → Ends P Q (x s)
      → Ends P Q (y s)
      → Ends P Q ((if b then x else y) s)
  Ends-if P Q true x y s h k = h
  Ends-if P Q false x y s h k = k

  pub Ends-mono :
      (P P' : A → Nic → Type 0) (Q : Nic → Type 0) (o : Outcome A)
      → Ends P Q o
      → ((a : A) (t : Nic) → P a t → P' a t)
      → Ends P' Q o
  Ends-mono P P' Q (ok a t) h k = k a t h
  Ends-mono P P' Q (fails e t) h k = h
  Ends-mono P P' Q blocked h k = tt

  pub Ends-weaken :
      (P : A → Nic → Type 0) (Q Q' : Nic → Type 0) (o : Outcome A)
      → Ends P Q o
      → ((t : Nic) → Q t → Q' t)
      → Ends P Q' o
  Ends-weaken P Q Q' (ok a t) h k = h
  Ends-weaken P Q Q' (fails e t) h k = k t h
  Ends-weaken P Q Q' blocked h k = tt
