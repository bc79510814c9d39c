-- ===== src/Base/Loop.antt =====
-- A `while` or `loop` on fuel: the body says whether to go round again or to leave with a result.
use Prim.Native.Nat.{ℕ, zero, suc, ◌<◌}
use mathlib.Core.Path.{◌≡◌, refl, subst}
use mathlib.Core.Option.{Option, none, some}
use native.Mathlib.Omega.{arith}

pub data Flow {ℓ κ} (S : Type ℓ) (R : Type κ) : Type (ℓ ⊔ κ) where
  again : S → Flow S R
  leave : R → Flow S R

-- `none` means that the fuel ran out. The cases of an `elim` wait for the test.
unfoldable pub loop {ℓ κ} : {S : Type ℓ} {R : Type κ} → ℕ → (S → Flow S R) → S → Option R
loop zero body s = none
loop (suc f) body s = elim (body s) [ again t ↦ loop f body t | leave r ↦ some r ]

pub loop_leave {ℓ κ} :
    {S : Type ℓ} {R : Type κ} (f : ℕ) (body : S → Flow S R) (s : S) {r : R}
    → body s ≡ leave r
    → loop (suc f) body s ≡ some r
unfolding loop
loop_leave f body s e = rw (e, loop)

module _ {ℓ κ} {S : Type ℓ} {R : Type κ} (P : S → Type 0) (Q : R → Type 0) (measure : S → ℕ) where
  -- What a round must do: keep the invariant at a smaller measure, or leave with a good result.
  abbrev pub Round : ℕ → Flow S R → Type 0
  Round n (again t) = P t × (measure t < n)
  Round n (leave r) = Q r

  -- Total correctness: with a measure below the fuel the loop leaves, with a good result.
  pub loop_lem :
      (body : S → Flow S R)
      → ((s : S) → P s → Round (measure s) (body s))
      → (f : ℕ) (s : S) → measure s < f
      → P s
      → (r : R) × (loop f body s ≡ some r) × Q r
  unfolding loop
  loop_lem body keep zero s m p = elim m [ ]
  loop_lem body keep (suc f) s m p =
      next (body s) (keep s p) (λ t lt pt. loop_lem body keep f t (omega arith) pt)
    where
      next :
          (w : Flow S R)
          → Round (measure s) w
          → ((t : S) → measure t < measure s → P t → (r : R) × (loop f body t ≡ some r) × Q r)
          → (r : R) × (◌≡◌ {A = Option R}
              (elim w [ again t ↦ loop f body t | leave r ↦ some r ])
              (some r))
            × Q r
      next (again t) h ih = ih t h.1 h.0
      next (leave r) h ih = (r, refl, h)

pub some_injective {ℓ} : {A : Type ℓ} {a b : A} → some a ≡ some b → a ≡ b
some_injective e = cc

module _ {ℓ κ} {S : Type ℓ} {R : Type κ} (P : S → Type 0) (Q : R → Type 0) where
  abbrev pub Kept : Flow S R → Type 0
  Kept (again t) = P t
  Kept (leave r) = Q r

  -- What each round keeps holds of the result, where there is one.
  pub loop_keeps :
      (body : S → Flow S R)
      → ((s : S) → P s → Kept (body s))
      → (f : ℕ) (s : S) (r : R) → loop f body s ≡ some r
      → P s
      → Q r
  unfolding loop
  loop_keeps body keep zero s r e p = cc
  loop_keeps body keep (suc f) s r e p =
      next (body s) (keep s p) (λ t e. loop_keeps body keep f t r e) e
    where
      next :
          (o : Flow S R)
          → Kept o
          → ((t : S) → loop f body t ≡ some r → P t → Q r)
          → (elim o [ again t ↦ loop f body t | leave r ↦ some r ]) ≡ some r
          → Q r
      next (again t) k rest e = rest t e k
      next (leave x) k rest e = subst Q (some_injective e) k
