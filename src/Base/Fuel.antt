-- ===== src/Base/Fuel.antt =====
-- More fuel gives the results that less fuel gives.
use protun.Base.{
  ℕ, zero, suc, ◌+◌, ◌≡◌, refl, ◌∙◌, ap, subst, Bool, true, false, Option, none, some, arith,
  if◌then◌else◌,
}
use protun.Base.Loop.{Round, stop, next, loop, proceed, ◌>>=◌}

-- The second result is the first one, if there is a first one.
abbrev pub Extends {ℓ} : {A : Type ℓ} → Option A → Option A → Type ℓ
Extends r r' = (a : _) → r ≡ some a → r' ≡ some a

-- There is a result.
abbrev pub Ends {ℓ} : {A : Type ℓ} → Option A → Type ℓ
Ends {A = A} r = (a : A) × (r ≡ some a)

pub Extends-refl {ℓ} : {A : Type ℓ} (r : Option A) → Extends r r
Extends-refl r a e = e

pub bind-Extends {ℓ κ} :
    {A : Type ℓ} {B : Type κ} (r r' : Option A) (f f' : A → Option B)
    → Extends r r'
    → ((a : A) → Extends (f a) (f' a))
    → Extends (r >>= f) (r' >>= f')
bind-Extends none r' f f' h g b e = cc
bind-Extends (some a) r' f f' h g b e = ap (λ r. r >>= f') (h a refl) ∙ g a b e

pub if-Extends {ℓ} :
    {A : Type ℓ} (b : Bool) {x x' y y' : Option A}
    → Extends x x'
    → Extends y y'
    → Extends (if b then x else y) (if b then x' else y')
if-Extends true f g = f
if-Extends false f g = g

suc_add : (m n : ℕ) → suc (m + n) ≡ suc m + n
suc_add m n = omega arith

module _ {ℓ} {S : Type ℓ} where
  proceed-Extends :
      (r r' : Option (Round S)) (go go' : S → Option S)
      → Extends r r'
      → ((s : S) → Extends (go s) (go' s))
      → Extends (proceed go r) (proceed go' r')
  proceed-Extends none r' go go' h g t e = cc
  proceed-Extends (some (stop s)) r' go go' h g t e = ap (proceed go') (h (stop s) refl) ∙ e
  proceed-Extends (some (next s)) r' go go' h g t e = ap (proceed go') (h (next s) refl) ∙ g s t e

  pub loop-Extends :
      (body body' : S → Option (Round S))
      → ((s : S) → Extends (body s) (body' s))
      → (more fuel : ℕ) (s : S) → Extends (loop body fuel s) (loop body' (fuel + more) s)
  unfolding loop
  loop-Extends body body' h more zero s = λ t e. cc
  loop-Extends body body' h more (suc fuel) s =
      let go = loop-Extends body body' h more fuel in
      subst (λ n. Extends (loop body (suc fuel) s) (loop body' n s)) (suc_add fuel more)
        (proceed-Extends (body s) (body' s) (loop body fuel) (loop body' (fuel + more)) (h s) go)
