-- ===== src/Base/Loop.antt =====
-- Loops that may not end: a body goes on with a state or stops at one, and may itself run out of
-- fuel. `none` means that the fuel ran out.
use protun.Base.{ℕ, zero, suc, ◌<◌, ◌≡◌, refl, Option, none, some, arith, subst}

pub data Round {ℓ} (S : Type ℓ) : Type ℓ where
  stop next : S → Round S

infixl 5 ◌>>=◌
abbrev pub ◌>>=◌ {ℓ κ} : {A : Type ℓ} {B : Type κ} → Option A → (A → Option B) → Option B
none >>= f = none
some a >>= f = f a

-- What a predicate says of a result, if there is one.
abbrev pub OnSome {ℓ κ} : {A : Type ℓ} → (A → Type κ) → Option A → Type κ
OnSome P none = Unit
OnSome P (some a) = P a

pub bind-OnSome {ℓ κ ι ν} :
    {A : Type ℓ} {B : Type κ} (P : A → Type ι) (Q : B → Type ν) (r : Option A) (f : A → Option B)
    → OnSome P r
    → ((a : A) → P a → OnSome Q (f a))
    → OnSome Q (r >>= f)
bind-OnSome P Q none f h g = tt
bind-OnSome P Q (some a) f h g = g a h

pub bind_known {ℓ κ ν} :
    {A : Type ℓ} {B : Type κ} (Q : B → Type ν) (r : Option A) (f : A → Option B)
    → ((a : A) → r ≡ some a → OnSome Q (f a))
    → OnSome Q (r >>= f)
bind_known Q none f g = tt
bind_known Q (some a) f g = g a refl

pub OnSome-some {ℓ κ} :
    {A : Type ℓ} (P : A → Type κ) (r : Option A) {a : A} → r ≡ some a → OnSome P r → P a
OnSome-some P r e h = subst (OnSome P) e h

module _ {ℓ} {S : Type ℓ} where
  -- What a predicate says of the state that a round gives.
  abbrev pub OnRound {κ} : (S → Type κ) → Round S → Type κ
  OnRound P (stop t) = P t
  OnRound P (next t) = P t

  abbrev pub proceed : (S → Option S) → Option (Round S) → Option S
  proceed go none = none
  proceed go (some (stop t)) = some t
  proceed go (some (next t)) = go t

  unfoldable pub loop : (S → Option (Round S)) → ℕ → S → Option S
  loop body zero s = none
  loop body (suc fuel) s = proceed (loop body fuel) (body s)

  elim_round {κ} :
      (P : S → Type κ) (go : S → Option S) (r : Option (Round S))
      → OnSome (OnRound P) r
      → ((t : S) → P t → OnSome P (go t))
      → OnSome P (proceed go r)
  elim_round P go none h goes = tt
  elim_round P go (some (stop t)) h goes = h
  elim_round P go (some (next t)) h goes = goes t h

  -- A round that gives a state, with a smaller measure if it goes on.
  abbrev pub OnRoundOf : (S → ℕ) → ℕ → Option (Round S) → Type 0
  OnRoundOf measure n none = ⊥
  OnRoundOf measure n (some (stop t)) = Unit
  OnRoundOf measure n (some (next t)) = measure t < n

  end_round :
      (go : S → Option S) (measure : S → ℕ) (n : ℕ) (r : Option (Round S))
      → OnRoundOf measure n r
      → ((t : S) → measure t < n → (u : S) × (go t ≡ some u))
      → (u : S) × (proceed go r ≡ some u)
  end_round go measure n none h goes = absurd h
  end_round go measure n (some (stop t)) h goes = (t, refl)
  end_round go measure n (some (next t)) h goes = goes t h

  -- If a round keeps what the state satisfies, and the loop ends, so does the loop.
  pub loop-OnSome {κ} :
      (P : S → Type κ) (body : S → Option (Round S))
      → ((s : S) → P s → OnSome (OnRound P) (body s))
      → (fuel : ℕ) (s : S) → P s
      → OnSome P (loop body fuel s)
  unfolding loop
  loop-OnSome P body keeps zero s h = tt
  loop-OnSome P body keeps (suc fuel) s h =
      elim_round P (loop body fuel) (body s) (keeps s h) (λ t q. loop-OnSome P body keeps fuel t q)

  -- A loop whose rounds do not fail, and bring a measure down, ends on enough fuel.
  pub loop_ends :
      (body : S → Option (Round S)) (measure : S → ℕ)
      → ((s : S) → OnRoundOf measure (measure s) (body s))
      → (fuel : ℕ) (s : S) → measure s < fuel
      → (t : S) × (loop body fuel s ≡ some t)
  unfolding loop
  loop_ends body measure falls zero s h = absurd (omega arith)
  loop_ends body measure falls (suc fuel) s h =
      end_round (loop body fuel) measure (measure s) (body s) (falls s)
        (λ t lt. loop_ends body measure falls fuel t (omega arith))
