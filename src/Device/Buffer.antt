-- ===== src/Device/Buffer.antt =====
-- A buffer of pieces that wait to be sent, as the TCP streams keep it.
use protun.Base.{
  ℕ, zero, suc, ◌+◌, ◌≤◌, ◌<◌, ◌≡◌, ◌≢◌, refl, sym, ◌∙◌, ap, List, [], ◌∷◌, ◌++◌, drop, take,
  length, ltb, ltb→lt, length-drop, take-append-drop, if_elim, if◌then◌else◌, arith,
}
use protun.Io.{ok}
use protun.Device.{Took}
use mathlib.Core.List.{append_assoc, append-nil}

abbrev pub concat : List (List ℕ) → List ℕ
concat [] = []
concat (xs ∷ xss) = xs ++ concat xss

pub concat-snoc : (xss : List (List ℕ)) (xs : List ℕ) → concat (xss ++ xs ∷ []) ≡ concat xss ++ xs
concat-snoc [] xs = append-nil xs
concat-snoc (ys ∷ yss) xs =
    ap (λ zs. ys ++ zs) (concat-snoc yss xs) ∙ sym (append_assoc ys (concat yss) xs)

-- What is left of the first piece, of which `count` bytes are sent, before the others.
abbrev pub unsent : ℕ → List ℕ → List (List ℕ) → List (List ℕ)
unsent count bytes more = if ltb count (length bytes) then drop count bytes ∷ more else more

drop_all : (n : ℕ) (xs : List ℕ) → length xs ≤ n → drop n xs ≡ []
drop_all zero [] h = refl
drop_all zero (x ∷ xs) h = absurd (omega arith)
drop_all (suc n) [] h = refl
drop_all (suc n) (x ∷ xs) h = drop_all n xs (omega arith)

concat-unsent :
    (n : ℕ) (bytes : List ℕ) (more : List (List ℕ))
    → concat (unsent n bytes more) ≡ drop n bytes ++ concat more
concat-unsent n bytes more =
    if_elim (λ xss. concat xss ≡ drop n bytes ++ concat more) (ltb n (length bytes)) (λ e. refl)
      (λ e. ap (λ xs. xs ++ concat more) (sym (drop_all n bytes (ground arith))))

-- What the device has taken, before what waits, is as before a write of the first piece.
pub Took-unsent :
    (before after bytes : List ℕ) (more : List (List ℕ)) (count : ℕ)
    → Took before after bytes (ok count)
    → after ++ concat (unsent count bytes more) ≡ before ++ (bytes ++ concat more)
Took-unsent before after bytes more count (small, taken) =
    ap (λ xs. xs ++ concat (unsent count bytes more)) taken
    ∙ ap (λ ys. before ++ take count bytes ++ ys) (concat-unsent count bytes more)
    ∙ append_assoc before (take count bytes) (drop count bytes ++ concat more)
    ∙ ap (λ ys. before ++ ys)
        (sym (append_assoc (take count bytes) (drop count bytes) (concat more)))
    ∙ ap (λ ys. before ++ (ys ++ concat more)) (take-append-drop count bytes)

-- The bytes that wait, and one more for each piece of them.
abbrev pub weight : List (List ℕ) → ℕ
weight [] = 0
weight (bytes ∷ more) = suc (length bytes) + weight more

pub weight-snoc :
    (buffer : List (List ℕ)) (bytes : List ℕ)
    → weight (buffer ++ bytes ∷ []) ≡ weight buffer + suc (length bytes)
weight-snoc [] bytes = omega arith
weight-snoc (xs ∷ buffer) bytes = omega (arith, weight-snoc buffer bytes)

pub weight-unsent :
    (count : ℕ) (bytes : List ℕ) (more : List (List ℕ))
    → (0 < length bytes → count ≢ 0)
    → weight (unsent count bytes more) < weight (bytes ∷ more)
weight-unsent count bytes more some_taken =
    if_elim (λ buffer. weight buffer < weight (bytes ∷ more)) (ltb count (length bytes))
      (λ e. ground (arith, length-drop count bytes, ltb→lt count (length bytes) e, some_taken))
      (λ e. omega arith)
