-- ===== src/Vectors/Firsts.antt =====
-- utils/vector.rs: what `distinct` keeps.
use protun.Base.{
  true, List, [], ◌∷◌, ite, if◌then◌else◌, ◌≡◌, refl, sym, subst, ◌⊎◌, inl, inr, Any, ap, ◌∙◌,
  arith,
}
use protun.Vectors.{contains, insert, filter_insert, distinct}

module _ {ℓ} {A : Type ℓ} (eq : Discrete A) where
  abbrev pub remove : A → List A → List A
  remove x [] = []
  remove x (y ∷ ys) = let rest = remove x ys in ite (eq y x) rest (y ∷ rest)

  -- Each element where it comes first.
  abbrev pub firsts : List A → List A
  firsts [] = []
  firsts (x ∷ xs) = x ∷ remove x (firsts xs)

  abbrev remove_all : List A → List A → List A
  remove_all set [] = []
  remove_all set (y ∷ ys) =
      let rest = remove_all set ys in if contains eq set y then rest else y ∷ rest

  remove_all_known :
      (set : List A) (x : A) (ys : List A)
      → contains eq set x ≡ true
      → remove_all set (remove x ys) ≡ remove_all set ys
  remove_all_known set x [] known = refl
  remove_all_known set x (y ∷ ys) known = ground (arith, remove_all_known set x ys known)

  remove_all_insert_test :
      (set : List A) (x y : A) (ys : List A) (same : Dec (y ≡ x))
      → remove_all (x ∷ set) ys ≡ remove_all set (remove x ys)
      → (if ite same true (contains eq set y)
          then remove_all (x ∷ set) ys
          else y ∷ remove_all (x ∷ set) ys)
        ≡ remove_all set (ite same (remove x ys) (y ∷ remove x ys))
  remove_all_insert_test set x y ys (yes e) rest = rest
  remove_all_insert_test set x y ys (no ne) rest =
      ap (λ zs. if contains eq set y then zs else y ∷ zs) rest

  remove_all_insert :
      (set : List A) (x : A) (ys : List A) → remove_all (x ∷ set) ys ≡ remove_all set (remove x ys)
  unfolding contains
  remove_all_insert set x [] = refl
  remove_all_insert set x (y ∷ ys) =
      remove_all_insert_test set x y ys (eq y x) (remove_all_insert set x ys)

  remove_all_none : (ys : List A) → remove_all [] ys ≡ ys
  unfolding contains
  remove_all_none [] = refl
  remove_all_none (y ∷ ys) = ap (λ zs. y ∷ zs) (remove_all_none ys)

  filter_insert_lem : (set xs : List A) → filter_insert eq set xs ≡ remove_all set (firsts xs)
  unfolding filter_insert insert
  filter_insert_lem set [] = refl
  filter_insert_lem set (x ∷ xs) = ground (
    arith,
    filter_insert_lem set xs,
    filter_insert_lem (x ∷ set) xs,
    remove_all_known set x (firsts xs),
    remove_all_insert set x (firsts xs),
  )

  -- For each list, `distinct` keeps each of its elements once, where the element comes first, in the
  -- order of the list.
  pub distinct-eq-firsts : (xs : List A) → distinct eq xs ≡ firsts xs
  unfolding distinct
  distinct-eq-firsts xs = filter_insert_lem [] xs ∙ remove_all_none (firsts xs)

  Any-remove_test :
      (P : A → Type 0) (x y : A) (ys : List A) (same : Dec (y ≡ x))
      → Any P (y ∷ ys)
      → P x ⊎ Any P (ite same ys (y ∷ ys))
  Any-remove_test P x y ys (yes e) (inl p) = inl (subst P e p)
  Any-remove_test P x y ys (yes e) (inr h) = inr h
  Any-remove_test P x y ys (no ne) h = inr h

  Any-remove : (P : A → Type 0) (x : A) (ys : List A) → Any P ys → P x ⊎ Any P (remove x ys)
  Any-remove P x [] h = inr h
  Any-remove P x (y ∷ ys) (inl p) = Any-remove_test P x y (remove x ys) (eq y x) (inl p)
  Any-remove P x (y ∷ ys) (inr h) = elim (Any-remove P x ys h) [
    | inl p ↦ inl p
    | inr q ↦ Any-remove_test P x y (remove x ys) (eq y x) (inr q)
  ]

  Any-firsts : (P : A → Type 0) (xs : List A) → Any P xs → Any P (firsts xs)
  Any-firsts P [] h = h
  Any-firsts P (x ∷ xs) (inl p) = inl p
  Any-firsts P (x ∷ xs) (inr h) = Any-remove P x (firsts xs) (Any-firsts P xs h)

  -- What holds of some element holds of one that is kept.
  pub Any-distinct : (P : A → Type 0) (xs : List A) → Any P xs → Any P (distinct eq xs)
  Any-distinct P xs h = subst (Any P) (sym (distinct-eq-firsts xs)) (Any-firsts P xs h)
