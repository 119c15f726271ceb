-- ===== src/Vectors.antt =====
-- utils/vector.rs: VecDistinct, and the split of addresses by their protocol.
pub mod Firsts
use protun.Base.{ℕ, Bool, true, false, List, [], ◌∷◌, ite, if◌then◌else◌, ◌++◌}
use protun.Io.{IpAddr, v4, v6}

module _ {ℓ} {A : Type ℓ} (eq : Discrete A) where
  -- `HashSet::contains`, for a set that is a list of its elements.
  unfoldable pub contains : List A → A → Bool
  contains [] x = false
  contains (y ∷ set) x = ite (eq x y) true (contains set x)

  -- `HashSet::insert`: the set, and whether the element is new to it.
  unfoldable pub insert : List A → A → List A × Bool
  insert set x = if contains set x then (set, false) else (x ∷ set, true)

  -- `self.into_iter().filter(|x| set.insert(*x))`.
  unfoldable pub filter_insert : List A → List A → List A
  filter_insert set [] = []
  filter_insert set (x ∷ xs) =
      let (set', is_new) = insert set x in
      let rest = filter_insert set' xs in if is_new then x ∷ rest else rest

  unfoldable pub distinct : List A → List A
  distinct xs = filter_insert [] xs

  -- `self.retain(|x| set.insert(*x))`: the vector after the change.
  unfoldable pub distinct_mut : List A → List A
  distinct_mut xs = filter_insert [] xs

-- The loop over the addresses that are left, with the two vectors that it fills.
unfoldable pub split_into : List IpAddr → List ℕ → List ℕ → List ℕ × List ℕ
split_into [] ipv4 ipv6 = (ipv4, ipv6)
split_into (v4 a ∷ ips) ipv4 ipv6 = split_into ips (ipv4 ++ (a ∷ [])) ipv6
split_into (v6 a ∷ ips) ipv4 ipv6 = split_into ips ipv4 (ipv6 ++ (a ∷ []))

unfoldable pub split_ips_by_protocol : List IpAddr → List ℕ × List ℕ
split_ips_by_protocol ips = split_into ips [] []
