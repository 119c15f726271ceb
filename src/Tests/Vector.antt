-- ===== src/Tests/Vector.antt =====
-- The theorem about vectors, tried on a list with repetitions.
use protun.Base.{ℕ, List, [], ◌∷◌, ◌≡◌, refl}
use protun.Io.{v4, v6}
use protun.Vectors.{split_into, split_ips_by_protocol}

abbrev routes : List ℕ
routes = 3 ∷ 1 ∷ 3 ∷ 2 ∷ 1 ∷ []

split_of_three : split_ips_by_protocol (v4 1 ∷ v6 2 ∷ v4 3 ∷ []) ≡ (1 ∷ 3 ∷ [], 2 ∷ [])
unfolding split_ips_by_protocol split_into
split_of_three = refl
