-- ===== src/Windows/Interfaces/Best.antt =====
-- connection/windows/helpers/local_ip_finder.rs: to sort the interfaces and take the first of a protocol
-- is to take the best one.
use protun.Base.{
  ◌≡◌, refl, sym, ◌∙◌, ap, true, false, Option, none, some, List, [], ◌∷◌, ltb, if_elim, All,
  if◌then◌else◌, arith,
}
use protun.Windows.Interfaces.{
  InternetInterface, ipv4, ipv6, Ipv4InternetInterface, Ipv6InternetInterface, effective_metric,
  effective_metric_v6, key_le, insert, sort_by_key, find_v4, find_v6,
}

-- The interface in front, unless a later one has a lower metric.
abbrev pub better_v4 : Ipv4InternetInterface → Option Ipv4InternetInterface → Ipv4InternetInterface
better_v4 i none = i
better_v4 i (some j) = if ltb (effective_metric j) (effective_metric i) then j else i

abbrev pub better_v6 : Ipv6InternetInterface → Option Ipv6InternetInterface → Ipv6InternetInterface
better_v6 i none = i
better_v6 i (some j) = if ltb (effective_metric_v6 j) (effective_metric_v6 i) then j else i

-- The interface of the lowest metric, the first such one.
abbrev pub best_v4 : List InternetInterface → Option Ipv4InternetInterface
best_v4 [] = none
best_v4 (ipv4 i ∷ is) = some (better_v4 i (best_v4 is))
best_v4 (ipv6 i ∷ is) = best_v4 is

abbrev pub best_v6 : List InternetInterface → Option Ipv6InternetInterface
best_v6 [] = none
best_v6 (ipv4 i ∷ is) = best_v6 is
best_v6 (ipv6 i ∷ is) = some (better_v6 i (best_v6 is))

abbrev IsBelow : InternetInterface → List InternetInterface → Type 0
IsBelow i = All (λ j. key_le i j ≡ true)

abbrev IsSorted : List InternetInterface → Type 0
IsSorted [] = Unit
IsSorted (i ∷ is) = IsBelow i is × IsSorted is

key_le_total : (i j : InternetInterface) → key_le i j ≡ false → key_le j i ≡ true
unfolding key_le
key_le_total (ipv4 i) (ipv4 j) h = ground arith
key_le_total (ipv4 i) (ipv6 j) h = cc
key_le_total (ipv6 i) (ipv4 j) h = refl
key_le_total (ipv6 i) (ipv6 j) h = ground arith

key_le_trans :
    (i j k : InternetInterface) → key_le i j ≡ true → key_le j k ≡ true → key_le i k ≡ true
unfolding key_le
key_le_trans (ipv4 i) (ipv4 j) (ipv4 k) h g = ground arith
key_le_trans (ipv4 i) j (ipv6 k) h g = refl
key_le_trans (ipv4 i) (ipv6 j) (ipv4 k) h g = cc
key_le_trans (ipv6 i) (ipv4 j) k h g = cc
key_le_trans (ipv6 i) (ipv6 j) (ipv4 k) h g = cc
key_le_trans (ipv6 i) (ipv6 j) (ipv6 k) h g = ground arith

IsBelow-trans :
    (i j : InternetInterface) (js : List InternetInterface)
    → key_le i j ≡ true
    → IsBelow j js
    → IsBelow i js
IsBelow-trans i j [] h below = tt
IsBelow-trans i j (k ∷ ks) h below = (key_le_trans i j k h below.0, IsBelow-trans i j ks h below.1)

IsBelow-insert :
    (i j : InternetInterface) (js : List InternetInterface)
    → key_le j i ≡ true
    → IsBelow j js
    → IsBelow j (insert i js)
unfolding insert
IsBelow-insert i j [] h below = (h, tt)
IsBelow-insert i j (k ∷ ks) h below =
    if_elim (IsBelow j) (key_le i k) (λ e. (h, below))
      (λ e. (below.0, IsBelow-insert i j ks h below.1))

insert-IsSorted :
    (i : InternetInterface) (js : List InternetInterface) → IsSorted js → IsSorted (insert i js)
unfolding insert
insert-IsSorted i [] sorted = (tt, tt)
insert-IsSorted i (j ∷ js) sorted =
    if_elim IsSorted (key_le i j) (λ e. ((e, IsBelow-trans i j js e sorted.0), sorted))
      (λ e. (IsBelow-insert i j js (key_le_total i j e) sorted.0, insert-IsSorted i js sorted.1))

sort_by_key-IsSorted : (is : List InternetInterface) → IsSorted (sort_by_key is)
unfolding sort_by_key
sort_by_key-IsSorted [] = tt
sort_by_key-IsSorted (i ∷ is) = insert-IsSorted i (sort_by_key is) (sort_by_key-IsSorted is)

-- Behind an interface for IPv6 there is none for IPv4.
find_v4_above :
    (i : Ipv6InternetInterface) (js : List InternetInterface)
    → IsBelow (ipv6 i) js
    → find_v4 js ≡ none
unfolding key_le
find_v4_above i [] below = refl
find_v4_above i (ipv4 j ∷ js) below = cc (below.0)
find_v4_above i (ipv6 j ∷ js) below = find_v4_above i js below.1

find_v4-insert_v6 :
    (i : Ipv6InternetInterface) (js : List InternetInterface)
    → find_v4 (insert (ipv6 i) js) ≡ find_v4 js
unfolding insert key_le
find_v4-insert_v6 i [] = refl
find_v4-insert_v6 i (ipv4 j ∷ js) = refl
find_v4-insert_v6 i (ipv6 j ∷ js) = ground (arith, find_v4-insert_v6 i js)

find_v4-insert :
    (i : Ipv4InternetInterface) (js : List InternetInterface)
    → IsSorted js
    → find_v4 (insert (ipv4 i) js) ≡ some (better_v4 i (find_v4 js))
unfolding insert key_le
find_v4-insert i [] sorted = refl
find_v4-insert i (ipv4 j ∷ js) sorted = ground arith
find_v4-insert i (ipv6 j ∷ js) sorted =
    ap (λ o. some (better_v4 i o)) (sym (find_v4_above j js sorted.0))

find_v6-insert_v4 :
    (i : Ipv4InternetInterface) (js : List InternetInterface)
    → find_v6 (insert (ipv4 i) js) ≡ find_v6 js
unfolding insert key_le
find_v6-insert_v4 i [] = refl
find_v6-insert_v4 i (ipv4 j ∷ js) = ground (arith, find_v6-insert_v4 i js)
find_v6-insert_v4 i (ipv6 j ∷ js) = refl

find_v6-insert :
    (i : Ipv6InternetInterface) (js : List InternetInterface)
    → IsSorted js
    → find_v6 (insert (ipv6 i) js) ≡ some (better_v6 i (find_v6 js))
unfolding insert key_le
find_v6-insert i [] sorted = refl
find_v6-insert i (ipv4 j ∷ js) sorted = find_v6-insert i js sorted.1
find_v6-insert i (ipv6 j ∷ js) sorted = ground arith

-- Of the sorted interfaces the first for a protocol is the one of the lowest effective metric, and among
-- those of one metric the first that was found.
pub find-sort_by_key :
    (is : List InternetInterface)
    → (find_v4 (sort_by_key is) ≡ best_v4 is) × (find_v6 (sort_by_key is) ≡ best_v6 is)
unfolding sort_by_key
find-sort_by_key [] = (refl, refl)
find-sort_by_key (ipv4 i ∷ is) = (
  find_v4-insert i (sort_by_key is) (sort_by_key-IsSorted is)
      ∙ ap (λ o. some (better_v4 i o)) (find-sort_by_key is).0,
  find_v6-insert_v4 i (sort_by_key is) ∙ (find-sort_by_key is).1,
)
find-sort_by_key (ipv6 i ∷ is) = (
  find_v4-insert_v6 i (sort_by_key is) ∙ (find-sort_by_key is).0,
  find_v6-insert i (sort_by_key is) (sort_by_key-IsSorted is)
      ∙ ap (λ o. some (better_v6 i o)) (find-sort_by_key is).1,
)
