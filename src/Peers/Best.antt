-- ===== src/Peers/Best.antt =====
-- connection/sanitized_peers.rs: what is kept, described with no indices.
use protun.Base.{
  ℕ, ◌+◌, ◌<◌, ◌≡◌, refl, ap, sym, ◌∙◌, Bool, true, false, ◌||◌, ◌&&◌, not, Option, none, some,
  List, [], ◌∷◌, ◌++◌, ◌==◌, if◌then◌else◌, arith, ◌↔◌, ◌⊎◌, inl, inr,
}
use protun.Base.Int.{ℤ, ltb_ℤ}
use protun.Io.{IpAddr, v4, v6}
use protun.Api.Config.{PeerInfo}
use protun.Peers.{
  ip_eq, BestPeers, contains_idx, compare_with, scan, keep, no_best, find_duplicates, select, from,
}

pub ip_eq_iff : (a b : IpAddr) → (ip_eq a b ≡ true) ↔ (a ≡ b)
ip_eq_iff (v4 a) (v4 b) = ground arith
ip_eq_iff (v4 a) (v6 b) = ground arith
ip_eq_iff (v6 a) (v4 b) = ground arith
ip_eq_iff (v6 a) (v6 b) = ground arith

-- Some peer of the list has the address and a priority number that is not above `x`.
abbrev pub any_at_most : IpAddr → ℤ → List PeerInfo → Bool
any_at_most ip x [] = false
any_at_most ip x (q ∷ qs) =
    (ip_eq ip q.server_ip && not (ltb_ℤ x q.priority)) || any_at_most ip x qs

-- Some peer of the list has the address and a smaller priority number.
abbrev pub any_below : IpAddr → ℤ → List PeerInfo → Bool
any_below ip x [] = false
any_below ip x (q ∷ qs) = (ip_eq ip q.server_ip && ltb_ℤ q.priority x) || any_below ip x qs

-- Each peer is kept unless one before it is as good, or one after it is better.
unfoldable pub best_peers : List PeerInfo → List PeerInfo → List PeerInfo
best_peers before [] = []
best_peers before (p ∷ after) =
    if any_at_most p.server_ip p.priority before || any_below p.server_ip p.priority after
    then best_peers (p ∷ before) after
    else p ∷ best_peers (p ∷ before) after

contains_idx-snoc :
    (xs : List ℕ) (x i : ℕ) → contains_idx (xs ++ x ∷ []) i ≡ (contains_idx xs i || x == i)
contains_idx-snoc [] x i = ground arith
contains_idx-snoc (y ∷ ys) x i = ground (arith, contains_idx-snoc ys x i)

-- The address has a peer whose priority number is not above `x`, by the map.
abbrev at_most : Option (ℕ × ℤ) → ℤ → Bool
at_most none x = false
at_most (some (j, b)) x = not (ltb_ℤ x b)

-- What the first loop knows before the peer at `index`: `before` holds those seen, last one first.
record Inv (index : ℕ) (before : List PeerInfo) (best : BestPeers) (dups : List ℕ) : Type 0 where
  below : (ip : IpAddr) (j : ℕ) (b : ℤ) → best ip ≡ some (j, b) → j < index
  apart :
      (ip ip' : IpAddr) (j : ℕ) (b b' : ℤ)
      → best ip ≡ some (j, b)
      → best ip' ≡ some (j, b')
      → ip ≡ ip'
  live : (ip : IpAddr) (j : ℕ) (b : ℤ) → best ip ≡ some (j, b) → contains_idx dups j ≡ false
  marked : (j : ℕ) → contains_idx dups j ≡ true → j < index
  summary : (ip : IpAddr) (x : ℤ) → any_at_most ip x before ≡ at_most (best ip) x

module _ (index : ℕ) (before : List PeerInfo) (p : PeerInfo) (best : BestPeers)
    (dups : List ℕ) where
  abbrev Next : Option (ℕ × ℤ) → Type 0
  Next o =
      let (best', dups') = compare_with o index p best dups in
      Inv (index + 1) (p ∷ before) best' dups'

  compare_with-Inv :
      (o : Option (ℕ × ℤ)) → best p.server_ip ≡ o → Inv index before best dups → Next o
  unfolding compare_with
  compare_with-Inv none e v = record {
    below = λ ip j b h. ground (arith, v.below ip j b);
    apart = λ ip ip' j b b' h h'. ground (
      arith,
      v.apart ip ip' j b b',
      v.below ip j b,
      v.below ip' j b',
      ip_eq_iff ip p.server_ip,
      ip_eq_iff ip' p.server_ip,
    );
    live = λ ip j b h. ground (arith, v.live ip j b, v.marked index);
    marked = λ j h. ground (arith, v.marked j);
    summary = λ ip x. ground (arith, v.summary ip x, ip_eq_iff ip p.server_ip);
  }
  compare_with-Inv (some (i, a)) e v = record {
    below = λ ip j b h. ground (arith, v.below ip j b);
    apart = λ ip ip' j b b' h h'. ground (
      arith,
      v.apart ip ip' j b b',
      v.below ip j b,
      v.below ip' j b',
      ip_eq_iff ip p.server_ip,
      ip_eq_iff ip' p.server_ip,
    );
    live = λ ip j b h. ground (
      arith,
      v.live ip j b,
      v.marked index,
      v.below ip j b,
      v.below p.server_ip i a,
      contains_idx-snoc dups i j,
      contains_idx-snoc dups index j,
      v.apart ip p.server_ip i b a,
      ip_eq_iff ip p.server_ip,
    );
    marked = λ j h. ground (
      arith,
      v.marked j,
      contains_idx-snoc dups i j,
      contains_idx-snoc dups index j,
      v.below p.server_ip i a,
    );
    summary = λ ip x. ground (arith, v.summary ip x, ip_eq_iff ip p.server_ip);
  }

contains_idx-compare_with :
    (o : Option (ℕ × ℤ)) (index : ℕ) (p : PeerInfo) (best : BestPeers) (dups : List ℕ) (i : ℕ)
    → contains_idx dups i ≡ true
    → contains_idx (compare_with o index p best dups).1 i ≡ true
unfolding compare_with
contains_idx-compare_with none index p best dups i h = h
contains_idx-compare_with (some (j, b)) index p best dups i h =
    ground (arith, contains_idx-snoc dups j i, contains_idx-snoc dups index i)

-- An index once marked stays marked.
contains_idx-scan :
    (index : ℕ) (ps : List PeerInfo) (best : BestPeers) (dups : List ℕ) (i : ℕ)
    → contains_idx dups i ≡ true
    → contains_idx (scan index ps best dups) i ≡ true
unfolding scan
contains_idx-scan index [] best dups i h = h
contains_idx-scan index (p ∷ ps) best dups i h =
    contains_idx-scan (index + 1) ps _ _ i
      (contains_idx-compare_with (best p.server_ip) index p best dups i h)

-- A round leaves the best peer of an address, or marks it if the peer at hand is better.
compare_with-best :
    (o : Option (ℕ × ℤ)) (index : ℕ) (p : PeerInfo) (best : BestPeers) (dups : List ℕ) (ip : IpAddr)
    (j : ℕ) (b : ℤ)
    → best p.server_ip ≡ o
    → best ip ≡ some (j, b)
    → let better = ip_eq ip p.server_ip && ltb_ℤ p.priority b in
      let (best', dups') = compare_with o index p best dups in
      ((better ≡ false) × (best' ip ≡ some (j, b)))
      ⊎ ((better ≡ true) × (contains_idx dups' j ≡ true))
unfolding compare_with
compare_with-best none index p best dups ip j b e h = ground (arith, ip_eq_iff ip p.server_ip)
compare_with-best (some (i, a)) index p best dups ip j b e h =
    ground (arith, ip_eq_iff ip p.server_ip, contains_idx-snoc dups i j)

-- The best peer so far is dropped exactly if a better one for its address follows.
best-dropped :
    (index : ℕ) (before ps : List PeerInfo) (best : BestPeers) (dups : List ℕ) (ip : IpAddr) (j : ℕ)
    (b : ℤ)
    → Inv index before best dups
    → best ip ≡ some (j, b)
    → contains_idx (scan index ps best dups) j ≡ any_below ip b ps
unfolding scan
best-dropped index before [] best dups ip j b v e = v.live ip j b e
best-dropped index before (p ∷ ps) best dups ip j b v e =
    elim (compare_with-best (best p.server_ip) index p best dups ip j b refl e) [
      | inl (not_better, still) ↦ rw not_better (
          best-dropped (index + 1) (p ∷ before) ps _ _ ip j b
            (compare_with-Inv index before p best dups (best p.server_ip) refl v) still)
      | inr (better, dropped) ↦ rw better (contains_idx-scan (index + 1) ps _ _ j dropped)
    ]

-- A round makes the peer at hand the best of its address, or marks it if one before is as good.
compare_with-index :
    (o : Option (ℕ × ℤ)) (index : ℕ) (before : List PeerInfo) (p : PeerInfo) (best : BestPeers)
    (dups : List ℕ)
    → best p.server_ip ≡ o
    → Inv index before best dups
    → let as_good = any_at_most p.server_ip p.priority before in
      let (best', dups') = compare_with o index p best dups in
      ((as_good ≡ false) × (best' p.server_ip ≡ some (index, p.priority)))
      ⊎ ((as_good ≡ true) × (contains_idx dups' index ≡ true))
unfolding compare_with
compare_with-index none index before p best dups e v =
    ground (arith, v.summary p.server_ip p.priority, ip_eq_iff p.server_ip p.server_ip)
compare_with-index (some (i, a)) index before p best dups e v = ground (
  arith,
  v.summary p.server_ip p.priority,
  ip_eq_iff p.server_ip p.server_ip,
  contains_idx-snoc dups index index,
)

-- The peer at hand is dropped exactly if one before it is as good or one after it is better.
index-dropped :
    (index : ℕ) (before ps : List PeerInfo) (p : PeerInfo) (best : BestPeers) (dups : List ℕ)
    → Inv index before best dups
    → contains_idx (scan index (p ∷ ps) best dups) index
      ≡ (any_at_most p.server_ip p.priority before || any_below p.server_ip p.priority ps)
unfolding scan
index-dropped index before ps p best dups v =
    elim (compare_with-index (best p.server_ip) index before p best dups refl v) [
      | inl (not_as_good, is_best) ↦ rw not_as_good (
          best-dropped (index + 1) (p ∷ before) ps _ _ p.server_ip index p.priority
            (compare_with-Inv index before p best dups (best p.server_ip) refl v) is_best)
      | inr (as_good, dropped) ↦ rw as_good (contains_idx-scan (index + 1) ps _ _ index dropped)
    ]

keep-scan :
    (index : ℕ) (before ps : List PeerInfo) (best : BestPeers) (dups : List ℕ)
    → Inv index before best dups
    → keep index (scan index ps best dups) ps ≡ best_peers before ps
unfolding scan keep best_peers
keep-scan index before [] best dups v = refl
keep-scan index before (p ∷ ps) best dups v = rw (
  index-dropped index before ps p best dups v,
  keep-scan (index + 1) (p ∷ before) ps _ _
      (compare_with-Inv index before p best dups (best p.server_ip) refl v),
)

no_best-Inv : Inv 0 [] no_best []
no_best-Inv = record {
  below = λ ip j b h. cc;
  apart = λ ip ip' j b b' h h'. cc;
  live = λ ip j b h. refl;
  marked = λ j h. cc;
  summary = λ ip x. refl;
}

keep-none : (index : ℕ) (ps : List PeerInfo) → keep index [] ps ≡ ps
unfolding keep
keep-none index [] = refl
keep-none index (p ∷ ps) = ap (◌∷◌ p) (keep-none (index + 1) ps)

select-keep : (ps : List PeerInfo) (dups : List ℕ) → select ps dups ≡ keep 0 dups ps
select-keep ps [] = sym (keep-none 0 ps)
select-keep ps (i ∷ is) = refl

-- The two loops over a hash map and indices keep exactly the peers to which no earlier peer of the
-- same address is equal or better and no later one is better, in their order.
pub from-eq-best_peers : (peers : List PeerInfo) → from peers ≡ best_peers [] peers
unfolding from find_duplicates
from-eq-best_peers peers =
    select-keep peers (scan 0 peers no_best []) ∙ keep-scan 0 [] peers no_best [] no_best-Inv
