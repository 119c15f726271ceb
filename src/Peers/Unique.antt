-- ===== src/Peers/Unique.antt =====
-- connection/sanitized_peers.rs: one peer for each address, and the best one.
use protun.Base.{
  ℕ, ◌+◌, ◌≤◌, ◌≡◌, refl, ap, ◌∙◌, Bool, true, false, ◌||◌, ◌&&◌, not, Option, none, some, List, [],
  ◌∷◌, arith, length, length-append, Bool-cases, inl, inr, subst, ◌↔◌,
}
use protun.Base.Int.{ℤ, ltb_ℤ}
use protun.Io.{IpAddr}
use protun.Api.Config.{PeerInfo}
use protun.Peers.{ip_eq, BestPeers, compare_with, visit, scan, no_best, find_duplicates, from}
use protun.Peers.Best.{ip_eq_iff, any_at_most, any_below, best_peers, from-eq-best_peers}

abbrev pub has_ip : IpAddr → List PeerInfo → Bool
has_ip ip [] = false
has_ip ip (q ∷ qs) = ip_eq ip q.server_ip || has_ip ip qs

-- No two peers of the list have one address.
abbrev pub IsUnique : List PeerInfo → Type 0
IsUnique [] = Unit
IsUnique (p ∷ ps) = (has_ip p.server_ip ps ≡ false) × IsUnique ps

any_at_most_mono :
    (ip : IpAddr) (x y : ℤ) (ps : List PeerInfo)
    → ltb_ℤ y x ≡ false
    → any_at_most ip x ps ≡ true
    → any_at_most ip y ps ≡ true
any_at_most_mono ip x y [] le h = h
any_at_most_mono ip x y (p ∷ ps) le h = ground (arith, any_at_most_mono ip x y ps le)

any_below_mono :
    (ip : IpAddr) (x y : ℤ) (ps : List PeerInfo)
    → ltb_ℤ y x ≡ false
    → any_below ip x ps ≡ true
    → any_below ip y ps ≡ true
any_below_mono ip x y [] le h = h
any_below_mono ip x y (p ∷ ps) le h = ground (arith, any_below_mono ip x y ps le)

any_below-at_most :
    (ip : IpAddr) (x y : ℤ) (ps : List PeerInfo)
    → ltb_ℤ y x ≡ false
    → any_below ip x ps ≡ true
    → any_at_most ip y ps ≡ true
any_below-at_most ip x y [] le h = cc
any_below-at_most ip x y (p ∷ ps) le h = ground (arith, any_below-at_most ip x y ps le)

any_at_most-below :
    (ip : IpAddr) (x y : ℤ) (ps : List PeerInfo)
    → ltb_ℤ x y ≡ true
    → any_at_most ip x ps ≡ true
    → any_below ip y ps ≡ true
any_at_most-below ip x y [] lt h = cc
any_at_most-below ip x y (p ∷ ps) lt h = ground (arith, any_at_most-below ip x y ps lt)

-- Behind a kept peer its address does not come again.
covered :
    (ip : IpAddr) (x : ℤ) (before ps : List PeerInfo)
    → any_at_most ip x before ≡ true
    → any_below ip x ps ≡ false
    → has_ip ip (best_peers before ps) ≡ false
unfolding best_peers
covered ip x before [] h k = refl
covered ip x before (p ∷ ps) h k = ground (
  arith,
  covered ip x (p ∷ before) ps,
  any_at_most_mono ip x p.priority before,
  ip_eq_iff ip p.server_ip,
)

best_peers-IsUnique : (before ps : List PeerInfo) → IsUnique (best_peers before ps)
unfolding best_peers
best_peers-IsUnique before [] = tt
best_peers-IsUnique before (p ∷ ps) = ground (
  arith,
  best_peers-IsUnique (p ∷ before) ps,
  covered p.server_ip p.priority (p ∷ before) ps,
  ip_eq_iff p.server_ip p.server_ip,
)

-- A better peer for an address, kept or seen before, is there whenever one comes at all.
below-best_peers :
    (ip : IpAddr) (x : ℤ) (before ps : List PeerInfo)
    → (any_below ip x (best_peers before ps) || any_below ip x before)
      ≡ (any_below ip x ps || any_below ip x before)
unfolding best_peers
below-best_peers ip x before [] = refl
below-best_peers ip x before (p ∷ ps) = ground (
  arith,
  below-best_peers ip x (p ∷ before) ps,
  below-best_peers p.server_ip p.priority (p ∷ before) ps,
  any_below_mono ip p.priority x before,
  any_below_mono ip p.priority x (best_peers (p ∷ before) ps),
  any_at_most-below ip p.priority x before,
  ip_eq_iff ip p.server_ip,
)

abbrev matches : IpAddr → ℤ → PeerInfo → Bool
matches ip x p = ip_eq ip p.server_ip && not (ltb_ℤ x p.priority)

-- A dropped peer leaves one of its address that is at least as good, kept or seen before.
dropped_replaced :
    (ip : IpAddr) (x : ℤ) (before ps : List PeerInfo) (p : PeerInfo)
    → (any_at_most p.server_ip p.priority before || any_below p.server_ip p.priority ps) ≡ true
    → matches ip x p ≡ true
    → (any_at_most ip x (best_peers (p ∷ before) ps) || any_at_most ip x before) ≡ true
dropped_replaced ip x before ps p dropped fits = ground (
  arith,
  below-best_peers p.server_ip p.priority (p ∷ before) ps,
  any_below-at_most ip p.priority x before,
  any_below-at_most ip p.priority x (best_peers (p ∷ before) ps),
  any_at_most_mono ip p.priority x before,
  ip_eq_iff ip p.server_ip,
)

or_kept : (t r b s : Bool) → (r || (t || b)) ≡ (s || (t || b)) → ((t || r) || b) ≡ ((t || s) || b)
or_kept t r b s h = ground arith

or_dropped :
    (t r b s : Bool)
    → (r || (t || b)) ≡ (s || (t || b))
    → (t ≡ true → (r || b) ≡ true)
    → (r || b) ≡ ((t || s) || b)
or_dropped t r b s h k = ground arith

at_most-best_peers :
    (ip : IpAddr) (x : ℤ) (before ps : List PeerInfo)
    → (any_at_most ip x (best_peers before ps) || any_at_most ip x before)
      ≡ (any_at_most ip x ps || any_at_most ip x before)
unfolding best_peers
at_most-best_peers ip x before [] = refl
at_most-best_peers ip x before (p ∷ ps) =
    let ih = at_most-best_peers ip x (p ∷ before) ps in
    elim (Bool-cases
      (any_at_most p.server_ip p.priority before || any_below p.server_ip p.priority ps)) [
        | inl dropped ↦
            rw dropped
              (or_dropped (matches ip x p) _ _ _ ih (dropped_replaced ip x before ps p dropped))
        | inr kept ↦ rw kept (
            or_kept (matches ip x p) (any_at_most ip x (best_peers (p ∷ before) ps))
              (any_at_most ip x before) (any_at_most ip x ps) ih)
      ]

or-false : (a b : Bool) → (a || false) ≡ (b || false) → a ≡ b
or-false a b h = ground arith

-- No two of the sanitized peers have one address, and for each address they have a peer of priority
-- number `x` or less exactly if the given peers have one: a peer that ranks first is kept.
pub from-IsUnique :
    (peers : List PeerInfo)
    → IsUnique (from peers)
      × ((ip : IpAddr) (x : ℤ) → any_at_most ip x (from peers) ≡ any_at_most ip x peers)
from-IsUnique peers =
    rw (from-eq-best_peers peers)
      (best_peers-IsUnique [] peers, λ ip x. or-false _ _ (at_most-best_peers ip x [] peers))

-- The peers seen before are of other addresses.
abbrev AllOther : List PeerInfo → List PeerInfo → Type 0
AllOther before [] = Unit
AllOther before (p ∷ ps) = (has_ip p.server_ip before ≡ false) × AllOther before ps

not_at_most :
    (ip : IpAddr) (x : ℤ) (ps : List PeerInfo) → has_ip ip ps ≡ false → any_at_most ip x ps ≡ false
not_at_most ip x [] h = refl
not_at_most ip x (p ∷ ps) h = ground (arith, not_at_most ip x ps)

not_below :
    (ip : IpAddr) (x : ℤ) (ps : List PeerInfo) → has_ip ip ps ≡ false → any_below ip x ps ≡ false
not_below ip x [] h = refl
not_below ip x (p ∷ ps) h = ground (arith, not_below ip x ps)

AllOther-cons :
    (p : PeerInfo) (before ps : List PeerInfo)
    → has_ip p.server_ip ps ≡ false
    → AllOther before ps
    → AllOther (p ∷ before) ps
AllOther-cons p before [] h a = tt
AllOther-cons p before (q ∷ qs) h a = ground (
  arith,
  AllOther-cons p before qs,
  ip_eq_iff p.server_ip q.server_ip,
  ip_eq_iff q.server_ip p.server_ip,
)

best_peers_of_unique :
    (before ps : List PeerInfo) → IsUnique ps → AllOther before ps → best_peers before ps ≡ ps
unfolding best_peers
best_peers_of_unique before [] u a = refl
best_peers_of_unique before (p ∷ ps) u a =
    rw (not_at_most p.server_ip p.priority before a.0, not_below p.server_ip p.priority ps u.0)
      (ap (◌∷◌ p) (best_peers_of_unique (p ∷ before) ps u.1 (AllOther-cons p before ps u.0 a.1)))

AllOther-nil : (ps : List PeerInfo) → AllOther [] ps
AllOther-nil [] = tt
AllOther-nil (p ∷ ps) = (refl, AllOther-nil ps)

-- Sanitizing changes a list exactly if two of its peers have one address; so doing it again changes
-- nothing.
pub from_of_IsUnique : (peers : List PeerInfo) → (from peers ≡ peers) ↔ IsUnique peers
from_of_IsUnique peers = (
  (λ e. subst IsUnique e (from-IsUnique peers).0),
  λ u. from-eq-best_peers peers ∙ best_peers_of_unique [] peers u (AllOther-nil peers),
)

compare_with-le :
    (o : Option (ℕ × ℤ)) (index : ℕ) (p : PeerInfo) (best : BestPeers) (dups : List ℕ)
    → length (compare_with o index p best dups).1 ≤ length dups + 1
unfolding compare_with
compare_with-le none index p best dups = omega arith
compare_with-le (some (j, b)) index p best dups =
    ground (arith, length-append dups (j ∷ []), length-append dups (index ∷ []))

scan-le :
    (index : ℕ) (ps : List PeerInfo) (best : BestPeers) (dups : List ℕ)
    → length (scan index ps best dups) ≤ length dups + length ps
unfolding scan visit
scan-le index [] best dups = omega arith
scan-le index (p ∷ ps) best dups =
    let (best', dups') = compare_with (best p.server_ip) index p best dups in
    omega (
      arith,
      compare_with-le (best p.server_ip) index p best dups,
      scan-le (index + 1) ps best' dups',
    )

-- There are no more indices to drop than peers, so the capacity `peers.len() - duplicates_idx.len()`
-- does not underflow.
pub length-find_duplicates : (peers : List PeerInfo) → length (find_duplicates peers) ≤ length peers
unfolding find_duplicates
length-find_duplicates peers = omega (arith, scan-le 0 peers no_best [])
