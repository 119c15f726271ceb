-- ===== src/Connection/PeerSync/Members.antt =====
-- Peers of a list by their addresses, for connection/pvpn_connection.rs.
use protun.Base.{
  ◌≡◌, ◌≢◌, ap, Bool, true, false, ◌||◌, ◌&&◌, not, Option, none, some, List, [], ◌∷◌, ite,
  if◌then◌else◌, inl, inr, arith, ℕ_discrete, Bool-cases,
}
use protun.Api.Config.{PeerInfo}
use protun.Client.Tunnel.{PeerAddr}
use protun.Peers.{contains}
use protun.Peers.Best.{ip_eq_iff}
use protun.Peers.Unique.{IsUnique, has_ip}
use protun.Convert.{addr}
use protun.Convert.Ports.{addr_iff}

pub PeerAddr-discrete : Discrete PeerAddr
PeerAddr-discrete = hlevel ℕ_discrete

abbrev pub lookup : List PeerInfo → PeerAddr → Option PeerInfo
lookup [] a = none
lookup (p ∷ ps) a = ite (PeerAddr-discrete (addr p) a) (some p) (lookup ps a)

-- A peer of this address, of the ones that the second list has and the first lacks.
abbrev pub removed : List PeerInfo → List PeerInfo → PeerAddr → Bool
removed new_peers [] a = false
removed new_peers (p ∷ ps) a =
    (ite (PeerAddr-discrete (addr p) a) true false && not (contains new_peers p))
    || removed new_peers ps a

abbrev pub or_else {ℓ} : {A : Type ℓ} → Option A → Option A → Option A
or_else none o = o
or_else (some a) o = some a

abbrev pub added : List PeerInfo → List PeerInfo → PeerAddr → Option PeerInfo
added old [] a = none
added old (p ∷ ps) a =
    or_else (added old ps a)
      (if contains old p then none else ite (PeerAddr-discrete (addr p) a) (some p) none)

contains-has_ip :
    (ps : List PeerInfo) (q : PeerInfo) → contains ps q ≡ true → has_ip q.server_ip ps ≡ true
unfolding contains
contains-has_ip [] q h = cc
contains-has_ip (p ∷ ps) q h = ground (
  arith,
  contains-has_ip ps q,
  (ip_eq_iff q.server_ip p.server_ip).1,
  ap (λ (p : PeerInfo). p.server_ip) {x = q} {y = p},
)

pub lookup-some :
    (ps : List PeerInfo) (a : PeerAddr) (q : PeerInfo)
    → lookup ps a ≡ some q
    → (contains ps q ≡ true) × (addr q ≡ a)
unfolding contains
lookup-some [] a q h = cc
lookup-some (p ∷ ps) a q h = ground (arith, lookup-some ps a q)

pub lookup_unique :
    (ps : List PeerInfo) (a : PeerAddr) (q : PeerInfo)
    → IsUnique ps
    → contains ps q ≡ true
    → addr q ≡ a
    → lookup ps a ≡ some q
unfolding contains
lookup_unique [] a q u h e = cc
lookup_unique (p ∷ ps) a q u h e =
    ground (arith, lookup_unique ps a q u.1, contains-has_ip ps q, (addr_iff p q).0)

pub added-some :
    (old ps : List PeerInfo) (a : PeerAddr) (q : PeerInfo)
    → added old ps a ≡ some q
    → (contains ps q ≡ true) × (addr q ≡ a)
unfolding contains
added-some old [] a q h = cc
added-some old (p ∷ ps) a q h = ground (arith, added-some old ps a q)

pub added_complete :
    (old ps : List PeerInfo) (a : PeerAddr) (q : PeerInfo)
    → contains ps q ≡ true
    → addr q ≡ a
    → contains old q ≡ false
    → added old ps a ≢ none
unfolding contains
added_complete old [] a q h e fresh = cc
added_complete old (p ∷ ps) a q h e fresh = ground (arith, added_complete old ps a q)

pub removed-true :
    (new_peers ps : List PeerInfo) (a : PeerAddr)
    → removed new_peers ps a ≡ true
    → (p : PeerInfo) × (contains ps p ≡ true) × (addr p ≡ a) × (contains new_peers p ≡ false)
unfolding contains
removed-true new_peers [] a h = cc
removed-true new_peers (p ∷ ps) a h = elim (Bool-cases (removed new_peers ps a)) [
  | inl later ↦ let (q, has, e, n) = removed-true new_peers ps a later in (q, ground arith, e, n)
  | inr here ↦ (p, ground arith, ground arith, ground arith)
]

pub removed_complete :
    (new_peers ps : List PeerInfo) (a : PeerAddr) (p : PeerInfo)
    → contains ps p ≡ true
    → addr p ≡ a
    → contains new_peers p ≡ false
    → removed new_peers ps a ≡ true
unfolding contains
removed_complete new_peers [] a p h e n = cc
removed_complete new_peers (q ∷ ps) a p h e n = ground (arith, removed_complete new_peers ps a p)
