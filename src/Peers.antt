-- ===== src/Peers.antt =====
-- connection/sanitized_peers.rs: peers without a second one for an entry address. The hash map from
-- an address to its best peer so far is a function.
pub mod Best
pub mod Unique
use protun.Base.{
  ℕ, ◌+◌, Bool, true, false, ◌||◌, Option, none, some, List, [], ◌∷◌, ◌++◌, ◌==◌, if◌then◌else◌,
  ite,
}
use protun.Base.Int.{ℤ, ltb_ℤ}
use protun.Io.{IpAddr, v4, v6}
use protun.Api.Config.{PeerInfo, PeerInfo-discrete}

abbrev pub ip_eq : IpAddr → IpAddr → Bool
ip_eq (v4 a) (v4 b) = a == b
ip_eq (v6 a) (v6 b) = a == b
ip_eq _ _ = false

-- The index and the priority of the best peer for an address.
abbrev pub BestPeers : Type 0
BestPeers = IpAddr → Option (ℕ × ℤ)

abbrev pub insert : BestPeers → IpAddr → ℕ × ℤ → BestPeers
insert best ip v k = if ip_eq k ip then some v else best k

abbrev pub contains_idx : List ℕ → ℕ → Bool
contains_idx [] i = false
contains_idx (x ∷ xs) i = x == i || contains_idx xs i

-- One round of the first loop: the peer at `index` against the best one for its address, if any.
pub compare_with : Option (ℕ × ℤ) → ℕ → PeerInfo → BestPeers → List ℕ → BestPeers × List ℕ
compare_with (some (existing_index, existing_priority)) index peer best duplicates_idx =
    if ltb_ℤ peer.priority existing_priority
    then (insert best peer.server_ip (index, peer.priority), duplicates_idx ++ existing_index ∷ [])
    else (best, duplicates_idx ++ index ∷ [])
compare_with none index peer best duplicates_idx =
    (insert best peer.server_ip (index, peer.priority), duplicates_idx)

pub visit : ℕ → PeerInfo → BestPeers → List ℕ → BestPeers × List ℕ
unfolding compare_with
visit index peer best duplicates_idx =
    compare_with (best peer.server_ip) index peer best duplicates_idx

-- The first loop: the indices of the peers to drop, in the order in which they are found.
pub scan : ℕ → List PeerInfo → BestPeers → List ℕ → List ℕ
unfolding visit
scan index [] best duplicates_idx = duplicates_idx
scan index (peer ∷ peers) best duplicates_idx =
    let (best', duplicates') = visit index peer best duplicates_idx in
    scan (index + 1) peers best' duplicates'

-- The second loop.
pub keep : ℕ → List ℕ → List PeerInfo → List PeerInfo
keep index duplicates_idx [] = []
keep index duplicates_idx (peer ∷ peers) =
    if contains_idx duplicates_idx index
    then keep (index + 1) duplicates_idx peers
    else peer ∷ keep (index + 1) duplicates_idx peers

abbrev pub no_best : BestPeers
no_best ip = none

pub find_duplicates : List PeerInfo → List ℕ
unfolding scan
find_duplicates peers = scan 0 peers no_best []

abbrev pub select : List PeerInfo → List ℕ → List PeerInfo
select peers [] = peers
select peers (i ∷ is) = keep 0 (i ∷ is) peers

-- `SanitizedPeers::from`.
unfoldable pub from : List PeerInfo → List PeerInfo
unfolding find_duplicates keep
from peers = select peers (find_duplicates peers)

-- `SanitizedPeers::contains`, by the derived equality of `PeerInfo`.
unfoldable pub contains : List PeerInfo → PeerInfo → Bool
contains [] peer = false
contains (p ∷ ps) peer = ite (PeerInfo-discrete p peer) true (contains ps peer)

unfoldable pub is_empty : List PeerInfo → Bool
is_empty [] = true
is_empty (p ∷ ps) = false
