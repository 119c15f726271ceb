-- ===== src/Connection/PeerSync.antt =====
-- connection/pvpn_connection.rs: the peers that the client holds after `update_peers`. The client's
-- peers are a table from their addresses.
pub mod Members
use protun.Base.{
  ◌≡◌, refl, sym, ◌∙◌, ap, subst, Bool, true, false, ◌||◌, ◌&&◌, not, Option, none, some, List, [],
  ◌∷◌, ite, if◌then◌else◌, if_elim, ite_elim, arith, inl, inr, Option-cases, Bool-cases,
}
use protun.Api.Config.{PeerInfo}
use protun.Client.Tunnel.{PeerAddr, Peer}
use protun.Peers.{contains}
use protun.Peers.Unique.{IsUnique}
use protun.Convert.{addr, as_peer}
use protun.Connection.State.{Deps, PvpnConnection}
use protun.Connection.Messages.{remove_old, add_new, update_peers, PeerInfos-discrete}
use Members.{
  PeerAddr-discrete, or_else, lookup, removed, added, lookup-some, lookup_unique, added-some,
  added_complete, removed-true, removed_complete,
}
use mathlib.Core.Option

-- A client with a table of its peers, in which a new peer replaces the one that has its address.
pub record PeerTable (deps : Deps) : Type 0 where
  pub table : deps.client.Client → PeerAddr → Option Peer
  pub added_peer :
      (client : deps.client.Client) (p : Peer) (a : PeerAddr)
      → table (deps.client.peer_add client p) a
        ≡ ite (PeerAddr-discrete p.addr a) (some p) (table client a)
  pub removed_peer :
      (client : deps.client.Client) (b a : PeerAddr)
      → table (deps.client.peer_remove client b) a
        ≡ ite (PeerAddr-discrete b a) none (table client a)

module _ (deps : Deps) (t : PeerTable deps) where
  abbrev Client : Type 0
  Client = deps.client.Client

  -- The client holds the peers of the list, each under its address, and no other peer.
  abbrev pub InSync : List PeerInfo → Client → Type 0
  InSync peers client = (a : PeerAddr) → t.table client a ≡ Option.map as_peer (lookup peers a)

  remove_old-table :
      (new_peers ps : List PeerInfo) (client : Client) (a : PeerAddr)
      → t.table (remove_old deps new_peers ps client) a
        ≡ (if removed new_peers ps a then none else t.table client a)
  unfolding remove_old
  remove_old-table new_peers [] client a = refl
  remove_old-table new_peers (p ∷ ps) client a = ground (
    arith,
    remove_old-table new_peers ps client a,
    remove_old-table new_peers ps (deps.client.peer_remove client (addr p)) a,
    t.removed_peer client (addr p) a,
  )

  add_new-table :
      (old ps : List PeerInfo) (client : Client) (a : PeerAddr)
      → t.table (add_new deps old ps client) a
        ≡ or_else (Option.map as_peer (added old ps a)) (t.table client a)
  unfolding add_new as_peer
  add_new-table old [] client a = refl
  add_new-table old (p ∷ ps) client a = ground (
    arith,
    add_new-table old ps client a,
    add_new-table old ps (deps.client.peer_add client (as_peer p)) a,
    t.added_peer client (as_peer p) a,
  )

  removed_only :
      (old new_peers : List PeerInfo) (a : PeerAddr) (q : PeerInfo)
      → IsUnique old
      → lookup old a ≡ some q
      → removed new_peers old a ≡ true
      → contains new_peers q ≡ false
  removed_only old new_peers a q u found h =
      let (p, has, e, n) = removed-true new_peers old a h in
      ground (arith, lookup_unique old a p u has e)

  kept :
      (old new_peers : List PeerInfo)
      → IsUnique old
      → IsUnique new_peers
      → (a : PeerAddr) → added old new_peers a ≡ none
      → (if removed new_peers old a then none else Option.map as_peer (lookup old a))
        ≡ Option.map as_peer (lookup new_peers a)
  kept old new_peers u w a not_added = elim (Option-cases (lookup new_peers a)) [
    | inr (q, found) ↦
        let (has, e) = lookup-some new_peers a q found in
        ground (
          arith,
          found,
          added_complete old new_peers a q has e,
          lookup_unique old a q u,
          removed_only old new_peers a q u,
        )
    | inl missing ↦ elim (Option-cases (lookup old a)) [
      | inl none_there ↦ ground (arith, missing, none_there)
      | inr (p, there) ↦
          let (has, e) = lookup-some old a p there in
          ground (
            arith,
            missing,
            there,
            lookup_unique new_peers a p w,
            removed_complete new_peers old a p has e,
          )
    ]
  ]

  combined :
      (old new_peers : List PeerInfo)
      → IsUnique old
      → IsUnique new_peers
      → (a : PeerAddr)
      → or_else
          (Option.map as_peer (added old new_peers a))
          (if removed new_peers old a then none else Option.map as_peer (lookup old a))
        ≡ Option.map as_peer (lookup new_peers a)
  combined old new_peers u w a = elim (Option-cases (added old new_peers a)) [
    | inr (q, is_added) ↦
        let (has, e) = added-some old new_peers a q is_added in
        rw (is_added, lookup_unique new_peers a q w has e) refl
    | inl not_added ↦ rw not_added (kept old new_peers u w a not_added)
  ]

  synced :
      (old new_peers : List PeerInfo) (client : Client)
      → IsUnique old
      → IsUnique new_peers
      → InSync old client
      → InSync new_peers (add_new deps old new_peers (remove_old deps new_peers old client))
  synced old new_peers client u w h a =
      add_new-table old new_peers (remove_old deps new_peers old client) a
      ∙ ap (or_else (Option.map as_peer (added old new_peers a))) (
          remove_old-table new_peers old client a
          ∙ ap (λ o. if removed new_peers old a then none else o) (h a))
      ∙ combined old new_peers u w a

  -- An update of the peers leaves the client with the new peers, each as it is now and under its
  -- address, and with no other, if it held the old ones before and no two of a list have one address.
  -- So a peer that is changed is replaced, and one that is in both lists is there after it as before it.
  pub update_peers-InSync :
      (c : PvpnConnection deps) (new_peers : List PeerInfo)
      → IsUnique c.peers
      → IsUnique new_peers
      → InSync c.peers c.client
      → InSync new_peers (update_peers deps c new_peers).client
        × ((update_peers deps c new_peers).peers ≡ new_peers)
  unfolding update_peers
  update_peers-InSync c new_peers u w h =
      ite_elim (λ (d : PvpnConnection deps). InSync new_peers d.client × (d.peers ≡ new_peers))
        (PeerInfos-discrete c.peers new_peers) (λ e. (subst (λ ps. InSync ps c.client) e h, e))
        (λ differ. (synced c.peers new_peers c.client u w h, refl))
