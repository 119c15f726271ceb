-- ===== src/Convert/Ports.antt =====
-- connection/util.rs: what the client is told of a peer.
use protun.Base.{ℕ, ◌-◌, ◌≤◌, ◌≡◌, ap, ◌↔◌, ◌&&◌, not, List, [], ◌∷◌, ◌==◌, arith}
use protun.Base.Int.{ℤ, pos, negsuc, ◌<ℤ◌, ◌≤ℤ◌, to_i16}
use protun.Io.{IpAddr, v4, v6}
use protun.Api.Config.{PeerInfo}
use protun.Peers.{contains_idx}
use protun.Client.Tunnel.{PeerAddr}
use protun.Convert.{to_non_zero_vec, addr, ip_addr, as_peer}

-- Port 0 is dropped and every other port is kept.
pub contains-to_non_zero_vec :
    (ports : List ℕ) (x : ℕ)
    → contains_idx (to_non_zero_vec ports) x ≡ (not (x == 0) && contains_idx ports x)
unfolding to_non_zero_vec
contains-to_non_zero_vec [] x = ground arith
contains-to_non_zero_vec (y ∷ ys) x = ground (arith, contains-to_non_zero_vec ys x)

ip_addr_injective : (a b : IpAddr) → ip_addr a ≡ ip_addr b → a ≡ b
ip_addr_injective (v4 a) (v4 b) e = ground (arith, ap (λ (x : PeerAddr). x.ipv4) e)
ip_addr_injective (v4 a) (v6 b) e = cc (ap (λ (x : PeerAddr). x.ipv4) e)
ip_addr_injective (v6 a) (v4 b) e = cc (ap (λ (x : PeerAddr). x.ipv4) e)
ip_addr_injective (v6 a) (v6 b) e = ground (arith, ap (λ (x : PeerAddr). x.ipv6) e)

-- Two peers have one address for the client exactly if they have one entry address.
pub addr_iff : (p q : PeerInfo) → (addr p ≡ addr q) ↔ (p.server_ip ≡ q.server_ip)
unfolding addr
addr_iff p q = (ip_addr_injective p.server_ip q.server_ip, λ e. ap ip_addr e)

-- The values of an i16.
abbrev pub FitsI16 : ℤ → Type 0
FitsI16 a = (negsuc 32767 ≤ℤ a) × (a ≤ℤ pos 32767)

to_i16_of_fits : (a : ℤ) → FitsI16 a → to_i16 a ≡ a
unfolding to_i16
to_i16_of_fits a h = ground arith

-- Priorities that fit an i16 reach the client as they are, and so in their order.
pub as_peer-priority :
    (p q : PeerInfo)
    → FitsI16 p.priority
    → FitsI16 q.priority
    → ((as_peer p).priority ≡ p.priority)
      × ((as_peer p).priority <ℤ (as_peer q).priority ↔ p.priority <ℤ q.priority)
unfolding as_peer
as_peer-priority p q hp hq =
    let e = to_i16_of_fits p.priority hp in
    let f = to_i16_of_fits q.priority hq in
    (e, ((λ h. ground (arith, e, f)), λ h. ground (arith, e, f)))

to_i16_wraps : (n : ℕ) → 32768 ≤ n → n ≤ 65535 → to_i16 (pos n) ≡ negsuc (65535 - n)
unfolding to_i16
to_i16_wraps n a b = ground arith

to_i16_inverts :
    (p q : ℤ) → pos 0 ≤ℤ p → p ≤ℤ pos 32767 → pos 32768 ≤ℤ q → q ≤ℤ pos 65535 → to_i16 q <ℤ to_i16 p
to_i16_inverts (pos m) (pos n) a b c d =
    rw
      (
        to_i16_wraps n (omega arith) (omega arith),
        to_i16_of_fits (pos m) (omega arith, omega arith),
      )
      (omega arith)
to_i16_inverts (negsuc m) q a b c d = absurd (omega arith)
to_i16_inverts (pos m) (negsuc n) a b c d = absurd (omega arith)

-- A priority from 32768 to 65535 wraps around to a negative number: such a peer reaches the client with a
-- smaller priority number than every peer whose priority is from 0 to 32767, though its own was greater.
pub as_peer-priority_wraps :
    (p q : PeerInfo)
    → pos 0 ≤ℤ p.priority
    → p.priority ≤ℤ pos 32767
    → pos 32768 ≤ℤ q.priority
    → q.priority ≤ℤ pos 65535
    → (p.priority <ℤ q.priority) × ((as_peer q).priority <ℤ (as_peer p).priority)
unfolding as_peer
as_peer-priority_wraps p q a b c d = (omega arith, to_i16_inverts p.priority q.priority a b c d)
