-- ===== src/Windows/Session/Addresses.antt =====
-- connection/windows/helpers/wintun/wintun_session.rs: the addresses of the two ends of the tunnel.
use protun.Base.{
  ℕ, zero, suc, ◌+◌, ◌≤◌, ◌<◌, ◌≡◌, refl, ◌∙◌, ap, Bool, true, false, Option, none, subst, some,
  arith,
}
use protun.Base.Loop.{OnSome}
use protun.Windows.ProTunError.{Fallible, done, fatal}
use protun.Windows.Session.{
  ipv4_10, ipv6_2a07, second_octet, seventh_segment, Adapter, ipv6_set, ipv4_set, try_addresses,
  set_adapter_ip_addresses, server_ipv4, server_ipv6,
}

second_octet-ipv4_10 : (i n : ℕ) → i < 256 → n < 256 → second_octet (ipv4_10 i n) ≡ i
unfolding second_octet ipv4_10
second_octet-ipv4_10 i n h k = omega arith

seventh_segment-ipv6_2a07 : (i n : ℕ) → i < 256 → n < 256 → seventh_segment (ipv6_2a07 i n) ≡ i
unfolding seventh_segment ipv6_2a07
seventh_segment-ipv6_2a07 i n h k = omega arith

module _ (a : Adapter) where
  -- The client is 10.i.0.2 and, if it has an address for IPv6, 2a07:b944::i:2.
  abbrev pub IsPair : ℕ → ℕ × Option ℕ → Type 0
  IsPair i (client4, client6) = (client4 ≡ ipv4_10 i 2) × OnSome (λ ip. ip ≡ ipv6_2a07 i 2) client6

  -- Some number from the first to the last is that of the addresses.
  abbrev OnAddresses : ℕ → ℕ → Fallible (ℕ × Option ℕ) → Type 0
  OnAddresses first last (fatal e) = Unit
  OnAddresses first last (done pair) = (i : ℕ) × (first ≤ i) × (i < last) × IsPair i pair

  ipv6_set-OnAddresses :
      (first last i : ℕ) (r : a.State × Bool)
      → first ≤ i
      → i < last
      → OnAddresses first last (ipv6_set a (ipv4_10 i 2) (ipv6_2a07 i 2) r).1
  ipv6_set-OnAddresses first last i (s, true) h k = (i, h, k, (refl, refl))
  ipv6_set-OnAddresses first last i (s, false) h k = (i, h, k, (refl, tt))

  ipv4_set-OnAddresses :
      (first last i : ℕ) (r : a.State × Bool) (next : a.State → a.State × Fallible (ℕ × Option ℕ))
      → first ≤ i
      → i < last
      → ((s : a.State) → OnAddresses first last (next s).1)
      → OnAddresses first last (ipv4_set a r i next).1
  ipv4_set-OnAddresses first last i (s, true) next h k nexts =
      ipv6_set-OnAddresses first last i (a.set_adapter_ipv6_address s (ipv6_2a07 i 2)) h k
  ipv4_set-OnAddresses first last i (s, false) next h k nexts = nexts s

  try_addresses-OnAddresses :
      (first last rounds i : ℕ) (s : a.State)
      → first ≤ i
      → i + rounds ≤ last
      → OnAddresses first last (try_addresses a rounds i s).1
  unfolding try_addresses
  try_addresses-OnAddresses first last zero i s h k = tt
  try_addresses-OnAddresses first last (suc rounds) i s h k =
      ipv4_set-OnAddresses first last i (a.set_adapter_ipv4_address s (ipv4_10 i 2)) _ h
        (omega arith)
        (λ u. try_addresses-OnAddresses first last rounds (i + 1) u (omega arith) (omega arith))

  -- Addresses for the server: those of the client with 1 in place of 2 at the end.
  abbrev pub IsOtherEnd : ℕ → ℕ × Option ℕ → Type 0
  IsOtherEnd i (client4, none) = (server_ipv4 a client4 ≡ ipv4_10 i 1) × (server_ipv6 a none ≡ none)
  IsOtherEnd i (client4, some client6) =
      (server_ipv4 a client4 ≡ ipv4_10 i 1) × (server_ipv6 a (some client6) ≡ some (ipv6_2a07 i 1))

  pair-IsOtherEnd : (i : ℕ) (pair : ℕ × Option ℕ) → i < 256 → IsPair i pair → IsOtherEnd i pair
  unfolding server_ipv4 server_ipv6
  pair-IsOtherEnd i (client4, none) h (e, u) = (
    ap (λ ip. ipv4_10 (second_octet ip) 1) e
        ∙ ap (λ k. ipv4_10 k 1) (second_octet-ipv4_10 i 2 h (omega arith)),
    refl,
  )
  pair-IsOtherEnd i (client4, some client6) h (e, e6) = (
    ap (λ ip. ipv4_10 (second_octet ip) 1) e
        ∙ ap (λ k. ipv4_10 k 1) (second_octet-ipv4_10 i 2 h (omega arith)),
    ap (λ ip. some (ipv6_2a07 (seventh_segment ip) 1)) e6
        ∙ ap (λ k. some (ipv6_2a07 k 1)) (seventh_segment-ipv6_2a07 i 2 h (omega arith)),
  )

  -- If addresses could be set, there is a number `i` from 2 to 255 such that the client is 10.i.0.2 and,
  -- if it has an address for IPv6, 2a07:b944::i:2, and the addresses that are calculated for the server
  -- from those of the client are 10.i.0.1 and, with IPv6, 2a07:b944::i:1.
  pub addresses_paired :
      (s : a.State) (pair : ℕ × Option ℕ)
      → (set_adapter_ip_addresses a s).1 ≡ done pair
      → (i : ℕ) × (2 ≤ i) × (i ≤ 255) × IsPair i pair × IsOtherEnd i pair
  unfolding set_adapter_ip_addresses
  addresses_paired s pair e =
      let (i, from, to, p) =
        subst (OnAddresses 2 256) e
          (try_addresses-OnAddresses 2 256 254 2 s (omega arith) (omega arith)) in
      (i, from, omega arith, p, pair-IsOtherEnd i pair (omega arith) p)
