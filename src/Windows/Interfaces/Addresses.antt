-- ===== src/Windows/Interfaces/Addresses.antt =====
-- connection/windows/helpers/local_ip_finder.rs: the map of addresses has those of the table.
use protun.Base.{
  ℕ, ◌≡◌, refl, sym, ◌∙◌, Option, none, some, List, [], ◌∷◌, ◌==◌, ==_iff, if_elim, All, Any,
  All-append, All-mono, All-Any, Any-mono, subst,
}
use protun.Base.Loop.{OnSome}
use protun.Io.{IpAddr}
use protun.Windows.Interfaces.{AddressRow, AddressMap, get, push, push_row, addresses_by_luid}

-- A row of the table gives the address to the interface of this LUID.
abbrev pub HasAddress : List AddressRow → ℕ → IpAddr → Type 0
HasAddress rows luid ip =
    Any (λ (row : AddressRow). (row.interface_luid ≡ luid) × (row.address ≡ some ip)) rows

module _ (P : ℕ → IpAddr → Type 0) where
  -- Each address of the map has the property with its LUID.
  abbrev IsKept : AddressMap → Type 0
  IsKept [] = Unit
  IsKept ((luid, ips) ∷ m) = All (P luid) ips × IsKept m

  push-IsKept :
      (luid : ℕ) (ip : IpAddr) (m : AddressMap) → P luid ip → IsKept m → IsKept (push luid ip m)
  unfolding push
  push-IsKept luid ip [] p h = ((p, tt), tt)
  push-IsKept luid ip ((k, ips) ∷ m) p h =
      if_elim IsKept (k == luid)
        (λ e. (
          All-append (P k) ips (ip ∷ []) h.0
              (subst (λ n. P n ip) (sym ((==_iff k luid).0 e)) p, tt),
          h.1,
        ))
        (λ e. (h.0, push-IsKept luid ip m p h.1))

  push_row-IsKept :
      (row : AddressRow) (o : Option IpAddr) (m : AddressMap)
      → ((ip : IpAddr) → o ≡ some ip → P row.interface_luid ip)
      → IsKept m
      → IsKept (push_row row o m)
  push_row-IsKept row none m p h = h
  push_row-IsKept row (some ip) m p h = push-IsKept row.interface_luid ip m (p ip refl) h

  addresses_by_luid-IsKept :
      (rows : List AddressRow) (m : AddressMap)
      → All
          (λ (row : AddressRow). (ip : IpAddr) → row.address ≡ some ip → P row.interface_luid ip)
          rows
      → IsKept m
      → IsKept (addresses_by_luid rows m)
  unfolding addresses_by_luid
  addresses_by_luid-IsKept [] m p h = h
  addresses_by_luid-IsKept (row ∷ rows) m p h =
      addresses_by_luid-IsKept rows (push_row row row.address m) p.1
        (push_row-IsKept row row.address m p.0 h)

  get-IsKept : (luid : ℕ) (m : AddressMap) → IsKept m → OnSome (All (P luid)) (get luid m)
  unfolding get
  get-IsKept luid [] h = tt
  get-IsKept luid ((k, ips) ∷ m) h =
      if_elim (OnSome (All (P luid))) (k == luid)
        (λ e. subst (λ n. All (P n) ips) ((==_iff k luid).0 e) h.0) (λ e. get-IsKept luid m h.1)

-- A row is a row of its table.
row_addresses :
    (rows : List AddressRow)
    → All
        (λ (row : AddressRow).
          (ip : IpAddr) → row.address ≡ some ip → HasAddress rows row.interface_luid ip)
        rows
row_addresses rows =
    let Same = λ (row row' : AddressRow).
      (row'.interface_luid ≡ row.interface_luid) × (row'.address ≡ row.address) in
    All-mono (λ row. Any (Same row) rows) _
      (λ row same ip e.
        Any-mono (Same row)
          (λ row'. (row'.interface_luid ≡ row.interface_luid) × (row'.address ≡ some ip))
          (λ row' h. (h.0, h.1 ∙ e)) rows same)
      rows (All-Any Same (λ row. (refl, refl)) rows)

pub addresses-HasAddress :
    (rows : List AddressRow) (luid : ℕ)
    → OnSome (All (HasAddress rows luid)) (get luid (addresses_by_luid rows []))
addresses-HasAddress rows luid =
    get-IsKept (HasAddress rows) luid (addresses_by_luid rows [])
      (addresses_by_luid-IsKept (HasAddress rows) rows [] (row_addresses rows) tt)
