-- ===== src/Windows/Interfaces/Outside.antt =====
-- connection/windows/helpers/local_ip_finder.rs: the interfaces that are found are not that of the adapter
-- of ProTun.
use protun.Base.{ℕ, ◌≡◌, ◌≢◌, refl, true, Option, none, some, List, Any, Any-mono, arith}
use protun.Base.Loop.{OnSome}
use protun.Windows.Interfaces.{
  ForwardRow, AddressRow, Network, InternetInterface, adapter_guid, is_other, is_candidate,
}
use protun.Windows.Interfaces.Internet.{IsOf, IsInternet}

-- The interface is that of a route of the system for all destinations, on an interface that has a GUID
-- other than that of the adapter of ProTun.
abbrev pub LeadsOut : Network → List ForwardRow → InternetInterface → Type 0
LeadsOut net routes i =
    Any
      (λ route.
        (route.prefix_length ≡ 0)
        × ((guid : ℕ) × (net.guid route.interface_luid ≡ some guid) × (guid ≢ adapter_guid))
        × IsOf net route i)
      routes

has_guid :
    (net : Network) (o : Option ℕ)
    → is_other net o ≡ true
    → (guid : ℕ) × (o ≡ some guid) × (guid ≢ adapter_guid)
has_guid net none e = cc
has_guid net (some guid) e = (guid, refl, ground arith)

candidate-other :
    (net : Network) (route : ForwardRow)
    → is_candidate net route ≡ true
    → (route.prefix_length ≡ 0) × (is_other net (net.guid route.interface_luid) ≡ true)
candidate-other net route e = ground arith

internet-LeadsOut :
    (net : Network) (routes : List ForwardRow) (rows : List AddressRow) (i : InternetInterface)
    → IsInternet net routes rows i
    → LeadsOut net routes i
internet-LeadsOut net routes rows i =
    Any-mono _ _
      (λ route (candidate, up, is_of, address).
        let (all, other) = candidate-other net route candidate in
        (all, has_guid net (net.guid route.interface_luid) other, is_of))
      routes

pub chosen-LeadsOut :
    {I : Type 0} (net : Network) (routes : List ForwardRow) (rows : List AddressRow)
    (as_interface : I → InternetInterface) (o : Option I)
    → OnSome (λ i. IsInternet net routes rows (as_interface i)) o
    → OnSome (λ i. LeadsOut net routes (as_interface i)) o
chosen-LeadsOut net routes rows as_interface none h = tt
chosen-LeadsOut net routes rows as_interface (some i) h =
    internet-LeadsOut net routes rows (as_interface i) h
