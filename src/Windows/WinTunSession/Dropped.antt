-- ===== src/Windows/WinTunSession/Dropped.antt =====
-- connection/windows/helpers/wintun/wintun_session.rs: what a session leaves in the table of routes.
use protun.Base.{
  ℕ, ◌≡◌, ◌≢◌, refl, sym, ap, ◌⊎◌, inl, inr, Option, none, some, List, All, All-mono, subst,
}
use protun.Io.{IpAddr}
use protun.Windows.ProTunError.{
  ProTunFatalError, Fallible, done, fatal, wintun_adapter_index_fetch_failed,
}
use protun.Windows.Interfaces.{Network}
use protun.Windows.RoutingTable.{Row, Route, no_error, error_object_not_found, RoutingTable}
use protun.Windows.Registry.{Registry, IsKept, get_created_routes}
use protun.Windows.Routes
use protun.Windows.Routes.{
  Json, World, Routes, with_server_routes, create_server_routes, add_adapter_routes,
}
use protun.Windows.Routes.Added.{HoldsRows, RoundTrips, IsNoted}
use protun.Windows.Routes.Tracked.{IsTracked, here, created, reached-IsTracked}
use protun.Windows.Routes.Removed.{delete-off}
use protun.Windows.Session.{Adapter, set_adapter_ip_addresses}
use protun.Windows.WinTunSession.{
  AdapterConfig, WintunSystem, WinTunSession, Machine, and_then, or_fatal, create_wintun_adapter,
  configured, started, routed, create, drop,
}

and_then-On :
    {S T A B : Type 0} (P : T × Fallible B → Type 0) (x : S × Fallible A) (stop : S → T)
    (f : S → A → T × Fallible B)
    → ((s : S) (e : ProTunFatalError) → x ≡ (s, fatal e) → P (stop s, fatal e))
    → ((s : S) (u : A) → x ≡ (s, done u) → P (f s u))
    → P (and_then x stop f)
and_then-On P (s, fatal e) stop f failed next = failed s e refl
and_then-On P (s, done u) stop f failed next = next s u refl

module _ (r : RoutingTable) (g : Registry) (json : Json) (a : Adapter) (y : WintunSystem a) where
  with_server_routes-index :
      (t : r.Table) (store : g.Store) (index : ℕ) (o : Fallible (List Route))
      (routes : Routes r g json)
      → (with_server_routes r g json t store index o).1 ≡ done routes
      → routes.interface_index ≡ index
  with_server_routes-index t store index (fatal e) routes h = cc
  with_server_routes-index t store index (done rs) routes h = cc

  create-index :
      (w : World r g json) (network : r.Table → Network) (server4 : ℕ) (server6 : Option ℕ)
      (index : ℕ) (ips : List IpAddr) (routes : Routes r g json)
      → (Routes.create r g json w network server4 server6 index ips).1 ≡ done routes
      → routes.interface_index ≡ index
  unfolding Routes.create
  create-index w network server4 server6 index ips routes =
      let t = add_adapter_routes r g json w.table server4 server6 index in
      with_server_routes-index t w.store index (create_server_routes (network t) ips) routes

  module _ (h : HoldsRows r) (j : RoundTrips json) (registry_kept : IsKept g)
      (P : Row → Type 0) where
    abbrev IsOr : ℕ → Row → Type 0
    IsOr index row = P row ⊎ (row.interface_index ≡ index)

    -- A session has one index, and its adapter's rows count as others; without a session they do for
    -- some index.
    abbrev OnMade : Machine r g json a y × Fallible (WinTunSession r g json a y) → Type 0
    OnMade (m, fatal e) = (index : ℕ) × IsTracked r g json h j (IsOr index) m.world
    OnMade (m, done session) =
        (session.routes.interface_index ≡ session.interface_index)
        × IsTracked r g json h j (IsOr session.interface_index) m.world

    weakened :
        (index : ℕ) (w : World r g json)
        → IsTracked r g json h j P w
        → IsTracked r g json h j (IsOr index) w
    weakened index w =
        let texts = get_created_routes g w.store in
        All-mono (IsNoted r g json P texts) (IsNoted r g json (IsOr index) texts)
          (λ row n. elim n [ inl p ↦ inl (inl p) | inr t ↦ inr t ]) (h.entries w.table)

    started-OnMade :
        (w : World r g json) (adapter : y.Device) (index : ℕ) (client server : ℕ × Option ℕ)
        (routes : Routes r g json) (x : a.State × Option y.Session)
        → routes.interface_index ≡ index
        → IsTracked r g json h j (IsOr index) w
        → OnMade (started r g json a y w adapter index client server routes x)
    started-OnMade w adapter index client server routes (s, none) same all = (index, all)
    started-OnMade w adapter index client server routes (s, some session) same all = (same, all)

    routed-OnMade :
        (w : World r g json) (network : r.Table → Network) (ips : List IpAddr) (s : a.State)
        (adapter : y.Device) (size index : ℕ) (client server : ℕ × Option ℕ)
        → IsTracked r g json h j P w
        → OnMade (routed r g json a y w network ips s adapter size index client server)
    routed-OnMade w network ips s adapter size index client server all =
        let x = Routes.create r g json w network server.0 server.1 index ips in
        let tracked : IsTracked r g json h j (IsOr index) x.0 =
          reached-IsTracked r g json h j (IsOr index) registry_kept index w x.0 (λ row e. inr e)
            (created w network server.0 server.1 ips here) (weakened index w all) in
        and_then-On OnMade x _ _
          (λ w' e same.
            (index, subst (IsTracked r g json h j (IsOr index)) (ap (λ p. p.0) same) tracked))
          (λ w' routes same.
            started-OnMade w' adapter index client server routes (y.start_session s adapter size)
              (create-index w network server.0 server.1 index ips routes (ap (λ p. p.1) same))
              (subst (IsTracked r g json h j (IsOr index)) (ap (λ p. p.0) same) tracked))

    create-OnMade :
        (m : Machine r g json a y) (network : r.Table → Network) (ips : List IpAddr)
        (config : AdapterConfig)
        → IsTracked r g json h j P m.world
        → OnMade (create r g json a y m network ips config)
    unfolding create
    create-OnMade m network ips config all =
        let stopped : (s : a.State) (e : ProTunFatalError)
            → OnMade (record m { system = s }, fatal e) =
          λ s e. (0, weakened 0 m.world all) in
        and_then-On OnMade (create_wintun_adapter r g json a y m.system) _ _ (λ s e u. stopped s e)
          (λ s adapter u.
            and_then-On OnMade
              (or_fatal (s, y.get_adapter_index s adapter) wintun_adapter_index_fetch_failed) _ _
              (λ s e u. stopped s e)
              (λ s index u.
                and_then-On OnMade
                  (set_adapter_ip_addresses a (configured r g json a y s index config)) _ _
                  (λ s e u. stopped s e)
                  (λ s client u. routed-OnMade m.world network ips _ adapter _ index client _ all)))

    -- Let the system delete every row that it is told to, and give all of its rows; let the registry keep
    -- what is written, and every route have a text that is read back. Let each row be in the table for
    -- another reason before a session is made, or be noted in the registry. Then after the session was
    -- made and dropped, only those other rows are left, and of them none of the session's interface.
    pub session_removed :
        ((t : r.Table) (row : Row)
          → ((r.delete_entry t row).1 ≡ no_error)
            ⊎ ((r.delete_entry t row).1 ≡ error_object_not_found))
        → ((t : r.Table) → r.rows t ≡ some (h.entries t))
        → (m m' : Machine r g json a y) (network : r.Table → Network) (ips : List IpAddr)
        → (config : AdapterConfig) (session : WinTunSession r g json a y)
        → IsTracked r g json h j P m.world
        → create r g json a y m network ips config ≡ (m', done session)
        → All
            (λ row. P row × (row.interface_index ≢ session.interface_index))
            (h.entries (drop r g json a y m' session).world.table)
    unfolding drop
    session_removed succeeds is_read m m' network ips config session all made =
        let (same, tracked) = subst OnMade made (create-OnMade m network ips config all) in
        subst
          (λ i.
            All (λ row. P row × (row.interface_index ≢ session.interface_index))
              (h.entries (Routes.delete r g json m'.world (record { interface_index = i })).table))
          (sym same)
          (delete-off r g json h j succeeds is_read P session.interface_index m'.world tracked)
