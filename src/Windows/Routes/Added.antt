-- ===== src/Windows/Routes/Added.antt =====
-- connection/windows/helpers/routes.rs: what the routes of a connection add is noted, or of the adapter.
use protun.Base.{
  ℕ, ◌≡◌, ◌≢◌, refl, sym, ◌⊎◌, inl, inr, Option, none, some, String, List, [], ◌∷◌, ◌++◌, ◌==◌,
  ==_iff, if_elim, All, All-mono, Any, subst, not-eq_of_test, Any-append_left, Any-append_right,
}
use protun.Windows.RoutingTable.{
  Row, row_of, Route, v4, v6, RouteCreationError, RouteResult, ok, err, no_error,
  error_object_not_found, RoutingTable, created_v4, created_v6, add_v4_route, add_v6_route,
  add_route, IpRoute,
}
use protun.Windows.Registry.{Registry}
use protun.Windows.Routes.{
  Json, noted, add_server_routes, add_ipv6_routes, add_adapter_routes, create_ipv4_host_route,
  create_ipv6_host_route, create_any_route,
}

-- A table that holds rows: a creation adds its row if its code is that of no error and else changes
-- nothing; a deletion adds no row, and its row is gone if it was deleted or not there.
pub record HoldsRows (r : RoutingTable) : Type 1 where
  pub entries : r.Table → List Row
  pub created :
      (t : r.Table) (row : Row)
      → (r.create_entry t row).1 ≡ no_error
      → entries (r.create_entry t row).0 ≡ row ∷ entries t
  pub not_created :
      (t : r.Table) (row : Row)
      → (r.create_entry t row).1 ≢ no_error
      → entries (r.create_entry t row).0 ≡ entries t
  pub adds_none :
      (P : Row → Type 0) (t : r.Table) (row : Row)
      → All P (entries t)
      → All P (entries (r.delete_entry t row).0)
  pub gone :
      (t : r.Table) (row : Row)
      → ((r.delete_entry t row).1 ≡ no_error) ⊎ ((r.delete_entry t row).1 ≡ error_object_not_found)
      → All (λ x. x ≢ row) (entries (r.delete_entry t row).0)

-- Every route has a text that is read back, and the empty text is no route.
pub record RoundTrips (json : Json) : Type 0 where
  pub written :
      (route : Route)
      → (text : String) × (json.to_string route ≡ some text) × (json.from_str text ≡ some route)
  pub not_empty : json.from_str String.[] ≡ none

module _ (r : RoutingTable) (g : Registry) (json : Json) where
  -- The text is that of a route with this row.
  abbrev pub IsTextOf : Row → String → Type 0
  IsTextOf row text = (route : Route) × (json.from_str text ≡ some route) × (row_of route ≡ row)

  -- A row is there for another reason, or one of the texts is its.
  abbrev pub IsNoted : (Row → Type 0) → List String → Row → Type 0
  IsNoted Other texts row = Other row ⊎ Any (IsTextOf row) texts

module _ (r : RoutingTable) (g : Registry) (json : Json) (h : HoldsRows r)
    (j : RoundTrips json) where
  abbrev pub OnAdded : r.Table → r.Table → Row → RouteResult RouteCreationError (Unit {0}) → Type 0
  OnAdded t t' row (ok u) = h.entries t' ≡ row ∷ h.entries t
  OnAdded t t' row (err e) = h.entries t' ≡ h.entries t

  pub add_route-OnAdded :
      (t : r.Table) (route : Route)
      → OnAdded t (add_route r t route).0 (row_of route) (add_route r t route).1
  unfolding add_route created_v4 created_v6
  add_route-OnAdded t (v4 route) =
      let row = row_of (v4 route) in
      let code = (r.create_entry t row).1 in
      let t' = (r.create_entry t row).0 in
      if_elim (OnAdded t t' row) (code == no_error)
        (λ e. h.created t row ((==_iff code no_error).0 e))
        (λ e.
          let same = h.not_created t row (not-eq_of_test code no_error e) in
          if_elim (OnAdded t t' row) (code == 5010) (λ e. same) (λ e. same))
  add_route-OnAdded t (v6 route) =
      let row = row_of (v6 route) in
      let code = (r.create_entry t row).1 in
      let t' = (r.create_entry t row).0 in
      if_elim (OnAdded t t' row) (code == no_error)
        (λ e. h.created t row ((==_iff code no_error).0 e))
        (λ e.
          let same = h.not_created t row (not-eq_of_test code no_error e) in
          if_elim (OnAdded t t' row) (code == 5010) (λ e. same)
            (λ e. if_elim (OnAdded t t' row) (code == 1168) (λ e. same) (λ e. same)))

  module _ (Other : Row → Type 0) where
    abbrev pub AllNoted : List String → r.Table → Type 0
    AllNoted texts t = All (IsNoted r g json Other texts) (h.entries t)

    IsNoted-append :
        (texts : List String) (text : String) (row : Row)
        → IsNoted r g json Other texts row
        → IsNoted r g json Other (texts ++ text ∷ []) row
    IsNoted-append texts text row (inl o) = inl o
    IsNoted-append texts text row (inr n) =
        inr (Any-append_left (IsTextOf r g json row) texts (text ∷ []) n)

    noted-AllNoted :
        (t t' : r.Table) (route : Route) (texts : List String)
        (result : RouteResult RouteCreationError (Unit {0})) (text : Option String)
        → OnAdded t t' (row_of route) result
        → ((s : String) × (text ≡ some s) × (json.from_str s ≡ some route))
        → AllNoted texts t
        → AllNoted (noted r g json texts result text) t'
    noted-AllNoted t t' route texts (err e) text same w all =
        subst (All (IsNoted r g json Other texts)) (sym same) all
    noted-AllNoted t t' route texts (ok u) none added w all = cc (w.1)
    noted-AllNoted t t' route texts (ok u) (some text) added (s, e, read) all =
        subst (All (IsNoted r g json Other (texts ++ text ∷ []))) (sym added) (
          inr (
              Any-append_right (IsTextOf r g json (row_of route)) texts (text ∷ [])
                (inl (route, cc, refl))),
          All-mono (IsNoted r g json Other texts) (IsNoted r g json Other (texts ++ text ∷ []))
              (IsNoted-append texts text) (h.entries t) all,
        )

    pub add_server_routes-AllNoted :
        (t : r.Table) (routes : List Route) (texts : List String)
        → AllNoted texts t
        → (let (t', texts') = add_server_routes r g json t routes texts in AllNoted texts' t')
    unfolding add_server_routes
    add_server_routes-AllNoted t [] texts all = all
    add_server_routes-AllNoted t (route ∷ routes) texts all =
        add_server_routes-AllNoted (add_route r t route).0 routes _ (
          noted-AllNoted t (add_route r t route).0 route texts (add_route r t route).1
            (json.to_string route) (add_route-OnAdded t route) (j.written route) all)

    -- Other rows stand for themselves, so an added row that is one changes nothing.
    Other-AllNoted :
        (t t' : r.Table) (row : Row) (texts : List String)
        (result : RouteResult RouteCreationError (Unit {0}))
        → Other row
        → OnAdded t t' row result
        → AllNoted texts t
        → AllNoted texts t'
    Other-AllNoted t t' row texts (ok u) other added all =
        subst (All (IsNoted r g json Other texts)) (sym added) (inl other, all)
    Other-AllNoted t t' row texts (err e) other same all =
        subst (All (IsNoted r g json Other texts)) (sym same) all

    module _ (index : ℕ) (of_adapter : (row : Row) → row.interface_index ≡ index → Other row) where
      v4-AllNoted :
          (t : r.Table) (route : IpRoute) (texts : List String)
          → route.interface_index ≡ index
          → AllNoted texts t
          → AllNoted texts (add_v4_route r t route).0
      unfolding add_route
      v4-AllNoted t route texts e all =
          Other-AllNoted t _ (row_of (v4 route)) texts _ (of_adapter (row_of (v4 route)) e)
            (add_route-OnAdded t (v4 route)) all

      v6-AllNoted :
          (t : r.Table) (route : IpRoute) (texts : List String)
          → route.interface_index ≡ index
          → AllNoted texts t
          → AllNoted texts (add_v6_route r t route).0
      unfolding add_route
      v6-AllNoted t route texts e all =
          Other-AllNoted t _ (row_of (v6 route)) texts _ (of_adapter (row_of (v6 route)) e)
            (add_route-OnAdded t (v6 route)) all

      ipv6-AllNoted :
          (t : r.Table) (server : Option ℕ) (texts : List String)
          → AllNoted texts t
          → AllNoted texts (add_ipv6_routes r g json t server index)
      unfolding create_ipv6_host_route create_any_route
      ipv6-AllNoted t none texts all = all
      ipv6-AllNoted t (some server) texts all =
          v6-AllNoted _ (create_any_route index) texts refl
            (v6-AllNoted t (create_ipv6_host_route server none index) texts refl all)

      pub adapter-AllNoted :
          (t : r.Table) (server4 : ℕ) (server6 : Option ℕ) (texts : List String)
          → AllNoted texts t
          → AllNoted texts (add_adapter_routes r g json t server4 server6 index)
      unfolding create_ipv4_host_route create_any_route
      adapter-AllNoted t server4 server6 texts all = ipv6-AllNoted _ server6 texts (
          v4-AllNoted _ (create_any_route index) texts refl
            (v4-AllNoted t (create_ipv4_host_route server4 none index) texts refl all))
