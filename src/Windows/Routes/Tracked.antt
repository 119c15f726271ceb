-- ===== src/Windows/Routes/Tracked.antt =====
-- connection/windows/helpers/routes.rs: no route to a server is forgotten.
use protun.Base.{
  ℕ, ◌≡◌, ◌≢◌, refl, ◌⊎◌, inl, inr, Option, none, some, String, List, [], ◌∷◌, ◌++◌, ◌==◌, ==_iff,
  if_elim, All, All-mono, All-mono_both, Any-append_cases, Any, Any-append_left, Any-append_right,
}
use protun.Io.{IpAddr}
use protun.Windows.ProTunError.{Fallible, done, fatal}
use protun.Windows.Interfaces.{Network}
use protun.Windows.RoutingTable.{
  Row, row_of, Route, v4, v6, RouteDeletionSuccess, RouteResult, ok, err, no_error,
  error_object_not_found, RoutingTable, deletion, delete_route, delete_rows, get_interface_rows,
  delete_routes,
}
use protun.Windows.Registry.{
  Registry, IsKept, get_created_routes, set_created_routes, Any-set_created_routes,
}
use protun.Windows.Routes.{
  Json, World, add_adapter_routes, with_server_routes, create, kept, delete_text, delete_texts,
  delete_created_routes, delete, create_server_routes,
}
use protun.Windows.Routes.Added.{
  HoldsRows, RoundTrips, IsTextOf, IsNoted, add_server_routes-AllNoted, adapter-AllNoted,
}

module _ (r : RoutingTable) (g : Registry) (json : Json) where
  -- Calls on one adapter, of this index.
  pub data Reach (index : ℕ) (w : World r g json) : World r g json → Type 0 where
    here : Reach index w w
    created :
        (w' : World r g json) (network : r.Table → Network) (server4 : ℕ) (server6 : Option ℕ)
        (server_ips : List IpAddr)
        → Reach index w w'
        → Reach index w (create r g json w' network server4 server6 index server_ips).0
    cleaned :
        (w' : World r g json) → Reach index w w' → Reach index w (delete_created_routes r g json w')
    deleted :
        (w' : World r g json)
        → Reach index w w'
        → Reach index w (delete r g json w' (record { interface_index = index }))

module _ (r : RoutingTable) (g : Registry) (json : Json) (h : HoldsRows r)
    (j : RoundTrips json) where
  abbrev OnDeleted : r.Table → Row → RouteResult ℕ RouteDeletionSuccess → Type 0
  OnDeleted t' row (ok s) = All (λ x. x ≢ row) (h.entries t')
  OnDeleted t' row (err e) = Unit

  deletion-OnDeleted :
      (t : r.Table) (row : Row)
      → OnDeleted (r.delete_entry t row).0 row (deletion (r.delete_entry t row).1)
  unfolding deletion
  deletion-OnDeleted t row =
      let (t', code) = r.delete_entry t row in
      if_elim (OnDeleted t' row) (code == no_error)
        (λ e. h.gone t row (inl ((==_iff code no_error).0 e)))
        (λ e.
          if_elim (OnDeleted t' row) (code == error_object_not_found)
            (λ e. h.gone t row (inr ((==_iff code error_object_not_found).0 e))) (λ e. tt))

  delete_route-OnDeleted :
      (t : r.Table) (route : Route)
      → OnDeleted (delete_route r t route).0 (row_of route) (delete_route r t route).1
  unfolding delete_route
  delete_route-OnDeleted t (v4 route) = deletion-OnDeleted t (row_of (v4 route))
  delete_route-OnDeleted t (v6 route) = deletion-OnDeleted t (row_of (v6 route))

  pub delete_route_adds_none :
      (P : Row → Type 0) (t : r.Table) (route : Route)
      → All P (h.entries t)
      → All P (h.entries (delete_route r t route).0)
  unfolding delete_route
  delete_route_adds_none P t (v4 route) = h.adds_none P t (row_of (v4 route))
  delete_route_adds_none P t (v6 route) = h.adds_none P t (row_of (v6 route))

  module _ (Other : Row → Type 0) where
    abbrev Noted : List String → Row → Type 0
    Noted = IsNoted r g json Other

    -- A text that is no route notes nothing.
    not-Noted :
        (text : String) (texts : List String) (row : Row)
        → json.from_str text ≡ none
        → Noted (text ∷ texts) row
        → Noted texts row
    not-Noted text texts row e (inl o) = inl o
    not-Noted text texts row e (inr (inl (route, read, same))) = cc
    not-Noted text texts row e (inr (inr n)) = inr n

    -- A text notes no row but that of its route.
    no_longer :
        (text : String) (texts : List String) (route : Route) (row : Row)
        → json.from_str text ≡ some route
        → row ≢ row_of route
        → Noted (text ∷ texts) row
        → Noted texts row
    no_longer text texts route row e ne (inl o) = inl o
    no_longer text texts route row e ne (inr (inl (route', read, same))) = absurd (ne (cc))
    no_longer text texts route row e ne (inr (inr n)) = inr n

    delete_text-Noted :
        (t : r.Table) (text : String) (texts : List String) (o : Option Route)
        → json.from_str text ≡ o
        → All (Noted (text ∷ texts)) (h.entries t)
        → (let (t', again) = delete_text r g json t text o in
            All (Noted (again ++ texts)) (h.entries t'))
    delete_text-Noted t text texts none e all =
        All-mono _ (Noted texts) (λ row. not-Noted text texts row e) (h.entries t) all
    delete_text-Noted t text texts (some route) e all =
        by_result (delete_route r t route).1 (delete_route-OnDeleted t route)
      where
        t' : r.Table
        t' = (delete_route r t route).0

        still : All (Noted (text ∷ texts)) (h.entries t')
        still = delete_route_adds_none (Noted (text ∷ texts)) t route all

        by_result :
            (result : RouteResult ℕ RouteDeletionSuccess)
            → OnDeleted t' (row_of route) result
            → All (Noted (kept r g json text result ++ texts)) (h.entries t')
        by_result (ok s) gone =
            All-mono_both _ _ (Noted texts) (λ row. no_longer text texts route row e) (h.entries t')
              gone still
        by_result (err code) u = still

  -- What some texts note counts among the other rows.
  abbrev And : (Row → Type 0) → List String → Row → Type 0
  And Other texts row = Other row ⊎ Any (IsTextOf r g json row) texts

  to_other :
      (Other : Row → Type 0) (xs ys : List String) (row : Row)
      → IsNoted r g json Other (xs ++ ys) row
      → IsNoted r g json (And Other xs) ys row
  to_other Other xs ys row (inl o) = inl (inl o)
  to_other Other xs ys row (inr n) = elim (Any-append_cases (IsTextOf r g json row) xs ys n) [
    | inl a ↦ inl (inr a)
    | inr b ↦ inr b
  ]

  from_other :
      (Other : Row → Type 0) (xs ys : List String) (row : Row)
      → IsNoted r g json (And Other xs) ys row
      → IsNoted r g json Other (xs ++ ys) row
  from_other Other xs ys row (inl (inl o)) = inl o
  from_other Other xs ys row (inl (inr a)) = inr (Any-append_left (IsTextOf r g json row) xs ys a)
  from_other Other xs ys row (inr b) = inr (Any-append_right (IsTextOf r g json row) xs ys b)

  -- What is left in the table was not among the texts, or its text is kept.
  pub delete_texts-Noted :
      (Other : Row → Type 0) (t : r.Table) (texts : List String)
      → All (IsNoted r g json Other texts) (h.entries t)
      → (let (t', again) = delete_texts r g json t texts in
          All (IsNoted r g json Other again) (h.entries t'))
  unfolding delete_texts
  delete_texts-Noted Other t [] all = all
  delete_texts-Noted Other t (text ∷ texts) all =
      let (t', again) = delete_text r g json t text (json.from_str text) in
      let (t'', rest) = delete_texts r g json t' texts in
      All-mono _ (IsNoted r g json Other (again ++ rest)) (from_other Other again rest)
        (h.entries t'')
        (delete_texts-Noted (And Other again) t' texts (
          All-mono _ (IsNoted r g json (And Other again) texts) (to_other Other again texts)
            (h.entries t') (delete_text-Noted Other t text texts (json.from_str text) refl all)))

  pub delete_rows_adds_none :
      (P : Row → Type 0) (t : r.Table) (rows : List Row)
      → All P (h.entries t)
      → All P (h.entries (delete_rows r t rows).0)
  unfolding delete_rows
  delete_rows_adds_none P t [] all = all
  delete_rows_adds_none P t (row ∷ rows) all =
      delete_rows_adds_none P (r.delete_entry t row).0 rows (h.adds_none P t row all)

  module _ (Other : Row → Type 0) where
    -- Each row of the table is one of the others, or has a text in the registry.
    abbrev pub IsTracked : World r g json → Type 0
    IsTracked w = All (IsNoted r g json Other (get_created_routes g w.store)) (h.entries w.table)

    module _ (kept : IsKept g) where
      -- What is written to the registry is still there.
      rewritten :
          (store : g.Store) (texts : List String) (rows : List Row)
          → All (IsNoted r g json Other texts) rows
          → All
              (IsNoted r g json Other (get_created_routes g (set_created_routes g store texts)))
              rows
      rewritten store texts rows =
          All-mono (IsNoted r g json Other texts) _
            (λ row n. elim n [
              | inl o ↦ inl o
              | inr a ↦ inr (
                  Any-set_created_routes g kept (IsTextOf r g json row) (λ p. cc (j.not_empty, p.1))
                    store texts a)
            ])
            rows

      with_server_routes-IsTracked :
          (t : r.Table) (store : g.Store) (index : ℕ) (routes : Fallible (List Route))
          → All (IsNoted r g json Other (get_created_routes g store)) (h.entries t)
          → IsTracked (with_server_routes r g json t store index routes).0
      with_server_routes-IsTracked t store index (fatal e) all = all
      with_server_routes-IsTracked t store index (done routes) all =
          rewritten store _ _ (
            add_server_routes-AllNoted r g json h j Other t routes (get_created_routes g store) all)

      delete_created_routes-IsTracked :
          (w : World r g json) → IsTracked w → IsTracked (delete_created_routes r g json w)
      unfolding delete_created_routes
      delete_created_routes-IsTracked w all =
          rewritten w.store _ _
            (delete_texts-Noted Other w.table (get_created_routes g w.store) all)

      -- Let the table of the system hold what is created, until it is deleted; let the registry keep what
      -- is written, and let every route have a text that is read back. Let each row of the table be for
      -- another reason there, as those of the adapter are, or have a text in the registry. Then it is so
      -- after any calls of `create`, also one that fails, of `delete` and of `delete_created_routes`: a
      -- route to a server that is still in the table is in the registry, to be deleted later.
      pub reached-IsTracked :
          (index : ℕ) (w w' : World r g json)
          → ((row : Row) → row.interface_index ≡ index → Other row)
          → Reach r g json index w w'
          → IsTracked w
          → IsTracked w'
      unfolding create delete delete_routes
      reached-IsTracked index w _ of_adapter here all = all
      reached-IsTracked index w _ of_adapter (created w' network server4 server6 ips reach) all =
          with_server_routes-IsTracked _ w'.store index
            (create_server_routes
              (network (add_adapter_routes r g json w'.table server4 server6 index)) ips)
            (adapter-AllNoted r g json h j Other index of_adapter w'.table server4 server6
              (get_created_routes g w'.store) (reached-IsTracked index w w' of_adapter reach all))
      reached-IsTracked index w _ of_adapter (cleaned w' reach) all =
          delete_created_routes-IsTracked w' (reached-IsTracked index w w' of_adapter reach all)
      reached-IsTracked index w _ of_adapter (deleted w' reach) all =
          delete_created_routes-IsTracked _ (
            delete_rows_adds_none (IsNoted r g json Other (get_created_routes g w'.store)) w'.table
              (get_interface_rows r w'.table index)
              (reached-IsTracked index w w' of_adapter reach all))
