-- ===== src/Windows/Routes/Removed.antt =====
-- connection/windows/helpers/routes.rs: what `delete` leaves in the table.
use protun.Base.{
  ℕ, ◌≡◌, ◌≢◌, refl, sym, ap, ◌∙◌, ◌⊎◌, inl, inr, Option, none, some, String, List, [], ◌∷◌, ◌==◌,
  if_elim, not-eq_of_test, All, All-mono, All-mono_both, All-Any, Any, subst,
}
use protun.Windows.RoutingTable.{
  Row, Route, no_error, error_object_not_found, RoutingTable, delete_rows, of_interface,
  get_interface_rows, delete_routes, rows_or_none,
}
use protun.Windows.Registry.{Registry, get_created_routes}
use protun.Windows.Routes.{Json, World, delete_text, delete_texts, delete_created_routes, delete}
use protun.Windows.Routes.Added.{HoldsRows, RoundTrips}
use protun.Windows.Routes.Tracked.{IsTracked, delete_route_adds_none, delete_rows_adds_none}
use protun.Windows.Routes.Cleaned.{delete_created_routes-others}

-- A row of another interface, or one of the rows.
abbrev IsOffOrIn : ℕ → List Row → Row → Type 0
IsOffOrIn index rows row = (row.interface_index ≢ index) ⊎ Any (λ x. row ≡ x) rows

of_interface-IsOffOrIn :
    (r : RoutingTable) (index : ℕ) (rows : List Row) (row : Row)
    → Any (λ x. row ≡ x) rows
    → IsOffOrIn index (of_interface r index rows) row
of_interface-IsOffOrIn r index [] row m = absurd m
of_interface-IsOffOrIn r index (x ∷ rows) row (inl e) =
    if_elim (λ rs. IsOffOrIn index rs row) (x.interface_index == index) (λ same. inr (inl e))
      (λ other. inl (λ s.
        not-eq_of_test x.interface_index index other (sym (ap (λ y. y.interface_index) e) ∙ s)))
of_interface-IsOffOrIn r index (x ∷ rows) row (inr m) =
    let rest = of_interface-IsOffOrIn r index rows row m in
    if_elim (λ rs. IsOffOrIn index rs row) (x.interface_index == index)
      (λ same. elim rest [ inl off ↦ inl off | inr n ↦ inr (inr n) ]) (λ other. rest)

module _ (r : RoutingTable) (g : Registry) (json : Json) (h : HoldsRows r)
    (j : RoundTrips json) where
  delete_text_adds_none :
      (P : Row → Type 0) (t : r.Table) (text : String) (o : Option Route)
      → All P (h.entries t)
      → All P (h.entries (delete_text r g json t text o).0)
  delete_text_adds_none P t text none all = all
  delete_text_adds_none P t text (some route) all =
      delete_route_adds_none r g json h j P t route all

  delete_texts_adds_none :
      (P : Row → Type 0) (t : r.Table) (texts : List String)
      → All P (h.entries t)
      → All P (h.entries (delete_texts r g json t texts).0)
  unfolding delete_texts
  delete_texts_adds_none P t [] all = all
  delete_texts_adds_none P t (text ∷ texts) all =
      delete_texts_adds_none P (delete_text r g json t text (json.from_str text)).0 texts
        (delete_text_adds_none P t text (json.from_str text) all)

  module _
      (succeeds : (t : r.Table) (row : Row)
        → ((r.delete_entry t row).1 ≡ no_error)
          ⊎ ((r.delete_entry t row).1 ≡ error_object_not_found)) where
    delete_rows-off :
        (index : ℕ) (t : r.Table) (rows : List Row)
        → All (IsOffOrIn index rows) (h.entries t)
        → All (λ row. row.interface_index ≢ index) (h.entries (delete_rows r t rows).0)
    unfolding delete_rows
    delete_rows-off index t [] all =
        All-mono (IsOffOrIn index []) _ (λ row o. elim o [ inl off ↦ off | inr a ↦ absurd a ])
          (h.entries t) all
    delete_rows-off index t (row ∷ rows) all =
        let t' = (r.delete_entry t row).0 in
        delete_rows-off index t' rows (
          All-mono_both (λ x. x ≢ row) (IsOffOrIn index (row ∷ rows)) (IsOffOrIn index rows)
            (λ x ne o. elim o [
              | inl off ↦ inl off
              | inr (inl e) ↦ absurd (ne e)
              | inr (inr n) ↦ inr n
            ])
            (h.entries t') (h.gone t row (succeeds t row))
            (h.adds_none (IsOffOrIn index (row ∷ rows)) t row all))

    module _ (is_read : (t : r.Table) → r.rows t ≡ some (h.entries t)) where
      delete_routes-off :
          (index : ℕ) (t : r.Table)
          → All (λ row. row.interface_index ≢ index) (h.entries (delete_routes r t index).0)
      unfolding delete_routes get_interface_rows
      delete_routes-off index t = delete_rows-off index t _ (
          subst (λ o. All (IsOffOrIn index (of_interface r index (rows_or_none r o))) (h.entries t))
            (sym (is_read t))
            (All-mono (λ row. Any (λ x. row ≡ x) (h.entries t)) _
              (of_interface-IsOffOrIn r index (h.entries t)) (h.entries t)
              (All-Any (λ x y. x ≡ y) (λ x. refl) (h.entries t))))

      -- Let the system delete every row that it is told to, and let it give all of its rows. Let each row
      -- be for another reason there, or be of this interface, or be noted. Then `delete` leaves the
      -- former rows only, and of them none of the interface.
      pub delete-off :
          (P : Row → Type 0) (index : ℕ) (w : World r g json)
          → IsTracked r g json h j (λ row. P row ⊎ (row.interface_index ≡ index)) w
          → All
              (λ row. P row × (row.interface_index ≢ index))
              (h.entries (delete r g json w (record { interface_index = index })).table)
      unfolding delete delete_created_routes delete_routes
      delete-off P index w all =
          let t = (delete_routes r w.table index).0 in
          let rows = h.entries (delete_texts r g json t (get_created_routes g w.store)).0 in
          All-mono_both (λ row. P row ⊎ (row.interface_index ≡ index))
            (λ row. row.interface_index ≢ index) _
            (λ row o off. elim o [ inl p ↦ (p, off) | inr e ↦ absurd (off e) ]) rows
            (delete_created_routes-others r g json h j succeeds
              (λ row. P row ⊎ (row.interface_index ≡ index)) (record w { table = t })
              (delete_rows_adds_none r g json h j _ w.table (get_interface_rows r w.table index)
                all))
            (delete_texts_adds_none (λ row. row.interface_index ≢ index) t
              (get_created_routes g w.store) (delete_routes-off index w.table))
