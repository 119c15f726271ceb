-- ===== src/Windows/Routes/Cleaned.antt =====
-- connection/windows/helpers/routes.rs: a cleanup whose deletions succeed leaves no route to a server.
use protun.Base.{
  ◌≡◌, ap, refl, ◌∙◌, ◌⊎◌, inl, inr, Option, none, some, String, List, [], ◌∷◌, ◌++◌, All, All-mono,
  subst,
}
use protun.Windows.RoutingTable.{
  Row, row_of, Route, v4, v6, RouteDeletionSuccess, ok, no_error, error_object_not_found,
  RoutingTable, deletion, delete_route,
}
use protun.Windows.Registry.{Registry, get_created_routes}
use protun.Windows.Routes.{Json, World, kept, delete_text, delete_texts, delete_created_routes}
use protun.Windows.Routes.Added.{HoldsRows, RoundTrips, IsNoted}
use protun.Windows.Routes.Tracked.{IsTracked, delete_texts-Noted}

deletion-no_error : deletion no_error ≡ ok RouteDeletionSuccess.deleted
unfolding deletion
deletion-no_error = refl

deletion-not_found : deletion error_object_not_found ≡ ok RouteDeletionSuccess.not_found
unfolding deletion
deletion-not_found = refl

module _ (r : RoutingTable) (g : Registry) (json : Json) (h : HoldsRows r)
    (j : RoundTrips json) where
  module _
      (succeeds : (t : r.Table) (row : Row)
        → ((r.delete_entry t row).1 ≡ no_error)
          ⊎ ((r.delete_entry t row).1 ≡ error_object_not_found)) where
    deletion-ok :
        (t : r.Table) (row : Row)
        → (s : RouteDeletionSuccess) × (deletion (r.delete_entry t row).1 ≡ ok s)
    deletion-ok t row = elim (succeeds t row) [
      | inl e ↦ (RouteDeletionSuccess.deleted, ap deletion e ∙ deletion-no_error)
      | inr e ↦ (RouteDeletionSuccess.not_found, ap deletion e ∙ deletion-not_found)
    ]

    delete_route-ok :
        (t : r.Table) (route : Route)
        → (s : RouteDeletionSuccess) × ((delete_route r t route).1 ≡ ok s)
    unfolding delete_route
    delete_route-ok t (v4 route) = deletion-ok t (row_of (v4 route))
    delete_route-ok t (v6 route) = deletion-ok t (row_of (v6 route))

    none_kept :
        (t : r.Table) (text : String) (o : Option Route) → (delete_text r g json t text o).1 ≡ []
    none_kept t text none = refl
    none_kept t text (some route) = ap (kept r g json text) (delete_route-ok t route).1

    none_again : (t : r.Table) (texts : List String) → (delete_texts r g json t texts).1 ≡ []
    unfolding delete_texts
    none_again t [] = refl
    none_again t (text ∷ texts) =
        let t' = (delete_text r g json t text (json.from_str text)).0 in
        ap (λ ts. ts ++ (delete_texts r g json t' texts).1) (none_kept t text (json.from_str text))
        ∙ none_again t' texts

    -- If moreover no deletion fails, `delete_created_routes` leaves no row in the table but the others: all
    -- routes to servers are gone.
    pub delete_created_routes-others :
        (Other : Row → Type 0) (w : World r g json)
        → IsTracked r g json h j Other w
        → All Other (h.entries (delete_created_routes r g json w).table)
    unfolding delete_created_routes
    delete_created_routes-others Other w all =
        let texts = get_created_routes g w.store in
        All-mono (IsNoted r g json Other []) Other
          (λ row n. elim n [ inl o ↦ o | inr a ↦ absurd a ])
          (h.entries (delete_texts r g json w.table texts).0)
          (subst
            (λ again.
              All (IsNoted r g json Other again)
                (h.entries (delete_texts r g json w.table texts).0))
            (none_again w.table texts) (delete_texts-Noted r g json h j Other w.table texts all))
