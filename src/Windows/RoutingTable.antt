-- ===== src/Windows/RoutingTable.antt =====
-- connection/windows/helpers/routing_table.rs: the routes that are added to the table of the system and
-- deleted from it.
use protun.Io
use protun.Io.{IpAddr}
use mathlib.Core.Option
use protun.Base.{ℕ, Option, List, [], ◌∷◌, ◌==◌, if◌then◌else◌}

pub record IpRoute : Type 0 where
  pub destination_ip_addr : ℕ
  pub destination_prefix_length : ℕ
  pub next_hop_address : Option ℕ
  pub interface_index : ℕ

-- `Ipv4Route` and `Ipv6Route` have the same fields.
pub data Route : Type 0 where
  v4 v6 : IpRoute → Route

pub data RouteCreationError : Type 0 where
  already_exists protocol_disabled : RouteCreationError
  unknown : ℕ → RouteCreationError

pub data RouteDeletionSuccess : Type 0 where
  deleted not_found : RouteDeletionSuccess

pub data RouteResult (E A : Type 0) : Type 0 where
  ok : A → RouteResult E A
  err : E → RouteResult E A

-- The codes of the system.
abbrev pub no_error : ℕ
no_error = 0

abbrev pub error_not_found : ℕ
error_not_found = 1168

abbrev pub error_object_not_found : ℕ
error_object_not_found = 4312

abbrev pub error_object_already_exists : ℕ
error_object_already_exists = 5010

-- A row of the table. One that is initialised has no next hop.
pub record Row : Type 0 where
  pub destination : IpAddr
  pub prefix_length : ℕ
  pub next_hop : Option IpAddr
  pub interface_index : ℕ
  pub metric : ℕ

unfoldable pub row_of : Route → Row
row_of (v4 route) = record {
  destination = Io.v4 route.destination_ip_addr;
  prefix_length = route.destination_prefix_length;
  next_hop = Option.map Io.v4 route.next_hop_address;
  interface_index = route.interface_index;
  metric = 1;
}
row_of (v6 route) = record {
  destination = Io.v6 route.destination_ip_addr;
  prefix_length = route.destination_prefix_length;
  next_hop = Option.map Io.v6 route.next_hop_address;
  interface_index = route.interface_index;
  metric = 1;
}

-- The table of the system: a call gives its code, a failed reading of the table nothing.
pub record RoutingTable : Type 1 where
  pub Table : Type 0
  pub create_entry : Table → Row → Table × ℕ
  pub delete_entry : Table → Row → Table × ℕ
  pub rows : Table → Option (List Row)

unfoldable pub created_v4 : ℕ → RouteResult RouteCreationError (Unit {0})
created_v4 code =
    if code == no_error
    then ok tt
    else if code == error_object_already_exists
    then err already_exists
    else err (unknown code)

unfoldable pub created_v6 : ℕ → RouteResult RouteCreationError (Unit {0})
created_v6 code =
    if code == no_error
    then ok tt
    else if code == error_object_already_exists
    then err already_exists
    else if code == error_not_found
    then err protocol_disabled
    else err (unknown code)

-- The code of an error stands for its text.
unfoldable pub deletion : ℕ → RouteResult ℕ RouteDeletionSuccess
deletion code =
    if code == no_error
    then ok deleted
    else if code == error_object_not_found
    then ok not_found
    else err code

module _ (r : RoutingTable) where
  unfoldable pub add_v4_route :
      r.Table → IpRoute → r.Table × RouteResult RouteCreationError (Unit {0})
  unfolding created_v4 row_of
  add_v4_route t route =
      let (t', code) = r.create_entry t (row_of (v4 route)) in (t', created_v4 code)

  unfoldable pub add_v6_route :
      r.Table → IpRoute → r.Table × RouteResult RouteCreationError (Unit {0})
  unfolding created_v6 row_of
  add_v6_route t route =
      let (t', code) = r.create_entry t (row_of (v6 route)) in (t', created_v6 code)

  unfoldable pub add_route : r.Table → Route → r.Table × RouteResult RouteCreationError (Unit {0})
  unfolding add_v4_route add_v6_route
  add_route t (v4 route) = add_v4_route t route
  add_route t (v6 route) = add_v6_route t route

  unfoldable pub delete_v4_route : r.Table → IpRoute → r.Table × RouteResult ℕ RouteDeletionSuccess
  unfolding deletion row_of
  delete_v4_route t route =
      let (t', code) = r.delete_entry t (row_of (v4 route)) in (t', deletion code)

  unfoldable pub delete_v6_route : r.Table → IpRoute → r.Table × RouteResult ℕ RouteDeletionSuccess
  unfolding deletion row_of
  delete_v6_route t route =
      let (t', code) = r.delete_entry t (row_of (v6 route)) in (t', deletion code)

  unfoldable pub delete_route : r.Table → Route → r.Table × RouteResult ℕ RouteDeletionSuccess
  unfolding delete_v4_route delete_v6_route
  delete_route t (v4 route) = delete_v4_route t route
  delete_route t (v6 route) = delete_v6_route t route

  abbrev pub of_interface : ℕ → List Row → List Row
  of_interface index [] = []
  of_interface index (row ∷ rows) =
      let rest = of_interface index rows in
      if row.interface_index == index then row ∷ rest else rest

  abbrev pub rows_or_none : Option (List Row) → List Row
  rows_or_none Option.none = []
  rows_or_none (Option.some rows) = rows

  unfoldable pub get_interface_rows : r.Table → ℕ → List Row
  get_interface_rows t index = of_interface index (rows_or_none (r.rows t))

  unfoldable pub delete_rows :
      r.Table → List Row → r.Table × List (RouteResult ℕ RouteDeletionSuccess)
  unfolding deletion
  delete_rows t [] = (t, [])
  delete_rows t (row ∷ rows) =
      let (t', code) = r.delete_entry t row in
      let (t'', results) = delete_rows t' rows in (t'', deletion code ∷ results)

  unfoldable pub delete_routes : r.Table → ℕ → r.Table × List (RouteResult ℕ RouteDeletionSuccess)
  unfolding get_interface_rows delete_rows
  delete_routes t index = delete_rows t (get_interface_rows t index)
