-- ===== src/Windows/Registry.antt =====
-- utils/windows/registry_editor.rs: the routes that ProTun has created, kept in the registry as texts.
use protun.Base.{
  Option, none, some, String, String_discrete, List, [], ◌∷◌, Any, ◌≡◌, sym, subst, inl, inr,
}
use protun.Vectors.{distinct}
use protun.Vectors.Firsts.{Any-distinct}

-- The registry: the value `RoutingTable` under the key of ProTun, if it can be read, and a write of it,
-- which changes nothing if it fails.
pub record Registry : Type 1 where
  pub Store : Type 0
  pub get_value : Store → Option (List String)
  pub set_value : Store → List String → Store

-- The texts that are not empty.
abbrev pub nonempty : List String → List String
nonempty [] = []
nonempty (String.[] ∷ ts) = nonempty ts
nonempty (String.◌∷◌ c s ∷ ts) = String.◌∷◌ c s ∷ nonempty ts

abbrev pub stored : Option (List String) → List String
stored none = []
stored (some routes) = distinct String_discrete (nonempty routes)

module _ (g : Registry) where
  unfoldable pub get_created_routes : g.Store → List String
  get_created_routes store = stored (g.get_value store)

  unfoldable pub set_created_routes : g.Store → List String → g.Store
  set_created_routes store routes = g.set_value store (distinct String_discrete (nonempty routes))

-- What holds of some text that is not empty holds of one that is kept.
Any-nonempty :
    (P : String → Type 0)
    → ¬ P String.[]
    → (texts : List String) → Any P texts
    → Any P (nonempty texts)
Any-nonempty P not_empty [] h = h
Any-nonempty P not_empty (String.[] ∷ texts) (inl p) = absurd (not_empty p)
Any-nonempty P not_empty (String.[] ∷ texts) (inr h) = Any-nonempty P not_empty texts h
Any-nonempty P not_empty (String.◌∷◌ c s ∷ texts) (inl p) = inl p
Any-nonempty P not_empty (String.◌∷◌ c s ∷ texts) (inr h) = inr (Any-nonempty P not_empty texts h)

pub Any-stored :
    (P : String → Type 0)
    → ¬ P String.[]
    → (texts : List String) → Any P texts
    → Any P (distinct String_discrete (nonempty texts))
Any-stored P not_empty texts h =
    Any-distinct String_discrete P (nonempty texts) (Any-nonempty P not_empty texts h)

-- A registry that can be written and read.
abbrev pub IsKept : Registry → Type 0
IsKept g =
    (store : g.Store) (routes : List String) → g.get_value (g.set_value store routes) ≡ some routes

pub Any-set_created_routes :
    (g : Registry) (kept : IsKept g) (P : String → Type 0)
    → ¬ P String.[]
    → (store : g.Store) (texts : List String) → Any P texts
    → Any P (get_created_routes g (set_created_routes g store texts))
unfolding get_created_routes set_created_routes
Any-set_created_routes g kept P not_empty store texts h =
    let written = distinct String_discrete (nonempty texts) in
    subst (λ o. Any P (stored o)) (sym (kept store written))
      (Any-stored P not_empty written (Any-stored P not_empty texts h))
