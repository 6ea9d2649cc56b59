-- ===== src/ApiDoc/Served.antt =====
-- The operations of the API document against the routes.
use Prim.Native.String.{◌++◌}
use mobility_api.Base.{
  ℕ, String, ◌≡◌, refl, Bool, true, ◌&&◌, List, [], ◌∷◌, any, all, All, ◌==◌, if◌then◌else◌,
}
use mobility_api.Base.Text.{to_upper}
use mobility_api.Base.Split.{and_true}
use mobility_api.Base.Json.{Json, obj, Fields, end, field, member}
use mobility_api.Routes.{
  Part, at, wild, Pattern, Endpoint, to_health, to_trajectories, to_timeseries, routes,
}
use mobility_api.ApiDoc.{api_doc}

-- The methods of one path, and those of all paths.
methods_of : String → Fields → List (String × String) → List (String × String)
methods_of path end later = later
methods_of path (field method v fs) later = (path, method) ∷ methods_of path fs later

operations_of : Fields → List (String × String)
unfolding methods_of
operations_of end = []
operations_of (field path (obj fs) rest) = methods_of path fs (operations_of rest)
operations_of (field path v rest) = operations_of rest

below_paths : Json → List (String × String)
unfolding operations_of
below_paths (obj fs) = operations_of fs
below_paths v = []

-- The operations of an OpenAPI document, as their paths and methods.
unfoldable pub documented : Json → List (String × String)
unfolding below_paths
documented doc = below_paths (member "paths" doc)

parts_text : List Part → String
parts_text [] = ""
parts_text (at t ∷ ps) = "/" ++ (t ++ parts_text ps)
parts_text (wild name ∷ ps) = "/{" ++ (name ++ ("}" ++ parts_text ps))

path_text : Pattern → String
unfolding parts_text
path_text p = if p.subtree then "/" else parts_text p.parts

states : String × String → Pattern → Bool
unfolding path_text
states (path, method) p = (path_text p == path) && (p.method == to_upper method)

-- A route has the path, with its wildcards by name, and the method.
unfoldable pub IsRouted : String × String → Type 0
unfolding states
IsRouted o = any (states o) routes ≡ true

unfoldable pub undocumented : Json → List Pattern → List Endpoint
unfolding states documented
undocumented doc [] = []
undocumented doc (p ∷ ps) =
    let rest = undocumented doc ps in
    if any (λ o. states o p) (documented doc) then rest else p.endpoint ∷ rest

all-All : {A : Type 0} (f : A → Bool) (xs : List A) → all f xs ≡ true → All (λ x. f x ≡ true) xs
all-All f [] h = tt
all-All f (x ∷ xs) h = let (first, rest) = and_true (f x) (all f xs) h in (first, all-All f xs rest)

-- Whatever the limits of a page are, each operation that the API document states has a route, with the
-- same path, names of wildcards and method, and the document states each route but the health check, the
-- trajectories and the time series.
pub api_doc-IsRouted :
    (default max : ℕ)
    → All IsRouted (documented (api_doc default max))
      × (undocumented (api_doc default max) routes
          ≡ to_health ∷ to_trajectories ∷ to_timeseries ∷ [])
unfolding IsRouted undocumented documented api_doc routes to_upper
api_doc-IsRouted default max =
    (all-All (λ o. any (states o) routes) (documented (api_doc default max)) refl, refl)
