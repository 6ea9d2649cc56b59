-- ===== src/Routes.antt =====
-- main.go: newMux, the routes of the tier, and how a router of the standard library serves them: the most
-- specific of the patterns that match a request.
pub mod Within
pub mod Apart
pub mod Specific
pub mod Paths
pub mod Links
use mobility_api.Base.{
  String, Bool, true, false, not, ◌&&◌, ◌||◌, List, [], ◌∷◌, Option, none, some, ◌==◌,
  if◌then◌else◌, is_some, any,
}
use mobility_api.Base.Text.{is_nil, split}

-- A segment of a pattern: a text, or a wildcard with its name.
pub data Part : Type 0 where
  at : String → Part
  wild : String → Part

-- The handlers, by their names in the source; `health` is a literal.
pub data Endpoint : Type 0 where
  to_health : Endpoint
  to_landing : Endpoint
  to_api_doc : Endpoint
  to_conformance : Endpoint
  to_list_collections : Endpoint
  to_post_collection : Endpoint
  to_get_collection : Endpoint
  to_put_collection : Endpoint
  to_delete_collection : Endpoint
  to_trajectories : Endpoint
  to_timeseries : Endpoint
  to_stream_items : Endpoint
  to_get_item : Endpoint
  to_post_item : Endpoint
  to_export : Endpoint
  to_bulk_ingest : Endpoint
  to_tg_sequence : Endpoint
  to_tg_sequence_query : Endpoint
  to_list_tproperties : Endpoint
  to_get_tproperty : Endpoint
  to_put_item : Endpoint
  to_delete_item : Endpoint
  to_post_tg_sequence : Endpoint
  to_post_tproperties : Endpoint
  to_post_tproperty_values : Endpoint
  to_delete_tproperty : Endpoint
  to_delete_tproperty_value : Endpoint
  to_delete_tg_sequence : Endpoint
  to_post_query : Endpoint
  to_list_queries : Endpoint
  to_get_query : Endpoint
  to_stream_query : Endpoint
  to_delete_query : Endpoint
  to_ingest_property : Endpoint
  to_post_geometry_query : Endpoint
  to_list_geometry_queries : Endpoint

-- `subtree` holds of the pattern that ends in a slash, which matches every path below it.
pub record Pattern : Type 0 where
  pub method : String
  pub parts : List Part
  pub subtree : Bool
  pub endpoint : Endpoint

route : String → List Part → Endpoint → Pattern
route method parts endpoint = record {
  method = method;
  parts = parts;
  subtree = false;
  endpoint = endpoint;
}

collection : List Part → List Part
collection rest = at "collections" ∷ wild "cid" ∷ rest

item : List Part → List Part
unfolding collection
item rest = collection (at "items" ∷ wild "fid" ∷ rest)

property : List Part → List Part
unfolding item
property rest = item (at "tproperties" ∷ wild "pname" ∷ rest)

geometry : List Part → List Part
unfolding item
geometry rest = item (at "tgsequence" ∷ rest)

-- newMux, in the order of the source.
unfoldable pub routes : List Pattern
unfolding route collection item property geometry
routes =
    route "GET" (at "health" ∷ []) to_health
    ∷ record { method = "GET"; parts = []; subtree = true; endpoint = to_landing }
    ∷ route "GET" (at "api" ∷ []) to_api_doc
    ∷ route "GET" (at "conformance" ∷ []) to_conformance
    ∷ route "GET" (at "collections" ∷ []) to_list_collections
    ∷ route "POST" (at "collections" ∷ []) to_post_collection
    ∷ route "GET" (collection []) to_get_collection
    ∷ route "PUT" (collection []) to_put_collection
    ∷ route "DELETE" (collection []) to_delete_collection
    ∷ route "GET" (collection (at "trajectories" ∷ [])) to_trajectories
    ∷ route "GET" (collection (at "timeseries" ∷ [])) to_timeseries
    ∷ route "GET" (collection (at "items" ∷ [])) to_stream_items
    ∷ route "GET" (item []) to_get_item
    ∷ route "POST" (collection (at "items" ∷ [])) to_post_item
    ∷ route "GET" (collection (at "export" ∷ [])) to_export
    ∷ route "POST" (collection (at "bulk" ∷ [])) to_bulk_ingest
    ∷ route "GET" (geometry []) to_tg_sequence
    ∷ route "GET" (geometry (wild "tgid" ∷ wild "qtype" ∷ [])) to_tg_sequence_query
    ∷ route "GET" (item (at "tproperties" ∷ [])) to_list_tproperties
    ∷ route "GET" (property []) to_get_tproperty
    ∷ route "PUT" (item []) to_put_item
    ∷ route "DELETE" (item []) to_delete_item
    ∷ route "POST" (geometry []) to_post_tg_sequence
    ∷ route "POST" (item (at "tproperties" ∷ [])) to_post_tproperties
    ∷ route "POST" (property []) to_post_tproperty_values
    ∷ route "DELETE" (property []) to_delete_tproperty
    ∷ route "DELETE" (property (wild "tvid" ∷ [])) to_delete_tproperty_value
    ∷ route "DELETE" (geometry (wild "tgid" ∷ [])) to_delete_tg_sequence
    ∷ route "POST" (property (at "queries" ∷ [])) to_post_query
    ∷ route "GET" (property (at "queries" ∷ [])) to_list_queries
    ∷ route "GET" (property (at "queries" ∷ wild "qid" ∷ [])) to_get_query
    ∷ route "GET" (property (at "queries" ∷ wild "qid" ∷ at "stream" ∷ [])) to_stream_query
    ∷ route "DELETE" (property (at "queries" ∷ wild "qid" ∷ [])) to_delete_query
    ∷ route "POST" (property (at "ingest" ∷ [])) to_ingest_property
    ∷ route "POST" (geometry (at "queries" ∷ [])) to_post_geometry_query
    ∷ route "GET" (geometry (at "queries" ∷ [])) to_list_geometry_queries
    ∷ route "GET" (geometry (at "queries" ∷ wild "qid" ∷ [])) to_get_query
    ∷ route "GET" (geometry (at "queries" ∷ wild "qid" ∷ at "stream" ∷ [])) to_stream_query
    ∷ route "DELETE" (geometry (at "queries" ∷ wild "qid" ∷ [])) to_delete_query
    ∷ []

-- The values of the wildcards, by their names.
abbrev pub Values : Type 0
Values = List (String × String)

unfoldable pub bind : String → String → Option Values → Option Values
bind name s none = none
bind name s (some vs) = some ((name, s) ∷ vs)

-- A wildcard takes a segment that is not empty.
unfoldable pub match_parts : List Part → Bool → List String → Option Values
unfolding bind
match_parts [] true ss = some []
match_parts [] false [] = some []
match_parts [] false (s ∷ ss) = none
match_parts (p ∷ ps) subtree [] = none
match_parts (at t ∷ ps) subtree (s ∷ ss) =
    let rest = match_parts ps subtree ss in if t == s then rest else none
match_parts (wild name ∷ ps) subtree (s ∷ ss) =
    let rest = match_parts ps subtree ss in if is_nil s then none else bind name s rest

-- A pattern for GET also serves HEAD.
unfoldable pub takes : String → String → Bool
takes pattern method = (pattern == method) || ((pattern == "GET") && (method == "HEAD"))

unfoldable pub serves : String → List String → Pattern → Option Values
unfolding takes match_parts
serves method path p = if takes p.method method then match_parts p.parts p.subtree path else none

unfoldable pub part_within : Part → Part → Bool
part_within (at t) (at u) = t == u
part_within (wild m) (at u) = false
part_within p (wild n) = true

unfoldable pub parts_within : List Part → Bool → List Part → Bool → Bool
unfolding part_within
parts_within ps sub [] true = true
parts_within [] false [] false = true
parts_within [] true [] false = false
parts_within (p ∷ ps) sub [] false = false
parts_within [] sub (q ∷ qs) sub' = false
parts_within (p ∷ ps) sub (q ∷ qs) sub' = part_within p q && parts_within ps sub qs sub'

-- The paths of p are among those of q.
unfoldable pub is_within : Pattern → Pattern → Bool
unfolding parts_within
is_within p q = parts_within p.parts p.subtree q.parts q.subtree

-- The more specific of what was found and another pattern that matches.
unfoldable pub better :
    Option Values → Pattern → Option (Pattern × Values) → Option (Pattern × Values)
unfolding is_within
better none p found = found
better (some vs) p none = some (p, vs)
better (some vs) p (some (q, ws)) = if is_within p q then some (p, vs) else some (q, ws)

unfoldable pub best : String → List String → List Pattern → Option (Pattern × Values)
unfolding better serves
best method path [] = none
best method path (p ∷ ps) = better (serves method path p) p (best method path ps)

-- The segments of a path, which starts with a slash.
unfoldable pub segments : String → List String
unfolding split
segments path = elim (split b'/' path) [ [] ↦ [] | s ∷ ss ↦ ss ]

pub data Answer : Type 0 where
  served : Endpoint → Values → Answer
  method_not_allowed : Answer
  not_found : Answer

unfoldable pub answer_of : Option (Pattern × Values) → Bool → Answer
answer_of (some (p, vs)) other = served p.endpoint vs
answer_of none true = method_not_allowed
answer_of none false = not_found

-- A path that only another method is served on is answered by 405.
unfoldable pub dispatch_request : String → String → Answer
unfolding best segments answer_of routes match_parts
dispatch_request method path =
    answer_of (best method (segments path) routes)
      (any (λ p. is_some (match_parts p.parts p.subtree (segments path))) routes)
