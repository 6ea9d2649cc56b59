-- ===== src/Fleet.antt =====
-- trajectories.go and timeseries.go: the summaries of a whole collection, and what they share: the reading of
-- MF-JSON documents, whose times parse by the layout of RFC 3339.
pub mod Trips
pub mod Clock
pub mod Series
pub mod Buckets
use mobility_api.Base.{suc, String, true, false, List, [], ◌∷◌, Option, none, some}
use mobility_api.Base.Int.{ℤ, pos, negsuc}
use mobility_api.Base.Float.{Float, dec}
use mobility_api.Base.Json.{Json, Fields, num, obj, member, as_arr, arr_of, str_of}
use mobility_api.Base.Time.{z_colon, parse_time}
use mobility_api.Base.Time.Print.{unix_time}
use mobility_api.Http.{Result, ok, err}
use mobility_api.Ogcify.{rfc3339_tz}
use mobility_api.Subresource.{as_map}

-- An int64 as JSON writes it.
unfoldable pub num_int : ℤ → Json
num_int (pos n) = num (dec false n 0 0)
num_int (negsuc n) = num (dec true (suc n) 0 0)

-- time.Parse(time.RFC3339, rfc3339Tz(ts)), in seconds since 1970.
unfoldable pub epoch_of : Json → Option ℤ
epoch_of ts = elim (parse_time true z_colon (rfc3339_tz (str_of ts))) [
  | none ↦ none
  | some m ↦ some (unix_time m)
]

-- The pairs of the two lists, as many as the shorter one has.
unfoldable pub pairs : List Json → List Json → List (Json × Json)
pairs [] ys = []
pairs (x ∷ xs) [] = []
pairs (x ∷ xs) (y ∷ ys) = (x, y) ∷ pairs xs ys

-- The parts of a document that are read for themselves: the objects of `sequences` if it is a list, else
-- the document.
objects : List Json → List Json
objects [] = []
objects (obj m ∷ vs) = obj m ∷ objects vs
objects (v ∷ vs) = objects vs

or_whole : Json → Option (List Json) → List Json
unfolding objects
or_whole doc none = doc ∷ []
or_whole doc (some seqs) = objects seqs

of_map : Result Fields → List Json
unfolding or_whole
of_map (err e) = []
of_map (ok m) = or_whole (obj m) (as_arr (member "sequences" (obj m)))

unfoldable pub sequences : Json → List Json
unfolding of_map
sequences doc = of_map (as_map doc)
