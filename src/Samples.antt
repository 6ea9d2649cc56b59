-- ===== src/Samples.antt =====
-- samples.go: the walk over the tier's own resources that writes one document for each of them. `read` is
-- the answer of the routes to a GET: its status, its text, and the text as JSON where it is.
pub mod Emit
pub mod First
pub mod Complete
pub mod Routed
use Prim.Native.String.{◌++◌}
use mobility_api.Base.{ℕ, String, List, [], ◌∷◌, Option, some, eqb, map, is_some, if◌then◌else◌}
use mobility_api.Base.Int.{pos, itoa}
use mobility_api.Base.Text.{trim_space}
use mobility_api.Base.Float.{Float}
use mobility_api.Base.Json.{Json, null, num, str, arr, obj, cons, member}
use mobility_api.Http.{failed, Result, ok, err}

pub record Read : Type 0 where
  pub code : ℕ
  pub body : String
  pub document : Option Json

-- sample
pub record Sample : Type 0 where
  pub file : String
  pub path : String
  pub what : String

-- The printers of a float64 and of any other value, and the text of the decoder's refusal, are
-- parameters.
module _ (format_float : Float → String) (sprint : Json → String)
    (reason : Option Json → String) where
  unfoldable pub text_of : String → String → Json → Result String
  text_of array field (str s) = ok s
  text_of array field (num v) = ok (format_float v)
  text_of array field null =
      err (failed ("the first member of " ++ (array ++ (" carries no " ++ field))))
  text_of array field v = ok (sprint v)

  unfoldable pub field_of : String → String → Json → Result String
  unfolding text_of
  field_of array field (obj fs) = text_of array field (member field (obj fs))
  field_of array field v = err (failed ("the first member of " ++ (array ++ " is not an object")))

  unfoldable pub first_of : String → String → Json → Result String
  unfolding field_of
  first_of array field (arr (cons m ms)) = field_of array field m
  first_of array field v = err (failed ("the document carries no " ++ (array ++ " to sample")))

  -- firstMember; null decodes into a map without members.
  unfoldable pub first_member : Option Json → String → String → Result String
  unfolding first_of
  first_member (some (obj fs)) array field = first_of array field (member array (obj fs))
  first_member (some null) array field = first_of array field null
  first_member d array field =
      err (failed ("the " ++ (array ++ (" document is not JSON: " ++ reason d))))

sample : String → String → String → Sample
sample file path what = record { file = file; path = path; what = what }

-- The set of a collection, of a feature and of a property.
unfoldable pub samples : String → String → String → List Sample
unfolding sample
samples cid fid pname =
    let collection = "/collections/" ++ cid in
    let feature = collection ++ ("/items/" ++ fid) in
    let tgseq = feature ++ "/tgsequence/1" in
    sample "landing-page" "/" "the landing page"
    ∷ sample "api-definition" "/api" "the API definition"
    ∷ sample "conformance-declaration" "/conformance" "the conformance declaration"
    ∷ sample "collections" "/collections" "the Collections document"
    ∷ sample "collection" collection "a Collection document"
    ∷ sample "moving-feature-collection" (collection ++ "/items")
        "a MovingFeatureCollection document"
    ∷ sample "moving-feature" feature "a MovingFeature document"
    ∷ sample "temporal-geometry-sequence" (feature ++ "/tgsequence")
        "a TemporalGeometrySequence document"
    ∷ sample "temporal-geometry-distance" (tgseq ++ "/distance")
        "the distance a temporal primitive geometry covers"
    ∷ sample "temporal-geometry-velocity" (tgseq ++ "/velocity")
        "the velocity along a temporal primitive geometry"
    ∷ sample "temporal-geometry-acceleration" (tgseq ++ "/acceleration")
        "the acceleration along a temporal primitive geometry"
    ∷ sample "temporal-properties" (feature ++ "/tproperties") "a TemporalProperties document"
    ∷ sample "temporal-property" (feature ++ ("/tproperties/" ++ pname))
        "a TemporalProperty document"
    ∷ []
