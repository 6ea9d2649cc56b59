-- ===== src/Landing.antt =====
-- main.go: the landing page and the conformance declaration.
use mobility_api.Base.{String, [], ◌∷◌, map}
use mobility_api.Base.Json.{Json, str, object, array}
use mobility_api.Http.{Response, write_json}

link_to : String → String → String → Json
link_to rel href type = object (("rel", str rel) ∷ ("href", str href) ∷ ("type", str type) ∷ [])

unfoldable pub landing : Response
unfolding link_to
landing = write_json 200 (
    object (
      ("title", str "MobilityAPI-go")
      ∷ ("description", str "OGC API – Moving Features over MobilityDB")
      ∷ (
        "links",
        array (
            link_to "self" "/" "application/json"
            ∷ link_to "service-desc" "/api" "application/vnd.oai.openapi+json;version=3.0"
            ∷ link_to "conformance" "/conformance" "application/json"
            ∷ link_to "data" "/collections" "application/json"
            ∷ []),
      )
      ∷ []))

unfoldable pub conformance : Response
conformance = write_json 200 (
    object (
      (
        "conformsTo",
        array (
            map str (
              "http://www.opengis.net/spec/ogcapi-movingfeatures-1/1.0/conf/common"
              ∷ "http://www.opengis.net/spec/ogcapi-movingfeatures-1/1.0/conf/mf-collection"
              ∷ "http://www.opengis.net/spec/ogcapi-movingfeatures-1/1.0/conf/movingfeatures"
              ∷ "http://www.opengis.net/spec/ogcapi-movingfeatures-4/1.0/conf/cquery"
              ∷ "http://www.opengis.net/spec/ogcapi-common-1/1.0/conf/core"
              ∷ "http://www.opengis.net/spec/ogcapi-common-2/1.0/conf/collections" ∷ [])),
      )
      ∷ []))
