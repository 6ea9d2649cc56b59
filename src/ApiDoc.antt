-- ===== src/ApiDoc.antt =====
-- main.go: apiDoc, the OpenAPI definition of the tier. The members stand in the order of the source, and
-- the limits of a page are those of the process.
pub mod Parameters
pub mod Served
use mobility_api.Base.{ℕ, String, Bool, true, false, List, [], ◌∷◌}
use mobility_api.Base.Float.{Float, dec}
use mobility_api.Base.Json.{Json, bool, num, str, object, array, obj, Fields, end, field}
use mobility_api.ApiDoc.Parameters.{
  op, get_only, limit_param, bbox_param, datetime_param, leaf_param, sub_trajectory_param,
  sub_temporal_value_param, with_params,
}

unfoldable api_paths : ℕ → ℕ → List (String × Json)
unfolding op get_only limit_param bbox_param datetime_param leaf_param sub_trajectory_param
    sub_temporal_value_param with_params
api_paths default max =
    ("/", get_only "Landing page")
    ∷ ("/api", get_only "API definition")
    ∷ ("/conformance", get_only "Conformance declaration")
    ∷ (
      "/collections",
      object (
          ("get", with_params (op "Moving feature collections") ((limit_param default max) ∷ []))
          ∷ ("post", op "Register a new collection")
          ∷ []),
    )
    ∷ (
      "/collections/{cid}",
      object (
          ("get", op "Collection metadata")
          ∷ ("put", op "Replace collection metadata")
          ∷ ("delete", op "Delete a collection")
          ∷ []),
    )
    ∷ (
      "/collections/{cid}/items",
      object (
          (
            "get",
            with_params
                (op "Moving features (streamed, keyset-paged; bbox/datetime/subtrajectory filters)")
                ((limit_param default max)
                  ∷ bbox_param
                  ∷ datetime_param
                  ∷ sub_trajectory_param
                  ∷ []),
          )
          ∷ ("post", op "Insert a moving feature")
          ∷ []),
    )
    ∷ (
      "/collections/{cid}/items/{fid}",
      object (
          ("get", op "A moving feature as a Feature")
          ∷ ("put", op "Replace a moving feature")
          ∷ ("delete", op "Delete a moving feature")
          ∷ []),
    )
    ∷ (
      "/collections/{cid}/items/{fid}/tgsequence",
      object (
          (
            "get",
            with_params
                (op
                  "Temporal geometry sequence (TemporalGeometrySequence; members addressable by their 1-based id)")
                ((limit_param default max)
                  ∷ bbox_param
                  ∷ datetime_param
                  ∷ leaf_param
                  ∷ sub_trajectory_param
                  ∷ []),
          )
          ∷ ("post", op "Append a temporally-disjoint member sequence")
          ∷ []),
    )
    ∷ (
      "/collections/{cid}/items/{fid}/tgsequence/{tgid}",
      object (("delete", op "Delete a temporal primitive geometry (member sequence) by id") ∷ []),
    )
    ∷ (
      "/collections/{cid}/items/{fid}/tgsequence/{tgid}/{qtype}",
      get_only
          "Derived query on a member geometry: distance | velocity (acceleration → 501, not derivable for this motion model)",
    )
    ∷ (
      "/collections/{cid}/items/{fid}/tproperties",
      object (
          (
            "get",
            with_params (op "Stored temporal properties of a feature")
                ((limit_param default max) ∷ datetime_param ∷ []),
          )
          ∷ (
            "post",
            op
                "Add one or more temporal properties (TReal | TInteger | TText | TBoolean) to a feature",
          )
          ∷ []),
    )
    ∷ (
      "/collections/{cid}/items/{fid}/tproperties/{pname}",
      object (
          (
            "get",
            with_params (op "A stored temporal property as an OGC temporalProperty")
                (datetime_param ∷ leaf_param ∷ sub_temporal_value_param ∷ []),
          )
          ∷ ("post", op "Append values to a temporal property (temporally disjoint; overlap → 409)")
          ∷ ("delete", op "Delete a temporal property")
          ∷ []),
    )
    ∷ (
      "/collections/{cid}/items/{fid}/tproperties/{pname}/{tvid}",
      object (
          (
            "delete",
            op "Delete a temporal primitive value (member value sequence) by its 1-based id",
          )
          ∷ []),
    )
    ∷ (
      "/collections/{cid}/items/{fid}/tproperties/{pname}/queries",
      object (
          ("get", op "List the continuous queries on a temporal property")
          ∷ (
            "post",
            op
                "Register a continuous query (MF Part 4): a lifted transform (operation), or a windowed aggregation (aggregation + window: COUNT | TUMBLING | HOPPING). Set live:true to source from pushed records",
          )
          ∷ []),
    )
    ∷ (
      "/collections/{cid}/items/{fid}/tproperties/{pname}/queries/{qid}",
      object (
          ("get", op "Continuous-query status (the cquery link object)")
          ∷ ("delete", op "Stop a continuous query")
          ∷ []),
    )
    ∷ (
      "/collections/{cid}/items/{fid}/tproperties/{pname}/queries/{qid}/stream",
      get_only "Continuous-query results as Server-Sent Events (see api/streaming-asyncapi.yaml)",
    )
    ∷ (
      "/collections/{cid}/items/{fid}/tproperties/{pname}/ingest",
      object (
          ("post", op "Push a live record ({datetime, value}) to the live queries on the property")
          ∷ []),
    )
    ∷ (
      "/collections/{cid}/items/{fid}/tgsequence/queries",
      object (
          ("get", op "List the geometry (position) continuous queries of a feature")
          ∷ (
            "post",
            op "Register a geometry continuous query streaming the moving feature's position",
          )
          ∷ []),
    )
    ∷ (
      "/collections/{cid}/items/{fid}/tgsequence/queries/{qid}",
      object (
          ("get", op "Geometry continuous-query status (the cquery link object)")
          ∷ ("delete", op "Stop a geometry continuous query")
          ∷ []),
    )
    ∷ (
      "/collections/{cid}/items/{fid}/tgsequence/queries/{qid}/stream",
      get_only "Moving-feature positions as Server-Sent Events (see api/streaming-asyncapi.yaml)",
    )
    ∷ (
      "/collections/{cid}/export",
      get_only "Bulk lakehouse export: NDJSON, or ?format=parquet (WKB + bbox/time sidecar)",
    )
    ∷ (
      "/collections/{cid}/bulk",
      object (
          (
            "post",
            op
                "Bulk ingest (extension): a batch of (vehicleId, position, time) observations as GeoJSON Points or GeoParquet, optionally gzip/deflate/br/zstd-compressed; each is appended as one instant",
          )
          ∷ []),
    )
    ∷ []

-- apiDoc
unfoldable pub api_doc : ℕ → ℕ → Json
unfolding api_paths
api_doc default max = object (
    ("openapi", str "3.0.3")
    ∷ (
      "info",
      object (
          ("title", str "MobilityAPI-go")
          ∷ ("version", str "1.0.0")
          ∷ ("description", str "OGC API – Moving Features over MobilityDB")
          ∷ []),
    )
    ∷ ("paths", object (api_paths default max))
    ∷ [])
