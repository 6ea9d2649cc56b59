-- ===== src/Stream/Requests.antt =====
-- stream.go, stream_geometry.go and stream_live.go: the handlers of the streaming tier.
use Prim.Native.String.{◌++◌}
use mobility_api.Base.{
  ℕ, String, Bool, true, false, List, [], ◌∷◌, Option, none, some, if◌then◌else◌, length,
}
use mobility_api.Base.Text.{trim_space, is_nil}
use mobility_api.Base.Int.{ℤ}
use mobility_api.Base.Float.{Float}
use mobility_api.Base.Json.{Json, num, object, array}
use mobility_api.Backend.{int, text, Backend}
use mobility_api.Http.{
  error_text, Result, ok, err, Response, write_json, write_header, http_err, Outcome, Handler, pure,
  or_respond, some_or, ◌>>=◌, ◌>>◌, go,
}
use mobility_api.PropType.{tprop_type}
use mobility_api.Store.{
  ident, collection_meta, no_collection, no_feature, require_fid, server_error, bad_request, row_or,
  scan_text,
}
use mobility_api.Stream.{Instant, QuerySpec}
use mobility_api.Stream.Engines.{Env, Engine, Engines, engine_for, stream_engine}
use mobility_api.Stream.Sources.{replay_source, geometry_events}
use mobility_api.Stream.Registry.{
  Query, Registry, Hub, register, get, remove, list, cquery_link, live_key, hub_subscribe,
  hub_cancel, publish,
}
use mobility_api.Stream.Asking.{QueryBody, ask, column_of, interval_of, ogc_of, spec_of}

-- The tier: the database, the registry, the hub and the engines.
pub record Tier (S : Type 0) : Type 0 where
  pub store : S
  pub registry : Registry
  pub hub : Hub
  pub engines : Engines

engine_name : Result Engine → String
engine_name (ok e) = e.name
engine_name (err x) = ""

module _ {S T : Type 0} (db : Backend S T) (env : Env) (origin : String) where
  -- A read of the database under the tier.
  abbrev pub reading : {A : Type 0} → (S → A) → Handler (Tier S) A
  reading f t = (go (f t.store), t)

  abbrev tier_collection : String → Handler (Tier S) (String × ℤ)
  tier_collection cid t = some_or (collection_meta db cid t.store) no_collection t

  unfoldable pub with_engine : String → Handler (Tier S) (Result Engine)
  unfolding engine_for
  with_engine name t = let r = engine_for env name t.engines in (go r.0, record t { engines = r.1 })

  -- The engine's name is looked up, and built, where the query names none.
  unfoldable pub link_of : Query → Tier S → Json × Tier S
  unfolding engine_name cquery_link stream_engine
  link_of q t =
      let r = stream_engine env t.engines in
      if is_nil q.spec.engine
      then (cquery_link origin (engine_name r.0) q, record t { engines = r.1 })
      else (cquery_link origin q.spec.engine q, t)

  unfoldable pub link : Query → Handler (Tier S) Json
  unfolding link_of
  link q t = (go (link_of q t).0, (link_of q t).1)

  -- The query's source: its channel on the hub, or the stored records.
  unfoldable pub from_stored : Result (List Instant) → Handler (Tier S) (Option (String × ℕ))
  from_stored (err e) t = (Outcome.done (bad_request e), t)
  from_stored (ok insts) t = (go none, t)

  unfoldable pub open_source :
      Bool → String → ℤ → String → String → Handler (Tier S) (Option (String × ℕ))
  unfolding hub_subscribe live_key replay_source from_stored
  open_source true cid fid name col t =
      let key = live_key cid fid name in
      let r = hub_subscribe key t.hub in (go (some (key, r.0)), record t { hub = r.1 })
  open_source false cid fid name col t = from_stored (replay_source db cid fid name col t.store) t

  -- cancel, which takes the query's channel off the hub.
  unfoldable pub cancel_channel : Option (String × ℕ) → Tier S → Tier S
  unfolding hub_cancel
  cancel_channel none t = t
  cancel_channel (some (key, k)) t = record t { hub = hub_cancel key k t.hub }

  unfoldable pub add_query :
      QuerySpec → Option String → Option (String × ℕ) → Handler (Tier S) Query
  unfolding register
  add_query spec handle channel t =
      let r = register spec handle channel t.registry in (go r.0, record t { registry = r.1 })

  unfoldable pub submitted :
      Result (Unit {0}) → QuerySpec → Option (String × ℕ) → Handler (Tier S) Query
  unfolding cancel_channel add_query
  submitted (err e) spec channel t = (Outcome.done (server_error e), cancel_channel channel t)
  submitted (ok u) spec channel t = add_query spec (some "running") channel t

  -- submit
  unfoldable pub submit : Engine → QuerySpec → Option (String × ℕ) → Handler (Tier S) Query
  unfolding submitted
  submit eng spec channel t = submitted (eng.submit spec) spec channel t

  unfoldable pub post_query : String → String → String → QueryBody → Handler (Tier S) Response
  unfolding ask spec_of ogc_of column_of with_engine open_source submit link
  post_query cid fid_text name body = do
    (tbl, srid) ← tier_collection cid
    fid ← require_fid fid_text
    found ← reading (λ s.
        db.query_row s "SELECT ptype FROM mf_tproperty WHERE cid=$1 AND fid=$2 AND name=$3"
          (text cid ∷ int fid ∷ text name ∷ []))
    row ← row_or (http_err 404 ("unknown temporal property: " ++ name)) server_error found
    ptype ← or_respond (scan_text row) server_error
    let known = tprop_type ptype
    asked ← (λ t. (ask (ogc_of known) name ptype body, t))
    let spec = spec_of cid fid name (ogc_of known) body asked
    built ← with_engine spec.engine
    eng ← or_respond built (λ e. http_err 501 (error_text e))
    channel ← open_source body.live cid fid name (column_of known)
    cq ← submit eng spec channel
    body_link ← link cq
    pure (write_json 201 body_link)

  unfoldable post_geometry_query : String → String → ℤ → Handler (Tier S) Response
  unfolding geometry_events add_query link
  post_geometry_query cid fid_text interval_ms = do
    (tbl, srid) ← tier_collection cid
    fid ← require_fid fid_text
    found ←
        reading
          (λ s. db.query_row s ("SELECT 1 FROM " ++ (ident tbl ++ " WHERE id=$1")) (int fid ∷ []))
    row ← row_or no_feature server_error found
    events ← reading (geometry_events db tbl fid)
    or_respond events bad_request
    let spec : QuerySpec = record {
      kind = "geometry";
      cid = cid;
      fid = fid;
      pname = "";
      op = "";
      arg = none;
      agg = "";
      window = none;
      ptype = "";
      interval = interval_of interval_ms;
      engine = "";
    }
    cq ← add_query spec none none
    body_link ← link cq
    pure (write_json 201 body_link)

  links : List Query → Handler (Tier S) (List Json)
  unfolding link
  links [] = pure []
  links (q ∷ qs) = do l ← link q; ls ← links qs; pure (l ∷ ls)

  listing : List Json → Json
  listing ls =
      object
        (("queries", array ls) ∷ ("numberReturned", num (Float.dec false (length ls) 0 0)) ∷ [])

  unfoldable list_queries : String → String → String → Handler (Tier S) Response
  unfolding links listing list
  list_queries cid fid_text name = do
    fid ← require_fid fid_text
    found ← (λ t. (go (list cid fid name t.registry), t))
    ls ← links found
    pure (write_json 200 (listing ls))

  -- listGeometryQueries: the same by the empty name, which geometry queries have.
  unfoldable list_geometry_queries : String → String → Handler (Tier S) Response
  unfolding list_queries
  list_geometry_queries cid fid_text = list_queries cid fid_text ""

  require_query : String → Handler (Tier S) Query
  require_query qid t = some_or (get qid t.registry) (http_err 404 ("unknown query: " ++ qid)) t

  unfoldable get_query : String → Handler (Tier S) Response
  unfolding require_query link
  get_query qid = do cq ← require_query qid; body_link ← link cq; pure (write_json 200 body_link)

  -- The query's context ends, its channel leaves the hub, and the registry forgets it.
  forget : Query → Tier S → Outcome (Unit {0}) × Tier S
  unfolding cancel_channel remove
  forget cq t =
      let stopped = cancel_channel cq.channel t in
      (go tt, record stopped { registry = remove cq.id stopped.registry })

  unfoldable delete_query : String → Handler (Tier S) Response
  unfolding require_query forget
  delete_query qid = do cq ← require_query qid; forget cq; pure (write_header 204)

  -- `value` is absent where the body does not decode; `now` is the current time as a text.
  unfoldable ingest_property :
      String → String → String → String → Option Float → String → Handler (Tier S) Response
  unfolding publish live_key
  ingest_property cid fid_text name datetime value now = do
    (tbl, srid) ← tier_collection cid
    fid ← require_fid fid_text
    v ← some_or value (http_err 400 "ingest record requires a numeric \"value\"")
    let given = trim_space datetime
    let i : Instant = record { t = if is_nil given then now else given; v = v; s = "" }
    count ←
        (λ t. let r = publish (live_key cid fid name) i t.hub in (go r.0, record t { hub = r.1 }))
    pure (write_json 202 (object (("delivered", num (Float.dec false count 0 0)) ∷ [])))
