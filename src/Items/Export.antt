-- ===== src/Items/Export.antt =====
-- main.go: export and streamParquet. A feed is what the response streams: the features of the lines, or
-- the row groups of the file. The bytes of a trajectory are a text.
pub mod Groups
use Prim.Native.String.{◌++◌}
use mathlib.Core.List
use mobility_api.Base.{
  ℕ, String, Bool, true, false, List, [], ◌∷◌, Option, none, some, length, eqb, is_empty, map, ◌==◌,
  if◌then◌else◌,
}
use mobility_api.Base.Int.{ℤ, pos, is_positive}
use mobility_api.Base.Float.{Float}
use mobility_api.Base.Json.{Json}
use mobility_api.Backend.{Value, int, text, float, Backend, Rows, db_query}
use mobility_api.Http.{
  Error, Result, ok, err, Response, Handler, pure, or_respond, Query, first, ◌>>=◌,
}
use mobility_api.Filters.{Filters, item_filters}
use mobility_api.Filters.Interval.{placeholder}
use mobility_api.Feature.{prop_sel, scan_export_row, build_export_feature}
use mobility_api.Store.{ident, require_collection, server_error, bad_request}
use mobility_api.Items.Writes.{collection_generic}

-- pqRow and pqRowGeneric: what they share, and the columns of the properties.
pub record Sidecar : Type 0 where
  pub wkb : String
  pub xmin : Float
  pub ymin : Float
  pub xmax : Float
  pub ymax : Float
  pub tmin : String
  pub tmax : String

pub record PqRow : Type 0 where
  pub id : ℤ
  pub mmsi : ℤ
  pub name : String
  pub sidecar : Sidecar

pub record PqRowGeneric : Type 0 where
  pub id : ℤ
  pub properties : String
  pub sidecar : Sidecar

pub data Feed : Type 0 where
  ndjson : List Json → Feed
  typed_groups : List (List PqRow) → Feed
  generic_groups : List (List PqRowGeneric) → Feed

scan_sidecar : List Value → Option Sidecar
scan_sidecar (text wkb ∷ float a ∷ float b ∷ float c ∷ float d ∷ text tmin ∷ text tmax ∷ []) =
    some record { wkb = wkb; xmin = a; ymin = b; xmax = c; ymax = d; tmin = tmin; tmax = tmax }
scan_sidecar _ = none

with_sidecar : {A : Type 0} → (Sidecar → A) → Option Sidecar → Option A
with_sidecar f none = none
with_sidecar f (some s) = some (f s)

scan_typed : List Value → Option PqRow
unfolding scan_sidecar with_sidecar
scan_typed (int id ∷ int mmsi ∷ text name ∷ rest) =
    with_sidecar (λ s. record { id = id; mmsi = mmsi; name = name; sidecar = s })
      (scan_sidecar rest)
scan_typed _ = none

scan_generic : List Value → Option PqRowGeneric
unfolding scan_sidecar with_sidecar
scan_generic (int id ∷ text properties ∷ rest) =
    with_sidecar (λ s. record { id = id; properties = properties; sidecar = s }) (scan_sidecar rest)
scan_generic _ = none

-- The rows up to the first that does not scan.
until_none : {A : Type 0} → (List Value → Option A) → List (List Value) → List A
until_none scan [] = []
until_none scan (row ∷ rows) =
    let rest = until_none scan rows in elim (scan row) [ none ↦ [] | some a ↦ a ∷ rest ]

result_or_none : {A : Type 0} → Result A → Option A
result_or_none (err e) = none
result_or_none (ok a) = some a

-- The writer of the groups: `accepts done group` says whether Write takes the group behind those done.
module _ {A : Type 0} (accepts : List (List A) → List A → Bool) where
  -- emit, where the batch is not empty
  unfoldable pub written : List (List A) → List A → List (List A)
  written done batch = if accepts done batch then List.◌++◌ done (batch ∷ []) else done

  -- emit at the end of the loop
  unfoldable pub last_group : List (List A) → List A → List (List A)
  unfolding written
  last_group done [] = done
  last_group done (a ∷ batch) = written done (a ∷ batch)

  -- The loop over the rows, with the batch that it fills. A group that is refused ends the loop, and
  -- the emit behind the loop tries it again.
  unfoldable pub row_groups : ℕ → List (List A) → List A → List A → List (List A)
  unfolding last_group written
  row_groups size done batch [] = last_group done batch
  row_groups size done batch (a ∷ rows) =
      let full = List.◌++◌ batch (a ∷ []) in
      let after_full = row_groups size (List.◌++◌ done (full ∷ [])) [] rows in
      let after_more = row_groups size done full rows in
      if eqb (length full) size
      then (if accepts done full then after_full else last_group done full)
      else after_more

disposition : String → Response → Response
disposition tbl r = record r {
  headers = ("Content-Disposition", "attachment; filename=\"" ++ (tbl ++ ".parquet\"")) ∷ r.headers;
}

sidecar_sql : String → Filters → String → String → String
sidecar_sql tbl f tail columns =
    " asBinary(g), Xmin(stbox(g)), Ymin(stbox(g)), Xmax(stbox(g)), Ymax(stbox(g)), CAST(Tmin(stbox(g)) AS text), CAST(Tmax(stbox(g)) AS text) FROM (SELECT id, "
    ++ (columns
        ++ (" "
            ++ (f.tg_expr
                ++ (" AS g FROM "
                    ++ (ident tbl
                        ++ (" " ++ (f.where_sql ++ (" ORDER BY id" ++ (tail ++ ") s")))))))))

export_sql : Bool → String → Filters → String → String
unfolding prop_sel
export_sql generic tbl f tail =
    "SELECT id, "
    ++ (prop_sel generic
        ++ (", asMFJSON("
            ++ (f.tg_expr
                ++ (") FROM "
                    ++ (ident tbl ++ (" " ++ (f.where_sql ++ (" ORDER BY id" ++ tail))))))))

-- The bound on the rows, where the process has one.
limited : ℤ → Filters → Filters × String
limited batch f =
    if is_positive batch
    then (let args = List.◌++◌ f.args (int batch ∷ []) in
        (record f { args = args }, " LIMIT " ++ placeholder (length args)))
    else (f, "")

module _ {S T : Type 0} (db : Backend S T) (of_int : ℤ → Float) (export_batch : ℤ) (parquet_rg : ℕ)
    (accepts : List (List PqRow) → List PqRow → Bool)
    (accepts_generic : List (List PqRowGeneric) → List PqRowGeneric → Bool) where
  -- streamParquet
  unfoldable pub stream_parquet : String → Filters → String → Bool → Handler S Feed
  unfolding disposition sidecar_sql until_none scan_generic scan_typed row_groups
  stream_parquet tbl f tail true = do
    found ←
        db_query db
          ("SELECT id, props,"
            ++ sidecar_sql tbl f tail
                "CAST(coalesce(properties,CAST('{}' AS jsonb)) AS text) AS props,")
          f.args
    rows ← or_respond found (λ e. disposition tbl (server_error e))
    pure (
        generic_groups
          (row_groups accepts_generic parquet_rg [] [] (until_none scan_generic rows.rows)))
  stream_parquet tbl f tail false = do
    found ←
        db_query db
          ("SELECT id, mmsi, name,"
            ++ sidecar_sql tbl f tail "coalesce(mmsi,0) AS mmsi, coalesce(name,'') AS name,")
          f.args
    rows ← or_respond found (λ e. disposition tbl (server_error e))
    pure (typed_groups (row_groups accepts parquet_rg [] [] (until_none scan_typed rows.rows)))

  stream_lines : String → Filters → String → Bool → Handler S Feed
  unfolding export_sql until_none result_or_none
  stream_lines tbl f tail generic = do
    found ← db_query db (export_sql generic tbl f tail) f.args
    rows ← or_respond found server_error
    pure (
        ndjson (
          map (λ r. build_export_feature r.0 r.1 r.2)
            (until_none (λ row. result_or_none (scan_export_row of_int generic row)) rows.rows)))

  unfoldable pub export : String → Query → Handler S Feed
  unfolding limited stream_lines
  export cid q = do
    (tbl, srid) ← require_collection db cid
    f ← or_respond (item_filters srid q) bad_request
    let bounded = limited export_batch f
    generic ← collection_generic db tbl
    if first q "format" == "parquet"
        then stream_parquet tbl bounded.0 bounded.1 generic
        else stream_lines tbl bounded.0 bounded.1 generic
