-- ===== src/Properties/Table.antt =====
-- main.go: the columns and the creation of the property store.
use Prim.Native.String.{◌++◌}
use mobility_api.Base.{String, List, [], ◌∷◌, map}
use mobility_api.Base.Text.{join}
use mobility_api.Backend.{Backend}
use mobility_api.Http.{Handler, pure, ◌>>=◌, ◌>>◌, or_respond}
use mobility_api.Store.{server_error, tx_exec}
use mobility_api.PropType.{scalar_temporal_types}

-- tPropValueColumnNames: the column and the type of each scalar temporal type, by its name; the
-- catalog lists the types in the order of their names.
unfoldable tprop_value_column_names : List (String × String)
unfolding scalar_temporal_types
tprop_value_column_names = map (λ e. (e.1.col, e.0)) scalar_temporal_types

unfoldable tprop_value_columns : String
unfolding tprop_value_column_names
tprop_value_columns = join ", " (map (λ c. c.0 ++ (" " ++ c.1)) tprop_value_column_names)

create_table : String
unfolding tprop_value_columns
create_table =
    "CREATE TABLE IF NOT EXISTS mf_tproperty (cid text NOT NULL, fid bigint NOT NULL, name text NOT NULL, ptype text NOT NULL, uom text, description text, "
    ++ (tprop_value_columns ++ ", PRIMARY KEY (cid, fid, name))")

module _ {S T : Type 0} (db : Backend S T) where
  -- The loop of ALTER TABLE over the columns.
  add_columns : List (String × String) → Handler T (Unit {0})
  add_columns [] = pure tt
  add_columns ((name, typ) ∷ cols) = do
    added ←
        tx_exec db ("ALTER TABLE mf_tproperty ADD COLUMN IF NOT EXISTS " ++ (name ++ (" " ++ typ)))
          []
    or_respond added server_error
    add_columns cols

  -- ensureTPropTable, whose error the caller answers with 500.
  unfoldable pub ensure_tprop_table : Handler T (Unit {0})
  unfolding add_columns create_table
  ensure_tprop_table = do
    created ← tx_exec db create_table []
    or_respond created server_error
    add_columns tprop_value_column_names
