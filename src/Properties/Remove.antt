-- ===== src/Properties/Remove.antt =====
-- main.go: deleteTProperty, deleteTPropertyValue and purgeTProps.
use Prim.Native.String.{◌++◌}
use mobility_api.Base.{
  String, ◌≡◌, arith, Bool, true, false, ◌&&◌, not, List, [], ◌∷◌, Option, none, some, eqb, leb,
  if◌then◌else◌,
}
use mobility_api.Base.Int.{ℤ, pos, negsuc, itoa, atoi, is_positive}
use mobility_api.Backend.{Value, int, text, Backend, db_query_row, db_exec}
use mobility_api.Http.{
  Error, error_text, Result, ok, Response, write_header, http_err, Handler, pure, or_respond,
  some_or, require, go, ◌>>=◌, ◌>>◌,
}
use mobility_api.PropType.{tprop_type}
use mobility_api.Store.{
  require_collection, require_fid, server_error, bad_request, row_or, scan_text, scan_count,
}
use mobility_api.Properties.Create.{unknown_property}

-- The table is there: `to_regclass` is not null. A failing query leaves the pointer nil.
unfoldable is_registered : Result (List Value) → Bool
is_registered (ok (text name ∷ [])) = true
is_registered _ = false

-- An index from 1.
unfoldable pub member_id : String → Option ℤ
member_id s = elim (atoi s) [ none ↦ none | some n ↦ if is_positive n then some n else none ]

abbrev leb_int : ℤ → ℤ → Bool
leb_int (pos m) (pos n) = leb m n
leb_int (pos m) (negsuc n) = false
leb_int (negsuc m) (pos n) = true
leb_int (negsuc m) (negsuc n) = leb n m

-- nseq != nil && id <= *nseq
unfoldable pub has_member : ℤ → Option ℤ → Bool
has_member id none = false
has_member id (some n) = leb_int id n

-- *nseq == 1
unfoldable pub is_single : Option ℤ → Bool
is_single none = false
is_single (some n) = leb_int n (pos 1) && leb_int (pos 1) n

abbrev pub delete_error : Error → Response
delete_error e = http_err 400 ("delete failed: " ++ error_text e)

module _ {S T : Type 0} (db : Backend S T) where
  unfoldable pub registered : Handler S Bool
  unfolding is_registered
  registered = do
    found ← db_query_row db "SELECT to_regclass('mf_tproperty')" []
    pure (is_registered found)

  -- The result of the DELETE is not read.
  purge_if : Bool → String → List Value → Handler S (Unit {0})
  purge_if true cond args = do db_exec db ("DELETE FROM mf_tproperty WHERE " ++ cond) args; pure tt
  purge_if false cond args = pure tt

  unfoldable pub purge_tprops : String → List Value → Handler S (Unit {0})
  unfolding registered purge_if
  purge_tprops cond args = do there ← registered; purge_if there cond args

  unfoldable delete_tproperty : String → String → String → Handler S Response
  unfolding registered
  delete_tproperty cid name fid_text = do
    require_collection db cid
    fid ← require_fid fid_text
    there ← registered
    require there (unknown_property name)
    deleted ←
        db_exec db "DELETE FROM mf_tproperty WHERE cid=$1 AND fid=$2 AND name=$3"
          (text cid ∷ int fid ∷ text name ∷ [])
    count ← or_respond deleted server_error
    require (not (eqb count 0)) (unknown_property name)
    pure (write_header 204)

  unfoldable delete_tproperty_value : String → String → String → String → Handler S Response
  delete_tproperty_value cid name fid_text tvid = do
    require_collection db cid
    fid ← require_fid fid_text
    tv ←
        some_or (member_id tvid)
          (http_err 400 "invalid temporal value id (1-based index into the property's values)")
    let key = text cid ∷ int fid ∷ text name ∷ []
    found ← db_query_row db "SELECT ptype FROM mf_tproperty WHERE cid=$1 AND fid=$2 AND name=$3" key
    row ← row_or (unknown_property name) server_error found
    ptype ← or_respond (scan_text row) server_error
    ty ←
        some_or (tprop_type ptype) (http_err 500 ("stored property has an unknown type: " ++ ptype))
    counted ←
        db_query_row db
          ("SELECT numSequences("
            ++ (ty.col ++ ") FROM mf_tproperty WHERE cid=$1 AND fid=$2 AND name=$3"))
          key
    counts ← or_respond counted bad_request
    nseq ← or_respond (scan_count counts) bad_request
    require (has_member tv nseq)
        (http_err 404 ("no temporal value #" ++ (itoa tv ++ " for this property")))
    require (not (is_single nseq)) (
        http_err 409
          "the property has a single temporal value; delete the property (DELETE .../tproperties/{pname}) to remove it")
    removed ←
        db_exec db
          ("UPDATE mf_tproperty SET "
            ++ (ty.col
                ++ (" = deleteTime("
                    ++ (ty.col
                        ++ (", getTime(sequenceN("
                            ++ (ty.col ++ ", $4))) WHERE cid=$1 AND fid=$2 AND name=$3"))))))
          (text cid ∷ int fid ∷ text name ∷ int tv ∷ [])
    or_respond removed delete_error
    pure (write_header 204)

  -- The purge never answers the request.
  pub purge_tprops-go :
      (cond : String) (args : List Value) (s : S) → (purge_tprops cond args s).0 ≡ go tt
  unfolding purge_tprops registered purge_if
  purge_tprops-go cond args s = ground arith
