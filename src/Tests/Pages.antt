-- ===== src/Tests/Pages.antt =====
-- A client that walks over the pages of a table of three rows.
use mobility_api.Base.{
  ℕ, ◌≡◌, refl, true, false, String, List, [], ◌∷◌, Option, none, some, All, map, arith,
}
use mobility_api.Base.Int.{ℤ, pos, negsuc}
use mobility_api.Base.Decimal.{IsInt64}
use mobility_api.Base.Float.{Float}
use mobility_api.Base.Json.{object}
use mobility_api.Backend.{Value, int, text, doc, float, Backend, Rows}
use mobility_api.Http.{Result, ok, err, no_rows}
use mobility_api.Items.Listing.{FeatureRow, page_limit, scan_feature_row}
use mobility_api.Items.Paging.{IsAscending}
use mobility_api.Items.Walk.{Answers, first_rows, rows_above, ids_of, walk, walk-served}

abbrev whole : ℕ → Float
whole n = Float.dec false n 0 0

abbrev of_int : ℤ → Float
of_int z = whole 0

abbrev trip_row : ℤ → FeatureRow
trip_row id = record {
  id = id;
  props = object [];
  bbox = whole 1 ∷ whole 2 ∷ whole 3 ∷ whole 4 ∷ [];
  tmin = "2011-06-03 18:57:53+00";
  tmax = "2011-06-03 18:58:53+00";
  tgeom = object [];
}

abbrev columns : FeatureRow → List Value
columns r =
    int r.id
    ∷ doc r.props
    ∷ float (whole 1)
    ∷ float (whole 2)
    ∷ float (whole 3)
    ∷ float (whole 4)
    ∷ text r.tmin
    ∷ text r.tmax
    ∷ doc r.tgeom
    ∷ []

abbrev three_trips : List FeatureRow
three_trips = trip_row (negsuc 0) ∷ trip_row (pos 4) ∷ trip_row (pos 9) ∷ []

abbrev rows_with : List FeatureRow → Result Rows
rows_with rs = ok (record { rows = map columns rs; failure = none })

-- The bound alone, or an id and the bound.
answer : List Value → Result Rows
unfolding first_rows rows_above
answer [] = rows_with []
answer (int (pos n) ∷ []) = rows_with (first_rows n three_trips)
answer (int k ∷ int (pos n) ∷ []) = rows_with (first_rows n (rows_above (some k) three_trips))
answer _ = err no_rows

abbrev trips : Backend (Unit {0}) (Unit {0})
trips = record {
  query_row = λ s sql args. err no_rows;
  query = λ s sql args. answer args;
  exec = λ s sql args. (ok 0, s);
  begin = λ s. ok s;
  tx_query_row = λ t sql args. err no_rows;
  tx_query = λ t sql args. err no_rows;
  tx_exec = λ t sql args. (ok 0, t);
  commit = λ t s. (ok tt, s);
  rollback = λ t s. s;
}

trips-Answers : Answers trips of_int tt "ships" true columns three_trips
unfolding answer scan_feature_row mobility_api.Items.Writes.collection_generic
trips-Answers = record {
  probed = refl;
  scans = (refl, (refl, (refl, tt)));
  from_start = λ n. refl;
  from_id = λ k n. from_id k n;
}
  where
    from_id :
        (k : ℤ) (n : ℕ)
        → answer (int k ∷ int (pos n) ∷ [])
          ≡ rows_with (first_rows n (rows_above (some k) three_trips))
    from_id (pos m) n = refl
    from_id (negsuc m) n = refl

page_of_two : page_limit 2 100 [] ≡ 2
unfolding page_limit mobility_api.Http.first mobility_api.Base.Int.atoi
page_of_two = refl

trips-IsAscending : IsAscending (ids_of three_trips)
unfolding IsAscending
trips-IsAscending = (refl, (refl, (refl, tt)))

trips-IsInt64 : All IsInt64 (ids_of three_trips)
unfolding IsInt64
trips-IsInt64 = (omega arith, (omega arith, (omega arith, tt)))

walk-served_example :
    walk trips of_int 2 100 "ships" (pos 4326) tt 4 [] ≡ negsuc 0 ∷ pos 4 ∷ pos 9 ∷ []
walk-served_example =
    walk-served 2 100 1 page_of_two (omega arith) trips of_int "ships" (pos 4326) tt true columns
      three_trips trips-Answers trips-IsInt64 trips-IsAscending 4 (omega arith)
