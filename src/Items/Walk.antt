-- ===== src/Items/Walk.antt =====
-- main.go: a client of streamItems that follows the next links, over a table of the database.
use Prim.Native.String.{◌++◌}
use mathlib.Core.List
use mathlib.Core.Path.{subst}
use mobility_api.Base.{
  ℕ, zero, suc, ◌<◌, ◌≤◌, ◌≡◌, refl, ap, ◌∙◌, Bool, true, String, List, [], ◌∷◌, Option, none, some,
  length, map, All, leb, eqb, arith, if◌then◌else◌, Bool-cases, inl, inr,
}
use mobility_api.Base.Int.{ℤ, pos, itoa, atoi, max_int64}
use mobility_api.Base.Decimal.{IsInt64, atoi-itoa}
use mobility_api.Base.Float.{Float}
use mobility_api.Backend.{Value, int, Backend}
use mobility_api.Http.{Outcome, go, done, ok, Query, first}
use mobility_api.Feature.{prop_sel}
use mobility_api.Filters.{item_filters}
use mobility_api.Store.{ident}
use mobility_api.Items.Writes.{collection_generic}
use mobility_api.Items.Links.{after_filter-itoa}
use mobility_api.Items.Listing.{
  FeatureRow, page_limit, page_rows, next_query, next_after, last_id, feat_cols, scan_feature_row,
  scanned_rows,
}
use mobility_api.Items.Paging.{
  IsAscending, lt_id, take, above, follow, go_on, follow-served, IsPaged,
}

-- The rows above a bound, and the first of them.
unfoldable pub rows_above : Option ℤ → List FeatureRow → List FeatureRow
unfolding lt_id
rows_above none rs = rs
rows_above (some k) [] = []
rows_above (some k) (r ∷ rs) =
    let rest = rows_above (some k) rs in if lt_id k r.id then r ∷ rest else rest

unfoldable pub first_rows : ℕ → List FeatureRow → List FeatureRow
first_rows zero rs = []
first_rows (suc n) [] = []
first_rows (suc n) (r ∷ rs) = r ∷ first_rows n rs

abbrev pub ids_of : List FeatureRow → List ℤ
ids_of = map (λ r. r.id)

-- The statement of a page: the rows that the condition lets through, in the order of their ids, up to the
-- bound that is bound last.
unfoldable pub page_statement : Bool → String → String → String → String
page_statement generic tbl condition bound =
    "SELECT id, "
    ++ (prop_sel generic
        ++ (", Xmin(b),Ymin(b),Xmax(b),Ymax(b),CAST(Tmin(b) AS text),CAST(Tmax(b) AS text), asMFJSON(g) FROM ("
            ++ ("SELECT "
                ++ (feat_cols generic
                    ++ (", g, stbox(g) AS b FROM ("
                        ++ ("SELECT "
                            ++ (feat_cols generic
                                ++ (", "
                                    ++ ("trip"
                                        ++ (" AS g FROM "
                                            ++ (ident tbl
                                                ++ (" "
                                                    ++ (condition
                                                        ++ (" ORDER BY id LIMIT "
                                                            ++ (bound
                                                            ++ ") i) s ORDER BY id")))))))))))))))

-- What the client of a table is told of: the first rows, or those above an id. Each row of the table has
-- the columns that the loop scans. This is what SQL documents of WHERE, ORDER BY and LIMIT.
pub record Answers {S T : Type 0} (db : Backend S T) (of_int : ℤ → Float) (s : S) (tbl : String)
    (generic : Bool) (row : FeatureRow → List Value) (table : List FeatureRow) : Type 0 where
  pub probed : collection_generic db tbl s ≡ (go generic, s)
  pub scans : All (λ r. scan_feature_row of_int generic (row r) ≡ some r) table
  pub from_start :
      (n : ℕ)
      → db.query s (page_statement generic tbl "" "$1") (int (pos n) ∷ [])
        ≡ ok (record { rows = map row (first_rows n table); failure = none })
  pub from_id :
      (k : ℤ) (n : ℕ)
      → db.query s (page_statement generic tbl "WHERE id > $1" "$2") (int k ∷ int (pos n) ∷ [])
        ≡ ok (record { rows = map row (first_rows n (rows_above (some k) table)); failure = none })

-- The ids that a client sees who asks for a page and then for the page of each next link.
module _ {S T : Type 0} (db : Backend S T) (of_int : ℤ → Float) (default max_limit : ℕ)
    (tbl : String) (srid : ℤ) (s : S) where
  abbrev linked : (Query → List ℤ) → Query → ℕ → List ℤ → Option ℤ → List ℤ
  linked again q limit ids none = ids
  linked again q limit ids (some k) = List.◌++◌ ids (again (next_query q limit k))

  abbrev visited : (Query → List ℤ) → Query → Outcome (ℕ × List FeatureRow) → List ℤ
  visited again q (done r) = []
  visited again q (go (limit, rows)) =
      linked again q limit (ids_of rows) (next_after limit (ids_of rows))

  unfoldable pub walk : ℕ → Query → List ℤ
  unfolding page_rows
  walk zero q = []
  walk (suc fuel) q = visited (walk fuel) q (page_rows db of_int default max_limit tbl srid q s).0

ids_of-first_rows : (n : ℕ) (rs : List FeatureRow) → ids_of (first_rows n rs) ≡ take n (ids_of rs)
unfolding first_rows take
ids_of-first_rows zero rs = refl
ids_of-first_rows (suc n) [] = refl
ids_of-first_rows (suc n) (r ∷ rs) = ap (λ zs. r.id ∷ zs) (ids_of-first_rows n rs)

ids_of-rows_above :
    (after : Option ℤ) (rs : List FeatureRow)
    → ids_of (rows_above after rs) ≡ above after (ids_of rs)
unfolding rows_above above
ids_of-rows_above none rs = refl
ids_of-rows_above (some k) [] = refl
ids_of-rows_above (some k) (r ∷ rs) = elim (Bool-cases (lt_id k r.id)) [
  | inl under ↦ rw under (ap (λ zs. r.id ∷ zs) (ids_of-rows_above (some k) rs))
  | inr other ↦ rw other (ids_of-rows_above (some k) rs)
]

module _ (P : FeatureRow → Type 0) where
  first_rows-All : (n : ℕ) (rs : List FeatureRow) → All P rs → All P (first_rows n rs)
  unfolding first_rows
  first_rows-All zero rs h = tt
  first_rows-All (suc n) [] h = tt
  first_rows-All (suc n) (r ∷ rs) h = (h.0, first_rows-All n rs h.1)

  rows_above-All :
      (after : Option ℤ) (rs : List FeatureRow) → All P rs → All P (rows_above after rs)
  unfolding rows_above
  rows_above-All none rs h = h
  rows_above-All (some k) [] h = tt
  rows_above-All (some k) (r ∷ rs) h = elim (Bool-cases (lt_id k r.id)) [
    | inl under ↦ rw under (h.0, rows_above-All (some k) rs h.1)
    | inr other ↦ rw other (rows_above-All (some k) rs h.1)
  ]

take-All : (P : ℤ → Type 0) (n : ℕ) (xs : List ℤ) → All P xs → All P (take n xs)
unfolding take
take-All P zero xs h = tt
take-All P (suc n) [] h = tt
take-All P (suc n) (x ∷ xs) h = (h.0, take-All P n xs h.1)

above-All : (P : ℤ → Type 0) (after : Option ℤ) (xs : List ℤ) → All P xs → All P (above after xs)
unfolding above
above-All P none xs h = h
above-All P (some k) [] h = tt
above-All P (some k) (x ∷ xs) h = elim (Bool-cases (lt_id k x)) [
  | inl under ↦ rw under (h.0, above-All P (some k) xs h.1)
  | inr other ↦ rw other (above-All P (some k) xs h.1)
]

last_id-All : (P : ℤ → Type 0) (k : ℤ) (xs : List ℤ) → P k → All P xs → P (last_id k xs)
unfolding last_id
last_id-All P k [] p h = p
last_id-All P k (x ∷ xs) p h = last_id-All P x xs h.0 h.1

zero_fits : IsInt64 (pos 0)
unfolding IsInt64
zero_fits = omega arith

some_injective : {j k : ℤ} → some j ≡ some k → j ≡ k
some_injective h = cc

next_after-IsInt64 :
    (limit : ℕ) (xs : List ℤ) (k : ℤ) → All IsInt64 xs → next_after limit xs ≡ some k → IsInt64 k
unfolding next_after
next_after-IsInt64 limit xs k h e = elim (Bool-cases (eqb (length xs) limit)) [
  | inl full ↦
      subst IsInt64 (some_injective (rw full at e)) (last_id-All IsInt64 (pos 0) xs zero_fits h)
  | inr short ↦ let no : none ≡ some k = rw short at e in absurd (cc)
]

-- The query of a first request, and that of a next link, which every later one has too.
query_of : ℕ → Option ℤ → Query
query_of limit none = []
query_of limit (some k) = next_query [] limit k

next_query-query_of :
    (limit : ℕ) (after : Option ℤ) (k : ℤ)
    → next_query (query_of limit after) limit k ≡ query_of limit (some k)
unfolding next_query query_of
next_query-query_of limit none k = refl
next_query-query_of limit (some j) k = refl

abbrev AfterFits : Option ℤ → Type 0
AfterFits none = Unit
AfterFits (some k) = IsInt64 k

no_filters :
    (srid : ℤ) → item_filters srid [] ≡ ok (record { where_sql = ""; tg_expr = "trip"; args = [] })
unfolding item_filters first
no_filters srid = refl

after_filters :
    (srid : ℤ) (limit : ℕ) (k : ℤ)
    → IsInt64 k
    → item_filters srid (next_query [] limit k)
      ≡ ok (record { where_sql = "WHERE id > $1"; tg_expr = "trip"; args = int k ∷ [] })
unfolding item_filters next_query first itoa
after_filters srid limit k h = rw (after_filter-itoa k (record { conds = []; args = [] }) h) refl

module _ (default max_limit n : ℕ) (asked : page_limit default max_limit [] ≡ suc n)
    (small : suc n ≤ max_int64) where
  limit_allowed : leb (suc n) max_limit ≡ true
  unfolding page_limit first atoi
  limit_allowed = elim (Bool-cases (leb default max_limit)) [
    | inl under ↦ let e : default ≡ suc n = rw under at asked in rw e at under
    | inr over ↦ let e : max_limit ≡ suc n = rw over at asked in rw e (ground arith)
  ]

  limit_kept : (after : Option ℤ) → page_limit default max_limit (query_of (suc n) after) ≡ suc n
  unfolding page_limit next_query first query_of IsInt64
  limit_kept none = asked
  limit_kept (some k) = rw (atoi-itoa (pos (suc n)) small, limit_allowed) refl

  module _ {S T : Type 0} (db : Backend S T) (of_int : ℤ → Float) (tbl : String) (srid : ℤ) (s : S)
      (generic : Bool) (row : FeatureRow → List Value) (table : List FeatureRow)
      (answers : Answers db of_int s tbl generic row table) where
    abbrev Scans : FeatureRow → Type 0
    Scans r = scan_feature_row of_int generic (row r) ≡ some r

    scanned : (rs : List FeatureRow) → All Scans rs → scanned_rows of_int generic (map row rs) ≡ rs
    unfolding scanned_rows
    scanned [] h = refl
    scanned (r ∷ rs) h = rw (h.0, scanned rs h.1) refl

    page-Scans : (after : Option ℤ) → All Scans (first_rows (suc n) (rows_above after table))
    page-Scans after =
        first_rows-All Scans (suc n) _ (rows_above-All Scans after table answers.scans)

    page_served :
        (after : Option ℤ)
        → AfterFits after
        → (page_rows db of_int default max_limit tbl srid (query_of (suc n) after) s).0
          ≡ go (suc n, first_rows (suc n) (rows_above after table))
    unfolding page_rows page_statement query_of rows_above itoa
    page_served none h =
        rw
          (
            limit_kept none,
            no_filters srid,
            answers.probed,
            answers.from_start (suc n),
            scanned (first_rows (suc n) table) (page-Scans none),
          )
          refl
    page_served (some k) h =
        rw
          (
            limit_kept (some k),
            after_filters srid (suc n) k h,
            answers.probed,
            answers.from_id k (suc n),
            scanned (first_rows (suc n) (rows_above (some k) table)) (page-Scans (some k)),
          )
          refl

    -- The ids of a page, of those of the table.
    abbrev page : Option ℤ → ℕ → List ℤ
    page after limit = take limit (above after (ids_of table))

    page_ids :
        (after : Option ℤ)
        → ids_of (first_rows (suc n) (rows_above after table)) ≡ page after (suc n)
    page_ids after =
        ids_of-first_rows (suc n) (rows_above after table)
        ∙ ap (take (suc n)) (ids_of-rows_above after table)

    page_fits : (after : Option ℤ) → All IsInt64 (ids_of table) → All IsInt64 (page after (suc n))
    page_fits after h = take-All IsInt64 (suc n) _ (above-All IsInt64 after (ids_of table) h)

    module _ (wide : All IsInt64 (ids_of table)) where
      linked-go_on :
          (fuel : ℕ) (after o : Option ℤ)
          → ((k : ℤ)
              → IsInt64 k
              → walk db of_int default max_limit tbl srid s fuel (query_of (suc n) (some k))
                ≡ follow page (suc n) fuel (some k))
          → next_after (suc n) (page after (suc n)) ≡ o
          → linked db of_int default max_limit tbl srid s
              (walk db of_int default max_limit tbl srid s fuel)
              (query_of (suc n) after)
              (suc n)
              (page after (suc n))
              o
            ≡ go_on (page after (suc n)) (λ k. follow page (suc n) fuel (some k)) o
      unfolding go_on
      linked-go_on fuel after none again e = refl
      linked-go_on fuel after (some k) again e =
          ap (λ zs. List.◌++◌ (page after (suc n)) zs)
            (ap (walk db of_int default max_limit tbl srid s fuel)
                (next_query-query_of (suc n) after k)
              ∙ again k (next_after-IsInt64 (suc n) _ k (page_fits after wide) e))

      walk-follow :
          (fuel : ℕ) (after : Option ℤ)
          → AfterFits after
          → walk db of_int default max_limit tbl srid s fuel (query_of (suc n) after)
            ≡ follow page (suc n) fuel after
      unfolding walk follow
      walk-follow zero after h = refl
      walk-follow (suc fuel) after h =
          rw (page_served after h, page_ids after)
            (linked-go_on fuel after (next_after (suc n) (page after (suc n)))
              (λ k f. walk-follow fuel (some k) f) refl)

      -- Where each row of a table has the columns that the loop scans, the ids are distinct numbers of 64
      -- bits, listed in their order, and the process allows a page of at least one row, a client that asks
      -- for the items without parameters and follows the next links sees each id exactly once and in
      -- order, and is done after at most as many pages as ids and one more.
      pub walk-served :
          IsAscending (ids_of table)
          → (fuel : ℕ) → length (ids_of table) < fuel
          → walk db of_int default max_limit tbl srid s fuel [] ≡ ids_of table
      unfolding query_of IsPaged
      walk-served ascending fuel enough =
          walk-follow fuel none tt
          ∙ follow-served page (ids_of table) (λ after limit. refl) ascending n fuel enough
