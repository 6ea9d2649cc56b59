-- ===== src/Filters/Shape.antt =====
-- The text of the SQL that the filters build: which placeholders stand in it, and what of the
-- request can reach it.
use Prim.Native.Char.{code}
use Prim.Native.String.{◌++◌}
use mathlib.Core.List
use mobility_api.Base.{
  ℕ, ◌+◌, ◌-◌, ◌*◌, zero, suc, String, ◌≡◌, refl, Bool, true, false, not, ◌&&◌, inl, inr, List, [],
  ◌∷◌, Option, none, some, length, length-append, any, all, eqb, leb, arith, ◌==◌, if◌then◌else◌,
  Bool-cases, Option-cases,
}
use mobility_api.Base.Text.{is_digit, is_nil, split}
use mobility_api.Base.Int.{ℤ, itoa}
use mobility_api.Backend.{Value, int}
use mobility_api.Http.{ok, Query, first}
use mobility_api.Filters.Interval.{placeholder, on_ok_inversion}
use mobility_api.Filters.{
  Where, Filters, item_filters, after_filter, bbox_filter, bbox_parts, bbox_numbers, bbox_cond,
  parse_floats, datetime_filter, check_subtrajectory, clipped, span_expr, subtrajectory,
  where_clause, finish,
}

-- The numbers that stand behind a dollar sign; `open` holds the one that is being read.
placeholders_from : Option ℕ → String → List ℕ
placeholders_from none String.[] = []
placeholders_from (some n) String.[] = n ∷ []
placeholders_from none (String.◌∷◌ c s) =
    placeholders_from (if eqb (code c) b'$' then some 0 else none) s
placeholders_from (some n) (String.◌∷◌ c s) =
    let longer = placeholders_from (some (n * 10 + (code c - b'0'))) s in
    let next = n ∷ placeholders_from (if eqb (code c) b'$' then some 0 else none) s in
    if is_digit (code c) then longer else next

pub placeholders : String → List ℕ
unfolding placeholders_from
placeholders s = placeholders_from none s

up_to : ℕ → List ℕ
up_to zero = []
up_to (suc n) = suc n ∷ up_to n

-- The placeholders of the text are the numbers from 1 to n, each of them at least once.
pub is_numbered : ℕ → String → Bool
unfolding placeholders up_to
is_numbered n sql =
    all (λ k. leb 1 k && leb k n) (placeholders sql)
    && all (λ k. any (λ j. eqb j k) (placeholders sql)) (up_to n)

-- The shape of a request: which parameters it has, and whether it asks for the clip.
pub record Shape : Type 0 where
  pub after : Bool
  pub bbox : Bool
  pub datetime : Bool
  pub sub : Bool

unfoldable pub shape : Query → Shape
unfolding subtrajectory
shape q = record {
  after = not (is_nil (first q "after"));
  bbox = not (is_nil (first q "bbox"));
  datetime = not (is_nil (first q "datetime"));
  sub = subtrajectory q == "true";
}

abbrev Draft : Type 0
Draft = List String × ℕ

draft_after : Bool → Draft → Draft
draft_after false d = d
draft_after true (cs, n) = (List.◌++◌ cs (("id > " ++ placeholder (n + 1)) ∷ []), n + 1)

draft_bbox : Bool → Draft → Draft
draft_bbox false d = d
draft_bbox true (cs, n) = (List.◌++◌ cs (bbox_cond n ∷ []), n + 5)

abbrev draft_of : Where → Draft
draft_of w = (w.conds, length w.args)

after_filter-draft :
    (v : String) (w w' : Where)
    → after_filter v w ≡ ok w'
    → draft_of w' ≡ draft_after (not (is_nil v)) (draft_of w)
unfolding after_filter draft_after
after_filter-draft v w w' h = grind (arith, length-append)

parse_floats-length :
    (ps : List String) (fs : List Value) → parse_floats ps ≡ some fs → length fs ≡ length ps
unfolding parse_floats
parse_floats-length [] fs h = ground arith
parse_floats-length (p ∷ ps) fs h = elim (Option-cases (parse_floats ps)) [
  | inl e ↦ ground (arith, e)
  | inr (gs, e) ↦ ground (arith, e, parse_floats-length ps gs e)
]

bbox_numbers-draft :
    (srid : ℤ) (w w' : Where) (o : Option (List Value))
    → ((fs : List Value) → o ≡ some fs → length fs ≡ 4)
    → bbox_numbers srid w o ≡ ok w'
    → draft_of w' ≡ draft_bbox true (draft_of w)
unfolding bbox_numbers draft_bbox
bbox_numbers-draft srid w w' none four h = cc
bbox_numbers-draft srid w w' (some fs) four h = ground (
  arith,
  four fs refl,
  length-append w.args (List.◌++◌ fs (int srid ∷ [])),
  length-append fs (int srid ∷ []),
)

bbox_parts-draft :
    (srid : ℤ) (w w' : Where) (ps : List String)
    → bbox_parts srid w ps ≡ ok w'
    → draft_of w' ≡ draft_bbox true (draft_of w)
unfolding bbox_parts
bbox_parts-draft srid w w' (a ∷ b ∷ c ∷ d ∷ []) h =
    bbox_numbers-draft srid w w' (parse_floats (a ∷ b ∷ c ∷ d ∷ []))
      (λ fs e. parse_floats-length (a ∷ b ∷ c ∷ d ∷ []) fs e) h
bbox_parts-draft srid w w' _ h = cc

bbox_filter-draft :
    (srid : ℤ) (v : String) (w w' : Where)
    → bbox_filter srid v w ≡ ok w'
    → draft_of w' ≡ draft_bbox (not (is_nil v)) (draft_of w)
unfolding bbox_filter draft_bbox
bbox_filter-draft srid v w w' h = elim (Bool-cases (is_nil v)) [
  | inl e ↦ ground (arith, e)
  | inr e ↦ rw e (bbox_parts-draft srid w w' (split b',' v) (rw e at h))
]

-- The conditions, the number of arguments, and the temporal expression.
abbrev Drafted : Type 0
Drafted = Draft × String

draft_datetime : Bool → Bool → Draft → Drafted
draft_datetime false sub d = (d, "trip")
draft_datetime true false (cs, n) =
    ((List.◌++◌ cs (("trip && " ++ span_expr n) ∷ []), n + 1), "trip")
draft_datetime true true (cs, n) = (
  (
    List.◌++◌ (List.◌++◌ cs (("trip && " ++ span_expr n) ∷ []))
        (("atTime(trip, " ++ (span_expr n ++ ") IS NOT NULL")) ∷ []),
    n + 1,
  ),
  "atTime(trip, " ++ (span_expr n ++ ")"),
)

datetime_filter-draft :
    (sub dt : String) (w : Where) (found : Where × String)
    → datetime_filter sub dt w ≡ ok found
    → (draft_of found.0, found.1) ≡ draft_datetime (not (is_nil dt)) (sub == "true") (draft_of w)
unfolding datetime_filter draft_datetime clipped
datetime_filter-draft sub dt w found h = grind (arith, length-append)

-- The SQL text of a shape.
draft : Shape → Drafted
unfolding draft_after draft_bbox draft_datetime
draft sh = draft_datetime sh.datetime sh.sub (draft_bbox sh.bbox (draft_after sh.after ([], 0)))

check_subtrajectory-eq :
    (sub dt : String) (w w' : Where) → check_subtrajectory sub dt w ≡ ok w' → w' ≡ w
unfolding check_subtrajectory
check_subtrajectory-eq sub dt w w' h = ground arith

item_filters-draft :
    (srid : ℤ) (q : Query) (f : Filters)
    → item_filters srid q ≡ ok f
    → (f.where_sql ≡ where_clause (draft (shape q)).0.0)
      × (f.tg_expr ≡ (draft (shape q)).1)
      × (length f.args ≡ (draft (shape q)).0.1)
unfolding item_filters draft shape finish
item_filters-draft srid q f h =
    let (keyed, e1, h1) = on_ok_inversion (after_filter (first q "after") _) _ h in
    let (boxed, e2, h2) = on_ok_inversion (bbox_filter srid (first q "bbox") keyed) _ h1 in
    let (checked, e3, h3) =
      on_ok_inversion (check_subtrajectory (subtrajectory q) (first q "datetime") boxed) _ h2 in
    let (found, e4, h4) =
      on_ok_inversion (datetime_filter (subtrajectory q) (first q "datetime") checked) _ h3 in
    let drafted : ◌≡◌ {A = Drafted} (draft_of found.0, found.1) (draft (shape q)) = cc (
      after_filter-draft _ _ keyed e1,
      bbox_filter-draft srid _ keyed boxed e2,
      check_subtrajectory-eq _ _ boxed checked e3,
      datetime_filter-draft _ _ checked found e4,
    ) in
    let same : finish found ≡ f = ground arith in rw (← same, ← drafted) (refl, refl, refl)

draft_numbered :
    (a b d s : Bool)
    → let made = draft (record { after = a; bbox = b; datetime = d; sub = s }) in
      is_numbered made.0.1 (where_clause made.0.0 ++ made.1) ≡ true
unfolding draft is_numbered where_clause bbox_cond itoa
draft_numbered true true true true = refl
draft_numbered true true true false = refl
draft_numbered true true false true = refl
draft_numbered true true false false = refl
draft_numbered true false true true = refl
draft_numbered true false true false = refl
draft_numbered true false false true = refl
draft_numbered true false false false = refl
draft_numbered false true true true = refl
draft_numbered false true true false = refl
draft_numbered false true false true = refl
draft_numbered false true false false = refl
draft_numbered false false true true = refl
draft_numbered false false true false = refl
draft_numbered false false false true = refl
draft_numbered false false false false = refl

-- The placeholders of the filters' SQL, in the WHERE clause and in the temporal expression, are
-- numbered from 1 to the number of bound arguments: none is missing and none is unbound.
pub item_filters-numbered :
    (srid : ℤ) (q : Query) (f : Filters)
    → item_filters srid q ≡ ok f
    → is_numbered (length f.args) (f.where_sql ++ f.tg_expr) ≡ true
item_filters-numbered srid q f h =
    let (w, t, n) = item_filters-draft srid q f h in
    let sh = shape q in rw (w, t, n) (draft_numbered sh.after sh.bbox sh.datetime sh.sub)

-- Two requests with the same parameters present, and the same answer to whether the trajectory is
-- clipped, get the same SQL text, whatever the values of the parameters are and whichever the
-- collection's reference system is.
pub item_filters_same_sql :
    (srid srid' : ℤ) (q q' : Query) (f f' : Filters)
    → shape q ≡ shape q'
    → item_filters srid q ≡ ok f
    → item_filters srid' q' ≡ ok f'
    → (f.where_sql ≡ f'.where_sql) × (f.tg_expr ≡ f'.tg_expr) × (length f.args ≡ length f'.args)
item_filters_same_sql srid srid' q q' f f' same h h' =
    let (w, t, n) = item_filters-draft srid q f h in
    let (w', t', n') = item_filters-draft srid' q' f' h' in
    rw (w, t, n, w', t', n', same) (refl, refl, refl)
