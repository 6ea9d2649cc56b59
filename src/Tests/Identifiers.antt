-- ===== src/Tests/Identifiers.antt =====
-- The identifiers of the registered queries and of the features at concrete inputs.
use mobility_api.Base.{String, ◌≡◌, ◌≢◌, [], ◌∷◌, none, some, arith}
use mobility_api.Base.Int.{pos, negsuc, itoa}
use mobility_api.Base.Decimal.{IsInt64}
use mobility_api.Backend.{int}
use mobility_api.Http.{ok}
use mobility_api.Filters.{Where, after_filter}
use mobility_api.Items.Links.{after_filter-itoa}
use mobility_api.Stream.{QuerySpec}
use mobility_api.Stream.Registry.{Registry, register, remove, get}
use mobility_api.Stream.Issued.{Reached, start, registered, removed, Reached-register_fresh}

abbrev averages : QuerySpec
averages = record {
  kind = "property";
  cid = "ships";
  fid = pos 1;
  pname = "speed";
  op = "";
  arg = none;
  agg = "";
  window = none;
  ptype = "TReal";
  interval = pos 1;
  engine = "";
}

abbrev before : Registry
before = remove "q1" (register averages none none (record { next_id = 0; queries = [] })).1

before-Reached : Reached before
before-Reached = removed "q1" (registered averages none none start)

Reached-register_fresh_example :
    (get (register averages none none before).0.id before ≡ none)
    × (get (register averages none none before).0.id (register averages none none before).1
        ≡ some (register averages none none before).0)
    × ((id : String)
        → id ≢ (register averages none none before).0.id
        → get id (register averages none none before).1 ≡ get id before)
Reached-register_fresh_example = Reached-register_fresh before-Reached averages none none

abbrev no_conditions : Where
no_conditions = record { conds = []; args = [] }

small-IsInt64 : IsInt64 (negsuc 41)
unfolding IsInt64
small-IsInt64 = omega arith

after_filter-itoa_example :
    after_filter (itoa (negsuc 41)) no_conditions
    ≡ ok (record { conds = "id > $1" ∷ []; args = int (negsuc 41) ∷ [] })
unfolding itoa
after_filter-itoa_example = after_filter-itoa (negsuc 41) no_conditions small-IsInt64
