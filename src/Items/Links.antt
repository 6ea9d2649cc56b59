-- ===== src/Items/Links.antt =====
-- main.go: the `after` of a next link of streamItems, as itemFilters reads it.
use Prim.Native.String.{◌++◌}
use mobility_api.Base.{◌+◌, ◌≡◌, refl, [], ◌∷◌, length}
use mobility_api.Base.Int.{ℤ, itoa}
use mobility_api.Base.Decimal.{IsInt64, atoi-itoa, is_nil-itoa}
use mobility_api.Backend.{int}
use mobility_api.Http.{ok}
use mobility_api.Filters.{Where, add, after_filter}
use mobility_api.Filters.Interval.{placeholder}

-- For an id of 64 bits, the text that streamItems writes as `after` into the next link is read back
-- by itemFilters as that id: it adds the condition on the id with the next placeholder, and binds
-- exactly the id.
pub after_filter-itoa :
    (k : ℤ) (w : Where)
    → IsInt64 k
    → after_filter (itoa k) w ≡ ok (add w ("id > " ++ placeholder (length w.args + 1)) (int k ∷ []))
unfolding after_filter
after_filter-itoa k w h = rw (is_nil-itoa k, atoi-itoa k h) refl
