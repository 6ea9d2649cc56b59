-- ===== src/Stream/Aggregates.antt =====
-- stream_engine_meos.go: the aggregate of a window, by the type of the property.
pub mod Serves
use Prim.Native.String.{◌++◌}
use mobility_api.Base.{
  ℕ, zero, suc, ◌+◌, ◌-◌, ◌/◌, ◌%◌, String, Bool, true, false, ◌||◌, ltb, leb, eqb, List, [], ◌∷◌,
  Option, none, some, any, length, map, ◌==◌, if◌then◌else◌,
}
use mobility_api.Base.Text.{replace_all}
use mobility_api.Base.Float.{Float, dec}
use mobility_api.Base.Json.{Json, num, bool}
use mobility_api.Base.Time.{days_in}
use mobility_api.Base.Time.Print.{padded}
use mobility_api.Http.{Result, ok, err, failed}
use mobility_api.Interp.{quote}
use mobility_api.Stream.{Instant}
use mobility_api.Stream.Meos.{Meos}

-- The day that lies so many days after the first of a month; the fuel bounds the months.
date_after : ℕ → ℕ → ℕ → ℕ → String
unfolding padded days_in
date_after zero year month day = ""
date_after (suc fuel) year month day =
    let next_month =
      date_after fuel (if eqb month 12 then suc year else year)
        (if eqb month 12 then 1 else suc month) (day - days_in month year) in
    if ltb day (days_in month year)
    then padded 4 year ("-" ++ padded 2 month ("-" ++ padded 2 (suc day) ""))
    else next_month

-- The time that many seconds after the start of 2000.
unfoldable stamp : ℕ → String
unfolding date_after padded
stamp i =
    date_after (suc (i / 86400)) 2000 1 (i / 86400)
    ++ (" "
        ++ (padded 2 (i % 86400 / 3600)
              (":" ++ padded 2 (i % 3600 / 60) (":" ++ padded 2 (i % 60) ""))
            ++ "+00"))

synth_from : (Instant → String) → ℕ → List Instant → String
synth_from value i [] = "}"
synth_from value i (r ∷ rs) =
    (if eqb i 0 then "" else ", ") ++ (value r ++ ("@" ++ (stamp i ++ synth_from value (suc i) rs)))

-- synthWindowText
unfoldable pub synth_window_text : List Instant → (Instant → String) → String
unfolding synth_from stamp
synth_window_text win value = "{" ++ synth_from value 0 win

-- escapeText
unfoldable pub escape_text : String → String
unfolding replace_all
escape_text s = "\"" ++ (replace_all (replace_all s "\\" "\\\\") "\"" "\\\"" ++ "\"")

-- A count as a float64.
abbrev of_count : ℕ → Json
of_count n = num (dec false n 0 0)

difference : ℕ → ℕ → Json
difference n k = if leb k n then of_count (n - k) else num (dec true (k - n) 0 0)

unknown : String → Result (Json × ℕ)
unknown agg = err (failed ("unknown aggregation " ++ quote agg))

sum_of : {T : Type 0} → Meos T → Float → List Float → Float
sum_of m acc [] = acc
sum_of m acc (v ∷ vs) = sum_of m (m.plus acc v) vs

-- The texts that occur, each once.
unfoldable pub distinct : List String → List String
distinct [] = []
distinct (s ∷ ss) = let rest = distinct ss in if any (λ t. t == s) rest then rest else s ∷ rest

unfoldable count_true : List Bool → ℕ
count_true [] = 0
count_true (true ∷ bs) = suc (count_true bs)
count_true (false ∷ bs) = count_true bs

unfoldable pub bool_text : Instant → String
bool_text i = if (i.s == "t") || (i.s == "true") then "t" else "f"

module _ {T : Type 0} (m : Meos T) where
  unfoldable pub num_of : String → T → Result (Json × ℕ)
  unfolding unknown sum_of
  num_of agg t =
      let n = m.num_instants t in
      if agg == "COUNT"
      then ok (of_count n, n)
      else if agg == "MIN"
      then ok (num (m.min_value t), n)
      else if agg == "MAX"
      then ok (num (m.max_value t), n)
      else if agg == "AVG"
      then ok (num (m.avg_value t), n)
      else if agg == "SUM"
      then ok (num (sum_of m (dec false 0 0 0) (m.float_values t)), n)
      else unknown agg

  unfoldable pub text_of : String → T → Result (Json × ℕ)
  unfolding unknown distinct
  text_of agg t =
      let n = m.num_instants t in
      if agg == "COUNT"
      then ok (of_count n, n)
      else if agg == "COUNT_DISTINCT"
      then ok (of_count (length (distinct (m.text_values t))), n)
      else unknown agg

  unfoldable pub bool_of : String → T → Result (Json × ℕ)
  unfolding unknown count_true difference
  bool_of agg t =
      let n = m.num_instants t in
      let trues = count_true (m.bool_values t) in
      if agg == "COUNT"
      then ok (of_count n, n)
      else if agg == "COUNT_TRUE"
      then ok (of_count trues, n)
      else if agg == "COUNT_FALSE"
      then ok (difference n trues, n)
      else if agg == "ANY"
      then ok (bool (ltb 0 trues), n)
      else if agg == "ALL"
      then ok (bool (eqb trues n), n)
      else unknown agg

  -- A literal that MEOS does not read fails the window.
  read_by : String → Option T → (T → Result (Json × ℕ)) → Result (Json × ℕ)
  read_by reader none f = err (failed (reader ++ " failed for the window"))
  read_by reader (some t) f = f t

  -- numAggregate, textAggregate and boolAggregate
  unfoldable pub num_aggregate : String → List Instant → Result (Json × ℕ)
  unfolding num_of read_by
  num_aggregate agg win =
      read_by "tfloat_in" (m.tfloat_in (synth_window_text win (λ i. m.format_float i.v)))
        (num_of agg)

  unfoldable pub text_aggregate : String → List Instant → Result (Json × ℕ)
  unfolding text_of read_by
  text_aggregate agg win =
      read_by "ttext_in" (m.ttext_in (synth_window_text win (λ i. escape_text i.s))) (text_of agg)

  unfoldable pub bool_aggregate : String → List Instant → Result (Json × ℕ)
  unfolding bool_of read_by
  bool_aggregate agg win =
      read_by "tbool_in" (m.tbool_in (synth_window_text win bool_text)) (bool_of agg)

  -- windowAggregate
  unfoldable pub window_aggregate : String → String → List Instant → Result (Json × ℕ)
  unfolding num_aggregate text_aggregate bool_aggregate
  window_aggregate ptype agg win =
      if ptype == "TText"
      then text_aggregate agg win
      else if ptype == "TBoolean"
      then bool_aggregate agg win
      else num_aggregate agg win
