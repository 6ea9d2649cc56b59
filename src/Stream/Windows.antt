-- ===== src/Stream/Windows.antt =====
-- stream_engine_meos.go: runAggregate and runHopping, over the records that a source yields. A result
-- is taken as soon as it is emitted; a source that ends is closed, and `cancelled` is the end of the
-- query's context.
use mathlib.Core.List
use mobility_api.Base.{
  ℕ, suc, ◌<◌, ◌+◌, ◌-◌, ◌*◌, ◌%◌, String, List, [], ◌∷◌, Option, none, some, leb, eqb, arith,
  length, is_empty, ◌==◌, if◌then◌else◌,
}
use mobility_api.Base.Int.{ℤ, pos, negsuc, max_int64, minus}
pub use mobility_api.Base.Int.{is_before}
use mobility_api.Base.Json.{Json}
use mobility_api.Http.{Result, ok, err}
use mobility_api.Stream.{Instant, Window}

-- The span and the hop are of positive size once the request is checked.
seconds_per : String → ℕ
seconds_per unit = if unit == "MINUTES" then 60 else if unit == "HOURS" then 3600 else 1

-- A duration in seconds, in int64; one that is not positive, also by overflow, counts as 1.
wrapped : ℕ → ℕ
wrapped n =
    let low = n % (2 * (max_int64 + 1)) in
    if eqb low 0 then 1 else if leb low max_int64 then low else 1

clamped : ℤ → String → ℕ
unfolding wrapped seconds_per
clamped (pos n) unit = wrapped (n * seconds_per unit)
clamped (negsuc n) unit =
    wrapped (2 * (max_int64 + 1) * seconds_per unit - suc n * seconds_per unit)

-- tumblingSpanSeconds and hopSeconds
unfoldable pub tumbling_span_seconds : Window → ℕ
unfolding clamped
tumbling_span_seconds w = clamped w.size w.unit

unfoldable pub hop_seconds : Window → ℕ
unfolding clamped
hop_seconds w = clamped w.hop w.hop_unit

wrapped-positive : (n : ℕ) → 0 < wrapped n
unfolding wrapped
wrapped-positive n = ground arith

clamped-positive : (z : ℤ) (unit : String) → 0 < clamped z unit
unfolding clamped
clamped-positive (pos n) unit = wrapped-positive (n * seconds_per unit)
clamped-positive (negsuc n) unit =
    wrapped-positive (2 * (max_int64 + 1) * seconds_per unit - suc n * seconds_per unit)

pub tumbling_span_seconds-positive : (w : Window) → 0 < tumbling_span_seconds w
unfolding tumbling_span_seconds
tumbling_span_seconds-positive w = clamped-positive w.size w.unit

pub hop_seconds-positive : (w : Window) → 0 < hop_seconds w
unfolding hop_seconds
hop_seconds-positive w = clamped-positive w.hop w.hop_unit

-- ts - (ts % span) + span, with a remainder that has the sign of ts.
unfoldable pub boundary : ℕ → ℤ → ℤ
unfolding minus
boundary span (pos n) = pos (n - n % span + span)
boundary span (negsuc n) = minus span (suc n - suc n % span)

pub data Signal : Type 0 where
  next : Instant → Signal
  cancelled : Signal

-- The records of the open window, and the exclusive end of a TUMBLING one.
pub record Open : Type 0 where
  pub win : List Instant
  pub end : ℤ

pub record WindowEvent : Type 0 where
  pub window_start : String
  pub window_end : String
  pub value : Json
  pub count : ℕ

abbrev pub nothing_open : Open
nothing_open = record { win = []; end = pos 0 }

first_time : List Instant → String
first_time [] = ""
first_time (i ∷ is) = i.t

last_time : List Instant → String
last_time [] = ""
last_time (i ∷ []) = i.t
last_time (i ∷ j ∷ js) = last_time (j ∷ js)

unfoldable pub window_event : List Instant → Json × ℕ → WindowEvent
unfolding first_time last_time
window_event win r = record {
  window_start = first_time win;
  window_end = last_time win;
  value = r.0;
  count = r.1;
}

-- One record: the window that it closes, if it does, and the window open after it.
unfoldable pub count_step : ℕ → Open → Instant → Option (List Instant) × Open
count_step size o i =
    let win = List.◌++◌ o.win (i ∷ []) in
    if leb size (length win)
    then (some win, record o { win = [] })
    else (none, record o { win = win })

-- instantUnix, which reads the time of the record by time.Parse, is `unix`.
unfoldable pub tumbling_step : ℕ → (Instant → ℕ → ℤ) → Open → Instant → Option (List Instant) × Open
unfolding boundary
tumbling_step span unix o i =
    let ts = unix i (length o.win) in
    if is_empty o.win
    then (none, record { win = i ∷ []; end = boundary span ts })
    else if is_before ts o.end
    then (none, record o { win = List.◌++◌ o.win (i ∷ []) })
    else (some o.win, record { win = i ∷ []; end = boundary span ts })

unfoldable pub window_step :
    Window → (Instant → ℕ → ℤ) → Open → Instant → Option (List Instant) × Open
unfolding count_step tumbling_step tumbling_span_seconds
window_step w unix =
    if w.kind == "TUMBLING"
    then tumbling_step (tumbling_span_seconds w) unix
    else elim w.size [ pos n ↦ count_step n | negsuc n ↦ count_step 0 ]

-- The events of the query, and the status that it ends with. `aggregate` is windowAggregate.
module _ (step : Open → Instant → Option (List Instant) × Open)
    (aggregate : List Instant → Result (Json × ℕ)) where
  unfoldable pub run : Open → List Signal → List WindowEvent × String
  unfolding window_event
  run o [] = ([], "stopped")
  run o (cancelled ∷ rest) = ([], "stopped")
  run o (next i ∷ rest) =
      let (closed, o') = step o i in
      let later = run o' rest in
      elim closed [
        | none ↦ later
        | some win ↦ elim (aggregate win) [
          | err e ↦ ([], "failed")
          | ok r ↦ (window_event win r ∷ later.0, later.1)
        ]
      ]

-- The same windows, without their aggregates: those closed, and the one left open.
unfoldable pub collect :
    Option (List Instant) → List (List Instant) × Open → List (List Instant) × Open
collect none later = later
collect (some win) later = (win ∷ later.0, later.1)

module _ (step : Open → Instant → Option (List Instant) × Open) where
  unfoldable pub windows : Open → List Instant → List (List Instant) × Open
  unfolding collect
  windows o [] = ([], o)
  windows o (i ∷ is) = collect (step o i).0 (windows (step o i).1 is)

-- runAggregate over COUNT and TUMBLING windows.
unfoldable pub run_aggregate :
    Window
    → (Instant → ℕ → ℤ)
    → (List Instant → Result (Json × ℕ))
    → List Signal
    → List WindowEvent × String
unfolding run window_step
run_aggregate w unix aggregate = run (window_step w unix) aggregate nothing_open
