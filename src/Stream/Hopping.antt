-- ===== src/Stream/Hopping.antt =====
-- stream_engine_meos.go: runHopping, the overlapping windows.
use mathlib.Core.List
use mobility_api.Base.{
  ℕ, zero, suc, ◌+◌, ◌-◌, ◌*◌, String, not, ◌&&◌, List, [], ◌∷◌, Option, none, some, leb,
  if◌then◌else◌,
}
use mobility_api.Base.Int.{ℤ, pos, negsuc, max_int64}
use mobility_api.Base.Json.{Json}
use mobility_api.Http.{Result, ok, err}
use mobility_api.Stream.{Instant, Window}
use mobility_api.Stream.Windows.{
  Signal, next, cancelled, WindowEvent, window_event, is_before, boundary, hop_seconds,
  tumbling_span_seconds,
}

abbrev pub Stamped : Type 0
Stamped = Instant × ℤ

-- z + n, which stays in int64: a record's time is one of the years 0 to 9999, the loop moves a time that is
-- not after it, and the first is the end of a hop around it.
abbrev pub later : ℤ → ℕ → ℤ
later (pos m) n = pos (m + n)
later (negsuc m) n = if leb n m then negsuc (m - n) else pos (n - m - 1)

-- z - n in int64, for a span n of int64: it wraps below the least integer.
abbrev pub earlier : ℤ → ℕ → ℤ
earlier (pos m) n = if leb n m then pos (m - n) else negsuc (n - m - 1)
earlier (negsuc m) n =
    if leb (m + n) max_int64 then negsuc (m + n) else pos (2 * (max_int64 + 1) - suc (m + n))

-- The records with emit - span <= t < emit.
unfoldable pub in_window : ℕ → ℤ → List Stamped → List Instant
in_window span emit [] = []
in_window span emit ((i, t) ∷ buf) =
    let rest = in_window span emit buf in
    if not (is_before t (earlier emit span)) && is_before t emit then i ∷ rest else rest

-- Drops the front of the buffer before the time.
unfoldable pub evict : ℤ → List Stamped → List Stamped
evict from [] = []
evict from ((i, t) ∷ buf) =
    let rest = evict from buf in if is_before t from then rest else (i, t) ∷ buf

-- The buffer and the next time to emit at.
pub record Hops : Type 0 where
  pub buf : List Stamped
  pub next_emit : ℤ

-- t - z, 0 where t is before z.
abbrev pub since : ℤ → ℤ → ℕ
since (pos a) (pos b) = a - b
since (pos a) (negsuc b) = a + suc b
since (negsuc a) (pos b) = 0
since (negsuc a) (negsuc b) = b - a

-- The rounds of the loop, each of which moves the time by a hop of at least a second.
abbrev pub rounds : ℤ → ℤ → ℕ
rounds t emit = suc (since t emit)

abbrev pub with_window : List Instant → List (List Instant) × Hops → List (List Instant) × Hops
with_window [] r = r
with_window (i ∷ is) r = ((i ∷ is) ∷ r.0, r.1)

-- What is kept of the buffer from a time on is `evict` in the code.
module _ (keep : ℤ → List Stamped → List Stamped) (span hop : ℕ) where
  -- The loop `for t >= nextEmit`: the windows due, in order, and the state after them. The windows
  -- that hold no record are not emitted.
  unfoldable pub due : ℕ → ℤ → Hops → List (List Instant) × Hops
  unfolding in_window
  due zero t h = ([], h)
  due (suc fuel) t h =
      let following = later h.next_emit hop in
      let rest =
        due fuel t (record { buf = keep (earlier following span) h.buf; next_emit = following }) in
      if is_before t h.next_emit
      then ([], h)
      else with_window (in_window span h.next_emit h.buf) rest

  -- The state that a record meets: the first one starts the hops.
  unfoldable pub arrived : ℤ → Instant → Option Hops → Hops
  unfolding boundary
  arrived t i none = record { buf = (i, t) ∷ []; next_emit = boundary hop t }
  arrived t i (some h) = record h { buf = List.◌++◌ h.buf ((i, t) ∷ []) }

  unfoldable pub hop_step : ℤ → Instant → Option Hops → List (List Instant) × Hops
  unfolding due arrived
  hop_step t i o = due (rounds t (arrived t i o).next_emit) t (arrived t i o)

  module _ (unix : Instant → ℕ → ℤ) (aggregate : List Instant → Result (Json × ℕ)) where
    -- The events of the windows, up to the first whose aggregate fails; then `after`.
    emit_all : List (List Instant) → List WindowEvent × String → List WindowEvent × String
    unfolding window_event
    emit_all [] after = after
    emit_all (w ∷ ws) after =
        let rest = emit_all ws after in
        elim (aggregate w) [ err e ↦ ([], "failed") | ok r ↦ (window_event w r ∷ rest.0, rest.1) ]

    unfoldable pub hops : ℕ → Option Hops → List Signal → List WindowEvent × String
    unfolding emit_all hop_step
    hops idx o [] = ([], "stopped")
    hops idx o (cancelled ∷ rest) = ([], "stopped")
    hops idx o (next i ∷ rest) =
        let r = hop_step (unix i idx) i o in emit_all r.0 (hops (suc idx) (some r.1) rest)

unfoldable pub run_hopping :
    Window
    → (Instant → ℕ → ℤ)
    → (List Instant → Result (Json × ℕ))
    → List Signal
    → List WindowEvent × String
unfolding hops evict tumbling_span_seconds hop_seconds
run_hopping w unix aggregate signals =
    hops evict (tumbling_span_seconds w) (hop_seconds w) unix aggregate 0 none signals
