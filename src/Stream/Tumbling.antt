-- ===== src/Stream/Tumbling.antt =====
-- Queries over TUMBLING windows.
use mathlib.Core.List
use mathlib.Core.Path.{subst}
use mobility_api.Base.{
  ℕ, ◌+◌, ◌-◌, ◌*◌, ◌/◌, ◌%◌, ◌<◌, ◌≤◌, Option, none, some, All, All-append, map, ◌≡◌, refl, sym,
  ap, true, false, List, [], ◌∷◌, length, arith, Bool-cases, inl, inr, ◌==◌,
}
use native.Mathlib.Nat.{div-add-mod', mod-lt}
use mobility_api.Base.Int.{ℤ, pos}
use mobility_api.Base.Json.{Json}
use mobility_api.Http.{ok}
use mobility_api.Stream.{Instant, Window}
use mobility_api.Stream.Windows.{
  Open, collect, tumbling_step, windows, nothing_open, next, run_aggregate, is_before, boundary,
  window_step,
}
use mobility_api.Stream.Splitting.{closed_records, Appends, windows_split, run_as, Splits}
use mobility_api.Stream.Windows.{tumbling_span_seconds, tumbling_span_seconds-positive}

tumbling_step-Appends : (span : ℕ) (unix : Instant → ℕ → ℤ) → Appends (tumbling_step span unix)
unfolding tumbling_step closed_records
tumbling_step-Appends span unix o i = appends_at o.win o.end
  where
    appends_at :
        (win : List Instant) (e : ℤ)
        → List.◌++◌
            (closed_records (tumbling_step span unix (record { win = win; end = e }) i).0)
            (tumbling_step span unix (record { win = win; end = e }) i).1.win
          ≡ List.◌++◌ win (i ∷ [])
    appends_at [] e = refl
    appends_at (j ∷ js) e = elim (Bool-cases (is_before (unix i (length (j ∷ js))) e)) [
      | inl h ↦ rw h refl
      | inr h ↦ rw h refl
    ]

tumbling :
    (w : Window) (unix : Instant → ℕ → ℤ)
    → (w.kind == "TUMBLING") ≡ true
    → window_step w unix ≡ tumbling_step (tumbling_span_seconds w) unix
unfolding window_step
tumbling w unix h = rw h refl

-- The end of the span that a time lies in: the spans are counted from 1970.
unfoldable pub span_end : ℕ → ℕ → ℕ
span_end span t = (t / span + 1) * span

boundary-span_end : (span t : ℕ) → boundary span (pos t) ≡ pos (span_end span t)
unfolding boundary span_end
boundary-span_end span t =
    let whole = div-add-mod' t span in
    let same : t - t % span + span ≡ (t / span + 1) * span = omega (arith, whole) in ap pos same

span_end-after : (span t : ℕ) → 0 < span → t < span_end span t
unfolding span_end
span_end-after span t positive =
    let whole = div-add-mod' t span in
    let left : t % span < span = mod-lt t positive in omega (arith, whole, left)

module _ (span : ℕ) (clock : Instant → ℕ) where
  -- A window of records before the end of the span that its first record lies in.
  abbrev pub IsTumbled : List Instant → Type 0
  IsTumbled [] = ⊥
  IsTumbled (i ∷ is) = All (λ j. clock j < span_end span (clock i)) (i ∷ is)

  -- The second window begins with a record that is not before that end.
  abbrev pub Follows : List Instant → List Instant → Type 0
  Follows (i ∷ is) (j ∷ js) = span_end span (clock i) ≤ clock j
  Follows _ _ = ⊥

  -- The windows of a stream, in order: each ends where its span does, and no earlier.
  unfoldable pub AreTumbled : List (List Instant) → Type 0
  AreTumbled [] = Unit
  AreTumbled (w ∷ []) = IsTumbled w
  AreTumbled (w ∷ v ∷ vs) = IsTumbled w × Follows w v × AreTumbled (v ∷ vs)

  StartsAt : Instant → List (List Instant) → Type 0
  StartsAt i ((j ∷ js) ∷ vs) = j ≡ i
  StartsAt i _ = ⊥

  -- A closed window in front of those that follow it.
  in_front-AreTumbled :
      (i : Instant) (is : List Instant) (k : Instant) (vs : List (List Instant))
      → IsTumbled (i ∷ is)
      → span_end span (clock i) ≤ clock k
      → StartsAt k vs
      → AreTumbled vs
      → AreTumbled ((i ∷ is) ∷ vs)
  unfolding AreTumbled StartsAt
  in_front-AreTumbled i is k [] w after s t = absurd s
  in_front-AreTumbled i is k ([] ∷ vs) w after s t = absurd s
  in_front-AreTumbled i is k ((j ∷ js) ∷ vs) w after s t =
      (w, subst (λ z. span_end span (clock i) ≤ clock z) (sym s) after, t)

  module _ (positive : 0 < span) where
    abbrev step : Open → Instant → Option (List Instant) × Open
    step = tumbling_step span (λ j n. pos (clock j))

    -- The windows that are closed, and behind them the one left open.
    abbrev all_windows : List (List Instant) × Open → List (List Instant)
    all_windows r = List.◌++◌ r.0 (r.1.win ∷ [])

    -- The open window that begins with `j`.
    abbrev begun : Instant → List Instant → Open
    begun j js = record { win = j ∷ js; end = pos (span_end span (clock j)) }

    collect-windows :
        (w : List Instant) (r : List (List Instant) × Open)
        → all_windows (collect (some w) r) ≡ w ∷ all_windows r
    unfolding collect
    collect-windows w r = refl

    first_alone : (i : Instant) → IsTumbled (i ∷ [])
    first_alone i = (span_end-after span (clock i) positive, tt)

    step_kept :
        (j : Instant) (js : List Instant) (i : Instant)
        → is_before (pos (clock i)) (pos (span_end span (clock j))) ≡ true
        → step (begun j js) i ≡ (none, begun j (List.◌++◌ js (i ∷ [])))
    unfolding tumbling_step
    step_kept j js i h = rw h refl

    step_closed :
        (j : Instant) (js : List Instant) (i : Instant)
        → is_before (pos (clock i)) (pos (span_end span (clock j))) ≡ false
        → step (begun j js) i ≡ (some (j ∷ js), begun i [])
    unfolding tumbling_step
    step_closed j js i h = rw (h, boundary-span_end span (clock i)) refl

    step_first : (i : Instant) → step nothing_open i ≡ (none, begun i [])
    unfolding tumbling_step
    step_first i = rw (boundary-span_end span (clock i)) refl

    windows-step :
        (o : Open) (i : Instant) (is : List Instant) (r : Option (List Instant) × Open)
        → step o i ≡ r
        → windows step o (i ∷ is) ≡ collect r.0 (windows step r.1 is)
    unfolding windows
    windows-step o i is r e = ap (λ z. collect z.0 (windows step z.1 is)) e

    windows-AreTumbled :
        (is : List Instant) (j : Instant) (js : List Instant)
        → IsTumbled (j ∷ js)
        → StartsAt j (all_windows (windows step (begun j js) is))
          × AreTumbled (all_windows (windows step (begun j js) is))
    unfolding windows AreTumbled StartsAt
    windows-AreTumbled [] j js h = (refl, h)
    windows-AreTumbled (i ∷ is) j js h =
        elim (Bool-cases (is_before (pos (clock i)) (pos (span_end span (clock j))))) [
          | inl before ↦
              let inside : clock i < span_end span (clock j) = ground arith in
              rw (windows-step (begun j js) i is _ (step_kept j js i before)) (
                windows-AreTumbled is j (List.◌++◌ js (i ∷ [])) (
                  h.0,
                  All-append (λ m. clock m < span_end span (clock j)) js (i ∷ []) h.1 (inside, tt),
                ))
          | inr after ↦
              let beyond : span_end span (clock j) ≤ clock i = ground arith in
              let (starts, rest) = windows-AreTumbled is i [] (first_alone i) in
              rw (windows-step (begun j js) i is _ (step_closed j js i after)) (
                refl,
                in_front-AreTumbled j js i (all_windows (windows step (begun i []) is)) h beyond
                    starts rest,
              )
        ]

    -- The same of the stream of a query, whose first record opens the first window.
    stream-AreTumbled :
        (i : Instant) (is : List Instant)
        → AreTumbled (all_windows (windows step nothing_open (i ∷ is)))
    unfolding collect windows
    stream-AreTumbled i is =
        rw (windows-step nothing_open i is _ (step_first i))
          (windows-AreTumbled is i [] (first_alone i)).1

-- A query over TUMBLING windows, whose aggregates succeed and whose records have event times from 1970 on,
-- splits the records of a source that ends, in order, into windows: each holds records before the end
-- of the span that its first record lies in, and the next begins with the first record that is not before
-- that end; a late record stays in the window that is open. The query emits one event for each window but
-- the last, which is left open, and stops.
pub run_aggregate-tumbling :
    (w : Window) (clock : Instant → ℕ) (f : List Instant → Json × ℕ) (i : Instant)
    (is : List Instant)
    → (w.kind == "TUMBLING") ≡ true
    → (ws : List (List Instant)) × (left : List Instant) × Splits f
        (i ∷ is)
        (run_aggregate w (λ j n. pos (clock j)) (λ win. ok (f win)) (map next (i ∷ is)))
        ws
        left
      × AreTumbled (tumbling_span_seconds w) clock (List.◌++◌ ws (left ∷ []))
run_aggregate-tumbling w clock f i is h =
    let span = tumbling_span_seconds w in
    let unix : Instant → ℕ → ℤ = λ j n. pos (clock j) in
    let step = tumbling_step span unix in
    (
      (windows step nothing_open (i ∷ is)).0,
      (windows step nothing_open (i ∷ is)).1.win,
      (
        run_as w unix f (i ∷ is) step (tumbling w unix h),
        windows_split step (tumbling_step-Appends span unix) (i ∷ is) nothing_open,
      ),
      stream-AreTumbled span clock (tumbling_span_seconds-positive w) i is,
    )
