-- ===== src/Stream/Counting.antt =====
-- Queries over COUNT windows.
use mathlib.Core.List
use mobility_api.Base.{
  ℕ, ◌<◌, ◌≡◌, refl, false, List, [], ◌∷◌, some, All, length, length-append, arith, Bool-cases, inl,
  inr, map, ◌==◌, leb,
}
use mobility_api.Base.Int.{ℤ, pos}
use mobility_api.Base.Json.{Json}
use mobility_api.Http.{ok}
use mobility_api.Stream.{Instant, Window}
use mobility_api.Stream.Windows.{
  Open, next, nothing_open, count_step, windows, run_aggregate, window_step,
}
use mobility_api.Stream.Splitting.{
  closed_records, append_nil, Appends, windows_split, windows-All, run_as, Splits,
}

count_step-Appends : (size : ℕ) → Appends (count_step size)
unfolding count_step closed_records
count_step-Appends size o i = elim (Bool-cases (leb size (length (List.◌++◌ o.win (i ∷ []))))) [
  | inl e ↦ rw e (append_nil (List.◌++◌ o.win (i ∷ [])))
  | inr e ↦ rw e refl
]

count_step-closes :
    (size : ℕ) (o : Open) (i : Instant) (w : List Instant)
    → length o.win < size
    → (count_step size o i).0 ≡ some w
    → length w ≡ size
unfolding count_step
count_step-closes size o i w h e = ground (arith, length-append o.win (i ∷ []))

count_step-keeps :
    (size : ℕ) (o : Open) (i : Instant)
    → length o.win < size
    → length (count_step size o i).1.win < size
unfolding count_step
count_step-keeps size o i h = ground (arith, length-append o.win (i ∷ []))

counting :
    (w : Window) (size : ℕ) (unix : Instant → ℕ → ℤ)
    → (w.kind == "TUMBLING") ≡ false
    → w.size ≡ pos size
    → window_step w unix ≡ count_step size
unfolding window_step
counting w size unix counted sized = rw counted (rw sized refl)

-- A query over COUNT windows of a positive size, whose aggregates succeed, splits the records of a
-- source that ends, in order, into windows of exactly that size and fewer than that at the end; it
-- emits one event for each window and stops.
pub run_aggregate-count :
    (w : Window) (size : ℕ) (unix : Instant → ℕ → ℤ) (f : List Instant → Json × ℕ)
    (is : List Instant)
    → (w.kind == "TUMBLING") ≡ false
    → w.size ≡ pos size
    → 0 < size
    → (ws : List (List Instant)) × (left : List Instant) × Splits f is
        (run_aggregate w unix (λ win. ok (f win)) (map next is))
        ws
        left
      × All (λ win. length win ≡ size) ws
      × (length left < size)
run_aggregate-count w size unix f is counted sized positive =
    let (exact, fewer) =
      windows-All (count_step size) (λ w. length w ≡ size) (λ o. length o.win < size)
        (count_step-closes size) (count_step-keeps size) is nothing_open positive in
    (
      (windows (count_step size) nothing_open is).0,
      (windows (count_step size) nothing_open is).1.win,
      (
        run_as w unix f is (count_step size) (counting w size unix counted sized),
        windows_split (count_step size) (count_step-Appends size) is nothing_open,
      ),
      exact,
      fewer,
    )
