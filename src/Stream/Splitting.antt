-- ===== src/Stream/Splitting.antt =====
-- Runs of a query over windows, as splits of the records of its source.
use mathlib.Core.List
use mathlib.Core.Path.{subst}
use mobility_api.Base.{
  concat, ℕ, ◌≡◌, refl, sym, ap, ◌∙◌, List, [], ◌∷◌, Option, none, some, All, String, map,
}
use mobility_api.Base.Int.{ℤ}
use mobility_api.Base.Json.{Json}
use mobility_api.Http.{ok}
use mobility_api.Stream.{Instant, Window}
use mobility_api.Stream.Windows.{
  Open, next, WindowEvent, window_event, collect, nothing_open, run, windows, run_aggregate,
  window_step,
}

-- The records of a closed window.
unfoldable pub closed_records : Option (List Instant) → List Instant
closed_records none = []
closed_records (some w) = w

-- A step adds its record behind the open window and closes a front of the two.
abbrev pub Appends : (Open → Instant → Option (List Instant) × Open) → Type 0
Appends step =
    (o : Open) (i : Instant)
    → List.◌++◌ (closed_records (step o i).0) (step o i).1.win ≡ List.◌++◌ o.win (i ∷ [])

pub append_nil : {A : Type 0} (xs : List A) → List.◌++◌ xs [] ≡ xs
append_nil [] = refl
append_nil (x ∷ xs) = ap (λ zs. x ∷ zs) (append_nil xs)

append_assoc :
    {A : Type 0} (xs ys zs : List A)
    → List.◌++◌ (List.◌++◌ xs ys) zs ≡ List.◌++◌ xs (List.◌++◌ ys zs)
append_assoc [] ys zs = refl
append_assoc (x ∷ xs) ys zs = ap (λ ws. x ∷ ws) (append_assoc xs ys zs)

collect-concat :
    (c : Option (List Instant)) (later : List (List Instant) × Open)
    → List.◌++◌ (concat (collect c later).0) (collect c later).1.win
      ≡ List.◌++◌ (closed_records c) (List.◌++◌ (concat later.0) later.1.win)
unfolding collect closed_records
collect-concat none later = refl
collect-concat (some w) later = append_assoc w (concat later.0) later.1.win

module _ (step : Open → Instant → Option (List Instant) × Open) (appends : Appends step) where
  pub windows_split :
      (is : List Instant) (o : Open)
      → List.◌++◌ (concat (windows step o is).0) (windows step o is).1.win ≡ List.◌++◌ o.win is
  unfolding windows
  windows_split [] o = rw (append_nil o.win) refl
  windows_split (i ∷ is) o =
      let (c, o') = step o i in
      collect-concat c (windows step o' is)
      ∙ (ap (λ zs. List.◌++◌ (closed_records c) zs) (windows_split is o')
          ∙ (sym (append_assoc (closed_records c) o'.win is)
              ∙ (ap (λ zs. List.◌++◌ zs is) (appends o i) ∙ append_assoc o.win (i ∷ []) is)))

-- What holds of every window that a query closes, and of the one left open, when each step keeps it.
module _ {ℓ κ} (step : Open → Instant → Option (List Instant) × Open) (P : List Instant → Type ℓ)
    (Inv : Open → Type κ)
    (closes : (o : Open) (i : Instant) (w : List Instant) → Inv o → (step o i).0 ≡ some w → P w)
    (keeps : (o : Open) (i : Instant) → Inv o → Inv (step o i).1) where
  collect-All :
      (c : Option (List Instant)) (later : List (List Instant) × Open)
      → ((w : List Instant) → c ≡ some w → P w)
      → All P later.0
      → All P (collect c later).0
  unfolding collect
  collect-All none later h k = k
  collect-All (some w) later h k = (h w refl, k)

  collect_open :
      (c : Option (List Instant)) (later : List (List Instant) × Open)
      → (collect c later).1 ≡ later.1
  unfolding collect
  collect_open none later = refl
  collect_open (some w) later = refl

  pub windows-All :
      (is : List Instant) (o : Open)
      → Inv o
      → All P (windows step o is).0 × Inv (windows step o is).1
  unfolding windows
  windows-All [] o h = (tt, h)
  windows-All (i ∷ is) o h =
      let (rest, open_after) = windows-All is (step o i).1 (keeps o i h) in
      (
        collect-All (step o i).0 (windows step (step o i).1 is) (λ w. closes o i w h) rest,
        subst Inv (sym (collect_open (step o i).0 (windows step (step o i).1 is))) open_after,
      )

-- A run whose aggregates all succeed and whose source ends emits an event for each closed window.
module _ (step : Open → Instant → Option (List Instant) × Open) (f : List Instant → Json × ℕ) where
  abbrev events_of : List (List Instant) → List WindowEvent
  events_of = map (λ w. window_event w (f w))

  collected :
      (c : Option (List Instant)) (later : List WindowEvent × String)
      (ws : List (List Instant) × Open)
      → later ≡ (events_of ws.0, "stopped")
      → elim c [ none ↦ later | some win ↦ (window_event win (f win) ∷ later.0, later.1) ]
        ≡ (events_of (collect c ws).0, "stopped")
  unfolding collect
  collected none later ws h = h
  collected (some win) later ws h = rw h refl

  run-windows :
      (is : List Instant) (o : Open)
      → run step (λ w. ok (f w)) o (map next is) ≡ (events_of (windows step o is).0, "stopped")
  unfolding run windows
  run-windows [] o = refl
  run-windows (i ∷ is) o =
      collected (step o i).0 (run step (λ w. ok (f w)) (step o i).1 (map next is))
        (windows step (step o i).1 is) (run-windows is (step o i).1)

-- The windows `ws` and the records `left` that split the stream, as a query emits them.
abbrev pub Splits :
    (List Instant → Json × ℕ)
    → List Instant
    → List WindowEvent × String
    → List (List Instant)
    → List Instant
    → Type 0
Splits f is result ws left =
    (result ≡ (map (λ w. window_event w (f w)) ws, "stopped")) × (List.◌++◌ (concat ws) left ≡ is)

-- A run over a step that counts is a run over the windows of that size.
pub run_as :
    (w : Window) (unix : Instant → ℕ → ℤ) (f : List Instant → Json × ℕ) (is : List Instant)
    (step : Open → Instant → Option (List Instant) × Open)
    → window_step w unix ≡ step
    → run_aggregate w unix (λ win. ok (f win)) (map next is)
      ≡ (map (λ win. window_event win (f win)) (windows step nothing_open is).0, "stopped")
unfolding run_aggregate
run_as w unix f is step e = rw e (run-windows step f is nothing_open)
