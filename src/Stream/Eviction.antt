-- ===== src/Stream/Eviction.antt =====
-- Hopping windows: the eviction of old records changes no window.
use mathlib.Core.List
use mathlib.Core.Path.{subst}
use mobility_api.Base.{
  ℕ, zero, suc, ◌<◌, ◌≤◌, ◌+◌, ◌-◌, ◌%◌, leb, Bool, true, false, not, ◌&&◌, List, [], ◌∷◌, Option,
  none, some, ◌≡◌, refl, ap, ◌∙◌, arith, if◌then◌else◌, Bool-cases, inl, inr,
}
use mobility_api.Base.Int.{ℤ, pos, negsuc, minus, max_int64}
use mobility_api.Base.Json.{Json}
use mobility_api.Http.{Result}
use mobility_api.Stream.{Instant, Window}
use mobility_api.Stream.Windows.{
  Signal, next, cancelled, is_before, boundary, hop_seconds, hop_seconds-positive,
  tumbling_span_seconds,
}
use mobility_api.Stream.Hopping.{
  Stamped, later, earlier, in_window, evict, Hops, rounds, with_window, due, arrived, hop_step,
  hops, run_hopping,
}

before_of_before :
    (t from lo : ℤ) → is_before t from ≡ true → is_before lo from ≡ false → is_before t lo ≡ true
before_of_before t from lo h k = ground arith

-- The time less the span is in int64.
abbrev pub Fits : ℕ → ℤ → Type 0
Fits span (pos m) = Unit
Fits span (negsuc m) = m + span ≤ max_int64

leb_of_le : {a b : ℕ} → a ≤ b → leb a b ≡ true
leb_of_le h = ground arith

earlier_fits : (m span : ℕ) → m + span ≤ max_int64 → earlier (negsuc m) span ≡ negsuc (m + span)
earlier_fits m span h = let fits : leb (m + span) max_int64 ≡ true = leb_of_le h in rw fits refl

earlier_keeps :
    (a b : ℤ) (span : ℕ)
    → Fits span b
    → is_before a b ≡ false
    → is_before (earlier a span) (earlier b span) ≡ false
earlier_keeps (pos m) (pos n) span f h = ground arith
earlier_keeps (pos m) (negsuc n) span f h = rw (earlier_fits n span f) (ground arith)
earlier_keeps (negsuc m) (pos n) span f h = absurd (ground arith)
earlier_keeps (negsuc m) (negsuc n) span f h =
    let below : m ≤ n = ground arith in
    rw (earlier_fits n span f, earlier_fits m span (omega (arith, f, below)))
      (ground (arith, below))

later-Fits : (span : ℕ) (z : ℤ) (hop : ℕ) → Fits span z → Fits span (later z hop)
later-Fits span (pos m) hop f = tt
later-Fits span (negsuc m) hop f = elim (Bool-cases (leb hop m)) [
  | inl less ↦ rw less (omega (arith, f))
  | inr more ↦ rw more tt
]

minus-Fits : (span a b n : ℕ) → b ≤ suc n → 0 < a → n + span ≤ max_int64 → Fits span (minus a b)
unfolding minus
minus-Fits span a b n le positive f = elim (Bool-cases (leb b a)) [
  | inl less ↦ rw less tt
  | inr more ↦ rw more (omega (arith, f, le, positive))
]

boundary-Fits : (span hop : ℕ) (t : ℤ) → 0 < hop → Fits span t → Fits span (boundary hop t)
unfolding boundary
boundary-Fits span hop (pos n) positive f = tt
boundary-Fits span hop (negsuc n) positive f =
    minus-Fits span hop (suc n - suc n % hop) n (omega arith) positive f

before_later : (a z : ℤ) (hop : ℕ) → is_before a (later z hop) ≡ false → is_before a z ≡ false
before_later a z hop h = ground arith

-- What eviction drops is in no window from then on.
in_window-evict :
    (span : ℕ) (from emit : ℤ) (buf : List Stamped)
    → is_before (earlier emit span) from ≡ false
    → in_window span emit (evict from buf) ≡ in_window span emit buf
unfolding in_window evict
in_window-evict span from emit [] h = refl
in_window-evict span from emit ((i, t) ∷ buf) h = elim (Bool-cases (is_before t from)) [
  | inl e ↦
      let past = before_of_before t from (earlier emit span) e h in
      rw e (rw past (in_window-evict span from emit buf h))
  | inr e ↦ rw e refl
]

in_window-append :
    (span : ℕ) (emit : ℤ) (xs ys : List Stamped)
    → in_window span emit (List.◌++◌ xs ys)
      ≡ List.◌++◌ (in_window span emit xs) (in_window span emit ys)
unfolding in_window
in_window-append span emit [] ys = refl
in_window-append span emit ((i, t) ∷ xs) ys =
    elim (Bool-cases (not (is_before t (earlier emit span)) && is_before t emit)) [
      | inl e ↦ rw e (ap (λ zs. i ∷ zs) (in_window-append span emit xs ys))
      | inr e ↦ rw e (in_window-append span emit xs ys)
    ]

-- No record is dropped.
abbrev pub keep_all : ℤ → List Stamped → List Stamped
keep_all from buf = buf

-- The windows of the two states agree from the next time to emit at.
abbrev Agree : ℕ → Hops → Hops → Type 0
Agree span h k =
    (h.next_emit ≡ k.next_emit)
    × ((emit : ℤ)
        → is_before emit h.next_emit ≡ false
        → in_window span emit h.buf ≡ in_window span emit k.buf)
    × Fits span h.next_emit

-- The windows of the two results are the same, and their states agree.
abbrev Same : ℕ → List (List Instant) × Hops → List (List Instant) × Hops → Type 0
Same span r q = (r.0 ≡ q.0) × Agree span r.1 q.1

with_window-Same :
    (span : ℕ) (win win' : List Instant) (r q : List (List Instant) × Hops)
    → win ≡ win'
    → Same span r q
    → Same span (with_window win r) (with_window win' q)
with_window-Same span [] [] r q e h = h
with_window-Same span [] (j ∷ js) r q e h = absurd (cc)
with_window-Same span (i ∷ is) [] r q e h = absurd (cc)
with_window-Same span (i ∷ is) (j ∷ js) r q e h = (cc, h.1)

if_Same :
    (span : ℕ) (b : Bool) (x y x' y' : List (List Instant) × Hops)
    → Same span x y
    → Same span x' y'
    → Same span (if b then x else x') (if b then y else y')
if_Same span true x y x' y' h k = h
if_Same span false x y x' y' h k = k

is_before_self : (z : ℤ) → is_before z z ≡ false
is_before_self z = ground arith

module _ (span hop : ℕ) where
  due_at :
      (fuel : ℕ) (t emit : ℤ) (xs ys : List Stamped)
      → Fits span emit
      → ((e : ℤ) → is_before e emit ≡ false → in_window span e xs ≡ in_window span e ys)
      → Same span
          (due evict span hop fuel t (record { buf = xs; next_emit = emit }))
          (due keep_all span hop fuel t (record { buf = ys; next_emit = emit }))
  unfolding due
  due_at zero t emit xs ys f agree = (refl, (refl, agree, f))
  due_at (suc fuel) t emit xs ys f agree =
      let following = later emit hop in
      let fits : Fits span following = later-Fits span emit hop f in
      let rest = due_at fuel t following (evict (earlier following span) xs) ys fits (λ e after.
        in_window-evict span (earlier following span) e xs
          (earlier_keeps e following span fits after)
        ∙ agree e (before_later e emit hop after)) in
      if_Same span (is_before t emit) _ _ _ _ (refl, (refl, agree, f))
        (with_window-Same span _ _ _ _ (agree emit (is_before_self emit)) rest)

  due-Same :
      (fuel : ℕ) (t : ℤ) (h k : Hops)
      → Agree span h k
      → Same span (due evict span hop fuel t h) (due keep_all span hop fuel t k)
  due-Same fuel t h k (same, agree, fits) =
      subst
        (λ e.
          Same span (due evict span hop fuel t h)
            (due keep_all span hop fuel t (record { buf = k.buf; next_emit = e })))
        same (due_at fuel t h.next_emit h.buf k.buf fits agree)

  arrived-Agree :
      (t : ℤ) (i : Instant) (h k : Hops)
      → Agree span h k
      → Agree span (arrived evict span hop t i (some h)) (arrived keep_all span hop t i (some k))
  unfolding arrived
  arrived-Agree t i h k (same, agree, fits) = (
    same,
    λ emit after.
        rw (in_window-append span emit h.buf ((i, t) ∷ []))
          (rw (in_window-append span emit k.buf ((i, t) ∷ [])) (rw (agree emit after) refl)),
    fits,
  )

  -- The states that two records arrive at.
  abbrev AgreeOptions : Option Hops → Option Hops → Type 0
  AgreeOptions none none = Unit
  AgreeOptions (some h) (some k) = Agree span h k
  AgreeOptions _ _ = ⊥

  arrived_agrees :
      (t : ℤ) (i : Instant) (o p : Option Hops)
      → 0 < hop
      → Fits span t
      → AgreeOptions o p
      → Agree span (arrived evict span hop t i o) (arrived keep_all span hop t i p)
  unfolding arrived
  arrived_agrees t i none none positive f a =
      (refl, (λ e after. refl), boundary-Fits span hop t positive f)
  arrived_agrees t i none (some k) positive f a = elim a [ ]
  arrived_agrees t i (some h) none positive f a = elim a [ ]
  arrived_agrees t i (some h) (some k) positive f a = arrived-Agree t i h k a

  rounds-Same :
      (t : ℤ) (h k : Hops)
      → Agree span h k
      → Same span
          (due evict span hop (rounds t h.next_emit) t h)
          (due keep_all span hop (rounds t k.next_emit) t k)
  rounds-Same t h k a =
      subst
        (λ e.
          Same span (due evict span hop (rounds t h.next_emit) t h)
            (due keep_all span hop (rounds t e) t k))
        a.0 (due-Same (rounds t h.next_emit) t h k a)

  hop_step-Same :
      (t : ℤ) (i : Instant) (o p : Option Hops)
      → 0 < hop
      → Fits span t
      → AgreeOptions o p
      → Same span (hop_step evict span hop t i o) (hop_step keep_all span hop t i p)
  unfolding hop_step
  hop_step-Same t i o p positive f a =
      rounds-Same t (arrived evict span hop t i o) (arrived keep_all span hop t i p)
        (arrived_agrees t i o p positive f a)

  hops_same :
      (unix : Instant → ℕ → ℤ) (aggregate : List Instant → Result (Json × ℕ)) (idx : ℕ)
      (o p : Option Hops) (signals : List Signal)
      → 0 < hop
      → ((i : Instant) (n : ℕ) → Fits span (unix i n))
      → AgreeOptions o p
      → hops evict span hop unix aggregate idx o signals
        ≡ hops keep_all span hop unix aggregate idx p signals
  unfolding hops
  hops_same unix aggregate idx o p [] positive f a = refl
  hops_same unix aggregate idx o p (cancelled ∷ rest) positive f a = refl
  hops_same unix aggregate idx o p (next i ∷ rest) positive f a =
      let (same, agree) = hop_step-Same (unix i idx) i o p positive (f i idx) a in
      rw same (
        rw
          (hops_same unix aggregate (suc idx) (some (hop_step evict span hop (unix i idx) i o).1)
            (some (hop_step keep_all span hop (unix i idx) i p).1) rest positive f agree)
          refl)

-- Where each event time less the window's span is in the range of int64, a query over HOPPING windows
-- emits what it would emit if it kept every record: the eviction of old records drops none that a later
-- window holds, in whatever order the records come.
pub run_hopping-evict :
    (w : Window) (unix : Instant → ℕ → ℤ) (aggregate : List Instant → Result (Json × ℕ))
    (signals : List Signal)
    → ((i : Instant) (n : ℕ) → Fits (tumbling_span_seconds w) (unix i n))
    → run_hopping w unix aggregate signals
      ≡ hops keep_all (tumbling_span_seconds w) (hop_seconds w) unix aggregate 0 none signals
unfolding run_hopping
run_hopping-evict w unix aggregate signals fits =
    hops_same (tumbling_span_seconds w) (hop_seconds w) unix aggregate 0 none none signals
      (hop_seconds-positive w) fits tt
