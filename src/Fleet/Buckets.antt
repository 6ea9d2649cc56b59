-- ===== src/Fleet/Buckets.antt =====
-- The buckets of the series against those that the values fall in.
use mathlib.Core.Path.{subst, subst₂}
use native.Mathlib.Nat.{div-add-mod'}
use mobility_api.Base.{
  ℕ, zero, suc, ◌+◌, ◌*◌, ◌/◌, ◌<◌, ◌≤◌, ◌≡◌, refl, sym, ap, ◌∙◌, true, false, List, ◌∷◌, some, ◌⊎◌,
  get_elem?, Bool-cases, inl, inr, arith,
}
use mobility_api.Base.Int.{ℤ, pos, negsuc, is_before, plus, minus}
use mobility_api.Fleet.Clock.{AtMost, AtMost-trans}
use mobility_api.Fleet.Series.{bucket, buckets, index_of, eq_int, distance}

eq_int-true : (a b : ℤ) → eq_int a b ≡ true → a ≡ b
unfolding eq_int
eq_int-true (pos a) (pos b) h = ap pos (ground arith)
eq_int-true (pos a) (negsuc b) h = absurd (cc)
eq_int-true (negsuc a) (pos b) h = absurd (cc)
eq_int-true (negsuc a) (negsuc b) h = ap negsuc (ground arith)

eq_int_refl : (a : ℤ) → eq_int a a ≡ true
unfolding eq_int
eq_int_refl (pos a) = ground arith
eq_int_refl (negsuc a) = ground arith

plus_zero : (b : ℤ) → plus b 0 ≡ b
unfolding plus minus
plus_zero (pos a) = ap pos (omega arith)
plus_zero (negsuc a) = ground arith

plus_none : (b : ℤ) (step : ℕ) → plus b (0 * step) ≡ b
plus_none b step = ap (plus b) (omega arith) ∙ plus_zero b

plus_plus : (b : ℤ) (m n : ℕ) → plus (plus b m) n ≡ plus b (m + n)
unfolding plus minus
plus_plus (pos a) m n = ap pos (omega arith)
plus_plus (negsuc a) m n = ground arith

AtMost-plus : (b : ℤ) (m : ℕ) → AtMost b (plus b m)
unfolding plus minus AtMost
AtMost-plus (pos a) m = ground arith
AtMost-plus (negsuc a) m = ground arith

distance-plus : (b : ℤ) (m : ℕ) (top : ℤ) → AtMost (plus b m) top → m ≤ distance b top
unfolding plus minus AtMost distance
distance-plus (pos a) m (pos c) h = ground arith
distance-plus (pos a) m (negsuc c) h = absurd (cc)
distance-plus (negsuc a) m (pos c) h = ground arith
distance-plus (negsuc a) m (negsuc c) h = ground arith

abbrev Found : ℤ → List ℤ → Type 0
Found x bs = (i : ℕ) × (index_of x bs ≡ some i) × (get_elem? bs i ≡ some x)

-- What is found behind a bucket is found with it in front.
Found-cons : (x c : ℤ) (bs : List ℤ) → Found x bs → Found x (c ∷ bs)
unfolding index_of
Found-cons x c bs (i, e, g) = elim (Bool-cases (eq_int c x)) [
  | inl here ↦ (0, rw (here) refl, ap some (eq_int-true c x here))
  | inr other ↦ (suc i, rw (other, e) refl, g)
]

Found-first : (fuel step : ℕ) (b top : ℤ) → AtMost b top → Found b (buckets (suc fuel) step b top)
unfolding buckets index_of AtMost
Found-first fuel step b top low = (0, rw (low, eq_int_refl b) refl, rw (low) refl)

-- A multiple of the step behind the first bucket has a place, up to the last one.
index_of-multiple :
    (fuel step k : ℕ) (b top : ℤ)
    → k < fuel
    → AtMost (plus b (k * step)) top
    → Found (plus b (k * step)) (buckets fuel step b top)
unfolding buckets AtMost
index_of-multiple zero step k b top h u = absurd (omega (arith, h))
index_of-multiple (suc fuel) step zero b top h u =
    subst (λ x. Found x (buckets (suc fuel) step b top)) (sym (plus_none b step))
      (Found-first fuel step b top (subst (λ x. AtMost x top) (plus_none b step) u))
index_of-multiple (suc fuel) step (suc k) b top h u =
    let low : is_before top b ≡ false =
      AtMost-trans b (plus b (suc k * step)) top (AtMost-plus b (suc k * step)) u in
    let e : plus (plus b step) (k * step) ≡ plus b (suc k * step) =
      plus_plus b step (k * step) ∙ ap (plus b) (omega arith) in
    let found =
      index_of-multiple fuel step k (plus b step) top (omega (arith, h))
        (subst (λ x. AtMost x top) (sym e) u) in
    rw (low) (
      Found-cons (plus b (suc k * step)) b (buckets fuel step (plus b step) top)
        (subst (λ x. Found x (buckets fuel step (plus b step) top)) e found))

-- The difference of multiples is one.
difference-multiple :
    (step x y : ℕ) → 0 < step → x * step ≤ y * step → (k : ℕ) × (y * step ≡ x * step + k * step)
difference-multiple step zero y p h = (y, omega arith)
difference-multiple step (suc x) zero p h = absurd (omega (arith, h, p))
difference-multiple step (suc x) (suc y) p h =
    let r = difference-multiple step x y p (omega (arith, h)) in (r.0, omega (arith, r.1))

unfoldable below : ℕ → ℤ
unfolding minus
below c = minus 0 c

plus-below : (a b m : ℕ) → a ≡ b + m → plus (below a) m ≡ below b
unfolding below plus minus
plus-below zero zero m h = ap pos (omega (arith, h))
plus-below zero (suc b) m h = absurd (omega (arith, h))
plus-below (suc a) zero m h = ground arith
plus-below (suc a) (suc b) m h = ground arith

reach_up : (a b : ℕ) → plus (below a) (a + b) ≡ pos b
unfolding below plus minus
reach_up zero b = ap pos (omega arith)
reach_up (suc a) b = ground arith

-- b lies a number of steps behind a.
Reaches : ℕ → ℤ → ℤ → Type 0
Reaches step a b = (k : ℕ) × (plus a (k * step) ≡ b)

pos-pos :
    (step x y : ℕ)
    → 0 < step
    → AtMost (pos (x * step)) (pos (y * step))
    → Reaches step (pos (x * step)) (pos (y * step))
unfolding Reaches AtMost plus
pos-pos step x y p h =
    let r = difference-multiple step x y p (ground arith) in (r.0, ap pos (sym r.1))

none_left : (a b : ℕ) → AtMost (pos a) (below b) → pos a ≡ below b
unfolding AtMost below minus
none_left zero zero h = refl
none_left zero (suc b) h = absurd (ground arith)
none_left (suc a) zero h = absurd (ground arith)
none_left (suc a) (suc b) h = absurd (ground arith)

pos-below :
    (step x y : ℕ)
    → AtMost (pos (x * step)) (below (y * step))
    → Reaches step (pos (x * step)) (below (y * step))
unfolding Reaches AtMost plus below minus
pos-below step x y h = (0, ap pos (omega arith) ∙ none_left (x * step) (y * step) h)

least : (a b : ℕ) → AtMost (below a) (below b) → b ≤ a
unfolding AtMost below minus
least zero zero h = omega arith
least zero (suc b) h = absurd (ground arith)
least (suc a) zero h = omega arith
least (suc a) (suc b) h = ground arith

below-below :
    (step x y : ℕ)
    → 0 < step
    → AtMost (below (x * step)) (below (y * step))
    → Reaches step (below (x * step)) (below (y * step))
unfolding Reaches
below-below step x y p h =
    let r = difference-multiple step y x p (least (x * step) (y * step) h) in
    (r.0, plus-below (x * step) (y * step) (r.0 * step) r.1)

abbrev Multiple : ℕ → ℤ → Type 0
Multiple step b = (q : ℕ) × ((b ≡ pos (q * step)) ⊎ (b ≡ below (q * step)))

-- A bucket is a multiple of the step, on either side of 1970.
bucket-Multiple : (step : ℕ) (t : ℤ) → Multiple step (bucket step t)
unfolding bucket below
bucket-Multiple step (pos n) =
    (n / step, inl (ap pos (let e = div-add-mod' n step in omega (arith, e))))
bucket-Multiple step (negsuc n) =
    (suc n / step, inr (ap (minus 0) (let e = div-add-mod' (suc n) step in omega (arith, e))))

reaches :
    (step : ℕ) (a b : ℤ)
    → 0 < step
    → Multiple step a
    → Multiple step b
    → AtMost a b
    → Reaches step a b
unfolding Reaches
reaches step a b p (x, inl e) (y, inl f) h =
    subst₂ (λ a b. AtMost a b → Reaches step a b) (sym e) (sym f) (pos-pos step x y p) h
reaches step a b p (x, inl e) (y, inr f) h =
    subst₂ (λ a b. AtMost a b → Reaches step a b) (sym e) (sym f) (pos-below step x y) h
reaches step a b p (x, inr e) (y, inl f) h =
    subst₂ (λ a b. Reaches step a b) (sym e) (sym f)
      (x + y, ap (plus (below (x * step))) (omega arith) ∙ reach_up (x * step) (y * step))
reaches step a b p (x, inr e) (y, inr f) h =
    subst₂ (λ a b. AtMost a b → Reaches step a b) (sym e) (sym f) (below-below step x y p) h

steps_le : (k step : ℕ) → 0 < step → k ≤ k * step
steps_le zero step p = omega arith
steps_le (suc k) step p = let r = steps_le k step p in omega (arith, r, p)

-- Every bucket between the first and the last one that occur has an index, and the
-- bucket is at that index, where the step is positive: no average is written to another place.
pub index_of-bucket :
    (step : ℕ) (first t last : ℤ)
    → 0 < step
    → AtMost (bucket step first) (bucket step t)
    → AtMost (bucket step t) (bucket step last)
    → let bs =
        buckets
          (suc (distance (bucket step first) (bucket step last)))
          step
          (bucket step first)
          (bucket step last) in
      (i : ℕ) × (index_of (bucket step t) bs ≡ some i) × (get_elem? bs i ≡ some (bucket step t))
unfolding Reaches
index_of-bucket step first t last p low high =
    let r =
      reaches step (bucket step first) (bucket step t) p (bucket-Multiple step first)
        (bucket-Multiple step t) low in
    let inside = subst (λ x. AtMost x (bucket step last)) (sym r.1) high in
    let size = distance-plus (bucket step first) (r.0 * step) (bucket step last) inside in
    let short = steps_le r.0 step p in
    subst
      (λ x. Found x (
        buckets (suc (distance (bucket step first) (bucket step last))) step (bucket step first)
          (bucket step last)))
      r.1
      (index_of-multiple (suc (distance (bucket step first) (bucket step last))) step r.0
        (bucket step first) (bucket step last) (omega (arith, size, short)) inside)
