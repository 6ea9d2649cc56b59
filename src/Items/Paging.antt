-- ===== src/Items/Paging.antt =====
-- main.go: the pages that streamItems serves, and the client that follows their next links.
use mathlib.Core.Path.{subst}
use mathlib.Core.List.{append_assoc}
use mobility_api.Base.{
  ℕ, suc, zero, ◌<◌, ◌≤◌, ◌≡◌, refl, sym, ap, ◌∙◌, Bool, true, false, List, [], ◌∷◌, ◌++◌, Option,
  none, some, length, all, ltb, eqb, if◌then◌else◌, inl, inr, Bool-cases, arith,
}
use mobility_api.Base.Int.{ℤ, pos, negsuc}
use mobility_api.Items.Listing.{last_id, next_after}

unfoldable pub lt_id : ℤ → ℤ → Bool
lt_id (pos a) (pos b) = ltb a b
lt_id (pos a) (negsuc b) = false
lt_id (negsuc a) (pos b) = true
lt_id (negsuc a) (negsuc b) = ltb b a

unfoldable pub take : ℕ → List ℤ → List ℤ
take zero xs = []
take (suc n) [] = []
take (suc n) (x ∷ xs) = x ∷ take n xs

drop : ℕ → List ℤ → List ℤ
drop zero xs = xs
drop (suc n) [] = []
drop (suc n) (x ∷ xs) = drop n xs

-- The ids above a bound, all of them where the request has no `after`.
unfoldable pub above : Option ℤ → List ℤ → List ℤ
unfolding lt_id
above none xs = xs
above (some k) [] = []
above (some k) (x ∷ xs) = let rest = above (some k) xs in if lt_id k x then x ∷ rest else rest

-- The ids as ORDER BY lists them, each once.
unfoldable pub IsAscending : List ℤ → Type 0
unfolding lt_id
IsAscending [] = Unit
IsAscending (x ∷ xs) = (all (lt_id x) xs ≡ true) × IsAscending xs

unfoldable pub go_on : List ℤ → (ℤ → List ℤ) → Option ℤ → List ℤ
go_on rows next none = rows
go_on rows next (some k) = rows ++ next k

-- The ids that a client sees who asks for a page and then follows the next links.
unfoldable pub follow : (Option ℤ → ℕ → List ℤ) → ℕ → ℕ → Option ℤ → List ℤ
unfolding next_after go_on
follow page limit zero after = []
follow page limit (suc fuel) after =
    go_on (page after limit) (λ k. follow page limit fuel (some k))
      (next_after limit (page after limit))

lt_id_irrefl : (k : ℤ) → lt_id k k ≡ false
unfolding lt_id
lt_id_irrefl (pos a) = ground arith
lt_id_irrefl (negsuc a) = ground arith

lt_id_asym : (j k : ℤ) → lt_id j k ≡ true → lt_id k j ≡ false
unfolding lt_id
lt_id_asym (pos a) (pos b) h = ground arith
lt_id_asym (pos a) (negsuc b) h = ground arith
lt_id_asym (negsuc a) (pos b) h = refl
lt_id_asym (negsuc a) (negsuc b) h = ground arith

above-all : (k : ℤ) (xs : List ℤ) → all (lt_id k) xs ≡ true → above (some k) xs ≡ xs
unfolding above
above-all k [] h = refl
above-all k (x ∷ xs) h = elim (Bool-cases (lt_id k x)) [
  | inl under ↦ rw (under, above-all k xs (rw under at h)) refl
  | inr other ↦ absurd (ground arith)
]

all-middle : (f : ℤ → Bool) (xs ys : List ℤ) (k : ℤ) → all f (xs ++ k ∷ ys) ≡ true → f k ≡ true
all-middle f [] ys k h = ground arith
all-middle f (x ∷ xs) ys k h = elim (Bool-cases (f x)) [
  | inl under ↦ all-middle f xs ys k (rw under at h)
  | inr other ↦ absurd (ground arith)
]

-- Above the last id of a prefix of an ascending list stands the rest of the list.
above-prefix :
    (xs ys : List ℤ) (k : ℤ) → IsAscending (xs ++ k ∷ ys) → above (some k) (xs ++ k ∷ ys) ≡ ys
unfolding above IsAscending
above-prefix [] ys k h = rw (lt_id_irrefl k) (above-all k ys h.0)
above-prefix (x ∷ xs) ys k h =
    rw (lt_id_asym x k (all-middle (lt_id x) xs ys k h.0)) (above-prefix xs ys k h.1)

take-drop : (n : ℕ) (xs : List ℤ) → take n xs ++ drop n xs ≡ xs
unfolding take drop
take-drop zero xs = refl
take-drop (suc n) [] = refl
take-drop (suc n) (x ∷ xs) = rw (take-drop n xs) refl

-- A page that is not full is the last one.
drop-short : (n : ℕ) (xs : List ℤ) → eqb (length (take n xs)) n ≡ false → take n xs ≡ xs
unfolding take
drop-short zero xs h = absurd (ground arith)
drop-short (suc n) [] h = refl
drop-short (suc n) (x ∷ xs) h = rw (drop-short n xs (ground arith)) refl

next_after-empty : (n : ℕ) → next_after (suc n) [] ≡ none
unfolding next_after
next_after-empty n = ground arith

next_after-full :
    (n : ℕ) (x : ℤ) (xs : List ℤ)
    → eqb (length xs) n ≡ true
    → next_after (suc n) (x ∷ xs) ≡ some (last_id x xs)
unfolding next_after last_id
next_after-full n x xs h = ground arith

next_after-short :
    (n : ℕ) (x : ℤ) (xs : List ℤ) → eqb (length xs) n ≡ false → next_after (suc n) (x ∷ xs) ≡ none
unfolding next_after
next_after-short n x xs h = ground arith

init : ℤ → List ℤ → List ℤ
init x [] = []
init x (y ∷ ys) = x ∷ init y ys

init-last : (x : ℤ) (xs : List ℤ) → init x xs ++ last_id x xs ∷ [] ≡ x ∷ xs
unfolding init last_id
init-last x [] = refl
init-last x (y ∷ ys) = rw (init-last y ys) refl

-- The same of a page that is not empty, behind the pages before it.
above-page :
    (front ys : List ℤ) (x : ℤ) (xs : List ℤ)
    → IsAscending (front ++ (x ∷ xs ++ ys))
    → above (some (last_id x xs)) (front ++ (x ∷ xs ++ ys)) ≡ ys
above-page front ys x xs h =
    let k = last_id x xs in
    let page : init x xs ++ (k ∷ ys) ≡ x ∷ xs ++ ys =
      sym (append_assoc (init x xs) (k ∷ []) ys) ∙ ap (λ zs. zs ++ ys) (init-last x xs) in
    let same : (front ++ init x xs) ++ (k ∷ ys) ≡ front ++ (x ∷ xs ++ ys) =
      append_assoc front (init x xs) (k ∷ ys) ∙ ap (λ zs. front ++ zs) page in
    subst (λ zs. above (some k) zs ≡ ys) same
      (above-prefix (front ++ init x xs) ys k (subst IsAscending (sym same) h))

length-drop-le : (n : ℕ) (xs : List ℤ) → length (drop n xs) ≤ length xs
unfolding drop
length-drop-le zero xs = omega arith
length-drop-le (suc n) [] = omega arith
length-drop-le (suc n) (x ∷ xs) = omega (arith, length-drop-le n xs)

-- What the database answers: the first rows, in the order of their ids, that the request asks for.
unfoldable pub IsPaged : (Option ℤ → ℕ → List ℤ) → List ℤ → Type 0
unfolding take above
IsPaged page ids = (after : Option ℤ) (limit : ℕ) → page after limit ≡ take limit (above after ids)

module _ (page : Option ℤ → ℕ → List ℤ) (ids : List ℤ) (served : IsPaged page ids)
    (ascending : IsAscending ids) (n : ℕ) where
  -- From behind the pages already seen the client sees the rest.
  follow-rest :
      (fuel : ℕ) (after : Option ℤ) (front rest : List ℤ)
      → front ++ rest ≡ ids
      → above after ids ≡ rest
      → length rest < fuel
      → follow page (suc n) fuel after ≡ rest
  unfolding follow IsPaged go_on take drop
  follow-rest zero after front rest e a h = absurd (omega (arith, h))
  follow-rest (suc fuel) after front [] e a h =
      rw (served after (suc n), a, next_after-empty n) refl
  follow-rest (suc fuel) after front (x ∷ xs) e a h =
      let rows = take n xs in
      let k = last_id x rows in
      let whole : front ++ (x ∷ rows ++ drop n xs) ≡ ids =
        ap (λ zs. front ++ (x ∷ zs)) (take-drop n xs) ∙ e in
      let beyond : above (some k) ids ≡ drop n xs =
        subst (λ zs. above (some k) zs ≡ drop n xs) whole
          (above-page front (drop n xs) x rows (subst IsAscending (sym whole) ascending)) in
      let fits : length (drop n xs) < fuel = omega (arith, h, length-drop-le n xs) in
      let others =
        follow-rest fuel (some k) (front ++ (x ∷ rows)) (drop n xs)
          (append_assoc front (x ∷ rows) (drop n xs) ∙ whole) beyond fits in
      rw (served after (suc n), a)
        (elim (Bool-cases (eqb (length rows) n)) [
          | inl full ↦ rw (next_after-full n x rows full, others, take-drop n xs) refl
          | inr short ↦ rw (next_after-short n x rows short, drop-short n xs short) refl
        ])

  -- Where the database answers the first rows above `after` in the order of their distinct ids, and
  -- the limit is not zero, a client that starts without `after` and follows the next links of the
  -- pages sees each id exactly once and in order, and is done after at most as many pages as ids
  -- and one more.
  pub follow-served : (fuel : ℕ) → length ids < fuel → follow page (suc n) fuel none ≡ ids
  unfolding above
  follow-served fuel h = follow-rest fuel none [] ids refl refl h
