-- ===== src/Routes/Specific.antt =====
-- The patterns of the routes against each other: of those that match a request, one is the most specific.
use mathlib.Core.Path.{subst}
use mobility_api.Base.{
  String, ◌≡◌, refl, sym, Bool, true, false, ◌&&◌, ◌||◌, List, [], ◌∷◌, Option, none, some, all,
  All, ◌⊎◌, inl, inr, Bool-cases,
}
use mobility_api.Base.Split.{and_true}
use mobility_api.Routes.{Pattern, routes, Values, serves, is_within, better, best}
use mobility_api.Routes.Within.{is_within_refl, is_within_trans}
use mobility_api.Routes.Apart.{apart, or_cases, Served, apart-Served}

is_comparable : Pattern → Pattern → Bool
unfolding apart
is_comparable p q = apart p q || (is_within p q || is_within q p)

are_comparable : List Pattern → Bool
unfolding is_comparable
are_comparable [] = true
are_comparable (p ∷ ps) = all (λ q. is_comparable p q) ps && are_comparable ps

routes_comparable : are_comparable routes ≡ true
unfolding are_comparable routes is_within
routes_comparable = refl

-- A pattern does not serve the request, or its paths include those of another.
Yields : String → List String → Pattern → Pattern → Type 0
Yields method path b q = (serves method path q ≡ none) ⊎ (is_within b q ≡ true)

abbrev IsMember : Pattern → List Pattern → Type 0
IsMember b [] = ⊥
IsMember b (p ∷ ps) = (b ≡ p) ⊎ IsMember b ps

all-IsMember :
    (f : Pattern → Bool) (b : Pattern) (ps : List Pattern)
    → all f ps ≡ true
    → IsMember b ps
    → f b ≡ true
all-IsMember f b [] h none_there = absurd none_there
all-IsMember f b (p ∷ ps) h (inl e) =
    subst (λ q. f q ≡ true) (sym e) (and_true (f p) (all f ps) h).0
all-IsMember f b (p ∷ ps) h (inr later) = all-IsMember f b ps (and_true (f p) (all f ps) h).1 later

-- The pattern is one of those given, it serves the request with the values, and each other one that
-- serves the request includes its paths.
unfoldable pub IsChosen : String → List String → List Pattern → Pattern → Values → Type 0
unfolding Yields
IsChosen method path ps b vs =
    IsMember b ps × (serves method path b ≡ some vs) × All (Yields method path b) ps

abbrev Pending : String → List String → List Pattern → Option (Pattern × Values) → Type 0
Pending method path ps none = All (λ q. serves method path q ≡ none) ps
Pending method path ps (some (b, vs)) = IsChosen method path ps b vs

Yields-within :
    (method : String) (path : List String) (p b : Pattern) (ps : List Pattern)
    → is_within p b ≡ true
    → All (Yields method path b) ps
    → All (Yields method path p) ps
unfolding Yields
Yields-within method path p b [] w h = tt
Yields-within method path p b (q ∷ qs) w (inl none_q, h) =
    (inl none_q, Yields-within method path p b qs w h)
Yields-within method path p b (q ∷ qs) w (inr within_q, h) =
    (inr (is_within_trans p b q w within_q), Yields-within method path p b qs w h)

Yields-none :
    (method : String) (path : List String) (p : Pattern) (ps : List Pattern)
    → All (λ q. serves method path q ≡ none) ps
    → All (Yields method path p) ps
unfolding Yields
Yields-none method path p [] h = tt
Yields-none method path p (q ∷ qs) h = (inl h.0, Yields-none method path p qs h.1)

not_apart :
    (p q : Pattern) (method : String) (path : List String)
    → is_comparable p q ≡ true
    → Served method path p
    → Served method path q
    → is_within p q ≡ false
    → is_within q p ≡ true
unfolding is_comparable
not_apart p q method path c h g w = elim (or_cases (apart p q) (is_within p q || is_within q p) c) [
  | inl a ↦ absurd (apart-Served p q method path a h g)
  | inr within ↦ rw w at within
]

better-Pending :
    (method : String) (path : List String) (p : Pattern) (ps : List Pattern) (r : Option Values)
    (found : Option (Pattern × Values))
    → serves method path p ≡ r
    → all (λ q. is_comparable p q) ps ≡ true
    → Pending method path ps found
    → Pending method path (p ∷ ps) (better r p found)
unfolding better IsChosen Yields
better-Pending method path p ps none none h c pend = (h, pend)
better-Pending method path p ps none (some (b, vs)) h c (member, served, rest) =
    (inr member, served, (inl h, rest))
better-Pending method path p ps (some vs) none h c pend =
    (inl refl, h, (inr (is_within_refl p), Yields-none method path p ps pend))
better-Pending method path p ps (some vs) (some (b, ws)) h c (member, served, rest) =
    elim (Bool-cases (is_within p b)) [
      | inl first ↦
          rw first
            (inl refl, h, (inr (is_within_refl p), Yields-within method path p b ps first rest))
      | inr other ↦ rw other (
        inr member,
        served,
        (
          inr (
              not_apart p b method path (all-IsMember (λ q. is_comparable p q) b ps c member)
                (vs, h) (ws, served) other),
          rest,
        ),
      )
    ]

best-Pending :
    (method : String) (path : List String) (ps : List Pattern)
    → are_comparable ps ≡ true
    → Pending method path ps (best method path ps)
unfolding best are_comparable
best-Pending method path [] h = tt
best-Pending method path (p ∷ ps) h =
    let (first, later) = and_true (all (λ q. is_comparable p q) ps) (are_comparable ps) h in
    better-Pending method path p ps (serves method path p) (best method path ps) refl first
      (best-Pending method path ps later)

-- Of the routes that serve a request, one has no more paths than any other: the table has no two
-- patterns that a request could match with neither within the other, whatever the method and the path
-- are, so the order in which the routes are registered does not matter. Where no route is chosen, none
-- serves the request.
pub best-IsChosen :
    (method : String) (path : List String)
    → ((b : Pattern) × (vs : Values) × (best method path routes ≡ some (b, vs))
        × IsChosen method path routes b vs)
      ⊎ ((best method path routes ≡ none) × All (λ q. serves method path q ≡ none) routes)
best-IsChosen method path =
    decided (best method path routes) refl (best-Pending method path routes routes_comparable)
  where
    decided :
        (found : Option (Pattern × Values))
        → best method path routes ≡ found
        → Pending method path routes found
        → ((b : Pattern) × (vs : Values) × (best method path routes ≡ some (b, vs))
            × IsChosen method path routes b vs)
          ⊎ ((best method path routes ≡ none) × All (λ q. serves method path q ≡ none) routes)
    decided none e pend = inr (e, pend)
    decided (some (b, vs)) e pend = inl (b, vs, e, pend)
