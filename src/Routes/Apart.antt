-- ===== src/Routes/Apart.antt =====
-- The patterns that no request matches both of.
use mathlib.Core.Path.{subst}
use mobility_api.Base.{
  String, ◌≡◌, refl, sym, ◌∙◌, ap, Bool, true, false, not, ◌&&◌, ◌||◌, List, [], ◌∷◌, Option, none,
  some, ◌==◌, eq_iff, ◌⊎◌, inl, inr, if◌then◌else◌,
}
use mobility_api.Base.Text.{is_nil}
use mobility_api.Base.Split.{and_true}
use mobility_api.Routes.{Part, at, wild, Pattern, Values, bind, match_parts, takes, serves}

-- Two lists of parts that no path matches both of.
parts_apart : List Part → List Part → Bool
parts_apart [] [] = false
parts_apart [] (q ∷ qs) = true
parts_apart (p ∷ ps) [] = true
parts_apart (at t ∷ ps) (at u ∷ qs) = not (t == u) || parts_apart ps qs
parts_apart (at t ∷ ps) (wild n ∷ qs) = parts_apart ps qs
parts_apart (wild n ∷ ps) (q ∷ qs) = parts_apart ps qs

if_some :
    {A : Type 0} (b : Bool) (r : Option A) {a : A}
    → (if b then r else none) ≡ some a
    → (b ≡ true) × (r ≡ some a)
if_some true r h = (refl, h)
if_some false r h = absurd (cc)

bind-some :
    (n s : String) (r : Option Values) {vs : Values}
    → bind n s r ≡ some vs
    → (ws : Values) × (r ≡ some ws)
unfolding bind
bind-some n s none h = absurd (cc)
bind-some n s (some ws) h = (ws, refl)

wild_some :
    (n s : String) (r : Option Values) {vs : Values}
    → (if is_nil s then none else bind n s r) ≡ some vs
    → (ws : Values) × (r ≡ some ws)
wild_some n String.[] r h = absurd (cc)
wild_some n (String.◌∷◌ c s) r h = bind-some n (String.◌∷◌ c s) r h

-- What is left of a match behind its first segment.
rest_matches :
    (p : Part) (ps : List Part) (s : String) (ss : List String) {vs : Values}
    → match_parts (p ∷ ps) false (s ∷ ss) ≡ some vs
    → (ws : Values) × (match_parts ps false ss ≡ some ws)
unfolding match_parts
rest_matches (at t) ps s ss {vs} h = (vs, (if_some (t == s) (match_parts ps false ss) h).1)
rest_matches (wild n) ps s ss h = wild_some n s (match_parts ps false ss) h

head_matches :
    (t : String) (ps : List Part) (s : String) (ss : List String) {vs : Values}
    → match_parts (at t ∷ ps) false (s ∷ ss) ≡ some vs
    → t ≡ s
unfolding match_parts
head_matches t ps s ss h = (eq_iff t s).0 (if_some (t == s) (match_parts ps false ss) h).0

clash :
    (ps qs : List Part) (ss : List String) {vs ws : Values}
    → parts_apart ps qs ≡ true
    → match_parts ps false ss ≡ some vs
    → match_parts qs false ss ≡ some ws
    → ⊥
unfolding parts_apart match_parts
clash [] [] ss a h g = absurd (cc)
clash [] (q ∷ qs) [] a h g = absurd (cc)
clash [] (q ∷ qs) (s ∷ ss) a h g = absurd (cc)
clash (p ∷ ps) [] [] a h g = absurd (cc)
clash (p ∷ ps) [] (s ∷ ss) a h g = absurd (cc)
clash (p ∷ ps) (q ∷ qs) [] a h g = absurd (cc)
clash (at t ∷ ps) (at u ∷ qs) (s ∷ ss) a h g =
    let same : (t == u) ≡ true =
      (eq_iff t u).1 (head_matches t ps s ss h ∙ sym (head_matches u qs s ss g)) in
    clash ps qs ss (rw same at a) (rest_matches (at t) ps s ss h).1
      (rest_matches (at u) qs s ss g).1
clash (at t ∷ ps) (wild n ∷ qs) (s ∷ ss) a h g =
    clash ps qs ss a (rest_matches (at t) ps s ss h).1 (rest_matches (wild n) qs s ss g).1
clash (wild n ∷ ps) (q ∷ qs) (s ∷ ss) a h g =
    clash ps qs ss a (rest_matches (wild n) ps s ss h).1 (rest_matches q qs s ss g).1

-- No method is taken by both: none of them is HEAD, which one for GET also takes.
methods_apart : String → String → Bool
methods_apart p q = not (p == q) && (not (p == "HEAD") && not (q == "HEAD"))

-- No request is served by both.
unfoldable pub apart : Pattern → Pattern → Bool
unfolding methods_apart parts_apart
apart p q =
    methods_apart p.method q.method
    || (not p.subtree && (not q.subtree && parts_apart p.parts q.parts))

pub or_cases : (a b : Bool) → (a || b) ≡ true → (a ≡ true) ⊎ (b ≡ true)
or_cases true b h = inl refl
or_cases false b h = inr h

differ : {s t : String} → not (s == t) ≡ true → s ≡ t → ⊥
differ {s} {t} h e = let same = (eq_iff s t).1 e in absurd (cc (sym h ∙ ap not same))

takes_cases : (p m : String) → takes p m ≡ true → (p ≡ m) ⊎ ((p ≡ "GET") × (m ≡ "HEAD"))
unfolding takes
takes_cases p m h = elim (or_cases (p == m) ((p == "GET") && (m == "HEAD")) h) [
  | inl same ↦ inl ((eq_iff p m).0 same)
  | inr head ↦
      let (get, is_head) = and_true (p == "GET") (m == "HEAD") head in
      inr ((eq_iff p "GET").0 get, (eq_iff m "HEAD").0 is_head)
]

methods_clash :
    (p q m : String) → methods_apart p q ≡ true → takes p m ≡ true → takes q m ≡ true → ⊥
unfolding methods_apart
methods_clash p q m a h g =
    let (other, heads) = and_true (not (p == q)) (not (p == "HEAD") && not (q == "HEAD")) a in
    let (p_head, q_head) = and_true (not (p == "HEAD")) (not (q == "HEAD")) heads in
    elim (takes_cases p m h) [
      | inl p_m ↦ elim (takes_cases q m g) [
        | inl q_m ↦ differ other (p_m ∙ sym q_m)
        | inr head ↦ differ p_head (p_m ∙ head.1)
      ]
      | inr head ↦ elim (takes_cases q m g) [
        | inl q_m ↦ differ q_head (q_m ∙ head.1)
        | inr get ↦ differ other (head.0 ∙ sym get.0)
      ]
    ]

abbrev pub Served : String → List String → Pattern → Type 0
Served method path p = (vs : Values) × (serves method path p ≡ some vs)

pub apart-Served :
    (p q : Pattern) (method : String) (path : List String)
    → apart p q ≡ true
    → Served method path p
    → Served method path q
    → ⊥
unfolding apart serves
apart-Served p q method path a (vs, h) (ws, g) =
    let (p_takes, p_match) =
      if_some (takes p.method method) (match_parts p.parts p.subtree path) h in
    let (q_takes, q_match) =
      if_some (takes q.method method) (match_parts q.parts q.subtree path) g in
    elim (or_cases (methods_apart p.method q.method)
      (not p.subtree && (not q.subtree && parts_apart p.parts q.parts)) a) [
        | inl methods ↦ methods_clash p.method q.method method methods p_takes q_takes
        | inr paths ↦
            let (p_leaf, others) =
              and_true (not p.subtree) (not q.subtree && parts_apart p.parts q.parts) paths in
            let (q_leaf, parts) = and_true (not q.subtree) (parts_apart p.parts q.parts) others in
            clash p.parts q.parts path parts
              (subst (λ b. match_parts p.parts b path ≡ some vs) (leaf p.subtree p_leaf) p_match)
              (subst (λ b. match_parts q.parts b path ≡ some ws) (leaf q.subtree q_leaf) q_match)
      ]
  where
    leaf : (b : Bool) → not b ≡ true → b ≡ false
    leaf true h = sym h
    leaf false h = refl
