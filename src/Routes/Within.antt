-- ===== src/Routes/Within.antt =====
-- The patterns whose paths are among those of another.
use mobility_api.Base.{◌≡◌, refl, ◌∙◌, Bool, true, false, List, [], ◌∷◌, eq_iff}
use mobility_api.Base.Split.{and_true}
use mobility_api.Routes.{Part, at, wild, Pattern, part_within, parts_within, is_within}

part_within_refl : (p : Part) → part_within p p ≡ true
unfolding part_within
part_within_refl (at t) = (eq_iff t t).1 refl
part_within_refl (wild n) = refl

parts_within_refl : (ps : List Part) (sub : Bool) → parts_within ps sub ps sub ≡ true
unfolding parts_within
parts_within_refl [] true = refl
parts_within_refl [] false = refl
parts_within_refl (p ∷ ps) sub = rw (part_within_refl p) (parts_within_refl ps sub)

part_within_trans :
    (p q r : Part) → part_within p q ≡ true → part_within q r ≡ true → part_within p r ≡ true
unfolding part_within
part_within_trans (at t) (at u) (at v) h g = (eq_iff t v).1 ((eq_iff t u).0 h ∙ (eq_iff u v).0 g)
part_within_trans (at t) q (wild n) h g = refl
part_within_trans (at t) (wild m) (at v) h g = absurd (cc)
part_within_trans (wild m) (at u) r h g = absurd (cc)
part_within_trans (wild m) (wild n) (at v) h g = absurd (cc)
part_within_trans (wild m) (wild n) (wild k) h g = refl

parts_within_trans :
    (ps : List Part) (s : Bool) (qs : List Part) (t : Bool) (rs : List Part) (u : Bool)
    → parts_within ps s qs t ≡ true
    → parts_within qs t rs u ≡ true
    → parts_within ps s rs u ≡ true
unfolding parts_within
parts_within_trans ps s qs t [] true h g = refl
parts_within_trans ps s [] false [] false h g = h
parts_within_trans ps s [] true [] false h g = absurd (cc)
parts_within_trans ps s (q ∷ qs) t [] false h g = absurd (cc)
parts_within_trans ps s [] t (r ∷ rs) u h g = absurd (cc)
parts_within_trans [] s (q ∷ qs) t (r ∷ rs) u h g = absurd (cc)
parts_within_trans (p ∷ ps) s (q ∷ qs) t (r ∷ rs) u h g =
    let (first_h, rest_h) = and_true (part_within p q) (parts_within ps s qs t) h in
    let (first_g, rest_g) = and_true (part_within q r) (parts_within qs t rs u) g in
    rw (part_within_trans p q r first_h first_g) (parts_within_trans ps s qs t rs u rest_h rest_g)

pub is_within_refl : (p : Pattern) → is_within p p ≡ true
unfolding is_within
is_within_refl p = parts_within_refl p.parts p.subtree

pub is_within_trans :
    (p q r : Pattern) → is_within p q ≡ true → is_within q r ≡ true → is_within p r ≡ true
unfolding is_within
is_within_trans p q r h g =
    parts_within_trans p.parts p.subtree q.parts q.subtree r.parts r.subtree h g
