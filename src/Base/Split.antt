-- ===== src/Base/Split.antt =====
-- strings.Split against the texts that it cuts apart, and tests on the characters of a text.
use Prim.Native.Char.{code}
use Prim.Native.String.{◌++◌}
use text.Mathlib.TextLemmas.{nil-append, cons-append}
use mobility_api.Base.{ℕ, String, ◌≡◌, refl, Bool, true, false, not, ◌&&◌, List, ◌∷◌, eqb, arith}
use mobility_api.Base.Text.{split, all_codes}

pub and_true : (a b : Bool) → (a && b) ≡ true → (a ≡ true) × (b ≡ true)
and_true true true h = (refl, refl)
and_true true false h = absurd (cc)
and_true false b h = absurd (cc)

pub all_codes_weaken :
    (p q : ℕ → Bool)
    → ((c : ℕ) → p c ≡ true → q c ≡ true)
    → (s : String) → all_codes p s ≡ true
    → all_codes q s ≡ true
all_codes_weaken p q f String.[] h = refl
all_codes_weaken p q f (String.◌∷◌ c s) h =
    let (first, rest) = and_true (p (code c)) (all_codes p s) h in
    rw (f (code c) first, all_codes_weaken p q f s rest) refl

-- The separator does not occur.
abbrev pub lacks : ℕ → String → Bool
lacks d = all_codes (λ c. not (eqb c d))

not_there : (c d : ℕ) → not (eqb c d) ≡ true → eqb c d ≡ false
not_there c d h = ground arith

-- A text without the separator is the first part, where the rest begins with a separator.
pub split-append :
    (d : ℕ) (s rest : String) (parts : List String)
    → lacks d s ≡ true
    → split d rest ≡ "" ∷ parts
    → split d (s ++ rest) ≡ s ∷ parts
unfolding split
split-append d String.[] rest parts h e = rw (nil-append rest) e
split-append d (String.◌∷◌ c s) rest parts h e =
    let (first, later) = and_true (not (eqb (code c) d)) (lacks d s) h in
    rw (cons-append c s rest, not_there (code c) d first, split-append d s rest parts later e) refl
