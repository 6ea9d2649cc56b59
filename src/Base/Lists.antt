-- ===== src/Base/Lists.antt =====
-- Lists measured and indexed by native numbers, and association lists for Go maps.
use Prim.Native.Nat.{ℕ, zero, suc, ◌+◌}
use Prim.Native.String.{String}
use mathlib.Core.Path.{◌≡◌, subst, refl, sym, ap, ◌∙◌}
use mathlib.Core.List.{append_assoc, append-nil}
use mathlib.Core.Logic.{inl, inr}
use mathlib.Core.Bool.{Bool, true, false, ◌&&◌, ◌||◌}
use mathlib.Core.List.{List, [], ◌∷◌, ◌++◌}
use mathlib.Core.Option.{Option, none, some}
use native.Mathlib.Omega.{arith}
use text.Mathlib.Text.{◌==◌}
use mobility_api.Base.Tests.{if◌then◌else◌, Bool-cases}

module _ {ℓ} {A : Type ℓ} where
  abbrev pub length : List A → ℕ
  length [] = 0
  length (x ∷ xs) = suc (length xs)

  abbrev pub get_elem? : List A → ℕ → Option A
  get_elem? [] i = none
  get_elem? (x ∷ xs) zero = some x
  get_elem? (x ∷ xs) (suc i) = get_elem? xs i

  abbrev pub is_empty : List A → Bool
  is_empty [] = true
  is_empty (x ∷ xs) = false

  abbrev pub any : (A → Bool) → List A → Bool
  any p [] = false
  any p (x ∷ xs) = p x || any p xs

  abbrev pub all : (A → Bool) → List A → Bool
  all p [] = true
  all p (x ∷ xs) = p x && all p xs

  pub length-append : (xs ys : List A) → length (xs ++ ys) ≡ length xs + length ys
  length-append [] ys = omega arith
  length-append (x ∷ xs) ys = omega (arith, length-append xs ys)

-- The members of the lists, in order.
module _ {ℓ} {A : Type ℓ} where
  abbrev pub concat : List (List A) → List A
  concat [] = []
  concat (g ∷ gs) = g ++ concat gs

  concat-append : (gs hs : List (List A)) → concat (gs ++ hs) ≡ concat gs ++ concat hs
  concat-append [] hs = refl
  concat-append (g ∷ gs) hs =
      rw (concat-append gs hs) (sym (append_assoc g (concat gs) (concat hs)))

  pub concat-snoc : (gs : List (List A)) (g : List A) → concat (gs ++ (g ∷ [])) ≡ concat gs ++ g
  concat-snoc gs g = concat-append gs (g ∷ []) ∙ ap (λ h. concat gs ++ h) (append-nil g)

abbrev pub All {ℓ κ} : {A : Type ℓ} → (A → Type κ) → List A → Type κ
All P [] = Unit
All P (x ∷ xs) = P x × All P xs

pub All-append {ℓ κ} :
    {A : Type ℓ} (P : A → Type κ) (xs ys : List A) → All P xs → All P ys → All P (xs ++ ys)
All-append P [] ys hx hy = hy
All-append P (x ∷ xs) ys hx hy = (hx.0, All-append P xs ys hx.1 hy)

-- A read of a Go map: the first entry with the key.
abbrev pub lookup {ℓ} : {V : Type ℓ} → String → List (String × V) → Option V
lookup k [] = none
lookup k ((j, v) ∷ m) = if j == k then some v else lookup k m

abbrev pub is_some {ℓ} : {A : Type ℓ} → Option A → Bool
is_some none = false
is_some (some a) = true

-- What holds of every entry holds of what a read finds.
pub All-lookup {ℓ κ} :
    {V : Type ℓ} (P : V → Type κ) (k : String) (m : List (String × V)) {v : V}
    → All (λ e. P e.1) m
    → lookup k m ≡ some v
    → P v
All-lookup P k [] h e = absurd (cc)
All-lookup P k ((j, w) ∷ m) {v} h e = elim (Bool-cases (j == k)) [
  | inl same ↦ let found : w ≡ v = ground arith in subst P found h.0
  | inr other ↦ All-lookup P k m h.1 (rw other at e)
]
