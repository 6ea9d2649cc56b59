-- ===== src/Base/Maps.antt =====
-- Writes of a Go map, as an association list without a key twice.
use mathlib.Core.Path.{◌≡◌, refl, sym, ap, subst}
use mathlib.Core.Logic.{inl, inr}
use mathlib.Core.Bool.{false}
use mathlib.Core.Option.{Option, none, some}
use mathlib.Core.List.{List, [], ◌∷◌}
use Prim.Native.String.{String}
use text.Mathlib.Text.{◌==◌}
use text.Mathlib.TextEquality.{eq_iff}
use mobility_api.Base.Tests.{if◌then◌else◌, Bool-cases}
use mobility_api.Base.Lists.{lookup}

module _ {V : Type 0} where
  -- m[k] = f(m[k]), where the missing entry is `none`.
  unfoldable pub update : String → (Option V → V) → List (String × V) → List (String × V)
  update k f [] = (k, f none) ∷ []
  update k f ((j, v) ∷ rest) =
      let later = update k f rest in if j == k then (j, f (some v)) ∷ rest else (j, v) ∷ later

module _ {V : Type 0} (k : String) (f : Option V → V) where
  pub lookup-update : (m : List (String × V)) → lookup k (update k f m) ≡ some (f (lookup k m))
  unfolding update
  lookup-update [] = rw (eq_iff k k).1 refl
  lookup-update ((j, v) ∷ m) = elim (Bool-cases (j == k)) [
    | inl same ↦ rw same (rw same refl)
    | inr other ↦ rw other (rw other (lookup-update m))
  ]

  pub lookup-update_other :
      (name : String) (m : List (String × V))
      → (k == name) ≡ false
      → lookup name (update k f m) ≡ lookup name m
  unfolding update
  lookup-update_other name [] h = rw h refl
  lookup-update_other name ((j, v) ∷ m) h = elim (Bool-cases (j == k)) [
    | inl same ↦
        let d : (j == name) ≡ false =
          subst (λ z. (z == name) ≡ false) (sym ((eq_iff j k).0 same)) h in
        rw (same, d) refl
    | inr other ↦
        rw other (ap (λ z. if j == name then some v else z) (lookup-update_other name m h))
  ]
