-- ===== src/Stream/Issued.antt =====
-- stream.go: the identifiers that the registry gives out.
use Prim.Native.String.{◌++◌}
use text.Mathlib.TextLemmas.{tail-eq_of_cons-eq, cons-append, nil-append}
use mobility_api.Base.{
  ℕ, suc, String, ◌≡◌, ◌≤◌, refl, sym, ap, ◌∙◌, List, [], ◌∷◌, Option, none, some, lookup, All,
  ◌==◌, arith, Bool-cases, ◌≢◌, true, false, inl, inr, eq_iff,
}
use mobility_api.Base.Int.{format_nat}
use mobility_api.Base.Decimal.{format_nat-injective}
use mobility_api.Stream.{QuerySpec}
use mobility_api.Stream.Registry.{Query, Registry, register, remove, get, delete_key}

-- The registries of a process: at first an empty one, then by any order of the two operations.
pub data Reached : Registry → Type 0 where
  start : Reached (record { next_id = 0; queries = [] })
  registered :
      {r : Registry} (spec : QuerySpec) (handle : Option String) (channel : Option (String × ℕ))
      → Reached r
      → Reached (register spec handle channel r).1
  removed : {r : Registry} (id : String) → Reached r → Reached (remove id r)

-- The identifier was given out as one of the first `bound`.
IsIssued : ℕ → String → Type 0
IsIssued bound id = (n : ℕ) × (n ≤ bound) × (id ≡ "q" ++ format_nat n)

IsIssued-later :
    (bound : ℕ) (m : List (String × Query))
    → All (λ e. IsIssued bound e.0) m
    → All (λ e. IsIssued (suc bound) e.0) m
unfolding IsIssued
IsIssued-later bound [] h = tt
IsIssued-later bound (e ∷ m) ((n, l, k), h) = ((n, omega (arith, l), k), IsIssued-later bound m h)

IsIssued-delete_key :
    (bound : ℕ) (id : String) (m : List (String × Query))
    → All (λ e. IsIssued bound e.0) m
    → All (λ e. IsIssued bound e.0) (delete_key id m)
unfolding delete_key
IsIssued-delete_key bound id [] h = tt
IsIssued-delete_key bound id ((j, q) ∷ m) h = elim (Bool-cases (j == id)) [
  | inl same ↦ rw same (IsIssued-delete_key bound id m h.1)
  | inr other ↦ rw other (h.0, IsIssued-delete_key bound id m h.1)
]

Reached-All : {r : Registry} → Reached r → All (λ e. IsIssued r.next_id e.0) r.queries
unfolding register remove IsIssued
Reached-All start = tt
Reached-All (registered {r} spec handle channel p) =
    ((suc r.next_id, omega arith, refl), IsIssued-later r.next_id r.queries (Reached-All p))
Reached-All (removed {r} id p) = IsIssued-delete_key r.next_id id r.queries (Reached-All p)

q-cons : (s : String) → "q" ++ s ≡ String.◌∷◌ "q" s
q-cons s = cons-append "q" "" s ∙ ap (String.◌∷◌ "q") (nil-append s)

q-injective : (m n : ℕ) → "q" ++ format_nat m ≡ "q" ++ format_nat n → m ≡ n
q-injective m n h =
    format_nat-injective m n
      (tail-eq_of_cons-eq (sym (q-cons (format_nat m)) ∙ h ∙ q-cons (format_nat n)))

lookup-issued :
    (bound : ℕ) (m : List (String × Query))
    → All (λ e. IsIssued bound e.0) m
    → lookup ("q" ++ format_nat (suc bound)) m ≡ none
unfolding IsIssued
lookup-issued bound [] h = refl
lookup-issued bound ((j, q) ∷ m) ((n, l, k), h) =
    elim (Bool-cases (j == "q" ++ format_nat (suc bound))) [
      | inl same ↦
          let e : j ≡ "q" ++ format_nat (suc bound) =
            (eq_iff j ("q" ++ format_nat (suc bound))).0 same in
          let again : n ≡ suc bound = q-injective n (suc bound) (sym k ∙ e) in
          absurd (omega (arith, l, again))
      | inr other ↦ rw other (lookup-issued bound m h)
    ]

eq_refl : (s : String) → (s == s) ≡ true
eq_refl s = (eq_iff s s).1 refl

eq_other : (s t : String) → s ≢ t → (s == t) ≡ false
eq_other s t h = elim (Bool-cases (s == t)) [
  | inl same ↦ absurd (h ((eq_iff s t).0 same))
  | inr other ↦ other
]

-- A query finds none under its identifier when it is registered, whatever was registered and
-- removed before; it is found under it from then on, and each other query as before.
pub Reached-register_fresh :
    {r : Registry}
    → Reached r
    → (spec : QuerySpec) (handle : Option String) (channel : Option (String × ℕ))
    → (get (register spec handle channel r).0.id r ≡ none)
      × (get (register spec handle channel r).0.id (register spec handle channel r).1
          ≡ some (register spec handle channel r).0)
      × ((id : String)
          → id ≢ (register spec handle channel r).0.id
          → get id (register spec handle channel r).1 ≡ get id r)
unfolding register
Reached-register_fresh {r} p spec handle channel = (
  lookup-issued r.next_id r.queries (Reached-All p),
  rw (eq_refl ("q" ++ format_nat (suc r.next_id))) refl,
  λ id other. rw (eq_other ("q" ++ format_nat (suc r.next_id)) id (λ e. other (sym e))) refl,
)
