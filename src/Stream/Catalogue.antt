-- ===== src/Stream/Catalogue.antt =====
-- The lifted operations against the index of the operations that MEOS states.
use mathlib.Core.Path.{subst}
use native.Mathlib.Omega.{arith}
use mobility_api.Base.{
  String, Bool, true, false, ◌≡◌, refl, sym, ◌&&◌, List, [], ◌∷◌, some, all, lookup, ◌==◌,
  Bool-cases, inl, inr,
}
use mobility_api.Catalog.{MathOp}
use mobility_api.Catalog.Index.{math_op_by_sql_name}
use mobility_api.Stream.{OpInfo, lifted_ops}

-- One operation carries the name, with an operand that is given by the query exactly where it is a double.
unfoldable pub IsStated : OpInfo → List MathOp → Type 0
IsStated info ops = (op : MathOp) × (ops ≡ op ∷ []) × (info.needs_arg ≡ (op.arg == "double"))

same_bool : Bool → Bool → Bool
same_bool true b = b
same_bool false true = false
same_bool false false = true

same_bool_lem : (a b : Bool) → same_bool a b ≡ true → a ≡ b
unfolding same_bool
same_bool_lem true true h = refl
same_bool_lem true false h = sym h
same_bool_lem false false h = refl
same_bool_lem false true h = h

states_one : OpInfo → List MathOp → Bool
unfolding same_bool
states_one info [] = false
states_one info (op ∷ []) = same_bool info.needs_arg (op.arg == "double")
states_one info (op ∷ p ∷ ops) = false

states_one-IsStated :
    (info : OpInfo) (ops : List MathOp) → states_one info ops ≡ true → IsStated info ops
unfolding states_one IsStated
states_one-IsStated info [] h = absurd (cc)
states_one-IsStated info (op ∷ []) h =
    (op, refl, same_bool_lem info.needs_arg (op.arg == "double") h)
states_one-IsStated info (op ∷ p ∷ ops) h = absurd (cc)

and_both : (a b : Bool) → (a && b) ≡ true → (a ≡ true) × (b ≡ true)
and_both true b h = (refl, h)
and_both false b h = absurd (cc)

all-lookup :
    {V : Type 0} (p : V → Bool) (k : String) (m : List (String × V)) {v : V}
    → all (λ e. p e.1) m ≡ true
    → lookup k m ≡ some v
    → p v ≡ true
all-lookup p k [] h e = absurd (cc)
all-lookup p k ((j, w) ∷ m) {v} h e = elim (Bool-cases (j == k)) [
  | inl same ↦
      let found : w ≡ v = ground arith in
      subst (λ z. p z ≡ true) found (and_both (p w) (all (λ e. p e.1) m) h).0
  | inr other ↦ all-lookup p k m (and_both (p w) (all (λ e. p e.1) m) h).1 (rw other at e)
]

-- A transform that the engines lift names exactly one operation of the catalog, and its query gives an
-- operand exactly where that operation takes a double.
pub lifted_ops-IsStated :
    (name : String) (info : OpInfo)
    → lookup name lifted_ops ≡ some info
    → IsStated info (math_op_by_sql_name info.sql_name)
unfolding lifted_ops math_op_by_sql_name states_one
lifted_ops-IsStated name info h =
    states_one-IsStated info (math_op_by_sql_name info.sql_name)
      (all-lookup (λ i. states_one i (math_op_by_sql_name i.sql_name)) name lifted_ops refl h)
