-- ===== src/Catalog/Index.antt =====
-- catalog_gen.go: the two indexes by name, which are built over the tables when the program starts.
use mathlib.Core.Path.{subst}
use mathlib.Core.List.{append-nil, append_assoc}
use mobility_api.Base.{
  ◌≡◌, ap, sym, ◌∙◌, String, List, [], ◌∷◌, ◌++◌, Option, none, some, lookup, ◌==◌, if◌then◌else◌,
  Bool-cases, inl, inr, eq_iff,
}
use mobility_api.Base.Maps.{update, lookup-update, lookup-update_other}
use mobility_api.Catalog.{TemporalType, temporal_types, MathOp, math_ops}

-- temporalTypeByName: a later entry of a name replaces an earlier one.
unfoldable types_from :
    List TemporalType → List (String × TemporalType) → List (String × TemporalType)
unfolding update
types_from [] m = m
types_from (t ∷ ts) m = types_from ts (update t.name (λ old. t) m)

unfoldable temporal_type_by_name : String → Option TemporalType
unfolding types_from
temporal_type_by_name name = lookup name (types_from temporal_types [])

or_none : Option (List MathOp) → List MathOp
or_none none = []
or_none (some ops) = ops

-- mathOpBySQLName: an entry is appended to those of its name.
unfoldable ops_from : List MathOp → List (String × List MathOp) → List (String × List MathOp)
unfolding update or_none
ops_from [] m = m
ops_from (op ∷ ops) m = ops_from ops (update op.sql_name (λ old. or_none old ++ (op ∷ [])) m)

unfoldable pub math_op_by_sql_name : String → List MathOp
unfolding ops_from or_none
math_op_by_sql_name name = or_none (lookup name (ops_from math_ops []))

-- The operations that carry a name, in order.
unfoldable pub named : String → List MathOp → List MathOp
named name [] = []
named name (op ∷ ops) = let rest = named name ops in if op.sql_name == name then op ∷ rest else rest

ops_from-named :
    (name : String) (ops : List MathOp) (m : List (String × List MathOp))
    → or_none (lookup name (ops_from ops m)) ≡ or_none (lookup name m) ++ named name ops
unfolding ops_from named or_none
ops_from-named name [] m = sym (append-nil (or_none (lookup name m)))
ops_from-named name (op ∷ ops) m = elim (Bool-cases (op.sql_name == name)) [
  | inl same ↦
      let f = λ (old : Option (List MathOp)). or_none old ++ (op ∷ []) in
      let found =
        subst (λ n. lookup n (update op.sql_name f m) ≡ some (f (lookup n m)))
          ((eq_iff op.sql_name name).0 same) (lookup-update op.sql_name f m) in
      rw same (
        ops_from-named name ops (update op.sql_name f m)
        ∙ ap (λ z. or_none z ++ named name ops) found
        ∙ append_assoc (or_none (lookup name m)) (op ∷ []) (named name ops))
  | inr other ↦ rw other (
      ops_from-named name ops (update op.sql_name (λ old. or_none old ++ (op ∷ [])) m)
      ∙ ap (λ z. or_none z ++ named name ops)
          (lookup-update_other op.sql_name (λ old. or_none old ++ (op ∷ [])) name m other))
]

-- The index by the SQL name gives the operations of the table that carry the name, each once and in the
-- order of the table, and none for a name that no operation carries.
math_op_by_sql_name-named : (name : String) → math_op_by_sql_name name ≡ named name math_ops
unfolding math_op_by_sql_name or_none
math_op_by_sql_name-named name = ops_from-named name math_ops []
