-- ===== src/Codegen/Selected.antt =====
-- What the generator selects from the catalog, and its order.
use mobility_api.Base.{
  String, ◌≡◌, refl, sym, ap, ◌∙◌, Bool, true, false, ◌||◌, List, [], ◌∷◌, map, Option, none, some,
  All, ◌==◌, eq_iff, Bool-cases, inl, inr, arith,
}
use mathlib.Core.Path.{subst}
use mathlib.Core.List.{Perm}
use mathlib.Core.List.Perm
use mobility_api.Base.Text.{is_nil, cut, contains}
use mobility_api.Http.{Result, ok, err, ok_injective, err_ne_ok}
use mobility_api.Stream.{text_le}
use mobility_api.Codegen.{
  Param, Function, MathOperation, math_groups, math_prefixes, first_token, ends_with, is_temporal,
  one_of, has_few, takes_number, is_selected, is_known, arg_conversions, operation, with_arg,
  in_front, selected, op_le, insert, sort, sorted_ops, math_operations,
}

text_le_total : (a b : String) → text_le a b ≡ false → text_le b a ≡ true
unfolding text_le
text_le_total String.[] b h = absurd (cc)
text_le_total (String.◌∷◌ c a) String.[] h = refl
text_le_total (String.◌∷◌ c a) (String.◌∷◌ d b) h = ground (arith, text_le_total a b)

eq_sym : (s t : String) (v : Bool) → (s == t) ≡ v → (t == s) ≡ v
eq_sym s t true h = (eq_iff t s).1 (sym ((eq_iff s t).0 h))
eq_sym s t false h = elim (Bool-cases (t == s)) [
  | inl same ↦ let k = (eq_iff s t).1 (sym ((eq_iff t s).0 same)) in absurd (cc)
  | inr other ↦ other
]

op_le_total : (a b : MathOperation) → op_le a b ≡ false → op_le b a ≡ true
unfolding op_le
op_le_total a b h = elim (Bool-cases (a.sql_name == b.sql_name)) [
  | inl same ↦
      rw (eq_sym a.sql_name b.sql_name true same) (text_le_total a.symbol b.symbol (rw same at h))
  | inr other ↦
      rw (eq_sym a.sql_name b.sql_name false other)
        (text_le_total a.sql_name b.sql_name (rw other at h))
]

module _ {A : Type 0} (le : A → A → Bool) where
  -- Each entry is not after the next one.
  unfoldable pub IsSorted : List A → Type 0
  IsSorted [] = Unit
  IsSorted (a ∷ []) = Unit
  IsSorted (a ∷ b ∷ bs) = (le a b ≡ true) × IsSorted (b ∷ bs)

  module _ (total : (a b : A) → le a b ≡ false → le b a ≡ true) where
    insert-IsSorted : (a : A) (bs : List A) → IsSorted bs → IsSorted (insert le a bs)
    unfolding insert IsSorted
    insert-IsSorted a [] h = tt
    insert-IsSorted a (b ∷ []) h = elim (Bool-cases (le a b)) [
      | inl before ↦ rw before (before, tt)
      | inr after ↦ rw after (total a b after, tt)
    ]
    insert-IsSorted a (b ∷ c ∷ cs) h = elim (Bool-cases (le a b)) [
      | inl before ↦ rw before (before, h)
      | inr after ↦ rw after (elim (Bool-cases (le a c)) [
        | inl first ↦ rw first (total a b after, (first, h.1))
        | inr later ↦ rw later (h.0, rw later at (insert-IsSorted a (c ∷ cs) h.1))
      ])
    ]

    sort-IsSorted : (bs : List A) → IsSorted (sort le bs)
    unfolding sort IsSorted
    sort-IsSorted [] = tt
    sort-IsSorted (a ∷ bs) = insert-IsSorted a (sort le bs) (sort-IsSorted bs)

  module _ (P : A → Type 0) where
    insert-All : (a : A) (bs : List A) → P a → All P bs → All P (insert le a bs)
    unfolding insert
    insert-All a [] p h = (p, tt)
    insert-All a (b ∷ bs) p h = elim (Bool-cases (le a b)) [
      | inl before ↦ rw before (p, h)
      | inr after ↦ rw after (h.0, insert-All a bs p h.1)
    ]

    sort-All : (bs : List A) → All P bs → All P (sort le bs)
    unfolding sort
    sort-All [] h = tt
    sort-All (a ∷ bs) h = insert-All a (sort le bs) h.0 (sort-All bs h.1)

  insert-Perm : (a : A) (bs : List A) → Perm (a ∷ bs) (insert le a bs)
  unfolding insert
  insert-Perm a [] = Perm.refl (a ∷ [])
  insert-Perm a (b ∷ bs) = elim (Bool-cases (le a b)) [
    | inl before ↦ rw before (Perm.refl (a ∷ b ∷ bs))
    | inr after ↦ rw after (Perm.trans (Perm.swap b a bs) (Perm.cons _ (insert-Perm a bs)))
  ]

  sort-Perm : (bs : List A) → Perm bs (sort le bs)
  unfolding sort
  sort-Perm [] = Perm.refl []
  sort-Perm (a ∷ bs) = Perm.trans (Perm.cons _ (sort-Perm bs)) (insert-Perm a (sort le bs))

-- The first parameter is a temporal value, and the others are none or one that is not.
unfoldable pub TakesNumber : List Param → Type 0
TakesNumber [] = ⊥
TakesNumber (n ∷ []) = contains n.ctype "Temporal *" ≡ true
TakesNumber (n ∷ p ∷ []) =
    (contains n.ctype "Temporal *" ≡ true) × (contains p.ctype "Temporal *" ≡ false)
TakesNumber (n ∷ p ∷ q ∷ ps) = ⊥

-- The class that a name begins with.
unfoldable pub class_of : String → String
class_of name = elim (cut b'_' name) [ none ↦ name | some parts ↦ parts.0 ]

-- A value transformation of a temporal number, of those that the comment on mathOperations describes: of one
-- of the two groups, in the category, with an SQL name, that takes and gives a temporal value, of a class
-- that admits a float, or an arithmetic form.
pub record IsMath (f : Function) : Type 0 where
  pub grouped : (("meos_temporal_math" == f.group) || ("meos_temporal_transf" == f.group)) ≡ true
  pub categorised : (f.category == "transformation") ≡ true
  pub named : is_nil f.sql_name ≡ false
  pub returning : contains f.returns "Temporal *" ≡ true
  pub taking : TakesNumber f.params
  pub classed :
      (("tfloat" == class_of f.name)
        || (("tnumber" == class_of f.name)
            || (("temporal" == class_of f.name) || ends_with f.name "_tfloat_float")))
      ≡ true

takes_number-TakesNumber : (ps : List Param) → takes_number ps ≡ true → TakesNumber ps
unfolding takes_number has_few is_temporal TakesNumber
takes_number-TakesNumber [] h = absurd (cc)
takes_number-TakesNumber (n ∷ []) h = ground arith
takes_number-TakesNumber (n ∷ p ∷ []) h = ground arith
takes_number-TakesNumber (n ∷ p ∷ q ∷ ps) h = absurd (ground arith)

takes_number_of : (ps : List Param) → TakesNumber ps → takes_number ps ≡ true
unfolding takes_number has_few is_temporal TakesNumber
takes_number_of [] h = absurd h
takes_number_of (n ∷ []) h = ground arith
takes_number_of (n ∷ p ∷ []) h = ground arith
takes_number_of (n ∷ p ∷ q ∷ ps) h = absurd h

first_token-class_of : (name : String) → first_token name (cut b'_' name) ≡ class_of name
unfolding first_token class_of
first_token-class_of name = by_cut (cut b'_' name)
  where
    by_cut :
        (o : Option (String × String))
        → first_token name o ≡ elim o [ none ↦ name | some parts ↦ parts.0 ]
    by_cut none = refl
    by_cut (some parts) = refl

is_selected-IsMath : (f : Function) → is_selected f ≡ true → IsMath f
unfolding is_selected one_of math_groups math_prefixes is_temporal
is_selected-IsMath f h =
    let k = rw (first_token-class_of f.name) at h in
    record {
      grouped = ground arith;
      categorised = ground arith;
      named = ground arith;
      returning = ground arith;
      taking = takes_number-TakesNumber f.params (ground arith);
      classed = ground arith;
    }

is_selected_of : (f : Function) → IsMath f → is_selected f ≡ true
unfolding is_selected one_of math_groups math_prefixes is_temporal
is_selected_of f m =
    let g = m.grouped in
    let c = m.categorised in
    let n = m.named in
    let r = m.returning in
    let t = takes_number_of f.params m.taking in
    let l = m.classed in rw (first_token-class_of f.name) (ground arith)

-- The functions of a catalog that are such transformations, in its order.
pub data Chosen : List Function → List Function → Type 0 where
  none_left : Chosen [] []
  taken :
      (f : Function) {fs gs : List Function} → IsMath f → Chosen fs gs → Chosen (f ∷ fs) (f ∷ gs)
  left_out : (f : Function) {fs gs : List Function} → ¬ IsMath f → Chosen fs gs → Chosen (f ∷ fs) gs

-- The argument of a function is its second parameter, if it has one.
argument_of : List Param → String × String
argument_of (n ∷ p ∷ ps) = (p.ctype, p.canonical)
argument_of _ = ("", "")

unfoldable pub operation_of : Function → MathOperation
unfolding argument_of
operation_of f = record {
  sql_name = f.sql_name;
  symbol = f.name;
  arg = (argument_of f.params).0;
  arg_canonical = (argument_of f.params).1;
}

-- The operation of the function, whose argument is one that the generator knows.
IsOperation : Function → MathOperation → Type 0
IsOperation f op = (operation_of f ≡ op) × (is_known op.arg_canonical ≡ true)

with_arg-IsOperation :
    (f : Function) (p : Param) (op : MathOperation) (rest : List Param)
    → (n : Param) → f.params ≡ n ∷ p ∷ rest
    → with_arg f p ≡ ok op
    → IsOperation f op
unfolding with_arg IsOperation operation_of argument_of
with_arg-IsOperation f p op rest n e h = elim (Bool-cases (is_nil p.canonical)) [
  | inl empty ↦ absurd (err_ne_ok (rw empty at h))
  | inr named ↦ elim (Bool-cases (is_known p.canonical)) [
    | inl known ↦ subst (IsOperation f) (ok_injective (rw (named, known) at h)) (rw e refl, known)
    | inr other ↦ absurd (err_ne_ok (rw (named, other) at h))
  ]
]

operation-IsOperation :
    (f : Function) (ps : List Param) (op : MathOperation)
    → f.params ≡ ps
    → operation f ps ≡ ok op
    → IsOperation f op
unfolding operation IsOperation is_known arg_conversions operation_of argument_of
operation-IsOperation f [] op e h = subst (IsOperation f) (ok_injective h) (rw e refl, refl)
operation-IsOperation f (n ∷ []) op e h = subst (IsOperation f) (ok_injective h) (rw e refl, refl)
operation-IsOperation f (n ∷ p ∷ ps) op e h = with_arg-IsOperation f p op ps n e h

-- What the loop collects: the operation of each function chosen.
Collects : List Function → List MathOperation → Type 0
Collects fs ops =
    (gs : List Function) × Chosen fs gs
    × (map operation_of gs ≡ ops)
    × All (λ op. is_known op.arg_canonical ≡ true) ops

in_front-Collects :
    (f : Function) (fs : List Function) (r : Result MathOperation)
    (later : Result (List MathOperation)) (ops : List MathOperation)
    → IsMath f
    → ((op : MathOperation) → r ≡ ok op → IsOperation f op)
    → ((rest : List MathOperation) → later ≡ ok rest → Collects fs rest)
    → in_front r later ≡ ok ops
    → Collects (f ∷ fs) ops
unfolding in_front Collects IsOperation
in_front-Collects f fs (err e) later ops m one more h = absurd (err_ne_ok h)
in_front-Collects f fs (ok op) (err e) ops m one more h = absurd (err_ne_ok h)
in_front-Collects f fs (ok op) (ok rest) ops m one more h =
    let (gs, chosen, same, known) = more rest refl in
    let (here, fills) = one op refl in
    subst (Collects (f ∷ fs)) (ok_injective h) (
      f ∷ gs,
      taken f m chosen,
      ap (λ z. z ∷ map operation_of gs) here ∙ ap (λ zs. op ∷ zs) same,
      (fills, known),
    )

selected-Collects :
    (fs : List Function) (ops : List MathOperation) → selected fs ≡ ok ops → Collects fs ops
unfolding selected Collects
selected-Collects [] ops h = subst (Collects []) (ok_injective h) ([], none_left, refl, tt)
selected-Collects (f ∷ fs) ops h = elim (Bool-cases (is_selected f)) [
  | inl through ↦
      in_front-Collects f fs (operation f f.params) (selected fs) ops (is_selected-IsMath f through)
        (λ op e. operation-IsOperation f f.params op refl e) (λ rest e. selected-Collects fs rest e)
        (rw through at h)
  | inr refused ↦
      let (gs, chosen, same, known) = selected-Collects fs ops (rw refused at h) in
      (gs, left_out f (λ m. let k = is_selected_of f m in cc) chosen, same, known)
]

-- The operations are those of the functions chosen, in another order, and each has a known argument.
unfoldable pub IsSelection : List Function → List MathOperation → Type 0
IsSelection fs ops =
    (gs : List Function) × Chosen fs gs
    × Perm (map operation_of gs) ops
    × All (λ op. is_known op.arg_canonical ≡ true) ops

sorted_ops-IsSelection :
    (fs : List Function) (r : Result (List MathOperation)) (ops : List MathOperation)
    → ((rest : List MathOperation) → r ≡ ok rest → Collects fs rest)
    → sorted_ops r ≡ ok ops
    → IsSorted op_le ops × IsSelection fs ops
unfolding sorted_ops Collects IsSelection
sorted_ops-IsSelection fs (err e) ops f h = absurd (err_ne_ok h)
sorted_ops-IsSelection fs (ok rest) ops f h =
    let (gs, chosen, same, known) = f rest refl in
    subst (λ z. IsSorted op_le z × IsSelection fs z) (ok_injective h)
      (
        sort-IsSorted op_le op_le_total rest,
        (
          gs,
          chosen,
          subst (λ z. Perm z (sort op_le rest)) (sym same) (sort-Perm op_le rest),
          sort-All op_le (λ op. is_known op.arg_canonical ≡ true) rest known,
        ),
      )

-- Where mathOperations answers operations, they are ordered by the SQL name and then by the symbol, and are,
-- up to their order, one for each function of the catalog that is a value transformation of a temporal
-- number: with the function's SQL name and symbol, and with the type and the spelling of its second
-- parameter, if it has one, as the argument, which is filled or stated as one that cannot be.
pub math_operations-IsSorted :
    (fs : List Function) (ops : List MathOperation)
    → math_operations fs ≡ ok ops
    → IsSorted op_le ops × IsSelection fs ops
unfolding math_operations
math_operations-IsSorted fs ops h =
    sorted_ops-IsSelection fs (selected fs) ops (λ rest e. selected-Collects fs rest e) h
