-- ===== src/Stream/Accepted.antt =====
-- The continuous queries that the checks of postQuery let through.
use mathlib.Core.Path.{subst}
use mobility_api.Base.{
  String, Bool, true, false, not, ◌&&◌, Option, none, some, lookup, is_some, ◌==◌, if◌then◌else◌,
  ◌≡◌, ◌≢◌, refl, ◌⊎◌, inl, inr, arith, eq_iff, Bool-cases, Option-cases,
}
use mobility_api.Base.Text.{is_nil, to_upper, trim_space, to_lower}
use mobility_api.Base.Int.{ℤ, is_positive}
use mobility_api.Http.{Outcome, go, done}
use mobility_api.Stream.{Window, OpInfo, is_agg, lifted_ops}
use mobility_api.Stream.Asking.{QueryBody, Asked, ask, ask_aggregate, ask_transform}

-- The window that is asked for, and one that the engine can run.
abbrev IsWindow : Window → Option Window → Type 0
IsWindow given none = ⊥
IsWindow given (some w) =
    (w.kind ≡ to_upper (trim_space given.kind))
    × (w.size ≡ given.size)
    × (w.unit ≡ to_upper given.unit)
    × (w.hop ≡ given.hop)
    × (w.hop_unit ≡ to_upper given.hop_unit)
    × ((w.kind ≡ "COUNT") ⊎ ((w.kind ≡ "TUMBLING") ⊎ (w.kind ≡ "HOPPING")))
    × (is_positive w.size ≡ true)
    × (w.kind ≡ "HOPPING" → is_positive w.hop ≡ true)

-- The aggregation that the body names, which its type has, over the body's window; or the lifted operation
-- that it names on a TReal property, with the body's operand, which is there where it takes one.
abbrev pub IsQuery : String → QueryBody → Asked → Type 0
IsQuery ogc body asked =
    ((asked.agg ≡ to_upper (trim_space body.aggregation))
      × (is_agg ogc asked.agg ≡ true)
      × IsWindow body.window asked.window)
    ⊎ ((ogc ≡ "TReal")
        × (asked.agg ≡ "")
        × (asked.op ≡ to_lower (trim_space body.operation))
        × (asked.arg ≡ body.arg)
        × (info : OpInfo) × (lookup asked.op lifted_ops ≡ some info)
        × (info.needs_arg ≡ true → is_some asked.arg ≡ true))

-- A window type that the request may name.
abbrev IsKind : String → Type 0
IsKind k = (k ≡ "COUNT") ⊎ ((k ≡ "TUMBLING") ⊎ (k ≡ "HOPPING"))

IsKind-checked :
    (k : String)
    → (not (k == "COUNT") && (not (k == "TUMBLING") && not (k == "HOPPING"))) ≡ false
    → IsKind k
IsKind-checked k h = ground (arith, eq_iff k "COUNT", eq_iff k "TUMBLING", eq_iff k "HOPPING")

hop_checked :
    (k : String) (hop : ℤ)
    → ((k == "HOPPING") && not (is_positive hop)) ≡ false
    → k ≡ "HOPPING"
    → is_positive hop ≡ true
hop_checked k hop h e = ground (arith, eq_iff k "HOPPING")

go_injective : {A : Type 0} {a b : A} → go a ≡ go b → a ≡ b
go_injective h = cc

operand_checked : (n a : Bool) → (n && not a) ≡ false → n ≡ true → a ≡ true
operand_checked n a h k = ground arith

ask_aggregate-IsQuery :
    (ogc agg : String) (body : QueryBody) (asked : Asked)
    → agg ≡ to_upper (trim_space body.aggregation)
    → ask_aggregate ogc agg body ≡ go asked
    → IsQuery ogc body asked
unfolding ask_aggregate
ask_aggregate-IsQuery ogc agg body asked named h =
    let kind = to_upper (trim_space body.window.kind) in
    elim (Bool-cases (is_agg ogc agg)) [
      | inr a ↦ absurd (cc (rw a at h))
      | inl a ↦
          elim (Bool-cases
            (not (kind == "COUNT") && (not (kind == "TUMBLING") && not (kind == "HOPPING")))) [
              | inl b ↦ absurd (cc (rw (a, b) at h))
              | inr b ↦ elim (Bool-cases (is_positive body.window.size)) [
                | inr c ↦ absurd (cc (rw (a, b, c) at h))
                | inl c ↦
                    elim (Bool-cases ((kind == "HOPPING") && not (is_positive body.window.hop))) [
                      | inl d ↦ absurd (cc (rw (a, b, c, d) at h))
                      | inr d ↦ subst (IsQuery ogc body) (go_injective (rw (a, b, c, d) at h)) (
                          inl (
                            named,
                            a,
                            (
                              refl,
                              refl,
                              refl,
                              refl,
                              refl,
                              IsKind-checked kind b,
                              c,
                              hop_checked kind body.window.hop d,
                            ),
                          ))
                    ]
              ]
            ]
    ]

ask_transform-IsQuery :
    (ogc name ptype : String) (body : QueryBody) (asked : Asked)
    → ask_transform ogc name ptype body ≡ go asked
    → IsQuery ogc body asked
unfolding ask_transform
ask_transform-IsQuery ogc name ptype body asked h =
    let op = to_lower (trim_space body.operation) in
    elim (Bool-cases (ogc == "TReal")) [
      | inr a ↦ absurd (cc (rw a at h))
      | inl a ↦ elim (Option-cases (lookup op lifted_ops)) [
        | inl b ↦ absurd (cc (rw (a, b) at h))
        | inr (info, b) ↦ elim (Bool-cases (info.needs_arg && not (is_some body.arg))) [
          | inl c ↦ absurd (cc (rw (a, b, c) at h))
          | inr c ↦ subst (IsQuery ogc body) (go_injective (rw (a, b, c) at h)) (
              inr (
                (eq_iff ogc "TReal").0 a,
                refl,
                refl,
                refl,
                info,
                b,
                λ n. operand_checked info.needs_arg (is_some body.arg) c n,
              ))
        ]
      ]
    ]

pub ask-IsQuery :
    (ogc name ptype : String) (body : QueryBody) (asked : Asked)
    → ask ogc name ptype body ≡ go asked
    → IsQuery ogc body asked
unfolding ask
ask-IsQuery ogc name ptype body asked h =
    elim (Bool-cases (is_nil (to_upper (trim_space body.aggregation)))) [
      | inl e ↦ ask_transform-IsQuery ogc name ptype body asked (rw e at h)
      | inr e ↦
          ask_aggregate-IsQuery ogc (to_upper (trim_space body.aggregation)) body asked refl
            (rw e at h)
    ]

-- A response that is written early has another status than 201.
abbrev pub Refuses : {A : Type 0} → Outcome A → Type 0
Refuses (go a) = Unit
Refuses (done r) = r.status ≢ 201

if_Refuses :
    {A : Type 0} (b : Bool) (x y : Outcome A) → Refuses x → Refuses y → Refuses (if b then x else y)
if_Refuses true x y h k = h
if_Refuses false x y h k = k

transform-Refuses :
    (ogc name ptype : String) (body : QueryBody) (o : Option OpInfo)
    → lookup (to_lower (trim_space body.operation)) lifted_ops ≡ o
    → Refuses (ask_transform ogc name ptype body)
unfolding ask_transform
transform-Refuses ogc name ptype body none e =
    rw e (if_Refuses (not (ogc == "TReal")) _ _ (λ k. omega arith) (λ k. omega arith))
transform-Refuses ogc name ptype body (some info) e = rw e (
    if_Refuses (not (ogc == "TReal")) _ _ (λ k. omega arith)
      (if_Refuses (info.needs_arg && not (is_some body.arg)) _ _ (λ k. omega arith) tt))

pub ask-Refuses : (ogc name ptype : String) (body : QueryBody) → Refuses (ask ogc name ptype body)
unfolding ask ask_aggregate
ask-Refuses ogc name ptype body =
    let kind = to_upper (trim_space body.window.kind) in
    if_Refuses (is_nil (to_upper (trim_space body.aggregation))) _ _
      (transform-Refuses ogc name ptype body _ refl)
      (if_Refuses (not (is_agg ogc (to_upper (trim_space body.aggregation)))) _ _ (λ k. omega arith)
        (if_Refuses (not (kind == "COUNT") && (not (kind == "TUMBLING") && not (kind == "HOPPING")))
          _ _ (λ k. omega arith)
          (if_Refuses (not (is_positive body.window.size)) _ _ (λ k. omega arith)
            (if_Refuses ((kind == "HOPPING") && not (is_positive body.window.hop)) _ _
              (λ k. omega arith) tt))))
