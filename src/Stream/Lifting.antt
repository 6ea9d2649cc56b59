-- ===== src/Stream/Lifting.antt =====
-- The events of a transform against the records of its source.
use mobility_api.Base.{
  String, ◌≡◌, refl, sym, ap, true, List, [], ◌∷◌, ◌++◌, Option, none, some, All, All-lookup, map,
  lookup,
}
use mobility_api.Base.Text.{is_nil}
use mobility_api.Base.Float.{Float}
use mobility_api.Http.{Error, Result, ok, err, ok_injective}
use mobility_api.Stream.{Instant, QuerySpec, OpInfo, op_info, lifted_ops}
use mobility_api.Stream.Windows.{Signal, next, cancelled}
use mobility_api.Stream.Meos.{
  Meos, lift_instant, parse_instant_text, dispatch, read_value, read_literal, lifted, called,
  written, call_math_op,
}
use mobility_api.Stream.Transform.{run_transform, transform_event, meos_run}
use mobility_api.Stream.Engines.{arg_of}

read_value_time :
    (r s t : String) (v : Option Float) (out : Instant) → read_value r s t v ≡ ok out → out.t ≡ t
unfolding read_value
read_value_time r s t none out h = absurd (cc)
read_value_time r s t (some v) out h = sym (ap (λ i. i.t) (ok_injective h))

module _ {T : Type 0} (m : Meos T) (op : String) (i out : Instant) where
  written_time : (s : Option String) → written m op i s ≡ ok out → out.t ≡ i.t
  unfolding written parse_instant_text
  written_time none h = absurd (cc)
  written_time (some s) h = read_value_time _ s i.t _ out h

  called_time :
      (info : OpInfo) (r : Option (Option T)) → called m op info i r ≡ ok out → out.t ≡ i.t
  unfolding called
  called_time info none h = absurd (cc)
  called_time info (some none) h = absurd (cc)
  called_time info (some (some res)) h = written_time (m.tfloat_out res) h

  lifted_time :
      (arg : Float) (temp : T) (info : Option OpInfo)
      → lifted m op arg i temp info ≡ ok out
      → out.t ≡ i.t
  unfolding lifted
  lifted_time arg temp none h = absurd (cc)
  lifted_time arg temp (some info) h = called_time info (call_math_op m info.sql_name temp arg) h

  read_literal_time :
      (arg : Float) (t : Option T) → read_literal m op arg i t ≡ ok out → out.t ≡ i.t
  unfolding read_literal
  read_literal_time arg none h = absurd (cc)
  read_literal_time arg (some temp) h = lifted_time arg temp (lookup op lifted_ops) h

  -- A lifted record keeps its own time.
  lift_instant_time : (arg : Float) → lift_instant m op arg i ≡ ok out → out.t ≡ i.t
  unfolding lift_instant
  lift_instant_time arg h = read_literal_time arg _ h

-- The records are lifted to the results, one by one.
abbrev AllLifted : (Instant → Result Instant) → List Instant → List Instant → Type 0
AllLifted lift [] [] = Unit
AllLifted lift [] (out ∷ outs) = ⊥
AllLifted lift (i ∷ is) [] = ⊥
AllLifted lift (i ∷ is) (out ∷ outs) = (lift i ≡ ok out) × AllLifted lift is outs

unfoldable pub times : List Instant → List String
times [] = []
times (i ∷ is) = i.t ∷ times is

-- How the records behind those that are lifted go on: the source ends, its context ends, or a
-- record fails, whatever follows it.
pub data Ends (lift : Instant → Result Instant) : List Signal → String → Type 0 where
  closed : Ends lift [] "stopped"
  ended : (rest : List Signal) → Ends lift (cancelled ∷ rest) "stopped"
  failing :
      (i : Instant) (e : Error) (rest : List Signal)
      → lift i ≡ err e
      → Ends lift (next i ∷ rest) "failed"

run_ended :
    (lift : Instant → Result Instant) (spec : QuerySpec) {rest : List Signal} {status : String}
    → Ends lift rest status
    → run_transform lift spec rest ≡ ([], status)
unfolding run_transform
run_ended lift spec closed = refl
run_ended lift spec (ended rest) = refl
run_ended lift spec (failing i e rest h) = rw h refl

run_lifted :
    (lift : Instant → Result Instant) (spec : QuerySpec) (is outs : List Instant)
    {rest : List Signal} {status : String}
    → AllLifted lift is outs
    → Ends lift rest status
    → run_transform lift spec (map next is ++ rest) ≡ (map (transform_event spec) outs, status)
unfolding run_transform
run_lifted lift spec [] [] a e = run_ended lift spec e
run_lifted lift spec [] (out ∷ outs) a e = absurd a
run_lifted lift spec (i ∷ is) [] a e = absurd a
run_lifted lift spec (i ∷ is) (out ∷ outs) a e = rw (a.0, run_lifted lift spec is outs a.1 e) refl

times-lifted :
    {T : Type 0} (m : Meos T) (op : String) (arg : Float) (is outs : List Instant)
    → AllLifted (lift_instant m op arg) is outs
    → times outs ≡ times is
unfolding times
times-lifted m op arg [] [] a = refl
times-lifted m op arg [] (out ∷ outs) a = absurd a
times-lifted m op arg (i ∷ is) [] a = absurd a
times-lifted m op arg (i ∷ is) (out ∷ outs) a =
    rw (lift_instant_time m op i out arg a.0, times-lifted m op arg is outs a.1) refl

Called : {T : Type 0} → Meos T → OpInfo → Type 0
Called {T} m info =
    (temp : T) (arg : Float) → (r : Option T) × (call_math_op m info.sql_name temp arg ≡ some r)

lifted_ops-Called : {T : Type 0} (m : Meos T) → All (λ e. Called m e.1) lifted_ops
unfolding Called lifted_ops call_math_op dispatch op_info
lifted_ops-Called m = (
  λ temp arg. (_, refl),
  (
    λ temp arg. (_, refl),
    (
      λ temp arg. (_, refl),
      (
        λ temp arg. (_, refl),
        (
          λ temp arg. (_, refl),
          (
            λ temp arg. (_, refl),
            (
              λ temp arg. (_, refl),
              (
                λ temp arg. (_, refl),
                (
                  λ temp arg. (_, refl),
                  (
                    λ temp arg. (_, refl),
                    (
                      λ temp arg. (_, refl),
                      (
                        λ temp arg. (_, refl),
                        (
                          λ temp arg. (_, refl),
                          (λ temp arg. (_, refl), (λ temp arg. (_, refl), tt)),
                        ),
                      ),
                    ),
                  ),
                ),
              ),
            ),
          ),
        ),
      ),
    ),
  ),
)

-- Each operation that a query may name has a case in the dispatch to MEOS, whatever its operand is.
call_math_op-lifted_ops :
    {T : Type 0} (m : Meos T) (op : String) (info : OpInfo)
    → lookup op lifted_ops ≡ some info
    → (temp : T) (arg : Float) → (r : Option T) × (call_math_op m info.sql_name temp arg ≡ some r)
unfolding Called
call_math_op-lifted_ops m op info h = All-lookup (Called m) op lifted_ops (lifted_ops-Called m) h

module _ {T : Type 0} (m : Meos T) (spec : QuerySpec) (transform : is_nil spec.agg ≡ true) where
  -- A query that transforms emits one event for each record that is lifted, in order, with the lifted
  -- value and under the time of the record itself, up to the end of the source, the end of the
  -- context or the first record that fails, and its status is then stopped, stopped or failed.
  pub meos_run-lifts :
      (is outs : List Instant) {rest : List Signal} {status : String}
      → AllLifted (lift_instant m spec.op (arg_of spec.arg)) is outs
      → Ends (lift_instant m spec.op (arg_of spec.arg)) rest status
      → (meos_run m spec (map next is ++ rest) ≡ (map (transform_event spec) outs, status))
        × (times outs ≡ times is)
  unfolding meos_run
  meos_run-lifts is outs a e = (
    rw (transform) (run_lifted (lift_instant m spec.op (arg_of spec.arg)) spec is outs a e),
    times-lifted m spec.op (arg_of spec.arg) is outs a,
  )
