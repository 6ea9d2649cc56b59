-- ===== src/Stream/Registers.antt =====
-- What a continuous query's registration leaves behind.
use mobility_api.Base.{
  ℕ, String, Bool, true, false, List, [], ◌∷◌, Option, none, some, ◌≡◌, ◌≢◌, refl, sym, ◌∙◌, ap,
  ◌⊎◌, inl, inr, arith, Bool-cases,
}
use mobility_api.Base.Text.{is_nil, to_lower, trim_space}
use mobility_api.Base.Int.{ℤ, atoi}
use mobility_api.Backend.{Backend, Value, int, text}
use mobility_api.Http.{
  continue, error_text, Error, no_rows, status_err, failed, Response, Outcome, go, done, Result, ok,
  err, Handler, ◌>>=◌, or_respond, some_or, pure, http_err, write_json,
}
use mobility_api.PropType.{tprop_type}
use mobility_api.Store.{
  serve, response_of, require_fid, row_or, collection_meta, no_collection, server_error, scan_text,
}
use mobility_api.Store.Answers.{
  some_or_inversion, row_or_inversion, or_respond_inversion, scan_text_inversion,
}
use mobility_api.Stream.{Instant, QuerySpec}
use mobility_api.Stream.Engines.{Env, engine_for}
use mobility_api.Stream.Sources.{replay_source}
use mobility_api.Stream.Registry.{Query, Registry, register}
use mobility_api.Stream.Requests.{
  Tier, post_query, submit, link, cancel_channel, add_query, with_engine, open_source, from_stored,
  submitted, link_of,
}
use mobility_api.Stream.Asking.{column_of, QueryBody, ask, spec_of, ogc_of}
use mobility_api.Stream.Accepted.{IsQuery, ask-IsQuery, Refuses, ask-Refuses}

-- The type that the property is stored with, as the tier's query of it answers.
abbrev IsStored : {S T : Type 0} → Backend S T → S → String → ℤ → String → String → Type 0
IsStored db s cid fid name ptype =
    db.query_row s "SELECT ptype FROM mf_tproperty WHERE cid=$1 AND fid=$2 AND name=$3"
      (text cid ∷ int fid ∷ text name ∷ [])
    ≡ ok (text ptype ∷ [])

-- The specification is of the property of the request, of the type that it is stored with, and of the
-- query that the body asks for, which the engine can run.
abbrev IsSpec :
    {S T : Type 0} → Backend S T → S → String → String → String → QueryBody → QuerySpec → Type 0
IsSpec db s cid fid_text name body spec =
    (ptype : String) × (atoi fid_text ≡ some spec.fid)
    × IsStored db s cid spec.fid name ptype
    × (spec.cid ≡ cid)
    × (spec.pname ≡ name)
    × (spec.ptype ≡ ogc_of (tprop_type ptype))
    × (spec.engine ≡ to_lower (trim_space body.engine))
    × IsQuery spec.ptype body
        (record { op = spec.op; arg = spec.arg; agg = spec.agg; window = spec.window })

-- A request that met the tier `t` registered such a query, or answers otherwise and left the registry as it
-- was.
abbrev pub Registers :
    {S T : Type 0}
    → Backend S T
    → Tier S
    → String
    → String
    → String
    → QueryBody
    → Response
    → Registry
    → Type 0
Registers db t cid fid_text name body r after =
    ((r.status ≡ 201)
      × (spec : QuerySpec) × (channel : Option (String × ℕ)) × (after
          ≡ (register spec (some "running") channel t.registry).1)
      × IsSpec db t.store cid fid_text name body spec)
    ⊎ ((r.status ≢ 201) × (after ≡ t.registry))

-- The stored type, as the request read it.
met :
    {S T : Type 0} (db : Backend S T) (s s' : S) (sql : String) (args cols : List Value)
    (ptype : String)
    → s ≡ s'
    → db.query_row s sql args ≡ ok cols
    → cols ≡ text ptype ∷ []
    → db.query_row s' sql args ≡ ok (text ptype ∷ [])
met db s s' sql args cols ptype same read row =
    ap (λ z. db.query_row z sql args) (sym same) ∙ (read ∙ ap (λ z. ok z) row)

module _ {S T : Type 0} (db : Backend S T) (start : Tier S) (cid fid_text name : String)
    (body : QueryBody) where
  abbrev Good : Outcome Response × Tier S → Type 0
  Good p = Registers db start cid fid_text name body (response_of p.0) p.1.registry

  -- The registry and the database are those that the request met.
  abbrev IsAsMet : Tier S → Type 0
  IsAsMet t = (t.registry ≡ start.registry) × (t.store ≡ start.store)

  -- A step that refuses, or goes on, and leaves the registry and the database alone.
  module _ {A : Type 0} where
    abbrev Keeps : Outcome A × Tier S → Type 0
    Keeps p = Refuses p.0 × IsAsMet p.1

    stage :
        (p : Outcome A × Tier S) (f : A → Handler (Tier S) Response)
        → Keeps p
        → ((a : A) (t : Tier S) → p.0 ≡ go a → IsAsMet t → Good (f a t))
        → Good (continue p.0 f p.1)
    stage (go a, t) f k g = g a t refl k.1
    stage (done r, t) f k g = inr (k.0, k.1.0)

  some_or-Keeps :
      {A : Type 0} (o : Option A) (r : Response) (t : Tier S)
      → IsAsMet t
      → r.status ≢ 201
      → Keeps (some_or o r t)
  some_or-Keeps none r t e h = (h, e)
  some_or-Keeps (some a) r t e h = (tt, e)

  or_respond-Keeps :
      {A : Type 0} (o : Result A) (f : Error → Response) (t : Tier S)
      → IsAsMet t
      → ((x : Error) → (f x).status ≢ 201)
      → Keeps (or_respond o f t)
  or_respond-Keeps (ok a) f t e h = (tt, e)
  or_respond-Keeps (err x) f t e h = (h x, e)

  row_or-Keeps :
      (missing : Response) (f : Error → Response) (o : Result (List Value)) (t : Tier S)
      → IsAsMet t
      → missing.status ≢ 201
      → ((x : Error) → (f x).status ≢ 201)
      → Keeps (row_or missing f o t)
  row_or-Keeps missing f (ok a) t e m h = (tt, e)
  row_or-Keeps missing f (err no_rows) t e m h = (m, e)
  row_or-Keeps missing f (err (status_err c x)) t e m h = (h (status_err c x), e)
  row_or-Keeps missing f (err (failed x)) t e m h = (h (failed x), e)

  module _ (env : Env) (origin : String) where
    from_stored-Keeps :
        (r : Result (List Instant)) (t : Tier S) → IsAsMet t → Keeps (from_stored db env origin r t)
    unfolding from_stored
    from_stored-Keeps (ok is) t e = (tt, e)
    from_stored-Keeps (err x) t e = ((λ h. omega arith), e)

    open_source-Keeps :
        (live : Bool) (fid : ℤ) (col : String) (t : Tier S)
        → IsAsMet t
        → Keeps (open_source db env origin live cid fid name col t)
    unfolding open_source
    open_source-Keeps true fid col t e = (tt, e)
    open_source-Keeps false fid col t e =
        from_stored-Keeps (replay_source db cid fid name col t.store) t e

    link_registry : (q : Query) (t : Tier S) → (link_of db env origin q t).1.registry ≡ t.registry
    unfolding link_of
    link_registry q t = elim (Bool-cases (is_nil q.spec.engine)) [
      | inl e ↦ rw e refl
      | inr e ↦ rw e refl
    ]

    cancel_registry :
        (c : Option (String × ℕ)) (t : Tier S)
        → (cancel_channel db env origin c t).registry ≡ t.registry
    unfolding cancel_channel
    cancel_registry none t = refl
    cancel_registry (some c) t = refl

    -- The query is registered, unless the engine refuses it.
    submitted-Good :
        (r : Result (Unit {0})) (spec : QuerySpec) (channel : Option (String × ℕ)) (t : Tier S)
        → IsAsMet t
        → IsSpec db start.store cid fid_text name body spec
        → Good (
            (submitted db env origin r spec channel >>= λ cq.
            link db env origin cq >>= λ l. pure (write_json 201 l))
              t)
    unfolding submitted add_query link
    submitted-Good (err x) spec channel t e v =
        inr ((λ h. omega arith), cancel_registry channel t ∙ e.0)
    submitted-Good (ok u) spec channel t e v =
        let added = register spec (some "running") channel t.registry in
        inl (
          refl,
          spec,
          channel,
          link_registry added.0 (record t { registry = added.1 })
              ∙ ap (λ g. (register spec (some "running") channel g).1) e.0,
          v,
        )

    post_query-Good :
        (t : Tier S) → IsAsMet t → Good (post_query db env origin cid fid_text name body t)
    unfolding post_query submit spec_of with_engine
    post_query-Good t0 e0 =
        stage (some_or (collection_meta db cid t0.store) no_collection t0) _
          (some_or-Keeps (collection_meta db cid t0.store) no_collection t0 e0 (λ h. omega arith))
          (λ row t1 k1 e1.
            stage (require_fid fid_text t1) _
              (some_or-Keeps (atoi fid_text) _ t1 e1 (λ h. omega arith))
              (λ fid t2 k2 e2.
                stage (row_or _ server_error (db.query_row t2.store _ _) t2) _
                  (row_or-Keeps _ server_error (db.query_row t2.store _ _) t2 e2 (λ h. omega arith)
                    (λ x h. omega arith))
                  (λ cols t3 k3 e3.
                    stage (or_respond (scan_text cols) server_error t3) _
                      (or_respond-Keeps (scan_text cols) server_error t3 e3 (λ x h. omega arith))
                      (λ ptype t4 k4 e4.
                        stage (ask (ogc_of (tprop_type ptype)) name ptype body, t4) _
                          (ask-Refuses (ogc_of (tprop_type ptype)) name ptype body, e4)
                          (λ asked t5 k5 e5.
                            let spec =
                              spec_of cid fid name (ogc_of (tprop_type ptype)) body asked in
                            let built = engine_for env spec.engine t5.engines in
                            stage
                              (or_respond built.0 (λ x. http_err 501 (error_text x))
                                (record t5 { engines = built.1 }))
                              _
                              (or_respond-Keeps built.0 _ (record t5 { engines = built.1 }) e5
                                (λ x h. omega arith))
                              (λ eng t6 k6 e6.
                                stage
                                  (open_source db env origin body.live cid fid name
                                    (column_of (tprop_type ptype)) t6)
                                  _
                                  (open_source-Keeps body.live fid (column_of (tprop_type ptype)) t6
                                    e6)
                                  (λ channel t7 k7 e7.
                                    submitted-Good (eng.submit spec) spec channel t7 e7 (
                                      ptype,
                                      some_or_inversion (atoi fid_text) _ t1 k2,
                                      met db t2.store start.store _ _ cols ptype e2.1
                                          (row_or_inversion _ server_error
                                            (db.query_row t2.store _ _) t2 k3)
                                          (scan_text_inversion cols (
                                            or_respond_inversion (scan_text cols) server_error t3
                                              k4)),
                                      refl,
                                      refl,
                                      refl,
                                      refl,
                                      ask-IsQuery (ogc_of (tprop_type ptype)) name ptype body asked
                                          k5,
                                    ))))))))

-- postQuery answers 201 exactly when it registers a query, which it does under the next identifier, in
-- front of those before it. The query is on the property of the request, of the feature that the path
-- names by a number, with the type that the property is stored with; it is the aggregation that the body
-- names, which that type has, over the window of the body, of a positive size, or the lifted operation
-- that it names, with its operand, on a TReal property. Any other answer leaves the registry as it was.
pub post_query-Registers :
    {S T : Type 0} (db : Backend S T) (env : Env) (origin cid fid_text name : String)
    (body : QueryBody) (t : Tier S)
    → Registers db t cid fid_text name body
        (serve (post_query db env origin cid fid_text name body) t).0
        (serve (post_query db env origin cid fid_text name body) t).1.registry
post_query-Registers db env origin cid fid_text name body t =
    post_query-Good db t cid fid_text name body env origin t (refl, refl)
