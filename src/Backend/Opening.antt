-- ===== src/Backend/Opening.antt =====
-- backend.go, backend_duck.go, backend_spark.go: how a DSN opens an engine, and envInt of main.go. The
-- environment and the calls of the client libraries are parameters; a build without an engine is out of it.
use Prim.Native.String.{◌++◌}
use text.Mathlib.Text.{starts_with}
use mobility_api.Base.{
  ℕ, ◌-◌, ◌%◌, ◌^◌, ◌<◌, ltb, arith, String, ◌≡◌, refl, ◌∙◌, false, List, [], ◌∷◌, Option, none,
  some, lookup, ◌==◌, if◌then◌else◌,
}
use mobility_api.Base.Text.{split, trim_space, is_nil}
use mobility_api.Base.Int.{ℤ, pos, negsuc, atoi}
use mobility_api.Base.Maps.{update, lookup-update, lookup-update_other}
use mobility_api.Http.{Error, Result, ok, err}

or_default : ℤ → Option ℤ → ℤ
or_default default none = default
or_default default (some n) = n

-- envInt: the value of the variable `v`.
unfoldable pub env_int : String → ℤ → ℤ
unfolding or_default atoi
env_int v default = if is_nil v then default else or_default default (atoi v)

-- The conversion of an int into an int32, which keeps the low 32 bits.
signed_32 : ℕ → ℤ
signed_32 m = if ltb m (2 ^ 31) then pos m else negsuc (2 ^ 32 - 1 - m)

unfoldable int32 : ℤ → ℤ
unfolding signed_32
int32 (pos n) = signed_32 (n % 2 ^ 32)
int32 (negsuc n) = signed_32 (2 ^ 32 - 1 - n % 2 ^ 32)

-- What is left of a text behind a prefix that it has.
behind : String → String → String
behind String.[] s = s
behind (String.◌∷◌ c p) String.[] = String.[]
behind (String.◌∷◌ c p) (String.◌∷◌ d s) = behind p s

unfoldable trim_prefix : String → String → String
unfolding behind
trim_prefix s p = if starts_with s p then behind p s else s

-- The configuration of a pool: its size, the parameters of a connection, which may be nil, and the rest.
pub record Config (R : Type 0) : Type 0 where
  pub max_conns : ℤ
  pub runtime_params : Option (List (String × String))
  pub rest : R

pub params_of : Option (List (String × String)) → List (String × String)
params_of none = []
params_of (some ps) = ps

module _ {R : Type 0} where
  -- The size from the environment, and the time zone and the date style of each connection.
  unfoldable pinned : String → Config R → Config R
  unfolding env_int int32 params_of update
  pinned max_conns cfg = record {
    max_conns = int32 (env_int max_conns (pos 16));
    runtime_params = some (
        update "datestyle" (λ old. "ISO, YMD")
          (update "timezone" (λ old. "UTC") (params_of cfg.runtime_params)));
    rest = cfg.rest;
  }

duck_path : String → String
duck_path path = (if path == ":memory:" then "" else path) ++ "?allow_unsigned_extensions=true"

-- The extensions that are named, without the empty ones.
named_extensions : List String → List String
unfolding trim_space
named_extensions [] = []
named_extensions (e ∷ es) =
    let later = named_extensions es in if is_nil (trim_space e) then later else trim_space e ∷ later

-- What each connection runs when it is made, up to the first error.
module _ {C : Type 0} (exec : C → String → Option Error × C) where
  after_load : Option Error × C → (C → Option Error × C) → Option Error × C
  after_load (some x, c) rest = (some x, c)
  after_load (none, c) rest = rest c

  unfoldable load_all : List String → C → Option Error × C
  unfolding after_load
  load_all [] c = (none, c)
  load_all (e ∷ es) c = after_load (exec c ("LOAD '" ++ (e ++ "'"))) (load_all es)

-- The calls of the client libraries that open an engine: pgxpool's, duckdb's with what runs on each of
-- its connections, and the session builder of Spark Connect.
pub record Clients (R B C : Type 0) : Type 0 where
  pub parse_config : String → Result (Config R)
  pub new_pool : Config R → Result B
  pub exec : C → String → Option Error × C
  pub new_connector : String → (C → Option Error × C) → Result B
  pub build_session : String → Result B

module _ {R B C : Type 0} (k : Clients R B C) where
  open_postgres : String → String → Result B
  unfolding pinned
  open_postgres max_conns dsn = elim (k.parse_config dsn) [
    | err e ↦ err e
    | ok cfg ↦ k.new_pool (pinned max_conns cfg)
  ]

  unfoldable open_duck : String → String → Result B
  unfolding trim_prefix duck_path named_extensions split load_all
  open_duck extensions dsn =
      k.new_connector (duck_path (trim_prefix dsn "duckdb://"))
        (load_all k.exec (named_extensions (split b',' extensions)))

  unfoldable open_spark : String → Result B
  unfolding trim_prefix
  open_spark dsn = k.build_session ("sc://" ++ trim_prefix dsn "spark://")

  unfoldable pub open_backend : (String → String) → String → Result B
  unfolding open_postgres open_duck open_spark
  open_backend getenv dsn =
      if starts_with dsn "duckdb:"
      then open_duck (getenv "MFAPI_DUCKDB_EXTS") dsn
      else if starts_with dsn "spark:"
      then open_spark dsn
      else open_postgres (getenv "MFAPI_MAXCONNS") dsn

module _ {R : Type 0} (max_conns : String) (cfg : Config R) where
  -- Whatever the DSN and the server say, each connection of the pool is in UTC and writes dates in the ISO
  -- order, and every other parameter of the DSN is as it was.
  pinned-lookup :
      (lookup "timezone" (params_of (pinned max_conns cfg).runtime_params) ≡ some "UTC")
      × (lookup "datestyle" (params_of (pinned max_conns cfg).runtime_params) ≡ some "ISO, YMD")
      × ((k : String)
          → ("timezone" == k) ≡ false
          → ("datestyle" == k) ≡ false
          → lookup k (params_of (pinned max_conns cfg).runtime_params)
            ≡ lookup k (params_of cfg.runtime_params))
  unfolding pinned params_of
  pinned-lookup =
      let given = params_of cfg.runtime_params in
      let zoned = update "timezone" (λ old. "UTC") given in
      (
        lookup-update_other "datestyle" (λ old. "ISO, YMD") "timezone" zoned refl
            ∙ lookup-update "timezone" (λ old. "UTC") given,
        lookup-update "datestyle" (λ old. "ISO, YMD") zoned,
        λ k h1 h2.
            lookup-update_other "datestyle" (λ old. "ISO, YMD") k zoned h2
            ∙ lookup-update_other "timezone" (λ old. "UTC") k given h1,
      )

-- A size within the range of an int32 is taken as it is.
int32_fits : (n : ℕ) → n < 2 ^ 31 → int32 (pos n) ≡ pos n
unfolding int32 signed_32
int32_fits n h = ground arith
