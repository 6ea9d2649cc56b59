-- ===== src/Tests.antt =====
-- A database for the concrete runs: the collection `ships` with one feature, whose property `speed` is
-- a TReal; the state counts the statements that were executed.
pub mod Requests
pub mod Streams
pub mod Documents
pub mod Pages
pub mod Identifiers
pub mod Engine
pub mod Feeds
pub mod Times
pub mod Channels
pub mod Walks
pub mod Drivers
use mobility_api.Base.{
  ℕ, suc, String, ◌≡◌, refl, List, [], ◌∷◌, none, some, ◌==◌, if◌then◌else◌, false,
}
use mobility_api.Base.Text.{contains}
use mobility_api.Base.Int.{pos}
use mobility_api.Base.Json.{Json, str, num, object, array}
use mobility_api.Base.Float.{Float}
use mobility_api.Backend.{Value, int, text, doc, Backend, IsTransactional, Rows}
use mobility_api.Http.{Error, no_rows, failed, Result, ok, err}

abbrev pub number : ℕ → Json
number n = num (Float.dec false n 0 0)

abbrev speed_document : Json
speed_document = object (
    ("type", str "MovingFloat")
    ∷ ("datetimes", array (str "2011-06-03T18:57:53Z" ∷ str "2011-06-03T18:57:54Z" ∷ []))
    ∷ ("values", array (number 7 ∷ number 9 ∷ []))
    ∷ ("interpolation", str "Linear")
    ∷ [])

abbrev pub answer : ℕ → String → Result (List Value)
answer s sql =
    if sql == "SELECT id, crs FROM collections WHERE id=$1"
    then ok (text "ships" ∷ int (pos 4326) ∷ [])
    else if sql == "SELECT ptype FROM mf_tproperty WHERE cid=$1 AND fid=$2 AND name=$3"
    then ok (text "TReal" ∷ [])
    else if contains sql "asMFJSON"
    then ok (doc speed_document ∷ [])
    else if contains sql "SELECT 1 FROM"
    then ok (int (pos 1) ∷ [])
    else err no_rows

abbrev execute : String → ℕ → String → Result ℕ × ℕ
execute fails s sql = if contains sql fails then (err (failed "refused"), suc s) else (ok 1, suc s)

-- An engine that answers rows by `rows` and refuses the statements that contain `fails`.
abbrev pub engine : (ℕ → String → Result (List Value)) → String → Backend ℕ ℕ
engine rows fails = record {
  query_row = λ s sql args. rows s sql;
  query = λ s sql args. ok (record { rows = []; failure = none });
  exec = λ s sql args. execute fails s sql;
  begin = λ s. ok s;
  tx_query_row = λ t sql args. rows t sql;
  tx_query = λ t sql args. ok (record { rows = []; failure = none });
  tx_exec = λ t sql args. execute fails t sql;
  commit = λ t s. (ok tt, t);
  rollback = λ t s. s;
}

pub engine-IsTransactional :
    (rows : ℕ → String → Result (List Value)) (fails : String) → IsTransactional (engine rows fails)
engine-IsTransactional rows fails = record {
  rollback_lem = λ t s. refl;
  commit_fails = λ t s e h. absurd (cc);
}

abbrev pub nothing : ℕ → String → Result (List Value)
nothing s sql = err no_rows

abbrev pub fleet : Backend ℕ ℕ
fleet = engine answer "broken"
