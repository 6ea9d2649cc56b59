-- ===== src/Stream/Bridge.antt =====
-- stream_engine_bridge.go: the feeder and the reader of a bridge job, and stream_mqtt.go. The feeder
-- queues the time of each record that it writes; the reader pairs each line of the job with the
-- oldest time in the queue. The queue holds 1024 times, and the feeder waits for room.

use Prim.Native.String.{◌++◌}
use mobility_api.Base.{
  ◌≡◌, refl, ap, String, List, [], ◌∷◌, Option, none, some, ◌==◌, if◌then◌else◌, Option-cases, inl,
  inr,
}
use mobility_api.Base.Text.{split, trim_space, is_nil}
use mobility_api.Base.Int.{ℤ, atoi}
use mobility_api.Base.Float.{Float, parse_float}
use mobility_api.Stream.{Instant}
use mobility_api.Stream.Windows.{Signal, next, cancelled}
use mobility_api.Stream.Registry.{Hub, live_key, publish}

-- The times that the feeder queues and the lines that it writes, up to the end of the source or of its
-- context; `format_float` is strconv.FormatFloat(v, 'g', -1, 64).
unfoldable bridge_feeder : (Float → String) → List Signal → List (String × String)
bridge_feeder format_float [] = []
bridge_feeder format_float (cancelled ∷ rest) = []
bridge_feeder format_float (next i ∷ rest) =
    (i.t, format_float i.v ++ "\n") ∷ bridge_feeder format_float rest

-- The lines of the job, and the times of the records fed to it: a line that is no number is skipped,
-- and its record's time stays in the queue. No time is left where a line has no record yet: the
-- reader waits for one.
paired : Option Float → List String → (List String → List (String × Float)) → List (String × Float)
paired none ts rest = rest ts
paired (some v) [] rest = []
paired (some v) (t ∷ ts) rest = (t, v) ∷ rest ts

unfoldable pub bridge_reader : List String → List String → List (String × Float)
unfolding paired parse_float trim_space
bridge_reader [] ts = []
bridge_reader (line ∷ lines) ts = paired (parse_float (trim_space line)) ts (bridge_reader lines)

-- The numbers among the lines, and pairs up to the shorter list.
if_number : Option Float → List Float → List Float
if_number none vs = vs
if_number (some v) vs = v ∷ vs

unfoldable pub numbers : List String → List Float
unfolding if_number
numbers [] = []
numbers (line ∷ lines) = if_number (parse_float (trim_space line)) (numbers lines)

pub zip : List String → List Float → List (String × Float)
zip [] vs = []
zip (t ∷ ts) [] = []
zip (t ∷ ts) (v ∷ vs) = (t, v) ∷ zip ts vs

paired-zip :
    (v : Float) (lines ts : List String)
    → ((us : List String) → bridge_reader lines us ≡ zip us (numbers lines))
    → paired (some v) ts (bridge_reader lines) ≡ zip ts (v ∷ numbers lines)
unfolding zip paired
paired-zip v lines [] ih = refl
paired-zip v lines (t ∷ ts) ih = ap (λ zs. (t, v) ∷ zs) (ih ts)

-- The n-th number of the job gets the time of the n-th record fed to it, also where a line before it
-- was no number and answered a record of its own.
pub bridge_reader-zip : (lines ts : List String) → bridge_reader lines ts ≡ zip ts (numbers lines)
unfolding bridge_reader zip numbers if_number
bridge_reader-zip [] [] = refl
bridge_reader-zip [] (t ∷ ts) = refl
bridge_reader-zip (line ∷ lines) ts = elim (Option-cases (parse_float (trim_space line))) [
  | inl e ↦ rw e (bridge_reader-zip lines ts)
  | inr (v, e) ↦ rw e (paired-zip v lines ts (bridge_reader-zip lines))
]

-- parseIngestPayload of a payload: the object's value and its time, or a bare number. `decoded` is
-- what the payload decodes into as an object, `now` the current time as a text.
instant_from : String → Float → String → Instant
instant_from now v ts =
    let given = trim_space ts in record { t = if is_nil given then now else given; v = v; s = "" }

bare_number : String → String → Option Instant
unfolding instant_from
bare_number now payload = elim (parse_float (trim_space payload)) [
  | none ↦ none
  | some v ↦ some (instant_from now v "")
]

unfoldable parse_ingest_payload : String → Option (Option Float × String) → String → Option Instant
unfolding instant_from bare_number
parse_ingest_payload now (some (some v, ts)) payload = some (instant_from now v ts)
parse_ingest_payload now (some (none, ts)) payload = bare_number now payload
parse_ingest_payload now none payload = bare_number now payload

published : String → Option ℤ → String → Option Instant → Hub → Hub
unfolding publish live_key
published cid none pname i h = h
published cid (some fid) pname none h = h
published cid (some fid) pname (some i) h = (publish (live_key cid fid pname) i h).1

by_parts : List String → Option Instant → Hub → Hub
unfolding published
by_parts (root ∷ cid ∷ fid ∷ pname ∷ []) i h =
    if root == "mfapi" then published cid (atoi fid) pname i h else h
by_parts _ i h = h

-- handleMQTT
unfoldable handle_mqtt : String → String → Option (Option Float × String) → String → Hub → Hub
unfolding by_parts parse_ingest_payload
handle_mqtt now topic decoded payload h =
    by_parts (split b'/' topic) (parse_ingest_payload now decoded payload) h
