-- ===== src/Tests/Channels.antt =====
-- A route, the channel of a query, the events of a subscriber, and a session of Spark.
use mobility_api.Base.{
  ℕ, zero, suc, String, ◌≡◌, refl, Bool, true, false, List, [], ◌∷◌, length, Option, none, some,
  ◌⊎◌, inl, inr, All, map, eqb, arith, if◌then◌else◌, not,
}
use mobility_api.Base.Int.{pos}
use mobility_api.Base.Json.{Json, str}
use mobility_api.Backend.{Value, Backend}
use mobility_api.Http.{Error, Response, Result, ok, Outcome, done, http_err}
use mobility_api.Store.{in_transaction}
use mobility_api.Ogcify.{rfc3339_tz}
use mobility_api.Stream.Registry.{Query, register, cquery_link}
use mobility_api.Stream.Events.{
  keep_alive, instant, Feed, subscribed_feed, pumped_to, pumped, Turns, stay, turn, events_of, wire,
}
use mobility_api.Stream.Events.Delivered.{
  IsOrdered, arrived, subscribed_feed-IsOrdered, Turns-drained,
}
use mobility_api.Stream.Events.Wire.{read_stream, read_stream-wire}
use mobility_api.Routes.{
  Pattern, Values, best, serves, routes, dispatch_request, served, to_stream_query,
}
use mobility_api.Routes.{to_health, to_trajectories, to_timeseries}
use mobility_api.ApiDoc.{api_doc}
use mobility_api.ApiDoc.Served.{IsRouted, documented, undocumented, api_doc-IsRouted}
use mobility_api.Routes.Specific.{IsChosen, best-IsChosen}
use mobility_api.Routes.Paths.{IsSegment}
use mobility_api.Routes.Links.{channel_values, dispatch_request-cquery_link}
use mobility_api.Spark.Session.{
  spark_backend, executing, session_after, in_transaction-spark_backend,
}
use mobility_api.Tests.Engine.{absolute}

abbrev queries_path : List String
queries_path = "collections" ∷ "ships" ∷ "items" ∷ "1" ∷ "tgsequence" ∷ "queries" ∷ "q1" ∷ []

best-IsChosen_example :
    ((b : Pattern) × (vs : Values) × (best "GET" queries_path routes ≡ some (b, vs))
      × IsChosen "GET" queries_path routes b vs)
    ⊎ ((best "GET" queries_path routes ≡ none)
        × All (λ q. serves "GET" queries_path q ≡ none) routes)
best-IsChosen_example = best-IsChosen "GET" queries_path

abbrev new_query : Query
new_query = (register absolute none none (record { next_id = 0; queries = [] })).0

dispatch_request-cquery_link_example :
    dispatch_request "GET" "/collections/ships/items/1/tproperties/speed/queries/q1/stream"
    ≡ served to_stream_query
        (("cid", "ships") ∷ ("fid", "1") ∷ ("pname", "speed") ∷ ("qid", "q1") ∷ [])
unfolding IsSegment cquery_link channel_values register mobility_api.Base.Int.itoa
dispatch_request-cquery_link_example =
    dispatch_request-cquery_link absolute none none (record { next_id = 0; queries = [] })
      "http://localhost" "meos-local" (refl, refl) (inr (refl, refl))

abbrev first_event : Json
first_event = str "a"

abbrev second_event : Json
second_event = str "b"

abbrev two_offered : Feed
two_offered = pumped_to second_event (pumped_to first_event (subscribed_feed 0))

subscribed_feed-IsOrdered_example : IsOrdered two_offered
unfolding subscribed_feed pumped_to
subscribed_feed-IsOrdered_example = subscribed_feed-IsOrdered 0 two_offered (
    turn (pumped first_event (subscribed_feed 0) refl) (
      turn (pumped second_event (pumped_to first_event (subscribed_feed 0)) refl)
        (stay two_offered)))

abbrev ended_feed : Feed
ended_feed = record two_offered { closed = true }

Turns-drained_example :
    ((g : Feed) × Turns ended_feed g × (g.returned ≡ true) × (g.client_gone ≡ false))
    × ((g : Feed)
        → Turns ended_feed g
        → g.returned ≡ true
        → g.client_gone ≡ false
        → events_of g.sent ≡ first_event ∷ second_event ∷ [])
unfolding pumped_to subscribed_feed arrived events_of
Turns-drained_example = Turns-drained ended_feed refl refl refl

abbrev quoted_text : Json → String
quoted_text v = "\"2011-06-03T18:57:53+00\""

read_stream-wire_example :
    read_stream (wire quoted_text (keep_alive ∷ instant first_event ∷ keep_alive ∷ []))
    ≡ ("instant", "\"2011-06-03T18:57:53+00:00\"") ∷ []
unfolding events_of rfc3339_tz
read_stream-wire_example =
    read_stream-wire quoted_text (λ ev. refl) (keep_alive ∷ instant first_event ∷ keep_alive ∷ [])

-- A session that counts the statements it ran.
abbrev session : ℕ → String → Result (List (List Value)) × ℕ
session n sql = (ok [], suc n)

abbrev spark : Backend ℕ ℕ
spark = spark_backend (λ v. "7") quoted_text session

abbrev refuse : Error → Response
refuse e = http_err 500 "refused"

-- Two statements, and then a refusal.
abbrev deletions : List (String × List Value)
deletions = ("DELETE FROM mf_tproperty", []) ∷ ("DELETE FROM ships", []) ∷ []

abbrev kept_outcome : Outcome (Unit {0})
kept_outcome = done (http_err 409 "kept")

in_transaction-spark_backend_example :
    in_transaction spark refuse
      (executing (λ v. "7") quoted_text session refuse deletions kept_outcome)
      3
    ≡ (kept_outcome, 5)
unfolding session_after
in_transaction-spark_backend_example =
    in_transaction-spark_backend (λ v. "7") quoted_text session refuse deletions kept_outcome 3

api_doc-IsRouted_example :
    All IsRouted (documented (api_doc 100 10000))
    × (undocumented (api_doc 100 10000) routes ≡ to_health ∷ to_trajectories ∷ to_timeseries ∷ [])
api_doc-IsRouted_example = api_doc-IsRouted 100 10000
