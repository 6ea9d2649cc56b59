-- ===== src/Stream/Opening.antt =====
-- stream.go: the start of streamQuery, which looks the query up and subscribes to it.
use Prim.Native.String.{◌++◌}
use mobility_api.Base.{String, Bool, List, [], ◌∷◌, ◌==◌, if◌then◌else◌}
use mobility_api.Http.{http_err, Handler, some_or, respond, go, ◌>>=◌}
use mobility_api.Stream.Fanout.{subscribe}
use mobility_api.Stream.Registry.{Query, Registry, get}
use mobility_api.Stream.Requests.{Tier}
use mobility_api.Stream.Events.{Feed, subscribed_feed}

-- The query under its identifier, where the registry shares it.
unfoldable set_query : Query → List (String × Query) → List (String × Query)
set_query q [] = []
set_query q ((k, p) ∷ qs) =
    let rest = set_query q qs in if k == q.id then (k, q) ∷ qs else (k, p) ∷ rest

unfoldable subscribe_to : Query → Registry → Registry
unfolding set_query subscribe
subscribe_to q r = record r {
  queries = set_query (record q { fanout = subscribe q.fanout }) r.queries;
}

-- The feed that the loop then serves: the channel of a query that has stopped is closed from the start.
unfoldable stream_query : {S : Type 0} → Bool → String → Handler (Tier S) Feed
unfolding subscribe_to subscribed_feed
stream_query flushes qid = do
  cq ← (λ t. some_or (get qid t.registry) (http_err 404 ("unknown query: " ++ qid)) t)
  (if flushes
      then (λ t. (
        go (record (subscribed_feed cq.fanout.made) { closed = cq.fanout.stopped }),
        record t { registry = subscribe_to cq t.registry },
      ))
      else respond (http_err 500 "streaming unsupported by this server"))
