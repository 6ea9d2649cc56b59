-- ===== src/Stream/Registry.antt =====
-- stream.go: the registry of the running queries; stream_live.go: the hub that pushed records enter by.
use Prim.Native.String.{◌++◌}
use mobility_api.Base.{
  ℕ, suc, String, Bool, ◌&&◌, List, [], ◌∷◌, Option, none, some, lookup, ◌==◌, if◌then◌else◌,
}
use mobility_api.Base.Int.{ℤ, itoa, format_nat}
use mobility_api.Base.Json.{Json, str, object, array}
use mobility_api.Stream.{Instant, QuerySpec, text_le}
use mobility_api.Stream.Fanout.{
  Chan, offer_all, accepted, drop_key, Subscribers, no_subscribers, status,
}

-- A registered query: `handle` is the status of its engine's handle, which a geometry query has not;
-- `live_key` and `channel` name its channel on the hub, if it has one.
pub record Query : Type 0 where
  pub id : String
  pub spec : QuerySpec
  pub handle : Option String
  pub channel : Option (String × ℕ)
  pub fanout : Subscribers

pub record Registry : Type 0 where
  pub next_id : ℕ
  pub queries : List (String × Query)

-- register
unfoldable pub register :
    QuerySpec → Option String → Option (String × ℕ) → Registry → Query × Registry
register spec handle channel r =
    let id = "q" ++ format_nat (suc r.next_id) in
    let cq : Query = record {
      id = id;
      spec = spec;
      handle = handle;
      channel = channel;
      fanout = no_subscribers;
    } in
    (cq, record { next_id = suc r.next_id; queries = (id, cq) ∷ r.queries })

-- get and remove
abbrev pub get : String → Registry → Option Query
get id r = lookup id r.queries

unfoldable pub delete_key : {A : Type 0} → String → List (String × A) → List (String × A)
delete_key k [] = []
delete_key k ((j, a) ∷ m) = if j == k then delete_key k m else (j, a) ∷ delete_key k m

unfoldable pub remove : String → Registry → Registry
unfolding delete_key
remove id r = record r { queries = delete_key id r.queries }

insert_by_id : Query → List Query → List Query
unfolding text_le
insert_by_id q [] = q ∷ []
insert_by_id q (p ∷ ps) =
    let rest = insert_by_id q ps in if text_le q.id p.id then q ∷ p ∷ ps else p ∷ rest

eq_int : ℤ → ℤ → Bool
eq_int a b = itoa a == itoa b

is_on : String → ℤ → String → Query → Bool
unfolding eq_int itoa
is_on cid fid name q = (q.spec.cid == cid) && (eq_int q.spec.fid fid && (q.spec.pname == name))

matching : String → ℤ → String → List (String × Query) → List Query
unfolding is_on insert_by_id
matching cid fid name [] = []
matching cid fid name ((k, q) ∷ qs) =
    let rest = matching cid fid name qs in
    if is_on cid fid name q then insert_by_id q rest else rest

-- list: the queries on the property, sorted by their identifiers as texts.
unfoldable pub list : String → ℤ → String → Registry → List Query
unfolding matching
list cid fid name r = matching cid fid name r.queries

-- basePath
unfoldable pub base_path : QuerySpec → String
base_path spec =
    if spec.kind == "geometry"
    then "/collections/" ++ (spec.cid ++ ("/items/" ++ (itoa spec.fid ++ "/tgsequence/queries")))
    else "/collections/"
      ++ (spec.cid
          ++ ("/items/" ++ (itoa spec.fid ++ ("/tproperties/" ++ (spec.pname ++ "/queries")))))

-- cqueryLink. `origin` is the scheme and the host of the request, `engine` the name of the query's
-- engine or of the process's.
unfoldable pub cquery_link : String → String → Query → Json
unfolding base_path status
cquery_link origin engine q =
    let channel = base_path q.spec ++ ("/" ++ q.id) in
    let self = origin ++ channel in
    object (
      ("rel", str "cquery")
      ∷ ("queryId", str q.id)
      ∷ ("href", str (self ++ "/stream"))
      ∷ ("channel", str (channel ++ "/stream"))
      ∷ ("status", str (status q.handle q.fanout))
      ∷ ("type", str "text/event-stream")
      ∷ ("operation", str q.spec.op)
      ∷ ("engine", str engine)
      ∷ (
        "links",
        array (
            object (("rel", str "self") ∷ ("href", str self) ∷ [])
            ∷ object (
                ("rel", str "stream")
                ∷ ("href", str (self ++ "/stream"))
                ∷ ("type", str "text/event-stream")
                ∷ [])
            ∷ []),
      )
      ∷ [])

-- The hub: the channels of each key, and the channels made so far.
pub record Hub : Type 0 where
  pub subs : List (String × List (Chan Instant))
  pub made : ℕ

unfoldable pub live_key : String → ℤ → String → String
live_key cid fid pname = cid ++ ("\0" ++ (itoa fid ++ ("\0" ++ pname)))

channels_of : Option (List (Chan Instant)) → List (Chan Instant)
channels_of none = []
channels_of (some chs) = chs

-- m[k] = v
unfoldable pub set_key : {A : Type 0} → String → A → List (String × A) → List (String × A)
set_key k v [] = (k, v) ∷ []
set_key k v ((j, w) ∷ m) = if j == k then (j, v) ∷ m else (j, w) ∷ set_key k v m

-- subscribe, and what follows when its context ends.
unfoldable pub hub_subscribe : String → Hub → ℕ × Hub
unfolding channels_of set_key
hub_subscribe key h = (
  h.made,
  record {
    subs =
        set_key key (record { key = h.made; buffer = [] } ∷ channels_of (lookup key h.subs)) h.subs;
    made = suc h.made;
  },
)

unfoldable pub hub_cancel : String → ℕ → Hub → Hub
unfolding channels_of set_key drop_key
hub_cancel key k h = record h {
  subs = set_key key (drop_key k (channels_of (lookup key h.subs))) h.subs;
}

unfoldable pub delivered : String → Instant → Option (List (Chan Instant)) → Hub → ℕ × Hub
unfolding set_key offer_all accepted
delivered key i none h = (0, h)
delivered key i (some chs) h =
    (accepted 64 chs, record h { subs = set_key key (offer_all 64 i chs) h.subs })

-- publish: the number of the queries that took the record.
unfoldable pub publish : String → Instant → Hub → ℕ × Hub
unfolding delivered
publish key i h = delivered key i (lookup key h.subs) h
