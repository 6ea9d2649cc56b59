-- ===== src/Tests/Streams.antt =====
-- Continuous queries run on short streams.
use mathlib.Core.List
use mobility_api.Base.{
  ℕ, suc, ◌+◌, ◌<◌, ◌≤◌, ◌%◌, String, ◌≡◌, refl, arith, List, [], ◌∷◌, Option, none, some, inl, inr,
  length, All, map, true, false, ltb, if◌then◌else◌, ◌==◌,
}
use mobility_api.Base.Int.{ℤ, pos, negsuc}
use mobility_api.Base.Float.{Float}
use mobility_api.Base.Json.{Json, null}
use mobility_api.Http.{ok}
use mobility_api.Store.{serve}
use mobility_api.Stream.{Instant, Window}
use mobility_api.Stream.Windows.{next, run_aggregate, is_before, tumbling_span_seconds, hop_seconds}
use mobility_api.Stream.Splitting.{Splits}
use mobility_api.Stream.Counting.{run_aggregate-count}
use mobility_api.Stream.Tumbling.{run_aggregate-tumbling, AreTumbled}
use mobility_api.Stream.Hopping.{Hops, run_hopping, hops, due, evict}
use mobility_api.Stream.CatchingUp.{due-caught_up}
use mobility_api.Stream.Eviction.{run_hopping-evict, keep_all}
use mobility_api.Stream.Fanout.{
  Subscribers, no_subscribers, Reachable, start, step, subscribed, pumped, ended, unsubscribed,
  subscribe, unsubscribe, pump_event, pump_end,
}
use mobility_api.Stream.Closing.{IsClean, Reachable-IsClean}
use mobility_api.Stream.Engines.{Env, Engine, Engines, engine_for, meos_submit}
use mobility_api.Stream.Requests.{Tier, post_query}
use mobility_api.Stream.Asking.{QueryBody}
use mobility_api.Stream.Registers.{Registers, post_query-Registers}
use mobility_api.Stream.Bridge.{bridge_reader, bridge_reader-zip, zip, numbers}
use mobility_api.Tests.{fleet}

abbrev at_second : ℕ → Instant
at_second n = record { t = "t"; v = Float.dec false n 0 0; s = "" }

abbrev value_of : Float → ℕ
value_of (Float.dec s m a b) = m
value_of _ = 0

abbrev second_of : Instant → ℤ
second_of i = pos (value_of i.v)

abbrev sized : List Instant → Json × ℕ
sized win = (null, length win)

abbrev five : List Instant
five = map at_second (1 ∷ 4 ∷ 12 ∷ 13 ∷ 25 ∷ [])

abbrev window_of : String → Window
window_of k = record { kind = k; size = pos 2; unit = ""; hop = pos 1; hop_unit = "" }

run_aggregate-count_example :
    (ws : List (List Instant)) × (left : List Instant) × Splits sized five
      (run_aggregate
        (window_of "COUNT")
        (λ i n. second_of i)
        (λ win. ok (sized win))
        (map next five))
      ws
      left
    × All (λ win. length win ≡ 2) ws
    × (length left < 2)
run_aggregate-count_example =
    run_aggregate-count (window_of "COUNT") 2 (λ i n. second_of i) sized five refl refl
      (omega arith)

abbrev seconds_of : Instant → ℕ
seconds_of i = value_of i.v

run_aggregate-tumbling_example :
    (ws : List (List Instant)) × (left : List Instant) × Splits sized five
      (run_aggregate
        (window_of "TUMBLING")
        (λ i n. pos (seconds_of i))
        (λ win. ok (sized win))
        (map next five))
      ws
      left
    × AreTumbled
        (tumbling_span_seconds (window_of "TUMBLING"))
        seconds_of
        (List.◌++◌ ws (left ∷ []))
run_aggregate-tumbling_example =
    run_aggregate-tumbling (window_of "TUMBLING") seconds_of sized (at_second 1)
      (map at_second (4 ∷ 12 ∷ 13 ∷ 25 ∷ [])) refl

run_hopping-evict_example :
    run_hopping (window_of "HOPPING") (λ i n. second_of i) (λ win. ok (sized win)) (map next five)
    ≡ hops keep_all
        (tumbling_span_seconds (window_of "HOPPING"))
        (hop_seconds (window_of "HOPPING"))
        (λ i n. second_of i)
        (λ win. ok (sized win))
        0
        none
        (map next five)
run_hopping-evict_example =
    run_hopping-evict (window_of "HOPPING") (λ i n. second_of i) (λ win. ok (sized win))
      (map next five) (λ i n. tt)

abbrev one_waiting : Hops
one_waiting = record { buf = (at_second 1, pos 1) ∷ []; next_emit = pos 2 }

due-caught_up_example : is_before (pos 9) (due evict 2 1 8 (pos 9) one_waiting).1.next_emit ≡ true
due-caught_up_example = due-caught_up evict 2 1 8 (pos 9) one_waiting (omega arith) (omega arith)

abbrev left_early : Subscribers
left_early = pump_end (unsubscribe 0 (pump_event null (subscribe no_subscribers)))

left_early-Reachable : Reachable left_early
left_early-Reachable =
    step (step (step (step start (subscribed _)) (pumped null _)) (unsubscribed 0 _)) (ended _)

Reachable-IsClean_example : IsClean left_early
Reachable-IsClean_example = Reachable-IsClean left_early left_early-Reachable

abbrev process : String → Env
process flink = record {
  getenv = λ k. if k == "MFAPI_FLINK_CMD" then flink else "";
  fields = λ s. s ∷ [];
  spawn = λ argv. ok tt;
  format_float = λ v. "1";
  has_meos = true;
}

abbrev no_engines : Engines
no_engines = record { process = none; cache = [] }

abbrev local : Engine
local = record { name = "meos-local"; submit = meos_submit }

local_built : (engine_for (process "") " Local" no_engines).0 ≡ ok local
unfolding engine_for mobility_api.Base.Text.to_lower mobility_api.Base.Text.trim_space
local_built = refl

bridge_reader-zip_example :
    bridge_reader ("1" ∷ "error" ∷ "3" ∷ []) ("a" ∷ "b" ∷ "c" ∷ [])
    ≡ zip ("a" ∷ "b" ∷ "c" ∷ []) (numbers ("1" ∷ "error" ∷ "3" ∷ []))
bridge_reader-zip_example = bridge_reader-zip ("1" ∷ "error" ∷ "3" ∷ []) ("a" ∷ "b" ∷ "c" ∷ [])

-- The third record's number, 3, gets the time of the second record, whose line was no number.
shifted :
    bridge_reader ("1" ∷ "error" ∷ "3" ∷ []) ("a" ∷ "b" ∷ "c" ∷ [])
    ≡ (("a", Float.dec false 1 0 0) ∷ ("b", Float.dec false 3 0 0) ∷ [])
unfolding bridge_reader mobility_api.Base.Text.to_lower mobility_api.Base.Text.take_digits
    mobility_api.Base.Int.parse_nat
shifted = refl

abbrev tier : Tier ℕ
tier = record {
  store = 0;
  registry = record { next_id = 0; queries = [] };
  hub = record { subs = []; made = 0 };
  engines = no_engines;
}

abbrev averages : QueryBody
averages = record {
  operation = "";
  arg = none;
  aggregation = "avg";
  window = window_of "hopping";
  live = true;
  interval_ms = pos 0;
  engine = "meos";
}

post_query-Registers_example :
    Registers fleet tier "ships" "1" "speed" averages
      (serve (post_query fleet (process "") "http://h" "ships" "1" "speed" averages) tier).0
      (serve
        (post_query fleet (process "") "http://h" "ships" "1" "speed" averages)
        tier).1.registry
post_query-Registers_example =
    post_query-Registers fleet (process "") "http://h" "ships" "1" "speed" averages tier

averages_registered :
    (serve (post_query fleet (process "") "http://h" "ships" "1" "speed" averages) tier).0.status
    ≡ 201
unfolding post_query mobility_api.Store.collection_meta mobility_api.Base.Int.atoi
    mobility_api.Store.scan_text mobility_api.Base.Text.to_upper mobility_api.Base.Text.trim_space
    mobility_api.PropType.tprop_type mobility_api.PropType.tprop_tokens
averages_registered = refl
