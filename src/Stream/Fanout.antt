-- ===== src/Stream/Fanout.antt =====
-- stream.go: the subscribers of a continuous query; stream_live.go: those of the live hub. A channel
-- is a key, its buffered values and whether it is closed; a map of channels is a list of them.
use mathlib.Core.List
use mobility_api.Base.{
  ℕ, suc, String, Bool, true, false, List, [], ◌∷◌, Option, none, some, ltb, eqb, length,
  if◌then◌else◌,
}
use mobility_api.Base.Json.{Json}

pub record Chan (E : Type 0) : Type 0 where
  pub key : ℕ
  pub buffer : List E

-- A send with a default case: a full channel is skipped.
module _ {E : Type 0} where
  unfoldable pub offer : ℕ → E → Chan E → Chan E
  offer capacity ev ch =
      if ltb (length ch.buffer) capacity
      then record ch { buffer = List.◌++◌ ch.buffer (ev ∷ []) }
      else ch

  unfoldable pub offer_all : ℕ → E → List (Chan E) → List (Chan E)
  unfolding offer
  offer_all capacity ev [] = []
  offer_all capacity ev (ch ∷ chs) = offer capacity ev ch ∷ offer_all capacity ev chs

  -- The sends that found room.
  unfoldable pub accepted : ℕ → List (Chan E) → ℕ
  accepted capacity [] = 0
  accepted capacity (ch ∷ chs) =
      if ltb (length ch.buffer) capacity then suc (accepted capacity chs) else accepted capacity chs

  unfoldable pub has_key : ℕ → List (Chan E) → Bool
  has_key k [] = false
  has_key k (ch ∷ chs) = if eqb ch.key k then true else has_key k chs

  unfoldable pub drop_key : ℕ → List (Chan E) → List (Chan E)
  drop_key k [] = []
  drop_key k (ch ∷ chs) = if eqb ch.key k then drop_key k chs else ch ∷ drop_key k chs

-- What is shared by a query's goroutines: `made` counts the channels made, and `closed` lists the
-- keys of those closed, in order.
pub record Subscribers : Type 0 where
  pub subs : List (Chan Json)
  pub stopped : Bool
  pub made : ℕ
  pub closed : List ℕ

abbrev pub no_subscribers : Subscribers
no_subscribers = record { subs = []; stopped = false; made = 0; closed = [] }

unfoldable pub keys_of : List (Chan Json) → List ℕ
keys_of [] = []
keys_of (ch ∷ chs) = ch.key ∷ keys_of chs

-- pump, one event of the query, and the end of its events.
unfoldable pub pump_event : Json → Subscribers → Subscribers
unfolding offer_all
pump_event ev cq = record cq { subs = offer_all 32 ev cq.subs }

unfoldable pub pump_end : Subscribers → Subscribers
unfolding keys_of
pump_end cq = record cq {
  subs = [];
  stopped = true;
  closed = List.◌++◌ cq.closed (keys_of cq.subs);
}

-- subscribe, which makes the channel numbered `made`.
unfoldable pub subscribe : Subscribers → Subscribers
subscribe cq =
    if cq.stopped
    then record cq { made = suc cq.made; closed = List.◌++◌ cq.closed (cq.made ∷ []) }
    else record cq { made = suc cq.made; subs = record { key = cq.made; buffer = [] } ∷ cq.subs }

unfoldable pub unsubscribe : ℕ → Subscribers → Subscribers
unfolding has_key drop_key
unsubscribe k cq =
    if has_key k cq.subs
    then record cq { subs = drop_key k cq.subs; closed = List.◌++◌ cq.closed (k ∷ []) }
    else cq

-- status of a query, whose engine handle, if it has one, has the status `running`.
unfoldable pub status : Option String → Subscribers → String
status handle cq = if cq.stopped then "stopped" else elim handle [ none ↦ "running" | some st ↦ st ]

-- One step of the query's goroutines and of its subscribers. An unsubscribe follows the subscribe of
-- the same channel; the pump ends once.
pub data Step : Subscribers → Subscribers → Type 0 where
  pumped : (ev : Json) (cq : Subscribers) → Step cq (pump_event ev cq)
  ended : (cq : Subscribers) → Step cq (pump_end cq)
  subscribed : (cq : Subscribers) → Step cq (subscribe cq)
  unsubscribed : (k : ℕ) (cq : Subscribers) → Step cq (unsubscribe k cq)

pub data Reachable : Subscribers → Type 0 where
  start : Reachable no_subscribers
  step : {cq next : Subscribers} → Reachable cq → Step cq next → Reachable next
