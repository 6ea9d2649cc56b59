-- ===== src/Stream/Events.antt =====
-- stream.go: streamQuery, the events of a continuous query as one subscriber gets them. Its goroutine and
-- the pump of the query take their steps in any order.
pub mod Delivered
pub mod Wire
use mathlib.Core.List
use Prim.Native.String.{◌++◌}
use mobility_api.Base.{
  ℕ, zero, suc, ltb, String, ◌≡◌, Bool, true, false, List, [], ◌∷◌, Option, none, some, length,
  if◌then◌else◌,
}
use mobility_api.Base.Json.{Json}
use mobility_api.Ogcify.{rfc3339_tz}
use mobility_api.Stream.Fanout.{Chan, offer}

-- What the loop writes: a comment of the ticker, or an event.
pub data Message : Type 0 where
  keep_alive : Message
  instant : Json → Message

-- The channel of the subscriber, with what was offered to it since the subscription, how many offers
-- found it full, whether it is closed; what the loop has written, whether it has returned, and whether
-- the client is gone.
pub record Feed : Type 0 where
  pub chan : Chan Json
  pub offered : List Json
  pub skipped : ℕ
  pub closed : Bool
  pub sent : List Message
  pub returned : Bool
  pub client_gone : Bool

unfoldable pub subscribed_feed : ℕ → Feed
subscribed_feed key = record {
  chan = record { key = key; buffer = [] };
  offered = [];
  skipped = 0;
  closed = false;
  sent = [];
  returned = false;
  client_gone = false;
}

-- pump, as this channel sees it: a channel that is full is skipped.
unfoldable pub pumped_to : Json → Feed → Feed
unfolding offer
pumped_to ev f = record f {
  chan = offer 32 ev f.chan;
  offered = List.◌++◌ f.offered (ev ∷ []);
  skipped = if ltb (length f.chan.buffer) 32 then f.skipped else suc f.skipped;
}

write : Message → Feed → Feed
write m f = record f { sent = List.◌++◌ f.sent (m ∷ []) }

-- A case of the select: an event that is received is taken from the buffer and written.
unfoldable pub receive : Json → List Json → Feed → Feed
unfolding write
receive ev rest f = write (instant ev) (record f { chan = record f.chan { buffer = rest } })

unfoldable pub tick : Feed → Feed
unfolding write
tick f = write keep_alive f

unfoldable pub leave : Feed → Feed
leave f = record f { returned = true }

-- r.Context().Done(): the client's request has ended.
unfoldable pub lose : Feed → Feed
lose f = record f { returned = true; client_gone = true }

-- One step. The loop goes on until the client is gone, or the channel is closed and empty; a closed
-- channel is offered nothing.
pub data Turn : Feed → Feed → Type 0 where
  pumped : (ev : Json) (f : Feed) → f.closed ≡ false → Turn f (pumped_to ev f)
  closing : (f : Feed) → Turn f (record f { closed = true })
  ticked : (f : Feed) → f.returned ≡ false → Turn f (tick f)
  received :
      (ev : Json) (rest : List Json) (f : Feed)
      → f.returned ≡ false
      → f.chan.buffer ≡ ev ∷ rest
      → Turn f (receive ev rest f)
  drained :
      (f : Feed) → f.returned ≡ false → f.closed ≡ true → f.chan.buffer ≡ [] → Turn f (leave f)
  gone : (f : Feed) → f.returned ≡ false → Turn f (lose f)

-- Some steps in turn.
pub data Turns : Feed → Feed → Type 0 where
  stay : (f : Feed) → Turns f f
  turn : {f g h : Feed} → Turn f g → Turns g h → Turns f h

-- The events among what was written.
unfoldable pub events_of : List Message → List Json
events_of [] = []
events_of (keep_alive ∷ ms) = events_of ms
events_of (instant ev ∷ ms) = ev ∷ events_of ms

-- The texts of the messages; `marshal` is json.Marshal of an event.
module _ (marshal : Json → String) where
  unfoldable pub frame : Message → String
  unfolding rfc3339_tz
  frame keep_alive = ": keep-alive\n\n"
  frame (instant ev) = "event: instant\ndata: " ++ (rfc3339_tz (marshal ev) ++ "\n\n")

  unfoldable pub wire : List Message → String
  unfolding frame
  wire [] = ""
  wire (m ∷ ms) = frame m ++ wire ms
