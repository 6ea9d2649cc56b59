-- ===== src/Stream/Events/Delivered.antt =====
-- What a subscriber gets against what the query offers it.
use mathlib.Core.Path.{subst}
use mathlib.Core.List.{append_assoc, append-nil}
use mobility_api.Base.{
  ℕ, ◌+◌, ltb, Bool, ◌≡◌, refl, sym, ap, ◌∙◌, arith, true, false, List, [], ◌∷◌, ◌++◌, length,
  length-append, Bool-cases, inl, inr,
}
use mobility_api.Base.Json.{Json}
use mobility_api.Stream.Fanout.{offer}
use mobility_api.Stream.Events.{
  Message, keep_alive, instant, Feed, subscribed_feed, pumped_to, receive, tick, leave, lose, Turn,
  pumped, closing, ticked, received, drained, gone, Turns, stay, turn, events_of,
}

-- The first list is the second with some members left out.
pub data Sublist : List Json → List Json → Type 0 where
  same : Sublist [] []
  kept : (ev : Json) {xs ys : List Json} → Sublist xs ys → Sublist (ev ∷ xs) (ev ∷ ys)
  left_out : (ev : Json) {xs ys : List Json} → Sublist xs ys → Sublist xs (ev ∷ ys)

kept_last :
    (ev : Json) {xs ys : List Json} → Sublist xs ys → Sublist (xs ++ (ev ∷ [])) (ys ++ (ev ∷ []))
kept_last ev same = kept ev same
kept_last ev (kept x s) = kept x (kept_last ev s)
kept_last ev (left_out x s) = left_out x (kept_last ev s)

left_out_last : (ev : Json) {xs ys : List Json} → Sublist xs ys → Sublist xs (ys ++ (ev ∷ []))
left_out_last ev same = left_out ev same
left_out_last ev (kept x s) = kept x (left_out_last ev s)
left_out_last ev (left_out x s) = left_out x (left_out_last ev s)

events_of-append : (ms ns : List Message) → events_of (ms ++ ns) ≡ events_of ms ++ events_of ns
unfolding events_of
events_of-append [] ns = refl
events_of-append (keep_alive ∷ ms) ns = events_of-append ms ns
events_of-append (instant ev ∷ ms) ns = ap (λ es. ev ∷ es) (events_of-append ms ns)

-- The events written, and those that wait in the channel.
unfoldable pub arrived : Feed → List Json
arrived f = events_of f.sent ++ f.chan.buffer

pub record IsOrdered (f : Feed) : Type 0 where
  pub in_order : Sublist (arrived f) f.offered
  pub counted : length (arrived f) + f.skipped ≡ length f.offered

pumped-IsOrdered : (ev : Json) (f : Feed) → IsOrdered f → IsOrdered (pumped_to ev f)
unfolding pumped_to arrived offer
pumped-IsOrdered ev f o = elim (Bool-cases (ltb (length f.chan.buffer) 32)) [
  | inl room ↦ rw room record {
    in_order =
        subst (λ xs. Sublist xs (f.offered ++ (ev ∷ [])))
          (append_assoc (events_of f.sent) f.chan.buffer (ev ∷ [])) (kept_last ev o.in_order);
    counted = omega (
      arith,
      o.counted,
      length-append (events_of f.sent) f.chan.buffer,
      length-append (events_of f.sent) (f.chan.buffer ++ (ev ∷ [])),
      length-append f.chan.buffer (ev ∷ []),
      length-append f.offered (ev ∷ []),
    );
  }
  | inr full ↦ rw full record {
    in_order = left_out_last ev o.in_order;
    counted = omega (arith, o.counted, length-append f.offered (ev ∷ []));
  }
]

arrived-receive :
    (ev : Json) (rest : List Json) (f : Feed)
    → f.chan.buffer ≡ ev ∷ rest
    → arrived (receive ev rest f) ≡ arrived f
unfolding arrived receive events_of
arrived-receive ev rest f e =
    ap (λ es. es ++ rest) (events_of-append f.sent (instant ev ∷ []))
    ∙ (append_assoc (events_of f.sent) (ev ∷ []) rest ∙ ap (λ b. events_of f.sent ++ b) (sym e))

arrived-tick : (f : Feed) → arrived (tick f) ≡ arrived f
unfolding arrived tick events_of
arrived-tick f =
    ap (λ es. es ++ f.chan.buffer)
      (events_of-append f.sent (keep_alive ∷ []) ∙ append-nil (events_of f.sent))

moved-IsOrdered :
    (f g : Feed)
    → arrived g ≡ arrived f
    → g.offered ≡ f.offered
    → g.skipped ≡ f.skipped
    → IsOrdered f
    → IsOrdered g
moved-IsOrdered f g a o s h = record {
  in_order = rw (a, o) h.in_order;
  counted = rw (a, o, s) h.counted;
}

Turn-IsOrdered : {f g : Feed} → Turn f g → IsOrdered f → IsOrdered g
unfolding receive tick leave lose arrived
Turn-IsOrdered (pumped ev f going) o = pumped-IsOrdered ev f o
Turn-IsOrdered (closing f) o = record { in_order = o.in_order; counted = o.counted }
Turn-IsOrdered (ticked f on) o = moved-IsOrdered f (tick f) (arrived-tick f) refl refl o
Turn-IsOrdered (received ev rest f on e) o =
    moved-IsOrdered f (receive ev rest f) (arrived-receive ev rest f e) refl refl o
Turn-IsOrdered (drained f on shut empty) o = record { in_order = o.in_order; counted = o.counted }
Turn-IsOrdered (gone f on) o = record { in_order = o.in_order; counted = o.counted }

Turns-IsOrdered : {f g : Feed} → Turns f g → IsOrdered f → IsOrdered g
Turns-IsOrdered (stay f) o = o
Turns-IsOrdered (turn t ts) o = Turns-IsOrdered ts (Turn-IsOrdered t o)

first_feed : (key : ℕ) → IsOrdered (subscribed_feed key)
unfolding subscribed_feed events_of arrived
first_feed key = record { in_order = same; counted = omega arith }

-- Whatever the order of the steps, the events that were written and those that wait in the channel are
-- those that the query offered since the subscription, in the same order, with none twice, and as many
-- are left out as the offers that found the channel full: none is lost where the client keeps up.
pub subscribed_feed-IsOrdered : (key : ℕ) (f : Feed) → Turns (subscribed_feed key) f → IsOrdered f
subscribed_feed-IsOrdered key f run = Turns-IsOrdered run (first_feed key)

-- Of a feed that the query has closed: each later state waits for the same events, and where the loop has
-- returned with its client still there, the channel is empty.
record Drains (f g : Feed) : Type 0 where
  shut : g.closed ≡ true
  alike : arrived g ≡ arrived f
  empty : g.returned ≡ true → g.client_gone ≡ false → g.chan.buffer ≡ []

not_returned : {b : Bool} {A : Type 0} → b ≡ false → b ≡ true → A
not_returned off on = absurd (cc)

Turn-Drains : {f g h : Feed} → Turn g h → Drains f g → Drains f h
unfolding receive tick leave lose arrived
Turn-Drains (pumped ev g going) d = not_returned going d.shut
Turn-Drains (closing g) d = record { shut = refl; alike = d.alike; empty = d.empty }
Turn-Drains (ticked g on) d = record {
  shut = d.shut;
  alike = arrived-tick g ∙ d.alike;
  empty = λ r c. not_returned on r;
}
Turn-Drains (received ev rest g on e) d = record {
  shut = d.shut;
  alike = arrived-receive ev rest g e ∙ d.alike;
  empty = λ r c. not_returned on r;
}
Turn-Drains (drained g on shut e) d = record { shut = shut; alike = d.alike; empty = λ r c. e }
Turn-Drains (gone g on) d = record {
  shut = d.shut;
  alike = d.alike;
  empty = λ r c. not_returned c refl;
}

Turns-Drains : {f g h : Feed} → Turns g h → Drains f g → Drains f h
Turns-Drains (stay g) d = d
Turns-Drains (turn t ts) d = Turns-Drains ts (Turn-Drains t d)

-- The run of the loop that writes what waits and returns.
drain_run :
    (waiting : List Json) (f : Feed)
    → f.chan.buffer ≡ waiting
    → f.closed ≡ true
    → f.returned ≡ false
    → (g : Feed) × Turns f g × (g.returned ≡ true) × (g.client_gone ≡ f.client_gone)
unfolding receive leave
drain_run [] f e shut on = (leave f, turn (drained f on shut e) (stay _), refl, refl)
drain_run (ev ∷ rest) f e shut on =
    let (g, run, back, there) = drain_run rest (receive ev rest f) refl shut on in
    (g, turn (received ev rest f on e) run, back, there)

-- From any state in which the query has closed the channel and the client is still there, the loop has a
-- run that returns without losing the client; and whatever the order of the steps, each run that returns
-- so has written every event that waited in the channel.
pub Turns-drained :
    (f : Feed)
    → f.closed ≡ true
    → f.returned ≡ false
    → f.client_gone ≡ false
    → ((g : Feed) × Turns f g × (g.returned ≡ true) × (g.client_gone ≡ false))
      × ((g : Feed)
          → Turns f g
          → g.returned ≡ true
          → g.client_gone ≡ false
          → events_of g.sent ≡ arrived f)
unfolding arrived
Turns-drained f shut on there =
    let (g, run, back, same_client) = drain_run f.chan.buffer f refl shut on in
    (
      (g, run, back, same_client ∙ there),
      λ h ts r c.
          let d =
            Turns-Drains {f = f} ts
              (record { shut = shut; alike = refl; empty = λ b k. not_returned on b }) in
          sym (append-nil (events_of h.sent))
          ∙ (ap (λ b. events_of h.sent ++ b) (sym (d.empty r c)) ∙ d.alike),
    )
