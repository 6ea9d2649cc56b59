-- ===== src/Stream/Events/Wire.antt =====
-- The text of the events against the reading of an event stream that the standard of HTML describes.
use mathlib.Core.List
use Prim.Native.Char.{code}
use Prim.Native.String.{◌++◌}
use text.Mathlib.TextLemmas.{nil-append, cons-append, append_assoc}
use mobility_api.Base.{
  String, ◌≡◌, refl, ap, ◌∙◌, true, false, not, List, [], ◌∷◌, Option, none, some, map, eqb, ◌==◌,
  if◌then◌else◌,
}
use mobility_api.Base.Text.{split, cut, is_nil, join}
use mobility_api.Base.Json.{Json}
use mobility_api.Base.Split.{lacks, split-append}
use mobility_api.Ogcify.{rfc3339_tz}
use mobility_api.Ogcify.Kept.{all_codes-rfc3339_tz}
use mobility_api.Stream.Events.{Message, keep_alive, instant, events_of, frame, wire}

-- The value of a field, without the space in front.
strip : String → String
strip String.[] = ""
strip (String.◌∷◌ c s) = if eqb (code c) 32 then s else String.◌∷◌ c s

-- The type and the lines of data of the event that is being read.
abbrev Partial : Type 0
Partial = String × List String

with_field : Option (String × String) → Partial → Partial
unfolding strip
with_field none p = p
with_field (some (name, value)) (kind, lines) =
    if name == "event"
    then (strip value, lines)
    else if name == "data"
    then (kind, List.◌++◌ lines (strip value ∷ []))
    else (kind, lines)

-- An empty line ends an event; one without data is none.
dispatched : Partial → List (String × String) → List (String × String)
dispatched (kind, []) later = later
dispatched (kind, l ∷ ls) later = (kind, join "\n" (l ∷ ls)) ∷ later

read_lines : Partial → List String → List (String × String)
unfolding dispatched with_field
read_lines p [] = []
read_lines p (l ∷ ls) =
    let ended = dispatched p (read_lines ("", []) ls) in
    let further = read_lines (with_field (cut b':' l) p) ls in if is_nil l then ended else further

-- The events of a stream, as their types and data.
unfoldable pub read_stream : String → List (String × String)
unfolding read_lines
read_stream s = read_lines ("", []) (split b'\n' s)

newline-lines : (s : String) → split b'\n' ("\n" ++ s) ≡ "" ∷ split b'\n' s
unfolding split
newline-lines s = rw (cons-append "\n" "" s, nil-append s) refl

-- A line, and the lines behind it.
line-lines :
    (l s : String) → lacks b'\n' l ≡ true → split b'\n' (l ++ ("\n" ++ s)) ≡ l ∷ split b'\n' s
line-lines l s h = split-append b'\n' l ("\n" ++ s) (split b'\n' s) h (newline-lines s)

empty_stream : read_stream "" ≡ []
unfolding read_stream read_lines split dispatched
empty_stream = refl

module _ (marshal : Json → String) (one_line : (ev : Json) → lacks b'\n' (marshal ev) ≡ true) where
  data_of : Json → String
  data_of ev = rfc3339_tz (marshal ev)

  data_one_line : (ev : Json) → lacks b'\n' ("data: " ++ data_of ev) ≡ true
  unfolding data_of
  data_one_line ev =
      rw
        (
          cons-append "d" "ata: " (rfc3339_tz (marshal ev)),
          cons-append "a" "ta: " (rfc3339_tz (marshal ev)),
          cons-append "t" "a: " (rfc3339_tz (marshal ev)),
          cons-append "a" ": " (rfc3339_tz (marshal ev)),
          cons-append ":" " " (rfc3339_tz (marshal ev)),
          cons-append " " "" (rfc3339_tz (marshal ev)),
          nil-append (rfc3339_tz (marshal ev)),
        )
        (all_codes-rfc3339_tz (λ c. not (eqb c b'\n')) refl refl (marshal ev) (one_line ev))

  frame_text :
      (d s : String)
      → ("event: instant\ndata: " ++ (d ++ "\n\n")) ++ s
        ≡ "event: instant" ++ ("\n" ++ (("data: " ++ d) ++ ("\n" ++ ("\n" ++ s))))
  frame_text d s = simp append_assoc (
      append_assoc "event: instant\n" "data: " (d ++ ("\n\n" ++ s))
      ∙ (append_assoc "event: instant" "\n" ("data: " ++ (d ++ ("\n\n" ++ s)))
          ∙ ap (λ x. "event: instant" ++ ("\n" ++ ("data: " ++ (d ++ x))))
              (append_assoc "\n" "\n" s)))

  frame-lines :
      (ev : Json) (s : String)
      → split b'\n' (frame marshal (instant ev) ++ s)
        ≡ "event: instant" ∷ ("data: " ++ data_of ev) ∷ "" ∷ split b'\n' s
  unfolding frame data_of
  frame-lines ev s =
      ap (split b'\n') (frame_text (data_of ev) s)
      ∙ (line-lines "event: instant" (("data: " ++ data_of ev) ++ ("\n" ++ ("\n" ++ s))) refl
          ∙ ap (λ ls. "event: instant" ∷ ls)
              (line-lines ("data: " ++ data_of ev) ("\n" ++ s) (data_one_line ev)
                ∙ ap (λ ls. ("data: " ++ data_of ev) ∷ ls) (newline-lines s)))

  alive-lines :
      (s : String)
      → split b'\n' (frame marshal keep_alive ++ s) ≡ ": keep-alive" ∷ "" ∷ split b'\n' s
  unfolding frame
  alive-lines s =
      ap (split b'\n')
        (append_assoc ": keep-alive\n" "\n" s ∙ append_assoc ": keep-alive" "\n" ("\n" ++ s))
      ∙ (line-lines ": keep-alive" ("\n" ++ s) refl
          ∙ ap (λ ls. ": keep-alive" ∷ ls) (newline-lines s))

  data-field :
      (ev : Json) (kind : String) (lines : List String)
      → with_field (cut b':' ("data: " ++ data_of ev)) (kind, lines)
        ≡ (kind, List.◌++◌ lines (data_of ev ∷ []))
  unfolding with_field cut strip
  data-field ev kind lines =
      let d = data_of ev in
      rw
        (
          cons-append "d" "ata: " d,
          cons-append "a" "ta: " d,
          cons-append "t" "a: " d,
          cons-append "a" ": " d,
          cons-append ":" " " d,
          cons-append " " "" d,
          nil-append d,
        )
        refl

  event-field : with_field (cut b':' "event: instant") ("", []) ≡ ("instant", [])
  unfolding with_field cut strip
  event-field = refl

  data_filled : (ev : Json) → is_nil ("data: " ++ data_of ev) ≡ false
  data_filled ev = rw (cons-append "d" "ata: " (data_of ev)) refl

  read_stream-frame :
      (ev : Json) (s : String)
      → read_stream (frame marshal (instant ev) ++ s) ≡ ("instant", data_of ev) ∷ read_stream s
  unfolding read_stream read_lines dispatched
  read_stream-frame ev s =
      rw (frame-lines ev s, data_filled ev, event-field, data-field ev "instant" []) refl

  read_stream-alive : (s : String) → read_stream (frame marshal keep_alive ++ s) ≡ read_stream s
  unfolding read_stream read_lines dispatched with_field cut strip
  read_stream-alive s = rw (alive-lines s) refl

  -- A client that reads the text of the loop as the standard describes event streams gets the events
  -- that the loop wrote, each once and in order, as events of the type instant with their JSON as data,
  -- and nothing for the comments of the ticker, where no event is marshalled into more than one line.
  pub read_stream-wire :
      (ms : List Message)
      → read_stream (wire marshal ms)
        ≡ map (λ ev. ("instant", rfc3339_tz (marshal ev))) (events_of ms)
  unfolding wire events_of data_of
  read_stream-wire [] = empty_stream
  read_stream-wire (keep_alive ∷ ms) = read_stream-alive (wire marshal ms) ∙ read_stream-wire ms
  read_stream-wire (instant ev ∷ ms) =
      read_stream-frame ev (wire marshal ms)
      ∙ ap (λ es. ("instant", data_of ev) ∷ es) (read_stream-wire ms)
