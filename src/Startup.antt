-- ===== src/Startup.antt =====
-- main.go: main, from the environment to the server's end, and startMQTTIngest of stream_mqtt.go. The
-- opening of an engine, its ping, the walk over the samples, the calls of the MQTT client and the server
-- of the standard library are parameters; the log is not kept.
use Prim.Native.String.{◌++◌}
use mobility_api.Base.{
  ◌≡◌, refl, sym, ◌∙◌, String, Bool, true, false, List, [], ◌∷◌, Option, none, some, any, inl, inr,
  Bool-cases, if◌then◌else◌,
}
use mobility_api.Base.Int.{ℤ, pos, itoa}
use mobility_api.Base.Text.{is_nil}
use mobility_api.Http.{Error, error_text, Result, ok, err}
use mobility_api.Backend.Opening.{env_int}

-- What a run has done, in order.
pub data Step : Type 0 where
  pinged : Step
  emitted : String → Step
  ingesting : String → Step
  disconnected : Step
  listening : String → Step
  shut_down : Step
  closed : Step

-- How a run ends: main returns, which closes the engine, or log.Fatal ends the process with a text.
pub data End : Type 0 where
  returned : End
  fatal : String → End

abbrev Trace : Type 0
Trace = List Step × End

ahead : Step → Trace → Trace
ahead step (steps, end) = (step ∷ steps, end)

-- The calls of main; `serve` is the error that ListenAndServe ends with before a signal comes.
pub record Calls (B : Type 0) : Type 0 where
  pub getenv : String → String
  pub open_backend : String → Result B
  pub ping : B → Option Error
  pub emit_samples : B → String → Option Error
  pub connect : String → String → Option Error
  pub subscribe : String → Option Error
  pub pid : ℤ
  pub serve : String → Option Error

module _ {B : Type 0} (k : Calls B) where
  -- startMQTTIngest; a client that could not subscribe is disconnected, and the tier goes on.
  subscribed : String → Option Error → Trace → Trace
  unfolding ahead
  subscribed broker none later = ahead (ingesting broker) later
  subscribed broker (some e) later = ahead disconnected later

  start_mqtt_ingest : String → Option Error → Trace → Trace
  unfolding subscribed
  start_mqtt_ingest broker (some e) later = later
  start_mqtt_ingest broker none later = subscribed broker (k.subscribe "mfapi/+/+/+") later

  served : Option Error → Trace
  served none = (shut_down ∷ closed ∷ [], returned)
  served (some e) = ([], fatal (error_text e))

  listen : Trace
  unfolding ahead served env_int itoa
  listen =
      let addr = ":" ++ itoa (env_int (k.getenv "MFAPI_PORT") (pos 8088)) in
      ahead (listening addr) (served (k.serve addr))

  with_mqtt : String → Trace
  unfolding start_mqtt_ingest listen itoa
  with_mqtt broker =
      if is_nil broker
      then listen
      else start_mqtt_ingest broker (k.connect broker ("mfapi-" ++ itoa k.pid)) listen

  emission : String → Option Error → Trace
  emission dir (some e) = ([], fatal ("emitting samples: " ++ error_text e))
  emission dir none = (emitted dir ∷ closed ∷ [], returned)

  reached : String → B → Option Error → Trace
  unfolding ahead emission with_mqtt
  reached dir b (some e) = ([], fatal ("db ping: " ++ error_text e))
  reached dir b none = ahead pinged (
      if is_nil dir
      then with_mqtt (k.getenv "MFAPI_MQTT_BROKER")
      else emission dir (k.emit_samples b dir))

  opened : String → Result B → Trace
  unfolding reached
  opened dir (err e) = ([], fatal (error_text e))
  opened dir (ok b) = reached dir b (k.ping b)

  unfoldable pub dsn : String
  dsn =
      if is_nil (k.getenv "MFAPI_DSN")
      then "postgres:///mfapi_demo?host=/tmp&port=5432&user=esteban"
      else k.getenv "MFAPI_DSN"

  -- main, with the directory of the flag -emit.
  unfoldable pub main : String → Trace
  unfolding opened dsn
  main dir = opened dir (k.open_backend dsn)

  unfoldable is_listening : Step → Bool
  is_listening (listening addr) = true
  is_listening pinged = false
  is_listening (emitted dir) = false
  is_listening (ingesting broker) = false
  is_listening disconnected = false
  is_listening shut_down = false
  is_listening closed = false

  emission-quiet : (dir : String) (o : Option Error) → any is_listening (emission dir o).0 ≡ false
  unfolding emission is_listening
  emission-quiet dir none = refl
  emission-quiet dir (some e) = refl

  reached-listens :
      (dir : String) (b : B) (o : Option Error)
      → any is_listening (reached dir b o).0 ≡ true
      → (is_nil dir ≡ true) × (o ≡ none)
  unfolding reached ahead is_listening
  reached-listens dir b (some e) h = absurd (cc)
  reached-listens dir b none h = elim (Bool-cases (is_nil dir)) [
    | inl no_samples ↦ (no_samples, refl)
    | inr asked ↦
        let quiet = emission-quiet dir (k.emit_samples b dir) in
        let k : false ≡ true = sym quiet ∙ (rw asked at h) in absurd (cc)
  ]

  opened-listens :
      (dir : String) (r : Result B)
      → any is_listening (opened dir r).0 ≡ true
      → (is_nil dir ≡ true) × (b : B) × (r ≡ ok b) × (k.ping b ≡ none)
  unfolding opened
  opened-listens dir (err e) h = absurd (cc)
  opened-listens dir (ok b) h =
      let (no_samples, answers) = reached-listens dir b (k.ping b) h in
      (no_samples, b, refl, answers)

  -- The tier listens only where no directory of samples was asked for, on an engine that has answered its
  -- ping.
  main-listens :
      (dir : String)
      → any is_listening (main dir).0 ≡ true
      → (is_nil dir ≡ true) × (b : B) × (k.open_backend dsn ≡ ok b) × (k.ping b ≡ none)
  unfolding main
  main-listens dir h = opened-listens dir (k.open_backend dsn) h
