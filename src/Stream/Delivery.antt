-- ===== src/Stream/Delivery.antt =====
-- What reaches the channels of a hub and of a query, and the order in which a replay sends.

use native.Mathlib.Nat.{suc-mod, mod-lt}
use mobility_api.Base.{
  ℕ, zero, suc, ◌+◌, ◌%◌, ◌<◌, ◌≤◌, ◌≡◌, refl, sym, eq_iff, String, List, [], ◌∷◌, Option, none,
  some, All, length, length-append, lookup, arith, Bool-cases, inl, inr, ◌==◌,
}
use mobility_api.Base.Text.{to_lower, trim_space, is_nil}
use mobility_api.Http.{Result, ok, err}
use mobility_api.Stream.{Instant}
use mobility_api.Stream.Fanout.{Chan, offer, offer_all, accepted}
use mobility_api.Stream.Sources.{replay_index}
use mobility_api.Stream.Registry.{Hub, publish, delivered, set_key}
use mobility_api.Stream.Engines.{
  Env, Engine, Engines, engine_for, engine_named, stream_engine, process_engine, cached_engine,
  select_engine, make_named,
}

-- The records that wait in the channels.
abbrev pub waiting : {E : Type 0} → List (Chan E) → ℕ
waiting [] = 0
waiting (ch ∷ chs) = length ch.buffer + waiting chs

waiting-offer_all :
    {E : Type 0} (capacity : ℕ) (ev : E) (chs : List (Chan E))
    → waiting (offer_all capacity ev chs) ≡ accepted capacity chs + waiting chs
unfolding offer_all offer accepted
waiting-offer_all capacity ev [] = refl
waiting-offer_all capacity ev (ch ∷ chs) =
    ground (arith, waiting-offer_all capacity ev chs, length-append ch.buffer (ev ∷ []))

-- No channel holds more than its capacity.
abbrev Fits : {E : Type 0} → ℕ → List (Chan E) → Type 0
Fits capacity = All (λ ch. length ch.buffer ≤ capacity)

offer_all-Fits :
    {E : Type 0} (capacity : ℕ) (ev : E) (chs : List (Chan E))
    → Fits capacity chs
    → Fits capacity (offer_all capacity ev chs)
unfolding offer_all offer
offer_all-Fits capacity ev [] h = tt
offer_all-Fits capacity ev (ch ∷ chs) h =
    ground (arith, offer_all-Fits capacity ev chs h.1, h.0, length-append ch.buffer (ev ∷ []))

abbrev waiting_at : Option (List (Chan Instant)) → ℕ
waiting_at none = 0
waiting_at (some chs) = waiting chs

-- The records that wait on a key.
abbrev waiting_on : String → Hub → ℕ
waiting_on key h = waiting_at (lookup key h.subs)

lookup-set_key :
    {A : Type 0} (k : String) (v : A) (m : List (String × A)) → lookup k (set_key k v m) ≡ some v
unfolding set_key
lookup-set_key k v [] = rw ((eq_iff k k).1 refl) refl
lookup-set_key k v ((j, w) ∷ m) = elim (Bool-cases (j == k)) [
  | inl e ↦ rw e (rw e refl)
  | inr e ↦ rw e (rw e (lookup-set_key k v m))
]

delivered-counts :
    (key : String) (i : Instant) (o : Option (List (Chan Instant))) (h : Hub)
    → lookup key h.subs ≡ o
    → waiting_on key (delivered key i o h).1 ≡ (delivered key i o h).0 + waiting_at o
unfolding delivered
delivered-counts key i none h e = rw (e, waiting_at) (omega arith)
delivered-counts key i (some chs) h e =
    rw (lookup-set_key key (offer_all 64 i chs) h.subs) (waiting-offer_all 64 i chs)

-- The number that publish answers is that of the records that it added to the channels of the key: the
-- producer is told of exactly the deliveries, and a full channel is passed over.
publish-counts :
    (key : String) (i : Instant) (h : Hub)
    → waiting_on key (publish key i h).1 ≡ (publish key i h).0 + waiting_on key h
unfolding publish
publish-counts key i h = delivered-counts key i (lookup key h.subs) h refl

-- The index of a replay is the number of records sent, modulo those stored: each is sent in turn, and
-- the index is never out of range.
replay_index-mod :
    (len n : ℕ) → 0 < len → (replay_index len n ≡ n % len) × (replay_index len n < len)
unfolding replay_index
replay_index-mod len zero h = ground arith
replay_index-mod len (suc n) h =
    rw (replay_index-mod len n h).0 (sym (suc-mod n len), mod-lt (suc (n % len)) h)

process_engine-once :
    (built again : Result Engine) (o : Option Engine) (es : Engines) (e : Engine)
    → es.process ≡ o
    → (process_engine built o es).0 ≡ ok e
    → process_engine again (process_engine built o es).1.process (process_engine built o es).1
      ≡ (ok e, (process_engine built o es).1)
unfolding process_engine
process_engine-once built again (some d) es e k h = rw k (ground arith)
process_engine-once (ok d) again none es e k h = ground arith
process_engine-once (err x) again none es e k h = absurd (cc)

cached_engine-once :
    (name : String) (built again : Result Engine) (o : Option Engine) (es : Engines) (e : Engine)
    → lookup name es.cache ≡ o
    → (cached_engine name built o es).0 ≡ ok e
    → cached_engine name again
        (lookup name (cached_engine name built o es).1.cache)
        (cached_engine name built o es).1
      ≡ (ok e, (cached_engine name built o es).1)
unfolding cached_engine
cached_engine-once name built again (some d) es e k h = rw k (ground arith)
cached_engine-once name (ok d) again none es e k h = rw ((eq_iff name name).1 refl) (ground arith)
cached_engine-once name (err x) again none es e k h = absurd (cc)

-- An engine that has been given once is given again, whatever the environment is by then, and no second
-- one is built.
engine_for-once :
    (env later : Env) (name : String) (es : Engines) (e : Engine)
    → (engine_for env name es).0 ≡ ok e
    → engine_for later name (engine_for env name es).1 ≡ (ok e, (engine_for env name es).1)
unfolding engine_for engine_named stream_engine
engine_for-once env later name es e h = elim (Bool-cases (is_nil (to_lower (trim_space name)))) [
  | inl b ↦ rw b (
      process_engine-once (select_engine env) (select_engine later) es.process es e refl
        (rw b at h))
  | inr b ↦ rw b (
      cached_engine-once (to_lower (trim_space name)) (make_named env (to_lower (trim_space name)))
        (make_named later (to_lower (trim_space name)))
        (lookup (to_lower (trim_space name)) es.cache) es e refl (rw b at h))
]
