-- ===== src/Stream/Closing.antt =====
-- The channels of a query's subscribers: each is closed at most once, and none is sent on after.
use mathlib.Core.List
use mobility_api.Base.{
  ℕ, suc, ◌+◌, ◌<◌, ◌≡◌, refl, true, List, [], ◌∷◌, ltb, eqb, eqb_iff, arith, Bool-cases,
  if◌then◌else◌, ◌≢◌, inl, inr,
}
use mobility_api.Base.Json.{Json}
use mobility_api.Stream.Fanout.{
  Chan, offer, offer_all, keys_of, has_key, drop_key, Subscribers, pump_event, pump_end, subscribe,
  unsubscribe, Step, pumped, ended, subscribed, unsubscribed, Reachable, start, step,
}

-- How often a key stands in a list, and among channels.
abbrev pub times : ℕ → List ℕ → ℕ
times k [] = 0
times k (j ∷ js) = if eqb j k then suc (times k js) else times k js

abbrev open_times : ℕ → List (Chan Json) → ℕ
open_times k [] = 0
open_times k (ch ∷ chs) = if eqb ch.key k then suc (open_times k chs) else open_times k chs

times-append : (k : ℕ) (xs ys : List ℕ) → times k (List.◌++◌ xs ys) ≡ times k xs + times k ys
times-append k [] ys = omega arith
times-append k (x ∷ xs) ys = ground (arith, times-append k xs ys)

times-keys_of : (k : ℕ) (chs : List (Chan Json)) → times k (keys_of chs) ≡ open_times k chs
unfolding keys_of
times-keys_of k [] = refl
times-keys_of k (ch ∷ chs) = rw (times-keys_of k chs) refl

open_times-offer_all :
    (k capacity : ℕ) (ev : Json) (chs : List (Chan Json))
    → open_times k (offer_all capacity ev chs) ≡ open_times k chs
unfolding offer_all offer
open_times-offer_all k capacity ev [] = refl
open_times-offer_all k capacity ev (ch ∷ chs) =
    ground (arith, open_times-offer_all k capacity ev chs)

has_key-open : (k : ℕ) (chs : List (Chan Json)) → has_key k chs ≡ true → 0 < open_times k chs
unfolding has_key
has_key-open k [] h = absurd (cc)
has_key-open k (ch ∷ chs) h = ground (arith, has_key-open k chs)

drop_key-gone : (k : ℕ) (chs : List (Chan Json)) → open_times k (drop_key k chs) ≡ 0
unfolding drop_key
drop_key-gone k [] = refl
drop_key-gone k (ch ∷ chs) = ground (arith, drop_key-gone k chs)

drop_key-others :
    (k j : ℕ) (chs : List (Chan Json)) → j ≢ k → open_times j (drop_key k chs) ≡ open_times j chs
unfolding drop_key
drop_key-others k j [] h = refl
drop_key-others k j (ch ∷ chs) h = ground (arith, drop_key-others k j chs h)

-- A channel that was made is open or was closed, once in all; no other is either. After the stop none
-- is open.
pub record IsClean (cq : Subscribers) : Type 0 where
  pub once : (k : ℕ) → open_times k cq.subs + times k cq.closed ≡ (if ltb k cq.made then 1 else 0)
  pub none_open : cq.stopped ≡ true → cq.subs ≡ []

pump_event-IsClean : (ev : Json) (cq : Subscribers) → IsClean cq → IsClean (pump_event ev cq)
unfolding pump_event offer_all
pump_event-IsClean ev cq clean = record {
  once = λ k. rw (open_times-offer_all k 32 ev cq.subs) (clean.once k);
  none_open = λ e. rw (clean.none_open e) refl;
}

pump_end-IsClean : (cq : Subscribers) → IsClean cq → IsClean (pump_end cq)
unfolding pump_end
pump_end-IsClean cq clean = record {
  once = λ k.
      omega
        (arith, clean.once k, times-append k cq.closed (keys_of cq.subs), times-keys_of k cq.subs);
  none_open = λ e. refl;
}

subscribe-IsClean : (cq : Subscribers) → IsClean cq → IsClean (subscribe cq)
unfolding subscribe
subscribe-IsClean cq clean = elim (Bool-cases cq.stopped) [
  | inl e ↦ rw e record {
    once = λ k. ground (arith, clean.once k, times-append k cq.closed (cq.made ∷ []));
    none_open = λ h. clean.none_open e;
  }
  | inr e ↦ rw e record { once = λ k. ground (arith, clean.once k); none_open = λ h. absurd (cc) }
]

unsubscribe-once :
    (k j : ℕ) (cq : Subscribers)
    → IsClean cq
    → has_key k cq.subs ≡ true
    → open_times j (drop_key k cq.subs) + times j (List.◌++◌ cq.closed (k ∷ []))
      ≡ (if ltb j cq.made then 1 else 0)
unsubscribe-once k j cq clean h = elim (Bool-cases (eqb k j)) [
  | inl e ↦ rw (← (eqb_iff k j).0 e) (
      ground (
        arith,
        clean.once k,
        has_key-open k cq.subs h,
        drop_key-gone k cq.subs,
        times-append k cq.closed (k ∷ []),
      ))
  | inr e ↦
      ground
        (arith, e, clean.once j, drop_key-others k j cq.subs, times-append j cq.closed (k ∷ []))
]

unsubscribe-IsClean : (k : ℕ) (cq : Subscribers) → IsClean cq → IsClean (unsubscribe k cq)
unfolding unsubscribe drop_key
unsubscribe-IsClean k cq clean = elim (Bool-cases (has_key k cq.subs)) [
  | inl e ↦ rw e record {
    once = λ j. unsubscribe-once k j cq clean e;
    none_open = λ h. rw (clean.none_open h) refl;
  }
  | inr e ↦ rw e clean
]

Step-IsClean : {cq next : Subscribers} → IsClean cq → Step cq next → IsClean next
Step-IsClean clean (pumped ev cq) = pump_event-IsClean ev cq clean
Step-IsClean clean (ended cq) = pump_end-IsClean cq clean
Step-IsClean clean (subscribed cq) = subscribe-IsClean cq clean
Step-IsClean clean (unsubscribed k cq) = unsubscribe-IsClean k cq clean

-- Whatever the order of the events, of the end of the query and of the subscribers' steps, each channel
-- made is open or was closed, exactly once in all, and no other key is either: no channel is closed
-- twice, and no event is sent on one that is closed. After the end none is open.
pub Reachable-IsClean : (cq : Subscribers) → Reachable cq → IsClean cq
Reachable-IsClean cq start = record { once = λ k. ground arith; none_open = λ e. refl }
Reachable-IsClean cq (step r s) = Step-IsClean (Reachable-IsClean _ r) s
