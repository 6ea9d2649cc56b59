-- ===== src/Ogcify/Kept.antt =====
-- The characters of a text behind rfc3339Tz: those of the text, colons and zeros.
use Prim.Native.Char.{Char, code}
use Prim.Native.Nat.{pred}
use Prim.Native.String.{◌++◌, count}
use text.Mathlib.TextLemmas.{nil-append, cons-append}
use mobility_api.Base.{
  ℕ, zero, suc, String, ◌≡◌, refl, Bool, true, List, [], ◌∷◌, Option, none, some, eqb,
  if◌then◌else◌, Bool-cases, inl, inr,
}
use mobility_api.Base.Text.{all_codes, is_digit, is_nil, take_digits}
use mobility_api.Base.Split.{and_true}
use mobility_api.Ogcify.{
  take_classes, take_time, take_fraction, offset_from, hour_only, complete_from, rfc3339_tz, at_end,
  is_sign, is_colon,
}

module _ (p : ℕ → Bool) where
  abbrev Holds : String → Type 0
  Holds s = all_codes p s ≡ true

  Holds-append : (s t : String) → Holds s → Holds t → Holds (s ++ t)
  Holds-append String.[] t hs ht = rw (nil-append t) ht
  Holds-append (String.◌∷◌ c s) t hs ht =
      let (first, rest) = and_true (p (code c)) (all_codes p s) hs in
      rw (cons-append c s t, first, Holds-append s t rest ht) refl

  abbrev HoldBoth : String × String → Type 0
  HoldBoth r = Holds r.0 × Holds r.1

  abbrev HoldFound : Option (String × String) → Type 0
  HoldFound none = Unit
  HoldFound (some r) = HoldBoth r

  take_classes-HoldFound :
      (ps : List (ℕ → Bool)) (s : String) → Holds s → HoldFound (take_classes ps s)
  unfolding take_classes
  take_classes-HoldFound [] s h = (refl, h)
  take_classes-HoldFound (q ∷ qs) String.[] h = tt
  take_classes-HoldFound (q ∷ qs) (String.◌∷◌ c s) h =
      let (first, rest) = and_true (p (code c)) (all_codes p s) h in
      elim (Bool-cases (q (code c))) [
        | inl taken ↦
            rw taken (in_front c (take_classes qs s) first (take_classes-HoldFound qs s rest))
        | inr other ↦ rw other tt
      ]
    where
      in_front :
          (c : Char) (r : Option (String × String))
          → p (code c) ≡ true
          → HoldFound r
          → HoldFound (elim r [ none ↦ none | some r ↦ some (String.◌∷◌ c r.0, r.1) ])
      in_front c none first h = tt
      in_front c (some r) first h = (rw (first, h.0) refl, h.1)

  take_digits-HoldBoth : (s : String) → Holds s → HoldBoth (take_digits s)
  unfolding take_digits
  take_digits-HoldBoth String.[] h = (refl, refl)
  take_digits-HoldBoth (String.◌∷◌ c s) h =
      let (first, rest) = and_true (p (code c)) (all_codes p s) h in
      let later = take_digits-HoldBoth s rest in
      elim (Bool-cases (is_digit (code c))) [
        | inl digit ↦ rw digit (rw (first, later.0) refl, later.1)
        | inr other ↦ rw other (refl, h)
      ]

  take_fraction-HoldBoth : (s : String) → Holds s → HoldBoth (take_fraction s)
  unfolding take_fraction
  take_fraction-HoldBoth String.[] h = (refl, refl)
  take_fraction-HoldBoth (String.◌∷◌ c s) h =
      let (first, rest) = and_true (p (code c)) (all_codes p s) h in
      let later = take_digits-HoldBoth s rest in
      elim (Bool-cases (eqb (code c) b'.')) [
        | inl dot ↦ elim (Bool-cases (is_nil (take_digits s).0)) [
          | inl empty ↦ rw (dot, empty) (refl, h)
          | inr filled ↦ rw (dot, filled) (rw (first, later.0) refl, later.1)
        ]
        | inr other ↦ rw other (refl, h)
      ]

  abbrev HoldText : Option String → Type 0
  HoldText none = Unit
  HoldText (some s) = Holds s

  offset-HoldText :
      (time part : String) (r : Option (String × String))
      → Holds time
      → Holds part
      → HoldFound r
      → HoldText (elim r [
        | none ↦ none
        | some r ↦ if at_end r.1 then some (time ++ (part ++ r.0)) else none
      ])
  offset-HoldText time part none ht hp h = tt
  offset-HoldText time part (some (sign, rest)) ht hp h = elim (Bool-cases (at_end rest)) [
    | inl end ↦ rw end (Holds-append time (part ++ sign) ht (Holds-append part sign hp h.0))
    | inr more ↦ rw more tt
  ]

  offset_from-HoldText :
      (time : String) (r : String × String)
      → Holds time
      → HoldBoth r
      → HoldText (offset_from time r)
  unfolding offset_from
  offset_from-HoldText time (part, s) ht h =
      offset-HoldText time part (take_classes (is_sign ∷ is_digit ∷ is_digit ∷ []) s) ht h.0
        (take_classes-HoldFound (is_sign ∷ is_digit ∷ is_digit ∷ []) s h.1)

  hour-HoldText :
      (r : Option (String × String))
      → HoldFound r
      → HoldText (elim r [ none ↦ none | some r ↦ offset_from r.0 (take_fraction r.1) ])
  hour-HoldText none h = tt
  hour-HoldText (some (time, s)) h =
      offset_from-HoldText time (take_fraction s) h.0 (take_fraction-HoldBoth s h.1)

  hour_only-HoldText : (s : String) → Holds s → HoldText (hour_only s)
  unfolding hour_only take_time
  hour_only-HoldText s h = hour-HoldText (take_time s) (
      take_classes-HoldFound
        (is_digit ∷ is_digit ∷ is_colon ∷ is_digit ∷ is_digit ∷ is_colon ∷ is_digit ∷ is_digit ∷ [])
        s h)

  module _ (colon : p b':' ≡ true) (null : p b'0' ≡ true) where
    -- `further` holds of what is left of the text, behind so many characters.
    completed-Holds :
        (c : Char) (found : Option String) (further : ℕ → String)
        → p (code c) ≡ true
        → HoldText found
        → ((k : ℕ) → Holds (further k))
        → Holds (elim found [
          | none ↦ String.◌∷◌ c (further zero)
          | some t ↦ t ++ (":00" ++ further (pred (count t)))
        ])
    completed-Holds c none further first h later = rw (first, later zero) refl
    completed-Holds c (some t) further first h later =
        Holds-append t (":00" ++ further (pred (count t))) h (
          Holds-append ":00" (further (pred (count t))) (rw (colon, null) refl)
            (later (pred (count t))))

    complete_from-Holds : (s : String) (k : ℕ) → Holds s → Holds (complete_from k s)
    unfolding complete_from
    complete_from-Holds String.[] k h = refl
    complete_from-Holds (String.◌∷◌ c s) (suc k) h =
        complete_from-Holds s k (and_true (p (code c)) (all_codes p s) h).1
    complete_from-Holds (String.◌∷◌ c s) zero h =
        let (first, rest) = and_true (p (code c)) (all_codes p s) h in
        completed-Holds c (hour_only (String.◌∷◌ c s)) (λ k. complete_from k s) first
          (hour_only-HoldText (String.◌∷◌ c s) h) (λ k. complete_from-Holds s k rest)

    -- What holds of each character of a text, of the colon and of the zero holds of each character that
    -- rfc3339Tz makes of it.
    pub all_codes-rfc3339_tz :
        (s : String) → all_codes p s ≡ true → all_codes p (rfc3339_tz s) ≡ true
    unfolding rfc3339_tz
    all_codes-rfc3339_tz s h = complete_from-Holds s zero h
