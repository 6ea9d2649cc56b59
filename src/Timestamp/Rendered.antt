-- ===== src/Timestamp/Rendered.antt =====
-- What is rendered once stays as it is.
use Prim.Native.Char.{Char}
use mobility_api.Base.{
  ℕ, zero, suc, String, ◌≡◌, refl, Bool, true, false, none, some, arith, ◌⊎◌, inl, inr, Bool-cases,
  ◌*◌, ◌/◌, ◌%◌, ◌≤◌, ◌<◌,
}
use mobility_api.Base.Time.{
  Moment, ZoneForm, short, colon, z_colon, parse_time, then_read, zone, short_zone, colon_zone,
  ended_step, ended, sign, zone_of,
}
use mobility_api.Base.Time.Print.{format_time, print_zone, padded}
use mobility_api.Base.Time.ReadBack.{
  IsMoment, IsOffset, in_zone, parts-format_time, parts_no_space, parse_time-format_time,
  zone-print_zone, ended_day, in_range-fixed, sign_plus, sign_minus,
}
use mobility_api.Base.Text.{is_nil}
use mobility_api.Timestamp.Postgres.{print_pg, rfc3339-print_pg}
use mobility_api.Timestamp.{render, rfc3339, pg_timestamp_layouts}

no_space :
    (form : ZoneForm) (m : Moment) → IsMoment m → parse_time false form (format_time m) ≡ none
unfolding parse_time ended_step
no_space form m h = rw (parts_no_space form m h) refl

short_zone-padded :
    (c : Char) (west : Bool) (hr : ℕ) (out : String)
    → ((s : String) → sign (String.◌∷◌ c s) ≡ some (west, s))
    → hr ≤ 24
    → short_zone (String.◌∷◌ c (padded 2 hr out)) ≡ some (zone_of west (hr * 60), out)
unfolding short_zone then_read
short_zone-padded c west hr out signed h =
    rw (signed (padded 2 hr out), in_range-fixed 0 24 hr out (omega arith) h (omega (arith, h)))
      refl

hours_of : (n : ℕ) → n < 1500 → n / 60 ≤ 24
hours_of n h = omega (arith, h)

-- An hour-only zone leaves the minutes unread.
short_refused :
    (m : Moment) (west : Bool) (n : ℕ)
    → IsOffset west n
    → ended_step (then_read (zone short (print_zone west n)) (in_zone m)) ≡ none
unfolding zone print_zone ended_step then_read short_zone sign in_zone ended
short_refused m west zero h = refl
short_refused m true (suc n) h =
    rw
      (short_zone-padded "-" true (suc n / 60) (String.◌∷◌ ":" (padded 2 (suc n % 60) ""))
        sign_minus (hours_of (suc n) h))
      refl
short_refused m false (suc n) h =
    rw
      (short_zone-padded "+" false (suc n / 60) (String.◌∷◌ ":" (padded 2 (suc n % 60) ""))
        sign_plus (hours_of (suc n) h))
      refl

-- The layout without Z takes each zone but that of UTC.
colon_either :
    (west : Bool) (n : ℕ)
    → IsOffset west n
    → (zone colon (print_zone west n) ≡ none)
      ⊎ (zone colon (print_zone west n) ≡ some ((west, n), ""))
unfolding zone print_zone colon_zone sign then_read
colon_either west zero h = inl refl
colon_either true (suc n) h = inr (zone-print_zone true (suc n) h)
colon_either false (suc n) h = inr (zone-print_zone false (suc n) h)

module _ (m : Moment) (h : IsMoment m) where
  short_layout : parse_time true short (format_time m) ≡ none
  unfolding parse_time
  short_layout = rw (parts-format_time short m h) (short_refused m m.west m.offset h.zone_hours)

  colon_layout :
      (parse_time true colon (format_time m) ≡ none)
      ⊎ (parse_time true colon (format_time m) ≡ some m)
  unfolding parse_time ended_step then_read in_zone
  colon_layout = elim (colon_either m.west m.offset h.zone_hours) [
    | inl refused ↦ inl (rw (parts-format_time colon m h, refused) refl)
    | inr taken ↦ inr (rw (parts-format_time colon m h, taken) (ended_day m h))
  ]

  rendered : render pg_timestamp_layouts (format_time m) ≡ format_time m
  unfolding render
  rendered =
      rw (no_space short m h, no_space colon m h, short_layout)
        (elim colon_layout [
          | inl refused ↦ rw (refused, no_space z_colon m h, parse_time-format_time m h) refl
          | inr taken ↦ rw taken refl
        ])

rfc3339_rendered : (m : Moment) → IsMoment m → rfc3339 (format_time m) ≡ format_time m
unfolding rfc3339
rfc3339_rendered m h = elim (Bool-cases (is_nil (format_time m))) [
  | inl empty ↦ rw empty refl
  | inr other ↦ rw other (rendered m h)
]

-- What PostgreSQL prints for a moment of the calendar, in a zone of whole hours, is rendered as a text from
-- which time.Parse with the layout of RFC 3339 reads the same date, time of day, nanoseconds and zone; and
-- that text is rendered again as itself.
pub rfc3339-format_time :
    (m : Moment)
    → IsMoment m
    → m.offset % 60 ≡ 0
    → (rfc3339 (print_pg m) ≡ format_time m)
      × (parse_time true z_colon (rfc3339 (print_pg m)) ≡ some m)
      × (rfc3339 (rfc3339 (print_pg m)) ≡ rfc3339 (print_pg m))
rfc3339-format_time m h whole =
    let e = rfc3339-print_pg m h whole in
    (e, rw e (parse_time-format_time m h), rw e (rfc3339_rendered m h))
