-- ===== src/Stream/CatchingUp.antt =====
-- Hopping windows: the loop over the hops that are due ends.

use mobility_api.Base.{
  ℕ, zero, suc, ◌<◌, true, false, List, [], ◌∷◌, ◌≡◌, ◌⊎◌, arith, Bool-cases, inl, inr,
}
use mobility_api.Base.Int.{ℤ}
use mobility_api.Stream.{Instant}
use mobility_api.Stream.Windows.{is_before}
use mobility_api.Stream.Hopping.{Stamped, later, in_window, Hops, since, with_window, due}

-- A hop brings the time of a record that is not before `z` closer.
since-later :
    (t z : ℤ) (hop fuel : ℕ)
    → 0 < hop
    → is_before t z ≡ false
    → since t z < suc fuel
    → (is_before t (later z hop) ≡ true) ⊎ (since t (later z hop) < fuel)
since-later t z hop fuel = ground arith

-- The loop ends: once the fuel exceeds the seconds since the next time to emit at, the time of the
-- record is before the time that the loop stops at.
pub due-caught_up :
    (keep : ℤ → List Stamped → List Stamped) (span hop fuel : ℕ) (t : ℤ) (h : Hops)
    → 0 < hop
    → since t h.next_emit < fuel
    → is_before t (due keep span hop fuel t h).1.next_emit ≡ true
unfolding due
due-caught_up keep span hop zero t h positive enough = absurd (omega arith)
due-caught_up keep span hop (suc fuel) t h positive enough =
    elim (Bool-cases (is_before t h.next_emit)) [
      | inl e ↦ rw e e
      | inr e ↦ rw e (
          with_window_next (in_window span h.next_emit h.buf) _ t
            (elim (since-later t h.next_emit hop fuel positive e enough) [
              | inl past ↦ stays fuel _ past
              | inr less ↦ due-caught_up keep span hop fuel t _ positive less
            ]))
    ]
  where
    with_window_next :
        (win : List Instant) (r : List (List Instant) × Hops) (u : ℤ)
        → is_before u r.1.next_emit ≡ true
        → is_before u (with_window win r).1.next_emit ≡ true
    with_window_next [] r u k = k
    with_window_next (i ∷ is) r u k = k

    stays :
        (f : ℕ) (g : Hops)
        → is_before t g.next_emit ≡ true
        → is_before t (due keep span hop f t g).1.next_emit ≡ true
    stays zero g k = k
    stays (suc f) g k = rw k k
