-- ===== src/Base/Float.antt =====
-- float64 values as exact decimals. A value that the tier only reads, stores, compares with zero
-- and writes is carried through unchanged, so the rounding of binary64 plays no part. Of the forms that
-- strconv.ParseFloat takes the model has the decimal ones and the names of the infinities and of NaN, and
-- not the hexadecimal ones.
use Prim.Native.Char.{code}
use Prim.Native.Nat.{ℕ, zero, suc, ◌+◌, ◌-◌, ◌*◌, ◌^◌, ◌/◌, ◌%◌}
use Prim.Native.String.{String, count, ◌++◌}
use mathlib.Core.Path.{◌≡◌, refl}
use mathlib.Core.Bool.{Bool, true, false, ◌||◌}
use mathlib.Core.Option.{Option, none, some}
use text.Mathlib.Text.{◌==◌}
use mobility_api.Base.Tests.{eqb, ltb, if◌then◌else◌}
use mobility_api.Base.Text.{to_lower, take_digits, is_nil}
use mobility_api.Base.Int.{ℤ, pos, negsuc, parse_nat, atoi}

-- `dec s m a b` is ± m * 10 ^ a / 10 ^ b, where `s` says that the sign is minus.
pub data Float : Type 0 where
  dec : Bool → ℕ → ℕ → ℕ → Float
  inf : Bool → Float
  nan : Float

-- Lowest terms: no power of ten on both sides, and no trailing zero over a power of ten.
lowest : ℕ → Bool → ℕ → ℕ → ℕ → Float
lowest zero s m a b = dec s m a b
lowest (suc fuel) s zero a b = dec s 0 0 0
lowest (suc fuel) s (suc m) a zero = dec s (suc m * 10 ^ a) 0 0
lowest (suc fuel) s (suc m) (suc a) (suc b) = lowest fuel s (suc m) a b
lowest (suc fuel) s (suc m) zero (suc b) =
    let shorter = lowest fuel s (suc m / 10) zero b in
    if eqb (suc m % 10) 0 then shorter else dec s (suc m) 0 (suc b)

nat_or_zero : String → ℕ
nat_or_zero s = elim (parse_nat s) [ none ↦ 0 | some n ↦ n ]

-- ErrRange: a number that is rounded to an infinity, from 2 ^ 1024 - 2 ^ 970 on.
finite : Float → Option Float
finite (dec s m a b) =
    if ltb (m * 10 ^ a) ((2 ^ 1024 - 2 ^ 970) * 10 ^ b) then some (dec s m a b) else none
finite (inf s) = some (inf s)
finite nan = some nan

scaled : Bool → ℕ → ℕ → Option ℤ → Option Float
unfolding finite
scaled s m b none = none
scaled s m b (some (pos e)) = finite (lowest (suc (b + e)) s m e b)
scaled s m b (some (negsuc e)) = finite (lowest (suc (b + suc e)) s m 0 (b + suc e))

-- What follows the digits: an exponent, or nothing.
exponent : String → Option ℤ
exponent String.[] = some (pos 0)
exponent (String.◌∷◌ c s) = if eqb (code c) b'e' || eqb (code c) b'E' then atoi s else none

fraction : Bool → String → String → Option Float
fraction neg whole String.[] =
    if is_nil whole then none else scaled neg (nat_or_zero whole) 0 (some (pos 0))
fraction neg whole (String.◌∷◌ c s) =
    if eqb (code c) b'.'
    then (let (part, rest) = take_digits s in
        if is_nil (whole ++ part)
        then none
        else scaled neg (nat_or_zero (whole ++ part)) (count part) (exponent rest))
    else if is_nil whole
    then none
    else scaled neg (nat_or_zero whole) 0 (exponent (String.◌∷◌ c s))

unsigned : Bool → String → Option Float
unsigned neg s =
    if to_lower s == "inf" || to_lower s == "infinity"
    then some (inf neg)
    else (let (whole, rest) = take_digits s in fraction neg whole rest)

-- strconv.ParseFloat(s, 64)
unfoldable pub parse_float : String → Option Float
unfolding unsigned fraction exponent scaled nat_or_zero lowest finite
parse_float String.[] = none
parse_float (String.◌∷◌ c s) =
    if eqb (code c) b'-'
    then unsigned true s
    else if eqb (code c) b'+'
    then unsigned false s
    else if to_lower (String.◌∷◌ c s) == "nan"
    then some nan
    else unsigned false (String.◌∷◌ c s)

float_tests :
    (parse_float "-12.50" ≡ some (dec true 125 0 1))
    × (parse_float "1e3" ≡ some (dec false 1000 0 0))
    × (parse_float "." ≡ none)
    × (parse_float "2.x" ≡ none)
    × (parse_float "Inf" ≡ some (inf false))
    × (parse_float "1e308" ≡ some (dec false (10 ^ 308) 0 0))
    × (parse_float "1e309" ≡ none)
unfolding parse_float to_lower take_digits parse_nat atoi
float_tests = (refl, refl, refl, refl, refl, refl, refl)
