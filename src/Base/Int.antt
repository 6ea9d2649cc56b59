-- ===== src/Base/Int.antt =====
-- Go's `int` and `int64` as integers, and the decimal forms that strconv reads and writes.
use Prim.Native.Char.{Char, code}
use Prim.Native.Nat.{ℕ, zero, suc, ◌+◌, ◌-◌, ◌*◌, ◌/◌, ◌%◌, ◌^◌}
use Prim.Native.String.{String}
use mathlib.Core.Path.{◌≡◌, refl}
use mathlib.Core.Bool.{Bool, true, false}
use mathlib.Core.Option.{Option, none, some}
use mobility_api.Base.Tests.{ltb, leb, eqb, if◌then◌else◌}
use mobility_api.Base.Text.{is_digit, is_nil, all_codes}

-- `negsuc n` is -(n + 1).
pub data ℤ : Type 0 where
  pos : ℕ → ℤ
  negsuc : ℕ → ℤ

-- The bounds of a 64-bit integer: at most max_int64, at least -max_int64 - 1.
abbrev pub max_int64 : ℕ
max_int64 = 2 ^ 63 - 1

unfoldable pub digit : ℕ → Char
digit zero = "0"
digit (suc zero) = "1"
digit (suc (suc zero)) = "2"
digit (suc (suc (suc zero))) = "3"
digit (suc (suc (suc (suc zero)))) = "4"
digit (suc (suc (suc (suc (suc zero))))) = "5"
digit (suc (suc (suc (suc (suc (suc zero)))))) = "6"
digit (suc (suc (suc (suc (suc (suc (suc zero))))))) = "7"
digit (suc (suc (suc (suc (suc (suc (suc (suc zero)))))))) = "8"
digit _ = "9"

-- The decimal digits of a positive number in front of `out`; the fuel bounds the rounds.
unfoldable pub emit : ℕ → ℕ → String → String
emit zero n out = out
emit (suc fuel) n out =
    let longer = emit fuel (n / 10) (String.◌∷◌ (digit (n % 10)) out) in
    if eqb n 0 then out else longer

unfoldable pub format_nat : ℕ → String
unfolding emit digit
format_nat n = if eqb n 0 then "0" else emit n n String.[]

-- strconv.Itoa and strconv.FormatInt(n, 10)
unfoldable pub itoa : ℤ → String
unfolding format_nat
itoa (pos n) = format_nat n
itoa (negsuc n) = String.◌∷◌ "-" (format_nat (suc n))

-- The number that a text of digits denotes, read on from `acc`.
unfoldable pub scan : ℕ → String → ℕ
scan acc String.[] = acc
scan acc (String.◌∷◌ c s) = scan (acc * 10 + (code c - b'0')) s

unfoldable pub parse_nat : String → Option ℕ
unfolding scan
parse_nat s = if is_nil s then none else if all_codes is_digit s then some (scan 0 s) else none

unfoldable pub within : ℕ → (ℕ → ℤ) → Option ℕ → Option ℤ
within bound f none = none
within bound f (some n) = if leb n bound then some (f n) else none

unfoldable pub negate : ℕ → ℤ
negate zero = pos 0
negate (suc n) = negsuc n

-- strconv.Atoi and strconv.ParseInt(s, 10, 64): an optional sign, digits, and the 64-bit range.
unfoldable pub atoi : String → Option ℤ
unfolding within negate parse_nat
atoi String.[] = none
atoi (String.◌∷◌ c s) =
    if eqb (code c) b'-'
    then within (suc max_int64) negate (parse_nat s)
    else if eqb (code c) b'+'
    then within max_int64 pos (parse_nat s)
    else within max_int64 pos (parse_nat (String.◌∷◌ c s))

-- a - b
unfoldable pub minus : ℕ → ℕ → ℤ
minus a b = if leb b a then pos (a - b) else negsuc (b - a - 1)

-- a < b and a <= b
abbrev pub is_before : ℤ → ℤ → Bool
is_before (pos a) (pos b) = ltb a b
is_before (pos a) (negsuc b) = false
is_before (negsuc a) (pos b) = true
is_before (negsuc a) (negsuc b) = ltb b a

-- a + n
unfoldable pub plus : ℤ → ℕ → ℤ
unfolding minus
plus (pos a) n = pos (a + n)
plus (negsuc a) n = minus n (suc a)

-- 0 < n
abbrev pub is_positive : ℤ → Bool
is_positive (pos zero) = false
is_positive (pos (suc n)) = true
is_positive (negsuc n) = false

int_tests :
    (itoa (pos 4326) ≡ "4326")
    × (itoa (negsuc 9) ≡ "-10")
    × (atoi "-10" ≡ some (negsuc 9))
    × (atoi "9223372036854775807" ≡ some (pos max_int64))
    × (atoi "9223372036854775808" ≡ none)
    × (atoi "12a" ≡ none)
    × (atoi "-0" ≡ some (pos 0))
    × (atoi "+" ≡ none)
unfolding itoa atoi
int_tests = (refl, refl, refl, refl, refl, refl, refl, refl)
