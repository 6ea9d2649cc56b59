-- ===== src/Base/Decimal.antt =====
-- The decimal form of an identifier, written into a link and read back from a request.
use Prim.Native.Char.{Char, code}
use Prim.Native.String.{String}
use mathlib.Core.Logic.{inl, inr}
use Prim.Native.Nat.{ℕ, zero, suc, ◌+◌, ◌/◌, ◌%◌, ◌<◌, ◌≤◌}
use mathlib.Core.Path.{◌≡◌, refl, ap}
use mathlib.Core.Bool.{true, false}
use mathlib.Core.Option.{some}
use native.Mathlib.Omega.{arith}
use mobility_api.Base.Tests.{eqb, Bool-cases, if◌then◌else◌}
use mobility_api.Base.Text.{is_digit, is_nil, all_codes}
use mobility_api.Base.Int.{
  ℤ, pos, negsuc, max_int64, itoa, atoi, digit, emit, scan, parse_nat, format_nat, within, negate,
}

pub digit-code : (k : ℕ) → k < 10 → code (digit k) ≡ b'0' + k
unfolding digit
digit-code zero h = refl
digit-code (suc zero) h = refl
digit-code (suc (suc zero)) h = refl
digit-code (suc (suc (suc zero))) h = refl
digit-code (suc (suc (suc (suc zero)))) h = refl
digit-code (suc (suc (suc (suc (suc zero))))) h = refl
digit-code (suc (suc (suc (suc (suc (suc zero)))))) h = refl
digit-code (suc (suc (suc (suc (suc (suc (suc zero))))))) h = refl
digit-code (suc (suc (suc (suc (suc (suc (suc (suc zero)))))))) h = refl
digit-code (suc (suc (suc (suc (suc (suc (suc (suc (suc zero))))))))) h = refl
digit-code (suc (suc (suc (suc (suc (suc (suc (suc (suc (suc k)))))))))) h =
    absurd (omega (arith, h))

emit-step :
    (fuel n : ℕ) (out : String)
    → eqb n 0 ≡ false
    → emit (suc fuel) n out ≡ emit fuel (n / 10) (String.◌∷◌ (digit (n % 10)) out)
unfolding emit
emit-step fuel n out h = ground arith

emit-zero : (fuel n : ℕ) (out : String) → n ≡ 0 → emit fuel n out ≡ out
unfolding emit
emit-zero zero n out h = refl
emit-zero (suc fuel) n out h = ground arith

emit-none : (n : ℕ) (out : String) → emit 0 n out ≡ out
unfolding emit
emit-none n out = refl

scan-digit : (n : ℕ) (out : String) → scan (n / 10) (String.◌∷◌ (digit (n % 10)) out) ≡ scan n out
unfolding scan
scan-digit n out =
    let d = digit-code (n % 10) (omega arith) in ap (λ z. scan z out) (omega (arith, d))

scan-emit : (fuel n : ℕ) (out : String) → n ≤ fuel → scan 0 (emit fuel n out) ≡ scan n out
scan-emit zero n out h = let e : n ≡ 0 = omega (arith, h) in rw (emit-zero 0 n out e, e) refl
scan-emit (suc fuel) n out h = elim (Bool-cases (eqb n 0)) [
  | inl null ↦ let e : n ≡ 0 = ground arith in rw (emit-zero (suc fuel) n out e, e) refl
  | inr other ↦
      let less : n / 10 ≤ fuel = ground arith in
      rw
        (emit-step fuel n out other, scan-emit fuel (n / 10) (String.◌∷◌ (digit (n % 10)) out) less)
        (scan-digit n out)
]

pub digit-is_digit : (n : ℕ) → is_digit (code (digit (n % 10))) ≡ true
digit-is_digit n =
    let d = digit-code (n % 10) (omega arith) in
    let l : n % 10 < 10 = omega arith in rw d (ground arith)

pub all-digit :
    (n : ℕ) (out : String)
    → all_codes is_digit out ≡ true
    → all_codes is_digit (String.◌∷◌ (digit (n % 10)) out) ≡ true
all-digit n out h = rw (digit-is_digit n, h) refl

all-emit :
    (fuel n : ℕ) (out : String)
    → all_codes is_digit out ≡ true
    → all_codes is_digit (emit fuel n out) ≡ true
all-emit zero n out h = rw (emit-none n out) h
all-emit (suc fuel) n out h = elim (Bool-cases (eqb n 0)) [
  | inl null ↦ let e : n ≡ 0 = ground arith in rw (emit-zero (suc fuel) n out e) h
  | inr other ↦
      rw (emit-step fuel n out other)
        (all-emit fuel (n / 10) (String.◌∷◌ (digit (n % 10)) out) (all-digit n out h))
]

is_nil-emit : (fuel n : ℕ) (out : String) → is_nil out ≡ false → is_nil (emit fuel n out) ≡ false
is_nil-emit zero n out h = rw (emit-none n out) h
is_nil-emit (suc fuel) n out h = elim (Bool-cases (eqb n 0)) [
  | inl null ↦ let e : n ≡ 0 = ground arith in rw (emit-zero (suc fuel) n out e) h
  | inr other ↦
      rw (emit-step fuel n out other)
        (is_nil-emit fuel (n / 10) (String.◌∷◌ (digit (n % 10)) out) refl)
]

-- What makes a text the decimal form of a number.
unfoldable pub IsDecimal : ℕ → String → Type 0
IsDecimal n s = (is_nil s ≡ false) × (all_codes is_digit s ≡ true) × (scan 0 s ≡ n)

emit-IsDecimal : (n : ℕ) → IsDecimal (suc n) (emit (suc n) (suc n) String.[])
unfolding IsDecimal scan
emit-IsDecimal n = (
  rw (emit-step n (suc n) String.[] (ground arith))
      (is_nil-emit n (suc n / 10) (String.◌∷◌ (digit (suc n % 10)) String.[]) refl),
  all-emit (suc n) (suc n) String.[] refl,
  scan-emit (suc n) (suc n) String.[] (omega arith),
)

format_nat-suc : (n : ℕ) → format_nat (suc n) ≡ emit (suc n) (suc n) String.[]
unfolding format_nat
format_nat-suc n = ground arith

pub format_nat-IsDecimal : (n : ℕ) → IsDecimal n (format_nat n)
unfolding format_nat IsDecimal scan
format_nat-IsDecimal zero = (refl, refl, refl)
format_nat-IsDecimal (suc n) = rw (format_nat-suc n) (emit-IsDecimal n)

parse_nat-decimal : (n : ℕ) (s : String) → IsDecimal n s → parse_nat s ≡ some n
unfolding parse_nat IsDecimal
parse_nat-decimal n s (a, b, c) = rw (a, b, c) refl

digit_no_sign :
    {A : Type 0} (k : ℕ) (x y z : A)
    → is_digit k ≡ true
    → (if eqb k b'-' then x else if eqb k b'+' then y else z) ≡ z
digit_no_sign k x y z h = ground arith

first_digit :
    (c : Char) (s : String) → all_codes is_digit (String.◌∷◌ c s) ≡ true → is_digit (code c) ≡ true
first_digit c s h = ground arith

atoi-decimal : (n : ℕ) (s : String) → IsDecimal n s → atoi s ≡ within max_int64 pos (parse_nat s)
unfolding atoi IsDecimal
atoi-decimal n String.[] (a, b, c) = absurd (cc)
atoi-decimal n (String.◌∷◌ c s) (a, b, d) =
    digit_no_sign (code c) (within (suc max_int64) negate (parse_nat s))
      (within max_int64 pos (parse_nat s)) (within max_int64 pos (parse_nat (String.◌∷◌ c s)))
      (first_digit c s b)

atoi-minus : (s : String) → atoi (String.◌∷◌ "-" s) ≡ within (suc max_int64) negate (parse_nat s)
unfolding atoi
atoi-minus s = refl

-- The integers of 64 bits.
unfoldable pub IsInt64 : ℤ → Type 0
IsInt64 (pos n) = n ≤ max_int64
IsInt64 (negsuc n) = n ≤ max_int64

pub atoi-itoa : (z : ℤ) → IsInt64 z → atoi (itoa z) ≡ some z
unfolding itoa IsInt64 within negate
atoi-itoa (pos n) h =
    let d = format_nat-IsDecimal n in
    rw (atoi-decimal n (format_nat n) d, parse_nat-decimal n (format_nat n) d) (ground arith)
atoi-itoa (negsuc n) h =
    let d = format_nat-IsDecimal (suc n) in
    rw (atoi-minus (format_nat (suc n)), parse_nat-decimal (suc n) (format_nat (suc n)) d)
      (ground arith)

pub is_nil-itoa : (z : ℤ) → is_nil (itoa z) ≡ false
unfolding itoa IsDecimal
is_nil-itoa (pos n) = (format_nat-IsDecimal n).0
is_nil-itoa (negsuc n) = refl

pub format_nat-injective : (m n : ℕ) → format_nat m ≡ format_nat n → m ≡ n
format_nat-injective m n h =
    let a = parse_nat-decimal m (format_nat m) (format_nat-IsDecimal m) in
    let b = parse_nat-decimal n (format_nat n) (format_nat-IsDecimal n) in
    let e : some m ≡ some n = cc in ground arith
