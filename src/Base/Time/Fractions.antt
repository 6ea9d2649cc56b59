-- ===== src/Base/Time/Fractions.antt =====
-- The digits of a time and the fraction of its second, as they are printed and read back.
use Prim.Native.Char.{Char, code}
use Prim.Native.Nat.{ℕ, zero, suc, ◌+◌, ◌-◌, ◌*◌, ◌/◌, ◌%◌, ◌^◌, ◌<◌, ◌≤◌}
use Prim.Native.String.{String}
use mathlib.Core.Logic.{inl, inr}
use mathlib.Core.Path.{◌≡◌, refl, sym, ap, ◌∙◌}
use mathlib.Core.Bool.{Bool, true, false}
use mathlib.Core.Option.{some, none-ne-some}
use native.Mathlib.Omega.{arith}
use mobility_api.Base.Tests.{Bool-cases}
use mobility_api.Base.Text.{is_digit, take_digits, all_codes, is_nil}
use mobility_api.Base.Int.{digit}
use mobility_api.Base.Decimal.{digit-code, digit-is_digit, all-digit}
use mobility_api.Base.Time.{fixed, one_or_two, in_range, frac_value, fraction, with_digits}
use mobility_api.Base.Time.Print.{padded, trimmed, all_zero, print_nanos, print_zone}

fixed-more :
    (k acc : ℕ) (s : String) (v : ℕ) (c : Char) (out : String)
    → fixed k acc s ≡ some (v, String.◌∷◌ c out)
    → is_digit (code c) ≡ true
    → fixed (suc k) acc s ≡ some (v * 10 + (code c - b'0'), out)
unfolding fixed
fixed-more zero acc s v c out h d =
    let e : s ≡ String.◌∷◌ c out = ground arith in
    let f : acc ≡ v = ground arith in rw (e, f, d) refl
fixed-more (suc k) acc String.[] v c out h d = absurd (cc)
fixed-more (suc k) acc (String.◌∷◌ c' s) v c out h d = elim (Bool-cases (is_digit (code c'))) [
  | inl is_one ↦ rw is_one (fixed-more k (acc * 10 + (code c' - b'0')) s v c out (rw is_one at h) d)
  | inr other ↦ absurd (none-ne-some _ (rw other at h))
]

-- k digits are read as they are printed.
pub fixed-padded :
    (k n : ℕ) (out : String) → n < 10 ^ k → fixed k 0 (padded k n out) ≡ some (n, out)
unfolding fixed padded
fixed-padded zero n out h = let e : n ≡ 0 = omega (arith, h) in rw e refl
fixed-padded (suc k) n out h =
    let less : n / 10 < 10 ^ k = omega (arith, h) in
    let d = digit-code (n % 10) (omega arith) in
    let v : (n / 10) * 10 + (code (digit (n % 10)) - b'0') ≡ n = omega (arith, d) in
    fixed-more k 0 (padded k (n / 10) (String.◌∷◌ (digit (n % 10)) out)) (n / 10) (digit (n % 10))
      out (fixed-padded k (n / 10) (String.◌∷◌ (digit (n % 10)) out) less) (digit-is_digit n)
    ∙ ap (λ z. some (z, out)) v

pub in_range-some :
    (lo hi n : ℕ) (s : String) → lo ≤ n → n ≤ hi → in_range lo hi (some (n, s)) ≡ some (n, s)
unfolding in_range
in_range-some lo hi n s a b = ground arith

pub one_or_two-padded :
    (n : ℕ) (out : String) → n < 100 → one_or_two (padded 2 n out) ≡ some (n, out)
unfolding one_or_two
one_or_two-padded n out h = rw (one_or_two, fixed-padded 2 n out h) refl

-- The value of the digits is that of the number that they are read as.
frac_value-fixed :
    (k acc : ℕ) (s : String) (v : ℕ) (out : String)
    → fixed k acc s ≡ some (v, out)
    → acc * 10 ^ k + frac_value k s ≡ v
unfolding fixed frac_value
frac_value-fixed zero acc s v out h = let e : acc ≡ v = ground arith in omega (arith, e)
frac_value-fixed (suc k) acc String.[] v out h = absurd (cc)
frac_value-fixed (suc k) acc (String.◌∷◌ c s) v out h = elim (Bool-cases (is_digit (code c))) [
  | inl is_one ↦
      let rest = frac_value-fixed k (acc * 10 + (code c - b'0')) s v out (rw is_one at h) in
      let tenfold : 10 ^ suc k ≡ 10 * 10 ^ k = omega arith in
      let moved : acc * 10 ^ suc k ≡ acc * (10 * 10 ^ k) = ap (λ p. acc * p) tenfold in
      omega (arith, rest, moved)
  | inr other ↦ absurd (none-ne-some _ (rw other at h))
]

zeros-frac_value : (k : ℕ) (s : String) → all_zero s ≡ true → frac_value k s ≡ 0
unfolding frac_value all_zero
zeros-frac_value zero s h = refl
zeros-frac_value (suc k) String.[] h = refl
zeros-frac_value (suc k) (String.◌∷◌ c s) h =
    let c_zero : code c ≡ b'0' = ground arith in
    let rest : all_zero s ≡ true = ground arith in
    rw (c_zero, zeros-frac_value k s rest) (omega arith)

frac_value-trimmed : (k : ℕ) (s : String) → frac_value k (trimmed s "") ≡ frac_value k s
unfolding trimmed frac_value
frac_value-trimmed zero s = refl
frac_value-trimmed (suc k) String.[] = refl
frac_value-trimmed (suc k) (String.◌∷◌ c s) = elim (Bool-cases (all_zero (String.◌∷◌ c s))) [
  | inl zeros ↦ rw zeros (sym (zeros-frac_value (suc k) (String.◌∷◌ c s) zeros))
  | inr other ↦ rw (other, frac_value-trimmed k s) refl
]

-- The digits are read up to a text that begins with none.
take_digits-trimmed :
    (s out : String)
    → all_codes is_digit s ≡ true
    → take_digits out ≡ ("", out)
    → take_digits (trimmed s out) ≡ (trimmed s "", out)
unfolding trimmed take_digits
take_digits-trimmed String.[] out h t = t
take_digits-trimmed (String.◌∷◌ c s) out h t = elim (Bool-cases (all_zero (String.◌∷◌ c s))) [
  | inl zeros ↦ rw zeros t
  | inr other ↦
      let first : is_digit (code c) ≡ true = ground arith in
      let rest : all_codes is_digit s ≡ true = ground arith in
      rw (other, first, take_digits-trimmed s out rest t) refl
]

take_digits-zone : (west : Bool) (n : ℕ) → take_digits (print_zone west n) ≡ ("", print_zone west n)
unfolding print_zone take_digits
take_digits-zone west zero = refl
take_digits-zone true (suc n) = refl
take_digits-zone false (suc n) = refl

with_digits-some :
    (s ds rest : String)
    → is_nil ds ≡ false
    → with_digits s (ds, rest) ≡ some (frac_value 9 ds, rest)
unfolding with_digits
with_digits-some s String.[] rest h = absurd (cc)
with_digits-some s (String.◌∷◌ c ds) rest h = refl

fraction-none : (west : Bool) (n : ℕ) → fraction (print_zone west n) ≡ some (0, print_zone west n)
unfolding fraction print_zone
fraction-none west zero = refl
fraction-none true (suc n) = refl
fraction-none false (suc n) = refl

all-padded :
    (k n : ℕ) (out : String)
    → all_codes is_digit out ≡ true
    → all_codes is_digit (padded k n out) ≡ true
unfolding padded
all-padded zero n out h = h
all-padded (suc k) n out h =
    all-padded k (n / 10) (String.◌∷◌ (digit (n % 10)) out) (all-digit n out h)

trimmed-nil : (s : String) → is_nil (trimmed s "") ≡ true → all_zero s ≡ true
unfolding trimmed
trimmed-nil String.[] h = refl
trimmed-nil (String.◌∷◌ c s) h = elim (Bool-cases (all_zero (String.◌∷◌ c s))) [
  | inl zeros ↦ zeros
  | inr other ↦ let k : false ≡ true = rw other at h in absurd (cc)
]

trimmed_not_nil : (s : String) → all_zero s ≡ false → is_nil (trimmed s "") ≡ false
trimmed_not_nil s h = elim (Bool-cases (is_nil (trimmed s ""))) [
  | inl empty ↦ let k = trimmed-nil s empty in absurd (cc)
  | inr other ↦ other
]

fraction-trimmed :
    (s out : String)
    → all_codes is_digit s ≡ true
    → take_digits out ≡ ("", out)
    → all_zero s ≡ false
    → fraction (String.◌∷◌ "." (trimmed s out)) ≡ some (frac_value 9 s, out)
unfolding fraction
fraction-trimmed s out h t z =
    rw
      (
        take_digits-trimmed s out h t,
        with_digits-some (String.◌∷◌ "." (trimmed s out)) (trimmed s "") out (trimmed_not_nil s z),
        frac_value-trimmed 9 s,
      )
      refl

print_nanos-zero : (out : String) → print_nanos 0 out ≡ out
unfolding print_nanos
print_nanos-zero out = refl

print_nanos-suc :
    (n : ℕ) (out : String)
    → print_nanos (suc n) out ≡ String.◌∷◌ "." (trimmed (padded 9 (suc n) "") out)
unfolding print_nanos
print_nanos-suc n out = ground arith

frac_value-padded : (n : ℕ) → n < 1000000000 → frac_value 9 (padded 9 n "") ≡ n
frac_value-padded n h =
    let v = frac_value-fixed 9 0 (padded 9 n "") n "" (fixed-padded 9 n "" (omega (arith, h))) in
    omega (arith, v)

not_all_zero : (n : ℕ) → suc n < 1000000000 → all_zero (padded 9 (suc n) "") ≡ false
not_all_zero n h = elim (Bool-cases (all_zero (padded 9 (suc n) ""))) [
  | inl zeros ↦
      let z = zeros-frac_value 9 (padded 9 (suc n) "") zeros in
      let v = frac_value-padded (suc n) h in absurd (omega (arith, sym z ∙ v))
  | inr other ↦ other
]

-- A fraction of a second in front of a text that is none and begins with no digit.
pub fraction_nanos :
    (n : ℕ) (out : String)
    → n < 1000000000
    → fraction out ≡ some (0, out)
    → take_digits out ≡ ("", out)
    → fraction (print_nanos n out) ≡ some (n, out)
fraction_nanos zero out h f t = rw (print_nanos-zero out) f
fraction_nanos (suc n) out h f t = rw (print_nanos-suc n out) (
    fraction-trimmed (padded 9 (suc n) "") out (all-padded 9 (suc n) "" refl) t (not_all_zero n h)
    ∙ ap (λ v. some (v, out)) (frac_value-padded (suc n) h))

pub fraction-print_nanos :
    (n : ℕ) (west : Bool) (offset : ℕ)
    → n < 1000000000
    → fraction (print_nanos n (print_zone west offset)) ≡ some (n, print_zone west offset)
fraction-print_nanos n west offset h =
    fraction_nanos n (print_zone west offset) h (fraction-none west offset)
      (take_digits-zone west offset)
