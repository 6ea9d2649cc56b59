-- ===== src/Routes/Paths.antt =====
-- The paths of the channels, apart into their segments.
use Prim.Native.String.{◌++◌}
use text.Mathlib.TextLemmas.{nil-append, cons-append, append_assoc}
use mobility_api.Base.{
  ℕ, suc, String, ◌≡◌, refl, ◌∙◌, ap, Bool, true, false, not, ◌||◌, List, [], ◌∷◌, All, arith, eqb,
}
use mobility_api.Base.Text.{is_nil, split, all_codes, is_digit, between}
use mobility_api.Base.Split.{all_codes_weaken, split-append}
use mobility_api.Base.Int.{ℤ, pos, negsuc, itoa, format_nat}
use mobility_api.Base.Decimal.{IsDecimal, format_nat-IsDecimal}
use mobility_api.Routes.{segments}

-- The characters of a path that are read as they are.
unfoldable pub is_plain : ℕ → Bool
is_plain c =
    between b'a' b'z' c || (between b'A' b'Z' c || (is_digit c || (eqb c b'_' || eqb c b'-')))

-- One segment of a path that is read as it is.
unfoldable pub IsSegment : String → Type 0
unfolding is_plain
IsSegment s = (is_nil s ≡ false) × (all_codes is_plain s ≡ true)

no_slash : (c : ℕ) → is_plain c ≡ true → not (eqb c b'/') ≡ true
unfolding is_plain
no_slash c h = ground arith

digit_plain : (c : ℕ) → is_digit c ≡ true → is_plain c ≡ true
unfolding is_plain
digit_plain c h = ground arith

pub digits_plain : (s : String) → all_codes is_digit s ≡ true → all_codes is_plain s ≡ true
digits_plain s h = all_codes_weaken is_digit is_plain digit_plain s h

pub itoa-IsSegment : (n : ℤ) → IsSegment (itoa n)
unfolding IsSegment itoa IsDecimal is_plain
itoa-IsSegment (pos n) =
    let (filled, digits, value) = format_nat-IsDecimal n in
    (filled, digits_plain (format_nat n) digits)
itoa-IsSegment (negsuc n) =
    let (filled, digits, value) = format_nat-IsDecimal (suc n) in
    (refl, digits_plain (format_nat (suc n)) digits)

-- The path with these segments.
unfoldable pub path_of : List String → String
path_of [] = ""
path_of (s ∷ ss) = "/" ++ (s ++ path_of ss)

split-path_of : (ss : List String) → All IsSegment ss → split b'/' (path_of ss) ≡ "" ∷ ss
unfolding path_of IsSegment split
split-path_of [] h = refl
split-path_of (s ∷ ss) h =
    rw
      (
        cons-append "/" "" (s ++ path_of ss),
        nil-append (s ++ path_of ss),
        split-append b'/' s (path_of ss) ss
            (all_codes_weaken is_plain (λ c. not (eqb c b'/')) no_slash s h.0.1)
            (split-path_of ss h.1),
      )
      refl

-- A literal between two slashes, and one behind a slash, apart.
pub between_slashes : (s x : String) → (("/" ++ s) ++ "/") ++ x ≡ "/" ++ (s ++ ("/" ++ x))
between_slashes s x = append_assoc ("/" ++ s) "/" x ∙ append_assoc "/" s ("/" ++ x)

module _ (cid fid id : String) where
  pub property_channel :
      (pname : String)
      → (("/collections/"
              ++ (cid ++ ("/items/" ++ (fid ++ ("/tproperties/" ++ (pname ++ "/queries"))))))
            ++ ("/" ++ id))
          ++ "/stream"
        ≡ path_of (
            "collections" ∷ cid ∷ "items" ∷ fid ∷ "tproperties" ∷ pname ∷ "queries" ∷ id ∷ "stream"
            ∷ [])
  unfolding path_of
  property_channel pname =
      let last = pname ++ ("/queries" ++ ("/" ++ (id ++ "/stream"))) in
      let middle = fid ++ ("/tproperties/" ++ last) in
      simp append_assoc (
        between_slashes "collections" (cid ++ ("/items/" ++ middle))
        ∙ ap (λ x. "/" ++ ("collections" ++ ("/" ++ (cid ++ x))))
            (between_slashes "items" middle
              ∙ ap (λ x. "/" ++ ("items" ++ ("/" ++ (fid ++ x))))
                  (between_slashes "tproperties" last
                    ∙ ap (λ x. "/" ++ ("tproperties" ++ ("/" ++ (pname ++ x))))
                        (append_assoc "/" "queries" ("/" ++ (id ++ "/stream"))))))

  pub geometry_channel :
      (("/collections/" ++ (cid ++ ("/items/" ++ (fid ++ "/tgsequence/queries")))) ++ ("/" ++ id))
        ++ "/stream"
      ≡ path_of
          ("collections" ∷ cid ∷ "items" ∷ fid ∷ "tgsequence" ∷ "queries" ∷ id ∷ "stream" ∷ [])
  unfolding path_of
  geometry_channel =
      let last = "/" ++ (id ++ "/stream") in
      let middle = fid ++ ("/tgsequence/queries" ++ last) in
      simp append_assoc (
        between_slashes "collections" (cid ++ ("/items/" ++ middle))
        ∙ ap (λ x. "/" ++ ("collections" ++ ("/" ++ (cid ++ x))))
            (between_slashes "items" middle
              ∙ ap (λ x. "/" ++ ("items" ++ ("/" ++ (fid ++ x))))
                  (append_assoc "/tgsequence/" "queries" last
                    ∙ between_slashes "tgsequence" ("queries" ++ last))))

pub segments-path_of : (ss : List String) → All IsSegment ss → segments (path_of ss) ≡ ss
unfolding segments
segments-path_of ss h = rw (split-path_of ss h, segments) refl
