-- ===== src/Filters/Interval.antt =====
-- main.go: intervals and placeholders, shared by the filters and the clipping.
use Prim.Native.String.{◌++◌}
use mobility_api.Base.{ℕ, String, Option, none, some, ◌≡◌, refl, if◌then◌else◌}
use mobility_api.Base.Text.{cut, is_nil}
use mobility_api.Base.Int.{pos, itoa}
use mobility_api.Http.{Result, ok, err}

-- The text before and after the first slash, which is not the first character.
proper : Option (String × String) → Option (String × String)
proper none = none
proper (some (s, e)) = if is_nil s then none else some (s, e)

unfoldable pub split_interval : String → Option (String × String)
unfolding proper
split_interval s = proper (cut b'/' s)

module _ {ℓ κ} {A : Type ℓ} {B : Type κ} where
  -- The first error ends a chain of fallible steps.
  abbrev on_ok : (A → Result B) → Result A → Result B
  on_ok next (err e) = err e
  on_ok next (ok a) = next a

  infixl 5 ◌>>=◌
  abbrev pub ◌>>=◌ : Result A → (A → Result B) → Result B
  m >>= next = on_ok next m

  -- What a chain that ends well has gone through.
  pub on_ok_inversion :
      (m : Result A) (next : A → Result B) {end : B}
      → on_ok next m ≡ ok end
      → (mid : A) × (m ≡ ok mid) × (next mid ≡ ok end)
  on_ok_inversion (err e) next h = absurd (cc)
  on_ok_inversion (ok mid) next h = (mid, refl, h)

-- The placeholder of the argument at this place, counted from 1.
abbrev pub placeholder : ℕ → String
placeholder n = "$" ++ itoa (pos n)

abbrev pub interval_text : String → String → String
interval_text s e = "[" ++ (s ++ (", " ++ (e ++ "]")))
