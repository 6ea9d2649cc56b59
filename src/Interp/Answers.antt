-- ===== src/Interp/Answers.antt =====
-- What mdbInterp answers for each token.
use mobility_api.Base.{ℕ, String, ◌≡◌, ◌⊎◌, arith, eq_iff}
use mobility_api.Http.{Result, ok, err, err_status}
use mobility_api.Interp.{mdb_interp}

-- The tokens that MobilityDB carries, and those that the standard alone names.
abbrev pub IsServed : String → Type 0
IsServed s = (s ≡ "Linear") ⊎ ((s ≡ "Step") ⊎ (s ≡ "Discrete"))

abbrev pub IsOgcOnly : String → Type 0
IsOgcOnly s = (s ≡ "Quadratic") ⊎ ((s ≡ "Cubic") ⊎ (s ≡ "Regression"))

-- A refusal with this status.
abbrev pub Refuses {ℓ} : {A : Type ℓ} → ℕ → Result A → Type 0
Refuses code (ok a) = ⊥
Refuses code (err e) = err_status e 500 ≡ code

-- A token is answered by itself when MobilityDB carries it, by 501 when only the standard names it,
-- and by 400 when the standard does not name it.
pub mdb_interp_classified :
    (s : String)
    → (IsServed s × (mdb_interp s ≡ ok s))
      ⊎ ((IsOgcOnly s × Refuses 501 (mdb_interp s))
          ⊎ ((¬ IsServed s) × (¬ IsOgcOnly s) × Refuses 400 (mdb_interp s)))
unfolding mdb_interp err_status
mdb_interp_classified s = ground (
  arith,
  eq_iff "Linear" s,
  eq_iff "Step" s,
  eq_iff "Discrete" s,
  eq_iff "Quadratic" s,
  eq_iff "Cubic" s,
  eq_iff "Regression" s,
)
