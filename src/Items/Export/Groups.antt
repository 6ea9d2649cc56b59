-- ===== src/Items/Export/Groups.antt =====
-- The row groups of a Parquet feed against the rows that it reads.
use mathlib.Core.Path.{subst}
use mathlib.Core.List.{append_assoc, append-nil}
use mobility_api.Base.{
  ℕ, suc, ◌<◌, ◌≤◌, ◌≡◌, refl, sym, ap, ◌∙◌, Bool, true, false, List, [], ◌∷◌, ◌++◌, length,
  length-append, eqb, eqb_iff, All, All-append, concat, concat-snoc, Bool-cases, ◌⊎◌, inl, inr,
  arith, if◌then◌else◌,
}
use mobility_api.Items.Export.{written, last_group, row_groups}

module _ {A : Type 0} where
  -- A group of a file: it has a row, and at most `size`.
  unfoldable IsGroup : ℕ → List A → Type 0
  IsGroup size g = (0 < length g) × (length g ≤ size)

  unfoldable IsFull : ℕ → List A → Type 0
  IsFull size g = length g ≡ size

  -- The groups of a file: each is full, but that the last may have fewer rows.
  unfoldable pub AreGroups : ℕ → List (List A) → Type 0
  unfolding IsGroup
  AreGroups size [] = Unit
  AreGroups size (g ∷ []) = IsGroup size g
  AreGroups size (g ∷ h ∷ gs) = (length g ≡ size) × AreGroups size (h ∷ gs)

  -- The rows left out begin with a group that the writer refused behind those of the file.
  unfoldable pub IsRefused : (List (List A) → List A → Bool) → ℕ → List (List A) → List A → Type 0
  unfolding IsGroup
  IsRefused accepts size gs rest =
      (g : List A) × (more : List A) × (rest ≡ g ++ more) × IsGroup size g × (accepts gs g ≡ false)

  -- The groups are the rows, in order: all of them, or up to a group that is refused.
  unfoldable pub Covers : (List (List A) → List A → Bool) → ℕ → List (List A) → List A → Type 0
  unfolding AreGroups IsRefused
  Covers accepts size gs rows =
      (rest : List A) × (concat gs ++ rest ≡ rows)
      × ((rest ≡ []) ⊎ IsRefused accepts size gs rest)
      × AreGroups size gs

  full-IsGroup : (size : ℕ) (g : List A) → 0 < size → IsFull size g → IsGroup size g
  unfolding IsFull IsGroup
  full-IsGroup size g positive full = (omega (arith, full, positive), omega (arith, full))

  All-AreGroups :
      (size : ℕ) (gs : List (List A)) → 0 < size → All (IsFull size) gs → AreGroups size gs
  unfolding AreGroups IsFull
  All-AreGroups size [] positive full = tt
  All-AreGroups size (g ∷ []) positive full = full-IsGroup size g positive full.0
  All-AreGroups size (g ∷ h ∷ gs) positive full =
      (full.0, All-AreGroups size (h ∷ gs) positive full.1)

  snoc-AreGroups :
      (size : ℕ) (gs : List (List A)) (last : List A)
      → All (IsFull size) gs
      → IsGroup size last
      → AreGroups size (gs ++ (last ∷ []))
  unfolding AreGroups IsFull
  snoc-AreGroups size [] last full g = g
  snoc-AreGroups size (h ∷ []) last full g = (full.0, g)
  snoc-AreGroups size (h ∷ k ∷ gs) last full g =
      (full.0, snoc-AreGroups size (k ∷ gs) last full.1 g)

  module _ (accepts : List (List A) → List A → Bool) (size : ℕ) (positive : 0 < size) where
    -- A group that is refused ends the file behind the full ones before it.
    Covers-refused :
        (done : List (List A)) (batch rows : List A)
        → IsGroup size batch
        → All (IsFull size) done
        → accepts done batch ≡ false
        → Covers accepts size (written accepts done batch) (concat done ++ (batch ++ rows))
    unfolding Covers IsRefused written
    Covers-refused done batch rows g d refused = rw refused (
      batch ++ rows,
      refl,
      inr (batch, rows, refl, g, refused),
      All-AreGroups size done positive d,
    )

    -- The last group, which ends the rows.
    Covers-last :
        (done : List (List A)) (batch : List A)
        → IsGroup size batch
        → All (IsFull size) done
        → Covers accepts size (written accepts done batch) (concat done ++ (batch ++ []))
    unfolding Covers IsRefused written
    Covers-last done batch g d = elim (Bool-cases (accepts done batch)) [
      | inl taken ↦ rw taken (
        [],
        ap (λ h. h ++ []) (concat-snoc done batch) ∙ append_assoc (concat done) batch [],
        inl refl,
        snoc-AreGroups size done batch d g,
      )
      | inr refused ↦ Covers-refused done batch [] g d refused
    ]

    last_group-written :
        (done : List (List A)) (batch : List A)
        → 0 < length batch
        → last_group accepts done batch ≡ written accepts done batch
    unfolding last_group
    last_group-written done [] h = absurd (omega (arith, h))
    last_group-written done (a ∷ batch) h = refl

    -- A full batch, with its row put where it stands among the rows.
    moved :
        (done : List (List A)) (batch : List A) (a : A) (rows : List A)
        → concat done ++ ((batch ++ (a ∷ [])) ++ rows) ≡ concat done ++ (batch ++ (a ∷ rows))
    moved done batch a rows = ap (λ h. concat done ++ h) (append_assoc batch (a ∷ []) rows)

    closed :
        (done : List (List A)) (full rows : List A)
        → concat (done ++ (full ∷ [])) ++ rows ≡ concat done ++ (full ++ rows)
    closed done full rows =
        ap (λ h. h ++ rows) (concat-snoc done full) ∙ append_assoc (concat done) full rows

    more_rows :
        (done : List (List A)) (batch : List A) (a : A) (rows : List A)
        → eqb (length (batch ++ (a ∷ []))) size ≡ false
        → row_groups accepts size done batch (a ∷ rows)
          ≡ row_groups accepts size done (batch ++ (a ∷ [])) rows
    unfolding row_groups
    more_rows done batch a rows h = ground arith

    full_group :
        (done : List (List A)) (batch : List A) (a : A) (rows : List A)
        → eqb (length (batch ++ (a ∷ []))) size ≡ true
        → row_groups accepts size done batch (a ∷ rows) ≡ (
            if accepts done (batch ++ (a ∷ []))
            then row_groups accepts size (done ++ ((batch ++ (a ∷ [])) ∷ [])) [] rows
            else last_group accepts done (batch ++ (a ∷ [])))
    unfolding row_groups
    full_group done batch a rows h = ground arith

    Covers-row_groups :
        (rows : List A) (done : List (List A)) (batch : List A)
        → All (IsFull size) done
        → length batch < size
        → Covers accepts size
            (row_groups accepts size done batch rows)
            (concat done ++ (batch ++ rows))
    unfolding Covers IsRefused IsGroup IsFull row_groups
    Covers-row_groups [] done [] d h = ([], refl, inl refl, All-AreGroups size done positive d)
    Covers-row_groups [] done (b ∷ batch) d h =
        Covers-last done (b ∷ batch) (omega arith, omega (arith, h)) d
    Covers-row_groups (a ∷ rows) done batch d h =
        let full = batch ++ (a ∷ []) in
        let longer : length full ≡ suc (length batch) =
          omega (arith, length-append batch (a ∷ [])) in
        let group : IsGroup size full = (omega (arith, longer), omega (arith, longer, h)) in
        elim (Bool-cases (eqb (length full) size)) [
          | inl is_full ↦
              let d_full =
                All-append (IsFull size) done (full ∷ []) d
                  ((eqb_iff (length full) size).0 is_full, tt) in
              rw (full_group done batch a rows is_full) (elim (Bool-cases (accepts done full)) [
                | inl taken ↦ rw taken (
                    subst
                      (Covers accepts size (row_groups accepts size (done ++ (full ∷ [])) [] rows))
                      (closed done full rows ∙ moved done batch a rows)
                      (Covers-row_groups rows (done ++ (full ∷ [])) [] d_full positive))
                | inr refused ↦
                    rw (refused, last_group-written done full group.0)
                      (subst (Covers accepts size (written accepts done full))
                        (moved done batch a rows) (Covers-refused done full rows group d refused))
              ])
          | inr other ↦ rw (more_rows done batch a rows other) (
              subst (Covers accepts size (row_groups accepts size done full rows))
                (moved done batch a rows)
                (Covers-row_groups rows done full d (ground (arith, longer, h, other))))
        ]

    -- Where a group may have a row, the rows of the file are the rows read, each once and in order, unless
    -- the writer refuses a group: then they are those before that group. Each group of the file is as long
    -- as the process allows, but that the last may be shorter, and none is empty.
    pub row_groups-Covers :
        (rows : List A) → Covers accepts size (row_groups accepts size [] [] rows) rows
    row_groups-Covers rows = Covers-row_groups rows [] [] tt positive

    module _ (always : (done : List (List A)) (g : List A) → accepts done g ≡ true) where
      written_always :
          (done : List (List A)) (g : List A) → written accepts done g ≡ done ++ (g ∷ [])
      unfolding written
      written_always done g = rw (always done g) refl

      concat-groups :
          (rows : List A) (done : List (List A)) (batch : List A)
          → concat (row_groups accepts size done batch rows) ≡ concat done ++ (batch ++ rows)
      unfolding row_groups
      concat-groups [] done [] = sym (append-nil (concat done))
      concat-groups [] done (b ∷ batch) =
          ap concat (written_always done (b ∷ batch))
          ∙ (concat-snoc done (b ∷ batch)
              ∙ ap (λ h. concat done ++ h) (sym (append-nil (b ∷ batch))))
      concat-groups (a ∷ rows) done batch =
          let full = batch ++ (a ∷ []) in
          elim (Bool-cases (eqb (length full) size)) [
            | inl is_full ↦
                rw (full_group done batch a rows is_full, always done full)
                  (concat-groups rows (done ++ (full ∷ [])) []
                    ∙ (closed done full rows ∙ moved done batch a rows))
            | inr other ↦
                rw (more_rows done batch a rows other)
                  (concat-groups rows done full ∙ moved done batch a rows)
          ]

      -- A writer that takes each group gets every row that scans, each once and in order.
      concat-row_groups : (rows : List A) → concat (row_groups accepts size [] [] rows) ≡ rows
      concat-row_groups rows = concat-groups rows [] []
