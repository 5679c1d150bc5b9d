-- ===== src/Uploads/Sweeping.antt =====
-- `sweepAbandoned` in modules/uploads/sessions.ts, and what it drops and keeps.
use local_cast.Base.{
  ℕ, ◌+◌, ◌≡◌, ◌≢◌, refl, ap, ◌∙◌, Bool, true, false, Bool-cases, inl, inr, ◌&&◌, List, [], ◌∷◌,
  none, some, Text, text_eq, text_eq_iff, arith, ltb, if◌then◌else◌,
}
use local_cast.Maps.{get, delete, get-delete_ne, get-delete_self}
use local_cast.Uploads.{aborted, is_active, UploadRow, Service}

-- A session that `sweepAbandoned` drops: `updated_at < now - olderThanMs`, where the right side may
-- lie before time 0.
unfoldable pub is_abandoned : ℕ → ℕ → UploadRow → Bool
is_abandoned older t row = is_active row.status && ltb (row.updated_at + older) t

sweep_disk : ℕ → ℕ → List (Text × UploadRow) → List (Text × List ℕ) → List (Text × List ℕ)
unfolding is_abandoned delete
sweep_disk older t [] disk = disk
sweep_disk older t ((id, row) ∷ rows) disk =
    sweep_disk older t rows (if is_abandoned older t row then delete row.temp_path disk else disk)

pub sweep_rows : ℕ → ℕ → List (Text × UploadRow) → List (Text × UploadRow)
unfolding is_abandoned
sweep_rows older t [] = []
sweep_rows older t ((id, row) ∷ rows) =
    (
      id,
      (if is_abandoned older t row then record row { status = aborted; updated_at = t } else row),
    )
    ∷ sweep_rows older t rows

count_abandoned : ℕ → ℕ → List (Text × UploadRow) → ℕ
unfolding is_abandoned
count_abandoned older t [] = 0
count_abandoned older t ((id, row) ∷ rows) =
    (if is_abandoned older t row then 1 else 0) + count_abandoned older t rows

pub sweep_abandoned : Service → ℕ → ℕ → Service × ℕ
unfolding sweep_disk sweep_rows count_abandoned
sweep_abandoned s older t = (
  record s { disk = sweep_disk older t s.rows s.disk; rows = sweep_rows older t s.rows },
  count_abandoned older t s.rows,
)

get-delete-none :
    (k q : Text) (disk : List (Text × List ℕ)) → get q disk ≡ none → get q (delete k disk) ≡ none
get-delete-none k q disk h = elim (Bool-cases (text_eq k q)) [
  | inl same ↦ rw (← (text_eq_iff k q).0 same) (get-delete_self k disk)
  | inr other ↦ get-delete_ne k q disk (λ e. ground (arith, text_eq_iff k q)) ∙ h
]

sweep_disk-none :
    (older t : ℕ) (q : Text) (rows : List (Text × UploadRow)) (disk : List (Text × List ℕ))
    → get q disk ≡ none
    → get q (sweep_disk older t rows disk) ≡ none
unfolding sweep_disk
sweep_disk-none older t q [] disk h = h
sweep_disk-none older t q ((id, row) ∷ rows) disk h =
    sweep_disk-none older t q rows _ (ground (arith, h, get-delete-none row.temp_path q disk h))

-- The rows behind a sweep.
abbrev swept : ℕ → ℕ → UploadRow → UploadRow
swept older t row =
    if is_abandoned older t row then record row { status = aborted; updated_at = t } else row

get-sweep_rows :
    (older t : ℕ) (id : Text) (row : UploadRow) (rows : List (Text × UploadRow))
    → get id rows ≡ some row
    → get id (sweep_rows older t rows) ≡ some (swept older t row)
unfolding get sweep_rows
get-sweep_rows older t id row [] h = absurd cc
get-sweep_rows older t id row ((j, r) ∷ rows) h = elim (Bool-cases (text_eq j id)) [
  | inl same ↦
      let found : some r ≡ some row = rw same at h in
      let e : r ≡ row = cc in rw same (ap (λ x. some (swept older t x)) e)
  | inr other ↦ rw other (get-sweep_rows older t id row rows (rw other at h))
]

sweep_disk-gone :
    (older t : ℕ) (id : Text) (row : UploadRow) (rows : List (Text × UploadRow))
    (disk : List (Text × List ℕ))
    → get id rows ≡ some row
    → is_abandoned older t row ≡ true
    → get row.temp_path (sweep_disk older t rows disk) ≡ none
unfolding get sweep_disk
sweep_disk-gone older t id row [] disk h old = absurd cc
sweep_disk-gone older t id row ((j, r) ∷ rows) disk h old = elim (Bool-cases (text_eq j id)) [
  | inl same ↦
      let found : some r ≡ some row = rw same at h in
      let e : r ≡ row = cc in
      let here : is_abandoned older t r ≡ true = ap (is_abandoned older t) e ∙ old in
      rw here (
        sweep_disk-none older t row.temp_path rows _ (
          ap (λ (x : UploadRow). get row.temp_path (delete x.temp_path disk)) e
          ∙ get-delete_self row.temp_path disk))
  | inr other ↦ sweep_disk-gone older t id row rows _ (rw other at h) old
]

-- A path that no abandoned session uses.
abbrev pub Spared : ℕ → ℕ → Text → List (Text × UploadRow) → Type 0
Spared older t q [] = Unit
Spared older t q ((j, r) ∷ rows) =
    (is_abandoned older t r ≡ true → r.temp_path ≢ q) × Spared older t q rows

sweep_disk-Spared :
    (older t : ℕ) (q : Text) (rows : List (Text × UploadRow)) (disk : List (Text × List ℕ))
    → Spared older t q rows
    → get q (sweep_disk older t rows disk) ≡ get q disk
unfolding sweep_disk
sweep_disk-Spared older t q [] disk a = refl
sweep_disk-Spared older t q ((j, r) ∷ rows) disk (h, a) =
    sweep_disk-Spared older t q rows _ a ∙ elim (Bool-cases (is_abandoned older t r)) [
      | inl old ↦ rw old (get-delete_ne r.temp_path q disk (h old))
      | inr live ↦ rw live refl
    ]

-- A session that has been active and untouched for longer than `older` is aborted by a sweep, and
-- its temporary file is gone.
sweep_abandoned-gone :
    (s : Service) (older t : ℕ) (id : Text) (row : UploadRow)
    → get id s.rows ≡ some row
    → is_abandoned older t row ≡ true
    → (get id (sweep_abandoned s older t).0.rows
        ≡ some (record row { status = aborted; updated_at = t }))
      × (get row.temp_path (sweep_abandoned s older t).0.disk ≡ none)
unfolding sweep_abandoned
sweep_abandoned-gone s older t id row h old = (
  get-sweep_rows older t id row s.rows h ∙ rw old refl,
  sweep_disk-gone older t id row s.rows s.disk h old,
)

-- A sweep leaves every other session as it is, and every file that is not the temporary file of an
-- abandoned session.
sweep_abandoned-Spared :
    (s : Service) (older t : ℕ) (id : Text) (row : UploadRow) (q : Text)
    → get id s.rows ≡ some row
    → is_abandoned older t row ≡ false
    → Spared older t q s.rows
    → (get id (sweep_abandoned s older t).0.rows ≡ some row)
      × (get q (sweep_abandoned s older t).0.disk ≡ get q s.disk)
unfolding sweep_abandoned
sweep_abandoned-Spared s older t id row q h live a = (
  get-sweep_rows older t id row s.rows h ∙ rw live refl,
  sweep_disk-Spared older t q s.rows s.disk a,
)
