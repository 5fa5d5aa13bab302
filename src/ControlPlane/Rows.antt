-- ===== src/ControlPlane/Rows.antt =====
-- The rows of the table of versions by their keys: AgentVersionRow of
-- apps/api/src/xymphony_api/models.py.
use xymphony_voice.Base.{
  ==-cases, ==-ne, ==_refl, Bool-cases, List, Option, [], ap, arith, if◌then◌else◌, inl, inr, none,
  refl, some, sym, true, ℕ, ◌++◌, ◌<◌, ◌==◌, ◌∙◌, ◌∷◌, ◌≡◌,
}
use xymphony_voice.ControlPlane.{Database, Project, VersionRow}
use xymphony_voice.ControlPlane.AgentService.{find_version, is_version, write_version}

-- The row with a primary key.
unfoldable pub row_at : ℕ → List VersionRow → Option VersionRow
row_at id [] = none
row_at id (row ∷ rows) = let rest = row_at id rows in if row.id == id then some row else rest

-- Primary keys are distinct.
unfoldable pub Keyed : List VersionRow → Type 0
Keyed [] = Unit {0}
Keyed (row ∷ rows) = (row_at row.id rows ≡ none) × Keyed rows

-- The keys are distinct, and each was handed out.
pub record Sound (db : Database) : Type 0 where
  pub keyed : Keyed db.versions
  pub made : (id : ℕ) (row : VersionRow) → row_at id db.versions ≡ some row → id < db.uuids

pub row_at-write :
    (new : VersionRow) (rows : List VersionRow) (j : ℕ)
    → row_at j (write_version new rows) ≡ (
        if new.id == j
        then (elim (row_at j rows) [ none ↦ none | some _ ↦ some new ])
        else row_at j rows)
unfolding row_at write_version
row_at-write new [] j = ground arith
row_at-write new (row ∷ rows) j = ground (arith, row_at-write new rows j)

pub Keyed-write :
    (new : VersionRow) (rows : List VersionRow) → Keyed rows → Keyed (write_version new rows)
unfolding Keyed row_at write_version
Keyed-write new [] h = tt
Keyed-write new (row ∷ rows) h = elim (==-cases row.id new.id) [
  | inl same ↦
      let here : (row.id == new.id) ≡ true = ground (arith, same) in
      let gone : row_at new.id rows ≡ none = ap (λ j. row_at j rows) (sym same) ∙ h.0 in
      rw here (ground (arith, gone, row_at-write new rows new.id), Keyed-write new rows h.1)
  | inr other ↦
      rw (==-ne row.id new.id other)
        (ground (arith, h.0, row_at-write new rows row.id), Keyed-write new rows h.1)
]

pub row_at-append :
    (row : VersionRow) (rows : List VersionRow) (j : ℕ)
    → row_at j (rows ++ row ∷ [])
      ≡ (elim (row_at j rows) [ some r ↦ some r | none ↦ if row.id == j then some row else none ])
unfolding row_at
row_at-append row [] j = ground arith
row_at-append row (r ∷ rows) j = ground (arith, row_at-append row rows j)

pub Keyed-append :
    (row : VersionRow) (rows : List VersionRow)
    → Keyed rows
    → row_at row.id rows ≡ none
    → Keyed (rows ++ row ∷ [])
unfolding Keyed row_at
Keyed-append row [] h e = (refl, tt)
Keyed-append row (r ∷ rows) h e = (
  ground (arith, e, h.0, row_at-append row rows r.id),
  Keyed-append row rows h.1 (ground (arith, e)),
)

-- What a query finds is the row with its key.
pub find_version-row_at :
    (project : Project) (agent_id version_id : ℕ) (rows : List VersionRow) (row : VersionRow)
    → find_version project agent_id version_id rows ≡ some row
    → Keyed rows
    → row_at row.id rows ≡ some row
unfolding find_version row_at Keyed
find_version-row_at project agent_id version_id [] row f h = absurd (ground (arith, f))
find_version-row_at project agent_id version_id (r ∷ rows) row f h =
    elim (Bool-cases (is_version project agent_id version_id r)) [
      | inl here ↦ ground (arith, f, here, ==_refl r.id)
      | inr elsewhere ↦
          let found : find_version project agent_id version_id rows ≡ some row =
            ground (arith, f, elsewhere) in
          let later = find_version-row_at project agent_id version_id rows row found h.1 in
          elim (==-cases r.id row.id) [
            | inl same ↦ absurd (ground (arith, h.0, later, ap (λ j. row_at j rows) same))
            | inr other ↦ ground (arith, later, other)
          ]
    ]
