-- ===== src/ControlPlane/Writing.antt =====
-- What update_version and publish_version of apps/api/src/xymphony_api/services.py write.
use xymphony_voice.Base.{
  ==-cases, Bool, Bool-cases, Option, ap, arith, false, inl, inr, none, refl, some, subst, sym,
  true, ℕ, ◌<◌, ◌∙◌, ◌≡◌,
}
use xymphony_voice.Base.Result.{Result, err, ok}
use xymphony_voice.Base.Text.{Text}
use xymphony_voice.ControlPlane.{
  ApiError, Database, VersionRow, VersionStatus, conflict_published_immutable, deprecated, draft,
  is_draft, is_published, published,
}
use xymphony_voice.ControlPlane.AgentService.{
  Update, apply_update, change_version, mark_published, version_to_contract, write_version,
}
use xymphony_voice.ControlPlane.Rows.{Keyed-write, Sound, row_at, row_at-write}

-- What a call does to the row that it found, which was not published: nothing, or it writes the row.
pub data Writes (row : VersionRow) (db t : Database) : Type 0 where
  leaves : t ≡ db → Writes row db t
  replaces :
      (new : VersionRow)
      → new.id ≡ row.id
      → is_published row.status ≡ false
      → t ≡ record db { versions = write_version new db.versions }
      → Writes row db t

module _ (digest : VersionRow → Text) (valid : VersionRow → Bool) where
  pub contract-same :
      (row current : VersionRow) → version_to_contract digest valid row ≡ ok current → current ≡ row
  unfolding version_to_contract
  contract-same row current h = ground (arith, h)

  change_version-refuses :
      (body : Update) (row : VersionRow) (db : Database)
      → is_draft row.status ≡ false
      → change_version digest valid body row db ≡ (err conflict_published_immutable, db)
  unfolding change_version
  change_version-refuses body row db h = ground (arith, h)

  draft_only : (status : VersionStatus) → is_draft status ≡ true → is_published status ≡ false
  draft_only draft h = refl
  draft_only published h = absurd (cc h)
  draft_only deprecated h = refl

  pub change_version-Writes :
      (body : Update) (row : VersionRow) (db : Database)
      → Writes row db (change_version digest valid body row db).1
  unfolding change_version
  change_version-Writes body row db = elim (Bool-cases (is_draft row.status)) [
    | inr final ↦ rw final (leaves refl)
    | inl open_yet ↦ rw open_yet (go (version_to_contract digest valid row) refl open_yet)
  ]
    where
      go :
          (r : Result ApiError VersionRow)
          → version_to_contract digest valid row ≡ r
          → is_draft row.status ≡ true
          → Writes row db
              (elim r as (λ _. Result ApiError VersionRow × Database) [
                | err e ↦ (err e, db)
                | ok current ↦
                    let updated : VersionRow = record current {
                      settings = apply_update body current.settings;
                    } in
                    let new : VersionRow = record updated { config_hash = some (digest updated) } in
                    (
                      version_to_contract digest valid new,
                      record db { versions = write_version new db.versions },
                    )
              ]).1
      go (err e) h o = leaves refl
      go (ok current) h o =
          replaces _ (ap (λ r. r.id) (contract-same row current h)) (draft_only row.status o) refl

  pub mark_published-Writes :
      (row : VersionRow) (db : Database) → Writes row db (mark_published digest valid row db).1
  unfolding mark_published
  mark_published-Writes row db = elim (Bool-cases (is_published row.status)) [
    | inl final ↦ rw final (leaves refl)
    | inr open_yet ↦ rw open_yet (replaces _ refl open_yet refl)
  ]

-- Writing the row with a key of its own keeps the keys, and every published row.
module _ (row : VersionRow) (db t : Database) (w : Writes row db t) (h : Sound db)
    (found : row_at row.id db.versions ≡ some row) where
  pub Writes-published :
      (id : ℕ) (old : VersionRow)
      → row_at id db.versions ≡ some old
      → old.status ≡ published
      → row_at id t.versions ≡ some old
  Writes-published id old f p = go w
    where
      go : Writes row db t → row_at id t.versions ≡ some old
      go (leaves e) = ap (λ d. row_at id d.versions) e ∙ f
      go (replaces new key live e) = ap (λ d. row_at id d.versions) e ∙ elim (==-cases new.id id) [
        | inl same ↦
            absurd
              (ground (arith, p, f, found, live, ap (λ j. row_at j db.versions) (sym key ∙ same)))
        | inr other ↦ ground (arith, f, other, row_at-write new db.versions id)
      ]

  pub Writes-Sound : Sound t
  Writes-Sound = go w
    where
      written :
          (new : VersionRow) (id : ℕ) (r : VersionRow)
          → row_at id (write_version new db.versions) ≡ some r
          → (before : Option VersionRow) → row_at id db.versions ≡ before
          → id < db.uuids
      written new id r f none b = absurd (ground (arith, f, b, row_at-write new db.versions id))
      written new id r f (some old) b = h.made id old b

      go : Writes row db t → Sound t
      go (leaves e) = subst Sound (sym e) h
      go (replaces new key live e) = subst Sound (sym e) (record {
        keyed = Keyed-write new db.versions h.keyed;
        made = λ id r f. written new id r f (row_at id db.versions) refl;
      })
