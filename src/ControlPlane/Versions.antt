-- ===== src/ControlPlane/Versions.antt =====
-- The life of a version of an agent: AgentService of apps/api/src/xymphony_api/services.py.
use xymphony_voice.Base.{
  ==-cases, ==-ne, Bool, List, Option, [], ap, arith, inl, inr, none, refl, some, subst, sym, ℕ,
  ◌++◌, ◌+◌, ◌<◌, ◌∙◌, ◌∷◌, ◌≡◌,
}
use xymphony_voice.Base.Result.{Result, err, ok}
use xymphony_voice.Base.Text.{Text}
use xymphony_voice.ControlPlane.{
  Agent, ApiError, Call, Database, Project, Settings, VersionRow, find_agent, find_project,
  not_found, published,
}
use xymphony_voice.ControlPlane.AgentService.{
  Update, add_version, change_version, create_version, find_version, mark_published,
  publish_version, update_version, version_to_contract, with_version,
}
use xymphony_voice.ControlPlane.Rows.{
  Keyed, Keyed-append, Sound, find_version-row_at, row_at, row_at-append,
}
use xymphony_voice.ControlPlane.Writing.{
  Writes, Writes-Sound, Writes-published, change_version-Writes, contract-same,
  mark_published-Writes,
}

-- One call of AgentService that writes versions, with its arguments.
pub data Act : Type 0 where
  creates : ℕ → ℕ → Settings → Act
  updates : ℕ → ℕ → ℕ → Update → Act
  publishes : ℕ → ℕ → ℕ → Act

module _ (digest : VersionRow → Text) (valid : VersionRow → Bool) where
  abbrev pub act : Act → Database → Database
  act (creates project agent settings) db =
      (create_version digest valid project agent settings db).1
  act (updates project agent version body) db =
      (update_version digest valid project agent version body db).1
  act (publishes project agent version) db =
      (publish_version digest valid project agent version db).1

  unfoldable pub acts : List Act → Database → Database
  acts [] db = db
  acts (a ∷ rest) db = acts rest (act a db)

  -- A call that found a row.
  data Found (db t : Database) : Type 0 where
    misses : t ≡ db → Found db t
    finds : (row : VersionRow) → row_at row.id db.versions ≡ some row → Writes row db t → Found db t
    adds :
        (row : VersionRow)
        → row.id ≡ db.uuids
        → t ≡ record db { versions = db.versions ++ row ∷ []; uuids = db.uuids + 1 }
        → Found db t

  with_version-Found :
      (project_id agent_id version_id : ℕ) (next : VersionRow → Call VersionRow) (db : Database)
      → Keyed db.versions
      → ((row : VersionRow) → Writes row db (next row db).1)
      → Found db (with_version digest valid project_id agent_id version_id next db).1
  unfolding with_version
  with_version-Found project_id agent_id version_id next db h w =
      outer (find_project project_id db.projects)
    where
      inner :
          (project : Project) (found : Option VersionRow)
          → find_version project agent_id version_id db.versions ≡ found
          → Found db
              (elim found as (λ _. Result ApiError VersionRow × Database) [
                | none ↦ (err not_found, db)
                | some row ↦ next row db
              ]).1
      inner project none f = misses refl
      inner project (some row) f =
          finds row (find_version-row_at project agent_id version_id db.versions row f h) (w row)

      outer :
          (project : Option Project)
          → Found db
              (elim project as (λ _. Result ApiError VersionRow × Database) [
                | none ↦ (err not_found, db)
                | some p ↦ elim (find_version p agent_id version_id db.versions) [
                  | none ↦ (err not_found, db)
                  | some row ↦ next row db
                ]
              ]).1
      outer none = misses refl
      outer (some p) = inner p (find_version p agent_id version_id db.versions) refl

  add_version-Found :
      (project : Project) (agent : Agent) (settings : Settings) (db : Database)
      → Found db (add_version digest valid project agent settings db).1
  unfolding add_version
  add_version-Found project agent settings db = go _ refl _ refl
    where
      go :
          (bare : VersionRow)
          → bare.id ≡ db.uuids
          → (r : Result ApiError VersionRow) → version_to_contract digest valid bare ≡ r
          → Found db
              (elim r as (λ _. Result ApiError VersionRow × Database) [
                | err e ↦ (err e, db)
                | ok snapshot ↦
                    let row : VersionRow = record snapshot {
                      config_hash = some (digest snapshot);
                    } in
                    (
                      version_to_contract digest valid row,
                      record db { versions = db.versions ++ row ∷ []; uuids = db.uuids + 1 },
                    )
              ]).1
      go bare fresh (err e) h = misses refl
      go bare fresh (ok snapshot) h =
          adds _ (ap (λ r. r.id) (contract-same digest valid bare snapshot h) ∙ fresh) refl

  create_version-Found :
      (project_id agent_id : ℕ) (settings : Settings) (db : Database)
      → Found db (create_version digest valid project_id agent_id settings db).1
  unfolding create_version
  create_version-Found project_id agent_id settings db = outer (find_project project_id db.projects)
    where
      inner :
          (project : Project) (agent : Option Agent)
          → Found db
              (elim agent as (λ _. Result ApiError VersionRow × Database) [
                | none ↦ (err not_found, db)
                | some a ↦ add_version digest valid project a settings db
              ]).1
      inner project none = misses refl
      inner project (some a) = add_version-Found project a settings db

      outer :
          (project : Option Project)
          → Found db
              (elim project as (λ _. Result ApiError VersionRow × Database) [
                | none ↦ (err not_found, db)
                | some p ↦ elim (find_agent p agent_id db.agents) [
                  | none ↦ (err not_found, db)
                  | some a ↦ add_version digest valid p a settings db
                ]
              ]).1
      outer none = misses refl
      outer (some p) = inner p (find_agent p agent_id db.agents)

  act-Found : (a : Act) (db : Database) → Keyed db.versions → Found db (act a db)
  unfolding update_version publish_version
  act-Found (creates project agent settings) db h = create_version-Found project agent settings db
  act-Found (updates project agent version body) db h =
      with_version-Found project agent version (change_version digest valid body) db h
        (λ row. change_version-Writes digest valid body row db)
  act-Found (publishes project agent version) db h =
      with_version-Found project agent version (mark_published digest valid) db h
        (λ row. mark_published-Writes digest valid row db)

  fresh_key :
      (db : Database)
      → Sound db
      → (before : Option VersionRow) → row_at db.uuids db.versions ≡ before
      → before ≡ none
  fresh_key db h none b = refl
  fresh_key db h (some row) b = absurd (ground (arith, h.made db.uuids row b))

  Found-published :
      (db t : Database)
      → Found db t
      → Sound db
      → (id : ℕ) (old : VersionRow) → row_at id db.versions ≡ some old
      → old.status ≡ published
      → row_at id t.versions ≡ some old
  Found-published db t (misses e) h id old f p = ap (λ d. row_at id d.versions) e ∙ f
  Found-published db t (finds row at w) h id old f p = Writes-published row db t w h at id old f p
  Found-published db t (adds row key e) h id old f p =
      ap (λ d. row_at id d.versions) e ∙ ground (arith, f, row_at-append row db.versions id)

  Found-Sound : (db t : Database) → Found db t → Sound db → Sound t
  Found-Sound db t (misses e) h = subst Sound (sym e) h
  Found-Sound db t (finds row at w) h = Writes-Sound row db t w h at
  Found-Sound db t (adds row key e) h = subst Sound (sym e) (record {
    keyed =
        Keyed-append row db.versions h.keyed
          (ap (λ j. row_at j db.versions) key ∙ fresh_key db h (row_at db.uuids db.versions) refl);
    made = λ id r f. made id r f (row_at id db.versions) refl;
  })
    where
      made :
          (id : ℕ) (r : VersionRow)
          → row_at id (db.versions ++ row ∷ []) ≡ some r
          → (before : Option VersionRow) → row_at id db.versions ≡ before
          → id < db.uuids + 1
      made id r f none b = elim (==-cases row.id id) [
        | inl same ↦ ground (arith, same, key)
        | inr other ↦
            absurd (ground (arith, f, b, ==-ne row.id id other, row_at-append row db.versions id))
      ]
      made id r f (some old) b = ground (arith, h.made id old b)

  acts-Sound : (calls : List Act) (db : Database) → Sound db → Sound (acts calls db)
  unfolding acts
  acts-Sound [] db h = h
  acts-Sound (a ∷ rest) db h =
      acts-Sound rest (act a db) (Found-Sound db (act a db) (act-Found a db h.keyed) h)

  -- Once a version of an agent is published, no sequence of calls that create, update or publish
  -- versions changes its row: its settings, its version number, its hash and its times stay. The
  -- keys of the table are distinct and were handed out at the start.
  pub acts_keep_published :
      (calls : List Act) (db : Database)
      → Sound db
      → (id : ℕ) (row : VersionRow) → row_at id db.versions ≡ some row
      → row.status ≡ published
      → row_at id (acts calls db).versions ≡ some row
  unfolding acts
  acts_keep_published [] db h id row f p = f
  acts_keep_published (a ∷ rest) db h id row f p =
      let made = act-Found a db h.keyed in
      acts_keep_published rest (act a db) (Found-Sound db (act a db) made h) id row
        (Found-published db (act a db) made h id row f p) p
