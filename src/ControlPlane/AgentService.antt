-- ===== src/ControlPlane/AgentService.antt =====
-- The versions of AgentService of apps/api/src/xymphony_api/services.py, with version_to_contract of
-- mapping.py and the contract of packages/contracts/src/xymphony_contracts/agent.py.
use xymphony_voice.Base.{
  Bool, List, Option, [], if◌then◌else◌, is_some, leb, none, not, some, ℕ, ◌&&◌, ◌++◌, ◌+◌, ◌==◌,
  ◌∷◌,
}
use xymphony_voice.Base.Result.{Result, err, ok}
use xymphony_voice.Base.Text.{Text}
use xymphony_voice.Json.{Json}
use xymphony_voice.ControlPlane.{
  Agent, ApiError, Call, Project, Settings, ToolBinding, VersionRow, conflict_published_immutable,
  draft, find_agent, find_project, invalid, is_draft, is_published, not_found, published,
}

-- The `where` of AgentVersionRepository.get_for_agent
unfoldable pub is_version : Project → ℕ → ℕ → VersionRow → Bool
is_version project agent_id version_id row =
    row.id == version_id
    && row.agent_id == agent_id
    && row.organization_id == project.organization_id
    && row.project_id == project.id

-- AgentVersionRepository.get_for_agent
unfoldable pub find_version : Project → ℕ → ℕ → List VersionRow → Option VersionRow
unfolding is_version
find_version project agent_id version_id [] = none
find_version project agent_id version_id (row ∷ rows) =
    let rest = find_version project agent_id version_id rows in
    if is_version project agent_id version_id row then some row else rest

-- `func.max(version_n)` over the rows of the agent, or 0
unfoldable pub max_version : ℕ → List VersionRow → ℕ
max_version agent_id [] = 0
max_version agent_id (row ∷ rows) =
    let rest = max_version agent_id rows in
    if row.agent_id == agent_id
    then (if leb rest row.version_n then row.version_n else rest)
    else rest

-- AgentVersionRepository.next_version_n
unfoldable pub next_version_n : ℕ → List VersionRow → ℕ
unfolding max_version
next_version_n agent_id rows = max_version agent_id rows + 1

-- Assigning to the attributes of the row with this primary key, and `flush`.
unfoldable pub write_version : VersionRow → List VersionRow → List VersionRow
write_version new [] = []
write_version new (row ∷ rows) =
    let rest = write_version new rows in if row.id == new.id then new ∷ rest else row ∷ rest

-- AgentVersionUpdateRequest
pub record Update : Type 0 where
  pub instructions : Option Text
  pub personality : Option Text
  pub locale : Option Text
  pub llm : Option Json
  pub stt : Option Json
  pub tts : Option Json
  pub tools : Option (List ToolBinding)

abbrev given {ℓ} : {A : Type ℓ} → Option A → A → A
given none old = old
given (some new) old = new

-- `current.model_copy(update={… if value is not None})`
unfoldable pub apply_update : Update → Settings → Settings
apply_update body settings = record {
  instructions = given body.instructions settings.instructions;
  personality = given body.personality settings.personality;
  locale = given body.locale settings.locale;
  llm = given body.llm settings.llm;
  stt = given body.stt settings.stt;
  tts = given body.tts settings.tts;
  tools = given body.tools settings.tools;
}

-- `digest` is `compute_config_hash`, a SHA-256 of the canonical JSON of the row without its times;
-- `valid` is the validation of the contract AgentVersion but for its rule on `published_at`.
module _ (digest : VersionRow → Text) (valid : VersionRow → Bool) where
  -- The validator published_requires_timestamp, and version_to_contract
  unfoldable pub version_to_contract : VersionRow → Result ApiError VersionRow
  version_to_contract row =
      if valid row
        && (if is_published row.status
            then is_some row.published_at
            else not (is_some row.published_at))
      then ok row
      else err invalid

  -- AgentService.create_version, from the agent on
  unfoldable pub add_version : Project → Agent → Settings → Call VersionRow
  unfolding version_to_contract next_version_n
  add_version project agent settings db =
      let bare : VersionRow = record {
        id = db.uuids;
        organization_id = project.organization_id;
        project_id = project.id;
        agent_id = agent.id;
        version_n = next_version_n agent.id db.versions;
        status = draft;
        settings = settings;
        config_hash = none;
        created_at = db.clock;
        published_at = none;
      } in
      elim (version_to_contract bare) [
        | err e ↦ (err e, db)
        | ok snapshot ↦
            let row : VersionRow = record snapshot { config_hash = some (digest snapshot) } in
            (
              version_to_contract row,
              record db { versions = db.versions ++ row ∷ []; uuids = db.uuids + 1 },
            )
      ]

  unfoldable pub create_version : ℕ → ℕ → Settings → Call VersionRow
  unfolding find_project find_agent add_version
  create_version project_id agent_id settings db = elim (find_project project_id db.projects) [
    | none ↦ (err not_found, db)
    | some project ↦ elim (find_agent project agent_id db.agents) [
      | none ↦ (err not_found, db)
      | some agent ↦ add_version project agent settings db
    ]
  ]

  -- AgentService.update_version, from the row on
  unfoldable pub change_version : Update → VersionRow → Call VersionRow
  unfolding version_to_contract apply_update write_version
  change_version body row db =
      if not (is_draft row.status)
      then (err conflict_published_immutable, db)
      else elim (version_to_contract row) [
        | err e ↦ (err e, db)
        | ok current ↦
            let updated : VersionRow = record current {
              settings = apply_update body current.settings;
            } in
            let new : VersionRow = record updated { config_hash = some (digest updated) } in
            (version_to_contract new, record db { versions = write_version new db.versions })
      ]

  -- AgentService.publish_version, from the row on
  unfoldable pub mark_published : VersionRow → Call VersionRow
  unfolding version_to_contract write_version
  mark_published row db =
      if is_published row.status
      then (version_to_contract row, db)
      else (let new : VersionRow = record row {
        status = published;
        published_at = some db.clock;
      } in
          (version_to_contract new, record db { versions = write_version new db.versions }))

  -- `require_project` and `get_for_agent`, and NotFoundError
  unfoldable pub with_version : ℕ → ℕ → ℕ → (VersionRow → Call VersionRow) → Call VersionRow
  unfolding find_project find_version
  with_version project_id agent_id version_id next db = elim (find_project project_id db.projects) [
    | none ↦ (err not_found, db)
    | some project ↦ elim (find_version project agent_id version_id db.versions) [
      | none ↦ (err not_found, db)
      | some row ↦ next row db
    ]
  ]

  unfoldable pub get_version : ℕ → ℕ → ℕ → Call VersionRow
  unfolding with_version version_to_contract
  get_version project_id agent_id version_id =
      with_version project_id agent_id version_id (λ row db. (version_to_contract row, db))

  unfoldable pub update_version : ℕ → ℕ → ℕ → Update → Call VersionRow
  unfolding with_version change_version
  update_version project_id agent_id version_id body =
      with_version project_id agent_id version_id (change_version body)

  unfoldable pub publish_version : ℕ → ℕ → ℕ → Call VersionRow
  unfolding with_version mark_published
  publish_version project_id agent_id version_id =
      with_version project_id agent_id version_id mark_published
