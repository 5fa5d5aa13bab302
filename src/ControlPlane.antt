-- ===== src/ControlPlane.antt =====
-- The tables of the control plane: apps/api/src/xymphony_api/models.py and the queries of
-- repositories.py that services.py shares. A table is the list of its rows, and a row found by a query
-- is written in place. The services and what is shown of them are the modules below.
pub mod AgentService
pub mod SessionService
pub mod Rows
pub mod Writing
pub mod Versions
pub mod Sessions
use xymphony_voice.Base.{
  ==-cases, ==-ne, ==_refl, Bool, List, Option, [], false, if◌then◌else◌, none, some, true, ℕ, ◌&&◌,
  ◌++◌, ◌+◌, ◌<◌, ◌==◌, ◌||◌, ◌∙◌, ◌∷◌, ◌≡◌, ◌≤◌,
}
use xymphony_voice.Base.Result.{Result, err, ok, ◌>>=◌}
use xymphony_voice.Base.Text.{Text}
use xymphony_voice.Json.{Json, end}

-- AgentVersionStatus
pub data VersionStatus : Type 0 where
  draft published deprecated : VersionStatus

-- AgentToolBinding, with its parameters as JSON
pub record ToolBinding : Type 0 where
  pub tool_name : Text
  pub enabled : Bool
  pub params : Json

-- The fields of an AgentVersion that its author sets; the bindings are JSON documents.
pub record Settings : Type 0 where
  pub instructions : Text
  pub personality : Text
  pub locale : Text
  pub llm : Json
  pub stt : Json
  pub tts : Json
  pub tools : List ToolBinding

-- AgentVersionRow, and AgentVersion
pub record VersionRow : Type 0 where
  pub id : ℕ
  pub organization_id : ℕ
  pub project_id : ℕ
  pub agent_id : ℕ
  pub version_n : ℕ
  pub status : VersionStatus
  pub settings : Settings
  pub config_hash : Option Text
  pub created_at : ℕ
  pub published_at : Option ℕ

-- SessionStatus
pub data SessionState : Type 0 where
  initializing active completed failed terminated : SessionState

-- SessionRow but for the fields that no service sets: the deployment, the end's reason and the usage
pub record SessionRow : Type 0 where
  pub id : ℕ
  pub organization_id : ℕ
  pub project_id : ℕ
  pub agent_id : ℕ
  pub agent_version_id : ℕ
  pub status : SessionState
  pub channel : Text
  pub livekit_room : Option Text
  pub config_hash : Option Text
  pub started_at : ℕ
  pub updated_at : ℕ
  pub ended_at : Option ℕ
  pub error_code : Option Text

-- ProjectRow and AgentRow, as far as they are read
pub record Project : Type 0 where
  pub id : ℕ
  pub organization_id : ℕ

pub record Agent : Type 0 where
  pub id : ℕ
  pub organization_id : ℕ
  pub project_id : ℕ

-- The database, the next uuid and the clock.
pub record Database : Type 0 where
  pub projects : List Project
  pub agents : List Agent
  pub versions : List VersionRow
  pub sessions : List SessionRow
  pub uuids : ℕ
  pub clock : ℕ

-- NotFoundError, the two ConflictErrors, and pydantic's ValidationError
pub data ApiError : Type 0 where
  not_found conflict_published_immutable no_published_version invalid : ApiError

-- A service call returns or raises, and leaves the database.
abbrev pub Call : Type 0 → Type 0
Call A = Database → Result ApiError A × Database

-- session_scope, around a call: a call that raises is rolled back.
unfoldable pub session_scope :
    {A : Type 0} → Result ApiError A × Database → Database → Result ApiError A × Database
session_scope (ok a, t) db = (ok a, t)
session_scope (err e, t) db = (err e, db)

-- TenantRepository.get_project
unfoldable pub find_project : ℕ → List Project → Option Project
find_project project_id [] = none
find_project project_id (p ∷ ps) =
    let rest = find_project project_id ps in if p.id == project_id then some p else rest

-- AgentRepository.get_in_project
unfoldable pub find_agent : Project → ℕ → List Agent → Option Agent
find_agent project agent_id [] = none
find_agent project agent_id (a ∷ rows) =
    let rest = find_agent project agent_id rows in
    if a.id == agent_id
      && a.project_id == project.id
      && a.organization_id == project.organization_id
    then some a
    else rest

abbrev pub is_published : VersionStatus → Bool
is_published published = true
is_published _ = false

abbrev pub is_draft : VersionStatus → Bool
is_draft draft = true
is_draft _ = false
