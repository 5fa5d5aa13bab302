-- ===== src/ControlPlane/SessionService.antt =====
-- SessionService of apps/api/src/xymphony_api/services.py, with session_to_contract of mapping.py and
-- the contract of packages/contracts/src/xymphony_contracts/session.py.
use xymphony_voice.Base.{
  Bool, List, Option, [], false, if◌then◌else◌, is_some, ltb, none, not, some, true, ℕ, ◌&&◌, ◌++◌,
  ◌+◌, ◌==◌, ◌∷◌,
}
use xymphony_voice.Base.Result.{Result, err, ok}
use xymphony_voice.Base.Text.{Text}
use xymphony_voice.ControlPlane.{
  Agent, ApiError, Call, Project, SessionRow, SessionState, VersionRow, completed, failed,
  find_agent, find_project, initializing, invalid, is_published, no_published_version, not_found,
  terminated,
}
use xymphony_voice.ControlPlane.AgentService.{find_version}

-- The `where` of get_latest_published_for_agent
unfoldable pub is_offered : Project → ℕ → VersionRow → Bool
is_offered project agent_id row =
    row.agent_id == agent_id
    && row.organization_id == project.organization_id
    && row.project_id == project.id
    && is_published row.status

-- The row that `order_by(version_n.desc()).limit(1)` leaves of a row and of the best of the others
unfoldable pub newer : VersionRow → Option VersionRow → VersionRow
newer row none = row
newer row (some best) = if ltb row.version_n best.version_n then best else row

-- AgentVersionRepository.get_latest_published_for_agent
unfoldable pub latest_published : Project → ℕ → List VersionRow → Option VersionRow
unfolding is_offered newer
latest_published project agent_id [] = none
latest_published project agent_id (row ∷ rows) =
    let rest = latest_published project agent_id rows in
    if is_offered project agent_id row then some (newer row rest) else rest

-- SessionStatus in the set `terminal`
unfoldable pub is_over : SessionState → Bool
is_over completed = true
is_over failed = true
is_over terminated = true
is_over _ = false

is_failed : SessionState → Bool
is_failed failed = true
is_failed _ = false

-- The validator Session.terminal_fields_match_status
unfoldable pub terminal_fields_match : SessionRow → Bool
unfolding is_over is_failed
terminal_fields_match row =
    (if is_over row.status then is_some row.ended_at else not (is_some row.ended_at))
    && (if is_failed row.status then is_some row.error_code else not (is_some row.error_code))

-- SessionRepository.get with organization and project
unfoldable pub find_session : Project → ℕ → List SessionRow → Option SessionRow
find_session project session_id [] = none
find_session project session_id (row ∷ rows) =
    let rest = find_session project session_id rows in
    if row.id == session_id
      && row.organization_id == project.organization_id
      && row.project_id == project.id
    then some row
    else rest

unfoldable pub write_session : SessionRow → List SessionRow → List SessionRow
write_session new [] = []
write_session new (row ∷ rows) =
    let rest = write_session new rows in if row.id == new.id then new ∷ rest else row ∷ rest

-- The version of a new session: the one that is asked for, or the latest published.
unfoldable pub session_version :
    Project → ℕ → Option ℕ → List VersionRow → Result ApiError VersionRow
unfolding find_version latest_published
session_version project agent_id (some version_id) rows =
    elim (find_version project agent_id version_id rows) [
      | none ↦ err not_found
      | some row ↦ ok row
    ]
session_version project agent_id none rows = elim (latest_published project agent_id rows) [
  | none ↦ err no_published_version
  | some row ↦ ok row
]

-- `valid` is the validation of the contract Session but for its rule on terminal fields.
module _ (valid : SessionRow → Bool) where
  -- session_to_contract
  unfoldable pub session_to_contract : SessionRow → Result ApiError SessionRow
  unfolding terminal_fields_match
  session_to_contract row = if valid row && terminal_fields_match row then ok row else err invalid

  -- SessionService.create_session, from the version on
  unfoldable pub add_session : Project → Agent → VersionRow → Text → Option Text → Call SessionRow
  unfolding session_to_contract
  add_session project agent version channel livekit_room db =
      let row : SessionRow = record {
        id = db.uuids;
        organization_id = project.organization_id;
        project_id = project.id;
        agent_id = agent.id;
        agent_version_id = version.id;
        status = initializing;
        channel = channel;
        livekit_room = livekit_room;
        config_hash = version.config_hash;
        started_at = db.clock;
        updated_at = db.clock;
        ended_at = none;
        error_code = none;
      } in
      (
        session_to_contract row,
        record db { sessions = db.sessions ++ row ∷ []; uuids = db.uuids + 1 },
      )

  -- SessionService.create_session
  unfoldable pub create_session : ℕ → ℕ → Option ℕ → Text → Option Text → Call SessionRow
  unfolding find_project find_agent session_version add_session
  create_session project_id agent_id version_id channel livekit_room db =
      elim (find_project project_id db.projects) [
        | none ↦ (err not_found, db)
        | some project ↦ elim (find_agent project agent_id db.agents) [
          | none ↦ (err not_found, db)
          | some agent ↦ elim (session_version project agent.id version_id db.versions) [
            | err e ↦ (err e, db)
            | ok version ↦ add_session project agent version channel livekit_room db
          ]
        ]
      ]

  -- SessionService.update_session_status
  unfoldable pub update_session_status : ℕ → ℕ → SessionState → Call SessionRow
  unfolding find_project find_session session_to_contract write_session
  update_session_status project_id session_id status db =
      elim (find_project project_id db.projects) [
        | none ↦ (err not_found, db)
        | some project ↦ elim (find_session project session_id db.sessions) [
          | none ↦ (err not_found, db)
          | some row ↦
              let new : SessionRow = record row { status = status; updated_at = db.clock } in
              (session_to_contract new, record db { sessions = write_session new db.sessions })
        ]
      ]
