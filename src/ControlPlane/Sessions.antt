-- ===== src/ControlPlane/Sessions.antt =====
-- SessionService of the control plane's services.py: the version that a new session takes, and what a
-- terminal status does.
use xymphony_voice.Base.{Bool, Option, arith, none, some, true, ℕ, ◌≡◌, ◌≤◌}
use xymphony_voice.Base.Result.{Result, err, ok}
use xymphony_voice.ControlPlane.{
  ApiError, Database, Project, SessionRow, SessionState, VersionRow, find_project, invalid,
  session_scope,
}
use xymphony_voice.ControlPlane.SessionService.{
  update_session_status, find_session, is_offered, is_over, session_to_contract,
  terminal_fields_match,
}

-- A row with at least this version number that is offered to new sessions
pub record Newest (project : Project) (agent_id n : ℕ) (found : Option VersionRow) : Type 0 where
  pub best : VersionRow
  pub is_best : found ≡ some best
  pub offered : is_offered project agent_id best ≡ true
  pub latest : n ≤ best.version_n

-- The result is a version that is offered, and no offered version has a greater number.
unfoldable pub Latest : Project → ℕ → ℕ → Result ApiError VersionRow → Type 0
Latest project agent_id n r =
    (best : VersionRow) × ((r ≡ ok best)
      × ((is_offered project agent_id best ≡ true) × (n ≤ best.version_n)))

module _ (valid : SessionRow → Bool) where
  unended :
      (row : SessionRow)
      → is_over row.status ≡ true
      → row.ended_at ≡ none
      → session_to_contract valid row ≡ err invalid
  unfolding session_to_contract terminal_fields_match
  unended row o e = ground (arith, o, e)

  -- Inside session_scope a session that has not ended cannot be given a terminal status: nothing sets
  -- the time at which it ended, so the call raises a validation error, the write is rolled back and
  -- the session keeps its old status.
  pub update_session_status_terminal :
      (project_id session_id : ℕ) (status : SessionState) (db : Database) (project : Project)
      (row : SessionRow)
      → find_project project_id db.projects ≡ some project
      → find_session project session_id db.sessions ≡ some row
      → row.ended_at ≡ none
      → is_over status ≡ true
      → session_scope (update_session_status valid project_id session_id status db) db
        ≡ (err invalid, db)
  unfolding update_session_status session_scope
  update_session_status_terminal project_id session_id status db project row p s e o =
      let new : SessionRow = record row { status = status; updated_at = db.clock } in
      ground (arith, p, s, unended new o e)
