-- ===== src/Examples/ControlPlanes.antt =====
-- The control plane of apps/api/src/xymphony_api/services.py with one project, one agent and a
-- published version of it.
use xymphony_voice.Base.{
  Bool, List, [], arith, if◌then◌else◌, none, refl, some, true, ℕ, ◌<◌, ◌==◌, ◌∷◌, ◌≡◌,
}
use xymphony_voice.Base.Result.{err}
use xymphony_voice.Base.Text.{Text, codes}
use xymphony_voice.Json.{end, obj}
use xymphony_voice.ControlPlane.{
  Database, Project, SessionRow, Settings, VersionRow, active, completed, find_project, invalid,
  published, session_scope,
}
use xymphony_voice.ControlPlane.AgentService.{
  Update, create_version, publish_version, update_version,
}
use xymphony_voice.ControlPlane.Rows.{Keyed, Sound, row_at}
use xymphony_voice.ControlPlane.SessionService.{
  update_session_status, find_session, is_over, latest_published,
}
use xymphony_voice.ControlPlane.Sessions.{update_session_status_terminal}
use xymphony_voice.ControlPlane.Versions.{
  Act, acts, acts_keep_published, creates, publishes, updates,
}

abbrev settings : Settings
settings = record {
  instructions = codes "Be brief.";
  personality = codes "";
  locale = codes "en";
  llm = obj end;
  stt = obj end;
  tts = obj end;
  tools = [];
}

-- The digest here is the locale, and every row validates.
abbrev digest : VersionRow → Text
digest row = row.settings.locale

abbrev valid : VersionRow → Bool
valid row = true

abbrev first : VersionRow
first = record {
  id = 3;
  organization_id = 0;
  project_id = 1;
  agent_id = 2;
  version_n = 1;
  status = published;
  settings = settings;
  config_hash = some (codes "en");
  created_at = 5;
  published_at = some 6;
}

abbrev calling : SessionRow
calling = record {
  id = 4;
  organization_id = 0;
  project_id = 1;
  agent_id = 2;
  agent_version_id = 3;
  status = active;
  channel = codes "playground";
  livekit_room = none;
  config_hash = some (codes "en");
  started_at = 7;
  updated_at = 7;
  ended_at = none;
  error_code = none;
}

abbrev project : Project
project = record { id = 1; organization_id = 0 }

abbrev database : Database
database = record {
  projects = project ∷ [];
  agents = record { id = 2; organization_id = 0; project_id = 1 } ∷ [];
  versions = first ∷ [];
  sessions = calling ∷ [];
  uuids = 5;
  clock = 9;
}

abbrev change : Update
change = record {
  instructions = some (codes "Be long.");
  personality = none;
  locale = none;
  llm = none;
  stt = none;
  tts = none;
  tools = none;
}

database-Sound : Sound database
unfolding Keyed row_at
database-Sound = record { keyed = (refl, tt); made = λ id row f. made id row f }
  where
    made : (id : ℕ) (row : VersionRow) → (if 3 == id then some first else none) ≡ some row → id < 5
    made id row f = ground (arith, f)

abbrev calls : List Act
calls =
    updates 1 2 3 change
    ∷ creates 1 2 settings
    ∷ publishes 1 2 3
    ∷ updates 1 2 5 change
    ∷ publishes 1 2 5
    ∷ []

-- A second version was created, changed and published.
second_published :
    latest_published project 2 (acts digest valid calls database).versions
    ≡ some (record first {
      id = 5;
      version_n = 2;
      settings = record settings { instructions = codes "Be long." };
      created_at = 9;
      published_at = some 9;
    })
unfolding acts latest_published create_version update_version publish_version
second_published = refl

acts_keep_published_example : row_at 3 (acts digest valid calls database).versions ≡ some first
unfolding row_at
acts_keep_published_example =
    acts_keep_published digest valid calls database database-Sound 3 first refl refl

update_session_status_terminal_example :
    session_scope (update_session_status (λ row. true) 1 4 completed database) database
    ≡ (err invalid, database)
unfolding find_project find_session is_over
update_session_status_terminal_example =
    update_session_status_terminal (λ row. true) 1 4 completed database project calling refl refl
      refl refl
