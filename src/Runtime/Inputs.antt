-- ===== src/Runtime/Inputs.antt =====
-- The methods of AgentRuntime in runtime.py that start and stop the runtime, and its handlers of
-- cancellation, errors and stream chunks.
use xymphony_voice.Base.{ℕ, ◌==◌, Bool, true, false, not, ◌&&◌, Option, none, some, if◌then◌else◌}
use xymphony_voice.Base.Text.{Text, codes, text_eq, is_empty}
use xymphony_voice.Base.Dict.{Dict, get, put}
use xymphony_voice.Base.Result.{ok, err}
use xymphony_voice.Errors.{runtime, invalid_runtime_input}
use xymphony_voice.Turn.{RuntimeTurn, is_terminal}
use xymphony_voice.Runtime.State.{
  State, M, SessionStatus, SessionEndReason, Session, ◌>>◌, modify, request_shutdown,
  mark_cancelled, is_turn_cancelled,
}
use xymphony_voice.Runtime.Dispatch.{session_started_event, session_ended_event, error_event}
use xymphony_voice.Runtime.Turns.{
  admit, current_turn, clear_current, cancel_turn, cancel_active_turn, fail_turn_object,
}

-- InMemorySessionRepository.get_session with the context's organization and project.
unfoldable pub get_session : Dict Session → State → Option Session
unfolding get
get_session sessions s = elim (get sessions s.session_id) [
  | none ↦ none
  | some session ↦
      if session.organization_id == s.organization_id && session.project_id == s.project_id
      then some session
      else none
]

-- `if value is not None: updates[…] = value`
abbrev updated {ℓ} : {A : Type ℓ} → Option A → Option A → Option A
updated none old = old
updated (some new) old = some new

-- AgentRuntime._sync_session_status, with InMemorySessionRepository.update_session
unfoldable pub sync_session_status :
    SessionStatus → Option ℕ → Option SessionEndReason → State → State
unfolding get_session put
sync_session_status status ended_at end_reason s = elim s.sessions [
  | none ↦ s
  | some sessions ↦ elim (get_session sessions s) [
    | none ↦ s
    | some session ↦ record s {
      sessions = some (
          put sessions session.id (record session {
            status = status;
            ended_at = updated ended_at session.ended_at;
            end_reason = updated end_reason session.end_reason;
          }));
    }
  ]
]

-- AgentRuntime._map_stop_reason
unfoldable pub map_stop_reason : Text → SessionEndReason
unfolding text_eq
map_stop_reason reason =
    if text_eq reason (codes "user_stop")
    then SessionEndReason.user_stop
    else if text_eq reason (codes "worker_draining")
    then SessionEndReason.worker_draining
    else if text_eq reason (codes "disconnect")
    then SessionEndReason.disconnect
    else SessionEndReason.error

unfoldable pub set_status : SessionStatus → State → State
set_status status s = record s { context = record (s.context) { session_status = status } }

-- AgentRuntime.start
unfoldable pub start : M (Unit {0})
unfolding set_status
start s =
    if s.running
    then (ok tt, s)
    else (do
      modify (λ s'. record s' { running = true })
      modify (set_status SessionStatus.active)
      modify (sync_session_status SessionStatus.active none none)
      admit session_started_event)
        s

-- AgentRuntime.stop. `tasks` is what happens while the cancelled tasks are gathered.
unfoldable pub stop : (State → State) → Text → M (Unit {0})
unfolding set_status
stop tasks reason s =
    if not s.running
    then (ok tt, s)
    else (do
      modify request_shutdown
      cancel_active_turn
      modify tasks
      admit (session_ended_event reason)
      modify (set_status SessionStatus.terminated)
      modify (λ s'.
          sync_session_status SessionStatus.terminated (some s'.clock)
            (some (map_stop_reason reason)) s')
      modify (λ s'. record s' { running = false; current_turn_id = none }))
        s

-- AgentRuntime._handle_cancel_turn
unfoldable pub handle_cancel_turn : Option ℕ → M (Unit {0})
handle_cancel_turn (some turn_id) s = cancel_turn turn_id s
handle_cancel_turn none s = elim s.current_turn_id [
  | none ↦ (err (runtime invalid_runtime_input), s)
  | some turn_id ↦ cancel_turn turn_id s
]

-- `text or default`
unfoldable pub or_default : Option Text → Text → Text
or_default none default = default
or_default (some t) default = if is_empty t then default else t

-- The branch of `_handle_error` for a turn that is not terminal.
unfoldable pub fail_current : Text → Text → RuntimeTurn → M (Unit {0})
fail_current code message turn = do
  fail_turn_object code turn
  modify (mark_cancelled turn.id)
  admit (error_event code message (some turn.id) false)
  modify (clear_current turn.id)

-- AgentRuntime._handle_error
unfoldable pub handle_error : Option Text → Option Text → M (Unit {0})
handle_error error_code error_message s =
    let code = or_default error_code (codes "runtime_error") in
    let message = or_default error_message (codes "runtime error") in
    elim (current_turn s) [
      | none ↦ admit (error_event code message none false) s
      | some turn ↦
          if is_terminal turn.state
          then admit (error_event code message none false) s
          else fail_current code message turn s
    ]

-- AgentRuntime.emit_stream_chunk: whether the chunk is let through to the output sink.
unfoldable pub emit_stream_chunk : ℕ → State → Bool
unfolding is_turn_cancelled
emit_stream_chunk turn_id s = if is_turn_cancelled turn_id s then false else true
