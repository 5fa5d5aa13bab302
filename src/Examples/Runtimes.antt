-- ===== src/Examples/Runtimes.antt =====
-- A runtime of packages/agent-runtime/src/xymphony_runtime/runtime.py with one turn open.
use xymphony_voice.Base.{
  ℕ, ◌≡◌, ap, subst, ◌∙◌, ◌↔◌, refl, true, false, none, some, [], ◌∷◌, ◌++◌, mem, ◌==◌,
  if◌then◌else◌,
}
use xymphony_voice.Base.Text.{codes}
use xymphony_voice.Base.Dict.{get, put}
use xymphony_voice.Base.Result.{ok}
use xymphony_voice.Turn.{RuntimeTurn, LifecycleState, active, completed, is_terminal}
use xymphony_voice.Events.{
  Event, EventType, EventSource, Payload, valid_payload, stale_if_turn_cancelled,
}
use xymphony_voice.Runtime.State.{State, SessionStatus}
use xymphony_voice.Runtime.Turns.{
  current_turn, admit_event, begin_turn, complete_turn, cancel_turn, begin_guard,
}
use xymphony_voice.Runtime.Inputs.{stop, handle_error, or_default, emit_stream_chunk}
use xymphony_voice.Runtime.Invariant.{Inv}
use xymphony_voice.Runtime.Keeps.{
  begun, begun_turn, begin_turn-eq, begin_turn_succeeds_iff, complete_turn_lem,
}
use xymphony_voice.Runtime.Interruption.{Interrupted, cancel_turn_lem}
use xymphony_voice.Runtime.Failure.{Failed, handle_error_lem}
use xymphony_voice.Runtime.Stopping.{AllOver, Gathers, quiesced, ended, stop_lem}
use xymphony_voice.Runtime.Reach.{
  begins, cancels, completes, run, IsFresh, fresh-Inv, run-Inv, run_one_open_turn,
  run_over_turn_final, run_cancelled_silent,
}

-- A runtime that was just built.
abbrev pub fresh : State
fresh = record {
  context = record {
    session_id = 40;
    organization_id = 41;
    project_id = 42;
    agent_id = 43;
    agent_version_id = 44;
    deployment_id = none;
    session_status = SessionStatus.initializing;
    shutdown = false;
    cancelled_turn_ids = [];
    sequence = 0;
    turn_sequence = 0;
  };
  running = true;
  turns = [];
  current_turn_id = none;
  admitted_events = [];
  listeners = 80 ∷ [];
  deliveries = [];
  llm_cancel_tokens = [];
  stt_cancel_tokens = [];
  tts_cancel_tokens = [];
  set_tokens = [];
  stt_audio_queues = [];
  stt_tasks = [];
  finalizing_turns = [];
  speech_ended_turn_ids = [];
  sessions = none;
  conversations = some [];
  summaries = none;
  uuids = 1;
  clock = 100;
}

pub fresh-IsFresh : IsFresh fresh
fresh-IsFresh = record {
  no_turns = refl;
  no_current = refl;
  no_cancelled = refl;
  no_tokens = (refl, refl, refl);
  none_set = refl;
}

abbrev pub opened : State
opened = begun fresh

begins_once : begin_turn fresh ≡ (ok 1, opened)
begins_once = begin_turn-eq fresh (unfold begin_guard in refl)

fresh-Inv_here : Inv fresh
fresh-Inv_here = fresh-Inv fresh fresh-IsFresh

pub run_begins : run fresh (begins ∷ []) ≡ opened
unfolding run
run_begins = ap (λ r. r.1) begins_once

pub opened-Inv : Inv opened
opened-Inv = subst Inv run_begins (run-Inv fresh (begins ∷ []) fresh-Inv_here)

pub open_found : get opened.turns 1 ≡ some (begun_turn fresh)
unfolding get put
open_found = refl

-- The same runtime after the turn was cancelled.
abbrev interrupted : State
interrupted = (cancel_turn 1 opened).1

cancelling :
    ((cancel_turn 1 opened).0 ≡ ok tt) × Interrupted 1 (begun_turn fresh) opened interrupted
cancelling = cancel_turn_lem 1 opened (begun_turn fresh) opened-Inv open_found refl

cancel_turn_lem_example :
    ((cancel_turn 1 opened).0 ≡ ok tt) × Interrupted 1 (begun_turn fresh) opened interrupted
cancel_turn_lem_example = cancel_turn_lem 1 opened (begun_turn fresh) opened-Inv open_found refl

run_cancels : run opened (cancels 1 ∷ []) ≡ interrupted
unfolding run
run_cancels = refl

interrupted-Inv : Inv interrupted
interrupted-Inv = subst Inv run_cancels (run-Inv opened (cancels 1 ∷ []) opened-Inv)

abbrev cancelled_turn : RuntimeTurn
cancelled_turn = record (begun_turn fresh) {
  state = LifecycleState.cancelled;
  interrupted = true;
  ended_at = some 100;
}

abbrev token : Event
token = record {
  id = 9;
  type = EventType.llm_token;
  timestamp = 101;
  session_id = 40;
  organization_id = 41;
  project_id = 42;
  agent_id = 43;
  agent_version_id = 44;
  deployment_id = none;
  turn_id = some 1;
  sequence = 7;
  source = EventSource.llm;
  correlation_id = 40;
  causation_id = none;
  payload = Payload.llm_token (codes "late");
}

run_one_open_turn_example :
    ((run fresh (begins ∷ [])).current_turn_id ≡ some 1)
    × (active ≡ active)
    × (mem 1 (run fresh (begins ∷ [])).cancelled_turn_ids ≡ false)
run_one_open_turn_example =
    run_one_open_turn fresh (begins ∷ []) 1 (begun_turn fresh) fresh-IsFresh
      (ap (λ s. get s.turns 1) run_begins ∙ open_found) refl

run_over_turn_final_example :
    get (run interrupted (begins ∷ completes 1 ∷ [])).turns 1 ≡ some cancelled_turn
run_over_turn_final_example =
    run_over_turn_final interrupted (begins ∷ completes 1 ∷ []) 1 cancelled_turn interrupted-Inv
      (cancelling.1).own refl

run_cancelled_silent_example :
    (admit_event token (run interrupted (begins ∷ [])) ≡ (false, run interrupted (begins ∷ [])))
    × (emit_stream_chunk 1 (run interrupted (begins ∷ [])) ≡ false)
run_cancelled_silent_example =
    run_cancelled_silent interrupted (begins ∷ []) 1 token interrupted-Inv (cancelling.1).marked
      refl (unfold stale_if_turn_cancelled in refl)

begin_turn_succeeds_iff_example : ((id : ℕ) × ((begin_turn opened).0 ≡ ok id)) ↔ (
    (id : ℕ) (turn : RuntimeTurn) → get opened.turns id ≡ some turn → is_terminal turn.state ≡ true)
begin_turn_succeeds_iff_example = begin_turn_succeeds_iff opened opened-Inv

complete_turn_lem_example :
    ((complete_turn 1 opened).0 ≡ ok tt)
    × ((j : ℕ)
        → get (complete_turn 1 opened).1.turns j ≡ (
            if 1 == j
            then some (record (begun_turn fresh) { state = completed; ended_at = some 100 })
            else get opened.turns j))
    × ((complete_turn 1 opened).1.current_turn_id ≡ none)
complete_turn_lem_example = complete_turn_lem 1 opened (begun_turn fresh) opened-Inv open_found refl

-- Tasks that do nothing more once they are cancelled.
idle-Gathers : Gathers (λ s. s)
idle-Gathers = record { keeps = λ t h over. h; settles = λ t h over. over }

stop_lem_example :
    ((stop (λ s. s) (codes "user_stop") opened).0 ≡ ok tt)
    × AllOver (stop (λ s. s) (codes "user_stop") opened).1
    × ((stop (λ s. s) (codes "user_stop") opened).1.current_turn_id ≡ none)
    × ((stop (λ s. s) (codes "user_stop") opened).1.running ≡ false)
    × ((stop (λ s. s) (codes "user_stop") opened).1.session_status ≡ SessionStatus.terminated)
    × ((stop (λ s. s) (codes "user_stop") opened).1.admitted_events
        ≡ (quiesced (λ s. s) opened).admitted_events
          ++ ended (codes "user_stop") (quiesced (λ s. s) opened) ∷ [])
stop_lem_example =
    stop_lem (λ s. s) (codes "user_stop") opened opened-Inv refl (unfold valid_payload in refl)
      idle-Gathers

open_current : current_turn opened ≡ some (begun_turn fresh)
unfolding current_turn get put
open_current = refl

handle_error_lem_example :
    ((handle_error (some (codes "llm_timeout")) none opened).0 ≡ ok tt)
    × Failed
        (or_default (some (codes "llm_timeout")) (codes "runtime_error"))
        (or_default none (codes "runtime error"))
        (begun_turn fresh)
        opened
        (handle_error (some (codes "llm_timeout")) none opened).1
handle_error_lem_example =
    handle_error_lem (some (codes "llm_timeout")) none opened (begun_turn fresh) opened-Inv
      open_current refl (unfold valid_payload or_default in refl)
