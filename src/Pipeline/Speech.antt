-- ===== src/Pipeline/Speech.antt =====
-- The speech input of AgentRuntime in runtime.py: its handlers of the microphone, the listening task
-- and the finalisation of a spoken turn, and `handle_input`.
use xymphony_voice.Base.{
  ℕ, ◌==◌, Bool, true, false, not, ◌&&◌, ◌||◌, Option, none, some, List, [], ◌∷◌, mem, length, leb,
  if◌then◌else◌, is_some,
}
use xymphony_voice.Base.Text.{Text, codes, strip, is_empty}
use xymphony_voice.Base.Dict.{get}
use xymphony_voice.Base.Result.{ok, err}
use xymphony_voice.Errors.{runtime, invalid_runtime_input, runtime_not_running, validation_error}
use xymphony_voice.Turn.{is_terminal}
use xymphony_voice.Events.{Payload, Event}
use xymphony_voice.Runtime.State.{State, M, AudioFrame, lift, pure, raise, gets, modify}
use xymphony_voice.Runtime.Dispatch.{
  user_speech_started_event, user_speech_ended_event, transcript_frame_event,
}
use xymphony_voice.Runtime.Turns.{admit, current_turn, begin_turn, complete_turn}
use xymphony_voice.Runtime.Inputs.{handle_cancel_turn, handle_error, stop}
use xymphony_voice.Runtime.Tasks.{
  register_speech, cleanup_stt_turn, enqueue, start_finalizing, stop_finalizing, mark_speech_ended,
}
use xymphony_voice.Pipeline.{
  ◌>>=◌, ◌>>◌, Services, Stream, arrives, ends, breaks, wait, turn_over, unless_halted,
  provider_failure,
}
use xymphony_voice.Pipeline.Exchange.{finally, run_assistant_pipeline, handle_text_input}

-- STTTranscriptChunk
pub record Transcript : Type 0 where
  pub text : Text
  pub is_final : Bool
  pub start_ms : ℕ
  pub end_ms : ℕ
  pub confidence : Option ℕ

same_turn : Option ℕ → ℕ → Bool
same_turn none id = false
same_turn (some turn_id) id = turn_id == id

-- The text of an event that `_final_transcript_for_turn` does not pass over. An event of that
-- payload has the type TRANSCRIPT_FRAME, by the validator of Event.
final_text : Payload → Option Text
final_text (Payload.transcript_frame text true start_ms end_ms confidence) = some text
final_text _ = none

-- The loop of `_final_transcript_for_turn`: the last of them.
unfoldable pub last_transcript : ℕ → Option Text → List Event → Option Text
unfolding same_turn final_text
last_transcript turn_id found [] = found
last_transcript turn_id found (event ∷ events) =
    last_transcript turn_id
      (if same_turn event.turn_id turn_id
        then elim (final_text event.payload) [ none ↦ found | some text ↦ some text ]
        else found)
      events

-- AgentRuntime._final_transcript_for_turn
unfoldable pub final_transcript : ℕ → State → Option Text
unfolding last_transcript
final_transcript turn_id s = last_transcript turn_id none s.admitted_events

module _ (services : Services) where
  -- `if turn.id not in self._speech_ended_turn_ids: …`
  unfoldable pub announce_speech_end : ℕ → M (Unit {0})
  unfolding mark_speech_ended admit user_speech_ended_event mem
  announce_speech_end turn_id = do
    ended ← gets (λ s. mem turn_id s.speech_ended_turn_ids)
    if ended
        then pure tt
        else (do modify (mark_speech_ended turn_id); admit (user_speech_ended_event turn_id))

  -- The last transcript is answered, if it has text and a model is configured.
  unfoldable pub answer_transcript : ℕ → Option Text → M (Unit {0})
  unfolding strip run_assistant_pipeline complete_turn
  answer_transcript turn_id none = complete_turn turn_id
  answer_transcript turn_id (some text) =
      if not (is_empty (strip text)) && is_some services.llm_config
      then run_assistant_pipeline services turn_id (strip text)
      else complete_turn turn_id

  -- What a finalised turn comes to.
  unfoldable pub use_transcript : ℕ → M (Unit {0})
  unfolding turn_over final_transcript answer_transcript
  use_transcript turn_id = do
    over ← gets (turn_over turn_id)
    if over
        then pure tt
        else (do transcript ← gets (final_transcript turn_id); answer_transcript turn_id transcript)

  -- `if task is not None and task is not asyncio.current_task(): await task`, which raises what the
  -- task raised.
  unfoldable pub await_task : Bool → M (Unit {0})
  unfolding wait
  await_task true = do wait services.transcribing; lift services.transcribed
  await_task false = pure tt

  -- The end of the queue, the listening task and the cleaning up. The listening task does not wait
  -- for itself.
  unfoldable pub wind_up : Bool → ℕ → M (Unit {0})
  unfolding enqueue await_task cleanup_stt_turn use_transcript get
  wind_up listening turn_id = do
    modify (enqueue turn_id none)
    task ← gets (λ s. get s.stt_tasks turn_id)
    await_task (is_some task && not listening)
    modify (cleanup_stt_turn turn_id)
    use_transcript turn_id

  -- The body of the `try` of `_finalize_speech_turn`.
  unfoldable pub finalize_body : Bool → ℕ → M (Unit {0})
  unfolding announce_speech_end wind_up complete_turn
  finalize_body listening turn_id = do
    announce_speech_end turn_id
    if not services.speech_input then complete_turn turn_id else wind_up listening turn_id

  -- AgentRuntime._finalize_speech_turn; `listening` says that the listening task calls it.
  unfoldable pub finalize_speech_turn : Bool → ℕ → M (Unit {0})
  unfolding turn_over mem start_finalizing finalize_body stop_finalizing
  finalize_speech_turn listening turn_id = do
    over ← gets (turn_over turn_id)
    busy ← gets (λ s. mem turn_id s.finalizing_turns)
    if over || busy then pure tt else (do
      modify (start_finalizing turn_id)
      finally (finalize_body listening turn_id) (stop_finalizing turn_id))

  -- AgentRuntime._handle_user_speech_started
  unfoldable pub handle_user_speech_started : M (Unit {0})
  unfolding begin_turn admit user_speech_started_event register_speech
  handle_user_speech_started = do
    turn_id ← begin_turn
    admit (user_speech_started_event turn_id)
    (if services.speech_input then (do _ ← register_speech turn_id; pure tt) else pure tt)

  -- AgentRuntime._handle_user_speech_ended
  unfoldable pub handle_user_speech_ended : M (Unit {0})
  unfolding current_turn finalize_speech_turn
  handle_user_speech_ended = do
    turn ← gets current_turn
    elim turn [
      | none ↦ raise (runtime invalid_runtime_input)
      | some turn ↦
          if is_terminal turn.state
          then raise (runtime invalid_runtime_input)
          else finalize_speech_turn false turn.id
    ]

  -- The loop of `_run_stt_stream` and its `except`.
  unfoldable pub listen : ℕ → ℕ → Stream Transcript → M (Option (Unit {0}))
  unfolding wait unless_halted provider_failure admit transcript_frame_event finalize_speech_turn
  listen turn_id token (ends steps) = do
    wait steps
    unless_halted turn_id token (do finalize_speech_turn true turn_id; pure none)
  listen turn_id token (breaks steps e) = do wait steps; provider_failure turn_id token e
  listen turn_id token (arrives steps chunk rest) = do
    wait steps
    unless_halted turn_id token (do
      admit (
          transcript_frame_event turn_id chunk.text chunk.is_final chunk.start_ms chunk.end_ms
            chunk.confidence)
      (if chunk.is_final
          then (do finalize_speech_turn true turn_id; pure none)
          else listen turn_id token rest))

-- RuntimeInput, the fields of an audio frame
pub record AudioInput : Type 0 where
  pub data_bytes : Option (List ℕ)
  pub duration_ms : Option ℕ
  pub sample_rate_hz : Option ℕ
  pub channels : Option ℕ

-- `value or default` on `int | None`
or_number : Option ℕ → ℕ → ℕ
or_number none default = default
or_number (some n) default = if n == 0 then default else n

-- The field constraints of STTAudioFrame.
unfoldable pub valid_frame : AudioFrame → Bool
valid_frame frame =
    leb (length frame.data_bytes) 65536
    && leb 8000 frame.sample_rate_hz
    && leb frame.sample_rate_hz 48000
    && leb 1 frame.channels
    && leb frame.channels 2

-- AgentRuntime._handle_audio_frame
unfoldable pub handle_audio_frame : AudioInput → M (Unit {0})
unfolding or_number valid_frame enqueue get
handle_audio_frame input = elim input.data_bytes [
  | none ↦ raise (runtime invalid_runtime_input)
  | some bytes ↦ elim input.duration_ms [
    | none ↦ raise (runtime invalid_runtime_input)
    | some duration ↦
        let frame : AudioFrame = record {
          data_bytes = bytes;
          sample_rate_hz = or_number input.sample_rate_hz 16000;
          channels = or_number input.channels 1;
          duration_ms = duration;
        } in
        λ s. elim s.current_turn_id [
          | none ↦ (ok tt, s)
          | some turn_id ↦ elim (get s.stt_audio_queues turn_id) [
            | none ↦ (ok tt, s)
            | some queue ↦
                if valid_frame frame
                then (ok tt, enqueue turn_id (some frame) s)
                else (err validation_error, s)
          ]
        ]
  ]
]

-- RuntimeInput, by its kind
pub data RuntimeInput : Type 0 where
  text_input : Option Text → RuntimeInput
  user_speech_started user_speech_ended : RuntimeInput
  audio_frame : AudioInput → RuntimeInput
  cancel_turn : Option ℕ → RuntimeInput
  shutdown : RuntimeInput
  error : Option Text → Option Text → RuntimeInput

-- The `match` of `handle_input`; `tasks` is what the stopped tasks still do.
unfoldable pub dispatch_input : Services → (State → State) → RuntimeInput → M (Unit {0})
unfolding handle_text_input handle_user_speech_started handle_user_speech_ended handle_audio_frame
    handle_cancel_turn handle_error stop
dispatch_input services tasks (text_input text) = handle_text_input services text
dispatch_input services tasks user_speech_started = handle_user_speech_started services
dispatch_input services tasks user_speech_ended = handle_user_speech_ended services
dispatch_input services tasks (audio_frame input) = handle_audio_frame input
dispatch_input services tasks (cancel_turn turn_id) = handle_cancel_turn turn_id
dispatch_input services tasks shutdown = stop tasks (codes "user_stop")
dispatch_input services tasks (error code message) = handle_error code message

-- AgentRuntime.handle_input
unfoldable pub handle_input : Services → (State → State) → RuntimeInput → M (Unit {0})
unfolding dispatch_input
handle_input services tasks input s =
    if not s.running
    then (err (runtime runtime_not_running), s)
    else if s.shutdown
    then (ok tt, s)
    else dispatch_input services tasks input s
