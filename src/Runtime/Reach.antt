-- ===== src/Runtime/Reach.antt =====
-- Sequences of the operations of runtime.py, and the states that they reach.
use xymphony_voice.Base.{
  ℕ, Bool, ==-ne, ◌≡◌, refl, ◌∙◌, true, false, Option, none, some, List, [], ◌∷◌, arith, mem,
}
use xymphony_voice.Base.Text.{Text}
use xymphony_voice.Base.Dict.{get, get-put}
use xymphony_voice.Turn.{RuntimeTurn, active, is_terminal}
use xymphony_voice.Events.{Event, stale_if_turn_cancelled, is_stale}
use xymphony_voice.Summary.{ConversationSummary}
use xymphony_voice.Runtime.State.{State, AudioFrame, request_shutdown, is_turn_cancelled}
use xymphony_voice.Runtime.Turns.{
  admit_event, begin_turn, complete_turn, cancel_turn, cancel_active_turn,
}
use xymphony_voice.Runtime.Inputs.{handle_cancel_turn, handle_error, emit_stream_chunk, start}
use xymphony_voice.Runtime.Tasks.{
  fail_turn, register_tokens, release_tokens, register_speech, cleanup_stt_turn,
  persist_turn_exchange, enqueue, start_finalizing, stop_finalizing, mark_speech_ended,
  store_summary,
}
use xymphony_voice.Runtime.Working.{
  fail_turn-Moves, register_tokens-Rewires, release_tokens-Rewires, register_speech-Rewires,
  cleanup_stt_turn-Rewires, persist_turn_exchange-Quiet, enqueue-Quiet, start_finalizing-Quiet,
  stop_finalizing-Quiet, mark_speech_ended-Quiet, store_summary-Quiet,
}
use xymphony_voice.Runtime.Invariant.{Inv}
use xymphony_voice.Runtime.Quiet.{Quiet, admit_event-Quiet}
use xymphony_voice.Runtime.Keeps.{
  Slot-at, Moves, stays, rewires, opens, closes, Moves-Inv, begin_turn-Moves, complete_turn-Moves,
}
use xymphony_voice.Runtime.Interruption.{cancel_turn-Moves}
use xymphony_voice.Runtime.Operations.{
  cancel_active_turn-Moves, handle_cancel_turn-Moves, start-Moves,
}
use xymphony_voice.Runtime.Failing.{handle_error-Moves}

-- One operation, with its arguments.
pub data Operation : Type 0 where
  starts begins : Operation
  completes : ℕ → Operation
  cancels : ℕ → Operation
  cancels_active : Operation
  handles_cancel : Option ℕ → Operation
  handles_error : Option Text → Option Text → Operation
  admits : Event → Operation
  shuts_down : Operation
  registers releases listens cleans : ℕ → Operation
  fails : ℕ → Text → Text → Bool → Operation
  persists : ℕ → Text → Text → Operation
  enqueues : ℕ → Option AudioFrame → Operation
  finalizes finalized speech_ends : ℕ → Operation
  summarizes : Option ConversationSummary → Operation

abbrev pub perform : Operation → State → State
perform starts s = (start s).1
perform begins s = (begin_turn s).1
perform (completes id) s = (complete_turn id s).1
perform (cancels id) s = (cancel_turn id s).1
perform cancels_active s = (cancel_active_turn s).1
perform (handles_cancel id) s = (handle_cancel_turn id s).1
perform (handles_error code message) s = (handle_error code message s).1
perform (admits event) s = (admit_event event s).1
perform shuts_down s = request_shutdown s
perform (registers id) s = (register_tokens id s).1
perform (releases id) s = release_tokens id s
perform (listens id) s = (register_speech id s).1
perform (cleans id) s = cleanup_stt_turn id s
perform (fails id code message retryable) s = (fail_turn id code message retryable s).1
perform (persists id user assistant) s = (persist_turn_exchange id user assistant s).1
perform (enqueues id frame) s = enqueue id frame s
perform (finalizes id) s = start_finalizing id s
perform (finalized id) s = stop_finalizing id s
perform (speech_ends id) s = mark_speech_ended id s
perform (summarizes summary) s = store_summary summary s

unfoldable pub run : State → List Operation → State
run s [] = s
run s (o ∷ os) = run (perform o s) os

-- AgentRuntime.__init__ after RuntimeContext.from_session
pub record IsFresh (s : State) : Type 0 where
  pub no_turns : s.turns ≡ []
  pub no_current : s.current_turn_id ≡ none
  pub no_cancelled : s.cancelled_turn_ids ≡ []
  pub no_tokens :
      (s.llm_cancel_tokens ≡ []) × (s.stt_cancel_tokens ≡ []) × (s.tts_cancel_tokens ≡ [])
  pub none_set : s.set_tokens ≡ []

pub fresh-Inv : (s : State) → IsFresh s → Inv s
unfolding get mem
fresh-Inv s h = record {
  at = λ id. rw (h.no_turns, h.no_current, h.no_cancelled) (refl, λ e. cc e);
}

request_shutdown-Quiet : (s : State) → Quiet s (request_shutdown s)
unfolding request_shutdown
request_shutdown-Quiet s = ground arith

pub perform-Moves : (o : Operation) (s : State) → Inv s → Moves s (perform o s)
perform-Moves starts s h = start-Moves s h
perform-Moves begins s h = begin_turn-Moves s
perform-Moves (completes id) s h = complete_turn-Moves id s h
perform-Moves (cancels id) s h = cancel_turn-Moves id s h
perform-Moves cancels_active s h = cancel_active_turn-Moves s h
perform-Moves (handles_cancel id) s h = handle_cancel_turn-Moves id s h
perform-Moves (handles_error code message) s h = handle_error-Moves code message s h
perform-Moves (admits event) s h = stays (admit_event-Quiet event s)
perform-Moves shuts_down s h = stays (request_shutdown-Quiet s)
perform-Moves (registers id) s h = rewires (register_tokens-Rewires id s)
perform-Moves (releases id) s h = rewires (release_tokens-Rewires id s)
perform-Moves (listens id) s h = rewires (register_speech-Rewires id s)
perform-Moves (cleans id) s h = rewires (cleanup_stt_turn-Rewires id s)
perform-Moves (fails id code message retryable) s h = fail_turn-Moves id code message retryable s h
perform-Moves (persists id user assistant) s h =
    stays (persist_turn_exchange-Quiet id user assistant s)
perform-Moves (enqueues id frame) s h = stays (enqueue-Quiet id frame s)
perform-Moves (finalizes id) s h = stays (start_finalizing-Quiet id s)
perform-Moves (finalized id) s h = stays (stop_finalizing-Quiet id s)
perform-Moves (speech_ends id) s h = stays (mark_speech_ended-Quiet id s)
perform-Moves (summarizes summary) s h = stays (store_summary-Quiet summary s)

pub perform-Inv : (o : Operation) (s : State) → Inv s → Inv (perform o s)
perform-Inv o s h = Moves-Inv s (perform o s) (perform-Moves o s h) h

pub run-Inv : (s : State) (os : List Operation) → Inv s → Inv (run s os)
unfolding run
run-Inv s [] h = h
run-Inv s (o ∷ os) h = run-Inv (perform o s) os (perform-Inv o s h)

-- After any sequence of operations on a fresh runtime, a stored turn that is not over is active,
-- is the current turn and is not marked cancelled. So no two turns are ever open at once.
pub run_one_open_turn :
    (s : State) (os : List Operation) (id : ℕ) (turn : RuntimeTurn)
    → IsFresh s
    → get (run s os).turns id ≡ some turn
    → is_terminal turn.state ≡ false
    → ((run s os).current_turn_id ≡ some id)
      × (turn.state ≡ active)
      × (mem id (run s os).cancelled_turn_ids ≡ false)
run_one_open_turn s os id turn fresh found live =
    (Slot-at (run s os) id turn (run-Inv s os (fresh-Inv s fresh)) found).3 live

module _ (s t : State) (h : Inv s) where
  Moves-final :
      (id : ℕ) (turn : RuntimeTurn)
      → Moves s t
      → get s.turns id ≡ some turn
      → is_terminal turn.state ≡ true
      → get t.turns id ≡ some turn
  Moves-final id turn (stays q) f over = rw q.turns f
  Moves-final id turn (rewires r) f over = rw r.calm.turns f
  Moves-final id turn (opens g e) f over =
      rw (e, get-put, ==-ne s.uuids id (λ x. ground (arith, (Slot-at s id turn h f).1))) f
  Moves-final id turn (closes j ended g live e) f over =
      rw (e.stored, get-put, ==-ne j id (λ x. ground arith)) f

  Moves-marks : (id : ℕ) → Moves s t → is_turn_cancelled id s ≡ true → is_turn_cancelled id t ≡ true
  unfolding is_turn_cancelled
  Moves-marks id (stays q) m = rw q.cancelled m
  Moves-marks id (rewires r) m = rw r.calm.cancelled m
  Moves-marks id (opens g e) m = rw e m
  Moves-marks id (closes j ended g live e) m =
      e.marks id (λ x. absurd (ground (arith, ((Slot-at s j ended h g).3 live).2))) ∙ m

-- A turn that is completed, cancelled or failed in a state that satisfies the runtime's invariant
-- is stored unchanged, every field of it, after any sequence of further operations.
pub run_over_turn_final :
    (s : State) (os : List Operation) (id : ℕ) (turn : RuntimeTurn)
    → Inv s
    → get s.turns id ≡ some turn
    → is_terminal turn.state ≡ true
    → get (run s os).turns id ≡ some turn
unfolding run
run_over_turn_final s [] id turn h f over = f
run_over_turn_final s (o ∷ os) id turn h f over =
    run_over_turn_final (perform o s) os id turn (perform-Inv o s h)
      (Moves-final s (perform o s) h id turn (perform-Moves o s h) f over) over

run-marks :
    (s : State) (os : List Operation) (id : ℕ)
    → Inv s
    → is_turn_cancelled id s ≡ true
    → is_turn_cancelled id (run s os) ≡ true
unfolding run
run-marks s [] id h m = m
run-marks s (o ∷ os) id h m =
    run-marks (perform o s) os id (perform-Inv o s h)
      (Moves-marks s (perform o s) h id (perform-Moves o s h) m)

is_stale-own :
    (event : Event) (id : ℕ) (s : State)
    → event.turn_id ≡ some id
    → stale_if_turn_cancelled event.type ≡ true
    → is_turn_cancelled id s ≡ true
    → is_stale event s.cancelled_turn_ids ≡ true
unfolding is_stale is_turn_cancelled
is_stale-own event id s t k m = ground (arith, t, k, m)

admit_event-stale :
    (event : Event) (s : State)
    → is_stale event s.cancelled_turn_ids ≡ true
    → admit_event event s ≡ (false, s)
unfolding admit_event
admit_event-stale event s e = rw e refl

chunk-suppressed :
    (id : ℕ) (s : State) → is_turn_cancelled id s ≡ true → emit_stream_chunk id s ≡ false
unfolding emit_stream_chunk
chunk-suppressed id s m = rw m refl

-- Once a turn is marked cancelled in a state that satisfies the runtime's invariant, then after any
-- sequence of operations an event of that turn of a type in STALE_IF_TURN_CANCELLED is refused and
-- leaves the state unchanged, and every stream chunk of the turn is suppressed.
pub run_cancelled_silent :
    (s : State) (os : List Operation) (id : ℕ) (event : Event)
    → Inv s
    → is_turn_cancelled id s ≡ true
    → event.turn_id ≡ some id
    → stale_if_turn_cancelled event.type ≡ true
    → (admit_event event (run s os) ≡ (false, run s os)) × (emit_stream_chunk id (run s os) ≡ false)
run_cancelled_silent s os id event h m t k =
    let later = run-marks s os id h m in
    (
      admit_event-stale event (run s os) (is_stale-own event id (run s os) t k later),
      chunk-suppressed id (run s os) later,
    )
