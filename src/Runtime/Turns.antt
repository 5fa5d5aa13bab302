-- ===== src/Runtime/Turns.antt =====
-- The methods of AgentRuntime in runtime.py that admit events and begin, complete, cancel and fail
-- turns. A turn object is shared by reference: it is read and written in the dict of turns.
use xymphony_voice.Base.{
  ℕ, ◌==◌, Bool, true, false, Option, none, some, [], ◌∷◌, ◌++◌, map, if◌then◌else◌,
}
use xymphony_voice.Base.Text.{Text}
use xymphony_voice.Base.Dict.{get, put}
use xymphony_voice.Base.Result.{ok, err}
use xymphony_voice.Errors.{
  Raises, runtime, invalid_runtime_input, invalid_state_transition, stale_turn_event, crash,
}
use xymphony_voice.Turn.{RuntimeTurn, is_terminal, create, activate, complete, cancel, fail}
use xymphony_voice.Events.{Event, is_stale}
use xymphony_voice.Runtime.State.{
  State, M, resume, ◌>>=◌, ◌>>◌, pure, gets, modify, lift, next_turn_sequence, mark_cancelled,
  is_turn_cancelled, set_token, fresh_uuid,
}
use xymphony_voice.Runtime.Dispatch.{agent_interrupted_event}

-- AgentRuntime.admit_event
unfoldable pub admit_event : Event → State → Bool × State
unfolding is_stale
admit_event event s = if is_stale event s.cancelled_turn_ids then (false, s) else (
  true,
  record s {
    admitted_events = s.admitted_events ++ event ∷ [];
    deliveries = s.deliveries ++ map (λ listener. (listener, event)) s.listeners;
  },
)

-- `self.admit_event(…)` as a statement
unfoldable pub admit : M Event → M (Unit {0})
unfolding admit_event
admit build = do event ← build; modify (λ s. (admit_event event s).1)

-- The `current_turn` property.
unfoldable pub current_turn : State → Option RuntimeTurn
unfolding get
current_turn s = elim s.current_turn_id [ none ↦ none | some id ↦ get s.turns id ]

unfoldable pub store_turn : RuntimeTurn → State → State
unfolding put
store_turn turn s = record s { turns = put s.turns turn.id turn }

-- `if self._current_turn_id == turn_id: self._current_turn_id = None`
unfoldable pub clear_current : ℕ → State → State
clear_current turn_id s = elim s.current_turn_id [
  | none ↦ s
  | some id ↦ if id == turn_id then record s { current_turn_id = none } else s
]

-- The guard of `_begin_turn`; a current turn that is not in the dict is a KeyError.
unfoldable pub begin_guard : State → Raises (Unit {0})
unfolding get
begin_guard s = elim s.current_turn_id [
  | none ↦ ok tt
  | some id ↦ elim (get s.turns id) [
    | none ↦ err crash
    | some current ↦
        if is_terminal current.state then ok tt else err (runtime invalid_runtime_input)
  ]
]

-- AgentRuntime._begin_turn; it returns the turn's id.
unfoldable pub begin_turn : M ℕ
unfolding fresh_uuid next_turn_sequence create activate store_turn
begin_turn = do
  checked ← gets begin_guard
  _ ← lift checked
  turn_id ← fresh_uuid
  sequence ← next_turn_sequence
  created ← gets (λ s. create turn_id s.session_id s.organization_id sequence s.clock)
  turn ← lift (activate created)
  modify (λ s. record (store_turn turn s) { current_turn_id = some turn_id })
  pure turn_id

-- AgentRuntime._complete_turn
unfoldable pub complete_turn : ℕ → M (Unit {0})
unfolding complete
complete_turn turn_id s = elim (get s.turns turn_id) [
  | none ↦ (err crash, s)
  | some turn ↦
      if is_terminal turn.state
      then (err (runtime invalid_state_transition), s)
      else if is_turn_cancelled turn_id s
      then (err (runtime stale_turn_event), s)
      else resume (complete s.clock turn)
          (λ done. modify (λ s'. clear_current turn_id (store_turn done s'))) s
]

-- The three look-ups of `_cancel_turn` that set the tokens of a turn.
unfoldable pub set_turn_tokens : ℕ → State → State
unfolding set_token get
set_turn_tokens turn_id s =
    set_token (get s.tts_cancel_tokens turn_id)
      (set_token (get s.stt_cancel_tokens turn_id) (set_token (get s.llm_cancel_tokens turn_id) s))

-- `turn.cancel()` on the shared turn, with `interrupted=True`
unfoldable pub cancel_turn_object : RuntimeTurn → M (Unit {0})
unfolding cancel store_turn
cancel_turn_object turn = do
  now ← gets (λ s. s.clock)
  done ← lift (cancel now true turn)
  modify (store_turn done)

-- AgentRuntime._cancel_turn
unfoldable pub cancel_turn : ℕ → M (Unit {0})
cancel_turn turn_id s = elim (get s.turns turn_id) [
  | none ↦ (err (runtime invalid_runtime_input), s)
  | some turn ↦
      if is_terminal turn.state
      then (ok tt, s)
      else (do
        modify (λ s'. mark_cancelled turn_id (set_turn_tokens turn_id s'))
        cancel_turn_object turn
        admit (agent_interrupted_event turn_id)
        modify (clear_current turn_id))
          s
]

-- AgentRuntime._cancel_active_turn
unfoldable pub cancel_active_turn : M (Unit {0})
cancel_active_turn s = elim s.current_turn_id [
  | none ↦ (ok tt, s)
  | some id ↦ elim (get s.turns id) [
    | none ↦ (ok tt, s)
    | some turn ↦ if is_terminal turn.state then (ok tt, s) else cancel_turn turn.id s
  ]
]

-- `turn.fail(error_code=code)` on the shared turn
unfoldable pub fail_turn_object : Text → RuntimeTurn → M (Unit {0})
unfolding fail store_turn
fail_turn_object code turn = do
  now ← gets (λ s. s.clock)
  done ← lift (fail now code turn)
  modify (store_turn done)
