-- ===== src/Pipeline/Exchange.antt =====
-- AgentRuntime._run_assistant_pipeline and _handle_text_input of runtime.py.
use xymphony_voice.Base.{ℕ, Option, none, some, if◌then◌else◌, is_some}
use xymphony_voice.Base.Text.{Text, strip, is_empty}
use xymphony_voice.Errors.{runtime, invalid_runtime_input}
use xymphony_voice.Runtime.State.{State, M, pure, raise, gets}
use xymphony_voice.Runtime.Turns.{begin_turn, complete_turn}
use xymphony_voice.Runtime.Tasks.{register_tokens, release_tokens, persist_turn_exchange}
use xymphony_voice.Pipeline.{◌>>=◌, ◌>>◌, Services, turn_over}
use xymphony_voice.Pipeline.Reply.{run_llm_stream}
use xymphony_voice.Pipeline.Voice.{run_tts_stream}

-- `try: body finally: last`
abbrev pub finally : {A : Type 0} → M A → (State → State) → M A
finally body last s = let r = body s in (r.0, last r.1)

module _ (services : Services) where
  -- From the answer on: what is spoken, stored and completed.
  unfoldable pub deliver : ℕ → ℕ → Text → Text → M (Unit {0})
  unfolding turn_over run_tts_stream persist_turn_exchange complete_turn
  deliver turn_id token user_text assistant_text = do
    over ← gets (turn_over turn_id)
    if over then pure tt else (do
      run_tts_stream services turn_id token services.tts_config assistant_text
      over' ← gets (turn_over turn_id)
      if over'
          then pure tt
          else (do persist_turn_exchange turn_id user_text assistant_text; complete_turn turn_id))

  -- `if assistant_text is None: return`
  unfoldable pub deliver_reply : ℕ → ℕ → Text → Option Text → M (Unit {0})
  unfolding deliver
  deliver_reply turn_id token user_text none = pure tt
  deliver_reply turn_id token user_text (some reply) = deliver turn_id token user_text reply

  -- The body of the `try`.
  unfoldable pub answer : ℕ → ℕ → Text → M (Unit {0})
  unfolding run_llm_stream deliver_reply
  answer turn_id token user_text =
      run_llm_stream services turn_id token user_text services.llm_config
      >>= deliver_reply turn_id token user_text

  -- AgentRuntime._run_assistant_pipeline
  unfoldable pub run_assistant_pipeline : ℕ → Text → M (Unit {0})
  unfolding register_tokens answer release_tokens
  run_assistant_pipeline turn_id user_text = do
    token ← register_tokens turn_id
    finally (answer turn_id token user_text) (release_tokens turn_id)

  -- AgentRuntime._handle_text_input
  unfoldable pub handle_text_input : Option Text → M (Unit {0})
  unfolding strip begin_turn complete_turn run_assistant_pipeline
  handle_text_input none = raise (runtime invalid_runtime_input)
  handle_text_input (some text) =
      if is_empty (strip text) then raise (runtime invalid_runtime_input) else (do
        turn_id ← begin_turn
        (if is_some services.llm_config
            then run_assistant_pipeline turn_id (strip text)
            else complete_turn turn_id))
