-- ===== src/Pipeline/Voice.antt =====
-- AgentRuntime._run_tts_stream of runtime.py, with the TTSRequest of
-- packages/contracts/src/xymphony_contracts/tts.py.
use xymphony_voice.Base.{true, false, ℕ, leb, Bool, ◌&&◌, Option, none, some, length}
use xymphony_voice.Base.Text.{Text}
use xymphony_voice.Errors.{validation_error}
use xymphony_voice.Runtime.State.{M, pure, raise}
use xymphony_voice.Runtime.Dispatch.{tts_chunk_event}
use xymphony_voice.Runtime.Turns.{admit}
use xymphony_voice.Pipeline.{
  ◌>>=◌, ◌>>◌, Services, Stream, arrives, ends, breaks, TtsChunk, TtsConfig, TtsRequest, wait,
  unless_halted, provider_failure,
}

within : ℕ → ℕ → Text → Bool
within lo hi t = leb lo (length t) && leb (length t) hi

-- The field constraints of TTSRequest.
unfoldable pub valid_request : TtsRequest → Bool
unfolding within
valid_request r = within 1 64 r.provider_key && within 1 256 r.voice_ref && within 1 32000 r.text

module _ (services : Services) (turn_id token : ℕ) where
  -- The `async for` over the chunks, with its `except`. The source returns nothing; `none` is a
  -- `return` before the end.
  unfoldable pub speak_chunks : Stream TtsChunk → M (Option (Unit {0}))
  unfolding wait unless_halted provider_failure admit tts_chunk_event
  speak_chunks (ends steps) = do wait steps; pure (some tt)
  speak_chunks (breaks steps e) = do wait steps; provider_failure turn_id token e
  speak_chunks (arrives steps chunk rest) = do
    wait steps
    unless_halted turn_id token
        (do admit (tts_chunk_event turn_id chunk.audio_ref chunk.text_range); speak_chunks rest)

  -- The request, if its fields are valid, is spoken.
  unfoldable pub speak_request : Bool → TtsRequest → M (Unit {0})
  unfolding speak_chunks
  speak_request false request = raise validation_error
  speak_request true request = do _ ← speak_chunks (services.speak request); pure tt

  -- AgentRuntime._run_tts_stream
  unfoldable pub run_tts_stream : Option TtsConfig → Text → M (Unit {0})
  unfolding valid_request speak_request
  run_tts_stream none text = pure tt
  run_tts_stream (some config) text =
      let request : TtsRequest = record {
        provider_key = config.provider_key;
        voice_ref = config.voice_ref;
        text = text;
        params = config.params;
      } in
      speak_request (valid_request request) request
