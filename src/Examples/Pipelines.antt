-- ===== src/Examples/Pipelines.antt =====
-- Exchanges of packages/agent-runtime/src/xymphony_runtime/runtime.py with a model that answers in
-- two pieces.
use xymphony_voice.Base.{
  ℕ, zero, ◌≡◌, refl, subst, false, none, some, List, mem, [], ◌∷◌, ◌++◌, ◌==◌, if◌then◌else◌,
}
use xymphony_voice.Base.Text.{Text, codes, strip}
use xymphony_voice.Base.Dict.{get}
use xymphony_voice.Base.Result.{ok, err}
use xymphony_voice.Json.{end}
use xymphony_voice.Conversation.{
  Message, MessageRole, build_text_message, committed_messages_to_llm, LlmRole,
}
use xymphony_voice.Assembler.{LlmConfig, LlmRequest, assemble, validate}
use xymphony_voice.Tools.Executor.{Interpreter, broken}
use xymphony_voice.Runtime.Turns.{begin_guard, begin_turn}
use xymphony_voice.Runtime.Tasks.{conversation_messages}
use xymphony_voice.Runtime.Invariant.{Inv}
use xymphony_voice.Runtime.Keeps.{begun_turn}
use xymphony_voice.Runtime.Owning.{Tokens, Over}
use xymphony_voice.Runtime.Reach.{begins, cancels, run, fresh-Inv}
use xymphony_voice.Persistence.{bucket, append_message, list_messages, numbered, next_sequence}
use xymphony_voice.Persistence.History.{Numbered, append_message-Numbered, list-append}
use xymphony_voice.Pipeline.{Services, TtsConfig, arrives, ends}
use xymphony_voice.Pipeline.Numbers.{decimal, read_decimal, read-decimal}
use xymphony_voice.Pipeline.Reply.{request_for}
use xymphony_voice.Pipeline.Exchange.{run_assistant_pipeline, handle_text_input}
use xymphony_voice.Pipeline.Finishing.{run_assistant_pipeline_lem}
use xymphony_voice.Pipeline.Inputs.{fresh-Tokens, run-Tokens, handle_text_input_lem}
use xymphony_voice.Pipeline.Plain.{plain, joined}
use xymphony_voice.Pipeline.Undisturbed.{IsPlain, bare_sections}
use xymphony_voice.Pipeline.Completing.{Exchanged}
use xymphony_voice.Pipeline.Exchanging.{run_assistant_pipeline_plain, handle_text_input_plain}
use xymphony_voice.Errors.{validation_error, runtime, invalid_runtime_input}
use xymphony_voice.Pipeline.Speech.{finalize_speech_turn}
use xymphony_voice.Pipeline.Silent.{run_assistant_pipeline_silent}
use xymphony_voice.Pipeline.Finalising.{finalize_speech_turn_lem}
use xymphony_voice.Summary.{finished}
use xymphony_voice.Examples.Runtimes.{
  fresh, fresh-IsFresh, opened, opened-Inv, open_found, run_begins,
}

abbrev config : LlmConfig
config = record {
  provider_key = codes "echo";
  model = codes "echo-1";
  system_instructions = codes "Be brief.";
  params = end;
  max_input_tokens = none;
  temperature = none;
  max_output_tokens = none;
  top_p = none;
  max_tool_iterations = 1;
}

abbrev interpreter : Interpreter
interpreter = record {
  loads = λ t. broken;
  same = λ a b. false;
  describe = λ fault. codes "invalid";
}

abbrev pieces : List Text
pieces = codes "Good " ∷ codes "morning." ∷ []

abbrev services : Services
services = record {
  llm_config = some config;
  stream = λ left request. plain pieces;
  summary_stream = λ short request. finished;
  summary_waits = ([], []);
  retriever = none;
  memory_store = none;
  tool_registry = none;
  interpreter = interpreter;
  tool_wait = λ call. [];
  session_name = codes "40";
  tts_config = none;
  speak = λ request. ends [];
  speech_input = false;
  transcribing = [];
  transcribed = ok tt;
}

services-IsPlain : IsPlain services config pieces
services-IsPlain = record {
  model = refl;
  answers = λ left request. refl;
  iterations = (zero, refl);
  no_retriever = refl;
  no_memory = refl;
}

fresh-Inv_here : Inv fresh
fresh-Inv_here = fresh-Inv fresh fresh-IsFresh

fresh-Tokens_here : Tokens fresh
fresh-Tokens_here = fresh-Tokens fresh fresh-IsFresh

opened-Tokens : Tokens opened
opened-Tokens =
    subst Tokens run_begins (run-Tokens fresh (begins ∷ []) fresh-Inv_here fresh-Tokens_here)

abbrev request : LlmRequest
request = record {
  provider_key = codes "echo";
  model = codes "echo-1";
  messages =
      record { role = LlmRole.user; content = codes "hello"; tool_call_id = none; tool_calls = [] }
      ∷ [];
  system = codes "Be brief.";
  params = end;
  tools = [];
  temperature = none;
  max_output_tokens = none;
  top_p = none;
}

fresh-asks :
    request_for services 1 2
      (codes "hello")
      config
      (bare_sections services (conversation_messages fresh))
      []
    ≡ ok request
unfolding request_for committed_messages_to_llm conversation_messages
    xymphony_voice.Assembler.budgeted xymphony_voice.Assembler.build_request
    xymphony_voice.Prompt.build_system_prompt
fresh-asks = refl

opened-asks :
    request_for services 1 2
      (codes "hello")
      config
      (bare_sections services (conversation_messages opened))
      []
    ≡ ok request
unfolding request_for committed_messages_to_llm conversation_messages
    xymphony_voice.Assembler.budgeted xymphony_voice.Assembler.build_request
    xymphony_voice.Prompt.build_system_prompt
opened-asks = refl

plain_answer :
    ((run_assistant_pipeline services 1 (codes "hello") opened).0 ≡ ok tt)
    × Exchanged [] 1
        (codes "hello")
        (joined pieces)
        (begun_turn fresh)
        (run_assistant_pipeline services 1 (codes "hello") opened).1
plain_answer =
    run_assistant_pipeline_plain services config pieces request 1 (codes "hello") opened
      (begun_turn fresh) [] services-IsPlain refl opened-Inv opened-Tokens open_found refl refl refl
      opened-asks

handle_text_input_plain_example :
    ((handle_text_input services (some (codes " hello ")) fresh).0 ≡ ok tt)
    × Exchanged [] 1
        (strip (codes " hello "))
        (joined pieces)
        (begun_turn fresh)
        (handle_text_input services (some (codes " hello ")) fresh).1
unfolding begin_guard strip
handle_text_input_plain_example =
    handle_text_input_plain services config pieces request (codes " hello ") fresh []
      services-IsPlain refl fresh-Inv_here fresh-Tokens_here refl refl refl refl fresh-asks

-- A model whose second piece comes after another task cancelled the turn.
abbrev disturbed : Services
disturbed = record services {
  stream = λ left request.
      arrives [] (record { delta = codes "Good "; finish_reason = none; tool_calls = [] })
        (arrives (cancels 1 ∷ [])
          (record { delta = codes "morning."; finish_reason = none; tool_calls = [] }) (ends []));
}

run_assistant_pipeline_lem_example :
    Inv (run_assistant_pipeline disturbed 1 (codes "hello") opened).1
    × Tokens (run_assistant_pipeline disturbed 1 (codes "hello") opened).1
    × ((run_assistant_pipeline disturbed 1 (codes "hello") opened).0 ≡ ok tt
        → Over 1 (run_assistant_pipeline disturbed 1 (codes "hello") opened).1)
run_assistant_pipeline_lem_example =
    run_assistant_pipeline_lem disturbed config 1 (codes "hello") opened (begun_turn fresh) refl
      opened-Inv opened-Tokens open_found

hello_returns : (handle_text_input services (some (codes " hello ")) (run fresh [])).0 ≡ ok tt
unfolding begin_guard strip run
hello_returns =
    (handle_text_input_plain services config pieces request (codes " hello ") fresh []
      services-IsPlain refl fresh-Inv_here fresh-Tokens_here refl refl refl refl fresh-asks).0

handle_text_input_lem_example :
    Over (run fresh []).uuids (handle_text_input services (some (codes " hello ")) (run fresh [])).1
handle_text_input_lem_example =
    handle_text_input_lem services fresh [] (codes " hello ") fresh-IsFresh hello_returns

decimal_1024 : read_decimal 0 (decimal 1024) ≡ 1024
decimal_1024 = read-decimal 1024

abbrev greeting : Message
greeting = build_text_message 9 100 40 1 41 MessageRole.user (codes "hello")

no_messages : (j : ℕ) → Numbered 1 (bucket [] j)
unfolding bucket Numbered get
no_messages j = tt

append_message-Numbered_example : Numbered 1 (bucket (append_message greeting []) 40)
append_message-Numbered_example = append_message-Numbered greeting [] no_messages 40

list-append_example :
    list_messages (append_message greeting []) 40 (some 41)
    ≡ list_messages [] 40 (some 41)
      ++ (if greeting.session_id == 40
          then if greeting.organization_id == 41
            then numbered (next_sequence [] 40) greeting ∷ []
            else []
          else [])
list-append_example = list-append greeting [] 40 41

abbrev voice : TtsConfig
voice = record { provider_key = codes "tone"; voice_ref = codes "v1"; params = end }

-- A voice, and a model whose stream ends at once.
abbrev speechless : Services
speechless = record services { stream = λ left request. plain []; tts_config = some voice }

speechless-IsPlain : IsPlain speechless config []
speechless-IsPlain = record {
  model = refl;
  answers = λ left request. refl;
  iterations = (zero, refl);
  no_retriever = refl;
  no_memory = refl;
}

speechless-asks :
    request_for speechless 1 2
      (codes "hello")
      config
      (bare_sections speechless (conversation_messages opened))
      []
    ≡ ok request
unfolding request_for committed_messages_to_llm conversation_messages
    xymphony_voice.Assembler.budgeted xymphony_voice.Assembler.build_request
    xymphony_voice.Prompt.build_system_prompt
speechless-asks = refl

run_assistant_pipeline_silent_example :
    ((run_assistant_pipeline speechless 1 (codes "hello") opened).0 ≡ err validation_error)
    × (get (run_assistant_pipeline speechless 1 (codes "hello") opened).1.turns 1
        ≡ some (begun_turn fresh))
    × ((run_assistant_pipeline speechless 1 (codes "hello") opened).1.current_turn_id ≡ some 1)
    × ((begin_turn (run_assistant_pipeline speechless 1 (codes "hello") opened).1).0
        ≡ err (runtime invalid_runtime_input))
unfolding joined
run_assistant_pipeline_silent_example =
    run_assistant_pipeline_silent speechless config [] request voice 1 (codes "hello") opened
      (begun_turn fresh) speechless-IsPlain refl refl opened-Inv opened-Tokens open_found refl refl
      speechless-asks

finalize_returns : (finalize_speech_turn services false 1 opened).0 ≡ ok tt
unfolding finalize_speech_turn xymphony_voice.Pipeline.◌>>=◌ xymphony_voice.Events.valid_payload
    xymphony_voice.Events.valid_event
finalize_returns = refl

not_finalising : mem 1 opened.finalizing_turns ≡ false
unfolding mem
not_finalising = refl

finalize_speech_turn_lem_example : Over 1 (finalize_speech_turn services false 1 opened).1
finalize_speech_turn_lem_example =
    finalize_speech_turn_lem services false 1 opened (begun_turn fresh) opened-Inv opened-Tokens
      open_found not_finalising finalize_returns
