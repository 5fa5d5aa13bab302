-- ===== src/Examples/Summaries.antt =====
-- A summary that packages/agent-runtime/src/xymphony_runtime/summarization.py stores.
use xymphony_voice.Base.{Bool, false, none, some, [], ◌∷◌}
use xymphony_voice.Base.Text.{codes}
use xymphony_voice.Json.{end, pos}
use xymphony_voice.Conversation.{Message, MessageRole, build_text_message}
use xymphony_voice.Assembler.{LlmConfig, LlmRequest}
use xymphony_voice.Summary.{ConversationSummary, Preparation, Streamed, chunk, finished, Job}

abbrev old : Message
old =
    build_text_message 1 10 7 8 9 MessageRole.user
      (codes "please remember that my dog is called Rex")

abbrev recent : Message
recent = build_text_message 2 11 7 8 9 MessageRole.assistant (codes "noted")

abbrev config : LlmConfig
config = record {
  provider_key = codes "openai";
  model = codes "gpt";
  system_instructions = codes "be kind";
  params = end;
  max_input_tokens = some 12;
  temperature = none;
  max_output_tokens = none;
  top_p = none;
  max_tool_iterations = 4;
}

abbrev job : Job
job = record {
  session_id = 7;
  organization_id = 9;
  agent_version_id = 5;
  history = old ∷ recent ∷ [];
  current_user_text = codes "hello";
  existing = none;
  before_first = false;
  after_first = false;
  after_shorter = false;
  before_build = false;
  before_save = false;
  fresh_id = 60;
  now = 100;
}

-- A model that answers with one letter.
abbrev answers : Bool → LlmRequest → Streamed
answers short request = chunk false (codes "D") finished

abbrev summary : ConversationSummary
summary = record {
  id = 60;
  session_id = 7;
  organization_id = 9;
  agent_version_id = 5;
  through_sequence = pos 1;
  summary_text = codes "D";
  source_message_count = 1;
  created_at = 100;
}

abbrev preparation : Preparation
preparation = record { summary_text = some (codes "D"); history_for_assembly = recent ∷ [] }
