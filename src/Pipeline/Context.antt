-- ===== src/Pipeline/Context.antt =====
-- What `_run_llm_stream` gathers before it asks the model: the summary, the retrieved knowledge and
-- the recalled memory, with the formatting of rag_config.py and memory_config.py.
use xymphony_voice.Base.{
  ℕ, ◌+◌, Bool, false, Option, none, some, List, [], ◌∷◌, ◌++◌, if◌then◌else◌,
}
use xymphony_voice.Base.Text.{Text, codes, strip, is_empty, join, newline}
use xymphony_voice.Errors.{task_cancelled}
use xymphony_voice.Conversation.{Message}
use xymphony_voice.Prompt.{approximate_token_count}
use xymphony_voice.Assembler.{LlmConfig}
use xymphony_voice.Summary.{ConversationSummary, Preparation, Job}
use xymphony_voice.Summary.Prepare.{prepare}
use xymphony_voice.Runtime.State.{M, pure, raise, gets, modify, lift, fresh_uuid}
use xymphony_voice.Runtime.Tasks.{latest_summary, store_summary}
use xymphony_voice.Pipeline.{
  ◌>>=◌, ◌>>◌, Services, Fetched, fetched, lost, interrupted, wait, halted, unless_halted,
}
use xymphony_voice.Pipeline.Numbers.{decimal}

-- `parts.append(f"[{i}] {content}")` for the contents that are not blank, numbered from `i` on
unfoldable pub numbered_parts : ℕ → List Text → List Text
unfolding strip decimal
numbered_parts i [] = []
numbered_parts i (content ∷ contents) =
    let rest = numbered_parts (i + 1) contents in
    if is_empty (strip content)
    then rest
    else (codes "[" ++ (decimal i ++ (codes "] " ++ strip content))) ∷ rest

-- format_retrieval_context and format_memory_context, on the contents of the results
unfoldable pub format_context : List Text → Text
unfolding numbered_parts join
format_context contents = join (newline ∷ newline ∷ []) (numbered_parts 1 contents)

-- `if not results: return None`
abbrev pub formatted : List Text → Option Text
formatted [] = none
formatted (content ∷ contents) = some (format_context (content ∷ contents))

-- The `try` of `_retrieve_knowledge` and `_recall_memory`.
unfoldable pub collect_context : Fetched → M (Option Text)
unfolding wait format_context
collect_context (fetched steps contents) = do wait steps; pure (formatted contents)
collect_context (lost steps) = do wait steps; pure none
collect_context (interrupted steps) = do wait steps; raise task_cancelled

-- AgentRuntime._retrieve_knowledge and _recall_memory, where they are enabled. `None` from them is
-- not `None` from the caller.
unfoldable pub fetch_context : ℕ → ℕ → Text → (Text → Fetched) → M (Option Text)
unfolding halted collect_context
fetch_context turn_id token text service = do
  stop ← gets (halted turn_id token)
  if stop then pure none else collect_context (service text)

-- `if self.rag_enabled and text.strip(): …`, and the same for the memory, with the test that follows
unfoldable pub gather : ℕ → ℕ → Text → Option (Text → Fetched) → M (Option (Option Text))
unfolding fetch_context unless_halted strip
gather turn_id token text none = pure (some none)
gather turn_id token text (some service) = if is_empty (strip text) then pure (some none) else do
  found ← fetch_context turn_id token text service
  unless_halted turn_id token (pure (some found))

module _ (services : Services) (turn_id token : ℕ) (text : Text) where
  -- The arguments of `prepare` and its readings of the token: before and after the two awaits. The
  -- last two readings follow with no await on one that was false.
  unfoldable pub summary_job :
      List Message → Option ConversationSummary → Bool → Bool → Bool → ℕ → M Job
  summary_job history existing before_first after_first after_shorter fresh_id = gets (λ s. record {
    session_id = s.session_id;
    organization_id = s.organization_id;
    agent_version_id = s.agent_version_id;
    history = history;
    current_user_text = text;
    existing = existing;
    before_first = before_first;
    after_first = after_first;
    after_shorter = after_shorter;
    before_build = false;
    before_save = false;
    fresh_id = fresh_id;
    now = s.clock;
  })

  -- The call of `ConversationSummarizer.prepare`.
  unfoldable pub run_summarizer : LlmConfig → List Message → M Preparation
  unfolding summary_job latest_summary halted wait fresh_uuid prepare store_summary
  run_summarizer config history = do
    existing ← gets latest_summary
    before_first ← gets (halted turn_id token)
    wait services.summary_waits.0
    after_first ← gets (halted turn_id token)
    wait services.summary_waits.1
    after_shorter ← gets (halted turn_id token)
    fresh_id ← fresh_uuid
    job ← summary_job history existing before_first after_first after_shorter fresh_id
    outcome ← lift (prepare approximate_token_count services.summary_stream config job)
    modify (store_summary outcome.1)
    pure outcome.0

  -- `if self._summarizer is not None: …`: the summary and the history to assemble
  unfoldable pub prepare_history :
      LlmConfig → List Message → M (Option (Option Text × List Message))
  unfolding run_summarizer unless_halted
  prepare_history config history s = elim s.summaries [
    | none ↦ (pure (some (none, history))) s
    | some _ ↦
        (do
          preparation ← run_summarizer config history
          unless_halted turn_id token
              (pure (some (preparation.summary_text, preparation.history_for_assembly))))
          s
  ]
