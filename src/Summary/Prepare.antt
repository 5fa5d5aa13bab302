-- ===== src/Summary/Prepare.antt =====
-- ConversationSummarizer of packages/agent-runtime/src/xymphony_runtime/summarization.py: `prepare`,
-- `_summary_fits` and `_generate_summary`.
use xymphony_voice.Base.{
  ℕ, ◌-◌, Bool, true, false, not, ◌&&◌, ◌||◌, leb, Option, none, some, List, [], ◌∷◌, length, take,
  drop, map, if◌then◌else◌,
}
use xymphony_voice.Base.Text.{Text, is_empty, strip}
use xymphony_voice.Base.Result.{ok, err, ◌>>=◌}
use xymphony_voice.Errors.{
  Raises, runtime, provider_error, context_budget_exceeded, validation_error,
}
use xymphony_voice.Json.{ℤ, pos}
use xymphony_voice.Conversation.{Message, LlmRole, llm_message}
use xymphony_voice.Budget.{select_history, would_drop_history}
use xymphony_voice.Assembler.{LlmConfig, LlmRequest, validate}
use xymphony_voice.Summary.{
  ConversationSummary, Pairs, committed_pairs, message_seq, int_lt, prompt_of, Streamed, collect,
  summary_content, Job, Outcome,
}

-- `except ContextBudgetExceededError` and `except ProviderError`
unfoldable pub except_budget : {A : Type 0} → Raises A → A → Raises A
except_budget (err (runtime context_budget_exceeded)) a = ok a
except_budget r a = r

unfoldable pub except_provider : {A : Type 0} → Raises A → A → Raises A
except_provider (err (provider_error _)) a = ok a
except_provider r a = r

-- `_message_seq(message, pairs) > through` over the dropped pairs
unfoldable pub newly_uncovered : Pairs → ℤ → Pairs → List Message
unfolding int_lt message_seq
newly_uncovered pairs through [] = []
newly_uncovered pairs through ((message, _) ∷ rest) =
    let later = newly_uncovered pairs through rest in
    if int_lt through (message_seq message pairs) then message ∷ later else later

-- `max(…)` over the dropped pairs, from a first value on
unfoldable pub last_sequence : Pairs → ℤ → Pairs → ℤ
unfolding int_lt message_seq
last_sequence pairs best [] = best
last_sequence pairs best ((message, _) ∷ rest) =
    let seq = message_seq message pairs in
    last_sequence pairs (if int_lt best seq then seq else best) rest

abbrev pub max_sequence : Pairs → Pairs → ℤ
max_sequence pairs [] = pos 0
max_sequence pairs ((message, m) ∷ rest) = last_sequence pairs (message_seq message pairs) rest

-- The constructor ConversationSummary(…) with its field constraints.
not_negative : ℤ → Bool
not_negative (pos _) = true
not_negative _ = false

unfoldable pub make_summary : ConversationSummary → Raises ConversationSummary
unfolding not_negative
make_summary s =
    if not_negative s.through_sequence
      && leb 1 (length s.summary_text)
      && leb (length s.summary_text) 32000
    then ok s
    else err validation_error

abbrev pub text_of : Option ConversationSummary → Option Text
text_of none = none
text_of (some s) = some s.summary_text

module _ (estimate : Text → ℕ) (stream : Bool → LlmRequest → Streamed) (config : LlmConfig) where
  -- _summary_fits
  unfoldable pub summary_fits : Text → Text → ℕ → Raises Bool
  unfolding except_budget
  summary_fits summary user max_tokens =
      except_budget
        (select_history estimate [] user config.system_instructions max_tokens (some summary) none
            none
          >>= λ _. ok true)
        false

  -- _generate_summary
  unfoldable pub generate_summary : Option Text → List Message → Bool → Raises Text
  unfolding validate llm_message
  generate_summary prior messages short =
      llm_message LlmRole.user (summary_content prior messages) none [] >>= λ message.
      let request : LlmRequest = record {
        provider_key = config.provider_key;
        model = config.model;
        messages = message ∷ [];
        system = prompt_of short;
        params = config.params;
        tools = [];
        temperature = config.temperature;
        max_output_tokens = config.max_output_tokens;
        top_p = config.top_p;
      } in
      if validate request then collect (stream short request) else err validation_error

  module _ (job : Job) where
    -- SummaryPreparation(summary_text=None, history_for_assembly=history_tuple)
    abbrev pub whole : Outcome
    whole = (record { summary_text = none; history_for_assembly = job.history }, none)

    -- The summary that is there, with the recent messages.
    abbrev pub kept : Pairs → Outcome
    kept recent = (
      record {
        summary_text = text_of job.existing;
        history_for_assembly = map (λ pair. pair.0) recent;
      },
      none,
    )

    abbrev pub summary_id : ℕ
    summary_id = elim job.existing [ some s ↦ s.id | none ↦ job.fresh_id ]

    -- From the check before the summary is built, to its storing.
    unfoldable pub save : Pairs → Pairs → Pairs → Text → Raises Outcome
    unfolding make_summary
    save pairs dropped recent text =
        if job.before_build
        then ok (kept recent)
        else (make_summary (record {
          id = summary_id;
          session_id = job.session_id;
          organization_id = job.organization_id;
          agent_version_id = job.agent_version_id;
          through_sequence = max_sequence pairs dropped;
          summary_text = strip text;
          source_message_count = length dropped;
          created_at = job.now;
        })
            >>= λ summary.
                if job.before_save
                then ok (kept recent)
                else ok (
                  record {
                    summary_text = some summary.summary_text;
                    history_for_assembly = map (λ pair. pair.0) recent;
                  },
                  some summary,
                ))

    -- What becomes of a generated text: the first outcome if a cancellation was read or the text is
    -- blank, storing if it fits, and else the last outcome.
    unfoldable pub place :
        Bool → Outcome → Raises Outcome → ℕ → Pairs → Pairs → Pairs → Text → Raises Outcome
    place stopped dropping otherwise max_tokens pairs dropped recent text =
        if stopped || is_empty (strip text)
        then ok dropping
        else (summary_fits text job.current_user_text max_tokens >>= λ fits.
            if fits then save pairs dropped recent text else otherwise)

    -- The second, shorter generation.
    unfoldable pub shorten : ℕ → Pairs → Pairs → Pairs → List Message → Raises Outcome
    unfolding except_provider place
    shorten max_tokens pairs dropped recent messages =
        except_provider (generate_summary (text_of job.existing) messages true) [] >>= λ shorter.
        place job.after_shorter whole (ok whole) max_tokens pairs dropped recent shorter

    -- The first generation and what follows it.
    unfoldable pub summarise : ℕ → Pairs → Pairs → Pairs → List Message → Raises Outcome
    unfolding place
    summarise max_tokens pairs dropped recent messages =
        elim (generate_summary (text_of job.existing) messages false) [
          | err (provider_error _) ↦ ok whole
          | err e ↦ err e
          | ok text ↦
              place job.after_first (kept recent) (shorten max_tokens pairs dropped recent messages)
                max_tokens pairs dropped recent text
        ]

    abbrev pub through : ℤ
    through = elim job.existing [ some s ↦ s.through_sequence | none ↦ pos 0 ]

    -- From the selection on, where the history would not fit.
    unfoldable pub cover : ℕ → Pairs → Pairs → Pairs → Raises Outcome
    unfolding newly_uncovered
    cover max_tokens pairs dropped recent = elim (newly_uncovered pairs through dropped) [
      | [] ↦ ok (kept recent)
      | message ∷ messages ↦
          if job.before_first
          then ok (kept recent)
          else summarise max_tokens pairs dropped recent (message ∷ messages)
    ]

    unfoldable pub prepare_within : ℕ → Pairs → Raises Outcome
    prepare_within max_tokens pairs =
        let llm_history = map (λ pair. pair.1) pairs in
        except_budget
          (would_drop_history estimate llm_history job.current_user_text config.system_instructions
            max_tokens)
          false
        >>= λ needs_summary.
            if not needs_summary
            then ok whole
            else (select_history estimate llm_history job.current_user_text
                  config.system_instructions max_tokens none none none
                >>= λ selected.
                    let drop_count = length llm_history - length selected in
                    cover max_tokens pairs (take drop_count pairs) (drop drop_count pairs))

    -- ConversationSummarizer.prepare
    unfoldable pub prepare : Raises Outcome
    prepare = elim config.max_input_tokens [
      | none ↦ ok whole
      | some max_tokens ↦ committed_pairs job.history >>= prepare_within max_tokens
    ]
