-- ===== src/Pipeline/Gathering.antt =====
-- What `_run_llm_stream` of runtime.py gathers keeps the turn's token its own, and stops the answer
-- only if the turn is over.
use xymphony_voice.Base.{ℕ, Bool, true, false, Option, none, some, List, if◌then◌else◌}
use xymphony_voice.Base.Text.{Text, is_empty, strip}
use xymphony_voice.Base.Dict.{Dict}
use xymphony_voice.Base.Result.{err}
use xymphony_voice.Errors.{Raises, task_cancelled}
use xymphony_voice.Conversation.{Message}
use xymphony_voice.Assembler.{LlmConfig}
use xymphony_voice.Summary.{ConversationSummary}
use xymphony_voice.Runtime.State.{State, M, pure, fresh_uuid}
use xymphony_voice.Runtime.Tasks.{latest_summary, store_summary}
use xymphony_voice.Runtime.Working.{fresh_uuid-Quiet, store_summary-Quiet}
use xymphony_voice.Runtime.Owning.{Owned}
use xymphony_voice.Pipeline.{
  Services, Fetched, fetched, lost, interrupted, ◌>>=◌, halted, unless_halted,
}
use xymphony_voice.Pipeline.Context.{
  formatted, collect_context, fetch_context, gather, run_summarizer, summary_job, prepare_history,
}
use xymphony_voice.Pipeline.Safe.{
  is_none, Safe, Safely, Keeps, Quiet-Keeps, gets-Keeps, lift-Keeps, pure-Keeps, modify-Keeps,
  bind-Safely, bind-Keeps, some-Safely, unless_halted-Safely, wait-Keeps,
}

module _ (id x : ℕ) where
  collect_context-Keeps : (f : Fetched) → Keeps id x (collect_context f)
  unfolding collect_context
  collect_context-Keeps (fetched steps contents) =
      bind-Keeps id x (wait-Keeps id x steps) (λ _. pure-Keeps id x (formatted contents))
  collect_context-Keeps (lost steps) =
      bind-Keeps id x (wait-Keeps id x steps) (λ _. pure-Keeps id x none)
  collect_context-Keeps (interrupted steps) =
      bind-Keeps id x (wait-Keeps id x steps) (λ _. lift-Keeps id x (err task_cancelled))

  fetch_context-Keeps :
      (text : Text) (service : Text → Fetched) → Keeps id x (fetch_context id x text service)
  unfolding fetch_context
  fetch_context-Keeps text service =
      bind-Keeps id x (gets-Keeps id x (halted id x)) (λ stop. go stop)
    where
      go : (stop : Bool) → Keeps id x (if stop then pure none else collect_context (service text))
      go true = pure-Keeps id x none
      go false = collect_context-Keeps (service text)

  pub gather-Safely :
      (text : Text) (service : Option (Text → Fetched))
      → Safely id x is_none (gather id x text service)
  unfolding gather
  gather-Safely text none = some-Safely id x none
  gather-Safely text (some service) = go (is_empty (strip text))
    where
      asks :
          Safely id x is_none
            (do found ← fetch_context id x text service; unless_halted id x (pure (some found)))
      asks =
          bind-Safely id x (fetch_context-Keeps text service)
            (λ found. unless_halted-Safely id x (some-Safely id x found))

      go :
          (b : Bool)
          → Safely id x is_none (
              if b then pure (some none) else (do
                found ← fetch_context id x text service
                unless_halted id x (pure (some found))))
      go true = some-Safely id x none
      go false = asks

module _ (services : Services) (id x : ℕ) (text : Text) where
  run_summarizer-Keeps :
      (config : LlmConfig) (history : List Message)
      → Keeps id x (run_summarizer services id x text config history)
  unfolding run_summarizer summary_job
  run_summarizer-Keeps config history =
      bind-Keeps id x (gets-Keeps id x latest_summary) (λ existing.
        bind-Keeps id x (gets-Keeps id x (halted id x)) (λ before_first.
          bind-Keeps id x (wait-Keeps id x services.summary_waits.0) (λ _.
            bind-Keeps id x (gets-Keeps id x (halted id x)) (λ after_first.
              bind-Keeps id x (wait-Keeps id x services.summary_waits.1) (λ _.
                bind-Keeps id x (gets-Keeps id x (halted id x)) (λ after_shorter.
                  bind-Keeps id x fresh-Keeps (λ fresh_id.
                    bind-Keeps id x (gets-Keeps id x _) (λ job.
                      bind-Keeps id x (lift-Keeps id x _) (λ outcome.
                        bind-Keeps id x
                          (modify-Keeps id x (store_summary outcome.1)
                            (store_summary-Quiet outcome.1))
                          (λ _. pure-Keeps id x outcome.0))))))))))
    where
      fresh-Keeps : Keeps id x fresh_uuid
      fresh-Keeps = Quiet-Keeps id x fresh_uuid fresh_uuid-Quiet

  pub prepare_history-Safely :
      (config : LlmConfig) (history : List Message)
      → Safely id x is_none (prepare_history services id x text config history)
  unfolding prepare_history
  prepare_history-Safely config history = record { at = λ s o. go s o s.summaries }
    where
      asks : M (Option (Option Text × List Message))
      asks = do
        preparation ← run_summarizer services id x text config history
        unless_halted id x
            (pure (some (preparation.summary_text, preparation.history_for_assembly)))

      asks-Safely : Safely id x is_none asks
      asks-Safely = bind-Safely id x (run_summarizer-Keeps config history) (λ preparation.
          unless_halted-Safely id x
            (some-Safely id x (preparation.summary_text, preparation.history_for_assembly)))

      go :
          (s : State)
          → Owned id x s
          → (c : Option (Dict ConversationSummary))
          → Safe id x is_none
              (elim c as (λ _. Raises (Option (Option Text × List Message)) × State) [
                | none ↦ (pure (some (none, history))) s
                | some _ ↦ asks s
              ])
      go s o none = (some-Safely id x (none, history)).at s o
      go s o (some _) = asks-Safely.at s o
