-- ===== src/Pipeline/Undisturbed.antt =====
-- The whole of an undisturbed exchange of runtime.py: `_run_llm_stream` gives the model's text,
-- `_run_assistant_pipeline` stores it and completes the turn.
use xymphony_voice.Base.{
  ℕ, suc, ◌≡◌, refl, sym, ap, ◌∙◌, false, Option, none, some, List, [], ◌∷◌, ◌++◌, arith, subst,
}
use mathlib.Core.List.{append-nil}
use xymphony_voice.Base.Text.{Text, codes}
use xymphony_voice.Base.Result.{ok}
use xymphony_voice.Assembler.{LlmConfig, LlmRequest}
use xymphony_voice.Conversation.{Message, LlmMessage, ToolCall}
use xymphony_voice.Tools.Registry.{get_definitions}
use xymphony_voice.Events.{EventType, EventSource, Payload, valid_payload, valid_event}
use xymphony_voice.Runtime.State.{State, M}
use xymphony_voice.Runtime.Dispatch.{llm_response_event}
use xymphony_voice.Runtime.Tasks.{conversation_messages}
use xymphony_voice.Pipeline.{Services, Fetched, halted}
use xymphony_voice.Pipeline.Context.{gather, prepare_history}
use xymphony_voice.Pipeline.Reply.{
  Reply, no_reply, extend, respond, use_reply, ask, Sections, request_for, iterate, converse,
}
use xymphony_voice.Pipeline.Plain.{
  plain, joined, Still, Still-refl, Does, bind-Does, admit-Does, from, returns, unless_halted-Does,
  if_some-Does, consume-Does, said,
}

-- What the runtime is built with: a model that answers every request with the pieces, at least one
-- iteration, and neither retriever nor memory.
pub record IsPlain (services : Services) (config : LlmConfig) (pieces : List Text) : Type 0 where
  pub model : services.llm_config ≡ some config
  pub answers : (left : ℕ) (request : LlmRequest) → services.stream left request ≡ plain pieces
  pub iterations : (n : ℕ) × (config.max_tool_iterations ≡ suc n)
  pub no_retriever : services.retriever ≡ none
  pub no_memory : services.memory_store ≡ none

-- What the request is assembled from.
abbrev pub bare_sections : Services → List Message → Sections
bare_sections services history = record {
  history = history;
  summary = none;
  knowledge = none;
  memory = none;
  tools = elim services.tool_registry [ none ↦ [] | some registry ↦ get_definitions registry ];
}

module _ (services : Services) (id x : ℕ) (text : Text) where
  append-joined : (a d : Text) (ds : List Text) → a ++ joined (d ∷ ds) ≡ (a ++ d) ++ joined ds
  unfolding joined
  append-joined [] d ds = refl
  append-joined (c ∷ a) d ds = ap (λ r. c ∷ r) (append-joined a d ds)

  -- The pieces only add to the text.
  said-joined :
      (reply : Reply) (ds : List Text)
      → (said services id x text reply ds).text ≡ reply.text ++ joined ds
  unfolding joined extend
  said-joined reply [] = sym (append-nil reply.text)
  said-joined reply (d ∷ ds) = said-joined _ ds ∙ sym (append-joined reply.text d ds)

  said-rest :
      (reply : Reply) (ds : List Text)
      → ((said services id x text reply ds).finish_reason ≡ reply.finish_reason)
        × ((said services id x text reply ds).tool_calls ≡ reply.tool_calls)
  unfolding extend
  said-rest reply [] = (refl, refl)
  said-rest reply (d ∷ ds) = let r = said-rest _ ds in (r.0, r.1 ∙ append-nil reply.tool_calls)

  respond-Does :
      (reply : Reply) (s t : State)
      → reply.finish_reason ≡ codes "stop"
      → Still s t
      → Does (some reply.text) s t (respond services id x text reply)
  unfolding respond llm_response_event valid_payload valid_event
  respond-Does reply s t stop q =
      bind-Does _
        (from services id x text q (
          admit-Does EventType.llm_response (Payload.llm_response reply.text reply.finish_reason) id
            EventSource.llm t (ground (arith, stop)) (ground arith)))
        (λ u v. returns services id x text (some reply.text) s u v)

  module _ (config : LlmConfig) (sections : Sections) (pieces : List Text) where
    abbrev whole : Reply
    whole = said services id x text no_reply pieces

    use_whole-Does :
        (again : List LlmMessage → M (Option Text)) (calls : List ToolCall) (s t : State)
        → calls ≡ []
        → Still s t
        → Does
            (some whole.text)
            s
            t
            (use_reply services id x text config sections again [] whole calls)
    unfolding use_reply
    use_whole-Does again [] s t e q = respond-Does whole s t (said-rest no_reply pieces).0 q
    use_whole-Does again (call ∷ calls) s t e q = absurd (cc e)

    ask-Does :
        (left : ℕ) (again : List LlmMessage → M (Option Text)) (request : LlmRequest) (s t : State)
        → services.stream left request ≡ plain pieces
        → halted id x s ≡ false
        → Still s t
        → Does
            (some whole.text)
            s
            t
            (ask services id x text config sections left again [] (ok request))
    unfolding ask
    ask-Does left again request s t answers h q =
        if_some-Does services id x text _
          (rw answers (consume-Does services id x text pieces no_reply s t h q))
          (λ u v.
            unless_halted-Does services id x text s u h v
              (use_whole-Does again whole.tool_calls s u (said-rest no_reply pieces).1 v))

    iterate-Does :
        (left : ℕ) (request : LlmRequest) (s t : State)
        → services.stream left request ≡ plain pieces
        → request_for services id x text config sections [] ≡ ok request
        → halted id x s ≡ false
        → Still s t
        → Does (some whole.text) s t (iterate services id x text config sections (suc left) [])
    unfolding iterate
    iterate-Does left request s t answers r h q = rw r (
        unless_halted-Does services id x text s t h q
          (ask-Does left (iterate services id x text config sections left) request s t answers h q))

  gather-Does :
      (service : Option (Text → Fetched)) (s t : State)
      → service ≡ none
      → Still s t
      → Does (some none) s t (gather id x text service)
  unfolding gather
  gather-Does none s t e q = returns services id x text (some none) s t q
  gather-Does (some f) s t e q = absurd (cc e)

  prepare_history-eq :
      (config : LlmConfig) (history : List Message) (t : State)
      → t.summaries ≡ none
      → prepare_history services id x text config history t ≡ (ok (some (none, history)), t)
  unfolding prepare_history
  prepare_history-eq config history t e = ground (arith, e)

  prepare_history-Does :
      (config : LlmConfig) (history : List Message) (s t : State)
      → s.summaries ≡ none
      → Still s t
      → Does (some (none, history)) s t (prepare_history services id x text config history)
  prepare_history-Does config history s t e q = record {
    returned = ap (λ r. r.0) (prepare_history-eq config history t (q.summaries ∙ e));
    quiet =
        subst (λ u. Still s u)
          (sym (ap (λ r. r.1) (prepare_history-eq config history t (q.summaries ∙ e)))) q;
  }

  -- The model's answer is the text of its pieces.
  pub converse-Does :
      (config : LlmConfig) (pieces : List Text) (request : LlmRequest) (s : State)
      → IsPlain services config pieces
      → s.summaries ≡ none
      → request_for services id x text config (bare_sections services (conversation_messages s)) []
        ≡ ok request
      → halted id x s ≡ false
      → Does (some (joined pieces)) s s (converse services id x text config)
  unfolding converse
  converse-Does config pieces request s p e r h =
      let history = conversation_messages s in
      let sections = bare_sections services history in
      let n = p.iterations.0 in
      bind-Does _ (record { returned = refl; quiet = Still-refl s })
        (λ a q.
          if_some-Does services id x text _ (prepare_history-Does config history s a e q) (λ b q2.
            if_some-Does services id x text _ (gather-Does services.retriever s b p.no_retriever q2)
              (λ c q3.
                if_some-Does services id x text _
                  (gather-Does services.memory_store s c p.no_memory q3)
                  (λ d q4.
                    subst
                      (λ k.
                        Does (some (joined pieces)) s d
                          (iterate services id x text config sections k []))
                      (sym p.iterations.1)
                      (subst
                        (λ w.
                          Does (some w) s d (iterate services id x text config sections (suc n) []))
                        (said-joined no_reply pieces)
                        (iterate-Does config sections pieces n request s d (p.answers n request) r h
                          q4))))))
