-- ===== src/Pipeline/Exchanging.antt =====
-- `_run_assistant_pipeline` and `_handle_text_input` of runtime.py with nobody interfering.
use xymphony_voice.Base.{
  ℕ, suc, ◌≡◌, refl, sym, ap, ◌∙◌, inl, inr, false, none, some, List, [], arith, subst, mem,
  Bool-cases,
}
use xymphony_voice.Base.Text.{Text, strip, is_empty}
use xymphony_voice.Base.Dict.{get}
use xymphony_voice.Base.Result.{ok}
use xymphony_voice.Assembler.{LlmConfig, LlmRequest}
use xymphony_voice.Persistence.{Buckets}
use xymphony_voice.Turn.{RuntimeTurn, is_terminal}
use xymphony_voice.Runtime.State.{State, is_turn_cancelled, token_set}
use xymphony_voice.Runtime.Turns.{begin_guard}
use xymphony_voice.Runtime.Tasks.{conversation_messages, register_tokens, release_tokens}
use xymphony_voice.Runtime.Invariant.{Inv}
use xymphony_voice.Runtime.Keeps.{Slot-at, begun, begun_turn, Moves-Inv}
use xymphony_voice.Runtime.Owning.{Tokens, Moves-Tokens}
use xymphony_voice.Pipeline.{Services, halted}
use xymphony_voice.Pipeline.Reply.{request_for}
use xymphony_voice.Pipeline.Exchange.{run_assistant_pipeline, handle_text_input}
use xymphony_voice.Pipeline.Finishing.{registered, registered-Owned, pipeline-eq}
use xymphony_voice.Pipeline.Inputs.{begin_move, begun_found, input_with_model}
use xymphony_voice.Pipeline.Plain.{joined}
use xymphony_voice.Pipeline.Undisturbed.{IsPlain, bare_sections}
use xymphony_voice.Pipeline.Completing.{Exchanged, answer-Exchanged}

module _ (id : ℕ) (s : State) where
  pub registered-messages : conversation_messages (registered id s) ≡ conversation_messages s
  unfolding conversation_messages register_tokens
  registered-messages = refl

  pub registered-fields :
      ((registered id s).summaries ≡ s.summaries)
      × ((registered id s).conversations ≡ s.conversations)
      × ((registered id s).turns ≡ s.turns)
      × ((registered id s).set_tokens ≡ s.set_tokens)
      × ((registered id s).cancelled_turn_ids ≡ s.cancelled_turn_ids)
  unfolding register_tokens
  registered-fields = (refl, refl, refl, refl, refl)

  pub registered-free :
      (turn : RuntimeTurn)
      → Inv s
      → Tokens s
      → get s.turns id ≡ some turn
      → is_terminal turn.state ≡ false
      → halted id s.uuids (registered id s) ≡ false
  unfolding halted token_set is_turn_cancelled register_tokens
  registered-free turn h k found live = elim (Bool-cases (mem s.uuids s.set_tokens)) [
    | inl set ↦ absurd (omega (arith, k.signalled s.uuids set))
    | inr unset ↦ ground (arith, unset, ((Slot-at s id turn h found).3 live).2)
  ]

released-Exchanged :
    (messages : Buckets) (id : ℕ) (user reply : Text) (turn : RuntimeTurn) (t : State)
    → Exchanged messages id user reply turn t
    → Exchanged messages id user reply turn (release_tokens id t)
unfolding release_tokens
released-Exchanged messages id user reply turn t e = record {
  asked = e.asked;
  answered_by = e.answered_by;
  stored = e.stored;
  asked_text = e.asked_text;
  answer_text = e.answer_text;
  roles = e.roles;
  turn_state = e.turn_state;
  idle = e.idle;
}

-- Where the model sends only text, in pieces and with nothing happening meanwhile, and neither
-- summary, retriever, memory nor voice is configured, the pipeline of an open turn whose request is
-- valid returns; it appends to the conversation the user's message and then the assistant's, whose
-- text is the concatenation of the pieces; the turn is completed, and no turn is current.
pub run_assistant_pipeline_plain :
    (services : Services) (config : LlmConfig) (pieces : List Text) (request : LlmRequest) (id : ℕ)
    (user : Text) (s : State) (turn : RuntimeTurn) (messages : Buckets)
    → IsPlain services config pieces
    → services.tts_config ≡ none
    → Inv s
    → Tokens s
    → get s.turns id ≡ some turn
    → is_terminal turn.state ≡ false
    → s.summaries ≡ none
    → s.conversations ≡ some messages
    → request_for services id s.uuids user config
        (bare_sections services (conversation_messages s))
        []
      ≡ ok request
    → ((run_assistant_pipeline services id user s).0 ≡ ok tt)
      × Exchanged messages id user
          (joined pieces)
          turn
          (run_assistant_pipeline services id user s).1
run_assistant_pipeline_plain services config pieces request id user s turn messages p no_voice h k
      found live no_summaries store asks =
    let fields = registered-fields id s in
    let r =
      answer-Exchanged services config pieces request id s.uuids user (registered id s) p
        (fields.0 ∙ no_summaries)
        (subst
          (λ m.
            request_for services id s.uuids user config (bare_sections services m) [] ≡ ok request)
          (sym (registered-messages id s)) asks)
        (registered-free id s turn h k found live) turn messages no_voice
        (registered-Owned id s turn h k found).inv (ap (λ d. get d id) fields.2 ∙ found) live
        (fields.1 ∙ store) in
    rw (pipeline-eq services config p.model id user s turn h k found)
      (r.0, released-Exchanged messages id user (joined pieces) turn _ r.1)

begun-request :
    (services : Services) (config : LlmConfig) (request : LlmRequest) (text : Text) (s : State)
    → request_for services s.uuids
        (suc s.uuids)
        (strip text)
        config
        (bare_sections services (conversation_messages s))
        []
      ≡ ok request
    → request_for services s.uuids
        (begun s).uuids
        (strip text)
        config
        (bare_sections services (conversation_messages (begun s)))
        []
      ≡ ok request
unfolding conversation_messages
begun-request services config request text s asks = asks

-- A text input that is not blank, in a state that keeps the invariants of turns and tokens and where
-- a turn may begin, begins a turn and returns with the turn completed and the exchange stored: the
-- user's message is the text without the white space around it, the assistant's the concatenation of
-- the pieces. The model sends only text, in pieces and with nothing happening meanwhile, neither
-- summary, retriever, memory nor voice is configured, and the request is valid.
pub handle_text_input_plain :
    (services : Services) (config : LlmConfig) (pieces : List Text) (request : LlmRequest)
    (text : Text) (s : State) (messages : Buckets)
    → IsPlain services config pieces
    → services.tts_config ≡ none
    → Inv s
    → Tokens s
    → begin_guard s ≡ ok tt
    → is_empty (strip text) ≡ false
    → s.summaries ≡ none
    → s.conversations ≡ some messages
    → request_for services s.uuids
        (suc s.uuids)
        (strip text)
        config
        (bare_sections services (conversation_messages s))
        []
      ≡ ok request
    → ((handle_text_input services (some text) s).0 ≡ ok tt)
      × Exchanged messages s.uuids
          (strip text)
          (joined pieces)
          (begun_turn s)
          (handle_text_input services (some text) s).1
handle_text_input_plain services config pieces request text s messages p no_voice h k begins filled
      no_summaries store asks =
    let move = begin_move services text s h k begins in
    rw (input_with_model services text s h k begins config p.model filled) (
      run_assistant_pipeline_plain services config pieces request s.uuids (strip text) (begun s)
        (begun_turn s) messages p no_voice (Moves-Inv s (begun s) move h)
        (Moves-Tokens s (begun s) move k) (begun_found services text s h k begins) refl no_summaries
        store (begun-request services config request text s asks))
