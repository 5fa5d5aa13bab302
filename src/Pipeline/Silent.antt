-- ===== src/Pipeline/Silent.antt =====
-- An answer with no text, where a voice is configured, in `_run_assistant_pipeline` of runtime.py.
use xymphony_voice.Base.{ℕ, ◌≡◌, refl, sym, ap, ◌∙◌, false, none, some, List, [], arith, subst}
use xymphony_voice.Base.Text.{Text}
use xymphony_voice.Base.Dict.{get}
use xymphony_voice.Base.Result.{ok, err}
use xymphony_voice.Errors.{validation_error, runtime, invalid_runtime_input}
use xymphony_voice.Assembler.{LlmConfig, LlmRequest}
use xymphony_voice.Turn.{RuntimeTurn, is_terminal}
use xymphony_voice.Runtime.State.{State}
use xymphony_voice.Runtime.Turns.{begin_guard, begin_turn}
use xymphony_voice.Runtime.Tasks.{conversation_messages, register_tokens, release_tokens}
use xymphony_voice.Runtime.Invariant.{Inv}
use xymphony_voice.Runtime.Keeps.{Slot-at, begin_turn-raises}
use xymphony_voice.Runtime.Owning.{Tokens}
use xymphony_voice.Pipeline.{Services, TtsConfig, ◌>>=◌, halted, turn_over}
use xymphony_voice.Pipeline.Reply.{request_for}
use xymphony_voice.Pipeline.Voice.{valid_request, speak_request, run_tts_stream}
use xymphony_voice.Pipeline.Exchange.{deliver, run_assistant_pipeline}
use xymphony_voice.Pipeline.Finishing.{registered, pipeline-eq}
use xymphony_voice.Pipeline.Plain.{joined, Still}
use xymphony_voice.Pipeline.Undisturbed.{IsPlain, bare_sections}
use xymphony_voice.Pipeline.Completing.{answer-eq, replied, spoken}
use xymphony_voice.Pipeline.Exchanging.{registered-free, registered-messages, registered-fields}

refuses_nothing :
    (services : Services) (id x : ℕ) (config : TtsConfig) (t : State)
    → run_tts_stream services id x (some config) [] t ≡ (err validation_error, t)
unfolding run_tts_stream speak_request valid_request
refuses_nothing services id x config t = ground arith

open_turn :
    (id : ℕ) (t : State) (turn : RuntimeTurn)
    → get t.turns id ≡ some turn
    → is_terminal turn.state ≡ false
    → turn_over id t ≡ false
unfolding turn_over
open_turn id t turn f live = ground (arith, f, live)

deliver-nothing :
    (services : Services) (id x : ℕ) (user : Text) (voice : TtsConfig) (t : State)
    (turn : RuntimeTurn)
    → services.tts_config ≡ some voice
    → get t.turns id ≡ some turn
    → is_terminal turn.state ≡ false
    → deliver services id x user [] t ≡ (err validation_error, t)
unfolding deliver ◌>>=◌
deliver-nothing services id x user voice t turn v f live =
    rw (open_turn id t turn f live, v, refuses_nothing services id x voice t) refl

still_begun :
    (id : ℕ) (t : State) (turn : RuntimeTurn)
    → t.current_turn_id ≡ some id
    → get t.turns id ≡ some turn
    → is_terminal turn.state ≡ false
    → begin_guard t ≡ err (runtime invalid_runtime_input)
unfolding begin_guard
still_begun id t turn c f live = ground (arith, c, f, live)

released-fields :
    (id : ℕ) (t : State)
    → ((release_tokens id t).turns ≡ t.turns)
      × ((release_tokens id t).current_turn_id ≡ t.current_turn_id)
unfolding release_tokens
released-fields id t = (refl, refl)

registered-current : (id : ℕ) (s : State) → (registered id s).current_turn_id ≡ s.current_turn_id
unfolding register_tokens
registered-current id s = refl

module _ (services : Services) (config : LlmConfig) (pieces : List Text) (request : LlmRequest)
    (voice : TtsConfig) (id : ℕ) (user : Text) (s : State) (turn : RuntimeTurn)
    (p : IsPlain services config pieces) (v : services.tts_config ≡ some voice)
    (nothing : joined pieces ≡ []) (h : Inv s) (k : Tokens s) (found : get s.turns id ≡ some turn)
    (live : is_terminal turn.state ≡ false) (no_summaries : s.summaries ≡ none)
    (asks : request_for services id s.uuids user config
        (bare_sections services (conversation_messages s))
        []
      ≡ ok request) where
  asked :
      request_for services id s.uuids user config
        (bare_sections services (conversation_messages (registered id s)))
        []
      ≡ ok request
  asked =
      subst
        (λ m.
          request_for services id s.uuids user config (bare_sections services m) [] ≡ ok request)
        (sym (registered-messages id s)) asks

  quiet_summaries : (registered id s).summaries ≡ none
  quiet_summaries = (registered-fields id s).0 ∙ no_summaries

  free : halted id s.uuids (registered id s) ≡ false
  free = registered-free id s turn h k found live

  abbrev left : State
  left =
      spoken services config pieces request id s.uuids user (registered id s) p quiet_summaries
        asked free

  left-Still : Still (registered id s) left
  left-Still =
      (replied services config pieces request id s.uuids user (registered id s) p quiet_summaries
        asked free).quiet

  left-found : get left.turns id ≡ some turn
  left-found =
      ap (λ d. get d id) left-Still.quiet.turns
      ∙ (ap (λ d. get d id) (registered-fields id s).2 ∙ found)

  left-current : left.current_turn_id ≡ some id
  left-current =
      left-Still.quiet.current ∙ (registered-current id s ∙ ((Slot-at s id turn h found).3 live).0)

  raises :
      run_assistant_pipeline services id user s ≡ (err validation_error, release_tokens id left)
  raises =
      pipeline-eq services config p.model id user s turn h k found
      ∙ ap (λ r. (r.0, release_tokens id r.1))
          (answer-eq services config pieces request id s.uuids user (registered id s) p
              quiet_summaries asked free
            ∙ (ap (λ w. deliver services id s.uuids user w left) nothing
                ∙ deliver-nothing services id s.uuids user voice left turn v left-found live))

  -- Where a voice is configured and the pieces that the model answers with are all empty, the
  -- pipeline of an open turn raises the ValidationError of TTSRequest; the turn is stored as it was,
  -- still open and current, and the next `_begin_turn` is refused. The model sends only text, with
  -- nothing happening meanwhile, neither summary, retriever nor memory is configured, the model's
  -- request is valid, and the invariants of turns and tokens hold.
  pub run_assistant_pipeline_silent :
      ((run_assistant_pipeline services id user s).0 ≡ err validation_error)
      × (get (run_assistant_pipeline services id user s).1.turns id ≡ some turn)
      × ((run_assistant_pipeline services id user s).1.current_turn_id ≡ some id)
      × ((begin_turn (run_assistant_pipeline services id user s).1).0
          ≡ err (runtime invalid_runtime_input))
  run_assistant_pipeline_silent =
      let fields = released-fields id left in
      let found' = ap (λ d. get d id) fields.0 ∙ left-found in
      let current' = fields.1 ∙ left-current in
      rw raises (
        refl,
        found',
        current',
        ap (λ r. r.0)
            (begin_turn-raises (release_tokens id left) (runtime invalid_runtime_input)
              (still_begun id (release_tokens id left) turn current' found' live)),
      )
