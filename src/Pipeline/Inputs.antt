-- ===== src/Pipeline/Inputs.antt =====
-- `_handle_text_input` of runtime.py in every state that a fresh runtime reaches.
use xymphony_voice.Base.{
  ℕ, ◌≡◌, refl, sym, ap, ◌∙◌, inl, inr, true, false, Option, none, some, List, [], ◌∷◌, arith,
  if◌then◌else◌, Bool-cases, mem, is_some,
}
use xymphony_voice.Base.Text.{Text, strip, is_empty}
use xymphony_voice.Base.Dict.{get, get-put_self}
use xymphony_voice.Base.Result.{ok, err}
use xymphony_voice.Errors.{Exception}
use xymphony_voice.Assembler.{LlmConfig}
use xymphony_voice.Runtime.State.{State}
use xymphony_voice.Runtime.Turns.{begin_guard, complete_turn}
use xymphony_voice.Runtime.Invariant.{Inv, Registered}
use xymphony_voice.Runtime.Keeps.{
  begun, begun_turn, begin_turn-eq, begin_turn-raises, begin_guard-cases, Moves, opens, Moves-Inv,
  complete_turn_over,
}
use xymphony_voice.Runtime.Owning.{Tokens, Over, Moves-Tokens}
use xymphony_voice.Runtime.Reach.{
  Operation, run, perform, perform-Moves, perform-Inv, IsFresh, fresh-Inv, run-Inv,
}
use xymphony_voice.Pipeline.{Services, ◌>>=◌}
use xymphony_voice.Pipeline.Exchange.{run_assistant_pipeline, handle_text_input}
use xymphony_voice.Pipeline.Finishing.{run_assistant_pipeline_lem}

pub fresh-Tokens : (s : State) → IsFresh s → Tokens s
unfolding get mem
fresh-Tokens s h = record {
  registered = λ j x r. absurd (nothing j x r);
  signalled = λ x m. absurd (ground (arith, h.none_set, m));
}
  where
    nothing : (j x : ℕ) → ¬ Registered s j x
    nothing j x (inl f) = ground (arith, h.no_tokens.0, f)
    nothing j x (inr (inl f)) = ground (arith, h.no_tokens.1, f)
    nothing j x (inr (inr f)) = ground (arith, h.no_tokens.2, f)

pub run-Tokens : (s : State) (os : List Operation) → Inv s → Tokens s → Tokens (run s os)
unfolding run
run-Tokens s [] h k = k
run-Tokens s (o ∷ os) h k =
    run-Tokens (perform o s) os (perform-Inv o s h)
      (Moves-Tokens s (perform o s) (perform-Moves o s h) k)

-- What a text input comes to, once a turn was begun in the state `s`.
module _ (services : Services) (text : Text) (s : State) (h : Inv s) (k : Tokens s)
    (begins : begin_guard s ≡ ok tt) where
  pub begin_move : Moves s (begun s)
  begin_move = opens begins refl

  pub begun_found : get (begun s).turns s.uuids ≡ some (begun_turn s)
  begun_found = get-put_self s.turns s.uuids (begun_turn s)

  with_model :
      (config : LlmConfig)
      → services.llm_config ≡ some config
      → Inv (run_assistant_pipeline services s.uuids (strip text) (begun s)).1
        × Tokens (run_assistant_pipeline services s.uuids (strip text) (begun s)).1
        × ((run_assistant_pipeline services s.uuids (strip text) (begun s)).0 ≡ ok tt
            → Over s.uuids (run_assistant_pipeline services s.uuids (strip text) (begun s)).1)
  with_model config c =
      run_assistant_pipeline_lem services config s.uuids (strip text) (begun s) (begun_turn s) c
        (Moves-Inv s (begun s) begin_move h) (Moves-Tokens s (begun s) begin_move k) begun_found

  pub input-eq :
      is_empty (strip text) ≡ false
      → handle_text_input services (some text) s ≡ (
          if is_some services.llm_config
          then run_assistant_pipeline services s.uuids (strip text) (begun s)
          else complete_turn s.uuids (begun s))
  unfolding handle_text_input ◌>>=◌
  input-eq filled = ground (arith, filled, begin_turn-eq s begins)

  pub input_with_model :
      (config : LlmConfig)
      → services.llm_config ≡ some config
      → is_empty (strip text) ≡ false
      → handle_text_input services (some text) s
        ≡ run_assistant_pipeline services s.uuids (strip text) (begun s)
  input_with_model config c filled =
      input-eq filled
      ∙ ap
          (λ o.
            if is_some o
            then run_assistant_pipeline services s.uuids (strip text) (begun s)
            else complete_turn s.uuids (begun s))
          c

  without_model :
      (complete_turn s.uuids (begun s)).0 ≡ ok tt → Over s.uuids (complete_turn s.uuids (begun s)).1
  without_model =
      complete_turn_over s.uuids (begun s) (begun_turn s) (Moves-Inv s (begun s) begin_move h)
        begun_found

  begun_input :
      is_empty (strip text) ≡ false
      → (handle_text_input services (some text) s).0 ≡ ok tt
      → Over s.uuids (handle_text_input services (some text) s).1
  begun_input filled done =
      rw (input-eq filled)
        (go services.llm_config refl (ap (λ r. r.0) (sym (input-eq filled)) ∙ done))
    where
      go :
          (config : Option LlmConfig)
          → services.llm_config ≡ config
          → (if is_some config
              then run_assistant_pipeline services s.uuids (strip text) (begun s)
              else complete_turn s.uuids (begun s)).0
            ≡ ok tt
          → Over s.uuids
              (if is_some config
                then run_assistant_pipeline services s.uuids (strip text) (begun s)
                else complete_turn s.uuids (begun s)).1
      go none e ended = without_model ended
      go (some config) e ended = (with_model config e).2 ended

blank_input :
    (services : Services) (text : Text) (s : State)
    → is_empty (strip text) ≡ true
    → ¬ ((handle_text_input services (some text) s).0 ≡ ok tt)
unfolding handle_text_input
blank_input services text s blank done = ground (arith, blank, done)

refused_input :
    (services : Services) (text : Text) (s : State) (e : Exception)
    → begin_guard s ≡ err e
    → is_empty (strip text) ≡ false
    → ¬ ((handle_text_input services (some text) s).0 ≡ ok tt)
unfolding handle_text_input ◌>>=◌
refused_input services text s e g filled done =
    ground (arith, filled, begin_turn-raises s e g, done)

-- In every state that a fresh runtime reaches, a text input whose handling returns, whatever the
-- other tasks did at its awaits, has left its turn completed, cancelled or failed.
pub handle_text_input_lem :
    (services : Services) (s : State) (os : List Operation) (text : Text)
    → IsFresh s
    → (handle_text_input services (some text) (run s os)).0 ≡ ok tt
    → Over (run s os).uuids (handle_text_input services (some text) (run s os)).1
handle_text_input_lem services s os text fresh done =
    let at = run s os in
    let h = run-Inv s os (fresh-Inv s fresh) in
    let k = run-Tokens s os (fresh-Inv s fresh) (fresh-Tokens s fresh) in
    elim (Bool-cases (is_empty (strip text))) [
      | inl blank ↦ absurd (blank_input services text at blank done)
      | inr filled ↦ elim (begin_guard-cases at) [
        | inl begins ↦ begun_input services text at h k begins filled done
        | inr e ↦ absurd (refused_input services text at e.0 e.1 filled done)
      ]
    ]
