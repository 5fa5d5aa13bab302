-- ===== src/Pipeline/Finalising.antt =====
-- `_finalize_speech_turn` of runtime.py leaves no turn open.
use xymphony_voice.Base.{
  ℕ, ◌≡◌, refl, inl, inr, Bool, true, false, not, ◌&&◌, Option, none, some, List, [], ◌∷◌, arith,
  if◌then◌else◌, Bool-cases, Option-cases, ◌⊎◌, mem, is_some,
}
use xymphony_voice.Base.Text.{Text, strip, is_empty}
use xymphony_voice.Base.Dict.{get}
use xymphony_voice.Base.Result.{ok, err}
use xymphony_voice.Errors.{Raises}
use xymphony_voice.Assembler.{LlmConfig}
use xymphony_voice.Turn.{RuntimeTurn}
use xymphony_voice.Events.{EventType, EventSource, Payload}
use xymphony_voice.Runtime.State.{State, M, resume, pure, gets, modify}
use xymphony_voice.Runtime.Dispatch.{user_speech_ended_event}
use xymphony_voice.Runtime.Turns.{admit, complete_turn}
use xymphony_voice.Runtime.Tasks.{
  cleanup_stt_turn, mark_speech_ended, enqueue, start_finalizing, stop_finalizing,
}
use xymphony_voice.Runtime.Invariant.{Inv}
use xymphony_voice.Runtime.Quiet.{Quiet, Quiet-refl, Quiet-trans, admit-Quiet, build_event-Quiet}
use xymphony_voice.Runtime.Keeps.{Moves, stays, rewires, complete_turn-Moves, complete_turn_over}
use xymphony_voice.Runtime.Working.{
  cleanup_stt_turn-Rewires, enqueue-Quiet, start_finalizing-Quiet, stop_finalizing-Quiet,
  mark_speech_ended-Quiet,
}
use xymphony_voice.Runtime.Owning.{Tokens, Over, Held, Held-Moves, Over-Moves}
use xymphony_voice.Runtime.Reach.{Operation, run, perform, perform-Moves}
use xymphony_voice.Pipeline.{Services, ◌>>=◌, ◌>>◌, wait, turn_over}
use xymphony_voice.Pipeline.Exchange.{finally, run_assistant_pipeline}
use xymphony_voice.Pipeline.Finishing.{pipeline-Owned, run_assistant_pipeline_lem}
use xymphony_voice.Pipeline.Speech.{
  announce_speech_end, final_transcript, answer_transcript, use_transcript, await_task, wind_up,
  finalize_body, finalize_speech_turn,
}

module _ (id : ℕ) where
  -- A step that keeps the turn stored, and one that moreover leaves it over when it returns.
  record Holds {A : Type 0} (m : M A) : Type 0 where
    pub at : (s : State) → Held id s → Held id (m s).1

  record Settles (m : M (Unit {0})) : Type 0 where
    pub holds : (s : State) → Held id s → Held id (m s).1
    pub over : (s : State) → Held id s → (m s).0 ≡ ok tt → Over id (m s).1

  Moves-Holds : {A : Type 0} (m : M A) → ((s : State) → Inv s → Moves s (m s).1) → Holds m
  Moves-Holds m h = record { at = λ s o. Held-Moves id s (m s).1 (h s o.inv) o }

  gets-Holds : {A : Type 0} (f : State → A) → Holds (gets f)
  gets-Holds f = record { at = λ s o. o }

  resume-Held :
      {A : Type 0} (r : Raises A) (f : A → M (Unit {0})) (t : State)
      → Held id t
      → ((a : A) → Settles (f a))
      → Held id (resume r f t).1 × ((resume r f t).0 ≡ ok tt → Over id (resume r f t).1)
  resume-Held (ok a) f t o h = ((h a).holds t o, (h a).over t o)
  resume-Held (err e) f t o h = (o, λ d. absurd (cc d))

  bind-Settles :
      {A : Type 0} {m : M A} {f : A → M (Unit {0})}
      → Holds m
      → ((a : A) → Settles (f a))
      → Settles (m >>= f)
  unfolding ◌>>=◌
  bind-Settles {m = m} {f = f} k h = record {
    holds = λ s o. (resume-Held (m s).0 f (m s).1 (k.at s o) h).0;
    over = λ s o. (resume-Held (m s).0 f (m s).1 (k.at s o) h).1;
  }

  complete_turn-Settles : Settles (complete_turn id)
  complete_turn-Settles = record {
    holds = λ s o. Held-Moves id s (complete_turn id s).1 (complete_turn-Moves id s o.inv) o;
    over = λ s o e. complete_turn_over id s o.turn o.inv o.found e;
  }

  turn_over-Held : (s : State) → Held id s → turn_over id s ≡ true → Over id s
  unfolding turn_over
  turn_over-Held s o h = (o.turn, o.found, ground (arith, o.found, h))

  stop_if_over-Settles :
      (m : M (Unit {0}))
      → Settles m
      → Settles (gets (turn_over id) >>= λ over. if over then pure tt else m)
  unfolding ◌>>=◌
  stop_if_over-Settles m h = record {
    holds = λ s o. elim (Bool-cases (turn_over id s)) [
      | inl over ↦ rw over o
      | inr open_yet ↦ rw open_yet (h.holds s o)
    ];
    over = λ s o. elim (Bool-cases (turn_over id s)) [
      | inl over ↦ rw over (λ e. turn_over-Held s o over)
      | inr open_yet ↦ rw open_yet (h.over s o)
    ];
  }

  if-Settles :
      (b : Bool) (m n : M (Unit {0}))
      → (b ≡ true → Settles m)
      → (b ≡ false → Settles n)
      → Settles (if b then m else n)
  if-Settles true m n h k = h refl
  if-Settles false m n h k = k refl

  run-Held : (os : List Operation) (s : State) → Held id s → Held id (run s os)
  unfolding run
  run-Held [] s o = o
  run-Held (a ∷ os) s o =
      run-Held os (perform a s) (Held-Moves id s (perform a s) (perform-Moves a s o.inv) o)

  announce_speech_end-Quiet :
      (services : Services) (s : State) → Quiet s (announce_speech_end services id s).1
  unfolding announce_speech_end ◌>>=◌ mark_speech_ended user_speech_ended_event
  announce_speech_end-Quiet services s = go (mem id s.speech_ended_turn_ids)
    where
      marked : Quiet s (mark_speech_ended id s)
      marked = mark_speech_ended-Quiet id s

      admitted :
          Quiet
            (mark_speech_ended id s)
            (admit (user_speech_ended_event id) (mark_speech_ended id s)).1
      admitted = admit-Quiet (user_speech_ended_event id) (mark_speech_ended id s) (
          build_event-Quiet EventType.user_speech_ended (Payload.user_speech_ended 0) (some id)
            EventSource.vad (mark_speech_ended id s))

      go :
          (b : Bool)
          → Quiet s
              ((if b
                  then pure tt
                  else (do modify (mark_speech_ended id); admit (user_speech_ended_event id)))
                s).1
      go true = Quiet-refl s
      go false = Quiet-trans marked admitted

  await_task-Holds : (services : Services) (b : Bool) → Holds (await_task services b)
  unfolding await_task wait ◌>>=◌
  await_task-Holds services true = record { at = λ s o. run-Held services.transcribing s o }
  await_task-Holds services false = record { at = λ s o. o }

module _ (services : Services) (id : ℕ) where
  pipeline-Settles :
      (config : LlmConfig) (text : Text)
      → services.llm_config ≡ some config
      → Settles id (run_assistant_pipeline services id text)
  pipeline-Settles config text c = record {
    holds = λ s o.
        (let after = pipeline-Owned services config c id text s o.turn o.inv o.tokens o.found in
          record {
            inv = after.inv;
            tokens = after.tokens;
            turn = after.turn;
            found = after.found;
          });
    over = λ s o.
        (run_assistant_pipeline_lem services config id text s o.turn c o.inv o.tokens o.found).2;
  }

  answer_transcript-Settles :
      (transcript : Option Text) → Settles id (answer_transcript services id transcript)
  unfolding answer_transcript
  answer_transcript-Settles none = complete_turn-Settles id
  answer_transcript-Settles (some text) =
      if-Settles id (not (is_empty (strip text)) && is_some services.llm_config)
        (run_assistant_pipeline services id text') (complete_turn id)
        (λ e. with_model (Option-cases services.llm_config) e) (λ e. complete_turn-Settles id)
    where
      text' : Text
      text' = strip text

      with_model :
          (services.llm_config ≡ none)
            ⊎ ((config : LlmConfig) × (services.llm_config ≡ some config))
          → (not (is_empty (strip text)) && is_some services.llm_config) ≡ true
          → Settles id (run_assistant_pipeline services id text')
      with_model (inl c) e = absurd (ground (arith, c, e))
      with_model (inr c) e = pipeline-Settles c.0 text' c.1

  use_transcript-Settles : Settles id (use_transcript services id)
  unfolding use_transcript
  use_transcript-Settles = stop_if_over-Settles id _ (
      bind-Settles id (gets-Holds id (final_transcript id))
        (λ transcript. answer_transcript-Settles transcript))

  wind_up-Settles : (listening : Bool) → Settles id (wind_up services listening id)
  unfolding wind_up
  wind_up-Settles listening =
      bind-Settles id
        (Moves-Holds id (modify (enqueue id none)) (λ s i. stays (enqueue-Quiet id none s)))
        (λ _. bind-Settles id (gets-Holds id (λ s. get s.stt_tasks id)) (λ task.
          bind-Settles id (await_task-Holds id services (is_some task && not listening)) (λ _.
            bind-Settles id
              (Moves-Holds id (modify (cleanup_stt_turn id))
                (λ s i. rewires (cleanup_stt_turn-Rewires id s)))
              (λ _. use_transcript-Settles))))

  finalize_body-Settles : (listening : Bool) → Settles id (finalize_body services listening id)
  unfolding finalize_body
  finalize_body-Settles listening =
      bind-Settles id
        (Moves-Holds id (announce_speech_end services id)
          (λ s i. stays (announce_speech_end-Quiet id services s)))
        (λ _.
          if-Settles id (not services.speech_input) (complete_turn id)
            (wind_up services listening id) (λ e. complete_turn-Settles id)
            (λ e. wind_up-Settles listening))

  guarded-Settles :
      (m : M (Unit {0}))
      → Settles id m
      → Settles id (do modify (start_finalizing id); finally m (stop_finalizing id))
  unfolding ◌>>=◌
  guarded-Settles m h = record {
    holds = λ s o. after s (h.holds (start_finalizing id s) (before s o));
    over = λ s o e.
        Over-Moves id _ _ (h.holds (start_finalizing id s) (before s o)).inv
          (stays (stop_finalizing-Quiet id _)) (h.over (start_finalizing id s) (before s o) e);
  }
    where
      before : (s : State) → Held id s → Held id (start_finalizing id s)
      before s o = Held-Moves id s (start_finalizing id s) (stays (start_finalizing-Quiet id s)) o

      after :
          (s : State)
          → Held id (m (start_finalizing id s)).1
          → Held id (stop_finalizing id (m (start_finalizing id s)).1)
      after s o = Held-Moves id _ _ (stays (stop_finalizing-Quiet id _)) o

-- Finalising a spoken turn that is not being finalised already, where the invariants of turns and
-- tokens hold, leaves the turn completed, cancelled or failed if it returns, whatever the other
-- tasks do meanwhile, whether the listening task or the handler of the microphone calls it.
pub finalize_speech_turn_lem :
    (services : Services) (listening : Bool) (id : ℕ) (s : State) (turn : RuntimeTurn)
    → Inv s
    → Tokens s
    → get s.turns id ≡ some turn
    → mem id s.finalizing_turns ≡ false
    → (finalize_speech_turn services listening id s).0 ≡ ok tt
    → Over id (finalize_speech_turn services listening id s).1
unfolding finalize_speech_turn ◌>>=◌
finalize_speech_turn_lem services listening id s turn h k f idle =
    let held : Held id s = record { inv = h; tokens = k; turn = turn; found = f } in
    elim (Bool-cases (turn_over id s)) [
      | inl over ↦ rw over (λ e. turn_over-Held id s held over)
      | inr live ↦
          rw (live, idle)
            ((guarded-Settles services id _ (finalize_body-Settles services id listening)).over s
              held)
    ]
