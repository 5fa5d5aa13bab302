-- ===== src/Pipeline/Finishing.antt =====
-- `_run_assistant_pipeline` and `_handle_text_input` of runtime.py leave no turn open.
use xymphony_voice.Base.{
  ℕ, ◌≡◌, refl, sym, ap, ◌∙◌, inl, inr, Bool, true, Option, none, some, arith, if◌then◌else◌,
  Bool-cases, ==-cases,
}
use xymphony_voice.Base.Text.{Text}
use xymphony_voice.Base.Dict.{Dict, get, put, get-put}
use xymphony_voice.Base.Result.{ok, err}
use xymphony_voice.Assembler.{LlmConfig}
use xymphony_voice.Errors.{Raises}
use xymphony_voice.Turn.{RuntimeTurn}
use xymphony_voice.Runtime.State.{State, M, resume, pure, gets}
use xymphony_voice.Runtime.Turns.{complete_turn}
use xymphony_voice.Runtime.Tasks.{register_tokens, release_tokens, persist_turn_exchange}
use xymphony_voice.Runtime.Invariant.{Inv, Registered}
use xymphony_voice.Runtime.Keeps.{
  Moves, rewires, Moves-Inv, complete_turn-Moves, complete_turn_over,
}
use xymphony_voice.Runtime.Working.{
  register_tokens-Rewires, release_tokens-Rewires, persist_turn_exchange-Quiet,
}
use xymphony_voice.Runtime.Owning.{Tokens, Over, Owned, Moves-Tokens, Owned-Moves, Over-Moves}
use xymphony_voice.Pipeline.{Services, ◌>>=◌, turn_over}
use xymphony_voice.Pipeline.Reply.{run_llm_stream}
use xymphony_voice.Pipeline.Exchange.{deliver, deliver_reply, answer, run_assistant_pipeline}
use xymphony_voice.Pipeline.Answering.{converse-Safely, run_tts_stream-Keeps}
use xymphony_voice.Pipeline.Safe.{is_none, Safe, Safely, Quiet-Keeps, bind-Safely}

-- A method that returns leaves the turn over.
abbrev pub always : Unit {0} → Bool
always _ = true

module _ (services : Services) (id x : ℕ) where
  turn_over-Over : (s : State) → Owned id x s → turn_over id s ≡ true → Over id s
  unfolding turn_over
  turn_over-Over s o h = (o.turn, o.found, ground (arith, o.found, h))

  -- `if turn.state.is_terminal: return`
  stop_if_over-Safely :
      (m : M (Unit {0}))
      → Safely id x always m
      → Safely id x always (gets (turn_over id) >>= λ over. if over then pure tt else m)
  unfolding ◌>>=◌
  stop_if_over-Safely m h = record {
    at = λ s o. elim (Bool-cases (turn_over id s)) [
      | inl over ↦ rw over (record { owned = o; over = λ a e t. turn_over-Over s o over })
      | inr go ↦ rw go (h.at s o)
    ];
  }

  complete_turn-Safely : Safely id x always (complete_turn id)
  complete_turn-Safely = record {
    at = λ s o. record {
      owned = Owned-Moves id x s (complete_turn id s).1 (complete_turn-Moves id s o.inv) o;
      over = λ a e t. complete_turn_over id s o.turn o.inv o.found e;
    };
  }

  deliver-Safely : (user reply : Text) → Safely id x always (deliver services id x user reply)
  unfolding deliver
  deliver-Safely user reply = stop_if_over-Safely _ (
      bind-Safely id x (run_tts_stream-Keeps services id x services.tts_config reply) (λ _.
        stop_if_over-Safely _ (
          bind-Safely id x
            (Quiet-Keeps id x (persist_turn_exchange id user reply)
              (persist_turn_exchange-Quiet id user reply))
            (λ _. complete_turn-Safely))))

  deliver_reply-Safe :
      (user : Text) (r : Raises (Option Text)) (t : State)
      → Safe id x is_none (r, t)
      → Safe id x always (resume r (deliver_reply services id x user) t)
  unfolding deliver_reply
  deliver_reply-Safe user (ok none) t h = record {
    owned = h.owned;
    over = λ a e t. h.over none refl refl;
  }
  deliver_reply-Safe user (ok (some reply)) t h = (deliver-Safely user reply).at t h.owned
  deliver_reply-Safe user (err e) t h = record { owned = h.owned; over = λ a f t. absurd (cc f) }

  answer-Safely :
      (user : Text) (config : LlmConfig)
      → services.llm_config ≡ some config
      → Safely id x always (answer services id x user)
  unfolding answer run_llm_stream ◌>>=◌
  answer-Safely user config c = record {
    at = λ s o.
        rw c (deliver_reply-Safe user _ _ ((converse-Safely services id x user config).at s o));
  }

put-sole : (d : Dict ℕ) (k v j : ℕ) → ¬ (get d j ≡ some v) → get (put d k v) j ≡ some v → j ≡ k
put-sole d k v j none_there f = elim (==-cases k j) [
  | inl same ↦ sym same
  | inr other ↦ absurd (none_there (ground (arith, f, other, get-put d k j v)))
]

module _ (id : ℕ) (s : State) where
  abbrev pub registered : State
  registered = (register_tokens id s).1

  register_tokens-token : register_tokens id s ≡ (ok s.uuids, registered)
  unfolding register_tokens
  register_tokens-token = ground arith

  registered-sole : Tokens s → (j : ℕ) → Registered registered j s.uuids → j ≡ id
  unfolding register_tokens
  registered-sole h j (inl f) =
      put-sole s.llm_cancel_tokens id s.uuids j (λ e. omega (arith, h.registered j s.uuids (inl e)))
        f
  registered-sole h j (inr (inl f)) = absurd (omega (arith, h.registered j s.uuids (inr (inl f))))
  registered-sole h j (inr (inr f)) =
      put-sole s.tts_cancel_tokens id s.uuids j
        (λ e. omega (arith, h.registered j s.uuids (inr (inr e)))) f

  pub registered-Owned :
      (turn : RuntimeTurn)
      → Inv s
      → Tokens s
      → get s.turns id ≡ some turn
      → Owned id s.uuids registered
  unfolding register_tokens
  registered-Owned turn h k f = record {
    inv = Moves-Inv s registered (rewires (register_tokens-Rewires id s)) h;
    tokens = Moves-Tokens s registered (rewires (register_tokens-Rewires id s)) k;
    turn = turn;
    found = f;
    made = omega arith;
    sole = registered-sole k;
    halts = λ set. absurd (omega (arith, k.signalled s.uuids set));
  }

module _ (services : Services) (config : LlmConfig)
    (set_up : services.llm_config ≡ some config) where
  module _ (id : ℕ) (user : Text) (s : State) (turn : RuntimeTurn) (h : Inv s) (k : Tokens s)
      (f : get s.turns id ≡ some turn) where
    abbrev pub answered : Raises (Unit {0}) × State
    answered = answer services id s.uuids user (registered id s)

    pub pipeline-eq :
        run_assistant_pipeline services id user s ≡ (answered.0, release_tokens id answered.1)
    unfolding run_assistant_pipeline register_tokens ◌>>=◌
    pipeline-eq = refl

    answered-Safe : Safe id s.uuids always answered
    answered-Safe =
        (answer-Safely services id s.uuids user config set_up).at (registered id s)
          (registered-Owned id s turn h k f)

    released-Moves : Moves answered.1 (release_tokens id answered.1)
    released-Moves = rewires (release_tokens-Rewires id answered.1)

    pub pipeline-Owned : Owned id s.uuids (run_assistant_pipeline services id user s).1
    pipeline-Owned = rw pipeline-eq (
        Owned-Moves id s.uuids answered.1 (release_tokens id answered.1) released-Moves
          answered-Safe.owned)

    pub pipeline-Over :
        (run_assistant_pipeline services id user s).0 ≡ ok tt
        → Over id (run_assistant_pipeline services id user s).1
    pipeline-Over done = rw pipeline-eq (
        Over-Moves id answered.1 (release_tokens id answered.1) answered-Safe.owned.inv
          released-Moves (answered-Safe.over tt (ap (λ r. r.0) (sym pipeline-eq) ∙ done) refl))

-- Where a model is configured and the invariants of turns and tokens hold, the pipeline of a stored
-- turn keeps them whatever the other tasks do at its awaits and whatever it comes to; and if it
-- returns, the turn is completed, cancelled or failed.
pub run_assistant_pipeline_lem :
    (services : Services) (config : LlmConfig) (id : ℕ) (user : Text) (s : State)
    (turn : RuntimeTurn)
    → services.llm_config ≡ some config
    → Inv s
    → Tokens s
    → get s.turns id ≡ some turn
    → Inv (run_assistant_pipeline services id user s).1
      × Tokens (run_assistant_pipeline services id user s).1
      × ((run_assistant_pipeline services id user s).0 ≡ ok tt
          → Over id (run_assistant_pipeline services id user s).1)
run_assistant_pipeline_lem services config id user s turn c h k f =
    let after = pipeline-Owned services config c id user s turn h k f in
    (after.inv, after.tokens, pipeline-Over services config c id user s turn h k f)
