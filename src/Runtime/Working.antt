-- ===== src/Runtime/Working.antt =====
-- The steps of Runtime/Tasks.antt, and the invariant.
use xymphony_voice.Base.{
  ℕ, ◌≤◌, ◌<◌, ◌≡◌, refl, sym, ap, List, ◌∙◌, ◌⊎◌, inl, inr, Bool, true, false, Option, none, some,
  arith, if◌then◌else◌, Bool-cases,
}
use xymphony_voice.Base.Text.{Text}
use xymphony_voice.Base.Dict.{Dict, get, put, remove, get-put, get-put_self, get-remove}
use xymphony_voice.Base.Result.{ok, err}
use xymphony_voice.Errors.{Raises}
use xymphony_voice.Conversation.{Message, MessageRole}
use xymphony_voice.Summary.{ConversationSummary}
use xymphony_voice.Turn.{RuntimeTurn, LifecycleState, active, is_terminal}
use xymphony_voice.Turn.Lifecycle.{IsConsistent}
use xymphony_voice.Runtime.State.{
  AudioFrame, State, M, ◌>>=◌, ◌>>◌, resume, modify, is_turn_cancelled, fresh_uuid,
}
use xymphony_voice.Runtime.Dispatch.{error_event}
use xymphony_voice.Runtime.Turns.{admit, clear_current, store_turn, fail_turn_object}
use xymphony_voice.Runtime.Tasks.{
  fail_turn, register_tokens, release_tokens, register_speech, cleanup_stt_turn, text_message,
  store_message, store_summary, persist_turn_exchange, enqueue, start_finalizing, stop_finalizing,
  mark_speech_ended,
}
use xymphony_voice.Runtime.Invariant.{Inv, Ends, Registered}
use xymphony_voice.Runtime.Quiet.{Quiet, Quiet-refl, Quiet-trans, bind-Quiet}
use xymphony_voice.Runtime.Keeps.{Slot-at, Moves, Moves-eq, Rewires, closes}
use xymphony_voice.Runtime.Failing.{Ends-Quiet, Ends-clear, error_event-Quiet}

module _ (s : State) (turn : RuntimeTurn) (code message : Text) (retryable : Bool)
    (live : turn.state ≡ active) where
  abbrev dropped_turn : RuntimeTurn
  dropped_turn = record turn {
    state = LifecycleState.failed;
    error_code = some code;
    ended_at = some s.clock;
  }

  abbrev dropped : State
  dropped = store_turn dropped_turn s

  drop-object : fail_turn_object code turn s ≡ (ok tt, dropped)
  unfolding fail_turn_object
  drop-object = ground (arith, live)

  abbrev reported : Raises (Unit {0}) × State
  reported = admit (error_event code message (some turn.id) retryable) dropped

  fail_turn-eq :
      get s.turns turn.id ≡ some turn
      → fail_turn turn.id code message retryable s
        ≡ resume reported.0 (λ _. modify (clear_current turn.id)) reported.1
  unfolding fail_turn
  fail_turn-eq found = ground (arith, found, drop-object)

  dropped-Ends : IsConsistent turn → Ends turn.id s dropped
  unfolding store_turn
  dropped-Ends h = record {
    turn = dropped_turn;
    stored = refl;
    named = refl;
    over = refl;
    consistent = ground (arith, h, live);
    current = inr refl;
    supply = omega arith;
    llm = refl;
    stt = refl;
    tts = refl;
    signals = λ x m. inl m;
    marks = λ j ne. refl;
  }

  fail_turn-Ends :
      IsConsistent turn
      → get s.turns turn.id ≡ some turn
      → Ends turn.id s (fail_turn turn.id code message retryable s).1
  fail_turn-Ends h found = rw (fail_turn-eq found) (
      finish reported.0 (
        Ends-Quiet turn.id s dropped _ (dropped-Ends h)
          (error_event-Quiet code message (some turn.id) retryable dropped)))
    where
      finish :
          (r : Raises (Unit {0})) {t : State}
          → Ends turn.id s t
          → Ends turn.id s (resume r (λ _. modify (clear_current turn.id)) t).1
      finish (ok u) {t} e = Ends-clear turn.id s t e
      finish (err x) e = e

fail_turn-over :
    (id : ℕ) (code message : Text) (retryable : Bool) (s : State) (turn : RuntimeTurn)
    → get s.turns id ≡ some turn
    → is_terminal turn.state ≡ true
    → (fail_turn id code message retryable s).1 ≡ s
unfolding fail_turn fail_turn_object
fail_turn-over id code message retryable s turn found over = ground (arith, found, over)

fail_turn-absent :
    (id : ℕ) (code message : Text) (retryable : Bool) (s : State)
    → get s.turns id ≡ none
    → (fail_turn id code message retryable s).1 ≡ s
unfolding fail_turn
fail_turn-absent id code message retryable s found = ground (arith, found)

pub fail_turn-Moves :
    (id : ℕ) (code message : Text) (retryable : Bool) (s : State)
    → Inv s
    → Moves s (fail_turn id code message retryable s).1
fail_turn-Moves id code message retryable s h = go (get s.turns id) refl
  where
    live_step :
        (turn : RuntimeTurn)
        → get s.turns id ≡ some turn
        → is_terminal turn.state ≡ false
        → Moves s (fail_turn id code message retryable s).1
    live_step turn f live =
        let slot = Slot-at s id turn h f in
        let found = ap (get s.turns) slot.0 ∙ f in
        rw (sym slot.0) (
          closes turn.id turn found live
            (fail_turn-Ends s turn code message retryable (slot.3 live).1 slot.2 found))

    go :
        (found : Option RuntimeTurn)
        → get s.turns id ≡ found
        → Moves s (fail_turn id code message retryable s).1
    go none f = Moves-eq s _ (fail_turn-absent id code message retryable s f)
    go (some turn) f = elim (Bool-cases (is_terminal turn.state)) [
      | inl over ↦ Moves-eq s _ (fail_turn-over id code message retryable s turn f over)
      | inr live ↦ live_step turn f live
    ]

fail_turn-missing :
    (id : ℕ) (code message : Text) (retryable : Bool) (s : State)
    → get s.turns id ≡ none
    → ¬ ((fail_turn id code message retryable s).0 ≡ ok tt)
unfolding fail_turn
fail_turn-missing id code message retryable s f done = ground (arith, f, done)

-- A call that returns leaves the turn over.
pub fail_turn_over :
    (id : ℕ) (code message : Text) (retryable : Bool) (s : State)
    → Inv s
    → (fail_turn id code message retryable s).0 ≡ ok tt
    → (turn : RuntimeTurn) × (get (fail_turn id code message retryable s).1.turns id ≡ some turn)
      × (is_terminal turn.state ≡ true)
fail_turn_over id code message retryable s h done = go (get s.turns id) refl
  where
    ended :
        (turn : RuntimeTurn)
        → get s.turns id ≡ some turn
        → is_terminal turn.state ≡ false
        → (later : RuntimeTurn) × (get (fail_turn id code message retryable s).1.turns id
            ≡ some later)
          × (is_terminal later.state ≡ true)
    ended turn f live =
        let slot = Slot-at s id turn h f in
        let found = ap (get s.turns) slot.0 ∙ f in
        let e = fail_turn-Ends s turn code message retryable (slot.3 live).1 slot.2 found in
        rw (sym slot.0)
          (e.turn, ap (λ d. get d turn.id) e.stored ∙ get-put_self s.turns turn.id e.turn, e.over)

    go :
        (found : Option RuntimeTurn)
        → get s.turns id ≡ found
        → (turn : RuntimeTurn) × (get (fail_turn id code message retryable s).1.turns id
            ≡ some turn)
          × (is_terminal turn.state ≡ true)
    go none f = absurd (fail_turn-missing id code message retryable s f done)
    go (some turn) f = elim (Bool-cases (is_terminal turn.state)) [
      | inl over ↦ (
        turn,
        ap (λ t. get t.turns id) (fail_turn-over id code message retryable s turn f over) ∙ f,
        over,
      )
      | inr live ↦ ended turn f live
    ]

-- What `get` finds after a `put`, and after a `remove`.
found-put : (d : Dict ℕ) (k v j x : ℕ) → get (put d k v) j ≡ some x → (get d j ≡ some x) ⊎ (x ≡ v)
found-put d k v j x f = ground (arith, f, get-put d k j v)

found-remove : (d : Dict ℕ) (k j x : ℕ) → get (remove d k) j ≡ some x → get d j ≡ some x
found-remove d k j x f = ground (arith, f, get-remove d k j)

abbrev Fresh : State → State → ℕ → ℕ → Type 0
Fresh s t j x = Registered s j x ⊎ ((s.uuids ≤ x) × (x < t.uuids))

register_tokens-new :
    (id : ℕ) (s : State) (j x : ℕ)
    → Registered (register_tokens id s).1 j x
    → Fresh s (register_tokens id s).1 j x
unfolding register_tokens
register_tokens-new id s j x (inl f) = elim (found-put s.llm_cancel_tokens id s.uuids j x f) [
  | inl g ↦ inl (inl g)
  | inr e ↦ inr (omega (arith, e), omega (arith, e))
]
register_tokens-new id s j x (inr (inl f)) = inl (inr (inl f))
register_tokens-new id s j x (inr (inr f)) = elim (found-put s.tts_cancel_tokens id s.uuids j x f) [
  | inl g ↦ inl (inr (inr g))
  | inr e ↦ inr (omega (arith, e), omega (arith, e))
]

pub register_tokens-Rewires : (id : ℕ) (s : State) → Rewires s (register_tokens id s).1
unfolding register_tokens
register_tokens-Rewires id s = record {
  calm = record {
    turns = refl;
    current = refl;
    cancelled = refl;
    tokens = refl;
    supply = omega arith;
  };
  registers = register_tokens-new id s;
}

register_speech-new :
    (id : ℕ) (s : State) (j x : ℕ)
    → Registered (register_speech id s).1 j x
    → Fresh s (register_speech id s).1 j x
unfolding register_speech
register_speech-new id s j x (inl f) = inl (inl f)
register_speech-new id s j x (inr (inl f)) = elim (found-put s.stt_cancel_tokens id s.uuids j x f) [
  | inl g ↦ inl (inr (inl g))
  | inr e ↦ inr (omega (arith, e), omega (arith, e))
]
register_speech-new id s j x (inr (inr f)) = inl (inr (inr f))

pub register_speech-Rewires : (id : ℕ) (s : State) → Rewires s (register_speech id s).1
unfolding register_speech
register_speech-Rewires id s = record {
  calm = record {
    turns = refl;
    current = refl;
    cancelled = refl;
    tokens = refl;
    supply = omega arith;
  };
  registers = register_speech-new id s;
}

release_tokens-old :
    (id : ℕ) (s : State) (j x : ℕ) → Registered (release_tokens id s) j x → Registered s j x
unfolding release_tokens
release_tokens-old id s j x (inl f) = inl (found-remove s.llm_cancel_tokens id j x f)
release_tokens-old id s j x (inr (inl f)) = inr (inl f)
release_tokens-old id s j x (inr (inr f)) = inr (inr (found-remove s.tts_cancel_tokens id j x f))

pub release_tokens-Rewires : (id : ℕ) (s : State) → Rewires s (release_tokens id s)
unfolding release_tokens
release_tokens-Rewires id s = record {
  calm = record {
    turns = refl;
    current = refl;
    cancelled = refl;
    tokens = refl;
    supply = omega arith;
  };
  registers = λ j x r. inl (release_tokens-old id s j x r);
}

cleanup_stt_turn-old :
    (id : ℕ) (s : State) (j x : ℕ) → Registered (cleanup_stt_turn id s) j x → Registered s j x
unfolding cleanup_stt_turn
cleanup_stt_turn-old id s j x (inl f) = inl f
cleanup_stt_turn-old id s j x (inr (inl f)) = inr (inl (found-remove s.stt_cancel_tokens id j x f))
cleanup_stt_turn-old id s j x (inr (inr f)) = inr (inr f)

pub cleanup_stt_turn-Rewires : (id : ℕ) (s : State) → Rewires s (cleanup_stt_turn id s)
unfolding cleanup_stt_turn
cleanup_stt_turn-Rewires id s = record {
  calm = record {
    turns = refl;
    current = refl;
    cancelled = refl;
    tokens = refl;
    supply = omega arith;
  };
  registers = λ j x r. inl (cleanup_stt_turn-old id s j x r);
}

pub fresh_uuid-Quiet : (s : State) → Quiet s (fresh_uuid s).1
unfolding fresh_uuid
fresh_uuid-Quiet s = ground arith

text_message-Quiet :
    (id : ℕ) (role : MessageRole) (text : Text) (s : State)
    → Quiet s (text_message id role text s).1
unfolding text_message
text_message-Quiet id role text s = ground arith

store_message-Quiet : (m : Message) (s : State) → Quiet s (store_message m s)
unfolding store_message
store_message-Quiet m s = ground arith

pub store_summary-Quiet :
    (summary : Option ConversationSummary) (s : State) → Quiet s (store_summary summary s)
unfolding store_summary
store_summary-Quiet none s = Quiet-refl s
store_summary-Quiet (some summary) s = ground arith

pub persist_turn_exchange-Quiet :
    (id : ℕ) (user assistant : Text) (s : State)
    → Quiet s (persist_turn_exchange id user assistant s).1
unfolding persist_turn_exchange
persist_turn_exchange-Quiet id user assistant s = go s.conversations (is_turn_cancelled id s)
  where
    stores : (m a : Message) (t : State) → Quiet t (store_message a (store_message m t))
    stores m a t = Quiet-trans (store_message-Quiet m t) (store_message-Quiet a (store_message m t))

    asks : M (Unit {0})
    asks = do
      m ← text_message id MessageRole.user user
      a ← text_message id MessageRole.assistant assistant
      modify (store_message m)
      modify (store_message a)

    asks-Quiet : Quiet s (asks s).1
    asks-Quiet =
        bind-Quiet (text_message id MessageRole.user user) _ s
          (text_message-Quiet id MessageRole.user user s)
          (λ m t.
            bind-Quiet (text_message id MessageRole.assistant assistant) _ t
              (text_message-Quiet id MessageRole.assistant assistant t) (λ a u. stores m a u))

    go :
        (c : Option (Dict (List Message))) (halted : Bool)
        → Quiet s
            (elim c as (λ x. Raises (Unit {0}) × State) [
              | none ↦ (ok tt, s)
              | some messages ↦ if halted then (ok tt, s) else asks s
            ]).1
    go none halted = Quiet-refl s
    go (some messages) true = Quiet-refl s
    go (some messages) false = asks-Quiet

pub enqueue-Quiet : (id : ℕ) (frame : Option AudioFrame) (s : State) → Quiet s (enqueue id frame s)
unfolding enqueue
enqueue-Quiet id frame s = ground arith

pub start_finalizing-Quiet : (id : ℕ) (s : State) → Quiet s (start_finalizing id s)
unfolding start_finalizing
start_finalizing-Quiet id s = ground arith

pub stop_finalizing-Quiet : (id : ℕ) (s : State) → Quiet s (stop_finalizing id s)
unfolding stop_finalizing
stop_finalizing-Quiet id s = ground arith

pub mark_speech_ended-Quiet : (id : ℕ) (s : State) → Quiet s (mark_speech_ended id s)
unfolding mark_speech_ended
mark_speech_ended-Quiet id s = ground arith
