-- ===== src/Runtime/Failing.antt =====
-- What an error does to the current turn: `_handle_error` of runtime.py.
use xymphony_voice.Base.{
  ℕ, ◌≡◌, refl, sym, ap, ◌∙◌, ◌⊎◌, inl, inr, Bool, false, Option, none, some, arith, mem,
  Bool-cases,
}
use xymphony_voice.Base.Text.{Text, codes}
use xymphony_voice.Base.Dict.{get}
use xymphony_voice.Base.Result.{ok, err}
use xymphony_voice.Errors.{Raises}
use xymphony_voice.Turn.{RuntimeTurn, LifecycleState, active, is_terminal}
use xymphony_voice.Turn.Lifecycle.{IsConsistent}
use xymphony_voice.Events.{EventType, EventSource, Payload}
use xymphony_voice.Runtime.State.{State, resume, modify, mark_cancelled}
use xymphony_voice.Runtime.Dispatch.{error_event}
use xymphony_voice.Runtime.Turns.{admit, store_turn, clear_current, fail_turn_object, current_turn}
use xymphony_voice.Runtime.Inputs.{fail_current, handle_error, or_default}
use xymphony_voice.Runtime.Invariant.{Inv, Ends}
use xymphony_voice.Runtime.Quiet.{Quiet, admit-Quiet, build_event-Quiet}
use xymphony_voice.Runtime.Cancelling.{mem-other}
use xymphony_voice.Runtime.Keeps.{Slot-at, Moves, stays, closes}

pub Ends-Quiet : (id : ℕ) (s t u : State) → Ends id s t → Quiet t u → Ends id s u
Ends-Quiet id s t u e q = record {
  turn = e.turn;
  stored = q.turns ∙ e.stored;
  named = e.named;
  over = e.over;
  consistent = e.consistent;
  current = elim e.current [ inl a ↦ inl (q.current ∙ a) | inr a ↦ inr (q.current ∙ a) ];
  supply = omega (arith, q.supply, e.supply);
  llm = q.llm ∙ e.llm;
  stt = q.stt ∙ e.stt;
  tts = q.tts ∙ e.tts;
  signals = λ x m. e.signals x (ap (mem x) (sym q.tokens) ∙ m);
  marks = λ j ne. ap (mem j) q.cancelled ∙ e.marks j ne;
}

clear_current-cases :
    (id : ℕ) (t : State)
    → (clear_current id t ≡ record t { current_turn_id = none }) ⊎ (clear_current id t ≡ t)
unfolding clear_current
clear_current-cases id t = ground arith

Ends-idle : (id : ℕ) (s t : State) → Ends id s t → Ends id s (record t { current_turn_id = none })
Ends-idle id s t e = record {
  turn = e.turn;
  stored = e.stored;
  named = e.named;
  over = e.over;
  consistent = e.consistent;
  current = inl refl;
  supply = e.supply;
  llm = e.llm;
  stt = e.stt;
  tts = e.tts;
  signals = e.signals;
  marks = e.marks;
}

pub Ends-clear : (id : ℕ) (s t : State) → Ends id s t → Ends id s (clear_current id t)
Ends-clear id s t e = elim (clear_current-cases id t) [
  | inl c ↦ rw c (Ends-idle id s t e)
  | inr c ↦ rw c e
]

pub error_event-Quiet :
    (code message : Text) (turn_id : Option ℕ) (retryable : Bool) (s : State)
    → Quiet s (admit (error_event code message turn_id retryable) s).1
unfolding error_event
error_event-Quiet code message turn_id retryable s =
    admit-Quiet (error_event code message turn_id retryable) s (
      build_event-Quiet EventType.error (Payload.error code message retryable) turn_id
        EventSource.runtime s)

module _ (s : State) (turn : RuntimeTurn) (code message : Text) (live : turn.state ≡ active) where
  abbrev pub failed_turn : RuntimeTurn
  failed_turn = record turn {
    state = LifecycleState.failed;
    error_code = some code;
    ended_at = some s.clock;
  }

  abbrev pub failed : State
  failed = mark_cancelled turn.id (store_turn failed_turn s)

  fail-object : fail_turn_object code turn s ≡ (ok tt, store_turn failed_turn s)
  unfolding fail_turn_object
  fail-object = ground (arith, live)

  pub fail_current-eq :
      fail_current code message turn s
      ≡ resume
          (admit (error_event code message (some turn.id) false) failed).0
          (λ _. modify (clear_current turn.id))
          (admit (error_event code message (some turn.id) false) failed).1
  unfolding fail_current
  fail_current-eq = rw fail-object refl

  failed-Ends : IsConsistent turn → Ends turn.id s failed
  unfolding store_turn mark_cancelled
  failed-Ends h = record {
    turn = failed_turn;
    stored = refl;
    named = refl;
    over = refl;
    consistent = ground (arith, h, live);
    current = inr refl;
    supply = omega arith;
    llm = refl;
    stt = refl;
    tts = refl;
    signals = λ x m. inl m;
    marks = λ j ne. mem-other j turn.id s.cancelled_turn_ids ne;
  }

  fail_current-Ends : IsConsistent turn → Ends turn.id s (fail_current code message turn s).1
  fail_current-Ends h = rw fail_current-eq (
      finish (admit (error_event code message (some turn.id) false) failed).0 (
        Ends-Quiet turn.id s failed _ (failed-Ends h)
          (error_event-Quiet code message (some turn.id) false failed)))
    where
      finish :
          (r : Raises (Unit {0})) {t : State}
          → Ends turn.id s t
          → Ends turn.id s (resume r (λ _. modify (clear_current turn.id)) t).1
      finish (ok u) {t} e = Ends-clear turn.id s t e
      finish (err x) e = e

pub current_turn-found :
    (s : State) (turn : RuntimeTurn)
    → current_turn s ≡ some turn
    → (id : ℕ) × (s.current_turn_id ≡ some id) × (get s.turns id ≡ some turn)
unfolding current_turn
current_turn-found s turn h = go s.current_turn_id refl
  where
    go :
        (c : Option ℕ)
        → s.current_turn_id ≡ c
        → (id : ℕ) × (s.current_turn_id ≡ some id) × (get s.turns id ≡ some turn)
    go none e = absurd (ground arith)
    go (some id) e = (id, e, ground arith)

pub handle_error-Moves :
    (error_code error_message : Option Text) (s : State)
    → Inv s
    → Moves s (handle_error error_code error_message s).1
unfolding handle_error
handle_error-Moves error_code error_message s h = go (current_turn s) refl
  where
    code : Text
    code = or_default error_code (codes "runtime_error")

    message : Text
    message = or_default error_message (codes "runtime error")

    outside : Moves s (admit (error_event code message none false) s).1
    outside = stays (error_event-Quiet code message none false s)

    go :
        (found : Option RuntimeTurn)
        → current_turn s ≡ found
        → Moves s (handle_error error_code error_message s).1
    go none f = rw (handle_error, f) outside
    go (some turn) f = elim (Bool-cases (is_terminal turn.state)) [
      | inl over ↦ rw (handle_error, f, over) outside
      | inr live ↦
          let c = current_turn-found s turn f in
          let slot = Slot-at s c.0 turn h c.2 in
          rw (handle_error, f, live)
            (closes turn.id turn (ap (get s.turns) slot.0 ∙ c.2) live
              (fail_current-Ends s turn code message (slot.3 live).1 slot.2))
    ]
