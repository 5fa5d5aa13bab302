-- ===== src/Runtime/Operations.antt =====
-- What starting the runtime and cancelling its current turn do to the turns: `start`,
-- `_cancel_active_turn` and `_handle_cancel_turn` of runtime.py.
use xymphony_voice.Base.{
  ℕ, ◌≡◌, refl, ap, inl, inr, true, false, Option, none, some, arith, Bool-cases,
}
use xymphony_voice.Base.Dict.{get}
use xymphony_voice.Base.Result.{ok}
use xymphony_voice.Turn.{RuntimeTurn, is_terminal}
use xymphony_voice.Events.{EventType, EventSource, Payload}
use xymphony_voice.Runtime.State.{State, SessionStatus, SessionEndReason}
use xymphony_voice.Runtime.Dispatch.{session_started_event}
use xymphony_voice.Runtime.Turns.{admit, cancel_turn, cancel_active_turn}
use xymphony_voice.Runtime.Inputs.{handle_cancel_turn, start, sync_session_status, set_status}
use xymphony_voice.Runtime.Invariant.{Inv}
use xymphony_voice.Runtime.Quiet.{Quiet, Quiet-trans, admit-Quiet, build_event-Quiet}
use xymphony_voice.Runtime.Keeps.{Moves, stays, Moves-eq}
use xymphony_voice.Runtime.Interruption.{cancel_turn-Moves}

pub cancel_active_turn-none :
    (s : State) → s.current_turn_id ≡ none → cancel_active_turn s ≡ (ok tt, s)
unfolding cancel_active_turn
cancel_active_turn-none s c = ground (arith, c)

module _ (s : State) (id : ℕ) (here : s.current_turn_id ≡ some id) where
  pub cancel_active_turn-absent : get s.turns id ≡ none → cancel_active_turn s ≡ (ok tt, s)
  unfolding cancel_active_turn
  cancel_active_turn-absent f = ground (arith, here, f)

  module _ (turn : RuntimeTurn) (found : get s.turns id ≡ some turn) where
    pub cancel_active_turn-over : is_terminal turn.state ≡ true → cancel_active_turn s ≡ (ok tt, s)
    unfolding cancel_active_turn
    cancel_active_turn-over over = ground (arith, here, found, over)

    pub cancel_active_turn-open :
        is_terminal turn.state ≡ false → cancel_active_turn s ≡ cancel_turn turn.id s
    unfolding cancel_active_turn
    cancel_active_turn-open live = ground (arith, here, found, live)

pub cancel_active_turn-Moves : (s : State) → Inv s → Moves s (cancel_active_turn s).1
cancel_active_turn-Moves s h = go s.current_turn_id refl
  where
    at :
        (id : ℕ) (r : Option RuntimeTurn)
        → s.current_turn_id ≡ some id
        → get s.turns id ≡ r
        → Moves s (cancel_active_turn s).1
    at id none c f = Moves-eq s _ (ap (λ r. r.1) (cancel_active_turn-absent s id c f))
    at id (some turn) c f = elim (Bool-cases (is_terminal turn.state)) [
      | inl over ↦ Moves-eq s _ (ap (λ r. r.1) (cancel_active_turn-over s id c turn f over))
      | inr live ↦ rw (cancel_active_turn-open s id c turn f live) (cancel_turn-Moves turn.id s h)
    ]

    go : (c : Option ℕ) → s.current_turn_id ≡ c → Moves s (cancel_active_turn s).1
    go none c = Moves-eq s _ (ap (λ r. r.1) (cancel_active_turn-none s c))
    go (some id) c = at id (get s.turns id) c refl

handle_cancel_turn-current :
    (s : State) (id : ℕ)
    → s.current_turn_id ≡ some id
    → (handle_cancel_turn none s).1 ≡ (cancel_turn id s).1
unfolding handle_cancel_turn
handle_cancel_turn-current s id c = ground (arith, c)

handle_cancel_turn-idle : (s : State) → s.current_turn_id ≡ none → (handle_cancel_turn none s).1 ≡ s
unfolding handle_cancel_turn
handle_cancel_turn-idle s c = ground (arith, c)

pub handle_cancel_turn-Moves :
    (id : Option ℕ) (s : State) → Inv s → Moves s (handle_cancel_turn id s).1
unfolding handle_cancel_turn
handle_cancel_turn-Moves (some id) s h = cancel_turn-Moves id s h
handle_cancel_turn-Moves none s h = go s.current_turn_id refl
  where
    go : (c : Option ℕ) → s.current_turn_id ≡ c → Moves s (handle_cancel_turn none s).1
    go none c = Moves-eq s _ (handle_cancel_turn-idle s c)
    go (some id) c = rw (handle_cancel_turn-current s id c) (cancel_turn-Moves id s h)

pub sync-Quiet :
    (status : SessionStatus) (ended_at : Option ℕ) (reason : Option SessionEndReason) (s : State)
    → Quiet s (sync_session_status status ended_at reason s)
unfolding sync_session_status
sync-Quiet status ended_at reason s = ground arith

started-Quiet :
    (s : State)
    → Quiet s (
        sync_session_status SessionStatus.active none none
          (set_status SessionStatus.active (record s { running = true })))
unfolding set_status
started-Quiet s = Quiet-trans (ground arith) (sync-Quiet SessionStatus.active none none _)

abbrev started : State → State
started s =
    sync_session_status SessionStatus.active none none
      (set_status SessionStatus.active (record s { running = true }))

start-running : (s : State) → s.running ≡ true → (start s).1 ≡ s
unfolding start
start-running s on = ground (arith, on)

start-eq :
    (s : State) → s.running ≡ false → (start s).1 ≡ (admit session_started_event (started s)).1
unfolding start
start-eq s off = ground (arith, off)

session_started_event-Quiet : (s : State) → Quiet s (session_started_event s).1
unfolding session_started_event
session_started_event-Quiet s =
    build_event-Quiet EventType.session_started Payload.session_started none EventSource.system s

pub start-Moves : (s : State) → Inv s → Moves s (start s).1
start-Moves s h = elim (Bool-cases s.running) [
  | inl on ↦ Moves-eq s _ (start-running s on)
  | inr off ↦ rw (start-eq s off) (
      stays (
        Quiet-trans (started-Quiet s) (
          admit-Quiet session_started_event (started s) (session_started_event-Quiet (started s)))))
]
