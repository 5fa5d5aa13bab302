-- ===== src/Runtime/Stopping.antt =====
-- Stopping the runtime: `stop` of runtime.py, around what its cancelled tasks still do.
use xymphony_voice.Base.{
  ℕ, ==-cases, ◌+◌, ◌≡◌, ◌≢◌, refl, sym, ap, ◌∙◌, inl, inr, true, false, Option, none, some, [],
  ◌∷◌, ◌++◌, arith, Bool-cases,
}
use xymphony_voice.Base.Text.{Text}
use xymphony_voice.Base.Dict.{get}
use xymphony_voice.Base.Result.{ok}
use xymphony_voice.Turn.{RuntimeTurn, is_terminal}
use xymphony_voice.Events.{
  Event, EventType, EventSource, Payload, valid_payload, valid_event, is_stale,
}
use xymphony_voice.Runtime.State.{State, SessionStatus, SessionEndReason, request_shutdown}
use xymphony_voice.Runtime.Dispatch.{session_ended_event}
use xymphony_voice.Runtime.Turns.{admit, cancel_turn, cancel_active_turn}
use xymphony_voice.Runtime.Inputs.{stop, sync_session_status, set_status, map_stop_reason}
use xymphony_voice.Runtime.Invariant.{Inv}
use xymphony_voice.Runtime.Quiet.{Quiet, Quiet-Inv, Quiet-trans, admit-Quiet, build_event-Quiet}
use xymphony_voice.Runtime.Keeps.{Slot-at, Moves-Inv}
use xymphony_voice.Runtime.Cancelling.{cancelled_turn}
use xymphony_voice.Runtime.Interruption.{cancel_turn_lem}
use xymphony_voice.Runtime.Operations.{
  cancel_active_turn-none, cancel_active_turn-absent, cancel_active_turn-over,
  cancel_active_turn-open, cancel_active_turn-Moves, sync-Quiet,
}

-- Every turn that is stored is over.
abbrev pub AllOver : State → Type 0
AllOver s =
    (id : ℕ) (turn : RuntimeTurn) → get s.turns id ≡ some turn → is_terminal turn.state ≡ true

only_current :
    (s : State) (j : ℕ) (turn : RuntimeTurn)
    → Inv s
    → s.current_turn_id ≢ some j
    → get s.turns j ≡ some turn
    → is_terminal turn.state ≡ true
only_current s j turn h ne f = elim (Bool-cases (is_terminal turn.state)) [
  | inl over ↦ over
  | inr live ↦ absurd (ne ((Slot-at s j turn h f).3 live).0)
]

cancel_active_turn-settles :
    (s : State) → Inv s → ((cancel_active_turn s).0 ≡ ok tt) × AllOver (cancel_active_turn s).1
cancel_active_turn-settles s h = go s.current_turn_id refl
  where
    Settled : Type 0
    Settled = ((cancel_active_turn s).0 ≡ ok tt) × AllOver (cancel_active_turn s).1

    own :
        (id j : ℕ) (turn other : RuntimeTurn) (t : State)
        → id ≡ j
        → get t.turns id ≡ some (cancelled_turn s turn)
        → get t.turns j ≡ some other
        → is_terminal other.state ≡ true
    own id j turn other t e f g = ground arith

    at :
        (id : ℕ) (r : Option RuntimeTurn)
        → s.current_turn_id ≡ some id
        → get s.turns id ≡ r
        → Settled
    at id none c f =
        rw (cancel_active_turn-absent s id c f)
          (refl, λ j turn g. only_current s j turn h (λ e. ground arith) g)
    at id (some turn) c f = elim (Bool-cases (is_terminal turn.state)) [
      | inl over ↦ rw (cancel_active_turn-over s id c turn f over) (
        refl,
        λ j other g. elim (==-cases id j) [
          | inl e ↦ ground arith
          | inr ne ↦ only_current s j other h (λ e. ground arith) g
        ],
      )
      | inr live ↦
          let done = cancel_turn_lem id s turn h f live in
          rw (cancel_active_turn-open s id c turn f live, (Slot-at s id turn h f).0)
            (
              done.0,
              λ j other g. elim (==-cases id j) [
                | inl e ↦ own id j turn other (cancel_turn id s).1 e (done.1).own g
                | inr ne ↦
                    only_current s j other h (λ e. ground arith)
                      (sym ((done.1).others j (λ e. ne (sym e))) ∙ g)
              ],
            )
    ]

    go : (c : Option ℕ) → s.current_turn_id ≡ c → Settled
    go none c =
        rw (cancel_active_turn-none s c)
          (refl, λ j turn g. only_current s j turn h (λ e. ground arith) g)
    go (some id) c = at id (get s.turns id) c refl

-- What gathering the cancelled tasks may do: from a state in which every turn is over it keeps the
-- invariant and ends with every turn over.
pub record Gathers (tasks : State → State) : Type 0 where
  pub keeps : (t : State) → Inv t → AllOver t → Inv (tasks t)
  pub settles : (t : State) → Inv t → AllOver t → AllOver (tasks t)

abbrev pub ended : Text → State → Event
ended reason s = record {
  id = s.uuids;
  type = EventType.session_ended;
  timestamp = s.clock;
  session_id = s.session_id;
  organization_id = s.organization_id;
  project_id = s.project_id;
  agent_id = s.agent_id;
  agent_version_id = s.agent_version_id;
  deployment_id = s.deployment_id;
  turn_id = none;
  sequence = s.sequence + 1;
  source = EventSource.system;
  correlation_id = s.session_id;
  causation_id = none;
  payload = Payload.session_ended reason;
}

valid-ended : (reason : Text) (s : State) → valid_event (ended reason s) ≡ true
unfolding valid_event
valid-ended reason s = ground arith

admit-ended :
    (reason : Text) (s : State)
    → valid_payload (Payload.session_ended reason) ≡ true
    → ((admit (session_ended_event reason) s).0 ≡ ok tt)
      × ((admit (session_ended_event reason) s).1.admitted_events
          ≡ s.admitted_events ++ ended reason s ∷ [])
unfolding admit session_ended_event is_stale
admit-ended reason s v = rw (v, valid-ended reason s) (refl, refl)

session_ended_event-Quiet :
    (reason : Text) (s : State) → Quiet s (admit (session_ended_event reason) s).1
unfolding session_ended_event
session_ended_event-Quiet reason s = admit-Quiet (session_ended_event reason) s (
    build_event-Quiet EventType.session_ended (Payload.session_ended reason) none EventSource.system
      s)

sync-kept :
    (status : SessionStatus) (ended_at : Option ℕ) (reason : Option SessionEndReason) (s : State)
    → ((sync_session_status status ended_at reason s).context ≡ s.context)
      × ((sync_session_status status ended_at reason s).admitted_events ≡ s.admitted_events)
unfolding sync_session_status
sync-kept status ended_at reason s = ground arith

set_status-Quiet : (status : SessionStatus) (s : State) → Quiet s (set_status status s)
unfolding set_status
set_status-Quiet status s = ground arith

set_status-kept :
    (status : SessionStatus) (s : State)
    → ((set_status status s).session_status ≡ status)
      × ((set_status status s).admitted_events ≡ s.admitted_events)
unfolding set_status
set_status-kept status s = (refl, refl)

request_shutdown-Quiet : (s : State) → Quiet s (request_shutdown s)
unfolding request_shutdown
request_shutdown-Quiet s = ground arith

AllOver-Quiet : (s t : State) → Quiet s t → AllOver s → AllOver t
AllOver-Quiet s t q h id turn f = h id turn (ap (λ d. get d id) (sym q.turns) ∙ f)

-- The state in which the cancelled tasks have been gathered.
abbrev pub quiesced : (State → State) → State → State
quiesced tasks s = tasks (cancel_active_turn (request_shutdown s)).1

module _ (tasks : State → State) (reason : Text) where
  abbrev closed : State → State
  closed s =
      let d = (admit (session_ended_event reason) (quiesced tasks s)).1 in
      sync_session_status SessionStatus.terminated
        (some (set_status SessionStatus.terminated d).clock) (some (map_stop_reason reason))
        (set_status SessionStatus.terminated d)

  stop-eq :
      (s : State)
      → s.running ≡ true
      → (cancel_active_turn (request_shutdown s)).0 ≡ ok tt
      → (admit (session_ended_event reason) (quiesced tasks s)).0 ≡ ok tt
      → stop tasks reason s ≡ (ok tt, record (closed s) { running = false; current_turn_id = none })
  unfolding stop
  stop-eq s on a b = ground (arith, on, a, b)

  closed-Quiet : (s : State) → Quiet (quiesced tasks s) (closed s)
  closed-Quiet s = Quiet-trans (session_ended_event-Quiet reason (quiesced tasks s)) (
      Quiet-trans (set_status-Quiet SessionStatus.terminated _)
        (sync-Quiet SessionStatus.terminated _ _ _))

  -- Stopping a running runtime in a state that satisfies its invariant, with a reason of 1 to 128
  -- characters and tasks that when gathered leave every turn over, succeeds; it leaves no turn open
  -- or current, the runtime not running and its session terminated, and the last event admitted is
  -- the end of the session for this reason, right after what was admitted before it.
  pub stop_lem :
      (s : State)
      → Inv s
      → s.running ≡ true
      → valid_payload (Payload.session_ended reason) ≡ true
      → Gathers tasks
      → let t = (stop tasks reason s).1 in
        ((stop tasks reason s).0 ≡ ok tt)
        × AllOver t
        × (t.current_turn_id ≡ none)
        × (t.running ≡ false)
        × (t.session_status ≡ SessionStatus.terminated)
        × (t.admitted_events
            ≡ (quiesced tasks s).admitted_events ++ ended reason (quiesced tasks s) ∷ [])
  stop_lem s h on v g =
      let h1 = Quiet-Inv s _ (request_shutdown-Quiet s) h in
      let c = cancel_active_turn-settles (request_shutdown s) h1 in
      let h2 = Moves-Inv _ _ (cancel_active_turn-Moves (request_shutdown s) h1) h1 in
      let a = admit-ended reason (quiesced tasks s) v in
      let d = (admit (session_ended_event reason) (quiesced tasks s)).1 in
      let e = set_status-kept SessionStatus.terminated d in
      let k =
        sync-kept SessionStatus.terminated (some (set_status SessionStatus.terminated d).clock)
          (some (map_stop_reason reason)) (set_status SessionStatus.terminated d) in
      rw (stop-eq s on c.0 a.0) (
        refl,
        AllOver-Quiet _ _ (closed-Quiet s) (g.settles _ h2 c.1),
        refl,
        refl,
        ap (λ x. x.session_status) k.0 ∙ e.0,
        k.1 ∙ e.1 ∙ a.1,
      )
