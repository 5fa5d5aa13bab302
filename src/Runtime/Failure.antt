-- ===== src/Runtime/Failure.antt =====
-- What an error leaves behind: `_handle_error` of runtime.py while a turn is open.
use xymphony_voice.Base.{
  ℕ, ◌+◌, ◌≡◌, refl, sym, ap, ◌∙◌, true, false, Option, none, some, [], ◌∷◌, ◌++◌, arith,
}
use xymphony_voice.Base.Text.{Text, codes}
use xymphony_voice.Base.Dict.{get, get-put_self}
use xymphony_voice.Base.Result.{ok}
use xymphony_voice.Turn.{RuntimeTurn, LifecycleState, is_terminal}
use xymphony_voice.Events.{
  Event, EventType, EventSource, Payload, valid_payload, valid_event, is_stale,
}
use xymphony_voice.Runtime.State.{State, is_turn_cancelled, mark_cancelled}
use xymphony_voice.Runtime.Dispatch.{error_event}
use xymphony_voice.Runtime.Turns.{admit, current_turn, store_turn}
use xymphony_voice.Runtime.Inputs.{fail_current, handle_error, or_default}
use xymphony_voice.Runtime.Invariant.{Inv}
use xymphony_voice.Runtime.Keeps.{Slot-at}
use xymphony_voice.Runtime.Cancelling.{mem_self, clear_current-here}
use xymphony_voice.Runtime.Failing.{
  failed, failed_turn, fail_current-eq, error_event-Quiet, current_turn-found,
}

-- The event that `_handle_error` builds.
abbrev pub failure : Text → Text → ℕ → State → Event
failure code message id s = record {
  id = s.uuids;
  type = EventType.error;
  timestamp = s.clock;
  session_id = s.session_id;
  organization_id = s.organization_id;
  project_id = s.project_id;
  agent_id = s.agent_id;
  agent_version_id = s.agent_version_id;
  deployment_id = s.deployment_id;
  turn_id = some id;
  sequence = s.sequence + 1;
  source = EventSource.runtime;
  correlation_id = s.session_id;
  causation_id = none;
  payload = Payload.error code message false;
}

valid-failure :
    (code message : Text) (id : ℕ) (s : State) → valid_event (failure code message id s) ≡ true
unfolding valid_event
valid-failure code message id s = ground arith

admit-failure :
    (code message : Text) (id : ℕ) (s : State)
    → valid_payload (Payload.error code message false) ≡ true
    → ((admit (error_event code message (some id) false) s).0 ≡ ok tt)
      × ((admit (error_event code message (some id) false) s).1.admitted_events
          ≡ s.admitted_events ++ failure code message id s ∷ [])
unfolding admit error_event is_stale
admit-failure code message id s v = rw (v, valid-failure code message id s) (refl, refl)

-- The state `t` after the turn that was current in `s` failed.
pub record Failed (code message : Text) (turn : RuntimeTurn) (s t : State) : Type 0 where
  pub own :
      get t.turns turn.id
      ≡ some (record turn {
        state = LifecycleState.failed;
        error_code = some code;
        ended_at = some s.clock;
      })
  pub idle : t.current_turn_id ≡ none
  pub marked : is_turn_cancelled turn.id t ≡ true
  pub announced_once : t.admitted_events ≡ s.admitted_events ++ failure code message turn.id s ∷ []

module _ (code message : Text) (s : State) (turn : RuntimeTurn)
    (v : valid_payload (Payload.error code message false) ≡ true)
    (here : s.current_turn_id ≡ some turn.id) (live : turn.state ≡ LifecycleState.active) where
  fail_current-Failed :
      ((fail_current code message turn s).0 ≡ ok tt)
      × Failed code message turn s (fail_current code message turn s).1
  unfolding is_turn_cancelled store_turn mark_cancelled
  fail_current-Failed =
      let f = failed s turn code message live in
      let q = error_event-Quiet code message (some turn.id) false f in
      let a = admit-failure code message turn.id f v in
      let u = (admit (error_event code message (some turn.id) false) f).1 in
      rw
        (
          fail_current-eq s turn code message live,
          a.0,
          clear_current-here turn.id u (q.current ∙ here),
        )
        (
          refl,
          record {
            own = rw q.turns (get-put_self s.turns turn.id (failed_turn s turn code message live));
            idle = refl;
            marked = rw q.cancelled (mem_self turn.id s.cancelled_turn_ids);
            announced_once = a.1;
          },
        )

handle_error-open :
    (error_code error_message : Option Text) (s : State) (turn : RuntimeTurn)
    → current_turn s ≡ some turn
    → is_terminal turn.state ≡ false
    → handle_error error_code error_message s
      ≡ fail_current
          (or_default error_code (codes "runtime_error"))
          (or_default error_message (codes "runtime error"))
          turn
          s
unfolding handle_error
handle_error-open error_code error_message s turn found live = ground (arith, found, live)

-- While the current turn is open, in a state that satisfies the runtime's invariant, handling an
-- error whose code and message, or their defaults, make a valid payload succeeds: the turn is stored
-- as failed with that code and ended now, it is marked cancelled, no turn is current any more, and
-- exactly one event is admitted, the error of this turn.
pub handle_error_lem :
    (error_code error_message : Option Text) (s : State) (turn : RuntimeTurn)
    → Inv s
    → current_turn s ≡ some turn
    → is_terminal turn.state ≡ false
    → valid_payload (
        Payload.error
          (or_default error_code (codes "runtime_error"))
          (or_default error_message (codes "runtime error"))
          false)
      ≡ true
    → ((handle_error error_code error_message s).0 ≡ ok tt)
      × Failed
          (or_default error_code (codes "runtime_error"))
          (or_default error_message (codes "runtime error"))
          turn
          s
          (handle_error error_code error_message s).1
handle_error_lem error_code error_message s turn h found live v =
    let c = current_turn-found s turn found in
    let slot = Slot-at s c.0 turn h c.2 in
    rw (handle_error-open error_code error_message s turn found live) (
      fail_current-Failed (or_default error_code (codes "runtime_error"))
        (or_default error_message (codes "runtime error")) s turn v (c.1 ∙ ap some (sym slot.0))
        (slot.3 live).1)
