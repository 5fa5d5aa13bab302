-- ===== src/Turn.antt =====
-- The life of one turn: packages/agent-runtime/src/xymphony_runtime/turn.py, and the turn record
-- of packages/contracts/src/xymphony_contracts/session.py that a finished turn is exported as.
-- A method that raises returns `err`; the turn is then unchanged, as the assignment comes last.
pub mod Lifecycle
use xymphony_voice.Base.{
  ℕ, ◌==◌, Bool, true, false, ◌&&◌, ◌||◌, not, Option, none, some, if◌then◌else◌, is_some,
}
use xymphony_voice.Base.Text.{Text}
use xymphony_voice.Base.Result.{ok, err, ◌>>=◌}
use xymphony_voice.Errors.{Raises, runtime, invalid_state_transition}

-- RuntimeTurnLifecycleState
pub data LifecycleState : Type 0 where
  created active completed cancelled failed : LifecycleState

-- xymphony_contracts.enums.TurnStatus
pub data TurnStatus : Type 0 where
  in_progress committed cancelled failed : TurnStatus

unfoldable pub to_turn_status : LifecycleState → TurnStatus
to_turn_status created = in_progress
to_turn_status active = in_progress
to_turn_status completed = committed
to_turn_status LifecycleState.cancelled = TurnStatus.cancelled
to_turn_status LifecycleState.failed = TurnStatus.failed

abbrev pub is_terminal : LifecycleState → Bool
is_terminal completed = true
is_terminal LifecycleState.cancelled = true
is_terminal LifecycleState.failed = true
is_terminal created = false
is_terminal active = false

-- `target in _ALLOWED.get(state, frozenset())`
unfoldable pub allowed : LifecycleState → LifecycleState → Bool
allowed created active = true
allowed active completed = true
allowed active LifecycleState.cancelled = true
allowed active LifecycleState.failed = true
allowed _ _ = false

-- RuntimeTurn; instants are clock readings.
pub record RuntimeTurn : Type 0 where
  pub id : ℕ
  pub session_id : ℕ
  pub organization_id : ℕ
  pub sequence : ℕ
  pub state : LifecycleState
  pub started_at : ℕ
  pub ended_at : Option ℕ
  pub interrupted : Bool
  pub error_code : Option Text

-- `started_at or now`: the caller's instant, or the clock's.
unfoldable pub create : ℕ → ℕ → ℕ → ℕ → ℕ → RuntimeTurn
create turn_id session_id organization_id sequence started_at = record {
  id = turn_id;
  session_id = session_id;
  organization_id = organization_id;
  sequence = sequence;
  state = created;
  started_at = started_at;
  ended_at = none;
  interrupted = false;
  error_code = none;
}

-- RuntimeTurn._transition
unfoldable pub transition : LifecycleState → RuntimeTurn → Raises RuntimeTurn
unfolding allowed
transition target turn =
    if is_terminal turn.state
    then err (runtime invalid_state_transition)
    else if allowed turn.state target
    then ok (record turn { state = target })
    else err (runtime invalid_state_transition)

unfoldable pub activate : RuntimeTurn → Raises RuntimeTurn
unfolding transition
activate turn = transition active turn

-- The argument `now` is the reading of `datetime.now(UTC)`.
unfoldable pub complete : ℕ → RuntimeTurn → Raises RuntimeTurn
unfolding transition
complete now turn = do t ← transition completed turn; ok (record t { ended_at = some now })

unfoldable pub cancel : ℕ → Bool → RuntimeTurn → Raises RuntimeTurn
unfolding transition
cancel now interrupted turn = do
  t ← transition LifecycleState.cancelled turn
  ok (record t { interrupted = interrupted; ended_at = some now })

unfoldable pub fail : ℕ → Text → RuntimeTurn → Raises RuntimeTurn
unfolding transition
fail now error_code turn = do
  t ← transition LifecycleState.failed turn
  ok (record t { error_code = some error_code; ended_at = some now })

-- xymphony_contracts.session.Turn
pub record ContractTurn : Type 0 where
  pub id : ℕ
  pub session_id : ℕ
  pub organization_id : ℕ
  pub sequence : ℕ
  pub status : TurnStatus
  pub started_at : ℕ
  pub ended_at : Option ℕ
  pub interrupted : Bool

is_cancelled : TurnStatus → Bool
is_cancelled TurnStatus.cancelled = true
is_cancelled _ = false

is_finished : TurnStatus → Bool
is_finished in_progress = false
is_finished _ = true

at_least_one : ℕ → Bool
at_least_one n = if n == 0 then false else true

-- `sequence: int = Field(ge=1)` and the validator Turn.interrupt_matches_status
unfoldable pub validate : ContractTurn → Bool
unfolding is_cancelled is_finished at_least_one
validate turn =
    at_least_one turn.sequence
    && (if turn.interrupted && not (is_cancelled turn.status)
        then false
        else if is_finished turn.status
        then is_some turn.ended_at
        else true)

-- RuntimeTurn.to_contract; `none` is pydantic's ValidationError.
unfoldable pub to_contract : RuntimeTurn → Option ContractTurn
unfolding to_turn_status validate
to_contract turn = if validate t then some t else none
  where
    t : ContractTurn
    t = record {
      id = turn.id;
      session_id = turn.session_id;
      organization_id = turn.organization_id;
      sequence = turn.sequence;
      status = to_turn_status turn.state;
      started_at = turn.started_at;
      ended_at = turn.ended_at;
      interrupted = turn.interrupted;
    }
