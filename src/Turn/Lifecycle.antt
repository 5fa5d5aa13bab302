-- ===== src/Turn/Lifecycle.antt =====
-- What holds of a turn through every sequence of method calls.
use xymphony_voice.Base.{
  ℕ, ◌≤◌, ◌≡◌, refl, ◌↔◌, ◌⊎◌, inl, inr, Bool, true, some, List, [], ◌∷◌, arith, is_some,
}
use xymphony_voice.Base.Text.{Text}
use xymphony_voice.Base.Result.{ok, err}
use xymphony_voice.Errors.{Raises, runtime, invalid_state_transition}
use xymphony_voice.Turn.{
  RuntimeTurn, LifecycleState, created, active, completed, is_terminal, create, activate, complete,
  cancel, fail, to_contract,
}

-- One method call, with its arguments.
pub data Call : Type 0 where
  activates : Call
  completes : ℕ → Call
  cancels : ℕ → Bool → Call
  fails : ℕ → Text → Call

abbrev pub call : Call → RuntimeTurn → Raises RuntimeTurn
call activates = activate
call (completes now) = complete now
call (cancels now interrupted) = cancel now interrupted
call (fails now code) = fail now code

-- A caller that catches the exception keeps the turn it had.
abbrev pub settle : RuntimeTurn → Raises RuntimeTurn → RuntimeTurn
settle turn (ok t) = t
settle turn (err e) = turn

pub run : RuntimeTurn → List Call → RuntimeTurn
run turn [] = turn
run turn (c ∷ cs) = run (settle turn (call c turn)) cs

abbrev pub target : Call → LifecycleState
target activates = active
target (completes _) = completed
target (cancels _ _) = LifecycleState.cancelled
target (fails _ _) = LifecycleState.failed

-- The edges of the life cycle.
pub data Edge : LifecycleState → LifecycleState → Type 0 where
  begin : Edge created active
  finish : {s : LifecycleState} → is_terminal s ≡ true → Edge active s

pub record IsConsistent (turn : RuntimeTurn) : Type 0 where
  pub numbered : 1 ≤ turn.sequence
  pub ended : is_some turn.ended_at ≡ is_terminal turn.state
  pub interrupted : turn.interrupted ≡ true → turn.state ≡ LifecycleState.cancelled
  pub coded : is_some turn.error_code ≡ true → turn.state ≡ LifecycleState.failed

call-IsConsistent :
    (c : Call) (turn : RuntimeTurn) → IsConsistent turn → IsConsistent (settle turn (call c turn))
unfolding activate complete cancel fail
call-IsConsistent activates turn h = ground arith
call-IsConsistent (completes now) turn h = ground arith
call-IsConsistent (cancels now b) turn h = ground arith
call-IsConsistent (fails now code) turn h = ground arith

run-IsConsistent :
    (turn : RuntimeTurn) (cs : List Call) → IsConsistent turn → IsConsistent (run turn cs)
unfolding run
run-IsConsistent turn [] h = h
run-IsConsistent turn (c ∷ cs) h =
    run-IsConsistent (settle turn (call c turn)) cs (call-IsConsistent c turn h)

-- A turn that `create` makes with a sequence number of at least 1, after any method calls, raising
-- or not, has `ended_at` set exactly when its state is terminal, is marked interrupted only when
-- it was cancelled, and carries an error code only when it failed.
pub run-create-IsConsistent :
    (turn_id session_id organization_id sequence started_at : ℕ) (cs : List Call)
    → 1 ≤ sequence
    → IsConsistent (run (create turn_id session_id organization_id sequence started_at) cs)
unfolding create
run-create-IsConsistent turn_id session_id organization_id sequence started_at cs h =
    run-IsConsistent (create turn_id session_id organization_id sequence started_at) cs
      (record { numbered = h; ended = refl; interrupted = λ e. cc; coded = λ e. cc })

to_contract_of_IsConsistent :
    (turn : RuntimeTurn) → IsConsistent turn → is_some (to_contract turn) ≡ true
unfolding to_contract
to_contract_of_IsConsistent turn h = ground arith

-- Every turn that method calls can produce from `create` with a sequence number of at least 1 is
-- accepted by the validator of the contract's Turn: `to_contract` never raises.
pub to_contract_accepted :
    (turn_id session_id organization_id sequence started_at : ℕ) (cs : List Call)
    → 1 ≤ sequence
    → is_some (to_contract (run (create turn_id session_id organization_id sequence started_at) cs))
      ≡ true
to_contract_accepted turn_id session_id organization_id sequence started_at cs h =
    to_contract_of_IsConsistent _
      (run-create-IsConsistent turn_id session_id organization_id sequence started_at cs h)

call_of_terminal :
    (c : Call) (turn : RuntimeTurn)
    → is_terminal turn.state ≡ true
    → call c turn ≡ err (runtime invalid_state_transition)
unfolding activate complete cancel fail
call_of_terminal activates turn h = ground arith
call_of_terminal (completes now) turn h = ground arith
call_of_terminal (cancels now b) turn h = ground arith
call_of_terminal (fails now code) turn h = ground arith

-- Once a turn is completed, cancelled or failed, no sequence of method calls changes anything of it.
pub terminal_absorbs :
    (turn : RuntimeTurn) (cs : List Call) → is_terminal turn.state ≡ true → run turn cs ≡ turn
unfolding run
terminal_absorbs turn [] h = refl
terminal_absorbs turn (c ∷ cs) h =
    ground (arith, call_of_terminal c turn h, terminal_absorbs turn cs h)

call-Edge :
    (c : Call) (turn : RuntimeTurn)
    → (t : RuntimeTurn) × (call c turn ≡ ok t)
    → Edge turn.state (target c)
unfolding activate complete cancel fail
call-Edge activates turn h = grind (arith, begin)
call-Edge (completes now) turn h = grind (arith, finish)
call-Edge (cancels now b) turn h = grind (arith, finish)
call-Edge (fails now code) turn h = grind (arith, finish)

Edge-source :
    {s t : LifecycleState}
    → Edge s t
    → ((s ≡ created) × (t ≡ active)) ⊎ ((s ≡ active) × (is_terminal t ≡ true))
Edge-source begin = inl (refl, refl)
Edge-source (finish h) = inr (refl, h)

Edge-call :
    (c : Call) (turn : RuntimeTurn)
    → Edge turn.state (target c)
    → (t : RuntimeTurn) × (call c turn ≡ ok t)
unfolding activate complete cancel fail
Edge-call activates turn h = (record turn { state = active }, ground (arith, Edge-source h))
Edge-call (completes now) turn h =
    (record turn { state = completed; ended_at = some now }, ground (arith, Edge-source h))
Edge-call (cancels now b) turn h = (
  record turn { state = LifecycleState.cancelled; interrupted = b; ended_at = some now },
  ground (arith, Edge-source h),
)
Edge-call (fails now code) turn h = (
  record turn { state = LifecycleState.failed; error_code = some code; ended_at = some now },
  ground (arith, Edge-source h),
)

-- A method call succeeds exactly when the life cycle has the edge from the turn's state to the
-- method's target: created to active, and active to completed, cancelled or failed.
pub call_succeeds_iff :
    (c : Call) (turn : RuntimeTurn)
    → ((t : RuntimeTurn) × (call c turn ≡ ok t)) ↔ Edge turn.state (target c)
unfolding activate complete cancel fail
call_succeeds_iff c turn = (call-Edge c turn, Edge-call c turn)
