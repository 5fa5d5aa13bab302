-- ===== src/Examples/Turns.antt =====
-- Turns of packages/agent-runtime/src/xymphony_runtime/turn.py.
use xymphony_voice.Base.{◌≡◌, ◌↔◌, refl, true, false, none, some, List, [], ◌∷◌, arith, is_some}
use xymphony_voice.Base.Result.{ok}
use xymphony_voice.Turn.{RuntimeTurn, active, completed, create, to_contract}
use xymphony_voice.Turn.Lifecycle.{
  Call, activates, completes, cancels, call, run, Edge, IsConsistent, run-create-IsConsistent,
  to_contract_accepted, terminal_absorbs, call_succeeds_iff,
}

abbrev calls : List Call
calls = activates ∷ cancels 6 true ∷ completes 9 ∷ []

abbrev fresh : RuntimeTurn
fresh = record {
  id = 1;
  session_id = 2;
  organization_id = 3;
  sequence = 4;
  state = active;
  started_at = 5;
  ended_at = none;
  interrupted = false;
  error_code = none;
}

abbrev finished : RuntimeTurn
finished = record fresh { state = completed; ended_at = some 8 }

run-create-IsConsistent_example : IsConsistent (run (create 1 2 3 4 5) calls)
run-create-IsConsistent_example = run-create-IsConsistent 1 2 3 4 5 calls (omega arith)

to_contract_accepted_example : is_some (to_contract (run (create 1 2 3 4 5) calls)) ≡ true
to_contract_accepted_example = to_contract_accepted 1 2 3 4 5 calls (omega arith)

terminal_absorbs_example : run finished calls ≡ finished
terminal_absorbs_example = terminal_absorbs finished calls refl

call_succeeds_iff_example :
    ((t : RuntimeTurn) × (call (completes 8) fresh ≡ ok t)) ↔ Edge active completed
call_succeeds_iff_example = call_succeeds_iff (completes 8) fresh
