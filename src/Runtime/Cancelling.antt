-- ===== src/Runtime/Cancelling.antt =====
-- What cancelling a turn does.
use xymphony_voice.Base.{
  ℕ, ◌+◌, ◌≡◌, ◌≢◌, refl, sym, ap, ◌∙◌, ◌⊎◌, inl, inr, ==-cases, true, Option, none, some, List, [],
  ◌∷◌, ◌++◌, arith, mem, ==-ne, ==_refl,
}
use xymphony_voice.Base.Dict.{get, put}
use xymphony_voice.Base.Result.{ok}
use xymphony_voice.Turn.{RuntimeTurn, LifecycleState, active}
use xymphony_voice.Turn.Lifecycle.{IsConsistent}
use xymphony_voice.Events.{
  EventType, EventSource, Payload, Event, valid_payload, valid_event, is_stale,
}
use xymphony_voice.Runtime.State.{State, mark_cancelled, set_token, token_set}
use xymphony_voice.Runtime.Dispatch.{agent_interrupted_event}
use xymphony_voice.Runtime.Turns.{
  admit, cancel_turn, cancel_turn_object, set_turn_tokens, store_turn, clear_current,
}
use xymphony_voice.Runtime.Quiet.{Quiet, admit-Quiet, build_event-Quiet}
use xymphony_voice.Runtime.Invariant.{Ends, Registered}

-- The event that `_cancel_turn` builds.
abbrev pub interruption : ℕ → State → Event
interruption id s = record {
  id = s.uuids;
  type = EventType.agent_interrupted;
  timestamp = s.clock;
  session_id = s.session_id;
  organization_id = s.organization_id;
  project_id = s.project_id;
  agent_id = s.agent_id;
  agent_version_id = s.agent_version_id;
  deployment_id = s.deployment_id;
  turn_id = some id;
  sequence = s.sequence + 1;
  source = EventSource.runtime;
  correlation_id = s.session_id;
  causation_id = none;
  payload = Payload.agent_interrupted id [] [];
}

valid-interruption : (id : ℕ) (s : State) → valid_event (interruption id s) ≡ true
unfolding valid_event
valid-interruption id s = ground arith

-- The interruption is well formed and never stale, so it is always admitted.
pub admit-interruption :
    (id : ℕ) (s : State)
    → ((admit (agent_interrupted_event id) s).0 ≡ ok tt)
      × ((admit (agent_interrupted_event id) s).1.admitted_events
          ≡ s.admitted_events ++ interruption id s ∷ [])
unfolding admit agent_interrupted_event valid_payload is_stale
admit-interruption id s = rw (valid-interruption id s) (refl, refl)

set_turn_tokens-fields :
    (id : ℕ) (s : State)
    → ((set_turn_tokens id s).turns ≡ s.turns)
      × ((set_turn_tokens id s).context ≡ s.context)
      × ((set_turn_tokens id s).current_turn_id ≡ s.current_turn_id)
      × ((set_turn_tokens id s).admitted_events ≡ s.admitted_events)
      × ((set_turn_tokens id s).uuids ≡ s.uuids)
      × ((set_turn_tokens id s).clock ≡ s.clock)
      × ((set_turn_tokens id s).llm_cancel_tokens ≡ s.llm_cancel_tokens)
      × ((set_turn_tokens id s).stt_cancel_tokens ≡ s.stt_cancel_tokens)
      × ((set_turn_tokens id s).tts_cancel_tokens ≡ s.tts_cancel_tokens)
unfolding set_turn_tokens
set_turn_tokens-fields id s = ground arith

set_token-signals :
    (token : Option ℕ) (s : State) (x : ℕ)
    → mem x (set_token token s).set_tokens ≡ true
    → (mem x s.set_tokens ≡ true) ⊎ (token ≡ some x)
unfolding set_token mem
set_token-signals none s x m = inl m
set_token-signals (some token) s x m = elim (==-cases token x) [
  | inl same ↦ inr (ap some same)
  | inr other ↦ inl (ground (arith, m, ==-ne token x other))
]

-- Only the tokens registered for the turn are set.
set_turn_tokens-signals :
    (id : ℕ) (s : State) (x : ℕ)
    → mem x (set_turn_tokens id s).set_tokens ≡ true
    → (mem x s.set_tokens ≡ true) ⊎ Registered s id x
unfolding set_turn_tokens
set_turn_tokens-signals id s x m =
    let llm = get s.llm_cancel_tokens id in
    let stt = get s.stt_cancel_tokens id in
    let tts = get s.tts_cancel_tokens id in
    elim (set_token-signals tts (set_token stt (set_token llm s)) x m) [
      | inr e ↦ inr (inr (inr e))
      | inl m1 ↦ elim (set_token-signals stt (set_token llm s) x m1) [
        | inr e ↦ inr (inr (inl e))
        | inl m2 ↦ elim (set_token-signals llm s x m2) [ inr e ↦ inr (inl e) | inl m3 ↦ inl m3 ]
      ]
    ]

pub mem-other : (j id : ℕ) (ids : List ℕ) → j ≢ id → mem j (id ∷ ids) ≡ mem j ids
unfolding mem
mem-other j id ids ne = rw (==-ne id j (λ e. ne (sym e))) refl

pub mem_self : (id : ℕ) (ids : List ℕ) → mem id (id ∷ ids) ≡ true
unfolding mem
mem_self id ids = rw (==_refl id) refl

pub clear_current-here :
    (id : ℕ) (t : State)
    → t.current_turn_id ≡ some id
    → clear_current id t ≡ record t { current_turn_id = none }
unfolding clear_current
clear_current-here id t here = ground (arith, ==_refl id)

-- The tokens are set and the turn is marked, before the turn object changes.
abbrev pub marked : ℕ → State → State
marked id s = mark_cancelled id (set_turn_tokens id s)

abbrev pub cancelled_turn : State → RuntimeTurn → RuntimeTurn
cancelled_turn s turn = record turn {
  state = LifecycleState.cancelled;
  interrupted = true;
  ended_at = some s.clock;
}

abbrev pub stored : ℕ → State → RuntimeTurn → State
stored id s turn = store_turn (cancelled_turn s turn) (marked id s)

abbrev pub announced : ℕ → State → RuntimeTurn → State
announced id s turn = (admit (agent_interrupted_event id) (stored id s turn)).1

module _ (id : ℕ) (s : State) (turn : RuntimeTurn) (found : get s.turns id ≡ some turn)
    (live : turn.state ≡ active) (named : turn.id ≡ id) (here : s.current_turn_id ≡ some id) where
  clock-marked : (marked id s).clock ≡ s.clock
  unfolding mark_cancelled set_turn_tokens
  clock-marked = ground arith

  cancel-object : cancel_turn_object turn (marked id s) ≡ (ok tt, (stored id s turn))
  unfolding cancel_turn_object
  cancel-object = ground (arith, clock-marked)

  cancel_turn-eq :
      cancel_turn id s
      ≡ (ok tt, clear_current id (admit (agent_interrupted_event id) (stored id s turn)).1)
  unfolding cancel_turn
  cancel_turn-eq = ground (arith, cancel-object, (admit-interruption id (stored id s turn)).0)

  stored-current : (stored id s turn).current_turn_id ≡ some id
  unfolding store_turn mark_cancelled
  stored-current = (set_turn_tokens-fields id s).2 ∙ here

  pub stored-turns : (stored id s turn).turns ≡ put s.turns id (cancelled_turn s turn)
  unfolding store_turn mark_cancelled
  stored-turns = ground (arith, set_turn_tokens-fields id s)

  pub stored-cancelled : (stored id s turn).cancelled_turn_ids ≡ id ∷ s.cancelled_turn_ids
  unfolding store_turn mark_cancelled
  stored-cancelled = ground (arith, set_turn_tokens-fields id s)

  stored-uuids : (stored id s turn).uuids ≡ s.uuids
  unfolding store_turn mark_cancelled
  stored-uuids = ground (arith, set_turn_tokens-fields id s)

  pub stored-admitted : (stored id s turn).admitted_events ≡ s.admitted_events
  unfolding store_turn mark_cancelled
  stored-admitted = ground (arith, set_turn_tokens-fields id s)

  stored-dicts :
      ((stored id s turn).llm_cancel_tokens ≡ s.llm_cancel_tokens)
      × ((stored id s turn).stt_cancel_tokens ≡ s.stt_cancel_tokens)
      × ((stored id s turn).tts_cancel_tokens ≡ s.tts_cancel_tokens)
  unfolding store_turn mark_cancelled
  stored-dicts = let fields = set_turn_tokens-fields id s in (fields.6, fields.7, fields.8)

  pub stored-tokens : (stored id s turn).set_tokens ≡ (set_turn_tokens id s).set_tokens
  unfolding store_turn mark_cancelled
  stored-tokens = refl

  pub announced-Quiet : Quiet (stored id s turn) (announced id s turn)
  unfolding agent_interrupted_event
  announced-Quiet = admit-Quiet (agent_interrupted_event id) (stored id s turn) (
      build_event-Quiet EventType.agent_interrupted (Payload.agent_interrupted id [] []) (some id)
        EventSource.runtime (stored id s turn))

  pub cancel_turn_result :
      cancel_turn id s ≡ (ok tt, record (announced id s turn) { current_turn_id = none })
  cancel_turn_result =
      cancel_turn-eq
      ∙ ap (λ t. (ok tt, t))
          (clear_current-here id (announced id s turn) (announced-Quiet.current ∙ stored-current))

  pub cancel_turn-Ends : IsConsistent turn → Ends id s (cancel_turn id s).1
  cancel_turn-Ends h = rw cancel_turn_result (record {
    turn = (cancelled_turn s turn);
    stored = announced-Quiet.turns ∙ stored-turns;
    named = named;
    over = refl;
    consistent = ground (arith, h);
    current = inl refl;
    supply = omega (arith, announced-Quiet.supply, stored-uuids);
    llm = announced-Quiet.llm ∙ (stored-dicts).0;
    stt = announced-Quiet.stt ∙ (stored-dicts).1;
    tts = announced-Quiet.tts ∙ (stored-dicts).2;
    signals = λ x m.
        set_turn_tokens-signals id s x
          (ap (mem x) (sym (announced-Quiet.tokens ∙ stored-tokens)) ∙ m);
    marks = λ j ne.
        rw (announced-Quiet.cancelled ∙ stored-cancelled) (mem-other j id s.cancelled_turn_ids ne);
  })

  pub interruption-stored : interruption id (stored id s turn) ≡ interruption id s
  unfolding store_turn mark_cancelled
  interruption-stored = ground (arith, set_turn_tokens-fields id s)

-- The token registered for the turn, where there is one, is set.
abbrev pub IsSignalled : Option ℕ → State → Type 0
IsSignalled token t = (x : ℕ) → token ≡ some x → token_set x t ≡ true

pub set_turn_tokens-IsSignalled :
    (id : ℕ) (s : State)
    → IsSignalled (get s.llm_cancel_tokens id) (set_turn_tokens id s)
      × IsSignalled (get s.stt_cancel_tokens id) (set_turn_tokens id s)
      × IsSignalled (get s.tts_cancel_tokens id) (set_turn_tokens id s)
unfolding set_turn_tokens token_set mem
set_turn_tokens-IsSignalled id s = (
  λ x f. ground (arith, ==_refl x),
  λ x f. ground (arith, ==_refl x),
  λ x f. ground (arith, ==_refl x),
)
