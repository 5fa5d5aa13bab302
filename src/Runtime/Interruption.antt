-- ===== src/Runtime/Interruption.antt =====
-- What an interruption leaves behind: `_cancel_turn` of runtime.py on a turn that is not over.
use xymphony_voice.Base.{
  ℕ, ◌≡◌, ◌≢◌, refl, ◌∙◌, inl, inr, true, false, Option, none, some, [], ◌∷◌, ◌++◌, arith,
  Bool-cases,
}
use xymphony_voice.Base.Dict.{Dict, get, put, get-put, get-put_self}
use xymphony_voice.Base.Result.{ok}
use xymphony_voice.Turn.{RuntimeTurn, is_terminal}
use xymphony_voice.Runtime.State.{State, is_turn_cancelled, token_set}
use xymphony_voice.Runtime.Turns.{cancel_turn, set_turn_tokens}
use xymphony_voice.Runtime.Invariant.{Inv}
use xymphony_voice.Runtime.Keeps.{Slot-at, Moves, closes, Moves-eq}
use xymphony_voice.Runtime.Cancelling.{
  interruption, cancelled_turn, stored, announced-Quiet, cancel_turn_result, admit-interruption,
  interruption-stored, stored-turns, stored-cancelled, stored-admitted, stored-tokens, mem_self,
  IsSignalled, set_turn_tokens-IsSignalled, cancel_turn-Ends,
}

other :
    (d : Dict RuntimeTurn) (id j : ℕ) (turn : RuntimeTurn)
    → j ≢ id
    → get (put d id turn) j ≡ get d j
other d id j turn ne = ground (arith, get-put d id j turn)

-- The state `t` after the interruption of the turn `id` in the state `s`.
pub record Interrupted (id : ℕ) (turn : RuntimeTurn) (s t : State) : Type 0 where
  pub own : get t.turns id ≡ some (cancelled_turn s turn)
  pub others : (j : ℕ) → j ≢ id → get t.turns j ≡ get s.turns j
  pub idle : t.current_turn_id ≡ none
  pub marked : is_turn_cancelled id t ≡ true
  pub llm : IsSignalled (get s.llm_cancel_tokens id) t
  pub stt : IsSignalled (get s.stt_cancel_tokens id) t
  pub tts : IsSignalled (get s.tts_cancel_tokens id) t
  pub announced_once : t.admitted_events ≡ s.admitted_events ++ interruption id s ∷ []

signalled :
    (token : Option ℕ) (a b : State)
    → b.set_tokens ≡ a.set_tokens
    → IsSignalled token a
    → IsSignalled token b
unfolding token_set
signalled token a b e h = λ x f. rw e (h x f)

-- Cancelling a turn that is not over, in a state that satisfies the runtime's invariant, succeeds
-- and stores the turn as cancelled, interrupted and ended now; every other turn is kept, no turn
-- is current any more, the turn is marked cancelled, the LLM, STT and TTS tokens registered for it
-- are set, and exactly one event is admitted, the interruption of this turn.
pub cancel_turn_lem :
    (id : ℕ) (s : State) (turn : RuntimeTurn)
    → Inv s
    → get s.turns id ≡ some turn
    → is_terminal turn.state ≡ false
    → ((cancel_turn id s).0 ≡ ok tt) × Interrupted id turn s (cancel_turn id s).1
unfolding is_turn_cancelled
cancel_turn_lem id s turn h f live =
    let slot = Slot-at s id turn h f in
    let l = slot.3 live in
    let q = announced-Quiet id s turn f l.1 slot.0 l.0 in
    let ts = q.turns ∙ stored-turns id s turn f l.1 slot.0 l.0 in
    let tokens = q.tokens ∙ stored-tokens id s turn f l.1 slot.0 l.0 in
    let set = set_turn_tokens-IsSignalled id s in
    rw (cancel_turn_result id s turn f l.1 slot.0 l.0) (
      refl,
      record {
        own = rw ts (get-put_self s.turns id (cancelled_turn s turn));
        others = λ j ne. rw ts (other s.turns id j (cancelled_turn s turn) ne);
        idle = refl;
        marked =
            rw (q.cancelled ∙ stored-cancelled id s turn f l.1 slot.0 l.0)
              (mem_self id s.cancelled_turn_ids);
        llm = signalled (get s.llm_cancel_tokens id) (set_turn_tokens id s) _ tokens set.0;
        stt = signalled (get s.stt_cancel_tokens id) (set_turn_tokens id s) _ tokens set.1;
        tts = signalled (get s.tts_cancel_tokens id) (set_turn_tokens id s) _ tokens set.2;
        announced_once =
            rw
              (
                (admit-interruption id (stored id s turn)).1,
                stored-admitted id s turn f l.1 slot.0 l.0,
                interruption-stored id s turn f l.1 slot.0 l.0,
              )
              refl;
      },
    )

cancel_turn-absent : (id : ℕ) (s : State) → get s.turns id ≡ none → (cancel_turn id s).1 ≡ s
unfolding cancel_turn
cancel_turn-absent id s f = ground (arith, f)

cancel_turn-over :
    (id : ℕ) (s : State) (turn : RuntimeTurn)
    → get s.turns id ≡ some turn
    → is_terminal turn.state ≡ true
    → (cancel_turn id s).1 ≡ s
unfolding cancel_turn
cancel_turn-over id s turn f over = ground (arith, f)

pub cancel_turn-Moves : (id : ℕ) (s : State) → Inv s → Moves s (cancel_turn id s).1
cancel_turn-Moves id s h = go (get s.turns id) refl
  where
    go : (found : Option RuntimeTurn) → get s.turns id ≡ found → Moves s (cancel_turn id s).1
    go none f = Moves-eq s _ (cancel_turn-absent id s f)
    go (some turn) f = elim (Bool-cases (is_terminal turn.state)) [
      | inl over ↦ Moves-eq s _ (cancel_turn-over id s turn f over)
      | inr live ↦
          let slot = Slot-at s id turn h f in
          let l = slot.3 live in
          closes id turn f live (cancel_turn-Ends id s turn f l.1 slot.0 l.0 slot.2)
    ]
