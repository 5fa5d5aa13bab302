-- ===== src/Runtime/Invariant.antt =====
-- What holds of a runtime between the steps of its tasks.
use xymphony_voice.Base.{
  ℕ, ◌≤◌, ◌<◌, ◌==◌, ◌≡◌, ◌≢◌, Bool, true, false, Option, none, some, arith, mem, ==-cases, ==-ne,
  sym, ◌∙◌, if◌then◌else◌, ◌⊎◌, inl, inr,
}
use xymphony_voice.Base.Dict.{get, put, get-put}
use xymphony_voice.Turn.{RuntimeTurn, active, is_terminal}
use xymphony_voice.Turn.Lifecycle.{IsConsistent}
use xymphony_voice.Runtime.State.{State}

-- What is found under one turn identifier: nothing, and then it is neither cancelled nor current;
-- or a consistent turn under its own identifier, which if it is not over is the current turn, is
-- active, and is not marked cancelled.
abbrev pub Slot : Option RuntimeTurn → Option ℕ → Bool → ℕ → ℕ → Type 0
Slot none current marked uuids id = (marked ≡ false) × (current ≢ some id)
Slot (some turn) current marked uuids id =
    (turn.id ≡ id)
    × (id < uuids)
    × IsConsistent turn
    × (is_terminal turn.state ≡ false
        → (current ≡ some id) × (turn.state ≡ active) × (marked ≡ false))

pub record Inv (s : State) : Type 0 where
  pub at :
      (id : ℕ) → Slot (get s.turns id) s.current_turn_id (mem id s.cancelled_turn_ids) s.uuids id

-- The token is registered for the turn, for its model, its speech input or its speech output.
abbrev pub Registered : State → ℕ → ℕ → Type 0
Registered s id x =
    (get s.llm_cancel_tokens id ≡ some x)
    ⊎ ((get s.stt_cancel_tokens id ≡ some x) ⊎ (get s.tts_cancel_tokens id ≡ some x))

-- What a step does to the runtime when it ends the turn `id`, whatever else it records.
pub record Ends (id : ℕ) (s t : State) : Type 0 where
  pub turn : RuntimeTurn
  pub stored : t.turns ≡ put s.turns id turn
  pub named : turn.id ≡ id
  pub over : is_terminal turn.state ≡ true
  pub consistent : IsConsistent turn
  pub current : (t.current_turn_id ≡ none) ⊎ (t.current_turn_id ≡ s.current_turn_id)
  pub supply : s.uuids ≤ t.uuids
  pub llm : t.llm_cancel_tokens ≡ s.llm_cancel_tokens
  pub stt : t.stt_cancel_tokens ≡ s.stt_cancel_tokens
  pub tts : t.tts_cancel_tokens ≡ s.tts_cancel_tokens
  pub signals :
      (x : ℕ) → mem x t.set_tokens ≡ true → (mem x s.set_tokens ≡ true) ⊎ Registered s id x
  pub marks : (j : ℕ) → j ≢ id → mem j t.cancelled_turn_ids ≡ mem j s.cancelled_turn_ids

pub Slot-supply :
    (found : Option RuntimeTurn) (current : Option ℕ) (marked : Bool) (uuids uuids' id : ℕ)
    → uuids ≤ uuids'
    → Slot found current marked uuids id
    → Slot found current marked uuids' id
Slot-supply none current marked uuids uuids' id low h = h
Slot-supply (some turn) current marked uuids uuids' id low h = (h.0, omega arith, h.2, h.3)

Slot-other :
    (found : Option RuntimeTurn) (id j uuids uuids' : ℕ) (current current' : Option ℕ)
    (marked marked' : Bool)
    → id ≢ j
    → current ≡ some id
    → (current' ≡ none) ⊎ (current' ≡ current)
    → uuids ≤ uuids'
    → marked' ≡ marked
    → Slot found current marked uuids j
    → Slot found current' marked' uuids' j
Slot-other none id j uuids uuids' current current' marked marked' ne here moved low same h =
    (ground arith, λ e. ground arith)
Slot-other (some x) id j uuids uuids' current current' marked marked' ne here moved low same h =
    (h.0, omega arith, h.2, λ e. absurd (ground (arith, h.3 e)))

-- Ending the turn that is current keeps the invariant.
pub Ends-Inv :
    (id : ℕ) (s t : State)
    → Inv s
    → s.current_turn_id ≡ some id
    → id < s.uuids
    → Ends id s t
    → Inv t
Ends-Inv id s t h here low e = record { at = λ j. rw (e.stored, get-put) (slot j (==-cases id j)) }
  where
    slot :
        (j : ℕ)
        → (id ≡ j) ⊎ (id ≢ j)
        → Slot
            (if id == j then some e.turn else get s.turns j)
            t.current_turn_id
            (mem j t.cancelled_turn_ids)
            t.uuids
            j
    slot j (inl same) =
        let e1 : (id == j) ≡ true = ground arith in
        rw e1 (e.named ∙ same, omega arith, e.consistent, λ n. cc (e.over, n))
    slot j (inr other) = rw (==-ne id j other) (
        Slot-other (get s.turns j) id j s.uuids t.uuids s.current_turn_id t.current_turn_id
          (mem j s.cancelled_turn_ids) (mem j t.cancelled_turn_ids) other here e.current e.supply
          (e.marks j (λ p. other (sym p))) (h.at j))
