-- ===== src/Runtime/Owning.antt =====
-- Who owns a cancellation token of runtime.py: a token is registered for one turn only, and once its
-- event is set that turn is over.
use xymphony_voice.Base.{
  ℕ, ◌<◌, ◌≤◌, ◌≡◌, sym, ap, ◌∙◌, ◌⊎◌, inl, inr, true, some, arith, mem, Bool-cases, ==-ne,
  ==-cases,
}
use xymphony_voice.Base.Dict.{get, put, get-put, get-put_self}
use xymphony_voice.Turn.{RuntimeTurn, is_terminal}
use xymphony_voice.Runtime.State.{State, is_turn_cancelled, token_set}
use xymphony_voice.Runtime.Invariant.{Inv, Registered}
use xymphony_voice.Runtime.Keeps.{Slot-at, Moves, stays, rewires, opens, closes, Moves-Inv}

-- Every token that is registered, and every token whose event is set, was made.
pub record Tokens (s : State) : Type 0 where
  pub registered : (j x : ℕ) → Registered s j x → x < s.uuids
  pub signalled : (x : ℕ) → mem x s.set_tokens ≡ true → x < s.uuids

-- The turn is stored, and it is completed, cancelled or failed.
abbrev pub Over : ℕ → State → Type 0
Over id s = (turn : RuntimeTurn) × (get s.turns id ≡ some turn) × (is_terminal turn.state ≡ true)

-- The state between two steps of a task that holds the token `x` of the turn `id`.
pub record Owned (id x : ℕ) (s : State) : Type 0 where
  pub inv : Inv s
  pub tokens : Tokens s
  pub turn : RuntimeTurn
  pub found : get s.turns id ≡ some turn
  pub made : x < s.uuids
  pub sole : (j : ℕ) → Registered s j x → j ≡ id
  pub halts : mem x s.set_tokens ≡ true → is_terminal turn.state ≡ true

same_tokens :
    (s t : State)
    → t.llm_cancel_tokens ≡ s.llm_cancel_tokens
    → t.stt_cancel_tokens ≡ s.stt_cancel_tokens
    → t.tts_cancel_tokens ≡ s.tts_cancel_tokens
    → (j x : ℕ) → Registered t j x
    → Registered s j x
same_tokens s t l d p j x (inl f) = inl (ap (λ r. get r j) (sym l) ∙ f)
same_tokens s t l d p j x (inr (inl f)) = inr (inl (ap (λ r. get r j) (sym d) ∙ f))
same_tokens s t l d p j x (inr (inr f)) = inr (inr (ap (λ r. get r j) (sym p) ∙ f))

-- A token that was made before the step is registered after it only where it was before.
Moves-Registered :
    (s t : State) (j x : ℕ) → Moves s t → x < s.uuids → Registered t j x → Registered s j x
Moves-Registered s t j x (stays q) low r = same_tokens s t q.llm q.stt q.tts j x r
Moves-Registered s t j x (rewires w) low r = elim (w.registers j x r) [
  | inl old ↦ old
  | inr made ↦ absurd (omega (arith, made.0))
]
Moves-Registered s t j x (opens g e) low r =
    same_tokens s t (ap (λ u. u.llm_cancel_tokens) e) (ap (λ u. u.stt_cancel_tokens) e)
      (ap (λ u. u.tts_cancel_tokens) e) j x r
Moves-Registered s t j x (closes id turn f live e) low r = same_tokens s t e.llm e.stt e.tts j x r

Moves-new :
    (s t : State) (j x : ℕ) → Moves s t → Registered t j x → Registered s j x ⊎ (x < t.uuids)
Moves-new s t j x (stays q) r = inl (same_tokens s t q.llm q.stt q.tts j x r)
Moves-new s t j x (rewires w) r = elim (w.registers j x r) [
  | inl old ↦ inl old
  | inr made ↦ inr made.1
]
Moves-new s t j x (opens g e) r = inl (
    same_tokens s t (ap (λ u. u.llm_cancel_tokens) e) (ap (λ u. u.stt_cancel_tokens) e)
      (ap (λ u. u.tts_cancel_tokens) e) j x r)
Moves-new s t j x (closes id turn f live e) r = inl (same_tokens s t e.llm e.stt e.tts j x r)

pub Moves-supply : (s t : State) → Moves s t → s.uuids ≤ t.uuids
Moves-supply s t (stays q) = q.supply
Moves-supply s t (rewires w) = w.calm.supply
Moves-supply s t (opens g e) = omega (arith, ap (λ u. u.uuids) e)
Moves-supply s t (closes id turn f live e) = e.supply

-- A token whose event a step sets is registered for a turn that the step ends.
Moves-signals :
    (s t : State) (x : ℕ)
    → Moves s t
    → mem x t.set_tokens ≡ true
    → (mem x s.set_tokens ≡ true) ⊎ ((j : ℕ) × Registered s j x × Over j t)
Moves-signals s t x (stays q) m = inl (ap (mem x) (sym q.tokens) ∙ m)
Moves-signals s t x (rewires w) m = inl (ap (mem x) (sym w.calm.tokens) ∙ m)
Moves-signals s t x (opens g e) m = inl (ap (λ u. mem x u.set_tokens) (sym e) ∙ m)
Moves-signals s t x (closes id turn f live e) m = elim (e.signals x m) [
  | inl old ↦ inl old
  | inr r ↦
      inr (id, r, (e.turn, ap (λ d. get d id) e.stored ∙ get-put_self s.turns id e.turn, e.over))
]

pub Moves-Tokens : (s t : State) → Moves s t → Tokens s → Tokens t
Moves-Tokens s t m h = record {
  registered = λ j x r. elim (Moves-new s t j x m r) [
    | inl old ↦ omega (arith, h.registered j x old, low)
    | inr made ↦ made
  ];
  signalled = λ x set. elim (Moves-signals s t x m set) [
    | inl old ↦ omega (arith, h.signalled x old, low)
    | inr new ↦ omega (arith, h.registered new.0 x new.1, low)
  ];
}
  where
    low : s.uuids ≤ t.uuids
    low = Moves-supply s t m

-- A turn that is stored stays stored.
Moves-found :
    (s t : State) (id : ℕ) (turn : RuntimeTurn)
    → Inv s
    → Moves s t
    → get s.turns id ≡ some turn
    → (later : RuntimeTurn) × (get t.turns id ≡ some later)
      × (is_terminal turn.state ≡ true → is_terminal later.state ≡ true)
Moves-found s t id turn h (stays q) f = (turn, ap (λ d. get d id) q.turns ∙ f, λ e. e)
Moves-found s t id turn h (rewires w) f = (turn, ap (λ d. get d id) w.calm.turns ∙ f, λ e. e)
Moves-found s t id turn h (opens g e) f = (
  turn,
  rw (e, get-put, ==-ne s.uuids id (λ x. ground (arith, (Slot-at s id turn h f).1))) f,
  λ o. o,
)
Moves-found s t id turn h (closes j ended g live e) f = elim (==-cases j id) [
  | inl same ↦ (
    e.turn,
    ap (λ d. get d id) e.stored
        ∙ (ap (λ k. get (put s.turns k e.turn) id) same ∙ get-put_self s.turns id e.turn),
    λ o. e.over,
  )
  | inr other ↦ (turn, rw (e.stored, get-put, ==-ne j id other) f, λ o. o)
]

pub Over-Moves : (id : ℕ) (s t : State) → Inv s → Moves s t → Over id s → Over id t
Over-Moves id s t h m o =
    let later = Moves-found s t id o.0 h m o.1 in (later.0, later.1, later.2 o.2)

pub Owned-Moves : (id x : ℕ) (s t : State) → Moves s t → Owned id x s → Owned id x t
Owned-Moves id x s t m h = record {
  inv = Moves-Inv s t m h.inv;
  tokens = Moves-Tokens s t m h.tokens;
  turn = later.0;
  found = later.1;
  made = omega (arith, h.made, Moves-supply s t m);
  sole = λ j r. h.sole j (Moves-Registered s t j x m h.made r);
  halts = λ set. elim (Moves-signals s t x m set) [
    | inl old ↦ later.2 (h.halts old)
    | inr new ↦ ended new.0 (h.sole new.0 new.1) new.2
  ];
}
  where
    later :
        (later : RuntimeTurn) × (get t.turns id ≡ some later)
        × (is_terminal h.turn.state ≡ true → is_terminal later.state ≡ true)
    later = Moves-found s t id h.turn h.inv m h.found

    ended : (j : ℕ) → j ≡ id → Over j t → is_terminal (later.0).state ≡ true
    ended j same o = ground (arith, later.1, ap (get t.turns) same, o.1, o.2)

-- A turn whose token is set, or that is marked cancelled, is over.
pub Owned-halted :
    (id x : ℕ) (s : State)
    → Owned id x s
    → (token_set x s ≡ true) ⊎ (is_turn_cancelled id s ≡ true)
    → Over id s
unfolding token_set is_turn_cancelled
Owned-halted id x s h (inl set) = (h.turn, h.found, h.halts set)
Owned-halted id x s h (inr marked) = (
  h.turn,
  h.found,
  elim (Bool-cases (is_terminal h.turn.state)) [
    | inl over ↦ over
    | inr live ↦ absurd (ground (arith, ((Slot-at s id h.turn h.inv h.found).3 live).2, marked))
  ],
)

-- A state that has the turn stored, whoever acts for it.
pub record Held (id : ℕ) (s : State) : Type 0 where
  pub inv : Inv s
  pub tokens : Tokens s
  pub turn : RuntimeTurn
  pub found : get s.turns id ≡ some turn

pub Held-Moves : (id : ℕ) (s t : State) → Moves s t → Held id s → Held id t
Held-Moves id s t m h =
    let later = Moves-found s t id h.turn h.inv m h.found in
    record {
      inv = Moves-Inv s t m h.inv;
      tokens = Moves-Tokens s t m h.tokens;
      turn = later.0;
      found = later.1;
    }
