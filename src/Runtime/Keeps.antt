-- ===== src/Runtime/Keeps.antt =====
-- Beginning and completing turns, and the invariant.
use xymphony_voice.Base.{
  ℕ, ◌≤◌, ◌<◌, ◌↔◌, suc, ◌+◌, ◌==◌, ◌≡◌, ◌≢◌, refl, sym, subst, ap, ◌∙◌, ◌⊎◌, inl, inr, Bool, true,
  false, Option, none, some, arith, mem, if◌then◌else◌, Bool-cases, ==-cases, ==-ne, ==_refl,
}
use xymphony_voice.Base.Dict.{get, put, get-put}
use xymphony_voice.Base.Result.{ok, err}
use xymphony_voice.Errors.{Raises, Exception}
use xymphony_voice.Turn.{RuntimeTurn, active, completed, is_terminal, complete}
use xymphony_voice.Runtime.State.{State, is_turn_cancelled}
use xymphony_voice.Runtime.Turns.{begin_guard, begin_turn, complete_turn, store_turn, clear_current}
use xymphony_voice.Runtime.Invariant.{Slot, Inv, Registered, Ends, Ends-Inv}
use xymphony_voice.Runtime.Quiet.{Quiet, Quiet-refl, Quiet-Inv, Calm, Calm-Inv}

-- The turn that `_begin_turn` makes, and the state it leaves.
abbrev pub begun_turn : State → RuntimeTurn
begun_turn s = record {
  id = s.uuids;
  session_id = s.session_id;
  organization_id = s.organization_id;
  sequence = s.turn_sequence + 1;
  state = active;
  started_at = s.clock;
  ended_at = none;
  interrupted = false;
  error_code = none;
}

abbrev pub begun : State → State
begun s = record s {
  context = record (s.context) { turn_sequence = s.turn_sequence + 1 };
  turns = put s.turns s.uuids (begun_turn s);
  current_turn_id = some s.uuids;
  uuids = suc s.uuids;
}

pub begin_turn-eq : (s : State) → begin_guard s ≡ ok tt → begin_turn s ≡ (ok s.uuids, begun s)
unfolding begin_turn
begin_turn-eq s h = ground (arith, h)

pub begin_turn-raises :
    (s : State) (e : Exception) → begin_guard s ≡ err e → begin_turn s ≡ (err e, s)
unfolding begin_turn
begin_turn-raises s e h = ground (arith, h)

-- The guard passes only when the current turn is over.
pub begin_guard-over :
    (s : State) (id : ℕ) (turn : RuntimeTurn)
    → begin_guard s ≡ ok tt
    → s.current_turn_id ≡ some id
    → get s.turns id ≡ some turn
    → is_terminal turn.state ≡ true
unfolding begin_guard
begin_guard-over s id turn h c f = ground arith

Slot-begun :
    (found : Option RuntimeTurn) (current : Option ℕ) (marked : Bool) (uuids id : ℕ)
    → id ≢ uuids
    → ((turn : RuntimeTurn) → found ≡ some turn → is_terminal turn.state ≡ true)
    → Slot found current marked uuids id
    → Slot found (some uuids) marked (suc uuids) id
Slot-begun none current marked uuids id ne over h = (h.0, λ e. ne (ground arith))
Slot-begun (some turn) current marked uuids id ne over h =
    (h.0, omega arith, h.2, λ n. absurd (cc (over turn refl, n)))

-- When the guard passes, every turn that is stored is over.
all_over :
    (s : State) (id : ℕ) (turn : RuntimeTurn)
    → begin_guard s ≡ ok tt
    → get s.turns id ≡ some turn
    → Slot (get s.turns id) s.current_turn_id (mem id s.cancelled_turn_ids) s.uuids id
    → is_terminal turn.state ≡ true
all_over s id turn g f h = elim (Bool-cases (is_terminal turn.state)) [
  | inl over ↦ over
  | inr live ↦ begin_guard-over s id turn g (ground arith) f
]

begun-Inv : (s : State) → begin_guard s ≡ ok tt → Inv s → Inv (begun s)
begun-Inv s g h = record { at = λ id. rw get-put (slot id (==-cases s.uuids id)) }
  where
    slot :
        (id : ℕ)
        → (s.uuids ≡ id) ⊎ (s.uuids ≢ id)
        → Slot
            (if s.uuids == id then some (begun_turn s) else get s.turns id)
            (some s.uuids)
            (mem id s.cancelled_turn_ids)
            (suc s.uuids)
            id
    slot id (inl same) = ground (arith, h.at s.uuids)
    slot id (inr other) = rw (==-ne s.uuids id other) (
        Slot-begun (get s.turns id) s.current_turn_id (mem id s.cancelled_turn_ids) s.uuids id
          (λ e. other (sym e)) (λ turn f. all_over s id turn g f (h.at id)) (h.at id))

pub begin_guard-cases :
    (s : State) → (begin_guard s ≡ ok tt) ⊎ ((e : Exception) × (begin_guard s ≡ err e))
begin_guard-cases s = go (begin_guard s)
  where
    go : (r : Raises (Unit {0})) → (r ≡ ok tt) ⊎ ((e : Exception) × (r ≡ err e))
    go (ok u) = inl refl
    go (err e) = inr (e, refl)

-- Registering tokens registers none that is in use already: a token is an object of its own.
pub record Rewires (s t : State) : Type 0 where
  pub calm : Calm s t
  pub registers : (j x : ℕ) → Registered t j x → Registered s j x ⊎ ((s.uuids ≤ x) × (x < t.uuids))

-- What an operation may do to the turns: nothing; nothing but to register and release tokens; begin
-- a turn while every other one is over; or end the current turn, which was open.
pub data Moves (s t : State) : Type 0 where
  stays : Quiet s t → Moves s t
  rewires : Rewires s t → Moves s t
  opens : begin_guard s ≡ ok tt → t ≡ begun s → Moves s t
  closes :
      (id : ℕ) (turn : RuntimeTurn)
      → get s.turns id ≡ some turn
      → is_terminal turn.state ≡ false
      → Ends id s t
      → Moves s t

pub Moves-refl : (s : State) → Moves s s
Moves-refl s = stays (Quiet-refl s)

pub Moves-eq : (s t : State) → t ≡ s → Moves s t
Moves-eq s t e = rw e (Moves-refl s)

pub begin_turn-Moves : (s : State) → Moves s (begin_turn s).1
begin_turn-Moves s = elim (begin_guard-cases s) [
  | inl g ↦ rw (begin_turn-eq s g) (opens g refl)
  | inr e ↦ rw (begin_turn-raises s e.0 e.1) (Moves-refl s)
]

pub Slot-at :
    (s : State) (id : ℕ) (turn : RuntimeTurn)
    → Inv s
    → get s.turns id ≡ some turn
    → Slot (some turn) s.current_turn_id (mem id s.cancelled_turn_ids) s.uuids id
Slot-at s id turn h f =
    subst (λ r. Slot r s.current_turn_id (mem id s.cancelled_turn_ids) s.uuids id) f (h.at id)

pub Moves-Inv : (s t : State) → Moves s t → Inv s → Inv t
Moves-Inv s t (stays q) h = Quiet-Inv s t q h
Moves-Inv s t (rewires r) h = Calm-Inv s t r.calm h
Moves-Inv s t (opens g e) h = rw e (begun-Inv s g h)
Moves-Inv s t (closes id turn f live e) h =
    let slot = Slot-at s id turn h f in Ends-Inv id s t h (slot.3 live).0 slot.1 e

module _ (id : ℕ) (s : State) (turn : RuntimeTurn) (found : get s.turns id ≡ some turn)
    (live : is_terminal turn.state ≡ false)
    (h : Slot (some turn) s.current_turn_id (mem id s.cancelled_turn_ids) s.uuids id) where
  abbrev pub completed_turn : RuntimeTurn
  completed_turn = record turn { state = completed; ended_at = some s.clock }

  -- Completing a turn that is not over stores it and leaves no turn current.
  pub complete_turn-eq :
      complete_turn id s ≡ (ok tt, record (store_turn completed_turn s) { current_turn_id = none })
  unfolding complete_turn complete is_turn_cancelled clear_current store_turn
  complete_turn-eq = ground (arith, h.3 live, ==_refl id)

  complete_turn-Ends : Ends id s (complete_turn id s).1
  unfolding store_turn
  complete_turn-Ends = rw complete_turn-eq (record {
    turn = completed_turn;
    stored = ground (arith, h.0);
    named = h.0;
    over = refl;
    consistent = ground (arith, h.2, h.3 live);
    current = inl refl;
    supply = omega arith;
    llm = refl;
    stt = refl;
    tts = refl;
    signals = λ x m. inl m;
    marks = λ j ne. refl;
  })

-- No turn is stored under an identifier that was not handed out.
complete_turn-absent : (id : ℕ) (s : State) → get s.turns id ≡ none → (complete_turn id s).1 ≡ s
unfolding complete_turn
complete_turn-absent id s f = ground (arith, f)

complete_turn-over :
    (id : ℕ) (s : State) (turn : RuntimeTurn)
    → get s.turns id ≡ some turn
    → is_terminal turn.state ≡ true
    → (complete_turn id s).1 ≡ s
unfolding complete_turn
complete_turn-over id s turn f over = ground (arith, f)

pub complete_turn-Moves : (id : ℕ) (s : State) → Inv s → Moves s (complete_turn id s).1
complete_turn-Moves id s h = go (get s.turns id) refl
  where
    go : (found : Option RuntimeTurn) → get s.turns id ≡ found → Moves s (complete_turn id s).1
    go none f = Moves-eq s _ (complete_turn-absent id s f)
    go (some turn) f = elim (Bool-cases (is_terminal turn.state)) [
      | inl over ↦ Moves-eq s _ (complete_turn-over id s turn f over)
      | inr live ↦
          closes id turn f live (complete_turn-Ends id s turn f live (Slot-at s id turn h f))
    ]

guard_passes :
    (s : State)
    → Inv s
    → ((id : ℕ) (turn : RuntimeTurn) → get s.turns id ≡ some turn → is_terminal turn.state ≡ true)
    → begin_guard s ≡ ok tt
unfolding begin_guard
guard_passes s h over = go s.current_turn_id refl
  where
    at :
        (id : ℕ) (r : Option RuntimeTurn)
        → s.current_turn_id ≡ some id
        → get s.turns id ≡ r
        → begin_guard s ≡ ok tt
    at id none c f = absurd (ground (arith, h.at id))
    at id (some turn) c f = ground (arith, c, f, over id turn f)

    go : (c : Option ℕ) → s.current_turn_id ≡ c → begin_guard s ≡ ok tt
    go none c = ground (arith, c)
    go (some id) c = at id (get s.turns id) c refl

-- In a state that satisfies the runtime's invariant, `_begin_turn` succeeds exactly when every turn
-- that was ever stored is over.
pub begin_turn_succeeds_iff :
    (s : State)
    → Inv s
    → ((id : ℕ) × ((begin_turn s).0 ≡ ok id))
      ↔ ((id : ℕ) (turn : RuntimeTurn) → get s.turns id ≡ some turn → is_terminal turn.state ≡ true)
begin_turn_succeeds_iff s h = (forth, back)
  where
    forth :
        (id : ℕ) × ((begin_turn s).0 ≡ ok id)
        → (id : ℕ) (turn : RuntimeTurn) → get s.turns id ≡ some turn
        → is_terminal turn.state ≡ true
    forth r id turn f = elim (begin_guard-cases s) [
      | inl g ↦ all_over s id turn g f (h.at id)
      | inr e ↦ absurd (ground (arith, r.1, begin_turn-raises s e.0 e.1))
    ]

    back :
        ((id : ℕ) (turn : RuntimeTurn) → get s.turns id ≡ some turn → is_terminal turn.state ≡ true)
        → (id : ℕ) × ((begin_turn s).0 ≡ ok id)
    back over = (s.uuids, ap (λ r. r.0) (begin_turn-eq s (guard_passes s h over)))

-- Completing a turn that is not over, in a state that satisfies the runtime's invariant, succeeds,
-- stores the turn as completed and ended now, keeps every other turn and leaves no turn current.
pub complete_turn_lem :
    (id : ℕ) (s : State) (turn : RuntimeTurn)
    → Inv s
    → get s.turns id ≡ some turn
    → is_terminal turn.state ≡ false
    → ((complete_turn id s).0 ≡ ok tt)
      × ((j : ℕ)
          → get (complete_turn id s).1.turns j ≡ (
              if id == j
              then some (record turn { state = completed; ended_at = some s.clock })
              else get s.turns j))
      × ((complete_turn id s).1.current_turn_id ≡ none)
unfolding store_turn
complete_turn_lem id s turn h f live =
    let slot = Slot-at s id turn h f in
    rw (complete_turn-eq id s turn f live slot) (
      refl,
      λ j. ground (arith, slot.0, get-put s.turns id j (completed_turn id s turn f live slot)),
      refl,
    )

complete_turn_raises :
    (id : ℕ) (s : State) (turn : RuntimeTurn)
    → get s.turns id ≡ some turn
    → is_terminal turn.state ≡ true
    → ¬ ((complete_turn id s).0 ≡ ok tt)
unfolding complete_turn
complete_turn_raises id s turn f over done = ground (arith, f, over, done)

-- A completion that returns leaves the turn over.
pub complete_turn_over :
    (id : ℕ) (s : State) (turn : RuntimeTurn)
    → Inv s
    → get s.turns id ≡ some turn
    → (complete_turn id s).0 ≡ ok tt
    → (later : RuntimeTurn) × (get (complete_turn id s).1.turns id ≡ some later)
      × (is_terminal later.state ≡ true)
complete_turn_over id s turn h f done = elim (Bool-cases (is_terminal turn.state)) [
  | inl over ↦ absurd (complete_turn_raises id s turn f over done)
  | inr live ↦
      let after = (complete_turn_lem id s turn h f live).1 id in
      (
        record turn { state = completed; ended_at = some s.clock },
        after
            ∙ ap
                (λ b.
                  if b
                  then some (record turn { state = completed; ended_at = some s.clock })
                  else get s.turns id)
                (==_refl id),
        refl,
      )
]
