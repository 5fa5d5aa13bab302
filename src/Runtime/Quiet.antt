-- ===== src/Runtime/Quiet.antt =====
-- What building (dispatch.py) and admitting (runtime.py) an event leaves alone.
use xymphony_voice.Base.{
  ℕ, mem, ◌≤◌, ◌≡◌, ◌∙◌, Bool, true, false, Option, [], ◌∷◌, ◌++◌, arith, map, if◌then◌else◌,
}
use xymphony_voice.Base.Dict.{get}
use xymphony_voice.Base.Result.{ok, err}
use xymphony_voice.Errors.{Raises}
use xymphony_voice.Events.{EventType, EventSource, Payload, Event, is_stale}
use xymphony_voice.Runtime.State.{State, M, resume, ◌>>=◌}
use xymphony_voice.Runtime.Dispatch.{build_event}
use xymphony_voice.Runtime.Invariant.{Inv, Slot-supply}
use xymphony_voice.Runtime.Turns.{admit, admit_event}

-- `t` has the turns, the current turn, the cancellations and the tokens of `s`.
pub record Quiet (s t : State) : Type 0 where
  pub turns : t.turns ≡ s.turns
  pub current : t.current_turn_id ≡ s.current_turn_id
  pub cancelled : t.cancelled_turn_ids ≡ s.cancelled_turn_ids
  pub tokens : t.set_tokens ≡ s.set_tokens
  pub llm : t.llm_cancel_tokens ≡ s.llm_cancel_tokens
  pub stt : t.stt_cancel_tokens ≡ s.stt_cancel_tokens
  pub tts : t.tts_cancel_tokens ≡ s.tts_cancel_tokens
  pub supply : s.uuids ≤ t.uuids

pub Quiet-refl : (s : State) → Quiet s s
Quiet-refl s = ground arith

pub Quiet-trans : {s t u : State} → Quiet s t → Quiet t u → Quiet s u
Quiet-trans a b = record {
  turns = b.turns ∙ a.turns;
  current = b.current ∙ a.current;
  cancelled = b.cancelled ∙ a.cancelled;
  tokens = b.tokens ∙ a.tokens;
  llm = b.llm ∙ a.llm;
  stt = b.stt ∙ a.stt;
  tts = b.tts ∙ a.tts;
  supply = omega (arith, a.supply, b.supply);
}

pub build_event-Quiet :
    (type : EventType) (payload : Payload) (turn_id : Option ℕ) (source : EventSource) (s : State)
    → Quiet s (build_event type payload turn_id source s).1
unfolding build_event
build_event-Quiet type payload turn_id source s = ground arith

pub admit_event-Quiet : (event : Event) (s : State) → Quiet s (admit_event event s).1
unfolding admit_event
admit_event-Quiet event s = go (is_stale event s.cancelled_turn_ids)
  where
    go :
        (b : Bool)
        → Quiet s
            (if b then (let r : Bool × State = (false, s) in r) else (
              true,
              record s {
                admitted_events = s.admitted_events ++ event ∷ [];
                deliveries = s.deliveries ++ map (λ listener. (listener, event)) s.listeners;
              },
            )).1
    go true = ground arith
    go false = ground arith

pub resume-Quiet :
    {A B : Type 0} (r : Raises A) (f : A → M B) (s t : State)
    → Quiet s t
    → ((a : A) (u : State) → Quiet u (f a u).1)
    → Quiet s (resume r f t).1
resume-Quiet (ok a) f s t q h = Quiet-trans q (h a t)
resume-Quiet (err e) f s t q h = q

pub bind-Quiet :
    {A B : Type 0} (m : M A) (f : A → M B) (s : State)
    → Quiet s (m s).1
    → ((a : A) (t : State) → Quiet t (f a t).1)
    → Quiet s ((m >>= f) s).1
bind-Quiet m f s q h = resume-Quiet (m s).0 f s (m s).1 q h

pub admit-Quiet : (m : M Event) (s : State) → Quiet s (m s).1 → Quiet s (admit m s).1
unfolding admit
admit-Quiet m s q = go (m s).0 (m s).1 q
  where
    go :
        (r : Raises Event) (t : State)
        → Quiet s t
        → Quiet s (resume r (λ event s'. (ok tt, (admit_event event s').1)) t).1
    go (ok event) t q = Quiet-trans q (admit_event-Quiet event t)
    go (err e) t q = q

-- `t` has the turns, the current turn, the cancellations and the set tokens of `s`; other tokens may
-- be registered.
pub record Calm (s t : State) : Type 0 where
  pub turns : t.turns ≡ s.turns
  pub current : t.current_turn_id ≡ s.current_turn_id
  pub cancelled : t.cancelled_turn_ids ≡ s.cancelled_turn_ids
  pub tokens : t.set_tokens ≡ s.set_tokens
  pub supply : s.uuids ≤ t.uuids

pub Calm-Inv : (s t : State) → Calm s t → Inv s → Inv t
Calm-Inv s t q h = record {
  at = λ id.
      rw (q.turns, q.current, q.cancelled)
        (Slot-supply (get s.turns id) s.current_turn_id (mem id s.cancelled_turn_ids) s.uuids
          t.uuids id q.supply (h.at id));
}

pub Quiet-Calm : {s t : State} → Quiet s t → Calm s t
Quiet-Calm q = record {
  turns = q.turns;
  current = q.current;
  cancelled = q.cancelled;
  tokens = q.tokens;
  supply = q.supply;
}

pub Quiet-Inv : (s t : State) → Quiet s t → Inv s → Inv t
Quiet-Inv s t q h = Calm-Inv s t (Quiet-Calm q) h
