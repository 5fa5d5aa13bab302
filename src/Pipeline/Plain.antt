-- ===== src/Pipeline/Plain.antt =====
-- An undisturbed answer of runtime.py: the model sends text only, nobody interrupts, and no tool, no
-- summary, no retrieved context and no voice are configured.
use xymphony_voice.Base.{
  ℕ, ◌+◌, ◌≡◌, refl, sym, ap, ◌∙◌, Bool, true, false, Option, none, some, List, [], ◌∷◌, ◌++◌,
  arith, subst, mem, if◌then◌else◌,
}
use xymphony_voice.Base.Text.{Text, is_empty}
use xymphony_voice.Base.Result.{ok}
use xymphony_voice.Errors.{Raises}
use xymphony_voice.Events.{Event, EventType, EventSource, Payload, valid_payload, valid_event}
use xymphony_voice.Runtime.State.{State, M, resume, pure, is_turn_cancelled, token_set}
use xymphony_voice.Runtime.Dispatch.{build_event, llm_token_event}
use xymphony_voice.Runtime.Turns.{admit}
use xymphony_voice.Runtime.Quiet.{Quiet, Quiet-refl, Quiet-trans, admit-Quiet, build_event-Quiet}
use xymphony_voice.Runtime.Reach.{run}
use xymphony_voice.Pipeline.{
  Services, Stream, arrives, ends, LlmChunk, ◌>>=◌, wait, halted, unless_halted, if_some, go_on,
}
use xymphony_voice.Pipeline.Reply.{Reply, extend, admit_delta, consume}

-- The chunks of a text that arrives in pieces, with nothing done by others meanwhile.
unfoldable pub plain : List Text → Stream LlmChunk
plain [] = ends []
plain (d ∷ ds) = arrives [] (record { delta = d; finish_reason = none; tool_calls = [] }) (plain ds)

unfoldable pub joined : List Text → Text
joined [] = []
joined (d ∷ ds) = d ++ joined ds

-- `t` has the turns, the tokens, the conversations and the identity of `s`.
pub record Still (s t : State) : Type 0 where
  pub quiet : Quiet s t
  pub conversations : t.conversations ≡ s.conversations
  pub summaries : t.summaries ≡ s.summaries
  pub session : t.session_id ≡ s.session_id
  pub organization : t.organization_id ≡ s.organization_id

pub Still-refl : (s : State) → Still s s
Still-refl s = record {
  quiet = Quiet-refl s;
  conversations = refl;
  summaries = refl;
  session = refl;
  organization = refl;
}

pub Still-trans : {s t u : State} → Still s t → Still t u → Still s u
Still-trans a b = record {
  quiet = Quiet-trans a.quiet b.quiet;
  conversations = b.conversations ∙ a.conversations;
  summaries = b.summaries ∙ a.summaries;
  session = b.session ∙ a.session;
  organization = b.organization ∙ a.organization;
}

abbrev Untouched : State → State → Type 0
Untouched s t =
    (t.conversations ≡ s.conversations)
    × (t.summaries ≡ s.summaries)
    × (t.session_id ≡ s.session_id)
    × (t.organization_id ≡ s.organization_id)

-- The step, taken in `t`, returns `a` and leaves the turns and the tokens as they were in `s`.
pub record Does {A : Type 0} (a : A) (s t : State) (m : M A) : Type 0 where
  pub returned : (m t).0 ≡ ok a
  pub quiet : Still s (m t).1

resumes :
    {A B : Type 0} (b : B) (s t : State) (f : A → M B) (a : A) (r : Raises A) (u : State)
    → r ≡ ok a
    → Still s u
    → ((v : State) → Still s v → Does b s v (f a))
    → ((resume r f u).0 ≡ ok b) × Still s (resume r f u).1
resumes b s t f a r u e q k =
    subst (λ r'. ((resume r' f u).0 ≡ ok b) × Still s (resume r' f u).1) (sym e)
      ((k u q).returned, (k u q).quiet)

>>=-eq : {A B : Type 0} (m : M A) (f : A → M B) (t : State) → (m >>= f) t ≡ resume (m t).0 f (m t).1
unfolding ◌>>=◌
>>=-eq m f t = refl

pub bind-Does :
    {A B : Type 0} {a : A} {b : B} {m : M A} (f : A → M B) {s t : State}
    → Does a s t m
    → ((u : State) → Still s u → Does b s u (f a))
    → Does b s t (m >>= f)
bind-Does {a = a} {b = b} {m = m} f {s = s} {t = t} d k =
    let r = resumes b s t f a (m t).0 (m t).1 d.returned d.quiet k in
    record { returned = rw (>>=-eq m f t) r.0; quiet = rw (>>=-eq m f t) r.1 }

-- The event that `build_event` makes.
abbrev pub built : EventType → Payload → ℕ → EventSource → State → Event
built type payload id source s = record {
  id = s.uuids;
  type = type;
  timestamp = s.clock;
  session_id = s.session_id;
  organization_id = s.organization_id;
  project_id = s.project_id;
  agent_id = s.agent_id;
  agent_version_id = s.agent_version_id;
  deployment_id = s.deployment_id;
  turn_id = some id;
  sequence = s.sequence + 1;
  source = source;
  correlation_id = s.session_id;
  causation_id = none;
  payload = payload;
}

admit-returns :
    (type : EventType) (payload : Payload) (id : ℕ) (source : EventSource) (s : State)
    → valid_payload payload ≡ true
    → valid_event (built type payload id source s) ≡ true
    → (admit (build_event type payload (some id) source) s).0 ≡ ok tt
unfolding admit build_event
admit-returns type payload id source s v w = rw (v, w) refl

admit-elsewhere :
    (type : EventType) (payload : Payload) (id : ℕ) (source : EventSource) (s : State)
    → Untouched s (admit (build_event type payload (some id) source) s).1
unfolding admit build_event
admit-elsewhere type payload id source s = ground arith

pub admit-Does :
    (type : EventType) (payload : Payload) (id : ℕ) (source : EventSource) (s : State)
    → valid_payload payload ≡ true
    → valid_event (built type payload id source s) ≡ true
    → Does tt s s (admit (build_event type payload (some id) source))
admit-Does type payload id source s v w = record {
  returned = admit-returns type payload id source s v w;
  quiet = record {
    quiet =
        admit-Quiet (build_event type payload (some id) source) s
          (build_event-Quiet type payload (some id) source s);
    conversations = (admit-elsewhere type payload id source s).0;
    summaries = (admit-elsewhere type payload id source s).1;
    session = (admit-elsewhere type payload id source s).2;
    organization = (admit-elsewhere type payload id source s).3;
  };
}

module _ (services : Services) (id x : ℕ) (text : Text) where
  pub from : {A : Type 0} {a : A} {m : M A} {s t : State} → Still s t → Does a t t m → Does a s t m
  from q d = record { returned = d.returned; quiet = Still-trans q d.quiet }

  pub returns : {A : Type 0} (a : A) (s t : State) → Still s t → Does a s t (pure a)
  returns a s t q = record { returned = refl; quiet = q }

  admit_delta-Does : (delta : Text) (s : State) → Does tt s s (admit_delta services id x text delta)
  unfolding admit_delta llm_token_event valid_payload valid_event
  admit_delta-Does delta s = go (is_empty delta)
    where
      go : (b : Bool) → Does tt s s (if b then pure tt else admit (llm_token_event id delta))
      go true = returns tt s s (Still-refl s)
      go false =
          admit-Does EventType.llm_token (Payload.llm_token delta) id EventSource.llm s refl
            (ground arith)

  pub halted-Still : (s t : State) → Still s t → halted id x s ≡ false → halted id x t ≡ false
  unfolding halted token_set is_turn_cancelled
  halted-Still s t q h = ground (arith, ap (mem x) q.quiet.tokens, ap (mem id) q.quiet.cancelled, h)

  wait_none-Does : (s t : State) → Still s t → Does tt s t (wait [])
  unfolding wait run
  wait_none-Does s t q = record { returned = refl; quiet = q }

  pub unless_halted-Does :
      {A : Type 0} {m : M (Option A)} {a : Option A} (s t : State)
      → halted id x s ≡ false
      → Still s t
      → Does a s t m
      → Does a s t (unless_halted id x m)
  unfolding unless_halted ◌>>=◌
  unless_halted-Does s t h q d = record {
    returned = rw (halted-Still s t q h) d.returned;
    quiet = rw (halted-Still s t q h) d.quiet;
  }

  if_some-eq :
      {A B : Type 0} (m : M (Option A)) (f : A → M (Option B)) → if_some m f ≡ (m >>= go_on f)
  unfolding if_some
  if_some-eq m f = refl

  pub if_some-Does :
      {A B : Type 0} {m : M (Option A)} {a : A} (f : A → M (Option B)) {b : Option B} {s t : State}
      → Does (some a) s t m
      → ((u : State) → Still s u → Does b s u (f a))
      → Does b s t (if_some m f)
  if_some-Does {m = m} f d k = rw (if_some-eq m f) (bind-Does (go_on f) d k)

  -- The reply after the pieces.
  abbrev pub said : Reply → List Text → Reply
  said reply [] = reply
  said reply (d ∷ ds) =
      said (extend reply (record { delta = d; finish_reason = none; tool_calls = [] })) ds

  pub consume-Does :
      (ds : List Text) (reply : Reply) (s t : State)
      → halted id x s ≡ false
      → Still s t
      → Does (some (said reply ds)) s t (consume services id x text (plain ds) reply)
  unfolding plain consume
  consume-Does [] reply s t h q =
      bind-Does _ (wait_none-Does s t q) (λ u v. returns (some reply) s u v)
  consume-Does (d ∷ ds) reply s t h q = bind-Does _ (wait_none-Does s t q) (λ u v.
      unless_halted-Does s u h v
        (bind-Does _ (from v (admit_delta-Does d u)) (λ w y. consume-Does ds _ s w h y)))
