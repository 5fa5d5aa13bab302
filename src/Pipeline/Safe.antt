-- ===== src/Pipeline/Safe.antt =====
-- How steps of a task of runtime.py compose: each keeps the turn's token its own, and where it makes
-- the method return early the turn is over.
use xymphony_voice.Base.{
  ℕ, ◌≡◌, refl, inl, inr, Bool, true, false, ◌||◌, Option, none, some, List, [], ◌∷◌, arith, ◌⊎◌,
  Bool-cases,
}
use xymphony_voice.Base.Text.{Text}
use xymphony_voice.Base.Result.{ok, err}
use xymphony_voice.Errors.{Raises, Exception, provider_error}
use xymphony_voice.Runtime.State.{
  State, token_set, is_turn_cancelled, M, resume, pure, raise, gets, modify, lift,
}
use xymphony_voice.Runtime.Tasks.{fail_turn}
use xymphony_voice.Runtime.Invariant.{Inv}
use xymphony_voice.Runtime.Quiet.{Quiet}
use xymphony_voice.Runtime.Keeps.{Moves, stays}
use xymphony_voice.Runtime.Working.{fail_turn-Moves, fail_turn_over}
use xymphony_voice.Runtime.Owning.{Over, Owned, Owned-Moves, Owned-halted}
use xymphony_voice.Runtime.Reach.{Operation, run, perform, perform-Moves}
use xymphony_voice.Pipeline.{
  ◌>>=◌, wait, halted, unless_halted, go_on, if_some, fail_and_return, provider_failure,
}

abbrev pub is_none : {A : Type 0} → Option A → Bool
is_none none = true
is_none (some _) = false

module _ (id x : ℕ) where
  -- The token stays the turn's own, and after a value that stops the method the turn is over.
  pub record Safe {A : Type 0} (stops : A → Bool) (r : Raises A × State) : Type 0 where
    pub owned : Owned id x r.1
    pub over : (a : A) → r.0 ≡ ok a → stops a ≡ true → Over id r.1

  pub record Safely {A : Type 0} (stops : A → Bool) (m : M A) : Type 0 where
    pub at : (s : State) → Owned id x s → Safe stops (m s)

  pub record Keeps {A : Type 0} (m : M A) : Type 0 where
    pub at : (s : State) → Owned id x s → Owned id x (m s).1

  pub Moves-Keeps : {A : Type 0} (m : M A) → ((s : State) → Inv s → Moves s (m s).1) → Keeps m
  Moves-Keeps m h = record { at = λ s o. Owned-Moves id x s (m s).1 (h s o.inv) o }

  pub Quiet-Keeps : {A : Type 0} (m : M A) → ((s : State) → Quiet s (m s).1) → Keeps m
  Quiet-Keeps m h = Moves-Keeps m (λ s i. stays (h s))

  pub Safely-Keeps : {A : Type 0} {stops : A → Bool} {m : M A} → Safely stops m → Keeps m
  Safely-Keeps h = record { at = λ s o. (h.at s o).owned }

  pub gets-Keeps : {A : Type 0} (f : State → A) → Keeps (gets f)
  gets-Keeps f = record { at = λ s o. o }

  pub lift-Keeps : {A : Type 0} (r : Raises A) → Keeps (lift r)
  lift-Keeps r = record { at = λ s o. o }

  pub pure-Keeps : {A : Type 0} (a : A) → Keeps (pure a)
  pure-Keeps a = record { at = λ s o. o }

  pub raise-Keeps : {A : Type 0} (e : Exception) → Keeps (raise {A = A} e)
  raise-Keeps e = record { at = λ s o. o }

  pub modify-Keeps : (f : State → State) → ((s : State) → Quiet s (f s)) → Keeps (modify f)
  modify-Keeps f q = Quiet-Keeps (modify f) q

  resume-Safe :
      {A B : Type 0} {stops : B → Bool} (r : Raises A) (f : A → M B) (t : State)
      → Owned id x t
      → ((a : A) → Safely stops (f a))
      → Safe stops (resume r f t)
  resume-Safe (ok a) f t o h = (h a).at t o
  resume-Safe (err e) f t o h = record { owned = o; over = λ a f s. absurd (cc f) }

  pub bind-Safely :
      {A B : Type 0} {stops : B → Bool} {m : M A} {f : A → M B}
      → Keeps m
      → ((a : A) → Safely stops (f a))
      → Safely stops (m >>= f)
  unfolding ◌>>=◌
  bind-Safely {m = m} {f = f} k h = record {
    at = λ s o. resume-Safe (m s).0 f (m s).1 (k.at s o) h;
  }

  resume-Owned :
      {A B : Type 0} (r : Raises A) (f : A → M B) (t : State)
      → Owned id x t
      → ((a : A) → Keeps (f a))
      → Owned id x (resume r f t).1
  resume-Owned (ok a) f t o h = (h a).at t o
  resume-Owned (err e) f t o h = o

  pub bind-Keeps :
      {A B : Type 0} {m : M A} {f : A → M B} → Keeps m → ((a : A) → Keeps (f a)) → Keeps (m >>= f)
  unfolding ◌>>=◌
  bind-Keeps {m = m} {f = f} k h = record {
    at = λ s o. resume-Owned (m s).0 f (m s).1 (k.at s o) h;
  }

  pub raise-Safely : {A : Type 0} {stops : A → Bool} (e : Exception) → Safely stops (raise e)
  raise-Safely e = record { at = λ s o. record { owned = o; over = λ a f h. absurd (cc f) } }

  pub some-Safely : {A : Type 0} (a : A) → Safely is_none (pure (some a))
  some-Safely a = record {
    at = λ s o. record { owned = o; over = λ b f h. absurd (ground (arith, f, h)) };
  }

  go_on-Safe :
      {A B : Type 0} (r : Raises (Option A)) (f : A → M (Option B)) (t : State)
      → Safe is_none (r, t)
      → ((a : A) → Safely is_none (f a))
      → Safe is_none (resume r (go_on f) t)
  go_on-Safe (ok none) f t h g = record { owned = h.owned; over = λ a e s. h.over none refl refl }
  go_on-Safe (ok (some a)) f t h g = (g a).at t h.owned
  go_on-Safe (err e) f t h g = record { owned = h.owned; over = λ a f s. absurd (cc f) }

  pub if_some-Safely :
      {A B : Type 0} {m : M (Option A)} {f : A → M (Option B)}
      → Safely is_none m
      → ((a : A) → Safely is_none (f a))
      → Safely is_none (if_some m f)
  unfolding if_some ◌>>=◌
  if_some-Safely {m = m} {f = f} k h = record {
    at = λ s o. go_on-Safe (m s).0 f (m s).1 (k.at s o) h;
  }

  either : (a b : Bool) → (a || b) ≡ true → (a ≡ true) ⊎ (b ≡ true)
  either true b h = inl refl
  either false b h = inr h

  halted-Over : (s : State) → Owned id x s → halted id x s ≡ true → Over id s
  unfolding halted
  halted-Over s o h = Owned-halted id x s o (either (token_set x s) (is_turn_cancelled id s) h)

  pub unless_halted-Safely :
      {A : Type 0} {m : M (Option A)} → Safely is_none m → Safely is_none (unless_halted id x m)
  unfolding unless_halted ◌>>=◌
  unless_halted-Safely h = record {
    at = λ s o. elim (Bool-cases (halted id x s)) [
      | inl stop ↦ rw stop (record { owned = o; over = λ a e n. halted-Over s o stop })
      | inr go ↦ rw go (h.at s o)
    ];
  }

  run-Owned : (os : List Operation) (s : State) → Owned id x s → Owned id x (run s os)
  unfolding run
  run-Owned [] s o = o
  run-Owned (a ∷ os) s o =
      run-Owned os (perform a s) (Owned-Moves id x s (perform a s) (perform-Moves a s o.inv) o)

  pub wait-Keeps : (os : List Operation) → Keeps (wait os)
  unfolding wait
  wait-Keeps os = record { at = λ s o. run-Owned os s o }

  fail_and_return-Safe :
      {A : Type 0} (code message : Text) (retryable : Bool) (s : State)
      → Owned id x s
      → Safe is_none (fail_and_return {A = A} id code message retryable s)
  unfolding fail_and_return ◌>>=◌
  fail_and_return-Safe {A = A} code message retryable s o =
      go (fail_turn id code message retryable s).0 refl
    where
      t : State
      t = (fail_turn id code message retryable s).1

      kept : Owned id x t
      kept = Owned-Moves id x s t (fail_turn-Moves id code message retryable s o.inv) o

      go :
          (r : Raises (Unit {0}))
          → (fail_turn id code message retryable s).0 ≡ r
          → Safe is_none (resume r (λ _. pure {A = Option A} none) t)
      go (ok u) e = record {
        owned = kept;
        over = λ a f n. fail_turn_over id code message retryable s o.inv e;
      }
      go (err f) e = record { owned = kept; over = λ a g n. absurd (cc g) }

  pub fail_and_return-Safely :
      {A : Type 0} (code message : Text) (retryable : Bool)
      → Safely is_none (fail_and_return {A = A} id code message retryable)
  fail_and_return-Safely code message retryable = record {
    at = λ s o. fail_and_return-Safe code message retryable s o;
  }

  pub provider_failure-Safely :
      {A : Type 0} (e : Exception) → Safely is_none (provider_failure {A = A} id x e)
  unfolding provider_failure
  provider_failure-Safely (provider_error e) =
      unless_halted-Safely (fail_and_return-Safely _ e.message e.retryable)
  provider_failure-Safely e = raise-Safely e
