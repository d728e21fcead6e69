-- ===== src/Effects/Contract.antt =====
-- Coroutines (include/coro.hpp) that rely on some answers of the system and give it only some
-- commands.
use feedback_ingest.Base.{◌≡◌, refl, Outcome, ok, throws, undefined, Exception}
use feedback_ingest.Platform.{Platform}
use feedback_ingest.Effects.{
  Command, Answer, Task, ret, raise, crash, paused, step, ◌>>=◌, lift, try_catch,
}

-- What a coroutine may give, and what it may rely on to get.
pub record Contract (P : Platform) : Type 1 where
  pub gives : Command P → Type 0
  pub gets : (c : Command P) → Answer P c → Type 0

module _ {P : Platform} (C : Contract P) where
  -- As long as each answer is one that it may rely on, the coroutine gives only what it may, and
  -- what it returns is as `R` says.
  abbrev pub Keeps : {A : Type 0} → (A → Type 0) → Task P A → Type 0
  Keeps R (ret a) = R a
  Keeps R (raise e) = Unit
  Keeps R crash = Unit
  Keeps R paused = Unit
  Keeps R (step c k) = C.gives c × ((r : Answer P c) → C.gets c r → Keeps R (k r))

  pub Keeps->>= :
      {A B : Type 0} (R : A → Type 0) (Q : B → Type 0) (m : Task P A) (f : A → Task P B)
      → Keeps R m
      → ((a : A) → R a → Keeps Q (f a))
      → Keeps Q (m >>= f)
  Keeps->>= R Q (ret a) f h next = next a h
  Keeps->>= R Q (raise e) f h next = tt
  Keeps->>= R Q crash f h next = tt
  Keeps->>= R Q paused f h next = tt
  Keeps->>= R Q (step c k) f (given, h) next =
      (given, λ r got. Keeps->>= R Q (k r) f (h r got) next)

  pub Keeps-lift :
      {A : Type 0} (R : A → Type 0) (o : Outcome A)
      → ((a : A) → o ≡ ok a → R a)
      → Keeps R (lift {P = P} o)
  Keeps-lift R (ok a) h = h a refl
  Keeps-lift R (throws e) h = tt
  Keeps-lift R undefined h = tt

  pub Keeps-lift->>= :
      {A B : Type 0} (Q : B → Type 0) (o : Outcome A) (f : A → Task P B)
      → ((a : A) → o ≡ ok a → Keeps Q (f a))
      → Keeps Q (lift o >>= f)
  Keeps-lift->>= Q (ok a) f h = h a refl
  Keeps-lift->>= Q (throws e) f h = tt
  Keeps-lift->>= Q undefined f h = tt

  pub Keeps-try_catch :
      {A : Type 0} (R : A → Type 0) (m : Task P A) (handler : Exception → Task P A)
      → Keeps R m
      → ((e : Exception) → Keeps R (handler e))
      → Keeps R (try_catch m handler)
  Keeps-try_catch R (ret a) handler h caught = h
  Keeps-try_catch R (raise e) handler h caught = caught e
  Keeps-try_catch R crash handler h caught = tt
  Keeps-try_catch R paused handler h caught = tt
  Keeps-try_catch R (step c k) handler (given, h) caught =
      (given, λ r got. Keeps-try_catch R (k r) handler (h r got) caught)
