-- ===== src/Effects/Traces.antt =====
-- How what is ensured of coroutines (include/coro.hpp) is put together from what is ensured of their
-- parts, and what is read from their events.
use feedback_ingest.Base.{◌≡◌, refl, List, [], ◌∷◌, ◌++◌, Bytes, Exception}
use feedback_ingest.Base.{Never}
use mathlib.Core.List.{append_assoc}
use feedback_ingest.Platform.{Platform}
use feedback_ingest.Effects.{
  HttpResponse, Command, open_output, write_response, Answer, Task, ret, raise, crash, paused, step,
  ◌>>=◌, try_catch, Ending, returned, raised, crashed, unfinished, Event, Ensures,
}

-- No exception leaves the coroutine.
abbrev pub Calm : {A : Type 0} → Ending A → Type 0
Calm (raised e) = Never
Calm _ = Unit

abbrev pub NeverRaises : {P : Platform} {A : Type 0} → Task P A → Type 0
NeverRaises m = Ensures (λ events ending. Calm ending) m

module _ {P : Platform} {A : Type 0} where
  pub Ensures-mono {ℓ κ} :
      (m : Task P A) (Q : List (Event P) → Ending A → Type ℓ)
      (R : List (Event P) → Ending A → Type κ)
      → ((events : List (Event P)) (ending : Ending A) → Q events ending → R events ending)
      → Ensures Q m
      → Ensures R m
  Ensures-mono (ret a) Q R h q = h [] (returned a) q
  Ensures-mono (raise e) Q R h q = h [] (raised e) q
  Ensures-mono crash Q R h q = h [] crashed q
  Ensures-mono paused Q R h q = h [] unfinished q
  Ensures-mono (step c k) Q R h q = λ r.
      Ensures-mono (k r) (λ events. Q ((c, r) ∷ events)) (λ events. R ((c, r) ∷ events))
        (λ events ending. h ((c, r) ∷ events) ending) (q r)

  -- A handler that raises nothing keeps every exception inside.
  pub NeverRaises-try_catch :
      (m : Task P A) (handler : Exception → Task P A)
      → ((e : Exception) → NeverRaises (handler e))
      → NeverRaises (try_catch m handler)
  NeverRaises-try_catch (ret a) handler h = tt
  NeverRaises-try_catch (raise e) handler h = h e
  NeverRaises-try_catch crash handler h = tt
  NeverRaises-try_catch paused handler h = tt
  NeverRaises-try_catch (step c k) handler h = λ r. NeverRaises-try_catch (k r) handler h

  -- What a coroutine with a handler ensures, from what the coroutine ensures: at an exception the
  -- events of the handler follow.
  abbrev pub Handled {ℓ} :
      (List (Event P) → Ending A → Type ℓ)
      → (Exception → Task P A)
      → List (Event P)
      → Ending A
      → Type ℓ
  Handled Q handler events (raised e) =
      Ensures (λ more ending. Q (events ++ more) ending) (handler e)
  Handled Q handler events ending = Q events ending

  pub Ensures-try_catch {ℓ} :
      (m : Task P A) (handler : Exception → Task P A) (Q : List (Event P) → Ending A → Type ℓ)
      → Ensures (Handled Q handler) m
      → Ensures Q (try_catch m handler)
  Ensures-try_catch (ret a) handler Q q = q
  Ensures-try_catch (raise e) handler Q q = q
  Ensures-try_catch crash handler Q q = q
  Ensures-try_catch paused handler Q q = q
  Ensures-try_catch (step c k) handler Q q = λ r.
      Ensures-try_catch (k r) handler (λ events. Q ((c, r) ∷ events))
        (Ensures-mono (k r) _ _ (handled c r) (q r))
    where
      handled :
          (c : Command P) (r : Answer P c) (events : List (Event P)) (ending : Ending A)
          → Handled Q handler ((c, r) ∷ events) ending
          → Handled (λ es. Q ((c, r) ∷ es)) handler events ending
      handled c r events (returned a) q = q
      handled c r events (raised e) q = q
      handled c r events crashed q = q
      handled c r events unfinished q = q

module _ {P : Platform} {A B : Type 0} where
  -- The same for what follows a coroutine.
  abbrev pub Followed {ℓ} :
      (List (Event P) → Ending B → Type ℓ) → (A → Task P B) → List (Event P) → Ending A → Type ℓ
  Followed Q f events (returned a) = Ensures (λ more ending. Q (events ++ more) ending) (f a)
  Followed Q f events (raised e) = Q events (raised e)
  Followed Q f events crashed = Q events crashed
  Followed Q f events unfinished = Q events unfinished

  pub Ensures->>= {ℓ} :
      (m : Task P A) (f : A → Task P B) (Q : List (Event P) → Ending B → Type ℓ)
      → Ensures (Followed Q f) m
      → Ensures Q (m >>= f)
  Ensures->>= (ret a) f Q q = q
  Ensures->>= (raise e) f Q q = q
  Ensures->>= crash f Q q = q
  Ensures->>= paused f Q q = q
  Ensures->>= (step c k) f Q q = λ r.
      Ensures->>= (k r) f (λ events. Q ((c, r) ∷ events))
        (Ensures-mono (k r) _ _ (followed c r) (q r))
    where
      followed :
          (c : Command P) (r : Answer P c) (events : List (Event P)) (ending : Ending A)
          → Followed Q f ((c, r) ∷ events) ending
          → Followed (λ es. Q ((c, r) ∷ es)) f events ending
      followed c r events (returned a) q = q
      followed c r events (raised e) q = q
      followed c r events crashed q = q
      followed c r events unfinished q = q

module _ {P : Platform} where
  abbrev pub response_of : Command P → List HttpResponse
  response_of (write_response socket response) = response ∷ []
  response_of _ = []

  -- The responses that were given to the network, the first one first.
  abbrev pub replies : List (Event P) → List HttpResponse
  replies [] = []
  replies ((c, r) ∷ events) = response_of c ++ replies events

  pub replies-append :
      (events more : List (Event P)) → replies (events ++ more) ≡ replies events ++ replies more
  replies-append [] more = refl
  replies-append ((c, r) ∷ events) more = rw (replies-append events more, append_assoc)

  abbrev pub file_of : Command P → List Bytes
  file_of (open_output path) = path ∷ []
  file_of _ = []

  -- The files that were opened for writing.
  abbrev pub opened : List (Event P) → List Bytes
  opened [] = []
  opened ((c, r) ∷ events) = file_of c ++ opened events
