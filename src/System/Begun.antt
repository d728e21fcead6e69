-- ===== src/System/Begun.antt =====
-- The sources of include/data_source/notifyu while the coroutines of the program run: one that has
-- begun has its route.
use feedback_ingest.Base.{
  ◌≡◌, sym, ap, ◌∙◌, ◌⊎◌, inl, inr, arith, Option, none, some, List, [], ◌∷◌, ◌++◌, map, Bytes,
  bytes_eq,
}
use mathlib.Core.Path.{subst}
use mathlib.Core.List.{append_assoc}
use feedback_ingest.Platform.{Platform}
use feedback_ingest.Effects.{Command, Task, step, register_route}
use feedback_ingest.Sink.{Sink}
use feedback_ingest.Notifyu.{NotifyuOperationState}
use feedback_ingest.Server
use feedback_ingest.Server.{RestServer, find_handler}
use feedback_ingest.Server.Routes.{find_handler-register_route}
use feedback_ingest.System.{Running, change, respond, spawned_by, Step, moves, Reach, here, later}
use feedback_ingest.System.Routes.{HasRoute, Step-HasRoute}

module _ {A : Type 0} (x : A) where
  abbrev pub Among : List A → Type 0
  Among [] = ⊥
  Among (y ∷ ys) = (x ≡ y) ⊎ Among ys

  pub Among-left : (xs ys : List A) → Among xs → Among (xs ++ ys)
  Among-left [] ys h = absurd h
  Among-left (z ∷ xs) ys (inl e) = inl e
  Among-left (z ∷ xs) ys (inr h) = inr (Among-left xs ys h)

  pub Among-right : (xs ys : List A) → Among ys → Among (xs ++ ys)
  Among-right [] ys h = h
  Among-right (z ∷ xs) ys h = inr (Among-right xs ys h)

  -- Where an element is.
  pub Among-split :
      (xs : List A) → Among xs → (before after : List A) × (xs ≡ before ++ (x ∷ after))
  Among-split [] h = absurd h
  Among-split (y ∷ ys) (inl e) = ([], ys, ap (λ z. z ∷ ys) (sym e))
  Among-split (y ∷ ys) (inr h) =
      let (before, after, e) = Among-split ys h in (y ∷ before, after, ap (λ zs. y ∷ zs) e)

  -- Another element in the place of one that is not `x`.
  Among-replaced :
      (before : List A) (y z : A) (after : List A)
      → Among (before ++ (y ∷ after))
      → (x ≡ y) ⊎ Among (before ++ (z ∷ after))
  Among-replaced [] y z after (inl e) = inl e
  Among-replaced [] y z after (inr h) = inr (inr h)
  Among-replaced (w ∷ before) y z after (inl e) = inr (inl e)
  Among-replaced (w ∷ before) y z after (inr h) = elim (Among-replaced before y z after h) [
    | inl e ↦ inl e
    | inr k ↦ inr (inr k)
  ]

pub Among-map :
    {A B : Type 0} (f : A → B) (x : A) (xs : List A) → Among x xs → Among (f x) (map f xs)
Among-map f x [] h = absurd h
Among-map f x (y ∷ xs) (inl e) = inl (ap f e)
Among-map f x (y ∷ xs) (inr h) = inr (Among-map f x xs h)

registered :
    (target : Bytes) (self : NotifyuOperationState) (server : RestServer)
    → find_handler target (Server.register_route target self server) ≡ some self
registered target self server =
    find_handler-register_route target target self server ∙ (ground arith)

module _ (P : Platform) (sink : Sink P) (target : Bytes) (self : NotifyuOperationState)
    (start : Task P (Unit {0})) where
  -- The next command of a coroutine.
  abbrev pub next_command : Task P (Unit {0}) → Option (Command P)
  next_command (step c k) = some c
  next_command _ = none

  -- The coroutine is still at its start, or the route is there.
  abbrev pub NotBegunOrRouted : Running P → Type 0
  NotBegunOrRouted s = Among start s.coroutines ⊎ HasRoute target s.server

  -- What the next command, if there is one, leaves of the routes.
  abbrev changed : RestServer → Option (Command P) → RestServer
  changed server none = server
  changed server (some c) = change P sink c server

  module _ (registers : next_command start ≡ some (register_route target self)) where
    registered-HasRoute :
        (c : Command P) (server : RestServer)
        → some c ≡ some (register_route target self)
        → HasRoute target (change P sink c server)
    registered-HasRoute c server e =
        subst (λ (o : Option (Command P)). HasRoute target (changed server o)) (sym e)
          (λ absent. cc (registered target self server))

    Step-NotBegunOrRouted :
        {s : Running P} {c : Command P} {t : Running P}
        → Step P sink s c t
        → NotBegunOrRouted s
        → NotBegunOrRouted t
    Step-NotBegunOrRouted move (inr h) = inr (Step-HasRoute P sink target move h)
    Step-NotBegunOrRouted {s} (moves before after c k answer e) (inl h) =
        elim (Among-replaced start before (step c k) (k (respond P sink c answer s.server)) after
          (subst (Among start) e h)) [
            | inl same ↦
                inr (registered-HasRoute c s.server (sym (ap next_command same) ∙ registers))
            | inr still ↦ inl (
                subst (Among start)
                  (append_assoc before (k (respond P sink c answer s.server) ∷ after)
                    (spawned_by P sink c))
                  (Among-left start (before ++ (k (respond P sink c answer s.server) ∷ after))
                    (spawned_by P sink c) still))
          ]

    pub Reach-NotBegunOrRouted :
        {s t : Running P} → Reach P sink s t → NotBegunOrRouted s → NotBegunOrRouted t
    Reach-NotBegunOrRouted here h = h
    Reach-NotBegunOrRouted (later r move) h =
        Step-NotBegunOrRouted move (Reach-NotBegunOrRouted r h)
