-- ===== src/Reconciler/Write.antt =====
-- When a run writes the status of the instance.
use patroni_postgres_operato.Base.{◌≡◌, refl, ◌⊎◌, inl, inr, Bool}
use patroni_postgres_operato.Exec.{Error, Outcome, ok, err, panic, ◌>>=◌, continue, pure}
use patroni_postgres_operato.Exec.Inversion.{then-ok}
use patroni_postgres_operato.Client.{State, request}
use patroni_postgres_operato.Context.{Context}
use patroni_postgres_operato.Reconciler.{body, deferred, run}

module _ (x : Context) where
  -- The answer to the write of the status.
  abbrev pub written : State x.client.World → Outcome (Unit {0})
  written s = (x.client.update_status s.instance s.world).0

  deferred-ok :
      (r : Outcome Bool) (s : State x.client.World) (requeue : Bool)
      → (deferred x r s).0 ≡ ok requeue
      → (r ≡ ok requeue) × (written s ≡ ok tt)
  unfolding deferred pure
  deferred-ok (ok b) s requeue h =
      let (_, w, e) =
        then-ok (request (x.client.update_status s.instance)) (λ _. pure b) s requeue h in
      (e, w)
  deferred-ok (err e) s requeue h = absurd cc
  deferred-ok panic s requeue h = absurd cc

  answered :
      (o : Outcome (Unit {0})) (b : Bool) (s : State x.client.World) (e : Error)
      → (continue o (λ _. pure b) s).0 ≡ err e
      → o ≡ err e
  unfolding pure
  answered (ok _) b s e h = absurd cc
  answered (err f) b s e h = cc
  answered panic b s e h = absurd cc

  deferred-err :
      (r : Outcome Bool) (s : State x.client.World) (e : Error)
      → (deferred x r s).0 ≡ err e
      → ((r ≡ err e) × ((deferred x r s).1 ≡ s)) ⊎ (written s ≡ err e)
  unfolding deferred ◌>>=◌
  deferred-err (ok b) s e h = inr (answered (written s) b _ e h)
  deferred-err (err f) s e h = inl (h, refl)
  deferred-err panic s e h = absurd cc

  -- A run returns without an error only if its steps did, with the same answer on the requeue, and
  -- the status that they left was written.
  pub run-ok :
      (s : State x.client.World) (requeue : Bool)
      → (run x s).0 ≡ ok requeue
      → ((body x s).0 ≡ ok requeue) × (written (body x s).1 ≡ ok tt)
  unfolding run
  run-ok s requeue h = deferred-ok (body x s).0 (body x s).1 requeue h

  -- A run that returns an error either has it from its steps, and sends nothing after them, so that
  -- the status is not written, or has it from the write of the status.
  pub run-err :
      (s : State x.client.World) (e : Error)
      → (run x s).0 ≡ err e
      → (((body x s).0 ≡ err e) × ((run x s).1 ≡ (body x s).1)) ⊎ (written (body x s).1 ≡ err e)
  unfolding run
  run-err s e h = deferred-err (body x s).0 (body x s).1 e h
