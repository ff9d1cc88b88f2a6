-- ===== src/Reconciler/Consistency.antt =====
-- The parts of a reconciliation keep the invariant.
use patroni_postgres_operato.Base.{
  ◌≡◌, ◌≢◌, ◌⊎◌, inl, inr, ap, sym, ◌∙◌, true, false, none, arith, eq_iff, Bool-cases, ◌==◌,
}
use patroni_postgres_operato.Exec.{Outcome, ok, err, panic, continue}
use patroni_postgres_operato.Api.{
  PatroniPostgres, PatroniPostgresState, state_ready, state_scaling, state_upgrade_postupgrade,
}
use patroni_postgres_operato.Client.{NamespacedName, State}
use patroni_postgres_operato.Image.{Image}
use patroni_postgres_operato.Context.{Context, image_of}
use patroni_postgres_operato.Upgrade.Steps.{find_step}
use patroni_postgres_operato.Reconciler.{
  initialized, set_upgrade_version, reconcile_objects, body, run, initialize, with_image,
  run_in_context, process, reconcile,
}
use patroni_postgres_operato.Reconciler.Objects.{reconcile_objects-StaysOutside}
use patroni_postgres_operato.Reconciler.Invariant.{
  IsConsistent, handle-IsConsistent, ready-outside, ready-ne-last, scaling-outside,
}
use patroni_postgres_operato.Reconciler.Start.{
  Started, start_upgrade-Started, body_without_target, body_with_target, wants_upgrade_sound,
  run-instance,
}

module _ (x : Context) where
  Started-IsConsistent :
      {p q : PatroniPostgres} → p.status.state ≡ state_ready → Started p q → IsConsistent q
  unfolding set_upgrade_version
  Started-IsConsistent r (inl e) =
      rw e (inr (rw r ready-outside), inl (λ l. ready-ne-last (sym r ∙ l)))
  Started-IsConsistent r (inr (_, e)) =
      rw e (inr (rw r ready-outside), inl (λ l. ready-ne-last (sym r ∙ l)))

  outside-ne-last :
      {state : PatroniPostgresState} → find_step state ≡ none → state ≢ state_upgrade_postupgrade
  unfolding find_step
  outside-ne-last h e = ground (arith, ap find_step e)

  reconciled-IsConsistent :
      (s : State x.client.World)
      → s.instance.status.upgrade_version ≡ 0
      → IsConsistent s.instance
      → IsConsistent (reconcile_objects x s).1.instance
  reconciled-IsConsistent s z (inl ne, _) = absurd (ne z)
  reconciled-IsConsistent s z (inr o, _) =
      let o' = (reconcile_objects-StaysOutside x).at s o in (inr o', inl (outside-ne-last o'))

  pub body-IsConsistent :
      (s : State x.client.World) → IsConsistent s.instance → IsConsistent (body x s).1.instance
  body-IsConsistent s c = elim (Bool-cases (s.instance.status.upgrade_version == 0)) [
    | inr e ↦
        let ne : s.instance.status.upgrade_version ≢ 0 = λ z. ground arith in
        rw (body_with_target x s ne) (handle-IsConsistent x s ne c)
    | inl e ↦
        let z : s.instance.status.upgrade_version ≡ 0 = ground arith in
        elim (body_without_target x s z) [
          | inl (w, b) ↦ rw b (
              Started-IsConsistent (wants_upgrade_sound x s.instance w).0
                (start_upgrade-Started x s))
          | inr b ↦ rw b (reconciled-IsConsistent s z c)
        ]
  ]

  pub run-IsConsistent :
      (s : State x.client.World) → IsConsistent s.instance → IsConsistent (run x s).1.instance
  run-IsConsistent s c = rw (run-instance x s) (body-IsConsistent s c)

module _ (x : Context) where
  initialize-cases :
      (s : State x.client.World)
      → ((initialize x s).1.instance ≡ s.instance)
        ⊎ ((initialize x s).1.instance ≡ initialized s.instance)
  unfolding initialize
  initialize-cases s = ground arith

  pub initialized-IsConsistent : (p : PatroniPostgres) → IsConsistent (initialized p)
  unfolding initialized
  initialized-IsConsistent p = (
    inr scaling-outside,
    inl (λ e. ground (arith, eq_iff state_scaling state_upgrade_postupgrade)),
  )

  initialize-IsConsistent :
      (s : State x.client.World)
      → IsConsistent s.instance
      → IsConsistent (initialize x s).1.instance
  initialize-IsConsistent s c = elim (initialize-cases s) [
    | inl e ↦ rw e c
    | inr e ↦ rw e (initialized-IsConsistent s.instance)
  ]

  with_image-IsConsistent :
      (o : Outcome Image) (s : State x.client.World)
      → IsConsistent s.instance
      → IsConsistent (with_image x o s).1.instance
  with_image-IsConsistent (ok im) s c = run-IsConsistent (record x { im = im }) s c
  with_image-IsConsistent (err e) s c = c
  with_image-IsConsistent panic s c = c

  run_in_context-IsConsistent :
      (s : State x.client.World)
      → IsConsistent s.instance
      → IsConsistent (run_in_context x s).1.instance
  unfolding run_in_context
  run_in_context-IsConsistent s c = with_image-IsConsistent (image_of s.instance) s c

  pub process_ignored :
      (s : State x.client.World) → s.instance.spec.ignore ≡ true → process x s ≡ (ok false, s)
  unfolding process
  process_ignored s e = ground arith

  pub process_managed :
      (s : State x.client.World)
      → s.instance.spec.ignore ≡ false
      → process x s ≡ continue (initialize x s).0 (λ _. run_in_context x) (initialize x s).1
  unfolding process
  process_managed s e = ground arith

  then_runs :
      (r : Outcome (Unit {0})) (s : State x.client.World)
      → IsConsistent s.instance
      → IsConsistent (continue r (λ _. run_in_context x) s).1.instance
  then_runs (ok _) s c = run_in_context-IsConsistent s c
  then_runs (err _) s c = c
  then_runs panic s c = c

  -- One reconciliation of an instance that was read, with every request that it sends, whether it
  -- returns, fails or panics, keeps the status consistent.
  pub process-IsConsistent :
      (s : State x.client.World) → IsConsistent s.instance → IsConsistent (process x s).1.instance
  process-IsConsistent s c = elim (Bool-cases s.instance.spec.ignore) [
    | inl e ↦ rw (process_ignored s e) c
    | inr e ↦
        rw (process_managed s e)
          (then_runs (initialize x s).0 (initialize x s).1 (initialize-IsConsistent s c))
  ]

  -- For an instance that is read and that is to be ignored, a reconciliation sends no other request
  -- than that read, and asks for no requeue.
  reconcile-ignored :
      (req : NamespacedName) (w w' : x.client.World) (p : PatroniPostgres)
      → x.client.instances.get req w ≡ (ok p, w')
      → p.spec.ignore ≡ true
      → reconcile x req w ≡ (ok false, w')
  unfolding reconcile
  reconcile-ignored req w w' p g e =
      ground (arith, g, process_ignored (record { world = w'; instance = p }) e)
