-- ===== src/Upgrade/Gates.antt =====
-- What a step of the upgrade waits for before it is done.
use patroni_postgres_operato.Base.{
  ◌≡◌, ◌≢◌, inl, inr, ap, sym, ◌∙◌, Bool, true, false, Option, none, some, [], arith, Bool-cases,
  if◌then◌else◌, ◌==◌, length,
}
use patroni_postgres_operato.Exec.{
  Error, Outcome, ok, Exec, ◌>>=◌, ◌>>◌, pure, fail, preupgrade_sync_job_failed,
  postupgrade_job_failed,
}
use patroni_postgres_operato.Exec.Inversion.{then-ok, bind-ok}
use patroni_postgres_operato.Kube.{Job, StatefulSet}
use patroni_postgres_operato.Api.{PatroniPostgres, PatroniPostgresSpec}
use patroni_postgres_operato.Client.{State, request}
use patroni_postgres_operato.Context.{Context}
use patroni_postgres_operato.Controllers.Statefulset.{get_k8s_stateful_set, reconcile_sts}
use patroni_postgres_operato.Controllers.Service as Service
use patroni_postgres_operato.Controllers.Frame.{
  Leaves-view, Leaves-reconcile_sts, Leaves-Service-reconcile,
}
use patroni_postgres_operato.Upgrade.Jobs.{
  UpgradeJob, preupgrade_job, preupgrade_sync_job, postupgrade_job, has_succeeded, has_failed,
  ensure_upgrade_job, cleanup_job,
}
use patroni_postgres_operato.Upgrade.Preupgrade as Preupgrade
use patroni_postgres_operato.Upgrade.PreupgradeSync as PreupgradeSync
use patroni_postgres_operato.Upgrade.Postupgrade as Postupgrade
use patroni_postgres_operato.Upgrade.Scaledown as Scaledown

-- Such a job was found or created by the action, and it has succeeded and not failed.
abbrev pub Won : Outcome Job → Type 0
Won r = (job : Job) × (r ≡ ok job) × (has_succeeded job ≡ true) × (has_failed job ≡ false)

module _ {S : Type 0} where
  abbrev pub verdict : Error → Job → Exec S Bool
  verdict e job = if has_failed job then fail e else pure (has_succeeded job)

  pub verdict-done :
      (e : Error) (job : Job) (s : S)
      → (verdict e job s).0 ≡ ok true
      → (has_succeeded job ≡ true) × (has_failed job ≡ false)
  unfolding pure fail
  verdict-done e job s h = ground arith

none_left : (b : StatefulSet) → ok (b.available_replicas == 0) ≡ ok true → b.available_replicas ≡ 0
none_left b h = ground arith

module _ (x : Context) where
  abbrev taken : Job → Exec (State x.client.World) (Bool × Option Error)
  taken job = if has_succeeded job then Preupgrade.take_config x job else pure (false, none)

  taken-done :
      (job : Job) (s : State x.client.World)
      → (taken job s).0 ≡ ok (true, none)
      → has_succeeded job ≡ true
  unfolding pure
  taken-done job s h = elim (Bool-cases (has_succeeded job)) [
    | inl w ↦ w
    | inr w ↦ absurd (ground (arith, w, h))
  ]

  finish-done :
      (job : Job) (r : Bool × Option Error) (s : State x.client.World)
      → (Preupgrade.finish x job r s).0 ≡ ok true
      → (has_failed job ≡ false) × (r ≡ (true, none))
  unfolding pure fail
  finish-done job (done, some e) s h = absurd (ground arith)
  finish-done job (done, none) s h = ground arith

  -- The first step is done only if its job has succeeded and not failed.
  pub preupgrade-Won :
      (s : State x.client.World)
      → (Preupgrade.handle x s).0 ≡ ok true
      → Won (ensure_upgrade_job x preupgrade_job s).0
  unfolding Preupgrade.handle
  preupgrade-Won s h =
      let (job, j, h1) = then-ok (ensure_upgrade_job x preupgrade_job) _ s true h in
      let (result, r, h2) =
        then-ok (taken job) _ (ensure_upgrade_job x preupgrade_job s).1 true h1 in
      let (_, _, h3) =
        then-ok (cleanup_job x job) (λ _. Preupgrade.finish x job result) _ true h2 in
      let (lost, e) = finish-done job result _ h3 in (job, j, taken-done job _ (r ∙ ap ok e), lost)

  -- The database counts as stopped only if the set that the server returned, for an update to no
  -- replicas, has none available; the ready replicas are those of that set.
  pub scaledown-done :
      (s : State x.client.World)
      → (Scaledown.handle x s).0 ≡ ok true
      → (a : StatefulSet) × (b : StatefulSet) × ((get_k8s_stateful_set x s).0 ≡ ok a)
        × ((x.client.statefulsets.update
              (Scaledown.scaled_to_zero a)
              (get_k8s_stateful_set x s).1.world).0
            ≡ ok b)
        × (b.available_replicas ≡ 0)
        × ((Scaledown.handle x s).1.instance.status.ready ≡ b.ready_replicas)
  unfolding Scaledown.handle
  scaledown-done s h =
      let (a, ea, e1) = bind-ok (get_k8s_stateful_set x) _ s true h in
      let h1 = sym (ap (λ (t : Outcome Bool × State x.client.World). t.0) e1) ∙ h in
      let (b, eb, e2) =
        bind-ok (request (x.client.statefulsets.update (Scaledown.scaled_to_zero a))) _
          (get_k8s_stateful_set x s).1 true h1 in
      let h2 = sym (ap (λ (t : Outcome Bool × State x.client.World). t.0) e2) ∙ h1 in
      (
        a,
        b,
        ea,
        eb,
        none_left b h2,
        ap (λ (t : Outcome Bool × State x.client.World). t.1.instance.status.ready) (e1 ∙ e2),
      )

  pub run_job-Won :
      (j : UpgradeJob) (e : Error) (s : State x.client.World)
      → ((ensure_upgrade_job x j >>= λ job.
            cleanup_job x job >> (if has_failed job then fail e else pure (has_succeeded job)))
          s).0
        ≡ ok true
      → Won (ensure_upgrade_job x j s).0
  run_job-Won j e s h =
      let (job, r, h1) = then-ok (ensure_upgrade_job x j) _ s true h in
      let (_, _, h2) = then-ok (cleanup_job x job) (λ _. verdict e job) _ true h1 in
      let (w, f) = verdict-done e job _ h2 in (job, r, w, f)

  -- In a cluster of more than one member, or of none, the synchronisation is done only if its job has succeeded
  -- and not failed.
  pub preupgrade_sync-Won :
      (s : State x.client.World)
      → length s.instance.status.volume_statuses ≢ 1
      → (PreupgradeSync.handle x s).0 ≡ ok true
      → (t : State x.client.World) × Won (ensure_upgrade_job x preupgrade_sync_job t).0
  unfolding PreupgradeSync.handle
  preupgrade_sync-Won s ne h =
      let h0 : (PreupgradeSync.sync x s).0 ≡ ok true = ground arith in
      let (_, _, h1) = then-ok (reconcile_sts x _) _ s true h0 in
      let (_, _, h2) = then-ok (Service.reconcile_service x.client _) _ _ true h1 in
      (_, run_job-Won preupgrade_sync_job preupgrade_sync_job_failed _ h2)

  when_ready :
      (sts : StatefulSet) (u : State x.client.World)
      → ((if sts.ready_replicas == length u.instance.spec.nodes
            then Postupgrade.run_job x
            else pure false)
          u).0
        ≡ ok true
      → (sts.ready_replicas ≡ length u.instance.spec.nodes)
        × ((Postupgrade.run_job x u).0 ≡ ok true)
  unfolding pure
  when_ready sts u h = ground arith

  -- The last step is done only if every node of the spec is ready and its job has succeeded and not
  -- failed.
  pub postupgrade-Won :
      (s : State x.client.World)
      → (Postupgrade.handle x s).0 ≡ ok true
      → (sts : StatefulSet) × ((reconcile_sts x [] s).0 ≡ ok sts)
        × (t : State x.client.World) × (sts.ready_replicas ≡ length s.instance.spec.nodes)
        × Won (ensure_upgrade_job x postupgrade_job t).0
  unfolding Postupgrade.handle
  postupgrade-Won s h =
      let (sts, r, h1) = then-ok (reconcile_sts x []) _ s true h in
      let t = (reconcile_sts x [] s).1 in
      let (_, _, h2) = then-ok (Service.reconcile x.client) _ t true h1 in
      let u = (Service.reconcile x.client t).1 in
      let e : u.instance.spec ≡ s.instance.spec =
        (Leaves-Service-reconcile x.client {f = λ (p : PatroniPostgres). p.spec}).at t
        ∙ (Leaves-view (λ (p : PatroniPostgres). p.spec) (Leaves-reconcile_sts x [])).at s in
      let (ready, h3) = when_ready sts u h2 in
      (
        sts,
        r,
        u,
        ready ∙ ap (λ (d : PatroniPostgresSpec). length d.nodes) e,
        run_job-Won postupgrade_job postupgrade_job_failed u h3,
      )
