-- ===== src/Upgrade/Frame.antt =====
-- What the handlers of the upgrade leave of the instance: all but the ready replicas, and, for the
-- move of the primary, all but the version.
use patroni_postgres_operato.Base.{
  refl, String, ℕ, suc, ◌+◌, List, [], ◌∷◌, Option, none, some, Bool, true, false, ◌==◌, arith,
  if◌then◌else◌,
}
use patroni_postgres_operato.Exec.{pure, modify, Error}
use patroni_postgres_operato.Kube.{Job, StatefulSet}
use patroni_postgres_operato.Client.{State, foreground}
use patroni_postgres_operato.Client.Leaves.{
  Leaves, Leaves-pure, Leaves-if, Leaves-bind, Leaves-request, leaves_rules,
}
use patroni_postgres_operato.Api.{PatroniPostgres, VolumeStatus}
use patroni_postgres_operato.Context.{Context}
use patroni_postgres_operato.Results.{UpgradeJobResult}
use patroni_postgres_operato.Controllers.Statefulset.{set_ready}
use patroni_postgres_operato.Controllers.Frame.{
  but_ready, Leaves-set_meta, Leaves-modify, Leaves-get_k8s_stateful_set, Leaves-reconcile_sts,
  Leaves-reconcile_service, Leaves-Service-reconcile,
}
use patroni_postgres_operato.Controllers.Configmap.Frame.{
  Leaves-get_db_id, Leaves-set_db_id, Leaves-get_primary_initdb_args,
  Leaves-set_primary_initdb_args, Leaves-get_secondary_stream_args,
  Leaves-set_latest_checkpoint_location, Leaves-get_sync_leader,
}
use patroni_postgres_operato.Upgrade.Jobs.{
  UpgradeJob, has_succeeded, has_failed, ensure_upgrade_job, cleanup_job,
}
use patroni_postgres_operato.Upgrade.Logs
use patroni_postgres_operato.Upgrade.Preupgrade as Preupgrade
use patroni_postgres_operato.Upgrade.PreupgradeSync as PreupgradeSync
use patroni_postgres_operato.Upgrade.Scaledown as Scaledown
use patroni_postgres_operato.Upgrade.Primary as Primary
use patroni_postgres_operato.Upgrade.Streamer as Streamer
use patroni_postgres_operato.Upgrade.Secondaries as Secondaries
use patroni_postgres_operato.Upgrade.PrimaryMove as PrimaryMove
use patroni_postgres_operato.Upgrade.Postupgrade as Postupgrade

module _ (x : Context) {B : Type 0} {f : PatroniPostgres → B} where
  pub Leaves-ensure_upgrade_job : (j : UpgradeJob) → Leaves f (ensure_upgrade_job x j)
  unfolding ensure_upgrade_job
  Leaves-ensure_upgrade_job j = record { at = λ s. ground arith }

  pub Leaves-cleanup_job : (job : Job) → Leaves f (cleanup_job x job)
  unfolding cleanup_job
  Leaves-cleanup_job job = search leaves_rules

  Leaves-take_config : (job : Job) → Leaves f (Preupgrade.take_config x job)
  Leaves-take_config job =
      unfold Preupgrade.take_config Logs.get_initdb_args_from_job in
      search (leaves_rules, Leaves-set_primary_initdb_args) depth 10

  Leaves-finish : (job : Job) (r : Bool × Option Error) → Leaves f (Preupgrade.finish x job r)
  Leaves-finish job (done, none) = search leaves_rules
  Leaves-finish job (done, some e) = search leaves_rules

  pub Leaves-Preupgrade-handle : Leaves f (Preupgrade.handle x)
  unfolding Preupgrade.handle
  Leaves-Preupgrade-handle =
      search
        (
          leaves_rules, Leaves-ensure_upgrade_job, Leaves-take_config, Leaves-cleanup_job,
          Leaves-finish,
        )
        depth 8

  Leaves-Primary-create_job : Leaves f (Primary.create_job x)
  unfolding Primary.create_job
  Leaves-Primary-create_job =
      search
        (
          leaves_rules, Leaves-get_primary_initdb_args, Leaves-get_sync_leader, Leaves-get_db_id,
          Leaves-set_meta,
        )
        depth 12

  Leaves-keep_checkpoint : (r : UpgradeJobResult) → Leaves f (Primary.keep_checkpoint x r)
  unfolding Primary.keep_checkpoint
  Leaves-keep_checkpoint r = search (leaves_rules, Leaves-set_latest_checkpoint_location)

  Leaves-take_result : (job : Job) → Leaves f (Primary.take_result x job)
  Leaves-take_result job =
      unfold Primary.take_result Logs.get_result_from_primary_upgrade_job in
      search (leaves_rules, Leaves-keep_checkpoint, Leaves-set_db_id) depth 12

  Leaves-Primary-check_job : (job : Job) → Leaves f (Primary.check_job x job)
  unfolding Primary.check_job
  Leaves-Primary-check_job job =
      search (leaves_rules, Leaves-take_result, Leaves-cleanup_job) depth 8

  Leaves-Primary-branch :
      (o : Option Job)
      → Leaves f (elim o [ none ↦ Primary.create_job x | some job ↦ Primary.check_job x job ])
  Leaves-Primary-branch none = Leaves-Primary-create_job
  Leaves-Primary-branch (some job) = Leaves-Primary-check_job job

  pub Leaves-Primary-handle : Leaves f (Primary.handle x)
  Leaves-Primary-handle =
      unfold Primary.handle in search (leaves_rules, Leaves-Primary-branch) depth 8

  Leaves-ensure_sts : (leader : ℕ) → Leaves f (Streamer.ensure_sts x leader)
  unfolding Streamer.ensure_sts
  Leaves-ensure_sts leader = record { at = λ s. ground arith }

  Leaves-ensure_service : (sts : StatefulSet) → Leaves f (Streamer.ensure_service x sts)
  unfolding Streamer.ensure_service
  Leaves-ensure_service sts = record { at = λ s. ground arith }

  Leaves-ensure_streamer : (leader : ℕ) → Leaves f (Streamer.ensure_streamer x leader)
  unfolding Streamer.ensure_streamer
  Leaves-ensure_streamer leader = search (leaves_rules, Leaves-ensure_sts, Leaves-ensure_service)

  Leaves-ensure_client :
      (primary : String) (args : String × String) (idx : ℕ) (v : VolumeStatus)
      → Leaves f (Secondaries.ensure_client x primary args idx v)
  unfolding Secondaries.ensure_client
  Leaves-ensure_client primary args idx v = record { at = λ s. ground arith }

  Leaves-ensure_clients :
      (vs : List VolumeStatus) (primary : String) (args : String × String) (leader idx : ℕ)
      → Leaves f (Secondaries.ensure_clients x primary args leader idx vs)
  unfolding Secondaries.ensure_clients
  Leaves-ensure_clients [] primary args leader idx = Leaves-pure []
  Leaves-ensure_clients (v ∷ vs) primary args leader idx =
      let rest = Leaves-ensure_clients vs primary args leader (suc idx) in
      Leaves-if (idx == leader) _ _ rest (
        Leaves-bind _ _ (Leaves-ensure_client primary args idx v)
          λ job. Leaves-bind _ _ rest (λ jobs. Leaves-pure (job ∷ jobs)))

  Leaves-ensure_secondary_clients :
      (leader : ℕ) (sts : StatefulSet)
      → Leaves f (Secondaries.ensure_secondary_clients x leader sts)
  unfolding Secondaries.ensure_secondary_clients
  Leaves-ensure_secondary_clients leader sts =
      search (leaves_rules, Leaves-get_secondary_stream_args, Leaves-ensure_clients)

  Leaves-count_jobs : (jobs : List Job) (s t : ℕ) → Leaves f (Secondaries.count_jobs x s t jobs)
  unfolding Secondaries.count_jobs
  Leaves-count_jobs [] s t = Leaves-pure (s, t)
  Leaves-count_jobs (job ∷ jobs) s t =
      Leaves-if (has_succeeded job) _ _ (Leaves-count_jobs jobs (s + 1) t) (
        Leaves-if (has_failed job) _ _
          (Leaves-bind _ _ (Leaves-request (x.client.jobs.delete job foreground))
            (λ _. Leaves-count_jobs jobs s (t + 1)))
          (Leaves-count_jobs jobs s t))

  Leaves-delete_jobs : (jobs : List Job) → Leaves f (Secondaries.delete_jobs x jobs)
  unfolding Secondaries.delete_jobs
  Leaves-delete_jobs [] = Leaves-pure tt
  Leaves-delete_jobs (job ∷ jobs) =
      Leaves-bind _ _ (Leaves-request _) (λ _. Leaves-delete_jobs jobs)

  Leaves-settle :
      (sts : StatefulSet) (jobs : List Job) (n : ℕ × ℕ) → Leaves f (Secondaries.settle x sts jobs n)
  unfolding Secondaries.settle
  Leaves-settle sts jobs (s, t) = search (leaves_rules, Leaves-delete_jobs) depth 8

  pub Leaves-Secondaries-handle : Leaves f (Secondaries.handle x)
  unfolding Secondaries.handle
  Leaves-Secondaries-handle =
      search
        (
          leaves_rules, Leaves-get_sync_leader, Leaves-ensure_streamer,
          Leaves-ensure_secondary_clients, Leaves-count_jobs, Leaves-settle,
        )
        depth 12

module _ (x : Context) where
  pub Leaves-Scaledown-handle : Leaves but_ready (Scaledown.handle x)
  unfolding Scaledown.handle
  Leaves-Scaledown-handle = Leaves-bind _ _ (Leaves-get_k8s_stateful_set x) λ sts.
      Leaves-bind _ _ (Leaves-request (x.client.statefulsets.update (Scaledown.scaled_to_zero sts)))
        λ sts'.
          Leaves-bind _ _ (Leaves-modify but_ready (set_ready sts'.ready_replicas) (λ q. refl))
            λ _. Leaves-pure (sts'.available_replicas == 0)

  pub Leaves-PreupgradeSync-handle : Leaves but_ready (PreupgradeSync.handle x)
  unfolding PreupgradeSync.handle
  Leaves-PreupgradeSync-handle =
      search
        (
          leaves_rules, Leaves-reconcile_sts, Leaves-reconcile_service, Leaves-ensure_upgrade_job,
          Leaves-cleanup_job,
        )
        depth 12

  pub Leaves-Postupgrade-handle : Leaves but_ready (Postupgrade.handle x)
  unfolding Postupgrade.handle
  Leaves-Postupgrade-handle =
      search
        (
          leaves_rules, Leaves-reconcile_sts, Leaves-Service-reconcile, Leaves-ensure_upgrade_job,
          Leaves-cleanup_job,
        )
        depth 12

-- The instance but for its version.
abbrev pub but_version : PatroniPostgres → PatroniPostgres
but_version p = record p { status = record p.status { version = 0 } }

module _ (x : Context) where
  pub Leaves-move-create_job :
      {B : Type 0} {f : PatroniPostgres → B} → Leaves f (PrimaryMove.create_job x)
  unfolding PrimaryMove.create_job
  Leaves-move-create_job = search (leaves_rules, Leaves-get_sync_leader, Leaves-set_meta) depth 10

  Leaves-take_version :
      (b : Bool)
      → Leaves but_version (
          if b
          then modify {S = State x.client.World}
              (λ s. record s { instance = PrimaryMove.take_version s.instance })
          else pure tt)
  unfolding PrimaryMove.take_version
  Leaves-take_version true = Leaves-modify but_version PrimaryMove.take_version (λ q. refl)
  Leaves-take_version false = Leaves-pure tt

  Leaves-move-check_job : (job : Job) → Leaves but_version (PrimaryMove.check_job x job)
  unfolding PrimaryMove.check_job
  Leaves-move-check_job job =
      Leaves-bind _ _ (Leaves-take_version (has_succeeded job))
        λ _. Leaves-bind _ _ (Leaves-cleanup_job x job) λ _. search leaves_rules

  Leaves-move-branch :
      (o : Option Job)
      → Leaves but_version
          (elim o [ none ↦ PrimaryMove.create_job x | some job ↦ PrimaryMove.check_job x job ])
  Leaves-move-branch none = Leaves-move-create_job
  Leaves-move-branch (some job) = Leaves-move-check_job job

  pub Leaves-PrimaryMove-handle : Leaves but_version (PrimaryMove.handle x)
  unfolding PrimaryMove.handle
  Leaves-PrimaryMove-handle = search (leaves_rules, Leaves-move-branch) depth 8
