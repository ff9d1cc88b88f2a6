-- ===== src/Upgrade/PreupgradeSync.antt =====
-- private/upgrade/preupgrade-sync.go: the replicas catch up while no client can connect.
use patroni_postgres_operato.Base.{Bool, true, [], ◌∷◌, ◌==◌, if◌then◌else◌, length}
use patroni_postgres_operato.Exec.{Exec, pure, fail, ◌>>=◌, ◌>>◌, preupgrade_sync_job_failed}
use patroni_postgres_operato.Client.{State, the_instance}
use patroni_postgres_operato.Context.{Context}
use patroni_postgres_operato.Controllers.Service as Service
use patroni_postgres_operato.Controllers.Statefulset as Statefulset
use patroni_postgres_operato.Upgrade.Jobs.{
  preupgrade_sync_job, db_port, has_succeeded, has_failed, ensure_upgrade_job, cleanup_job,
}

module _ (x : Context) where
  unfoldable pub sync : Exec (State x.client.World) Bool
  unfolding ◌>>=◌ db_port
  sync = do
    _ ← Statefulset.reconcile_sts x (
        Statefulset.with_postgresql_port (db_port preupgrade_sync_job)
        ∷ Statefulset.with_paused_patroni
        ∷ [])
    Service.reconcile_service x.client
        (Service.with_postgresql_port (db_port preupgrade_sync_job) ∷ Service.with_patroni_api ∷ [])
    job ← ensure_upgrade_job x preupgrade_sync_job
    cleanup_job x job
    if has_failed job then fail preupgrade_sync_job_failed else pure (has_succeeded job)

  -- A cluster of one member has nothing to sync.
  unfoldable pub handle : Exec (State x.client.World) Bool
  unfolding sync the_instance
  handle = do p ← the_instance; if length p.status.volume_statuses == 1 then pure true else sync
