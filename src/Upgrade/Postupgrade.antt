-- ===== src/Upgrade/Postupgrade.antt =====
-- private/upgrade/postupgrade.go: the database is started, and a job updates and analyses it.
use patroni_postgres_operato.Base.{Bool, false, [], ◌==◌, if◌then◌else◌, length}
use patroni_postgres_operato.Exec.{Exec, pure, fail, ◌>>=◌, ◌>>◌, postupgrade_job_failed}
use patroni_postgres_operato.Client.{State, the_instance}
use patroni_postgres_operato.Context.{Context}
use patroni_postgres_operato.Controllers.Service as Service
use patroni_postgres_operato.Controllers.Statefulset as Statefulset
use patroni_postgres_operato.Upgrade.Jobs.{
  postupgrade_job, has_succeeded, has_failed, ensure_upgrade_job, cleanup_job,
}

module _ (x : Context) where
  unfoldable pub run_job : Exec (State x.client.World) Bool
  unfolding ◌>>=◌
  run_job = do
    job ← ensure_upgrade_job x postupgrade_job
    cleanup_job x job
    if has_failed job then fail postupgrade_job_failed else pure (has_succeeded job)

  unfoldable pub handle : Exec (State x.client.World) Bool
  unfolding run_job the_instance
  handle = do
    sts ← Statefulset.reconcile_sts x []
    Service.reconcile x.client
    p ← the_instance
    if sts.ready_replicas == length p.spec.nodes then run_job else pure false
