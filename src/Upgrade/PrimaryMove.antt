-- ===== src/Upgrade/PrimaryMove.antt =====
-- private/upgrade/primary-move.go: the upgraded data takes the place of the old data, and the
-- version of the instance becomes the new one.
use patroni_postgres_operato.Base.{
  String, ◌<>◌, Bool, false, [], none, some, if◌then◌else◌, get_elem?,
}
use patroni_postgres_operato.Exec.{
  Exec, pure, fail, demand, modify, ◌>>=◌, ◌>>◌, primary_upgrade_move_job_failed,
}
use patroni_postgres_operato.Kube.{ObjectMeta, named, Job}
use patroni_postgres_operato.Api.{PatroniPostgres}
use patroni_postgres_operato.Client.{State, request, find, the_instance}
use patroni_postgres_operato.Context.{Context, set_meta}
use patroni_postgres_operato.Controllers.Configmap.{get_sync_leader}
use patroni_postgres_operato.Upgrade.Jobs.{job_key, has_succeeded, has_failed, cleanup_job}
use patroni_postgres_operato.Upgrade.Pods.{script_container, script_job}
use patroni_postgres_operato.Upgrade.Primary.{escape}

unfoldable pub jobname : PatroniPostgres → String
jobname p = p.name <> "-move"

unfoldable pub move_job : Context → PatroniPostgres → String → ObjectMeta → Job
unfolding script_container script_job escape
move_job x p claim m =
    script_job (some 1)
      (script_container "primary-upgrade-move" x.im.image (escape x.primary_upgrade_move) [] p)
      claim p m

-- `p.Status.Version = p.Status.UpgradeVersion`
unfoldable pub take_version : PatroniPostgres → PatroniPostgres
take_version p = record p { status = record p.status { version = p.status.upgrade_version } }

module _ (x : Context) where
  unfoldable pub create_job : Exec (State x.client.World) Bool
  unfolding ◌>>=◌ request the_instance jobname move_job
  create_job = do
    p ← the_instance
    leader_index ← get_sync_leader x.client
    volume ← demand (get_elem? p.status.volume_statuses leader_index)
    m ← set_meta x.client (named (jobname p))
    _ ← request (x.client.jobs.create (move_job x p volume.claim_name m))
    pure false

  unfoldable pub check_job : Job → Exec (State x.client.World) Bool
  unfolding ◌>>=◌ modify take_version
  check_job job = do
    if has_succeeded job
        then modify (λ s. record s { instance = take_version s.instance })
        else pure tt
    cleanup_job x job
    if has_failed job then fail primary_upgrade_move_job_failed else pure (has_succeeded job)

  unfoldable pub handle : Exec (State x.client.World) Bool
  unfolding create_job check_job find
  handle = do
    p ← the_instance
    o ← find x.client.jobs (job_key p (jobname p))
    elim o [ none ↦ create_job | some job ↦ check_job job ]
