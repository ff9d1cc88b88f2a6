-- ===== src/Upgrade/Primary.antt =====
-- private/upgrade/primary.go: the data of the leader is upgraded beside the old data.
use patroni_postgres_operato.Base.{
  String, ◌<>◌, Bool, true, false, List, [], ◌∷◌, none, some, str_eq, if◌then◌else◌, get_elem?,
}
use patroni_postgres_operato.Base.Text.{show, replace_all}
use patroni_postgres_operato.Exec.{
  Exec, pure, fail, demand, ◌>>=◌, ◌>>◌, primary_upgrade_job_failed,
}
use patroni_postgres_operato.Kube.{ObjectMeta, named, EnvVar, Job}
use patroni_postgres_operato.Api.{PatroniPostgres}
use patroni_postgres_operato.Client.{State, request, find, the_instance}
use patroni_postgres_operato.Context.{Context, set_meta}
use patroni_postgres_operato.Results.{UpgradeJobResult}
use patroni_postgres_operato.Controllers.Statefulset.{env}
use patroni_postgres_operato.Controllers.Configmap.{
  get_primary_initdb_args, get_sync_leader, get_db_id, set_latest_checkpoint_location, set_db_id,
}
use patroni_postgres_operato.Upgrade.Logs.{get_result_from_primary_upgrade_job}
use patroni_postgres_operato.Upgrade.Jobs.{job_key, has_succeeded, has_failed, cleanup_job}
use patroni_postgres_operato.Upgrade.Pods.{script_container, script_job}

-- What `init` of upgrade.go makes of an embedded script.
unfoldable pub escape : String → String
unfolding replace_all
escape script = replace_all script b'$' "$$"

unfoldable pub jobname : PatroniPostgres → String
jobname p = p.name <> "-up"

unfoldable pub primary_env : PatroniPostgres → String → String → List EnvVar
unfolding show
primary_env p dbid initdb_args =
    env "DB_SYSTEM_ID" dbid
    ∷ env "OLD" (show p.status.version)
    ∷ env "NEW" (show p.status.upgrade_version)
    ∷ env "INITDB_ARGS" initdb_args
    ∷ []

unfoldable pub primary_job : Context → PatroniPostgres → String → String → String → ObjectMeta → Job
unfolding primary_env script_container script_job escape
primary_job x p dbid initdb_args claim m =
    script_job (some 1)
      (script_container "primary-upgrade" x.im.image (escape x.primary_upgrade)
        (primary_env p dbid initdb_args) p)
      claim p m

module _ (x : Context) where
  -- No job is there: one is created, for the volume of the leader.
  unfoldable pub create_job : Exec (State x.client.World) Bool
  unfolding ◌>>=◌ request the_instance jobname primary_job
  create_job = do
    p ← the_instance
    initdb_args ← get_primary_initdb_args x.client
    leader_index ← get_sync_leader x.client
    dbid ← get_db_id x.client
    volume ← demand (get_elem? p.status.volume_statuses leader_index)
    m ← set_meta x.client (named (jobname p))
    _ ← request (x.client.jobs.create (primary_job x p dbid initdb_args volume.claim_name m))
    pure false

  unfoldable pub keep_checkpoint : UpgradeJobResult → Exec (State x.client.World) (Unit {0})
  unfolding pure
  keep_checkpoint result =
      if str_eq result.old_latest_checkpoint_location ""
      then pure tt
      else set_latest_checkpoint_location x.client result.old_latest_checkpoint_location

  -- What a successful job printed goes to the config map.
  unfoldable pub take_result : Job → Exec (State x.client.World) Bool
  unfolding ◌>>=◌ keep_checkpoint
  take_result job = do
    result ← get_result_from_primary_upgrade_job x.client job
    keep_checkpoint result
    set_db_id x.client result.new_database_system_identifier
    pure true

  unfoldable pub check_job : Job → Exec (State x.client.World) Bool
  unfolding take_result
  check_job job = do
    done ← if has_succeeded job then take_result job else pure false
    cleanup_job x job
    if has_failed job then fail primary_upgrade_job_failed else pure done

  unfoldable pub handle : Exec (State x.client.World) Bool
  unfolding create_job check_job find
  handle = do
    p ← the_instance
    o ← find x.client.jobs (job_key p (jobname p))
    elim o [ none ↦ create_job | some job ↦ check_job job ]
