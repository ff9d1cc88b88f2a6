-- ===== src/Upgrade/Secondaries.antt =====
-- private/upgrade/secondary.go and secondary-client.go: the other members copy from the leader.
use patroni_postgres_operato.Base.{
  ℕ, suc, ◌+◌, String, ◌<>◌, Bool, true, false, List, [], ◌∷◌, none, some, ◌==◌, ltb, if◌then◌else◌,
  length,
}
use patroni_postgres_operato.Base.Text.{show}
use patroni_postgres_operato.Exec.{Exec, pure, fail, ◌>>=◌, ◌>>◌, secondary_upgrade_job_failed}
use patroni_postgres_operato.Kube.{ObjectMeta, named, EnvVar, Job, StatefulSet}
use patroni_postgres_operato.Api.{VolumeStatus, PatroniPostgres}
use patroni_postgres_operato.Client.{State, foreground, background, request, find, the_instance}
use patroni_postgres_operato.Context.{Context, set_meta}
use patroni_postgres_operato.Controllers.Statefulset.{env}
use patroni_postgres_operato.Controllers.Configmap.{get_secondary_stream_args, get_sync_leader}
use patroni_postgres_operato.Upgrade.Jobs.{job_key, has_succeeded, has_failed}
use patroni_postgres_operato.Upgrade.Pods.{script_container, script_job}
use patroni_postgres_operato.Upgrade.Primary.{escape}
use patroni_postgres_operato.Upgrade.Streamer.{ensure_streamer}

unfoldable pub jobname : PatroniPostgres → ℕ → String
jobname p idx = p.name <> ("-sup-" <> show idx)

unfoldable pub secondary_env : PatroniPostgres → String → String × String → List EnvVar
unfolding show
secondary_env p primary (location, id) =
    env "PRIMARY_ADDRESS" primary
    ∷ env "DB_CHECKPOINT" location
    ∷ env "OLD" (show p.status.version)
    ∷ env "NEW" (show p.status.upgrade_version)
    ∷ env "NEW_DB_SYSTEM_ID" id
    ∷ []

unfoldable pub secondary_job :
    Context → PatroniPostgres → String → String × String → String → ObjectMeta → Job
unfolding secondary_env script_container script_job escape
secondary_job x p primary args claim m =
    script_job none
      (script_container "secondary-upgrade" x.im.image (escape x.secondary_upgrade)
        (secondary_env p primary args) p)
      claim p m

module _ (x : Context) where
  -- The job of one member, created if it is not there.
  unfoldable pub ensure_client :
      String → String × String → ℕ → VolumeStatus → Exec (State x.client.World) Job
  unfolding ◌>>=◌ request find the_instance set_meta jobname secondary_job show
  ensure_client primary args idx volume = do
    p ← the_instance
    o ← find x.client.jobs (job_key p (jobname p idx))
    elim o [
      | some job ↦ pure job
      | none ↦ do
        m ← set_meta x.client (named (jobname p idx))
        request (x.client.jobs.create (secondary_job x p primary args volume.claim_name m))
    ]

  -- The loop over the volumes, from an index; the leader is skipped.
  unfoldable pub ensure_clients :
      String → String × String → ℕ → ℕ → List VolumeStatus → Exec (State x.client.World) (List Job)
  unfolding ensure_client
  ensure_clients primary args leader idx [] = pure []
  ensure_clients primary args leader idx (volume ∷ volumes) =
      let rest = ensure_clients primary args leader (suc idx) volumes in
      if idx == leader
      then rest
      else (do job ← ensure_client primary args idx volume; jobs ← rest; pure (job ∷ jobs))

  unfoldable pub ensure_secondary_clients : ℕ → StatefulSet → Exec (State x.client.World) (List Job)
  unfolding ensure_clients
  ensure_secondary_clients leader sts = do
    args ← get_secondary_stream_args x.client
    p ← the_instance
    ensure_clients sts.meta.name args leader 0 p.status.volume_statuses

  -- The loop that counts, and deletes the jobs that failed: (succeeded, failed).
  unfoldable pub count_jobs : ℕ → ℕ → List Job → Exec (State x.client.World) (ℕ × ℕ)
  unfolding ◌>>=◌ request
  count_jobs succeeded failed [] = pure (succeeded, failed)
  count_jobs succeeded failed (job ∷ jobs) =
      let one_more = count_jobs (succeeded + 1) failed jobs in
      let one_less = count_jobs succeeded (failed + 1) jobs in
      let rest = count_jobs succeeded failed jobs in
      if has_succeeded job
      then one_more
      else (if has_failed job
          then (do request (x.client.jobs.delete job foreground); one_less)
          else rest)

  unfoldable pub delete_jobs : List Job → Exec (State x.client.World) (Unit {0})
  unfolding ◌>>=◌ request
  delete_jobs [] = pure tt
  delete_jobs (job ∷ jobs) = do request (x.client.jobs.delete job background); delete_jobs jobs

  unfoldable pub settle : StatefulSet → List Job → ℕ × ℕ → Exec (State x.client.World) Bool
  unfolding ◌>>=◌ request delete_jobs
  settle sts jobs (succeeded, failed) =
      if ltb 0 failed
      then fail secondary_upgrade_job_failed
      else (if succeeded == length jobs
          then (do
            request (x.client.statefulsets.delete sts background)
            delete_jobs jobs
            pure true)
          else pure false)

  unfoldable pub upgrade_all : Exec (State x.client.World) Bool
  unfolding ensure_secondary_clients count_jobs settle
  upgrade_all = do
    leader ← get_sync_leader x.client
    sts ← ensure_streamer x leader
    jobs ← ensure_secondary_clients leader sts
    counts ← count_jobs 0 0 jobs
    settle sts jobs counts

  unfoldable pub handle : Exec (State x.client.World) Bool
  unfolding upgrade_all the_instance
  handle = do
    p ← the_instance
    if length p.status.volume_statuses == 1 then pure true else upgrade_all
