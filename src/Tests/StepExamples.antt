-- ===== src/Tests/StepExamples.antt =====
-- The theorems about single steps, applied to steps of a cluster of two members.
use patroni_postgres_operato.Base.{String, ◌≡◌, refl, ◌≢◌, ℕ, true, List, [], ◌∷◌, arith, All}
use patroni_postgres_operato.Base.StringMap.{insert, erase, lookup}
use patroni_postgres_operato.Base.Text.{scan_int, last_part}
use patroni_postgres_operato.Exec.{ok}
use patroni_postgres_operato.Kube.{ConfigMap, Job, StatefulSet, int}
use patroni_postgres_operato.Client.{State, find}
use patroni_postgres_operato.Context.{Context}
use patroni_postgres_operato.Controllers.Configmap.{
  set_primary_initdb_args, set_latest_checkpoint_location, set_db_id, get_sync_leader,
  get_secondary_stream_args,
}
use patroni_postgres_operato.Controllers.Statefulset.{get_k8s_stateful_set, reconcile_sts}
use patroni_postgres_operato.Controllers.Service as Service
use patroni_postgres_operato.Upgrade.Jobs.{
  ensure_upgrade_job, cleanup_job, has_succeeded, has_failed, preupgrade_job, preupgrade_sync_job,
  postupgrade_job, job_key, upgrade_env,
}
use patroni_postgres_operato.Upgrade.Logs.{
  get_initdb_args_from_job, get_result_from_primary_upgrade_job,
}
use patroni_postgres_operato.Upgrade.Preupgrade as Preupgrade
use patroni_postgres_operato.Upgrade.PreupgradeSync as PreupgradeSync
use patroni_postgres_operato.Upgrade.Scaledown as Scaledown
use patroni_postgres_operato.Upgrade.Primary as Primary
use patroni_postgres_operato.Upgrade.Streamer.{ensure_streamer}
use patroni_postgres_operato.Upgrade.Secondaries as Secondaries
use patroni_postgres_operato.Upgrade.PrimaryMove as PrimaryMove
use patroni_postgres_operato.Upgrade.Postupgrade as Postupgrade
use patroni_postgres_operato.Upgrade.Gates.{
  Won, preupgrade-Won, preupgrade_sync-Won, postupgrade-Won, scaledown-done,
}
use patroni_postgres_operato.Upgrade.PrimaryGates.{Found, primary-won, primary_move-won}
use patroni_postgres_operato.Upgrade.Members.{secondaries-won}
use patroni_postgres_operato.Upgrade.Copies.{JobsOf, without, ensure_secondary_clients-JobsOf}
use patroni_postgres_operato.Upgrade.Ports.{find_env, SetSent, ServiceSent, handle-ports}
use patroni_postgres_operato.Tests.{
  client, context, holding, config_map, set_of_one, won_job, at_state, one_member, two_members,
}

-- The config maps of Patroni are read whatever their name.
abbrev pair : Context
pair = record context { client = record client { configmaps = holding config_map } }

abbrev s2 : State ConfigMap
s2 = at_state (two_members "upgrade" 15 17)

abbrev s1 : State ConfigMap
s1 = at_state (one_member "upgrade" 15 17)

preupgrade-done : (Preupgrade.handle pair s2).0 ≡ ok true
unfolding Preupgrade.handle ensure_upgrade_job has_succeeded has_failed get_initdb_args_from_job
    set_primary_initdb_args cleanup_job insert
preupgrade-done = refl

preupgrade-Won_example : Won (ensure_upgrade_job pair preupgrade_job s2).0
preupgrade-Won_example = preupgrade-Won pair s2 preupgrade-done

scaledown-is-done : (Scaledown.handle pair s2).0 ≡ ok true
unfolding Scaledown.handle get_k8s_stateful_set
scaledown-is-done = refl

scaledown-done_example :
    (a : StatefulSet) × (b : StatefulSet) × ((get_k8s_stateful_set pair s2).0 ≡ ok a)
    × ((pair.client.statefulsets.update
          (Scaledown.scaled_to_zero a)
          (get_k8s_stateful_set pair s2).1.world).0
        ≡ ok b)
    × (b.available_replicas ≡ 0)
    × ((Scaledown.handle pair s2).1.instance.status.ready ≡ b.ready_replicas)
scaledown-done_example = scaledown-done pair s2 scaledown-is-done

two-ne-one : ◌≢◌ {A = ℕ} 2 1
two-ne-one e = ground arith

sync-done : (PreupgradeSync.handle pair s2).0 ≡ ok true
unfolding PreupgradeSync.handle ensure_upgrade_job has_succeeded has_failed cleanup_job
    reconcile_sts Service.reconcile_service
sync-done = refl

preupgrade_sync-Won_example :
    (t : State ConfigMap) × Won (ensure_upgrade_job pair preupgrade_sync_job t).0
preupgrade_sync-Won_example = preupgrade_sync-Won pair s2 two-ne-one sync-done

postupgrade-done : (Postupgrade.handle pair s1).0 ≡ ok true
unfolding Postupgrade.handle ensure_upgrade_job has_succeeded has_failed cleanup_job reconcile_sts
    Service.reconcile
postupgrade-done = refl

postupgrade-Won_example :
    (sts : StatefulSet) × ((reconcile_sts pair [] s1).0 ≡ ok sts)
    × (t : State ConfigMap) × (sts.ready_replicas ≡ 1)
    × Won (ensure_upgrade_job pair postupgrade_job t).0
postupgrade-Won_example = postupgrade-Won pair s1 postupgrade-done

primary-done : (Primary.handle pair s2).0 ≡ ok true
unfolding Primary.handle has_succeeded has_failed cleanup_job get_result_from_primary_upgrade_job
    set_latest_checkpoint_location set_db_id insert erase lookup
primary-done = refl

primary-won_example :
    Found (find pair.client.jobs (job_key s2.instance (Primary.jobname s2.instance)) s2).0
primary-won_example = primary-won pair s2 primary-done

primary_move-is-done : (PrimaryMove.handle pair s2).0 ≡ ok true
unfolding PrimaryMove.handle has_succeeded has_failed cleanup_job
primary_move-is-done = refl

primary_move-won_example :
    Found (find pair.client.jobs (job_key s2.instance (PrimaryMove.jobname s2.instance)) s2).0
primary_move-won_example = primary_move-won pair s2 primary_move-is-done

secondaries-done : (Secondaries.handle pair s2).0 ≡ ok true
unfolding Secondaries.handle get_sync_leader scan_int last_part lookup ensure_streamer
    get_secondary_stream_args has_succeeded has_failed
secondaries-done = refl

secondaries-won_example :
    let read = get_sync_leader pair.client s2 in
    (leader : ℕ) × (sts : StatefulSet) × (jobs : List Job) × (read.0 ≡ ok leader)
    × ((ensure_streamer pair leader read.1).0 ≡ ok sts)
    × ((Secondaries.ensure_secondary_clients pair leader sts
          (ensure_streamer pair leader read.1).1).0
        ≡ ok jobs)
    × All (λ job. has_succeeded job ≡ true) jobs
secondaries-won_example = secondaries-won pair s2 two-ne-one secondaries-done

clients-of-two : (Secondaries.ensure_secondary_clients pair 1 set_of_one s2).0 ≡ ok (won_job ∷ [])
unfolding Secondaries.ensure_secondary_clients get_secondary_stream_args lookup
clients-of-two = refl

ensure_secondary_clients-JobsOf_example :
    (args : String × String) × ((get_secondary_stream_args pair.client s2).0 ≡ ok args)
    × JobsOf pair "db" args
        (without 1 0 s2.instance.status.volume_statuses)
        (won_job ∷ [])
        (get_secondary_stream_args pair.client s2).1
        (Secondaries.ensure_secondary_clients pair 1 set_of_one s2).1
ensure_secondary_clients-JobsOf_example =
    ensure_secondary_clients-JobsOf pair 1 set_of_one s2 (won_job ∷ []) clients-of-two

handle-ports_example :
    SetSent pair (find_env "DBPORT" (upgrade_env s2.instance preupgrade_sync_job)) s2
    × (t : State ConfigMap) × ServiceSent pair
        (record { name = "postgres"; port = 55432; target_port = int 55432 }
          ∷ record { name = "patroni"; port = 8008; target_port = int 8008 }
          ∷ [])
        t
handle-ports_example = handle-ports pair s2 true two-ne-one sync-done
