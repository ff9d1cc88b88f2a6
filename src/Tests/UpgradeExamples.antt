-- ===== src/Tests/UpgradeExamples.antt =====
-- The theorems about upgrades, applied to upgrades of a cluster of one member and of two.
use patroni_postgres_operato.Base.{◌≡◌, refl, ◌⊎◌, ap, sym, ◌∙◌, ℕ, true}
use patroni_postgres_operato.Exec.{ok}
use patroni_postgres_operato.Kube.{ConfigMap}
use patroni_postgres_operato.Api.{
  PatroniPostgres, state_ready, state_upgrade_preupgrade, state_upgrade_primary_move,
  state_upgrade_postupgrade,
}
use patroni_postgres_operato.Client.{State}
use patroni_postgres_operato.Upgrade.Steps.{
  Handler, preupgrade, preupgrade_scaledown, preupgrade_sync, scaledown, primary_upgrade,
  secondary_upgrade, primary_upgrade_move, postupgrade, name, find_step, run_handler, handle,
}
use patroni_postgres_operato.Upgrade.Order.{Edge}
use patroni_postgres_operato.Upgrade.Transitions.{handle-Edge, handle-kept, kept}
use patroni_postgres_operato.Upgrade.Version.{handle-version, move-version, handle-upgrade_version}
use patroni_postgres_operato.Upgrade.Progress.{Dones, here, next, upgrade_completes}
use patroni_postgres_operato.Base.StringMap.{insert, erase, lookup}
use patroni_postgres_operato.Controllers.Configmap.{
  set_primary_initdb_args, set_latest_checkpoint_location, set_db_id, clear_upgrade_annotations,
}
use patroni_postgres_operato.Controllers.Statefulset.{get_k8s_stateful_set, reconcile_sts}
use patroni_postgres_operato.Controllers.Service as Service
use patroni_postgres_operato.Upgrade.Jobs.{
  ensure_upgrade_job, cleanup_job, has_succeeded, has_failed,
}
use patroni_postgres_operato.Upgrade.Logs.{
  job_log, get_initdb_args_from_job, get_result_from_primary_upgrade_job,
}
use patroni_postgres_operato.Upgrade.Preupgrade as Preupgrade
use patroni_postgres_operato.Upgrade.PreupgradeSync as PreupgradeSync
use patroni_postgres_operato.Upgrade.Scaledown as Scaledown
use patroni_postgres_operato.Upgrade.Primary as Primary
use patroni_postgres_operato.Upgrade.Secondaries as Secondaries
use patroni_postgres_operato.Upgrade.PrimaryMove as PrimaryMove
use patroni_postgres_operato.Upgrade.Postupgrade as Postupgrade
use patroni_postgres_operato.Tests.{context, image15, at_state, one_member}

abbrev pub during : Handler → ℕ → State ConfigMap
during h version = at_state (one_member (name h) version 17)

-- A step that is done, in a cluster of one member whose jobs have succeeded.
abbrev pub Runs : Handler → ℕ → PatroniPostgres → Type 0
Runs h version after =
    ((handle context (during h version)).0 ≡ ok true)
    × (after ≡ (handle context (during h version)).1.instance)

pub preupgrade-Runs : Runs preupgrade 15 (one_member (name preupgrade_scaledown) 15 17)
unfolding handle find_step run_handler Preupgrade.handle ensure_upgrade_job has_succeeded has_failed
    get_initdb_args_from_job set_primary_initdb_args cleanup_job Scaledown.handle
    get_k8s_stateful_set PreupgradeSync.handle Primary.handle job_log
    get_result_from_primary_upgrade_job set_latest_checkpoint_location set_db_id Secondaries.handle
    PrimaryMove.handle Postupgrade.handle reconcile_sts Service.reconcile clear_upgrade_annotations
    insert erase lookup name
preupgrade-Runs = (refl, refl)

pub preupgrade_scaledown-Runs :
    Runs preupgrade_scaledown 15 (one_member (name preupgrade_sync) 15 17)
unfolding handle find_step run_handler Preupgrade.handle ensure_upgrade_job has_succeeded has_failed
    get_initdb_args_from_job set_primary_initdb_args cleanup_job Scaledown.handle
    get_k8s_stateful_set PreupgradeSync.handle Primary.handle job_log
    get_result_from_primary_upgrade_job set_latest_checkpoint_location set_db_id Secondaries.handle
    PrimaryMove.handle Postupgrade.handle reconcile_sts Service.reconcile clear_upgrade_annotations
    insert erase lookup name
preupgrade_scaledown-Runs = (refl, refl)

pub preupgrade_sync-Runs : Runs preupgrade_sync 15 (one_member (name scaledown) 15 17)
unfolding handle find_step run_handler Preupgrade.handle ensure_upgrade_job has_succeeded has_failed
    get_initdb_args_from_job set_primary_initdb_args cleanup_job Scaledown.handle
    get_k8s_stateful_set PreupgradeSync.handle Primary.handle job_log
    get_result_from_primary_upgrade_job set_latest_checkpoint_location set_db_id Secondaries.handle
    PrimaryMove.handle Postupgrade.handle reconcile_sts Service.reconcile clear_upgrade_annotations
    insert erase lookup name
preupgrade_sync-Runs = (refl, refl)

pub scaledown-Runs : Runs scaledown 15 (one_member (name primary_upgrade) 15 17)
unfolding handle find_step run_handler Preupgrade.handle ensure_upgrade_job has_succeeded has_failed
    get_initdb_args_from_job set_primary_initdb_args cleanup_job Scaledown.handle
    get_k8s_stateful_set PreupgradeSync.handle Primary.handle job_log
    get_result_from_primary_upgrade_job set_latest_checkpoint_location set_db_id Secondaries.handle
    PrimaryMove.handle Postupgrade.handle reconcile_sts Service.reconcile clear_upgrade_annotations
    insert erase lookup name
scaledown-Runs = (refl, refl)

pub primary_upgrade-Runs : Runs primary_upgrade 15 (one_member (name secondary_upgrade) 15 17)
unfolding handle find_step run_handler Preupgrade.handle ensure_upgrade_job has_succeeded has_failed
    get_initdb_args_from_job set_primary_initdb_args cleanup_job Scaledown.handle
    get_k8s_stateful_set PreupgradeSync.handle Primary.handle job_log
    get_result_from_primary_upgrade_job set_latest_checkpoint_location set_db_id Secondaries.handle
    PrimaryMove.handle Postupgrade.handle reconcile_sts Service.reconcile clear_upgrade_annotations
    insert erase lookup name
primary_upgrade-Runs = (refl, refl)

pub secondary_upgrade-Runs :
    Runs secondary_upgrade 15 (one_member (name primary_upgrade_move) 15 17)
unfolding handle find_step run_handler Preupgrade.handle ensure_upgrade_job has_succeeded has_failed
    get_initdb_args_from_job set_primary_initdb_args cleanup_job Scaledown.handle
    get_k8s_stateful_set PreupgradeSync.handle Primary.handle job_log
    get_result_from_primary_upgrade_job set_latest_checkpoint_location set_db_id Secondaries.handle
    PrimaryMove.handle Postupgrade.handle reconcile_sts Service.reconcile clear_upgrade_annotations
    insert erase lookup name
secondary_upgrade-Runs = (refl, refl)

pub primary_upgrade_move-Runs : Runs primary_upgrade_move 15 (one_member (name postupgrade) 17 17)
unfolding handle find_step run_handler Preupgrade.handle ensure_upgrade_job has_succeeded has_failed
    get_initdb_args_from_job set_primary_initdb_args cleanup_job Scaledown.handle
    get_k8s_stateful_set PreupgradeSync.handle Primary.handle job_log
    get_result_from_primary_upgrade_job set_latest_checkpoint_location set_db_id Secondaries.handle
    PrimaryMove.handle Postupgrade.handle reconcile_sts Service.reconcile clear_upgrade_annotations
    insert erase lookup name
primary_upgrade_move-Runs = (refl, refl)

pub postupgrade-Runs : Runs postupgrade 17 (one_member state_ready 17 0)
unfolding handle find_step run_handler Preupgrade.handle ensure_upgrade_job has_succeeded has_failed
    get_initdb_args_from_job set_primary_initdb_args cleanup_job Scaledown.handle
    get_k8s_stateful_set PreupgradeSync.handle Primary.handle job_log
    get_result_from_primary_upgrade_job set_latest_checkpoint_location set_db_id Secondaries.handle
    PrimaryMove.handle Postupgrade.handle reconcile_sts Service.reconcile clear_upgrade_annotations
    insert erase lookup name
postupgrade-Runs = (refl, refl)

preupgrade_state : name preupgrade ≡ state_upgrade_preupgrade
unfolding name
preupgrade_state = refl

run_of_eight : Dones context 8 (during preupgrade 15) (at_state (one_member state_ready 17 0))
run_of_eight =
    next {t = during preupgrade_scaledown 15} image15 preupgrade-Runs.0 preupgrade-Runs.1 (
      next {t = during preupgrade_sync 15} image15 preupgrade_scaledown-Runs.0
        preupgrade_scaledown-Runs.1
        (next {t = during scaledown 15} image15 preupgrade_sync-Runs.0 preupgrade_sync-Runs.1 (
          next {t = during primary_upgrade 15} image15 scaledown-Runs.0 scaledown-Runs.1 (
            next {t = during secondary_upgrade 15} image15 primary_upgrade-Runs.0
              primary_upgrade-Runs.1
              (next {t = during primary_upgrade_move 15} image15 secondary_upgrade-Runs.0
                secondary_upgrade-Runs.1
                (next {t = during postupgrade 17} image15 primary_upgrade_move-Runs.0
                  primary_upgrade_move-Runs.1
                  (next {t = at_state (one_member state_ready 17 0)} image15 postupgrade-Runs.0
                    postupgrade-Runs.1 here)))))))

upgrade_completes_example :
    let p = one_member state_ready 17 0 in
    (p.status.state ≡ state_ready) × (p.status.upgrade_version ≡ 0) × (p.status.version ≡ 17)
upgrade_completes_example =
    upgrade_completes context 17 {s = during preupgrade 15}
      {t = at_state (one_member state_ready 17 0)} preupgrade_state refl run_of_eight

handle-Edge_example :
    let s = during primary_upgrade_move 15 in
    Edge s.instance.status.state (handle context s).1.instance.status.state
handle-Edge_example = handle-Edge context (during primary_upgrade_move 15)

handle-version_example :
    let s = during primary_upgrade_move 15 in
    let p = s.instance in
    let q = (handle context s).1.instance in
    (q.status.version ≡ p.status.version)
    ⊎ ((p.status.state ≡ state_upgrade_primary_move)
        × (q.status.version ≡ p.status.upgrade_version))
handle-version_example = handle-version context (during primary_upgrade_move 15)

move_state : name primary_upgrade_move ≡ state_upgrade_primary_move
unfolding name
move_state = refl

post_state : name postupgrade ≡ state_upgrade_postupgrade
unfolding name
post_state = refl

move-version_example :
    (handle context (during primary_upgrade_move 15)).1.instance.status.version ≡ 17
move-version_example =
    move-version context (during primary_upgrade_move 15) move_state
      (ap (λ (p : PatroniPostgres). p.status.state) (sym primary_upgrade_move-Runs.1) ∙ post_state)

handle-upgrade_version_example :
    let s = during postupgrade 17 in
    let p = s.instance in
    let q = (handle context s).1.instance in
    ((¬ (
        (p.status.state ≡ state_upgrade_postupgrade)
        × ((run_handler context postupgrade s).0 ≡ ok true)))
      × (q.status.upgrade_version ≡ p.status.upgrade_version))
    ⊎ ((p.status.state ≡ state_upgrade_postupgrade)
        × ((run_handler context postupgrade s).0 ≡ ok true)
        × (q.status.state ≡ state_ready)
        × (q.status.upgrade_version ≡ 0)
        × (q.status.version ≡ p.status.version))
handle-upgrade_version_example = handle-upgrade_version context (during postupgrade 17)

handle-kept_example :
    kept context (handle context (during scaledown 15)).1.instance
    ≡ kept context (during scaledown 15).instance
handle-kept_example = handle-kept context (during scaledown 15)
