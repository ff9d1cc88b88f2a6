-- ===== src/Tests/RunExamples.antt =====
-- The theorem about whole upgrades, applied to ten runs for a cluster of one member.
use patroni_postgres_operato.Base.{◌≡◌, ◌≢◌, refl, sym, ap, ◌∙◌, ℕ, suc, true, arith}
use patroni_postgres_operato.Exec.{ok}
use patroni_postgres_operato.Kube.{ConfigMap}
use patroni_postgres_operato.Api.{PatroniPostgres, state_ready}
use patroni_postgres_operato.Client.{State}
use patroni_postgres_operato.Upgrade.Steps.{
  Handler, preupgrade, preupgrade_scaledown, preupgrade_sync, scaledown, primary_upgrade,
  secondary_upgrade, primary_upgrade_move, postupgrade, name, find_step, handle,
}
use patroni_postgres_operato.Controllers.Configmap.{get_sync_leader}
use patroni_postgres_operato.Reconciler.{run, deferred, body}
use patroni_postgres_operato.Reconciler.Start.{body_with_target, run-instance}
use patroni_postgres_operato.Reconciler.Upgrading.{Runs, here, done, run-upgrades}
use patroni_postgres_operato.Tests.{context, image15, at_state, one_member}
use patroni_postgres_operato.Tests.UpgradeExamples as UpgradeExamples
use patroni_postgres_operato.Tests.UpgradeExamples.{
  during, preupgrade-Runs, preupgrade_scaledown-Runs, preupgrade_sync-Runs, scaledown-Runs,
  primary_upgrade-Runs, secondary_upgrade-Runs, primary_upgrade_move-Runs, postupgrade-Runs,
}

run_of :
    (s : State ConfigMap)
    → s.instance.status.upgrade_version ≢ 0
    → (handle context s).0 ≡ ok true
    → (run context s).0 ≡ ok true
unfolding run deferred
run_of s ne h =
    let b : (body context s).0 ≡ ok true = ap (λ r. r.0) (body_with_target context s ne) ∙ h in
    ground (arith, b)

status_of :
    (s : State ConfigMap) (after : PatroniPostgres)
    → s.instance.status.upgrade_version ≢ 0
    → after ≡ (handle context s).1.instance
    → after.status ≡ (run context s).1.instance.status
status_of s after ne e =
    ap (λ (p : PatroniPostgres). p.status)
      (e ∙ sym (run-instance context s ∙ ap (λ r. r.1.instance) (body_with_target context s ne)))

by_step :
    (h : Handler) (version : ℕ) (after : PatroniPostgres) {n : ℕ} {u : State ConfigMap}
    → UpgradeExamples.Runs h version after
    → Runs context n (at_state after) u
    → Runs context (suc n) (during h version) u
by_step h version after (r, e) rest =
    done image15 (run_of (during h version) (λ z. ground arith) r)
      (status_of (during h version) after (λ z. ground arith) e) rest

last : State ConfigMap
last = at_state (one_member state_ready 17 0)

eight_steps : Runs context 8 (during preupgrade 15) last
unfolding last
eight_steps = by_step preupgrade 15 _ preupgrade-Runs (
    by_step preupgrade_scaledown 15 _ preupgrade_scaledown-Runs (
      by_step preupgrade_sync 15 _ preupgrade_sync-Runs (
        by_step scaledown 15 _ scaledown-Runs (
          by_step primary_upgrade 15 _ primary_upgrade-Runs (
            by_step secondary_upgrade 15 _ secondary_upgrade-Runs (
              by_step primary_upgrade_move 15 _ primary_upgrade_move-Runs
                (by_step postupgrade 17 _ postupgrade-Runs here)))))))

abbrev ready_one : State ConfigMap
ready_one = at_state (one_member state_ready 15 0)

abbrev target_one : State ConfigMap
target_one = at_state (one_member state_ready 15 17)

enters :
    ((handle context target_one).0 ≡ ok true)
    × ((during preupgrade 15).instance ≡ (handle context target_one).1.instance)
unfolding handle find_step name
enters = (refl, refl)

nine-Runs : Runs context 9 target_one last
nine-Runs =
    done image15 (run_of target_one (λ z. ground arith) enters.0)
      (status_of target_one (during preupgrade 15).instance (λ z. ground arith) enters.1)
      eight_steps

run-begins :
    ((run context ready_one).0 ≡ ok true)
    × (target_one.instance.status ≡ (run context ready_one).1.instance.status)
unfolding run get_sync_leader
run-begins = (refl, refl)

run-upgrades_example :
    (last.instance.status.state ≡ state_ready)
    × (last.instance.status.upgrade_version ≡ 0)
    × (last.instance.status.version ≡ 17)
run-upgrades_example =
    run-upgrades context ready_one target_one last (λ z. ground arith) refl run-begins.0
      run-begins.1 nine-Runs
