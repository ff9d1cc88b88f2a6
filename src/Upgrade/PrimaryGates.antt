-- ===== src/Upgrade/PrimaryGates.antt =====
-- What the two steps on the data of the primary wait for before they are done.
use patroni_postgres_operato.Base.{
  ◌≡◌, refl, ◌≢◌, Bool, true, false, Option, none, some, arith, if◌then◌else◌,
}
use patroni_postgres_operato.Exec.{
  Outcome, ok, err, panic, Exec, continue, pure, fail, modify, primary_upgrade_job_failed,
  primary_upgrade_move_job_failed,
}
use patroni_postgres_operato.Exec.Inversion.{then-ok}
use patroni_postgres_operato.Kube.{Job}
use patroni_postgres_operato.Client.{State, find}
use patroni_postgres_operato.Context.{Context}
use patroni_postgres_operato.Upgrade.Version.{create_job-ne-done}
use patroni_postgres_operato.Upgrade.Jobs.{has_succeeded, has_failed, cleanup_job, job_key}
use patroni_postgres_operato.Upgrade.Primary as Primary
use patroni_postgres_operato.Upgrade.PrimaryMove as PrimaryMove
use patroni_postgres_operato.Upgrade.Gates.{verdict, verdict-done}

-- Such a job was found, and it has succeeded and not failed.
abbrev pub Found : Outcome (Option Job) → Type 0
Found r = (job : Job) × (r ≡ ok (some job)) × (has_succeeded job ≡ true) × (has_failed job ≡ false)

module _ (x : Context) where
  primary-create-waits : (s : State x.client.World) → (Primary.create_job x s).0 ≢ ok true
  unfolding Primary.create_job
  primary-create-waits s = ground arith

  primary-check-done :
      (job : Job) (s : State x.client.World)
      → (Primary.check_job x job s).0 ≡ ok true
      → (has_succeeded job ≡ true) × (has_failed job ≡ false)
  unfolding Primary.check_job pure fail
  primary-check-done job s h =
      let (done, r, h1) =
        then-ok (if has_succeeded job then Primary.take_result x job else pure false) _ s true h in
      let (_, _, h2) =
        then-ok (cleanup_job x job)
          (λ _. if has_failed job then fail primary_upgrade_job_failed else pure done) _ true h1 in
      ground (arith, r, h2)

  move-check-done :
      (job : Job) (s : State x.client.World)
      → (PrimaryMove.check_job x job s).0 ≡ ok true
      → (has_succeeded job ≡ true) × (has_failed job ≡ false)
  unfolding PrimaryMove.check_job
  move-check-done job s h =
      let (_, _, h1) =
        then-ok
          (if has_succeeded job
            then modify {S = State x.client.World}
                (λ s. record s { instance = PrimaryMove.take_version s.instance })
            else pure tt)
          _ s true h in
      let (_, _, h2) =
        then-ok (cleanup_job x job) (λ _. verdict primary_upgrade_move_job_failed job) _ true h1 in
      verdict-done primary_upgrade_move_job_failed job _ h2

  Found-done :
      (check : Job → Exec (State x.client.World) Bool) (create : Exec (State x.client.World) Bool)
      (r : Outcome (Option Job)) (s : State x.client.World)
      → (create s).0 ≢ ok true
      → ((job : Job)
          → (check job s).0 ≡ ok true
          → (has_succeeded job ≡ true) × (has_failed job ≡ false))
      → (continue r (λ o. elim o [ none ↦ create | some job ↦ check job ]) s).0 ≡ ok true
      → Found r
  Found-done check create (ok none) s ne c h = absurd (ne h)
  Found-done check create (ok (some job)) s ne c h = let (w, f) = c job h in (job, refl, w, f)
  Found-done check create (err e) s ne c h = absurd cc
  Found-done check create panic s ne c h = absurd cc

  -- The upgrade of the data of the primary is done only if its job was found, and has succeeded and
  -- not failed.
  pub primary-won :
      (s : State x.client.World)
      → (Primary.handle x s).0 ≡ ok true
      → Found (find x.client.jobs (job_key s.instance (Primary.jobname s.instance)) s).0
  unfolding Primary.handle
  primary-won s h =
      let (r, t) = find x.client.jobs (job_key s.instance (Primary.jobname s.instance)) s in
      Found-done (Primary.check_job x) (Primary.create_job x) r t (primary-create-waits t)
        (λ job. primary-check-done job t) h

  -- The move of the data of the primary is done only if its job was found, and has succeeded and not
  -- failed.
  pub primary_move-won :
      (s : State x.client.World)
      → (PrimaryMove.handle x s).0 ≡ ok true
      → Found (find x.client.jobs (job_key s.instance (PrimaryMove.jobname s.instance)) s).0
  unfolding PrimaryMove.handle
  primary_move-won s h =
      let (r, t) = find x.client.jobs (job_key s.instance (PrimaryMove.jobname s.instance)) s in
      Found-done (PrimaryMove.check_job x) (PrimaryMove.create_job x) r t (create_job-ne-done x t)
        (λ job. move-check-done job t) h
