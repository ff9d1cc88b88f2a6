-- ===== src/Upgrade/Members.antt =====
-- What the step that copies the other members waits for (private/upgrade/secondary.go).
use patroni_postgres_operato.Base.{
  ◌≡◌, ◌≢◌, inl, inr, ℕ, true, List, [], ◌∷◌, arith, Bool-cases, ◌==◌, length, ◌+◌, ◌≤◌, ltb, All,
}
use patroni_postgres_operato.Exec.{ok}
use patroni_postgres_operato.Exec.Inversion.{then-ok}
use patroni_postgres_operato.Kube.{Job, StatefulSet}
use patroni_postgres_operato.Client.{State, request, foreground}
use patroni_postgres_operato.Context.{Context}
use patroni_postgres_operato.Upgrade.Jobs.{has_succeeded, has_failed}
use patroni_postgres_operato.Controllers.Configmap.{get_sync_leader}
use patroni_postgres_operato.Upgrade.Streamer.{ensure_streamer}
use patroni_postgres_operato.Upgrade.Secondaries as Secondaries

module _ (x : Context) where
  count_jobs-bound :
      (jobs : List Job) (m n : ℕ) (s : State x.client.World) (k l : ℕ)
      → (Secondaries.count_jobs x m n jobs s).0 ≡ ok (k, l)
      → (k ≤ m + length jobs) × (n ≤ l)
  unfolding Secondaries.count_jobs
  count_jobs-bound [] m n s k l h = ground arith
  count_jobs-bound (job ∷ jobs) m n s k l h = elim (Bool-cases (has_succeeded job)) [
    | inl w ↦ ground (arith, count_jobs-bound jobs (m + 1) n s k l)
    | inr w ↦ elim (Bool-cases (has_failed job)) [
      | inr f ↦ ground (arith, count_jobs-bound jobs m n s k l)
      | inl f ↦
          let (_, _, e) =
            then-ok (request (x.client.jobs.delete job foreground))
              (λ _. Secondaries.count_jobs x m (n + 1) jobs) s (k, l) (ground (arith, w, f, h)) in
          ground (arith, count_jobs-bound jobs m (n + 1) _ k l e)
    ]
  ]

  -- The count of the jobs of the other members is that all have succeeded and none has failed only
  -- if each one has succeeded.
  pub count_jobs-All :
      (jobs : List Job) (m n : ℕ) (s : State x.client.World) (k l : ℕ)
      → (Secondaries.count_jobs x m n jobs s).0 ≡ ok (k, l)
      → l ≡ n
      → k ≡ m + length jobs
      → All (λ job. has_succeeded job ≡ true) jobs
  unfolding Secondaries.count_jobs
  count_jobs-All [] m n s k l h e f = tt
  count_jobs-All (job ∷ jobs) m n s k l h e f = elim (Bool-cases (has_succeeded job)) [
    | inl w ↦ (w, count_jobs-All jobs (m + 1) n s k l (ground (arith, w, h)) e (omega (arith, f)))
    | inr w ↦ elim (Bool-cases (has_failed job)) [
      | inr g ↦ absurd (ground (arith, count_jobs-bound jobs m n s k l))
      | inl g ↦
          let (_, _, d) =
            then-ok (request (x.client.jobs.delete job foreground))
              (λ _. Secondaries.count_jobs x m (n + 1) jobs) s (k, l) (ground (arith, w, g, h)) in
          absurd (ground (arith, count_jobs-bound jobs m (n + 1) _ k l d))
    ]
  ]

  settle-done :
      (sts : StatefulSet) (jobs : List Job) (k l : ℕ) (s : State x.client.World)
      → (Secondaries.settle x sts jobs (k, l) s).0 ≡ ok true
      → (l ≡ 0) × (k ≡ 0 + length jobs)
  unfolding Secondaries.settle
  settle-done sts jobs k l s h = elim (Bool-cases (ltb 0 l)) [
    | inl e ↦ absurd (ground (arith, e, h))
    | inr e ↦ elim (Bool-cases (k == length jobs)) [
      | inl f ↦ ground (arith, e, f)
      | inr f ↦ absurd (ground (arith, e, f, h))
    ]
  ]

  -- In a cluster of more than one member, or of none, the copies of the other members are done only
  -- if the leader is known, the streamer is there, and all of the jobs that were then found or created
  -- for the volumes have succeeded.
  pub secondaries-won :
      (s : State x.client.World)
      → length s.instance.status.volume_statuses ≢ 1
      → (Secondaries.handle x s).0 ≡ ok true
      → let read = get_sync_leader x.client s in
        (leader : ℕ) × (sts : StatefulSet) × (jobs : List Job) × (read.0 ≡ ok leader)
        × ((ensure_streamer x leader read.1).0 ≡ ok sts)
        × ((Secondaries.ensure_secondary_clients x leader sts (ensure_streamer x leader read.1).1).0
            ≡ ok jobs)
        × All (λ job. has_succeeded job ≡ true) jobs
  unfolding Secondaries.handle
  secondaries-won s ne h =
      let h0 : (Secondaries.upgrade_all x s).0 ≡ ok true = ground arith in
      let (leader, r, h1) = then-ok (get_sync_leader x.client) _ s true h0 in
      let (sts, m, h2) = then-ok (ensure_streamer x leader) _ _ true h1 in
      let (jobs, q, h3) = then-ok (Secondaries.ensure_secondary_clients x leader sts) _ _ true h2 in
      let ((k, l), c, h4) =
        then-ok (Secondaries.count_jobs x 0 0 jobs) (λ n. Secondaries.settle x sts jobs n) _ true
          h3 in
      let (none_failed, all) = settle-done sts jobs k l _ h4 in
      (leader, sts, jobs, r, m, q, count_jobs-All jobs 0 0 _ k l c none_failed all)
