-- ===== src/Upgrade/Version.antt =====
-- When the version of the instance changes: after the move of the primary, and only then.
use patroni_postgres_operato.Base.{
  sym, String, ◌≡◌, refl, ◌≢◌, ◌⊎◌, inl, inr, ap, ◌∙◌, ℕ, Bool, true, Option, none, some, arith,
  eq_iff, Bool-cases,
}
use patroni_postgres_operato.Exec.{Outcome, ok, err, panic, Exec, continue}
use patroni_postgres_operato.Kube.{Job}
use patroni_postgres_operato.Api.{
  PatroniPostgres, state_ready, state_upgrade_primary_move, state_upgrade_postupgrade,
}
use patroni_postgres_operato.Client.{State, find}
use patroni_postgres_operato.Context.{Context}
use patroni_postgres_operato.Upgrade.Jobs.{cleanup_job, job_key, has_succeeded}
use patroni_postgres_operato.Upgrade.Frame.{Leaves-cleanup_job, Leaves-move-create_job}
use patroni_postgres_operato.Upgrade.PrimaryMove as PrimaryMove
use patroni_postgres_operato.Upgrade.PrimaryMove.{take_version}
use patroni_postgres_operato.Upgrade.Order.{find_step-name}
use patroni_postgres_operato.Upgrade.Steps.{
  find_step, Handler, primary_upgrade_move, postupgrade, name, run_handler, end_upgrade, run_step,
  handle,
}
use patroni_postgres_operato.Upgrade.Transitions.{
  Leaves-run_handler, Leaves-run_handler_version, gone, step_of, run_step-cases, run_handler-state,
  handle_outside, handle_inside, step-cases,
}

-- How the version and the upgrade version may change in a step that ends with `r`.
abbrev pub Kept : Outcome Bool → PatroniPostgres → PatroniPostgres → Type 0
Kept r p q =
    ((q.status.version ≡ p.status.version) ⊎ (q.status.version ≡ p.status.upgrade_version))
    × (r ≡ ok true → q.status.version ≡ p.status.upgrade_version)

abbrev pub version_of : PatroniPostgres → ℕ
version_of p = p.status.version

module _ (x : Context) where
  pub create_job-ne-done : (s : State x.client.World) → (PrimaryMove.create_job x s).0 ≢ ok true
  unfolding PrimaryMove.create_job
  create_job-ne-done s = ground arith

  version-cleanup :
      (job : Job) (s : State x.client.World)
      → (cleanup_job x job s).1.instance.status.version ≡ s.instance.status.version
  version-cleanup job s =
      ap (λ (p : PatroniPostgres). p.status.version) ((Leaves-cleanup_job x {f = λ p. p} job).at s)

  Kept-check_job :
      (job : Job) (s : State x.client.World)
      → Kept (PrimaryMove.check_job x job s).0 s.instance (PrimaryMove.check_job x job s).1.instance
  unfolding PrimaryMove.check_job
  Kept-check_job job s = elim (Bool-cases (has_succeeded job)) [
    | inl won ↦
        let e = version-cleanup job (record s { instance = take_version s.instance }) in
        rw won (ground (arith, e))
    | inr lost ↦ let e = version-cleanup job s in rw lost (ground (arith, e))
  ]

  abbrev branch : Option Job → Exec (State x.client.World) Bool
  branch o = elim o [ none ↦ PrimaryMove.create_job x | some job ↦ PrimaryMove.check_job x job ]

  Kept-branch :
      (r : Outcome (Option Job)) (s : State x.client.World)
      → Kept (continue r branch s).0 s.instance (continue r branch s).1.instance
  Kept-branch (err e) s = (inl refl, λ done. cc)
  Kept-branch panic s = (inl refl, λ done. cc)
  Kept-branch (ok none) s = (
    inl (
        ap (λ (p : PatroniPostgres). p.status.version)
          ((Leaves-move-create_job x {f = λ p. p}).at s)),
    λ done. absurd (create_job-ne-done s done),
  )
  Kept-branch (ok (some job)) s = Kept-check_job job s

  pub Kept-move :
      (s : State x.client.World)
      → Kept (PrimaryMove.handle x s).0 s.instance (PrimaryMove.handle x s).1.instance
  unfolding PrimaryMove.handle
  Kept-move s =
      let (r, t) = find x.client.jobs (job_key s.instance (PrimaryMove.jobname s.instance)) s in
      Kept-branch r t

  run_handler-version :
      (h : Handler) (s : State x.client.World)
      → ((run_handler x h s).1.instance.status.version ≡ s.instance.status.version)
        ⊎ ((h ≡ primary_upgrade_move)
            × ((run_handler x h s).1.instance.status.version ≡ s.instance.status.upgrade_version))
  unfolding run_handler
  run_handler-version primary_upgrade_move s = elim (Kept-move s).0 [
    | inl e ↦ inl e
    | inr e ↦ inr (refl, e)
  ]
  run_handler-version h s = inl (
      ap (λ (p : PatroniPostgres). p.status.version)
        ((Leaves-run_handler_version x h (λ e. cc)).at s))

  pub version-gone :
      (h : Handler) (p : PatroniPostgres) → (gone x h p).status.version ≡ p.status.version
  version-gone postupgrade p = refl
  version-gone _ p = refl

  pub upgrade_version-run_handler :
      (h : Handler) (s : State x.client.World)
      → (run_handler x h s).1.instance.status.upgrade_version ≡ s.instance.status.upgrade_version
  upgrade_version-run_handler h s =
      ap (λ (p : PatroniPostgres). p.status.upgrade_version) ((Leaves-run_handler x h).at s)

  gone-cases :
      (h : Handler) (p : PatroniPostgres)
      → ((h ≢ postupgrade) × ((gone x h p).status.upgrade_version ≡ p.status.upgrade_version))
        ⊎ ((h ≡ postupgrade) × (gone x h p ≡ end_upgrade p))
  gone-cases postupgrade p = inr (refl, refl)
  gone-cases h p = inl (λ e. cc, refl)

  -- A handler whose name is that of the last step is the last step.
  name-last : (h : Handler) → name h ≡ state_upgrade_postupgrade → h ≡ postupgrade
  unfolding name
  name-last postupgrade e = refl
  name-last h e = absurd (ground (arith, e, eq_iff (name h) state_upgrade_postupgrade))

  no_step-last : (state : String) → find_step state ≡ none → state ≢ state_upgrade_postupgrade
  unfolding name
  no_step-last state n e = ground (arith, n, ap find_step e, find_step-name postupgrade)

  -- The version that a call of `Handle` leaves is the old one, or, in the step that moves the data of
  -- the primary, the version that the upgrade aims at.
  pub handle-version :
      (s : State x.client.World)
      → let p = s.instance in
        let q = (handle x s).1.instance in
        (q.status.version ≡ p.status.version)
        ⊎ ((p.status.state ≡ state_upgrade_primary_move)
            × (q.status.version ≡ p.status.upgrade_version))
  unfolding name
  handle-version s = elim (step-cases x s.instance) [
    | inl e ↦ rw (handle_outside x s e) (inl refl)
    | inr (h, e) ↦ rw (handle_inside x h s e) (elim (run_step-cases x h s) [
      | inl (_, i, _) ↦ elim (run_handler-version h s) [
        | inl v ↦ inl (ap version_of i ∙ version-gone h (run_handler x h s).1.instance ∙ v)
        | inr (m, v) ↦
            inr (e ∙ ap name m, ap version_of i ∙ version-gone h (run_handler x h s).1.instance ∙ v)
      ]
      | inr (_, i, _) ↦ elim (run_handler-version h s) [
        | inl v ↦ inl (ap (λ (t : State x.client.World). t.instance.status.version) i ∙ v)
        | inr (m, v) ↦
            inr (e ∙ ap name m, ap (λ (t : State x.client.World). t.instance.status.version) i ∙ v)
      ]
    ])
  ]

  -- Once the move of the primary is done, and the state has gone on, the version is the target.
  pub move-version :
      (s : State x.client.World)
      → s.instance.status.state ≡ state_upgrade_primary_move
      → (handle x s).1.instance.status.state ≡ state_upgrade_postupgrade
      → (handle x s).1.instance.status.version ≡ s.instance.status.upgrade_version
  unfolding name
  move-version s e done =
      let stands : handle x s ≡ run_step x (step_of x primary_upgrade_move) s =
        handle_inside x primary_upgrade_move s e in
      elim (run_step-cases x primary_upgrade_move s) [
        | inl (r, i, _) ↦ rw stands (ap version_of i ∙ (unfold run_handler in (Kept-move s).1 r))
        | inr (_, i, _) ↦ absurd (
            ground (
              arith,
              eq_iff state_upgrade_primary_move state_upgrade_postupgrade,
              ap (λ (t : State x.client.World). t.instance.status.state) i,
              ap (λ (t : Outcome Bool × State x.client.World). t.1.instance.status.state) stands,
              run_handler-state x primary_upgrade_move s,
            ))
      ]

  -- A call of `Handle` keeps the target of the upgrade, unless the instance is in the last step and
  -- its handler is done: then the target is cleared, the state is ready, and the version is the one
  -- before the call.
  pub handle-upgrade_version :
      (s : State x.client.World)
      → let p = s.instance in
        let q = (handle x s).1.instance in
        ((¬ (
            (p.status.state ≡ state_upgrade_postupgrade)
            × ((run_handler x postupgrade s).0 ≡ ok true)))
          × (q.status.upgrade_version ≡ p.status.upgrade_version))
        ⊎ ((p.status.state ≡ state_upgrade_postupgrade)
            × ((run_handler x postupgrade s).0 ≡ ok true)
            × (q.status.state ≡ state_ready)
            × (q.status.upgrade_version ≡ 0)
            × (q.status.version ≡ p.status.version))
  unfolding name
  handle-upgrade_version s = elim (step-cases x s.instance) [
    | inl e ↦ rw (handle_outside x s e) (inl (λ d. no_step-last _ e d.0, refl))
    | inr (h, e) ↦ rw (handle_inside x h s e) (elim (run_step-cases x h s) [
      | inl (r, i, _) ↦ elim (gone-cases h (run_handler x h s).1.instance) [
        | inl (ne, u) ↦ inl (
          λ d. ne (name-last h (sym e ∙ d.0)),
          ap (λ (p : PatroniPostgres). p.status.upgrade_version) i
              ∙ u
              ∙ upgrade_version-run_handler h s,
        )
        | inr (m, g) ↦ inr (
          e ∙ ap name m,
          ap (λ (k : Handler). (run_handler x k s).0) (sym m) ∙ r,
          ap (λ (p : PatroniPostgres). p.status.state) (i ∙ g),
          ap (λ (p : PatroniPostgres). p.status.upgrade_version) (i ∙ g),
          ap version_of (i ∙ g)
              ∙ ap version_of ((Leaves-run_handler_version x h (λ n. ground arith)).at s),
        )
      ]
      | inr (ne, i, _) ↦ inl (
        λ d. ne (ap (λ (k : Handler). (run_handler x k s).0) (name-last h (sym e ∙ d.0)) ∙ d.1),
        ap (λ (t : State x.client.World). t.instance.status.upgrade_version) i
            ∙ upgrade_version-run_handler h s,
      )
    ])
  ]
