-- ===== src/Reconciler/Start.antt =====
-- When an upgrade starts, and what a run does with the instance otherwise.
use patroni_postgres_operato.Base.{
  ◌≡◌, refl, ◌≢◌, ◌⊎◌, inl, inr, ap, ℕ, Bool, true, arith, eq_iff, Bool-cases, contains,
}
use patroni_postgres_operato.Exec.{Outcome, ok, err, panic, ◌>>=◌, ◌>>◌, continue, modify, pure}
use patroni_postgres_operato.Api.{PatroniPostgres, state_ready}
use patroni_postgres_operato.Client.{State}
use patroni_postgres_operato.Client.Leaves.{Leaves-bind, Leaves-request, Leaves-pure}
use patroni_postgres_operato.Context.{Context}
use patroni_postgres_operato.Controllers.Frame.{fixed}
use patroni_postgres_operato.Controllers.Configmap.{get_sync_leader}
use patroni_postgres_operato.Controllers.Configmap.Frame.{Leaves-get_sync_leader}
use patroni_postgres_operato.Upgrade.Steps.{handle}
use patroni_postgres_operato.Reconciler.{
  set_upgrade_version, reconcile_objects, start_upgrade, wants_upgrade, body, deferred, run,
}
use patroni_postgres_operato.Reconciler.Objects.{Leaves-reconcile_objects}

-- The instance after an upgrade to `v` was started, or not: it is the same but for the target.
abbrev pub Started : PatroniPostgres → PatroniPostgres → Type 0
Started p q =
    (q ≡ p)
    ⊎ ((contains p.status.upgrade_versions p.spec.version ≡ true)
        × (q ≡ set_upgrade_version p.spec.version p))

module _ (x : Context) where
  start_after :
      (r : Outcome ℕ) (p : PatroniPostgres) (s : State x.client.World)
      → s.instance ≡ p
      → let q =
          (continue r
            (λ _.
              modify (λ s. record s { instance = set_upgrade_version p.spec.version s.instance })
              >> pure true)
            s).1.instance in
        (q ≡ p) ⊎ (q ≡ set_upgrade_version p.spec.version p)
  unfolding ◌>>=◌ modify
  start_after (ok l) p s e = inr (ap (set_upgrade_version p.spec.version) e)
  start_after (err _) p s e = inl e
  start_after panic p s e = inl e

  pub start_upgrade-Started :
      (s : State x.client.World) → Started s.instance (start_upgrade x s).1.instance
  unfolding start_upgrade
  start_upgrade-Started s =
      elim (Bool-cases (contains s.instance.status.upgrade_versions s.instance.spec.version)) [
        | inl c ↦
            rw c
              (elim (start_after (get_sync_leader x.client s).0 s.instance
                (get_sync_leader x.client s).1
                ((Leaves-get_sync_leader x.client {f = λ p. p}).at s)) [
                  | inl e ↦ inl e
                  | inr e ↦ inr (refl, e)
                ])
        | inr c ↦ rw c (inl refl)
      ]

  -- What a run may do with the instance when it has no target.
  pub body_without_target :
      (s : State x.client.World)
      → s.instance.status.upgrade_version ≡ 0
      → (wants_upgrade s.instance ≡ true × body x s ≡ start_upgrade x s)
        ⊎ ((body x s).1 ≡ (reconcile_objects x s).1)
  unfolding body
  body_without_target s z = elim (Bool-cases (wants_upgrade s.instance)) [
    | inl w ↦ ground (arith, w, z)
    | inr w ↦ inr (ground (arith, w, z))
  ]

  pub body_with_target :
      (s : State x.client.World) → s.instance.status.upgrade_version ≢ 0 → body x s ≡ handle x s
  unfolding body
  body_with_target s ne = ground arith

  pub wants_upgrade_sound :
      (p : PatroniPostgres)
      → wants_upgrade p ≡ true
      → (p.status.state ≡ state_ready) × (p.status.version ≢ p.spec.version)
  unfolding wants_upgrade
  wants_upgrade_sound p h = ground (arith, eq_iff p.status.state state_ready)

  deferred-instance :
      (r : Outcome Bool) (s : State x.client.World) → (deferred x r s).1.instance ≡ s.instance
  unfolding deferred
  deferred-instance (ok requeue) s =
      (Leaves-bind {f = λ (p : PatroniPostgres). p} _ _
          (Leaves-request (x.client.update_status s.instance)) (λ _. Leaves-pure requeue)).at
        s
  deferred-instance (err e) s = refl
  deferred-instance panic s = refl

  pub run-instance : (s : State x.client.World) → (run x s).1.instance ≡ (body x s).1.instance
  unfolding run
  run-instance s = deferred-instance (body x s).0 (body x s).1

  -- A run for an instance without a target keeps the name, the spec and the version. A target that it
  -- sets is the version of the spec, from the state ready, when it is another one than the version
  -- and among the offered ones.
  pub run-target :
      (s : State x.client.World)
      → s.instance.status.upgrade_version ≡ 0
      → let p = s.instance in
        let q = (run x s).1.instance in
        (fixed q ≡ fixed p)
        ⊎ ((p.status.state ≡ state_ready)
            × (p.status.version ≢ p.spec.version)
            × (contains p.status.upgrade_versions p.spec.version ≡ true)
            × (q ≡ set_upgrade_version p.spec.version p))
  run-target s z = rw (run-instance s) (elim (body_without_target s z) [
    | inr b ↦ rw b (inl ((Leaves-reconcile_objects x).at s))
    | inl (w, b) ↦ rw b (elim (start_upgrade-Started s) [
      | inl e ↦ inl (ap fixed e)
      | inr (c, e) ↦ let (r, ne) = wants_upgrade_sound s.instance w in inr (r, ne, c, e)
    ])
  ])
