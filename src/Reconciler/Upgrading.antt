-- ===== src/Reconciler/Upgrading.antt =====
-- An upgrade as the runs of `Reconcile` see it, from the choice of the target to its end.
use patroni_postgres_operato.Base.{
  ◌≡◌, ◌≢◌, refl, sym, ap, ◌∙◌, inl, inr, ℕ, suc, Bool, true, false, Option, none, some, arith,
  Bool-cases, contains,
}
use patroni_postgres_operato.Exec.{ok, pure, modify, ◌>>=◌, ◌>>◌}
use patroni_postgres_operato.Api.{PatroniPostgres, PatroniPostgresStatus, state_ready}
use patroni_postgres_operato.Client.{State}
use patroni_postgres_operato.Context.{Context}
use patroni_postgres_operato.Image.{Image}
use patroni_postgres_operato.Upgrade.Steps.{
  Handler, preupgrade, preupgrade_scaledown, preupgrade_sync, scaledown, primary_upgrade,
  secondary_upgrade, primary_upgrade_move, postupgrade, name, find_step, handle,
}
use patroni_postgres_operato.Upgrade.Order.{successor}
use patroni_postgres_operato.Upgrade.Transitions.{handle_outside}
use patroni_postgres_operato.Upgrade.Progress.{
  StageOf, left, left-successor, Stage-handle, Stage-waits,
}
use patroni_postgres_operato.Reconciler.{
  run, body, wants_upgrade, set_upgrade_version, start_upgrade, reconcile_objects,
}
use patroni_postgres_operato.Controllers.Configmap.{get_sync_leader}
use patroni_postgres_operato.Controllers.Configmap.Frame.{Leaves-get_sync_leader}
use patroni_postgres_operato.Exec.Inversion.{bind-ok}
use patroni_postgres_operato.Reconciler.Start.{body_with_target, run-instance, wants_upgrade_sound}
use patroni_postgres_operato.Reconciler.Write.{run-ok}

-- Runs, one after the other, of which so many ask for a requeue, the last one among them. Each runs
-- in a context of its own, since the image follows the version, and in a world that may have changed;
-- the status is what the run before has written. Between them the spec may be edited, and there may
-- be runs that wait, or that fail before anything is written.
pub data Runs (x : Context) : ℕ → State x.client.World → State x.client.World → Type 0 where
  here : {s : State x.client.World} → Runs x 0 s s
  done :
      {n : ℕ} {s t u : State x.client.World} (im : Image)
      → (run (record x { im = im }) s).0 ≡ ok true
      → t.instance.status ≡ (run (record x { im = im }) s).1.instance.status
      → Runs x n t u
      → Runs x (suc n) s u
  waits :
      {n : ℕ} {s t u : State x.client.World} (im : Image)
      → (run (record x { im = im }) s).0 ≡ ok false
      → t.instance.status ≡ (run (record x { im = im }) s).1.instance.status
      → Runs x (suc n) t u
      → Runs x (suc n) s u
  idle :
      {n : ℕ} {s t u : State x.client.World}
      → t.instance.status ≡ s.instance.status
      → Runs x (suc n) t u
      → Runs x (suc n) s u

-- The target is chosen, but no step has begun; or the upgrade stands at a step, or at its end.
data Phase : Type 0 where
  chosen : Phase
  inside : Option Handler → Phase

abbrev At : ℕ → Phase → PatroniPostgresStatus → Type 0
At v chosen st = (st.state ≡ state_ready) × (st.upgrade_version ≡ v)
At v (inside o) st = StageOf v o st

abbrev turns : Phase → ℕ
turns chosen = 9
turns (inside o) = left o

-- What a run that asks for a requeue does to the phase.
abbrev after : Phase → Phase
after chosen = inside (some preupgrade)
after (inside none) = inside none
after (inside (some h)) = inside (successor h)

Stage-target :
    (v : ℕ) (h : Handler) (st : PatroniPostgresStatus)
    → StageOf v (some h) st
    → st.upgrade_version ≡ v
Stage-target v postupgrade st (_, u, _) = u
Stage-target v preupgrade st (_, u) = u
Stage-target v preupgrade_scaledown st (_, u) = u
Stage-target v preupgrade_sync st (_, u) = u
Stage-target v scaledown st (_, u) = u
Stage-target v primary_upgrade st (_, u) = u
Stage-target v secondary_upgrade st (_, u) = u
Stage-target v primary_upgrade_move st (_, u) = u

module _ (x : Context) (v : ℕ) (v-target : v ≢ 0) where
  -- A run with a target is a call of `Handle`.
  run-handle :
      (s : State x.client.World) (requeue : Bool)
      → s.instance.status.upgrade_version ≡ v
      → (run x s).0 ≡ ok requeue
      → ((handle x s).0 ≡ ok requeue) × ((run x s).1.instance ≡ (handle x s).1.instance)
  run-handle s requeue u h =
      let e = body_with_target x s (λ z. v-target (sym u ∙ z)) in
      (
        sym (ap (λ r. r.0) e) ∙ (run-ok x s requeue h).0,
        run-instance x s ∙ ap (λ r. r.1.instance) e,
      )

  chosen-outside : find_step state_ready ≡ none
  unfolding find_step
  chosen-outside = refl

  enters :
      (s : State x.client.World)
      → At v chosen s.instance.status
      → ((handle x s).0 ≡ ok true) × At v (inside (some preupgrade)) (handle x s).1.instance.status
  unfolding name
  enters s (e, u) =
      let o = handle_outside x s (ap find_step e ∙ chosen-outside) in
      (
        ap (λ r. r.0) o,
        (
          ap (λ r. r.1.instance.status.state) o,
          ap (λ r. r.1.instance.status.upgrade_version) o ∙ u,
        ),
      )

  run-done :
      (ph : Phase) (s : State x.client.World)
      → ph ≢ inside none
      → At v ph s.instance.status
      → (run x s).0 ≡ ok true
      → At v (after ph) (run x s).1.instance.status
  run-done chosen s ne p h = rw (run-handle s true p.1 h).1 (enters s p).1
  run-done (inside none) s ne p h = absurd (ne refl)
  run-done (inside (some g)) s ne p h =
      let (r, i) = run-handle s true (Stage-target v g s.instance.status p) h in
      rw i (Stage-handle x v g s p r)

  run-waits :
      (ph : Phase) (s : State x.client.World)
      → ph ≢ inside none
      → At v ph s.instance.status
      → (run x s).0 ≡ ok false
      → At v ph (run x s).1.instance.status
  run-waits chosen s ne p h = absurd (ground (arith, (run-handle s false p.1 h).0, (enters s p).0))
  run-waits (inside none) s ne p h = absurd (ne refl)
  run-waits (inside (some g)) s ne p h =
      let (r, i) = run-handle s false (Stage-target v g s.instance.status p) h in
      rw i (Stage-waits x v g s p r)

turns-after : (ph : Phase) (n : ℕ) → suc n ≡ turns ph → (ph ≢ inside none) × (n ≡ turns (after ph))
unfolding left
turns-after chosen n e = (λ f. cc, ground (arith, e))
turns-after (inside none) n e = absurd (ground (arith, e))
turns-after (inside (some h)) n e = (λ f. cc, ground (arith, e, left-successor h))

module _ (x : Context) (v : ℕ) (v-target : v ≢ 0) where
  climbs :
      {n : ℕ} {s t : State x.client.World} (ph : Phase)
      → Runs x n s t
      → n ≡ turns ph
      → At v ph s.instance.status
      → StageOf v none t.instance.status
  unfolding left
  climbs (inside none) here e p = p
  climbs chosen here e p = absurd (ground (arith, e))
  climbs (inside (some h)) here e p = absurd (ground (arith, e, left-successor h))
  climbs ph (done {n} {s} {t} im r i d) e p =
      let (ne, m) = turns-after ph n e in
      climbs (after ph) d m (rw i (run-done (record x { im = im }) v v-target ph s ne p r))
  climbs ph (waits {n} {s} {t} im r i d) e p =
      let (ne, _) = turns-after ph n e in
      climbs ph d e (rw i (run-waits (record x { im = im }) v v-target ph s ne p r))
  climbs ph (idle {n} {s} {t} i d) e p = climbs ph d e (rw i p)

module _ (x : Context) where
  start_ok :
      (s : State x.client.World)
      → (start_upgrade x s).0 ≡ ok true
      → (start_upgrade x s).1.instance ≡ set_upgrade_version s.instance.spec.version s.instance
  unfolding start_upgrade modify pure
  start_ok s h =
      elim (Bool-cases (contains s.instance.status.upgrade_versions s.instance.spec.version)) [
        | inr c ↦ absurd (ground (arith, h, c))
        | inl c ↦
            let p = s.instance in
            let rest = λ (l : ℕ).
              modify (λ (t : State x.client.World). record t {
                instance = set_upgrade_version p.spec.version t.instance;
              })
              >> pure true in
            let e : start_upgrade x s ≡ (get_sync_leader x.client >>= rest) s = ground (arith, c) in
            let (_, _, f) =
              bind-ok (get_sync_leader x.client) rest s true (sym (ap (λ r. r.0) e) ∙ h) in
            ap (λ r. r.1.instance) (e ∙ f)
            ∙ ap (set_upgrade_version p.spec.version)
                ((Leaves-get_sync_leader x.client {f = λ (q : PatroniPostgres). q}).at s)
      ]

  -- A run without a target that asks for a requeue has chosen the version of the spec.
  begins :
      (s : State x.client.World)
      → s.instance.status.upgrade_version ≡ 0
      → (run x s).0 ≡ ok true
      → At s.instance.spec.version chosen (run x s).1.instance.status
  unfolding body set_upgrade_version
  begins s z h = elim (Bool-cases (wants_upgrade s.instance)) [
    | inl w ↦
        let b : body x s ≡ start_upgrade x s = ground (arith, z, w) in
        let i =
          run-instance x s
          ∙ ap (λ r. r.1.instance) b
          ∙ start_ok s (sym (ap (λ r. r.0) b) ∙ (run-ok x s true h).0) in
        rw i ((wants_upgrade_sound x s.instance w).0, refl)
    | inr w ↦
        let b : body x s ≡ (reconcile_objects x >>= λ _. pure false) s = ground (arith, z, w) in
        let (_, _, f) =
          bind-ok (reconcile_objects x) (λ _. pure false) s true
            (sym (ap (λ r. r.0) b) ∙ (run-ok x s true h).0) in
        absurd (ground (arith, (run-ok x s true h).0, ap (λ r. r.0) (b ∙ f)))
  ]

  -- When a run for an instance without a target asks for a requeue, and nine more runs do so, with any
  -- edits of the spec, changes of the cluster, waiting runs and runs that fail before they write
  -- between them, then the instance is ready, has no target, and has the version that its spec had
  -- at the first run. That version must not be 0, which stands for no target.
  pub run-upgrades :
      (s t u : State x.client.World)
      → s.instance.spec.version ≢ 0
      → s.instance.status.upgrade_version ≡ 0
      → (run x s).0 ≡ ok true
      → t.instance.status ≡ (run x s).1.instance.status
      → Runs x 9 t u
      → (u.instance.status.state ≡ state_ready)
        × (u.instance.status.upgrade_version ≡ 0)
        × (u.instance.status.version ≡ s.instance.spec.version)
  run-upgrades s t u ne z h i d =
      climbs x s.instance.spec.version ne chosen d refl (rw i (begins s z h))
