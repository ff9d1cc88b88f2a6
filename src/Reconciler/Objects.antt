-- ===== src/Reconciler/Objects.antt =====
-- What the loop over the reconcilers leaves of the instance, and that a state outside of an upgrade
-- stays outside of it.
use patroni_postgres_operato.Base.{◌≡◌, refl, none, [], Bool-cases, ◌==◌, length, inl, inr}
use patroni_postgres_operato.Exec.{Outcome, ok, err, panic, Exec, ◌>>=◌, continue, modify}
use patroni_postgres_operato.Kube.{StatefulSet}
use patroni_postgres_operato.Api.{PatroniPostgres, PatroniPostgresState}
use patroni_postgres_operato.Client.{State}
use patroni_postgres_operato.Client.Leaves.{Leaves, Leaves-bind}
use patroni_postgres_operato.Context.{Context}
use patroni_postgres_operato.Controllers.Statefulset as Statefulset
use patroni_postgres_operato.Controllers.Frame.{
  fixed, Leaves-view, Leaves-Pvc-reconcile, Leaves-Secret-reconcile, Leaves-Rbac-reconcile,
  Leaves-Service-reconcile, Leaves-reconcile_sts, Leaves-Statefulset-reconcile,
  Leaves-Networkpolicy-reconcile, Leaves-Pdb-reconcile,
}
use patroni_postgres_operato.Controllers.Configmap.Frame.{Leaves-reconcile}
use patroni_postgres_operato.Upgrade.Steps.{find_step}
use patroni_postgres_operato.Reconciler.{reconcile_objects}

state_of : PatroniPostgres → PatroniPostgresState
state_of p = p.status.state

-- An action after which the state is outside of an upgrade if it was so before.
pub record StaysOutside {W A : Type 0} (m : Exec (State W) A) : Type 0 where
  pub at :
      (s : State W)
      → find_step s.instance.status.state ≡ none
      → find_step (m s).1.instance.status.state ≡ none

module _ {W A : Type 0} where
  Leaves-StaysOutside : {m : Exec (State W) A} → Leaves (λ p. p.status.state) m → StaysOutside m
  Leaves-StaysOutside h = record { at = λ s e. rw (h.at s) e }

module _ {W A C : Type 0} where
  after_outside :
      (r : Outcome A) (k : A → Exec (State W) C)
      → ((a : A) → StaysOutside (k a))
      → (s : State W) → find_step s.instance.status.state ≡ none
      → find_step (continue r k s).1.instance.status.state ≡ none
  after_outside (ok a) k h s e = (h a).at s e
  after_outside (err _) k h s e = e
  after_outside panic k h s e = e

  StaysOutside-bind :
      {m : Exec (State W) A} {k : A → Exec (State W) C}
      → StaysOutside m
      → ((a : A) → StaysOutside (k a))
      → StaysOutside (m >>= k)
  unfolding ◌>>=◌
  StaysOutside-bind {m} {k} hm hk = record {
    at = λ s e. after_outside (m s).0 k hk (m s).1 (hm.at s e);
  }

module _ (x : Context) where
  scaled-outside :
      (sts : StatefulSet) (p : PatroniPostgres)
      → find_step (Statefulset.scaled x sts p).status.state ≡ none
  unfolding Statefulset.scaled find_step
  scaled-outside sts p = elim (Bool-cases (sts.ready_replicas == length p.spec.nodes)) [
    | inl e ↦ rw e refl
    | inr e ↦ rw e refl
  ]

  Statefulset-reconcile-StaysOutside : StaysOutside (Statefulset.reconcile x)
  unfolding Statefulset.reconcile modify
  Statefulset-reconcile-StaysOutside =
      StaysOutside-bind
        (Leaves-StaysOutside
          (Leaves-view (λ (p : PatroniPostgres). p.status.state) (Leaves-reconcile_sts x [])))
        λ sts. record { at = λ s _. scaled-outside sts s.instance }

  pub reconcile_objects-StaysOutside : StaysOutside (reconcile_objects x)
  unfolding reconcile_objects
  reconcile_objects-StaysOutside =
      StaysOutside-bind
        (Leaves-StaysOutside
          (Leaves-Pvc-reconcile x.client (λ (p : PatroniPostgres). p.status.state) (λ vs p. refl)))
        λ _. StaysOutside-bind (Leaves-StaysOutside (Leaves-Secret-reconcile x.client)) λ _.
          StaysOutside-bind (Leaves-StaysOutside (Leaves-reconcile x.client)) λ _.
            StaysOutside-bind (Leaves-StaysOutside (Leaves-Rbac-reconcile x.client)) λ _.
              StaysOutside-bind (Leaves-StaysOutside (Leaves-Service-reconcile x.client)) λ _.
                StaysOutside-bind Statefulset-reconcile-StaysOutside λ _.
                  StaysOutside-bind (Leaves-StaysOutside (Leaves-Networkpolicy-reconcile x.client))
                    λ _. Leaves-StaysOutside (Leaves-Pdb-reconcile x.client)

  pub Leaves-reconcile_objects : Leaves fixed (reconcile_objects x)
  unfolding reconcile_objects
  Leaves-reconcile_objects =
      Leaves-bind _ _ (Leaves-Pvc-reconcile x.client fixed (λ vs p. refl)) λ _.
        Leaves-bind _ _ (Leaves-Secret-reconcile x.client) λ _.
          Leaves-bind _ _ (Leaves-reconcile x.client) λ _.
            Leaves-bind _ _ (Leaves-Rbac-reconcile x.client) λ _.
              Leaves-bind _ _ (Leaves-Service-reconcile x.client) λ _.
                Leaves-bind _ _ (Leaves-Statefulset-reconcile x) λ _.
                  Leaves-bind _ _ (Leaves-Networkpolicy-reconcile x.client)
                    λ _. Leaves-Pdb-reconcile x.client
