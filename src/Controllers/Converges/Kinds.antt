-- ===== src/Controllers/Converges/Kinds.antt =====
-- Which reconcilers bring the objects of which kind to rest.
use patroni_postgres_operato.Base.{refl, sym}
use patroni_postgres_operato.Kube.{
  PodTemplate, StatefulSet, Service, ServiceAccount, Role, RoleBinding, NetworkPolicy,
  PodDisruptionBudget,
}
use patroni_postgres_operato.Client.{Client}
use patroni_postgres_operato.Client.Stores.{View, Stores, Owns, AsSent}
use patroni_postgres_operato.Context.{Context}
use patroni_postgres_operato.Controllers.Statefulset as Statefulset
use patroni_postgres_operato.Controllers.Statefulset.Ensured as StatefulsetEnsured
use patroni_postgres_operato.Controllers.Statefulset.Ensured.{sts_meta, SpecKept, stateful_set}
use patroni_postgres_operato.Controllers.Pdb as Pdb
use patroni_postgres_operato.Controllers.Networkpolicy as Networkpolicy
use patroni_postgres_operato.Controllers.Rbac as Rbac
use patroni_postgres_operato.Controllers.Rbac.{service_account_name}
use patroni_postgres_operato.Controllers.Service as Service
use patroni_postgres_operato.Controllers.Service.Ensured.{
  service_meta, Assigned, main, headless, headless-ne, reconcile-ensure,
}
use patroni_postgres_operato.Controllers.Adopted.{account_meta, account, account-adopt}
use patroni_postgres_operato.Controllers.Ensure.{ensure}
use patroni_postgres_operato.Controllers.Ensured.{
  pdb_meta, budget, pdb-ensure, policy_meta, policy, policy-ensure, role_meta, role, role-ensure,
  binding_meta, binding, binding-ensure,
}
use patroni_postgres_operato.Controllers.Converges.{
  Converges, Converges-both, Converges-as, Converges-alike,
}
use patroni_postgres_operato.Controllers.Converges.Rules.{
  LeavesDesired-ensure, Converges-ensure, Converges-adopt, Settled-stays,
}

module _ (c : Client) (owns : Owns c.set_owner_reference) where
  unfoldable pub Converges-pdb :
      (view : View c.World PodDisruptionBudget)
      → Stores pdb_meta AsSent view c.pdbs
      → Converges view (Pdb.reconcile c)
  unfolding Converges-as Converges-ensure
  Converges-pdb view stores =
      Converges-as _ _ (sym (pdb-ensure c)) (Converges-ensure c c.pdbs view stores owns budget)

  unfoldable pub Converges-policy :
      (view : View c.World NetworkPolicy)
      → Stores policy_meta AsSent view c.network_policies
      → Converges view (Networkpolicy.reconcile c)
  unfolding Converges-as Converges-ensure
  Converges-policy view stores =
      Converges-as _ _ (sym (policy-ensure c))
        (Converges-ensure c c.network_policies view stores owns policy)

  unfoldable pub Converges-role :
      (view : View c.World Role)
      → Stores role_meta AsSent view c.roles
      → Converges view (Rbac.reconcile_role c)
  unfolding Converges-as Converges-ensure
  Converges-role view stores =
      Converges-as _ _ (sym (role-ensure c)) (Converges-ensure c c.roles view stores owns role)

  unfoldable pub Converges-binding :
      (view : View c.World RoleBinding)
      → Stores binding_meta AsSent view c.role_bindings
      → Converges view (Rbac.reconcile_role_binding c)
  unfolding Converges-as Converges-ensure
  Converges-binding view stores =
      Converges-as _ _ (sym (binding-ensure c))
        (Converges-ensure c c.role_bindings view stores owns binding)

  unfoldable pub Converges-account :
      (view : View c.World ServiceAccount)
      → Stores account_meta AsSent view c.service_accounts
      → Converges view (Rbac.reconcile_service_account c)
  unfolding service_account_name Converges-as Converges-adopt
  Converges-account view stores = Converges-as _ _ (sym (account-adopt c)) (
      Converges-adopt c c.service_accounts view stores owns account service_account_name
        (λ p st. refl))

  unfoldable pub Converges-service :
      (view : View c.World Service)
      → Stores service_meta Assigned view c.services
      → Converges view (Service.reconcile c)
  unfolding Converges-as Converges-ensure Converges-both
  Converges-service view stores =
      let first = Converges-ensure c c.services view stores owns main in
      let second = Converges-ensure c c.services view stores owns headless in
      Converges-as _ _ (sym (reconcile-ensure c)) (
        Converges-both (ensure c c.services main) (ensure c c.services headless) first second
          (LeavesDesired-ensure c c.services main)
          (λ s d h.
            Settled-stays c c.services view stores owns main headless s (headless-ne s.instance) d
              h))

module _ (x : Context) (owns : Owns x.client.set_owner_reference) where
  unfoldable pub Converges-set :
      (defaults : PodTemplate → PodTemplate) (view : View x.client.World StatefulSet)
      → Stores sts_meta (SpecKept defaults) view x.client.statefulsets
      → Converges view (Statefulset.reconcile x)
  unfolding Converges-alike Converges-ensure
  Converges-set defaults view stores =
      Converges-alike _ _ (StatefulsetEnsured.reconcile-ensure defaults x) (
        Converges-ensure x.client x.client.statefulsets view stores owns
          (stateful_set defaults x.client.json x.im))
