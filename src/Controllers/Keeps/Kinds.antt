-- ===== src/Controllers/Keeps/Kinds.antt =====
-- What the reconcilers of the managed kinds leave as it is: the objects of the other kinds.
use patroni_postgres_operato.Base.{String, List, [], ◌∷◌}
use patroni_postgres_operato.Client.{Client}
use patroni_postgres_operato.Client.Stores.{View}
use patroni_postgres_operato.Client.Stores.Keeps.{Keeps, Apart, Keeps-pure, Keeps-bind}
use patroni_postgres_operato.Controllers.Keeps.{Keeps-ensure, Keeps-adopt}
use patroni_postgres_operato.Controllers.Rbac as Rbac
use patroni_postgres_operato.Controllers.Rbac.{service_account_name}
use patroni_postgres_operato.Controllers.Service as Service
use patroni_postgres_operato.Controllers.Networkpolicy as Networkpolicy
use patroni_postgres_operato.Controllers.Pdb as Pdb
use patroni_postgres_operato.Controllers.Configmap as Configmap
use patroni_postgres_operato.Controllers.Service.Ensured.{main, headless, reconcile-ensure}
use patroni_postgres_operato.Controllers.Adopted.{
  account, account-adopt, config_map, cm_name, cm-adopt,
}
use patroni_postgres_operato.Controllers.Ensured.{
  budget, pdb-ensure, policy, policy-ensure, role, role-ensure, binding, binding-ensure,
}

module _ (c : Client) {B : Type 0} (view : View c.World B) where
  pub Keeps-Pdb : Apart view c.pdbs → Keeps view (Pdb.reconcile c)
  Keeps-Pdb a = rw (pdb-ensure c) (Keeps-ensure c view c.pdbs a budget)

  pub Keeps-Networkpolicy : Apart view c.network_policies → Keeps view (Networkpolicy.reconcile c)
  Keeps-Networkpolicy a = rw (policy-ensure c) (Keeps-ensure c view c.network_policies a policy)

  pub Keeps-role : Apart view c.roles → Keeps view (Rbac.reconcile_role c)
  Keeps-role a = rw (role-ensure c) (Keeps-ensure c view c.roles a role)

  pub Keeps-binding : Apart view c.role_bindings → Keeps view (Rbac.reconcile_role_binding c)
  Keeps-binding a = rw (binding-ensure c) (Keeps-ensure c view c.role_bindings a binding)

  pub Keeps-account : Apart view c.service_accounts → Keeps view (Rbac.reconcile_service_account c)
  Keeps-account a =
      rw (account-adopt c) (Keeps-adopt c view c.service_accounts a account service_account_name)

  pub Keeps-Rbac :
      Apart view c.service_accounts
      → Apart view c.roles
      → Apart view c.role_bindings
      → Keeps view (Rbac.reconcile c)
  unfolding Rbac.reconcile
  Keeps-Rbac a r b =
      Keeps-bind _ _ (Keeps-account a) (λ _. Keeps-bind _ _ (Keeps-role r) (λ _. Keeps-binding b))

  pub Keeps-Service : Apart view c.services → Keeps view (Service.reconcile c)
  Keeps-Service a = rw (reconcile-ensure c) (
      Keeps-bind _ _ (Keeps-ensure c view c.services a main)
        (λ _. Keeps-ensure c view c.services a headless))

  Keeps-reconcile_all :
      Apart view c.configmaps → (names : List String) → Keeps view (Configmap.reconcile_all c names)
  unfolding Configmap.reconcile_all
  Keeps-reconcile_all a [] = Keeps-pure tt
  Keeps-reconcile_all a (n ∷ ns) =
      Keeps-bind _ _ (rw (cm-adopt c n) (Keeps-adopt c view c.configmaps a config_map (cm_name n)))
        (λ _. Keeps-reconcile_all a ns)

  pub Keeps-Configmap : Apart view c.configmaps → Keeps view (Configmap.reconcile c)
  unfolding Configmap.reconcile
  Keeps-Configmap a = Keeps-reconcile_all a ("config" ∷ "leader" ∷ "sync" ∷ "failover" ∷ [])
