-- ===== src/Reconciler/Rest.antt =====
-- The loop over the reconcilers brings the objects of the managed kinds to rest.
use patroni_postgres_operato.Api.{desired}
use patroni_postgres_operato.Base.{◌≡◌, refl, false, ◌==◌, arith, []}
use patroni_postgres_operato.Exec.{Exec, ◌>>◌}
use patroni_postgres_operato.Client.{Client, State}
use patroni_postgres_operato.Client.Leaves.{Leaves-bind}
use patroni_postgres_operato.Client.Stores.Keeps.{Keeps, Keeps-bind}
use patroni_postgres_operato.Context.{Context}
use patroni_postgres_operato.Controllers.Frame.{
  Leaves-view, Leaves-modify, Leaves-reconcile_sts, Leaves-Pvc-reconcile, Leaves-Secret-reconcile,
  Leaves-Rbac-reconcile, Leaves-Service-reconcile, Leaves-Networkpolicy-reconcile,
  Leaves-reconcile_service_account, Leaves-reconcile_role,
}
use patroni_postgres_operato.Controllers.Configmap.Frame.{Leaves-reconcile}
use patroni_postgres_operato.Controllers.Statefulset as Statefulset
use patroni_postgres_operato.Controllers.Pvc as Pvc
use patroni_postgres_operato.Controllers.Secret as Secret
use patroni_postgres_operato.Controllers.Configmap as Configmap
use patroni_postgres_operato.Controllers.Rbac as Rbac
use patroni_postgres_operato.Controllers.Service as Service
use patroni_postgres_operato.Controllers.Networkpolicy as Networkpolicy
use patroni_postgres_operato.Controllers.Pdb as Pdb
use patroni_postgres_operato.Controllers.Keeps.{Keeps-Pvc, Keeps-Secret, Keeps-Statefulset}
use patroni_postgres_operato.Controllers.Keeps.Kinds.{
  Keeps-Pdb, Keeps-Networkpolicy, Keeps-account, Keeps-role, Keeps-binding, Keeps-Rbac,
  Keeps-Service, Keeps-Configmap,
}
use patroni_postgres_operato.Controllers.Converges.{
  Converges, LeavesDesired, Converges-before, Converges-after,
}
use patroni_postgres_operato.Controllers.Converges.Kinds.{
  Converges-pdb, Converges-policy, Converges-role, Converges-binding, Converges-account,
  Converges-service, Converges-set,
}
use patroni_postgres_operato.Controllers.Converges.Configmap.{Converges-Configmap}
use patroni_postgres_operato.Controllers.Cluster.{
  Managed, configmaps, accounts, roles, bindings, services, policies, pdbs, stateful_sets,
  IsCluster, rank,
}
use patroni_postgres_operato.Reconciler.{reconcile_objects}

module _ (x : Context) where
  pub LeavesDesired-Statefulset : LeavesDesired (Statefulset.reconcile x)
  unfolding Statefulset.reconcile Statefulset.scaled
  LeavesDesired-Statefulset st =
      Leaves-bind _ _ (Leaves-view (desired st) (Leaves-reconcile_sts x []))
        (λ sts. Leaves-modify (desired st) (Statefulset.scaled x sts) (λ p. ground arith))

  pub LeavesDesired-Pvc : LeavesDesired (Pvc.reconcile x.client)
  LeavesDesired-Pvc st = Leaves-Pvc-reconcile x.client (desired st) (λ vs p. refl)

  module _ (cl : IsCluster x.client) where
    abbrev c : Client
    c = x.client

    unfoldable pub Converges-Rbac-account : Converges (cl.view accounts) (Rbac.reconcile c)
    unfolding Rbac.reconcile
    Converges-Rbac-account =
        Converges-before _ _ (Converges-account c cl.owns _ (cl.stores accounts)) (
          Keeps-bind _ _ (Keeps-role c _ (cl.apart accounts roles refl))
            (λ _. Keeps-binding c _ (cl.apart accounts bindings refl)))

    unfoldable pub Converges-Rbac-role : Converges (cl.view roles) (Rbac.reconcile c)
    unfolding Rbac.reconcile
    Converges-Rbac-role =
        Converges-after _ _ (Keeps-account c _ (cl.apart roles accounts refl))
          (λ st. Leaves-reconcile_service_account c)
          (Converges-before _ _ (Converges-role c cl.owns _ (cl.stores roles))
            (Keeps-binding c _ (cl.apart roles bindings refl)))

    unfoldable pub Converges-Rbac-binding : Converges (cl.view bindings) (Rbac.reconcile c)
    unfolding Rbac.reconcile
    Converges-Rbac-binding =
        Converges-after _ _ (Keeps-account c _ (cl.apart bindings accounts refl))
          (λ st. Leaves-reconcile_service_account c)
          (Converges-after _ _ (Keeps-role c _ (cl.apart bindings roles refl))
            (λ st. Leaves-reconcile_role c) (Converges-binding c cl.owns _ (cl.stores bindings)))

    module _ (m : Managed) where
      abbrev Away : Managed → Type 0
      Away n = (rank m == rank n) ≡ false

      -- What is left of the loop leaves the objects of the kind, from the policy, the stateful set, the
      -- services and the role on.
      pub from_policy :
          Away policies
          → Away pdbs
          → Keeps (cl.view m) (Networkpolicy.reconcile c >> Pdb.reconcile c)
      from_policy p d =
          Keeps-bind _ _ (Keeps-Networkpolicy c _ (cl.apart m policies p))
            (λ _. Keeps-Pdb c _ (cl.apart m pdbs d))

      pub from_set :
          Away stateful_sets
          → Away policies
          → Away pdbs
          → Keeps
              (cl.view m)
              (Statefulset.reconcile x >> (Networkpolicy.reconcile c >> Pdb.reconcile c))
      from_set a p d =
          Keeps-bind _ _ (Keeps-Statefulset x _ (cl.apart m stateful_sets a)) (λ _. from_policy p d)

      pub Keeps-rbac :
          Away accounts → Away roles → Away bindings → Keeps (cl.view m) (Rbac.reconcile c)
      Keeps-rbac a r b =
          Keeps-Rbac c _ (cl.apart m accounts a) (cl.apart m roles r) (cl.apart m bindings b)

      pub Keeps-maps : Away configmaps → Keeps (cl.view m) (Configmap.reconcile c)
      Keeps-maps a = Keeps-Configmap c _ (cl.apart m configmaps a)

      unfoldable pub after_secret :
          (n : Exec (State c.World) (Unit {0}))
          → Converges (cl.view m) n
          → Converges (cl.view m) (Pvc.reconcile c >> (Secret.reconcile c >> n))
      after_secret n d = Converges-after _ _ (Keeps-Pvc c _ (cl.claims m)) LeavesDesired-Pvc (
          Converges-after _ _ (Keeps-Secret c _ (cl.secrets m)) (λ st. Leaves-Secret-reconcile c) d)

      unfoldable pub after_maps :
          Away configmaps
          → (n : Exec (State c.World) (Unit {0})) → Converges (cl.view m) n
          → Converges (cl.view m) (Configmap.reconcile c >> n)
      after_maps a n d = Converges-after _ _ (Keeps-maps a) (λ st. Leaves-reconcile c) d

      unfoldable pub after_rbac :
          Away accounts
          → Away roles
          → Away bindings
          → (n : Exec (State c.World) (Unit {0})) → Converges (cl.view m) n
          → Converges (cl.view m) (Rbac.reconcile c >> n)
      after_rbac a r b n d =
          Converges-after _ _ (Keeps-rbac a r b) (λ st. Leaves-Rbac-reconcile c) d

      unfoldable pub after_service :
          Away services
          → Away stateful_sets
          → (n : Exec (State c.World) (Unit {0})) → Converges (cl.view m) n
          → Converges (cl.view m) (Service.reconcile c >> (Statefulset.reconcile x >> n))
      after_service e a n d =
          Converges-after _ _ (Keeps-Service c _ (cl.apart m services e))
            (λ st. Leaves-Service-reconcile c)
            (Converges-after _ _ (Keeps-Statefulset x _ (cl.apart m stateful_sets a))
              LeavesDesired-Statefulset d)

      unfoldable pub in_rbac :
          Away configmaps
          → Away services
          → Away stateful_sets
          → Away policies
          → Away pdbs
          → Converges (cl.view m) (Rbac.reconcile c)
          → Converges (cl.view m) (reconcile_objects x)
      unfolding reconcile_objects
      in_rbac a s e p d r = after_secret _ (
          after_maps a _ (
            Converges-before _ _ r
              (Keeps-bind _ _ (Keeps-Service c _ (cl.apart m services s)) (λ _. from_set e p d))))

    unfoldable pub Converges-reconcile_objects :
        (m : Managed) → Converges (cl.view m) (reconcile_objects x)
    unfolding reconcile_objects
    Converges-reconcile_objects configmaps = after_secret configmaps _ (
        Converges-before _ _ (Converges-Configmap c cl.owns _ (cl.stores configmaps)) (
          Keeps-bind _ _ (Keeps-rbac configmaps refl refl refl) λ _.
            Keeps-bind _ _ (Keeps-Service c _ (cl.apart configmaps services refl))
              (λ _. from_set configmaps refl refl refl)))
    Converges-reconcile_objects accounts =
        in_rbac accounts refl refl refl refl refl Converges-Rbac-account
    Converges-reconcile_objects roles = in_rbac roles refl refl refl refl refl Converges-Rbac-role
    Converges-reconcile_objects bindings =
        in_rbac bindings refl refl refl refl refl Converges-Rbac-binding
    Converges-reconcile_objects services = after_secret services _ (
        after_maps services refl _ (
          after_rbac services refl refl refl _ (
            Converges-before _ _ (Converges-service c cl.owns _ (cl.stores services))
              (from_set services refl refl refl))))
    Converges-reconcile_objects policies = after_secret policies _ (
        after_maps policies refl _ (
          after_rbac policies refl refl refl _ (
            after_service policies refl refl _ (
              Converges-before _ _ (Converges-policy c cl.owns _ (cl.stores policies))
                (Keeps-Pdb c _ (cl.apart policies pdbs refl))))))
    Converges-reconcile_objects pdbs = after_secret pdbs _ (
        after_maps pdbs refl _ (
          after_rbac pdbs refl refl refl _ (
            after_service pdbs refl refl _ (
              Converges-after _ _ (Keeps-Networkpolicy c _ (cl.apart pdbs policies refl))
                (λ st. Leaves-Networkpolicy-reconcile c)
                (Converges-pdb c cl.owns _ (cl.stores pdbs))))))
    Converges-reconcile_objects stateful_sets = after_secret stateful_sets _ (
        after_maps stateful_sets refl _ (
          after_rbac stateful_sets refl refl refl _ (
            Converges-after _ _ (Keeps-Service c _ (cl.apart stateful_sets services refl))
              (λ st. Leaves-Service-reconcile c)
              (Converges-before _ _
                (Converges-set x cl.owns cl.defaults _ (cl.stores stateful_sets))
                (from_policy stateful_sets refl refl)))))
