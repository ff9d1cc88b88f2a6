-- ===== src/Controllers/Rbac.antt =====
-- private/controllers/rbac/rbac.go: the service account of the pods, its role, and their binding.
use patroni_postgres_operato.Base.{String, List, [], ◌∷◌, Option, none, some}
use patroni_postgres_operato.Exec.{Exec, pure, ◌>>=◌, ◌>>◌}
use patroni_postgres_operato.Kube.{named, PolicyRule, Role, RoleBinding}
use patroni_postgres_operato.Api.{PatroniPostgres}
use patroni_postgres_operato.Client.{
  Client, NamespacedName, State, request, find, the_instance, is_new, create_or_update,
}
use patroni_postgres_operato.Context.{set_meta}

unfoldable pub service_account_name : PatroniPostgres → String
service_account_name p = p.name

abbrev key : PatroniPostgres → NamespacedName
key p = record { namespace = p.namespace; name = p.name }

-- What Patroni may do with config maps and pods.
abbrev pub delegated_rules : List PolicyRule
delegated_rules =
    record {
      api_groups = "" ∷ [];
      resources = "configmaps" ∷ "pods" ∷ [];
      verbs = "get" ∷ "list" ∷ "watch" ∷ "patch" ∷ "update" ∷ [];
    }
    ∷ []

abbrev pub role_or_new : PatroniPostgres → Option Role → Role
role_or_new p none = record { meta = named p.name; rules = [] }
role_or_new p (some r) = r

-- The reference to the role is set at the creation only.
abbrev pub binding_or_new : PatroniPostgres → Option RoleBinding → RoleBinding
binding_or_new p none = record { meta = named p.name; role_ref = ("Role", p.name); subjects = [] }
binding_or_new p (some b) = b

module _ (c : Client) where
  unfoldable pub reconcile_service_account : Exec (State c.World) (Unit {0})
  unfolding ◌>>=◌ the_instance find request set_meta service_account_name
  reconcile_service_account = do
    p ← the_instance
    o ← find c.service_accounts (record { namespace = p.namespace; name = service_account_name p })
    elim o [
      | some a ↦ elim a.meta.owners [
        | [] ↦ do
          m ← set_meta c a.meta
          _ ← request (c.service_accounts.update (record { meta = m }))
          pure tt
        | _ ∷ _ ↦ pure tt
      ]
      | none ↦ do
        m ← set_meta c (named (service_account_name p))
        _ ← request (c.service_accounts.create (record { meta = m }))
        pure tt
    ]

  unfoldable pub reconcile_role : Exec (State c.World) (Unit {0})
  unfolding ◌>>=◌ the_instance find set_meta create_or_update
  reconcile_role = do
    p ← the_instance
    o ← find c.roles (key p)
    let role = role_or_new p o
    m ← set_meta c role.meta
    _ ← create_or_update c.roles (is_new o) (record { meta = m; rules = delegated_rules })
    pure tt

  unfoldable pub reconcile_role_binding : Exec (State c.World) (Unit {0})
  unfolding ◌>>=◌ the_instance find set_meta create_or_update
  reconcile_role_binding = do
    p ← the_instance
    o ← find c.role_bindings (key p)
    let binding = binding_or_new p o
    m ← set_meta c binding.meta
    _ ←
        create_or_update c.role_bindings (is_new o)
          (record binding { meta = m; subjects = ("ServiceAccount", p.name) ∷ [] })
    pure tt

  unfoldable pub reconcile : Exec (State c.World) (Unit {0})
  unfolding reconcile_service_account reconcile_role reconcile_role_binding
  reconcile = do reconcile_service_account; reconcile_role; reconcile_role_binding
