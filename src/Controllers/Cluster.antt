-- ===== src/Controllers/Cluster.antt =====
-- The kinds of objects that the reconcilers bring to rest, and what is asked of the API server for
-- all of them together: each is a dictionary of its own.
use patroni_postgres_operato.Base.{◌≡◌, ℕ, false, ◌==◌}
use patroni_postgres_operato.Kube.{
  ObjectMeta, ConfigMap, Service, ServiceAccount, Role, RoleBinding, NetworkPolicy,
  PodDisruptionBudget, StatefulSet, PodTemplate,
}
use patroni_postgres_operato.Api.{PatroniPostgres}
use patroni_postgres_operato.Client.{Client, Kind}
use patroni_postgres_operato.Client.Stores.{View, Same, Stores, Owns, AsSent}
use patroni_postgres_operato.Client.Stores.Keeps.{Apart}
use patroni_postgres_operato.Controllers.Adopted.{account_meta, cm_meta}
use patroni_postgres_operato.Controllers.Ensured.{pdb_meta, policy_meta, role_meta, binding_meta}
use patroni_postgres_operato.Controllers.Statefulset.Ensured.{sts_meta, SpecKept}
use patroni_postgres_operato.Controllers.Service.Ensured.{service_meta, Assigned}
use patroni_postgres_operato.Controllers.Keeps.{ApartClaims, ApartSecrets}

pub data Managed : Type 0 where
  configmaps accounts roles bindings services policies pdbs stateful_sets : Managed

abbrev pub Object : Managed → Type 0
Object configmaps = ConfigMap
Object accounts = ServiceAccount
Object roles = Role
Object bindings = RoleBinding
Object services = Service
Object policies = NetworkPolicy
Object pdbs = PodDisruptionBudget
Object stateful_sets = StatefulSet

abbrev pub metadata : (m : Managed) → Object m → ObjectMeta
metadata configmaps = cm_meta
metadata accounts = account_meta
metadata roles = role_meta
metadata bindings = binding_meta
metadata services = service_meta
metadata policies = policy_meta
metadata pdbs = pdb_meta
metadata stateful_sets = sts_meta

-- What the server fills in: the address and the type of a service, the counts of a stateful set, and
-- the defaults in its template.
abbrev pub Filled : (PodTemplate → PodTemplate) → (m : Managed) → Object m → Object m → Type 0
Filled defaults configmaps = AsSent
Filled defaults accounts = AsSent
Filled defaults roles = AsSent
Filled defaults bindings = AsSent
Filled defaults services = Assigned
Filled defaults policies = AsSent
Filled defaults pdbs = AsSent
Filled defaults stateful_sets = SpecKept defaults

abbrev pub requests : (c : Client) (m : Managed) → Kind c.World (Object m)
requests c configmaps = c.configmaps
requests c accounts = c.service_accounts
requests c roles = c.roles
requests c bindings = c.role_bindings
requests c services = c.services
requests c policies = c.network_policies
requests c pdbs = c.pdbs
requests c stateful_sets = c.statefulsets

abbrev pub rank : Managed → ℕ
rank configmaps = 0
rank accounts = 1
rank roles = 2
rank bindings = 3
rank services = 4
rank policies = 5
rank pdbs = 6
rank stateful_sets = 7

-- The objects by kind and key; a request for one kind, for a claim, a secret or a status leaves those of another kind.
pub record IsCluster (c : Client) : Type 0 where
  -- The defaults that the server gives to the template of the pods, whatever they are.
  pub defaults : PodTemplate → PodTemplate
  pub view : (m : Managed) → View c.World (Object m)
  pub stores : (m : Managed) → Stores (metadata m) (Filled defaults m) (view m) (requests c m)
  pub owns : Owns c.set_owner_reference
  pub apart : (m n : Managed) → (rank m == rank n) ≡ false → Apart (view m) (requests c n)
  pub claims : (m : Managed) → ApartClaims c (view m)
  pub secrets : (m : Managed) → ApartSecrets c (view m)
  pub status :
      (m : Managed) (p : PatroniPostgres) (w : c.World) → Same (view m) w (c.update_status p w).1
