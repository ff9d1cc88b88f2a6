-- ===== src/Controllers/Service.antt =====
-- private/controllers/service/service.go and patch.go: the service of the primary and the headless
-- service.
pub mod Ensured
use patroni_postgres_operato.Base.{ℕ, String, ◌<>◌, List, [], ◌∷◌, ◌++◌, Option, none, some, int32}
use patroni_postgres_operato.Base.StringMap.{insert}
use patroni_postgres_operato.Exec.{Exec, pure, demand, ◌>>=◌}
use patroni_postgres_operato.Kube.{StringDict, ObjectMeta, named, Service, int}
use patroni_postgres_operato.Api.{PatroniPostgres}
use patroni_postgres_operato.Client.{
  Client, State, request, find, the_instance, is_new, create_or_update,
}
use patroni_postgres_operato.Context.{set_meta, pod_labels, component_postgres}

abbrev pub patroni_pod_role_key : String
patroni_pod_role_key = "role"

abbrev pub patroni_pod_role_master : String
patroni_pod_role_master = "master"

abbrev pub postgres_port : ℕ
postgres_port = 5432

abbrev pub postgres_port_name : String
postgres_port_name = "postgres"

pub data Patch : Type 0 where
  with_postgresql_port : ℕ → Patch
  with_patroni_api : Patch

-- `s.Spec.Ports[0]` panics if there is no port.
unfoldable pub patch : Patch → Service → Option Service
patch (with_postgresql_port p) s = elim s.ports [
  | [] ↦ none
  | first ∷ others ↦
      some (record s { ports = record first { port = int32 p; target_port = int p } ∷ others })
]
patch with_patroni_api s = some (record s {
  ports = s.ports ++ record { name = "patroni"; port = 8008; target_port = int 8008 } ∷ [];
})

unfoldable pub patch_all : List Patch → Service → Option Service
unfolding patch
patch_all [] s = some s
patch_all (x ∷ xs) s = elim (patch x s) [ none ↦ none | some t ↦ patch_all xs t ]

unfoldable pub headless_service_name : PatroniPostgres → String
headless_service_name p = p.name <> "-headless"

abbrev pub bare_service : String → Service
bare_service n = record { meta = named n; type = ""; cluster_ip = ""; selector = []; ports = [] }

unfoldable pub primary_selector : PatroniPostgres → StringDict
unfolding pod_labels insert
primary_selector p =
    insert patroni_pod_role_key patroni_pod_role_master (pod_labels p component_postgres)

abbrev pub or_bare : String → Option Service → Service
or_bare n none = bare_service n
or_bare n (some s) = s

-- What `ReconcileService` writes over the main service, before the patches.
unfoldable pub main_service : PatroniPostgres → ObjectMeta → Service → Service
unfolding primary_selector
main_service p m s = record s {
  meta = m;
  type = p.spec.service_type;
  selector = primary_selector p;
  ports =
      record { name = postgres_port_name; port = postgres_port; target_port = int postgres_port }
      ∷ [];
}

unfoldable pub headless_service : PatroniPostgres → ObjectMeta → Service → Service
unfolding primary_selector
headless_service p m s = record s { meta = m; cluster_ip = "None"; selector = primary_selector p }

module _ (c : Client) where
  unfoldable pub reconcile_service : List Patch → Exec (State c.World) (Unit {0})
  unfolding ◌>>=◌ the_instance find request set_meta create_or_update patch_all main_service
      headless_service headless_service_name
  reconcile_service patches = do
    p ← the_instance
    o ← find c.services (record { namespace = p.namespace; name = p.name })
    let service = or_bare p.name o
    m ← set_meta c service.meta
    patched ← demand (patch_all patches (main_service p m service))
    _ ← create_or_update c.services (is_new o) patched
    o' ← find c.services (record { namespace = p.namespace; name = headless_service_name p })
    let headless = or_bare (headless_service_name p) o'
    m' ← set_meta c headless.meta
    _ ← create_or_update c.services (is_new o') (headless_service p m' headless)
    pure tt

  unfoldable pub reconcile : Exec (State c.World) (Unit {0})
  unfolding reconcile_service
  reconcile = reconcile_service []
