-- ===== src/Controllers/Networkpolicy.antt =====
-- private/controllers/networkpolicy/networkpolicy.go: who may connect to the pods.
use patroni_postgres_operato.Base.{String, List, [], ◌∷◌, ◌++◌, map, Option, none, some}
use patroni_postgres_operato.Exec.{Exec, pure, ◌>>=◌}
use patroni_postgres_operato.Kube.{
  ObjectMeta, named, NetworkPolicy, IngressRule, from_pods, from_peers, given,
}
use patroni_postgres_operato.Api.{PatroniPostgres}
use patroni_postgres_operato.Client.{Client, State, find, the_instance, is_new, create_or_update}
use patroni_postgres_operato.Context.{set_meta, common_labels}
use patroni_postgres_operato.Controllers.Service.{postgres_port}

-- Everything between the pods of the cluster, the database port for the given peers, and what the
-- instance adds.
unfoldable pub ingress_rules : PatroniPostgres → List IngressRule
unfolding common_labels
ingress_rules p =
    (from_pods (common_labels p) ∷ from_peers p.spec.access_control (postgres_port ∷ []) ∷ [])
    ++ map given p.spec.additional_network_policy_ingress

abbrev pub meta_or_new : String → Option NetworkPolicy → ObjectMeta
meta_or_new n none = named n
meta_or_new n (some o) = o.meta

module _ (c : Client) where
  unfoldable pub reconcile : Exec (State c.World) (Unit {0})
  unfolding ◌>>=◌ the_instance find set_meta create_or_update ingress_rules
  reconcile = do
    p ← the_instance
    o ← find c.network_policies (record { namespace = p.namespace; name = p.name })
    m ← set_meta c (meta_or_new p.name o)
    _ ←
        create_or_update c.network_policies (is_new o)
          (record { meta = m; pod_selector = common_labels p; ingress = ingress_rules p })
    pure tt
