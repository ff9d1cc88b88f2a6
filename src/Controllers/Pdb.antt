-- ===== src/Controllers/Pdb.antt =====
-- private/controllers/pdb/pdb.go: at most one pod of the cluster may be disrupted at a time.
use patroni_postgres_operato.Base.{String, Option, none, some}
use patroni_postgres_operato.Exec.{Exec, pure, ◌>>=◌}
use patroni_postgres_operato.Kube.{ObjectMeta, named, PodDisruptionBudget, IntOrString, int}
use patroni_postgres_operato.Client.{Client, State, find, the_instance, is_new, create_or_update}
use patroni_postgres_operato.Context.{set_meta, common_labels}

abbrev pub max_unavailable : IntOrString
max_unavailable = int 1

abbrev pub meta_or_new : String → Option PodDisruptionBudget → ObjectMeta
meta_or_new n none = named n
meta_or_new n (some o) = o.meta

module _ (c : Client) where
  unfoldable pub reconcile : Exec (State c.World) (Unit {0})
  unfolding ◌>>=◌ the_instance find set_meta create_or_update common_labels
  reconcile = do
    p ← the_instance
    o ← find c.pdbs (record { namespace = p.namespace; name = p.name })
    m ← set_meta c (meta_or_new p.name o)
    _ ←
        create_or_update c.pdbs (is_new o)
          (record { meta = m; max_unavailable = some max_unavailable; selector = common_labels p })
    pure tt
