-- ===== src/Reconciler/Install.antt =====
-- The loop over the reconcilers installs what the instance asks for.
use patroni_postgres_operato.Base.{◌≡◌}
use patroni_postgres_operato.Exec.{ok}
use patroni_postgres_operato.Api.{PatroniPostgres}
use patroni_postgres_operato.Client.{Client, State}
use patroni_postgres_operato.Context.{Context}
use patroni_postgres_operato.Controllers.Installed.{Installed}
use patroni_postgres_operato.Controllers.Cluster.{IsCluster}
use patroni_postgres_operato.Reconciler.{reconcile_objects}

module _ (x : Context) (cl : IsCluster x.client) (s : State x.client.World)
    (h : (reconcile_objects x s).0 ≡ ok tt) where
  abbrev c : Client
  c = x.client

  abbrev p : PatroniPostgres
  p = s.instance

  abbrev end : x.client.World
  end = (reconcile_objects x s).1.world
