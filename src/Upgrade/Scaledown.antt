-- ===== src/Upgrade/Scaledown.antt =====
-- private/upgrade/scaledown.go and preupgrade-scaledown.go: the database is stopped.
use patroni_postgres_operato.Base.{Bool, some, ◌==◌}
use patroni_postgres_operato.Exec.{Exec, pure, modify, ◌>>=◌, ◌>>◌}
use patroni_postgres_operato.Kube.{StatefulSet}
use patroni_postgres_operato.Client.{State, request}
use patroni_postgres_operato.Context.{Context}
use patroni_postgres_operato.Controllers.Statefulset.{get_k8s_stateful_set, set_ready}

unfoldable pub scaled_to_zero : StatefulSet → StatefulSet
scaled_to_zero sts = record sts { spec = record sts.spec { replicas = some 0 } }

module _ (x : Context) where
  unfoldable pub handle : Exec (State x.client.World) Bool
  unfolding ◌>>=◌ request modify scaled_to_zero
  handle = do
    sts ← get_k8s_stateful_set x
    sts' ← request (x.client.statefulsets.update (scaled_to_zero sts))
    modify (λ s. record s { instance = set_ready sts'.ready_replicas s.instance })
    pure (sts'.available_replicas == 0)
