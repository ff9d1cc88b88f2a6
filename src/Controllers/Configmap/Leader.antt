-- ===== src/Controllers/Configmap/Leader.antt =====
-- The index of the leader, read from the name of its pod.
use patroni_postgres_operato.Base.{◌≡◌, ℕ, some, arith, length, ◌<◌, ◌^◌, ◌<>◌}
use patroni_postgres_operato.Base.Text.{show}
use patroni_postgres_operato.Base.Text.Digits.{scan_int-last_part}
use patroni_postgres_operato.Exec.{ok, ◌>>=◌}
use patroni_postgres_operato.Kube.{ConfigMap}
use patroni_postgres_operato.Client.{Client, State}
use patroni_postgres_operato.Controllers.Configmap.{cm_key, annotation, get_sync_leader}

module _ (c : Client) where
  -- In a cluster of several members whose leader is noted by the name of a pod of the stateful set,
  -- the index of the leader is the index of the pod.
  pub get_sync_leader-pod :
      (s : State c.World) (cm : ConfigMap) (w : c.World) (n : ℕ)
      → 1 < length s.instance.status.volume_statuses
      → c.configmaps.get (cm_key s.instance "sync") s.world ≡ (ok cm, w)
      → annotation "leader" cm ≡ some (s.instance.name <> ("-" <> show n))
      → n < 2 ^ 63
      → (get_sync_leader c s).0 ≡ ok n
  unfolding get_sync_leader ◌>>=◌
  get_sync_leader-pod s cm w n many g a small =
      ground (arith, many, g, a, scan_int-last_part s.instance.name n small)
