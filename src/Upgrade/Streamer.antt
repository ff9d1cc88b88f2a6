-- ===== src/Upgrade/Streamer.antt =====
-- private/upgrade/secondary-stream.go: a server on the volume of the leader, and its service.
use patroni_postgres_operato.Base.{ℕ, String, ◌<>◌, [], ◌∷◌, none, some, get_elem?}
use patroni_postgres_operato.Base.StringMap.{insert}
use patroni_postgres_operato.Exec.{Exec, pure, lift, demand, ◌>>=◌, ◌>>◌}
use patroni_postgres_operato.Kube.{
  StringDict, ObjectMeta, named, tcp_socket, str, StatefulSet, Service,
}
use patroni_postgres_operato.Api.{PatroniPostgres}
use patroni_postgres_operato.Client.{State, request, find, the_instance}
use patroni_postgres_operato.Context.{Context, set_meta, common_labels}
use patroni_postgres_operato.Upgrade.Pods.{script_container, volume_pod}
use patroni_postgres_operato.Upgrade.Primary.{escape}

abbrev pub rsync_port : ℕ
rsync_port = 5873

abbrev pub rsync_port_name : String
rsync_port_name = "rsync"

unfoldable pub stream_name : PatroniPostgres → String
stream_name p = p.name <> "-pstream"

unfoldable pub stream_labels : PatroniPostgres → StringDict
unfolding common_labels insert
stream_labels p = insert "upgrade" "pstream" (common_labels p)

unfoldable pub streamer : Context → PatroniPostgres → String → ObjectMeta → StatefulSet
unfolding stream_labels stream_name script_container volume_pod escape
streamer x p claim m =
    let k = script_container "pstream" x.im.image (escape x.primary_stream) [] p in
    record {
      meta = m;
      spec = record {
        selector = stream_labels p;
        volume_claim_templates = [];
        service_name = stream_name p;
        pod_management_policy = "";
        min_ready_seconds = 0;
        replicas = none;
        template = record {
          labels = stream_labels p;
          annotations = [];
          spec =
              volume_pod
                (record k {
                  ports = (rsync_port_name, rsync_port) ∷ [];
                  readiness_probe = some (record {
                    handler = tcp_socket (str rsync_port_name);
                    initial_delay_seconds = 0;
                    success_threshold = 0;
                  });
                })
                claim "" p;
        };
      };
      ready_replicas = 0;
      available_replicas = 0;
    }

unfoldable pub stream_service : PatroniPostgres → StatefulSet → Service
unfolding stream_name
stream_service p sts = record {
  meta = record (named (stream_name p)) { namespace = p.namespace };
  type = "";
  cluster_ip = "";
  selector = sts.spec.template.labels;
  ports =
      record { name = rsync_port_name; port = rsync_port; target_port = str rsync_port_name } ∷ [];
}

module _ (x : Context) where
  unfoldable pub ensure_sts : ℕ → Exec (State x.client.World) StatefulSet
  unfolding ◌>>=◌ request find the_instance set_meta stream_name streamer
  ensure_sts leader = do
    p ← the_instance
    o ← find x.client.statefulsets (record { namespace = p.namespace; name = stream_name p })
    elim o [
      | some sts ↦ pure sts
      | none ↦ do
        volume ← demand (get_elem? p.status.volume_statuses leader)
        m ← set_meta x.client (named (stream_name p))
        request (x.client.statefulsets.create (streamer x p volume.claim_name m))
    ]

  -- The stateful set owns its service.
  unfoldable pub ensure_service : StatefulSet → Exec (State x.client.World) (Unit {0})
  unfolding ◌>>=◌ request find the_instance stream_name stream_service
  ensure_service sts = do
    p ← the_instance
    o ← find x.client.services (record { namespace = p.namespace; name = stream_name p })
    elim o [
      | some _ ↦ pure tt
      | none ↦ do
        let service = stream_service p sts
        m ← lift (x.client.set_owner_reference sts.meta.name service.meta)
        _ ← request (x.client.services.create (record service { meta = m }))
        pure tt
    ]

  unfoldable pub ensure_streamer : ℕ → Exec (State x.client.World) StatefulSet
  unfolding ensure_sts ensure_service
  ensure_streamer leader = do sts ← ensure_sts leader; ensure_service sts; pure sts
