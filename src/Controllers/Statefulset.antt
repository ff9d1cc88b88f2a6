-- ===== src/Controllers/Statefulset.antt =====
-- private/controllers/statefulset/statefulset.go: the stateful set that runs the
-- database.
pub mod Ready
pub mod Ensured
use patroni_postgres_operato.Base.{
  ℕ, suc, String, ◌<>◌, Bool, true, false, List, [], ◌∷◌, ◌++◌, Option, none, some, ◌==◌, str_eq,
  if◌then◌else◌, length, int32,
}
use patroni_postgres_operato.Base.Text.{show, replace_all}
use patroni_postgres_operato.Exec.{
  Outcome, ok, err, panic, Exec, pure, lift, gets, modify, ◌>>=◌, ◌>>◌,
}
use patroni_postgres_operato.Kube.{
  StringDict, ObjectMeta, named, EnvVar, EnvValue, value, field_ref, secret_key_ref, Container,
  bare_container, Probe, http_get, int, PodAffinityTerm, Affinity, PodSpec, bare_pod, PodTemplate,
  Pvc, StatefulSetSpec, StatefulSet,
}
use patroni_postgres_operato.Api.{
  Node, PatroniPostgres, PatroniPostgresStatus, state_ready, state_scaling,
}
use patroni_postgres_operato.Client.{
  Client, Json, Kind, NamespacedName, State, request, find, the_instance, is_new, create_or_update,
}
use patroni_postgres_operato.Image.{Image, upgrade_versions}
use patroni_postgres_operato.Security.{container_security_context, database_pod_security_context}
use patroni_postgres_operato.Context.{
  Context, set_meta, common_labels, pod_labels, component_postgres,
}
use patroni_postgres_operato.Controllers.Pvc.{volume_name}
use patroni_postgres_operato.Controllers.Secret as Secret
use patroni_postgres_operato.Controllers.Secret.{
  super_user_password_key, replication_user_password_key,
}
use patroni_postgres_operato.Controllers.Service.{
  patroni_pod_role_master, postgres_port, postgres_port_name, headless_service_name,
}
pub use patroni_postgres_operato.Controllers.PodTemplate.{
  Patch, with_postgresql_port, with_paused_patroni, patroni_port, patroni_superuser_username,
  patroni_replication_username, data_volume_mount_path, env, pre_stop_script,
}
unfoldable pub use patroni_postgres_operato.Controllers.PodTemplate.{
  patch, patch_all, gen_node_tags_envs, pod_affinity, postgres_container, pod_template,
}

abbrev pub data_pvc_template : Pvc
data_pvc_template = record {
  meta = record (named volume_name) {
    annotations = some (("patronipostgres.kwebs.cloud/pvc-management", "by-operator") ∷ []);
  };
  access_modes = "ReadWriteOnce" ∷ [];
  storage_class_name = none;
  requests = ("storage", "1Mi") ∷ [];
  phase = "";
  capacity = [];
}

abbrev pub bare_template : PodTemplate
bare_template = record { labels = []; annotations = []; spec = bare_pod }

-- The object for a new stateful set, with what may only be set at its creation.
unfoldable pub new_sts : PatroniPostgres → StatefulSet
unfolding common_labels headless_service_name
new_sts p = record {
  meta = named p.name;
  spec = record {
    selector = common_labels p;
    volume_claim_templates = data_pvc_template ∷ [];
    service_name = headless_service_name p;
    pod_management_policy = "Parallel";
    min_ready_seconds = 0;
    replicas = none;
    template = bare_template;
  };
  ready_replicas = 0;
  available_replicas = 0;
}

-- The object that is sent: what is there, with its metadata, replicas and template written over.
unfoldable pub desired_sts :
    Json → Image → List Patch → PatroniPostgres → ObjectMeta → StatefulSet → StatefulSet
unfolding pod_template
desired_sts j im patches p m sts = record sts {
  meta = m;
  spec = record sts.spec {
    min_ready_seconds = 60;
    replicas = some (int32 (length p.spec.nodes));
    template = pod_template j im patches p;
  };
}

abbrev pub or_new : PatroniPostgres → Option StatefulSet → StatefulSet
or_new p none = new_sts p
or_new p (some s) = s

abbrev pub set_ready : ℕ → PatroniPostgres → PatroniPostgres
set_ready n p = record p { status = record p.status { ready = n } }

-- After a failed request the object is the one that was sent.
abbrev pub returned : Outcome StatefulSet → StatefulSet → StatefulSet
returned (ok s) sent = s
returned (err _) sent = sent
returned panic sent = sent

module _ (x : Context) where
  unfoldable pub get_k8s_stateful_set : Exec (State x.client.World) StatefulSet
  unfolding ◌>>=◌ the_instance request
  get_k8s_stateful_set = do
    p ← the_instance
    request (x.client.statefulsets.get (record { namespace = p.namespace; name = p.name }))

  -- The last request, after which the ready replicas are noted whether or not it failed.
  unfoldable pub send_sts : Bool → StatefulSet → Exec (State x.client.World) StatefulSet
  unfolding create_or_update
  send_sts create sts s =
      let (r, s') = create_or_update x.client.statefulsets create sts s in
      (r, record s' { instance = set_ready (returned r sts).ready_replicas s'.instance })

  unfoldable pub reconcile_sts : List Patch → Exec (State x.client.World) StatefulSet
  unfolding ◌>>=◌ the_instance find set_meta new_sts desired_sts send_sts
  reconcile_sts patches = do
    p ← the_instance
    o ← find x.client.statefulsets (record { namespace = p.namespace; name = p.name })
    let sts = or_new p o
    m ← set_meta x.client sts.meta
    send_sts (is_new o) (desired_sts x.client.json x.im patches p m sts)

  -- What `Reconcile` writes into the status after the stateful set was sent.
  unfoldable pub scaled : StatefulSet → PatroniPostgres → PatroniPostgres
  unfolding upgrade_versions
  scaled sts p =
      if sts.ready_replicas == length p.spec.nodes
      then record p {
        status = record p.status {
          state = state_ready;
          upgrade_versions = upgrade_versions x.im p.status.version;
        };
      }
      else record p { status = record p.status { state = state_scaling } }

  unfoldable pub reconcile : Exec (State x.client.World) (Unit {0})
  unfolding reconcile_sts scaled modify
  reconcile = do sts ← reconcile_sts []; modify (λ s. record s { instance = scaled sts s.instance })
