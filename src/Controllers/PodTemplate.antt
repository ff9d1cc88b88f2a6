-- ===== src/Controllers/PodTemplate.antt =====
-- private/controllers/statefulset/statefulset.go and patch.go: the pods that run the database, with
-- the patches of the upgrade.
use patroni_postgres_operato.Base.{
  ℕ, suc, String, ◌<>◌, false, List, [], ◌∷◌, ◌++◌, Option, none, some, str_eq, if◌then◌else◌,
}
use patroni_postgres_operato.Base.Text.{show, replace_all}
use patroni_postgres_operato.Kube.{
  EnvVar, value, field_ref, secret_key_ref, Container, http_get, int, PodAffinityTerm, Affinity,
  bare_pod, PodTemplate,
}
use patroni_postgres_operato.Api.{Node, PatroniPostgres}
use patroni_postgres_operato.Client.{Json}
use patroni_postgres_operato.Image.{Image}
use patroni_postgres_operato.Security.{container_security_context, database_pod_security_context}
use patroni_postgres_operato.Context.{common_labels, pod_labels, component_postgres}
use patroni_postgres_operato.Controllers.Pvc.{volume_name}
use patroni_postgres_operato.Controllers.Secret as Secret
use patroni_postgres_operato.Controllers.Secret.{
  super_user_password_key, replication_user_password_key,
}
use patroni_postgres_operato.Controllers.Service.{
  patroni_pod_role_master, postgres_port, postgres_port_name,
}

abbrev pub patroni_port : ℕ
patroni_port = 8008

abbrev pub patroni_superuser_username : String
patroni_superuser_username = "postgres"

abbrev pub patroni_replication_username : String
patroni_replication_username = "standby"

abbrev pub data_volume_mount_path : String
data_volume_mount_path = "/var/lib/postgresql"

pub data Patch : Type 0 where
  with_postgresql_port : ℕ → Patch
  with_paused_patroni : Patch

abbrev pub env : String → String → EnvVar
env n v = record { name = n; source = value v }

-- The command that waits for the primary and then stops the server.
abbrev pub pre_stop_script : String
pre_stop_script =
    "\nhost=\neval $(sed -n -r -e \"/^primary_conninfo[[:space:]]*=/{s/^.*=[[:space:]]*'//; s/'.*$//; p}\" ${PGDATA}/postgresql.conf)\nif [ -n \"$host\" ]; then\n  echo \"Waiting for primary to shutdown\"\n  while nc -z -w 1 \"$host\" \"$port\"; do\n    sleep 1\n  done\n\n  echo \"Delaying shutdown of replica\"\n  sleep 2\nfi\n\n/usr/lib/postgresql/${PG_VERSION}/bin/pg_ctl stop -D ${PGDATA} -m fast -w\n"

unfoldable pub patch : Patch → Container → Container
unfolding show
patch (with_postgresql_port p) k = record k { env = k.env ++ env "POSTGRESQL_PORT" (show p) ∷ [] }
patch with_paused_patroni k = record k {
  env = k.env ++ env "PGDATA" (data_volume_mount_path <> "/data") ∷ [];
  pre_stop = some ("sh" ∷ "-c" ∷ pre_stop_script ∷ []);
}

unfoldable pub patch_all : List Patch → Container → Container
unfolding patch
patch_all [] k = k
patch_all (x ∷ xs) k = patch_all xs (patch x k)

tag_env : String → ℕ → String → EnvVar
tag_env prefix idx tag =
    env ("PATRONI_NODE_" <> (prefix <> ("_" <> (show idx <> ("_TAG_" <> tag))))) "true"

-- The loop of `genNodeTagsEnvs`, from an index.
node_tags_envs : String → ℕ → List Node → List EnvVar
unfolding tag_env
node_tags_envs prefix idx [] = []
node_tags_envs prefix idx (node ∷ nodes) =
    (if node.tags.no_sync then tag_env prefix idx "nosync" ∷ [] else [])
    ++ ((if node.tags.no_failover then tag_env prefix idx "nofailover" ∷ [] else [])
        ++ node_tags_envs prefix (suc idx) nodes)

unfoldable pub gen_node_tags_envs : PatroniPostgres → List EnvVar
unfolding node_tags_envs replace_all show
gen_node_tags_envs p = node_tags_envs (replace_all p.name b'-' "_") 0 p.spec.nodes

abbrev terms_or_empty : Option (List PodAffinityTerm) → List PodAffinityTerm
terms_or_empty none = []
terms_or_empty (some ts) = ts

abbrev affinity_or_empty : Option Affinity → Affinity
affinity_or_empty none = record { pod_anti_affinity = none; rest = "" }
affinity_or_empty (some a) = a

-- `PodAntiAffinityTopologyKey` adds one required term to the given affinity.
unfoldable pub pod_affinity : PatroniPostgres → Option Affinity
unfolding pod_labels
pod_affinity p =
    if str_eq p.spec.pod_anti_affinity_topology_key ""
    then p.spec.affinity
    else (let a = affinity_or_empty p.spec.affinity in
        some (record a {
          pod_anti_affinity = some (
              terms_or_empty a.pod_anti_affinity
              ++ record {
                topology_key = p.spec.pod_anti_affinity_topology_key;
                match_labels = pod_labels p component_postgres;
              }
                ∷ []);
        }))

-- The container "postgres" before the patches.
unfoldable pub postgres_container : Json → Image → PatroniPostgres → Container
unfolding common_labels show Secret.name
postgres_container j im p = record {
  name = "postgres";
  image = im.image;
  command = [];
  env =
      env "PG_VERSION" (show p.status.version)
      ∷ record { name = "PATRONI_KUBERNETES_POD_IP"; source = field_ref "status.podIP" }
      ∷ record { name = "PATRONI_KUBERNETES_NAMESPACE"; source = field_ref "metadata.namespace" }
      ∷ record { name = "PATRONI_NAME"; source = field_ref "metadata.name" }
      ∷ env "PATRONI_SCOPE" p.name
      ∷ env "PATRONI_KUBERNETES_LABELS" (j.marshal_strings (common_labels p))
      ∷ env "PATRONI_SUPERUSER_USERNAME" patroni_superuser_username
      ∷ record {
        name = "PATRONI_SUPERUSER_PASSWORD";
        source = secret_key_ref (Secret.name p) super_user_password_key;
      }
      ∷ env "PATRONI_REPLICATION_USERNAME" patroni_replication_username
      ∷ record {
        name = "PATRONI_REPLICATION_PASSWORD";
        source = secret_key_ref (Secret.name p) replication_user_password_key;
      }
      ∷ env "PATRONI_INITIAL_SYNCHRONOUS_MODE" "true"
      ∷ env "PATRONI_KUBERNETES_LEADER_LABEL_VALUE" patroni_pod_role_master
      ∷ env "PATRONI_KUBERNETES_STANDBY_LEADER_LABEL_VALUE" patroni_pod_role_master
      ∷ env "PATRONI_KUBERNETES_TMP_ROLE_LABEL" "patroni4_role"
      ∷ [];
  ports = (postgres_port_name, postgres_port) ∷ ("patroni", patroni_port) ∷ [];
  resources = p.spec.resources;
  liveness_probe = some (record {
    handler = http_get "/liveness" (int patroni_port);
    initial_delay_seconds = 0;
    success_threshold = 0;
  });
  readiness_probe = some (record {
    handler = http_get "/readiness" (int patroni_port);
    initial_delay_seconds = 5;
    success_threshold = 3;
  });
  volume_mounts = (volume_name, data_volume_mount_path) ∷ [];
  pre_stop = none;
  security_context = some container_security_context;
}

-- The pod template, with the patches, the tags of the nodes and the extra containers.
unfoldable pub pod_template : Json → Image → List Patch → PatroniPostgres → PodTemplate
unfolding postgres_container patch_all pod_affinity gen_node_tags_envs pod_labels
pod_template j im patches p =
    let k = patch_all patches (postgres_container j im p) in
    record {
      labels = pod_labels p component_postgres;
      annotations = p.spec.annotations;
      spec = record bare_pod {
        affinity = pod_affinity p;
        service_account_name = p.name;
        enable_service_links = some false;
        containers = record k { env = k.env ++ gen_node_tags_envs p } ∷ p.spec.extra_containers;
        security_context = some database_pod_security_context;
        image_pull_secrets = p.spec.image_pull_secrets;
        node_selector = p.spec.node_selector;
        tolerations = p.spec.tolerations;
      };
    }
