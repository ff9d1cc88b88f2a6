-- ===== src/Tests.antt =====
-- A small cluster that runs: one config map is kept as the world, every job has succeeded, and other
-- requests return what was sent. The theorems are applied to it in the modules below.
pub mod Examples
pub mod UpgradeExamples
pub mod StepExamples
pub mod ObjectExamples
pub mod ProgramExamples
pub mod ContractExamples
pub mod Log
pub mod RunExamples
pub mod Cluster
pub mod ClusterExamples
use patroni_postgres_operato.Base.{
  ◌≡◌, refl, ℕ, String, ◌<>◌, Bool, true, false, List, [], ◌∷◌, Option, none, some, arith, str_eq,
  eq_iff, eq_refl, if◌then◌else◌, ◌&&◌,
}
use patroni_postgres_operato.Exec.{Outcome, ok, err, panic, not_found, json_error}
use patroni_postgres_operato.Kube.{
  StringDict, ObjectMeta, named, ConfigMap, Job, bare_pod, StatefulSet, PodTemplate, Pod, Pvc,
}
use patroni_postgres_operato.Api.{
  PatroniPostgres, PatroniPostgresSpec, PatroniPostgresStatus, PatroniPostgresState, Node, NodeTags,
  VolumeStatus,
}
use patroni_postgres_operato.Client.{Client, Kind, Json, NamespacedName, State, IsStore}
use patroni_postgres_operato.Image.{Image}
use patroni_postgres_operato.Context.{Context}

abbrev pub meta_of : ConfigMap → ObjectMeta
meta_of cm = cm.meta

-- One object, which is found under its own key.
abbrev pub cell : Kind ConfigMap ConfigMap
cell = record {
  get = λ n w.
      if str_eq w.meta.namespace n.namespace && str_eq w.meta.name n.name
      then (ok w, w)
      else (err not_found, w);
  create = λ a w. (ok a, a);
  update = λ a w. (ok a, a);
  delete = λ a d w. (ok tt, w);
}

-- Nothing is kept: a get finds nothing, and what is sent is accepted.
abbrev pub accepting : {A : Type 0} → Kind ConfigMap A
accepting = record {
  get = λ n w. (err not_found, w);
  create = λ a w. (ok a, w);
  update = λ a w. (ok a, w);
  delete = λ a d w. (ok tt, w);
}

-- A get returns the given object, whatever the key.
abbrev pub holding : {A : Type 0} → A → Kind ConfigMap A
holding a = record {
  get = λ n w. (ok a, w);
  create = λ b w. (ok b, w);
  update = λ b w. (ok b, w);
  delete = λ b d w. (ok tt, w);
}

abbrev pub template : PodTemplate
template = record { labels = []; annotations = []; spec = bare_pod }

abbrev pub won_job : Job
won_job = record {
  meta = named "job";
  active_deadline_seconds = none;
  completions = none;
  selector = "";
  template = template;
  succeeded = 1;
  failed = 0;
}

abbrev pub set_of_one : StatefulSet
set_of_one = record {
  meta = named "db";
  spec = record {
    selector = [];
    volume_claim_templates = [];
    service_name = "db-headless";
    pod_management_policy = "Parallel";
    min_ready_seconds = 60;
    replicas = some 1;
    template = template;
  };
  ready_replicas = 1;
  available_replicas = 0;
}

abbrev pub json : Json
json = record {
  unmarshal_object = λ t. some [];
  marshal_object = λ m. "{}";
  marshal_config = λ c. ok "{}";
  unmarshal_config = λ t. some (record {
    locale = "C";
    encoding = "UTF8";
    data_checksums = true;
    max_prepared_transactions = 0;
  });
  unmarshal_result = λ t.
      some
        (record { old_latest_checkpoint_location = "0/1"; new_database_system_identifier = "7" });
  marshal_strings = λ m. "{}";
}

abbrev pub client : Client
client = record {
  World = ConfigMap;
  configmaps = cell;
  secrets = accepting;
  services = accepting;
  statefulsets = holding set_of_one;
  jobs = holding won_job;
  pvcs = accepting;
  service_accounts = accepting;
  roles = accepting;
  role_bindings = accepting;
  network_policies = accepting;
  pdbs = accepting;
  instances = accepting;
  update_status = λ p w. (ok tt, w);
  list_pvcs = λ n l w. (ok [], w);
  patch_pvc = λ a o w. (ok a, w);
  label_selector = λ t. some "";
  list_pods = λ n l w. (ok (record { name = "pod"; namespace = n } ∷ []), w);
  read_log = λ p n m w. (ok "{}", w);
  set_owner_reference = λ n m. ok (record m { owners = n ∷ [] });
  random = λ n w. ([], w);
  map_order = λ m. m;
  json = json;
}

abbrev pub image15 : Image
image15 = record { image = "db:15"; versions = 15 ∷ 17 ∷ [] }

abbrev pub context : Context
context = record {
  client = client;
  im = image15;
  upgrade_image = "operator";
  primary_upgrade = "";
  primary_stream = "";
  secondary_upgrade = "";
  primary_upgrade_move = "";
}

abbrev pub node : Node
node = record {
  storage_class_name = "fast";
  access_mode = "";
  tags = record { no_sync = false; no_failover = false };
}

abbrev pub instance_of :
    List Node → List VolumeStatus → PatroniPostgresState → ℕ → ℕ → PatroniPostgres
instance_of nodes volumes state version target = record {
  name = "db";
  namespace = "ns";
  spec = record {
    ignore = false;
    version = 17;
    nodes = nodes;
    volume_size = "1Gi";
    service_type = "ClusterIP";
    annotations = [];
    pod_anti_affinity_topology_key = "";
    image_pull_secrets = [];
    node_selector = [];
    affinity = none;
    tolerations = [];
    resources = record { limits = []; requests = [] };
    extra_containers = [];
    access_control = [];
    additional_network_policy_ingress = [];
  };
  status = record {
    volume_statuses = volumes;
    ready = 1;
    version = version;
    state = state;
    upgrade_version = target;
    upgrade_versions = 17 ∷ [];
  };
}

abbrev pub volume : String → VolumeStatus
volume n = record { claim_name = n; phase = "Bound"; capacity = none }

abbrev pub one_member : PatroniPostgresState → ℕ → ℕ → PatroniPostgres
one_member = instance_of (node ∷ []) (volume "pgdata-db-0" ∷ [])

abbrev pub two_members : PatroniPostgresState → ℕ → ℕ → PatroniPostgres
two_members = instance_of (node ∷ node ∷ []) (volume "pgdata-db-0" ∷ volume "pgdata-db-1" ∷ [])

abbrev pub config_map : ConfigMap
config_map = record {
  meta = record (named "db-config") {
    namespace = "ns";
    annotations = some (
        ("initialize", "1")
        ∷ ("config", "{}")
        ∷ ("leader", "db-1")
        ∷ ("latest-checkpoint-location", "0/1")
        ∷ []);
  };
}

abbrev pub at_state : PatroniPostgres → State ConfigMap
at_state p = record { world = config_map; instance = p }

cell-key :
    (n : NamespacedName) (a w w' : ConfigMap)
    → cell.get n w ≡ (ok a, w')
    → (a.meta.namespace ≡ n.namespace) × (a.meta.name ≡ n.name)
cell-key n a w w' h = ground (arith, eq_iff w.meta.namespace n.namespace, eq_iff w.meta.name n.name)

cell-updated :
    (a b w w' : ConfigMap)
    → cell.update a w ≡ (ok b, w')
    → (cell.get (record { namespace = a.meta.namespace; name = a.meta.name }) w').0 ≡ ok b
cell-updated a b w w' h = ground (arith, eq_refl a.meta.namespace, eq_refl a.meta.name)

pub cell-IsStore : IsStore meta_of cell
cell-IsStore = record {
  get_key = λ n a w w' h. cell-key n a w w' h;
  get_updated = λ a b w w' h. cell-updated a b w w' h;
  keeps_annotations = λ a b w w' h. ground arith;
}
