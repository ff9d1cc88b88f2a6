-- ===== src/Kube.antt =====
-- The Kubernetes objects that the code builds and reads, with the fields that it uses. A value that
-- the code only copies (a quantity, tolerations, a peer list, …) is kept as its text.
use patroni_postgres_operato.Base.{ℕ, String, Bool, List, [], Option, none}

abbrev pub StringDict : Type 0
StringDict = List (String × String)

-- Annotations may be a nil map: `none`. Owners are kept by their identity.
pub record ObjectMeta : Type 0 where
  pub name : String
  pub namespace : String
  pub labels : StringDict
  pub annotations : Option StringDict
  pub owners : List String

-- `ObjectMeta{Name: name}`
abbrev pub named : String → ObjectMeta
named n = record { name = n; namespace = ""; labels = []; annotations = none; owners = [] }

pub record ConfigMap : Type 0 where
  pub meta : ObjectMeta

pub record Secret : Type 0 where
  pub meta : ObjectMeta
  pub string_data : StringDict

pub data IntOrString : Type 0 where
  int : ℕ → IntOrString
  str : String → IntOrString

pub record ServicePort : Type 0 where
  pub name : String
  pub port : ℕ
  pub target_port : IntOrString

pub record Service : Type 0 where
  pub meta : ObjectMeta
  pub type : String
  pub cluster_ip : String
  pub selector : StringDict
  pub ports : List ServicePort

pub data EnvValue : Type 0 where
  value : String → EnvValue
  field_ref : String → EnvValue
  secret_key_ref : String → String → EnvValue

pub record EnvVar : Type 0 where
  pub name : String
  pub source : EnvValue

pub record SecurityContext : Type 0 where
  pub allow_privilege_escalation : Option Bool
  pub drop : List String

pub record PodSecurityContext : Type 0 where
  pub run_as_non_root : Option Bool
  pub run_as_user : Option ℕ
  pub run_as_group : Option ℕ
  pub fs_group : Option ℕ
  pub fs_group_change_policy : Option String
  pub seccomp_profile : Option String

pub record ResourceRequirements : Type 0 where
  pub limits : StringDict
  pub requests : StringDict

pub data ProbeHandler : Type 0 where
  http_get : String → IntOrString → ProbeHandler
  tcp_socket : IntOrString → ProbeHandler

pub record Probe : Type 0 where
  pub handler : ProbeHandler
  pub initial_delay_seconds : ℕ
  pub success_threshold : ℕ

-- The port number by its name; the mount path by the name of its volume; the pre-stop command.
pub record Container : Type 0 where
  pub name : String
  pub image : String
  pub command : List String
  pub env : List EnvVar
  pub ports : List (String × ℕ)
  pub resources : ResourceRequirements
  pub liveness_probe : Option Probe
  pub readiness_probe : Option Probe
  pub volume_mounts : StringDict
  pub pre_stop : Option (List String)
  pub security_context : Option SecurityContext

-- `Container{}`
abbrev pub bare_container : Container
bare_container = record {
  name = "";
  image = "";
  command = [];
  env = [];
  ports = [];
  resources = record { limits = []; requests = [] };
  liveness_probe = none;
  readiness_probe = none;
  volume_mounts = [];
  pre_stop = none;
  security_context = none;
}

pub record PodAffinityTerm : Type 0 where
  pub topology_key : String
  pub match_labels : StringDict

-- `rest` is the part of an affinity that the code copies.
pub record Affinity : Type 0 where
  pub pod_anti_affinity : Option (List PodAffinityTerm)
  pub rest : String

-- The claim that a volume mounts, by the name of the volume.
pub record PodSpec : Type 0 where
  pub affinity : Option Affinity
  pub service_account_name : String
  pub enable_service_links : Option Bool
  pub containers : List Container
  pub volumes : StringDict
  pub restart_policy : String
  pub security_context : Option PodSecurityContext
  pub image_pull_secrets : List String
  pub node_selector : StringDict
  pub tolerations : List String

-- `PodSpec{}`
abbrev pub bare_pod : PodSpec
bare_pod = record {
  affinity = none;
  service_account_name = "";
  enable_service_links = none;
  containers = [];
  volumes = [];
  restart_policy = "";
  security_context = none;
  image_pull_secrets = [];
  node_selector = [];
  tolerations = [];
}

pub record PodTemplate : Type 0 where
  pub labels : StringDict
  pub annotations : StringDict
  pub spec : PodSpec

-- `active_deadline_seconds` and `completions` may be nil; `selector` is set by the server.
pub record Job : Type 0 where
  pub meta : ObjectMeta
  pub active_deadline_seconds : Option ℕ
  pub completions : Option ℕ
  pub selector : String
  pub template : PodTemplate
  pub succeeded : ℕ
  pub failed : ℕ

pub record Pvc : Type 0 where
  pub meta : ObjectMeta
  pub access_modes : List String
  pub storage_class_name : Option String
  pub requests : StringDict
  pub phase : String
  pub capacity : StringDict

pub record StatefulSetSpec : Type 0 where
  pub selector : StringDict
  pub volume_claim_templates : List Pvc
  pub service_name : String
  pub pod_management_policy : String
  pub min_ready_seconds : ℕ
  pub replicas : Option ℕ
  pub template : PodTemplate

pub record StatefulSet : Type 0 where
  pub meta : ObjectMeta
  pub spec : StatefulSetSpec
  pub ready_replicas : ℕ
  pub available_replicas : ℕ

pub record ServiceAccount : Type 0 where
  pub meta : ObjectMeta

pub record PolicyRule : Type 0 where
  pub api_groups : List String
  pub resources : List String
  pub verbs : List String

pub record Role : Type 0 where
  pub meta : ObjectMeta
  pub rules : List PolicyRule

-- A reference to a role or a subject: its kind and its name.
pub record RoleBinding : Type 0 where
  pub meta : ObjectMeta
  pub role_ref : String × String
  pub subjects : StringDict

-- A rule of a network policy that admits pods with some labels, or peers to ports, or a given one.
pub data IngressRule : Type 0 where
  from_pods : StringDict → IngressRule
  from_peers : List String → List ℕ → IngressRule
  given : String → IngressRule

pub record NetworkPolicy : Type 0 where
  pub meta : ObjectMeta
  pub pod_selector : StringDict
  pub ingress : List IngressRule

pub record PodDisruptionBudget : Type 0 where
  pub meta : ObjectMeta
  pub max_unavailable : Option IntOrString
  pub selector : StringDict

pub record Pod : Type 0 where
  pub name : String
  pub namespace : String
