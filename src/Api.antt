-- ===== src/Api.antt =====
-- api/v1alpha1/patronipostgres_types.go and helper.go: the custom resource.
use patroni_postgres_operato.Base.{ℕ, String, Bool, List, Option, str_eq, if◌then◌else◌}
use patroni_postgres_operato.Kube.{StringDict, ResourceRequirements, Affinity, Container}

pub record NodeTags : Type 0 where
  pub no_sync : Bool
  pub no_failover : Bool

pub record Node : Type 0 where
  pub storage_class_name : String
  pub access_mode : String
  pub tags : NodeTags

pub record VolumeStatus : Type 0 where
  pub claim_name : String
  pub phase : String
  pub capacity : Option String

pub record PatroniPostgresSpec : Type 0 where
  pub ignore : Bool
  pub version : ℕ
  pub nodes : List Node
  pub volume_size : String
  pub service_type : String
  pub annotations : StringDict
  pub pod_anti_affinity_topology_key : String
  pub image_pull_secrets : List String
  pub node_selector : StringDict
  pub affinity : Option Affinity
  pub tolerations : List String
  pub resources : ResourceRequirements
  pub extra_containers : List Container
  pub access_control : List String
  pub additional_network_policy_ingress : List String

-- The state is a string of Go, so it may be none of the constants.
abbrev pub PatroniPostgresState : Type 0
PatroniPostgresState = String

abbrev pub state_scaling : PatroniPostgresState
state_scaling = "scaling"

abbrev pub state_ready : PatroniPostgresState
state_ready = "ready"

abbrev pub state_upgrade_preupgrade : PatroniPostgresState
state_upgrade_preupgrade = "upgrade-preupgrade"

abbrev pub state_upgrade_preupgrade_scale_down : PatroniPostgresState
state_upgrade_preupgrade_scale_down = "upgrade-preupgrade-scaledown"

abbrev pub state_upgrade_preupgrade_sync : PatroniPostgresState
state_upgrade_preupgrade_sync = "upgrade-preupgrade-sync"

abbrev pub state_upgrade_scale_down : PatroniPostgresState
state_upgrade_scale_down = "upgrade-scaledown"

abbrev pub state_upgrade_primary : PatroniPostgresState
state_upgrade_primary = "upgrade-primary"

abbrev pub state_upgrade_secondaries : PatroniPostgresState
state_upgrade_secondaries = "upgrade-secondaries"

abbrev pub state_upgrade_primary_move : PatroniPostgresState
state_upgrade_primary_move = "upgrade-primary-move"

abbrev pub state_upgrade_postupgrade : PatroniPostgresState
state_upgrade_postupgrade = "upgrade-postupgrade"

pub record PatroniPostgresStatus : Type 0 where
  pub volume_statuses : List VolumeStatus
  pub ready : ℕ
  pub version : ℕ
  pub state : PatroniPostgresState
  pub upgrade_version : ℕ
  pub upgrade_versions : List ℕ

pub record PatroniPostgres : Type 0 where
  pub name : String
  pub namespace : String
  pub spec : PatroniPostgresSpec
  pub status : PatroniPostgresStatus

-- The instance with another status, but for the version.
abbrev pub desired : PatroniPostgresStatus → PatroniPostgres → PatroniPostgres
desired st p = record p { status = record st { version = p.status.version } }

unfoldable pub get_access_mode : Node → String
get_access_mode v = if str_eq v.access_mode "" then "ReadWriteOnce" else v.access_mode
