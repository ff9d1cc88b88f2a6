-- ===== src/Context.antt =====
-- private/context/context.go: the client, the image of the current version, and the labels and owner
-- that mark what belongs to an instance.
use patroni_postgres_operato.Base.{String, [], ◌∷◌, none, some}
use patroni_postgres_operato.Base.StringMap.{insert}
use patroni_postgres_operato.Exec.{Outcome, ok, err, unsupported_version, Exec, ◌>>=◌, lift}
use patroni_postgres_operato.Kube.{StringDict, ObjectMeta}
use patroni_postgres_operato.Api.{PatroniPostgres}
use patroni_postgres_operato.Client.{Client, State, the_instance}
use patroni_postgres_operato.Image.{Image, get_image}

-- `pp` of the source is the instance of the run's state.
pub record Context : Type 1 where
  pub client : Client
  pub im : Image
  -- The flag -upgrade-image, and the files of private/upgrade/upgrade-scripts.
  pub upgrade_image : String
  pub primary_upgrade : String
  pub primary_stream : String
  pub secondary_upgrade : String
  pub primary_upgrade_move : String

abbrev pub component_postgres : String
component_postgres = "postgres"

unfoldable pub common_labels : PatroniPostgres → StringDict
common_labels pp =
    ("app.kubernetes.io/name", "patroni-postgres")
    ∷ ("app.kubernetes.io/instance", pp.name)
    ∷ ("app.kubernetes.io/managed-by", "kwebs-patroni-postgres-operator")
    ∷ ("cluster-name", pp.name)
    ∷ []

unfoldable pub pod_labels : PatroniPostgres → String → StringDict
unfolding common_labels insert
pod_labels pp component = insert "component" component (common_labels pp)

-- `ListOption`: the namespace and the labels that a list of the instance's own objects is asked for by.
abbrev pub list_option : PatroniPostgres → String × StringDict
list_option pp = (pp.namespace, common_labels pp)

-- `SetMeta`: the namespace, the labels, and the instance as an owner.
unfoldable pub set_meta : (c : Client) → ObjectMeta → Exec (State c.World) ObjectMeta
unfolding ◌>>=◌ the_instance lift
set_meta c m = do
  pp ← the_instance
  lift (
      c.set_owner_reference pp.name
        (record m { namespace = pp.namespace; labels = common_labels pp }))

-- The lookup of `New`: an error if no image runs the version of the status. Its message names the
-- version of the spec.
unfoldable pub image_of : PatroniPostgres → Outcome Image
unfolding get_image
image_of pp = elim (get_image pp.status.version) [
  | none ↦ err (unsupported_version pp.spec.version)
  | some im ↦ ok im
]
