-- ===== src/Controllers/Configmap.antt =====
-- private/controllers/configmap/configmap.go: the config maps that Patroni keeps its state in, and
-- what the operator reads and writes in their annotations.
pub mod Frame
pub mod Entries
pub mod Annotations
pub mod Leader
use patroni_postgres_operato.Base.{
  ℕ, String, ◌<>◌, Bool, List, [], ◌∷◌, Option, none, some, ltb, if◌then◌else◌, length,
}
use patroni_postgres_operato.Base.StringMap.{lookup, insert, erase}
use patroni_postgres_operato.Base.Text.{last_part, scan_int}
use patroni_postgres_operato.Exec.{
  Outcome, Exec, pure, fail, demand, require, ◌>>=◌, ◌>>◌, no_dbid_found,
  no_latest_checkpoint_location_found, no_sync_leader, no_config_annotation, scan_error, json_error,
}
use patroni_postgres_operato.Kube.{StringDict, ObjectMeta, named, ConfigMap}
use patroni_postgres_operato.Api.{PatroniPostgres}
use patroni_postgres_operato.Client.{
  Client, Json, NamespacedName, State, request, find, the_instance,
}
use patroni_postgres_operato.Context.{set_meta}

-- `fmt.Sprintf("%s-%s", p.Name, name)`
abbrev pub cm_key : PatroniPostgres → String → NamespacedName
cm_key p name = record { namespace = p.namespace; name = p.name <> ("-" <> name) }

-- Reading a nil map finds nothing.
abbrev pub annotation : String → ConfigMap → Option String
annotation k cm = elim cm.meta.annotations [ none ↦ none | some m ↦ lookup k m ]

-- Writing to a nil map panics.
abbrev pub annotate : String → String → ConfigMap → Option ConfigMap
annotate k v cm = elim cm.meta.annotations [
  | none ↦ none
  | some m ↦ some (record cm { meta = record cm.meta { annotations = some (insert k v m) } })
]

-- Deleting from a nil map does nothing.
abbrev pub drop_annotation : String → ConfigMap → ConfigMap
drop_annotation k cm = elim cm.meta.annotations [
  | none ↦ cm
  | some m ↦ record cm { meta = record cm.meta { annotations = some (erase k m) } }
]

module _ (c : Client) where
  -- One round of the loop of `Reconcile`.
  unfoldable pub reconcile_one : String → Exec (State c.World) (Unit {0})
  unfolding ◌>>=◌ the_instance find request set_meta
  reconcile_one name = do
    p ← the_instance
    o ← find c.configmaps (cm_key p name)
    elim o [
      | some cm ↦ elim cm.meta.owners [
        | [] ↦ do
          m ← set_meta c cm.meta
          _ ← request (c.configmaps.update (record cm { meta = m }))
          pure tt
        | _ ∷ _ ↦ pure tt
      ]
      | none ↦ do
        m ← set_meta c (named (cm_key p name).name)
        _ ← request (c.configmaps.create (record { meta = m }))
        pure tt
    ]

  unfoldable pub reconcile_all : List String → Exec (State c.World) (Unit {0})
  unfolding reconcile_one
  reconcile_all [] = pure tt
  reconcile_all (name ∷ names) = do reconcile_one name; reconcile_all names

  unfoldable pub reconcile : Exec (State c.World) (Unit {0})
  unfolding reconcile_all
  reconcile = reconcile_all ("config" ∷ "leader" ∷ "sync" ∷ "failover" ∷ [])

  unfoldable pub get_config_cm : Exec (State c.World) ConfigMap
  unfolding ◌>>=◌ the_instance request
  get_config_cm = do p ← the_instance; request (c.configmaps.get (cm_key p "config"))

  unfoldable pub get_db_id : Exec (State c.World) String
  unfolding get_config_cm
  get_db_id = do cm ← get_config_cm; require no_dbid_found (annotation "initialize" cm)

  unfoldable pub set_db_id : String → Exec (State c.World) (Unit {0})
  unfolding get_config_cm
  set_db_id dbid = do
    cm ← get_config_cm
    cm1 ← demand (annotate "initialize" dbid cm)
    configs ← require no_config_annotation (annotation "config" cm1)
    config ← require json_error (c.json.unmarshal_object configs)
    cm2 ← demand (annotate "config" (c.json.marshal_object (erase "pause" config)) cm1)
    _ ← request (c.configmaps.update cm2)
    pure tt

  unfoldable pub get_primary_initdb_args : Exec (State c.World) String
  unfolding get_config_cm
  get_primary_initdb_args = do
    cm ← get_config_cm
    pure (elim (annotation "primary-initdb-args" cm) [ none ↦ "" | some v ↦ v ])

  unfoldable pub set_primary_initdb_args : String → Exec (State c.World) (Unit {0})
  unfolding get_config_cm
  set_primary_initdb_args args = do
    cm ← get_config_cm
    cm1 ← demand (annotate "primary-initdb-args" args cm)
    _ ← request (c.configmaps.update cm1)
    pure tt

  -- If both are missing, the error about the identifier is the one that is returned.
  unfoldable pub get_secondary_stream_args : Exec (State c.World) (String × String)
  unfolding get_config_cm
  get_secondary_stream_args = do
    cm ← get_config_cm
    id ← require no_dbid_found (annotation "initialize" cm)
    location ←
        require no_latest_checkpoint_location_found (annotation "latest-checkpoint-location" cm)
    pure (location, id)

  unfoldable pub set_latest_checkpoint_location : String → Exec (State c.World) (Unit {0})
  unfolding get_config_cm
  set_latest_checkpoint_location location = do
    cm ← get_config_cm
    cm1 ← demand (annotate "latest-checkpoint-location" location cm)
    _ ← request (c.configmaps.update cm1)
    pure tt

  unfoldable pub clear_upgrade_annotations : Exec (State c.World) (Unit {0})
  unfolding get_config_cm
  clear_upgrade_annotations = do
    cm ← get_config_cm
    _ ← request (
        c.configmaps.update
          (drop_annotation "latest-checkpoint-location" (drop_annotation "primary-initdb-args" cm)))
    pure tt

  -- With at most one volume the leader is 0, and nothing is read.
  unfoldable pub get_sync_leader : Exec (State c.World) ℕ
  unfolding ◌>>=◌ the_instance request
  get_sync_leader = do
    p ← the_instance
    if ltb 1 (length p.status.volume_statuses)
        then (do
          cm ← request (c.configmaps.get (cm_key p "sync"))
          leader ← require no_sync_leader (annotation "leader" cm)
          require scan_error (scan_int (last_part leader)))
        else pure 0
