-- ===== src/Controllers/Configmap/Frame.antt =====
-- The config maps are read and written without a change of the instance.
use patroni_postgres_operato.Base.{String, List, [], ◌∷◌, arith}
use patroni_postgres_operato.Client.{Client}
use patroni_postgres_operato.Client.Leaves.{Leaves, Leaves-pure, Leaves-bind, leaves_rules}
use patroni_postgres_operato.Api.{PatroniPostgres}
use patroni_postgres_operato.Controllers.Configmap.{
  reconcile_one, reconcile_all, reconcile, get_config_cm, get_db_id, set_db_id,
  get_primary_initdb_args, set_primary_initdb_args, get_secondary_stream_args,
  set_latest_checkpoint_location, clear_upgrade_annotations, get_sync_leader,
}

module _ (c : Client) {B : Type 0} {f : PatroniPostgres → B} where
  pub Leaves-reconcile_one : (name : String) → Leaves f (reconcile_one c name)
  unfolding reconcile_one
  Leaves-reconcile_one name = record { at = λ s. ground arith }

  pub Leaves-reconcile_all : (names : List String) → Leaves f (reconcile_all c names)
  unfolding reconcile_all
  Leaves-reconcile_all [] = Leaves-pure tt
  Leaves-reconcile_all (name ∷ names) =
      Leaves-bind _ _ (Leaves-reconcile_one name) (λ _. Leaves-reconcile_all names)

  pub Leaves-reconcile : Leaves f (reconcile c)
  unfolding reconcile
  Leaves-reconcile = Leaves-reconcile_all ("config" ∷ "leader" ∷ "sync" ∷ "failover" ∷ [])

  pub Leaves-get_config_cm : Leaves f (get_config_cm c)
  Leaves-get_config_cm = unfold get_config_cm in search leaves_rules

  pub Leaves-get_db_id : Leaves f (get_db_id c)
  Leaves-get_db_id = unfold get_db_id in search leaves_rules

  pub Leaves-set_db_id : (i : String) → Leaves f (set_db_id c i)
  Leaves-set_db_id i = unfold set_db_id in search (leaves_rules) depth 12

  pub Leaves-get_primary_initdb_args : Leaves f (get_primary_initdb_args c)
  Leaves-get_primary_initdb_args = unfold get_primary_initdb_args in search leaves_rules

  pub Leaves-set_primary_initdb_args : (args : String) → Leaves f (set_primary_initdb_args c args)
  Leaves-set_primary_initdb_args args =
      unfold set_primary_initdb_args in search (leaves_rules) depth 8

  pub Leaves-get_secondary_stream_args : Leaves f (get_secondary_stream_args c)
  Leaves-get_secondary_stream_args =
      unfold get_secondary_stream_args in search (leaves_rules) depth 8

  pub Leaves-set_latest_checkpoint_location :
      (l : String) → Leaves f (set_latest_checkpoint_location c l)
  Leaves-set_latest_checkpoint_location l =
      unfold set_latest_checkpoint_location in search (leaves_rules) depth 8

  pub Leaves-clear_upgrade_annotations : Leaves f (clear_upgrade_annotations c)
  Leaves-clear_upgrade_annotations =
      unfold clear_upgrade_annotations in search (leaves_rules) depth 8

  pub Leaves-get_sync_leader : Leaves f (get_sync_leader c)
  Leaves-get_sync_leader = unfold get_sync_leader in search (leaves_rules) depth 8
