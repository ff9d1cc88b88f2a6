-- ===== src/Results.antt =====
-- What the operator and the programs of its jobs agree on: private/upgrade/common/common.go and
-- `upgradeJobResult` of private/upgrade/primary.go.
use patroni_postgres_operato.Base.{ℕ, String, Bool}

-- The modes of the program that the jobs run.
abbrev pub upgrade_mode_pre : String
upgrade_mode_pre = "preupgrade"

abbrev pub upgrade_mode_pre_sync : String
upgrade_mode_pre_sync = "preupgrade-sync"

abbrev pub upgrade_mode_post : String
upgrade_mode_post = "postuprgrade"

pub record Config : Type 0 where
  pub locale : String
  pub encoding : String
  pub data_checksums : Bool
  pub max_prepared_transactions : ℕ

pub record UpgradeJobResult : Type 0 where
  pub old_latest_checkpoint_location : String
  pub new_database_system_identifier : String
