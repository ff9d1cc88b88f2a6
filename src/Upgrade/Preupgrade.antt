-- ===== src/Upgrade/Preupgrade.antt =====
-- private/upgrade/preupgrade.go: the settings for initdb are read from the running database.
use patroni_postgres_operato.Base.{
  String, ◌<>◌, Bool, true, false, List, [], ◌∷◌, ◌++◌, Option, none, some, ◌==◌, str_eq,
  if◌then◌else◌,
}
use patroni_postgres_operato.Exec.{
  Error, Exec, pure, fail, ◌>>=◌, ◌>>◌, preupgrade_job_failed, max_prepared_transactions_not_zero,
}
use patroni_postgres_operato.Kube.{Job}
use patroni_postgres_operato.Client.{State}
use patroni_postgres_operato.Context.{Context}
use patroni_postgres_operato.Results.{Config}
use patroni_postgres_operato.Controllers.Configmap.{set_primary_initdb_args}
use patroni_postgres_operato.Upgrade.Logs.{get_initdb_args_from_job}
use patroni_postgres_operato.Upgrade.Jobs.{
  preupgrade_job, has_succeeded, has_failed, ensure_upgrade_job, cleanup_job,
}

-- strings.Join
unfoldable pub join : List String → String → String
join [] sep = ""
join (a ∷ []) sep = a
join (a ∷ b ∷ rest) sep = a <> (sep <> join (b ∷ rest) sep)

unfoldable pub initdb_args : Config → List String
initdb_args config =
    (if str_eq config.locale "" then [] else ("--locale=" <> config.locale) ∷ [])
    ++ ((if str_eq config.encoding "" then [] else ("--encoding=" <> config.encoding) ∷ [])
        ++ (if config.data_checksums then "--data-checksums" ∷ [] else []))

unfoldable pub parse_config_to_initdb_args : Config → String
unfolding join initdb_args
parse_config_to_initdb_args config = join (initdb_args config) " "

module _ (x : Context) where
  -- What a successful job leads to: `done`, and the error that is kept for later (`err2`).
  unfoldable pub take_config : Job → Exec (State x.client.World) (Bool × Option Error)
  unfolding ◌>>=◌ parse_config_to_initdb_args
  take_config job = do
    config ← get_initdb_args_from_job x.client job
    if config.max_prepared_transactions == 0
        then (do
          set_primary_initdb_args x.client (parse_config_to_initdb_args config)
          pure (true, none))
        else pure (false, some max_prepared_transactions_not_zero)

  abbrev pub finish : Job → Bool × Option Error → Exec (State x.client.World) Bool
  finish job (done, some e) = if has_failed job then fail preupgrade_job_failed else fail e
  finish job (done, none) = if has_failed job then fail preupgrade_job_failed else pure done

  unfoldable pub handle : Exec (State x.client.World) Bool
  unfolding take_config ◌>>=◌
  handle = do
    job ← ensure_upgrade_job x preupgrade_job
    result ← if has_succeeded job then take_config job else pure (false, none)
    cleanup_job x job
    finish job result
