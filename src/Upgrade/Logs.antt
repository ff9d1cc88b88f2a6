-- ===== src/Upgrade/Logs.antt =====
-- What a finished job printed: the last line of the log of its first pod
-- (getInitdbArgsFromJob of preupgrade.go and getResultFromPrimaryUpgradeJob of primary.go).
use patroni_postgres_operato.Base.{String, List, [], ◌∷◌, Option, none, some, str_eq, if◌then◌else◌}
use patroni_postgres_operato.Exec.{
  Exec, pure, fail, require, ◌>>=◌, selector_error, no_pod_found, short_read, json_error,
}
use patroni_postgres_operato.Kube.{Job, Pod}
use patroni_postgres_operato.Client.{Client, State, request}
use patroni_postgres_operato.Results.{Config, UpgradeJobResult}

abbrev first : List Pod → Option Pod
first [] = none
first (pod ∷ _) = some pod

module _ (c : Client) where
  unfoldable pub job_log : Job → Exec (State c.World) String
  unfolding ◌>>=◌ request
  job_log job = do
    ls ← require selector_error (c.label_selector job.selector)
    pods ← request (c.list_pods job.meta.namespace ls)
    pod ← require no_pod_found (first pods)
    text ← request (c.read_log pod 1 2048)
    if str_eq text "" then fail short_read else pure text

  unfoldable pub get_initdb_args_from_job : Job → Exec (State c.World) Config
  unfolding job_log
  get_initdb_args_from_job job = do
    text ← job_log job
    require json_error (c.json.unmarshal_config text)

  unfoldable pub get_result_from_primary_upgrade_job : Job → Exec (State c.World) UpgradeJobResult
  unfolding job_log
  get_result_from_primary_upgrade_job job = do
    text ← job_log job
    require json_error (c.json.unmarshal_result text)
