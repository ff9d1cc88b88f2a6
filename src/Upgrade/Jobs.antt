-- ===== src/Upgrade/Jobs.antt =====
-- private/upgrade/common.go and common/common.go: the jobs that run the operator's own image.
use patroni_postgres_operato.Base.{
  ℕ, ◌+◌, String, ◌<>◌, Bool, false, List, [], ◌∷◌, ◌++◌, Option, none, some, length,
  int32_positive, if◌then◌else◌,
}
use patroni_postgres_operato.Base.Text.{show}
use patroni_postgres_operato.Exec.{Exec, pure, ◌>>=◌}
use patroni_postgres_operato.Kube.{
  StringDict, ObjectMeta, named, EnvVar, secret_key_ref, bare_container, PodSpec, bare_pod, Job,
}
use patroni_postgres_operato.Api.{PatroniPostgres}
use patroni_postgres_operato.Results.{upgrade_mode_pre, upgrade_mode_pre_sync, upgrade_mode_post}
use patroni_postgres_operato.Client.{NamespacedName, State, background, request, find, the_instance}
use patroni_postgres_operato.Context.{Context, set_meta, common_labels}
use patroni_postgres_operato.Security.{container_security_context, generic_pod_security_context}
use patroni_postgres_operato.Controllers.Secret as Secret
use patroni_postgres_operato.Controllers.Secret.{super_user_password_key}
use patroni_postgres_operato.Controllers.Service.{postgres_port}
use patroni_postgres_operato.Controllers.Statefulset.{env, patroni_superuser_username}

-- The types that implement `UpgradeJob`.
pub data UpgradeJob : Type 0 where
  preupgrade_job preupgrade_sync_job postupgrade_job : UpgradeJob

abbrev pub postgresql_maintenance_port : ℕ
postgresql_maintenance_port = 55432

unfoldable pub mode : UpgradeJob → String
mode preupgrade_job = upgrade_mode_pre
mode preupgrade_sync_job = upgrade_mode_pre_sync
mode postupgrade_job = upgrade_mode_post

unfoldable pub active_deadline_seconds : UpgradeJob → ℕ
active_deadline_seconds preupgrade_job = 300
active_deadline_seconds preupgrade_sync_job = 300
active_deadline_seconds postupgrade_job = 3600

unfoldable pub db_port : UpgradeJob → ℕ
db_port preupgrade_job = postgres_port
db_port preupgrade_sync_job = postgresql_maintenance_port
db_port postupgrade_job = postgres_port

-- `CustomizePodSpec`, on the environment of the first container.
unfoldable pub customize_env : UpgradeJob → List EnvVar → List EnvVar
customize_env preupgrade_sync_job es = es ++ env "PAUSE" "true" ∷ []
customize_env preupgrade_job es = es
customize_env postupgrade_job es = es

unfoldable pub upgrade_jobname : PatroniPostgres → UpgradeJob → String
unfolding mode
upgrade_jobname p j = p.name <> ("-" <> mode j)

unfoldable pub upgrade_env : PatroniPostgres → UpgradeJob → List EnvVar
unfolding mode db_port show Secret.name
upgrade_env p j =
    env "DBHOST" p.name
    ∷ env "DBPORT" (show (db_port j))
    ∷ env "DBUSER" patroni_superuser_username
    ∷ record {
      name = "DBPASSWORD";
      source = secret_key_ref (Secret.name p) super_user_password_key;
    }
    ∷ env "DBNAME" "postgres"
    ∷ env "MODE" (mode j)
    ∷ env "CLUSTER_NAME" p.name
    ∷ env "CLUSTER_SIZE" (show (length p.status.volume_statuses))
    ∷ []

-- A job that was not sent yet has no status.
abbrev pub new_job : ObjectMeta → Option ℕ → Option ℕ → StringDict → PodSpec → Job
new_job m deadline completions labels spec = record {
  meta = m;
  active_deadline_seconds = deadline;
  completions = completions;
  selector = "";
  template = record { labels = labels; annotations = []; spec = spec };
  succeeded = 0;
  failed = 0;
}

unfoldable pub upgrade_job : String → PatroniPostgres → UpgradeJob → ObjectMeta → Job
unfolding mode active_deadline_seconds customize_env upgrade_env common_labels
upgrade_job image p j m =
    new_job m (some (active_deadline_seconds j)) none (common_labels p) (record bare_pod {
      enable_service_links = some false;
      containers =
          record bare_container {
            name = mode j;
            image = image;
            command = "/upgrade" ∷ [];
            env = customize_env j (upgrade_env p j);
            resources = record { limits = []; requests = ("cpu", "10m") ∷ ("memory", "64Mi") ∷ [] };
            security_context = some container_security_context;
          }
          ∷ [];
      restart_policy = "Never";
      security_context = some generic_pod_security_context;
    })

abbrev pub job_key : PatroniPostgres → String → NamespacedName
job_key p n = record { namespace = p.namespace; name = n }

-- The test of `cleanupJob` and of the handlers: a pod of the job has exited.
unfoldable pub is_finished : Job → Bool
is_finished job = int32_positive (job.succeeded + job.failed)

unfoldable pub has_succeeded : Job → Bool
has_succeeded job = int32_positive job.succeeded

unfoldable pub has_failed : Job → Bool
has_failed job = int32_positive job.failed

module _ (x : Context) where
  unfoldable pub ensure_upgrade_job : UpgradeJob → Exec (State x.client.World) Job
  unfolding ◌>>=◌ the_instance find request set_meta upgrade_jobname upgrade_job
  ensure_upgrade_job j = do
    p ← the_instance
    o ← find x.client.jobs (job_key p (upgrade_jobname p j))
    elim o [
      | some job ↦ pure job
      | none ↦ do
        m ← set_meta x.client (named (upgrade_jobname p j))
        request (x.client.jobs.create (upgrade_job x.upgrade_image p j m))
    ]

  unfoldable pub cleanup_job : Job → Exec (State x.client.World) (Unit {0})
  unfolding ◌>>=◌ request is_finished
  cleanup_job job =
      if is_finished job then request (x.client.jobs.delete job background) else pure tt
