-- ===== src/Upgrade/Pods.antt =====
-- The pod that the upgrade jobs of primary.go, primary-move.go and secondary-client.go share, and
-- the job around it: one script on the image of the database, over one volume.
use patroni_postgres_operato.Base.{ℕ, String, List, [], ◌∷◌, Option, some}
use patroni_postgres_operato.Kube.{
  ObjectMeta, EnvVar, Container, bare_container, PodSpec, bare_pod, Job,
}
use patroni_postgres_operato.Api.{PatroniPostgres}
use patroni_postgres_operato.Context.{common_labels}
use patroni_postgres_operato.Security.{container_security_context, database_pod_security_context}
use patroni_postgres_operato.Controllers.Pvc.{volume_name}
use patroni_postgres_operato.Controllers.Statefulset.{data_volume_mount_path}
use patroni_postgres_operato.Upgrade.Jobs.{new_job}

unfoldable pub script_container :
    String → String → String → List EnvVar → PatroniPostgres → Container
script_container name image script env p = record bare_container {
  name = name;
  image = image;
  command = "sh" ∷ "-c" ∷ script ∷ [];
  env = env;
  volume_mounts = (volume_name, data_volume_mount_path) ∷ [];
  resources = record { limits = []; requests = p.spec.resources.requests };
  security_context = some container_security_context;
}

unfoldable pub volume_pod : Container → String → String → PatroniPostgres → PodSpec
volume_pod k claim restart p = record bare_pod {
  containers = k ∷ [];
  volumes = (volume_name, claim) ∷ [];
  restart_policy = restart;
  security_context = some database_pod_security_context;
  image_pull_secrets = p.spec.image_pull_secrets;
  node_selector = p.spec.node_selector;
  tolerations = p.spec.tolerations;
}

unfoldable pub script_job : Option ℕ → Container → String → PatroniPostgres → ObjectMeta → Job
unfolding volume_pod common_labels
script_job completions k claim p m =
    new_job m (some 600) completions (common_labels p) (volume_pod k claim "OnFailure" p)
