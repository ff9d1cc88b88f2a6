-- ===== src/Security.antt =====
-- private/security/security.go: the security contexts of containers and pods.
use patroni_postgres_operato.Base.{ℕ, true, false, [], ◌∷◌, none, some}
use patroni_postgres_operato.Kube.{SecurityContext, PodSecurityContext}

abbrev pub database_user_id : ℕ
database_user_id = 15432

abbrev pub container_security_context : SecurityContext
container_security_context = record { allow_privilege_escalation = some false; drop = "ALL" ∷ [] }

abbrev pub generic_pod_security_context : PodSecurityContext
generic_pod_security_context = record {
  run_as_non_root = some true;
  run_as_user = none;
  run_as_group = none;
  fs_group = none;
  fs_group_change_policy = none;
  seccomp_profile = some "RuntimeDefault";
}

abbrev pub database_pod_security_context : PodSecurityContext
database_pod_security_context = record {
  run_as_non_root = some true;
  run_as_user = some database_user_id;
  run_as_group = some database_user_id;
  fs_group = some database_user_id;
  fs_group_change_policy = some "OnRootMismatch";
  seccomp_profile = some "RuntimeDefault";
}
