-- ===== src/Controllers/Adopted.antt =====
-- The service account and the config maps as objects that are created once
-- (private/controllers/rbac and configmap).
use patroni_postgres_operato.Base.{◌≡◌, refl, String, ◌<>◌}
use patroni_postgres_operato.Kube.{ObjectMeta, ServiceAccount, ConfigMap}
use patroni_postgres_operato.Api.{PatroniPostgres}
use patroni_postgres_operato.Client.{Client}
use patroni_postgres_operato.Client.Stores.{AsSent}
use patroni_postgres_operato.Controllers.Rbac as Rbac
use patroni_postgres_operato.Controllers.Rbac.{service_account_name}
use patroni_postgres_operato.Controllers.Configmap.{reconcile_one}
use patroni_postgres_operato.Controllers.Adopt.{Adoption, adopt}

abbrev pub account_meta : ServiceAccount → ObjectMeta
account_meta a = a.meta

abbrev pub account : Adoption account_meta AsSent
account = record {
  with_meta = λ a m. record { meta = m };
  fresh = λ m. record { meta = m };
  meta-with_meta = λ a m. refl;
  meta-fresh = λ m. refl;
}

abbrev pub cm_meta : ConfigMap → ObjectMeta
cm_meta cm = cm.meta

abbrev pub config_map : Adoption cm_meta AsSent
config_map = record {
  with_meta = λ cm m. record cm { meta = m };
  fresh = λ m. record { meta = m };
  meta-with_meta = λ cm m. refl;
  meta-fresh = λ m. refl;
}

abbrev pub cm_name : String → PatroniPostgres → String
cm_name name p = p.name <> ("-" <> name)

module _ (c : Client) where
  pub account-adopt :
      Rbac.reconcile_service_account c ≡ adopt c c.service_accounts account service_account_name
  unfolding Rbac.reconcile_service_account adopt
  account-adopt = refl

  pub cm-adopt :
      (name : String) → reconcile_one c name ≡ adopt c c.configmaps config_map (cm_name name)
  unfolding reconcile_one adopt
  cm-adopt name = refl
