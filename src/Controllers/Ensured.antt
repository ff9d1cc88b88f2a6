-- ===== src/Controllers/Ensured.antt =====
-- The network policy, the disruption budget, the role and its binding, as recipes of `Ensure`
-- (private/controllers/networkpolicy, pdb and rbac).
use patroni_postgres_operato.Base.{◌≡◌, refl, arith, Option, some, [], ◌∷◌, ap}
use patroni_postgres_operato.Kube.{
  StringDict, ObjectMeta, PodDisruptionBudget, NetworkPolicy, Role, RoleBinding,
}
use patroni_postgres_operato.Api.{desired, PatroniPostgres, PatroniPostgresStatus}
use patroni_postgres_operato.Client.{Client}
use patroni_postgres_operato.Client.Stores.{AsSent}
use patroni_postgres_operato.Context.{common_labels}
use patroni_postgres_operato.Controllers.Pdb as Pdb
use patroni_postgres_operato.Controllers.Networkpolicy as Networkpolicy
use patroni_postgres_operato.Controllers.Rbac as Rbac
use patroni_postgres_operato.Controllers.Ensure.{Recipe, ensure}

pub labels-status :
    (p : PatroniPostgres) (st : PatroniPostgresStatus)
    → common_labels (desired st p) ≡ common_labels p
unfolding common_labels
labels-status p st = refl

abbrev pub pdb_meta : PodDisruptionBudget → ObjectMeta
pdb_meta o = o.meta

abbrev pub budget : Recipe pdb_meta AsSent
budget = record {
  name = λ p. p.name;
  start = λ p o. Pdb.meta_or_new p.name o;
  build = λ p m o. record {
    meta = m;
    max_unavailable = some Pdb.max_unavailable;
    selector = common_labels p;
  };
  start_none = λ p. refl;
  start_some = λ p a. refl;
  meta-build = λ p m o. refl;
  build_again = λ p m o b e. e;
  name_status = λ p st. refl;
  build_status = λ p st m o.
      ap
        (λ (l : StringDict). record {
          meta = m;
          max_unavailable = some Pdb.max_unavailable;
          selector = l;
        })
        (labels-status p st);
}

abbrev pub new_policy : PatroniPostgres → ObjectMeta → NetworkPolicy
new_policy p m = record {
  meta = m;
  pod_selector = common_labels p;
  ingress = Networkpolicy.ingress_rules p;
}

pub policy-status :
    (p : PatroniPostgres) (st : PatroniPostgresStatus) (m : ObjectMeta)
    → new_policy (desired st p) m ≡ new_policy p m
unfolding common_labels Networkpolicy.ingress_rules
policy-status p st m = refl

abbrev pub policy_meta : NetworkPolicy → ObjectMeta
policy_meta o = o.meta

abbrev pub policy : Recipe policy_meta AsSent
policy = record {
  name = λ p. p.name;
  start = λ p o. Networkpolicy.meta_or_new p.name o;
  build = λ p m o. new_policy p m;
  start_none = λ p. refl;
  start_some = λ p a. refl;
  meta-build = λ p m o. refl;
  build_again = λ p m o b e. e;
  name_status = λ p st. refl;
  build_status = λ p st m o. policy-status p st m;
}

abbrev pub role_meta : Role → ObjectMeta
role_meta o = o.meta

abbrev pub role : Recipe role_meta AsSent
role = record {
  name = λ p. p.name;
  start = λ p o. (Rbac.role_or_new p o).meta;
  build = λ p m o. record { meta = m; rules = Rbac.delegated_rules };
  start_none = λ p. refl;
  start_some = λ p a. refl;
  meta-build = λ p m o. refl;
  build_again = λ p m o b e. e;
  name_status = λ p st. refl;
  build_status = λ p st m o. refl;
}

abbrev pub binding_meta : RoleBinding → ObjectMeta
binding_meta o = o.meta

abbrev pub new_binding : PatroniPostgres → ObjectMeta → Option RoleBinding → RoleBinding
new_binding p m o = record (Rbac.binding_or_new p o) {
  meta = m;
  subjects = ("ServiceAccount", p.name) ∷ [];
}

pub binding_again :
    (p : PatroniPostgres) (m : ObjectMeta) (o : Option RoleBinding) (b : RoleBinding)
    → b ≡ new_binding p m o
    → b ≡ new_binding p m (some b)
binding_again p m o b e = ground arith

abbrev pub binding : Recipe binding_meta AsSent
binding = record {
  name = λ p. p.name;
  start = λ p o. (Rbac.binding_or_new p o).meta;
  build = λ p m o. new_binding p m o;
  start_none = λ p. refl;
  start_some = λ p a. refl;
  meta-build = λ p m o. refl;
  build_again = λ p m o b e. binding_again p m o b e;
  name_status = λ p st. refl;
  build_status = λ p st m o. refl;
}

module _ (c : Client) where
  pub pdb-ensure : Pdb.reconcile c ≡ ensure c c.pdbs budget
  unfolding Pdb.reconcile ensure
  pdb-ensure = refl

  pub policy-ensure : Networkpolicy.reconcile c ≡ ensure c c.network_policies policy
  unfolding Networkpolicy.reconcile ensure
  policy-ensure = refl

  pub role-ensure : Rbac.reconcile_role c ≡ ensure c c.roles role
  unfolding Rbac.reconcile_role ensure
  role-ensure = refl

  pub binding-ensure : Rbac.reconcile_role_binding c ≡ ensure c c.role_bindings binding
  unfolding Rbac.reconcile_role_binding ensure
  binding-ensure = refl
