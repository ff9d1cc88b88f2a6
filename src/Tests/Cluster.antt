-- ===== src/Tests/Cluster.antt =====
-- A cluster that keeps what it is sent: one list of objects for each kind.
use patroni_postgres_operato.Base.{
  map, ◌≡◌, refl, sym, ap, false, Bool-cases, inl, inr, List, [], ◌∷◌, Option, none, some, arith,
  str_eq, if◌then◌else◌, ◌==◌,
}
use patroni_postgres_operato.Exec.{ok, err, not_found}
use patroni_postgres_operato.Kube.{
  ConfigMap, Service, ServiceAccount, Role, RoleBinding, NetworkPolicy, PodDisruptionBudget,
}
use patroni_postgres_operato.Client.{Client, Kind}
use patroni_postgres_operato.Client.Stores.{Stores}
use patroni_postgres_operato.Client.Stores.Keeps.{Apart}
use patroni_postgres_operato.Controllers.Cluster.{
  Managed, configmaps, accounts, roles, bindings, services, policies, pdbs, stateful_sets, Object,
  metadata, Filled, requests, rank, IsCluster,
}
use patroni_postgres_operato.Kube.{StatefulSet, PodTemplate, Container, Probe}
use patroni_postgres_operato.Controllers.Statefulset.Ensured.{SpecKept}
use patroni_postgres_operato.Controllers.Service.Ensured.{Assigned, default_type}
use patroni_postgres_operato.Tests as Tests
use patroni_postgres_operato.Tests.{one_member}
use patroni_postgres_operato.Tests.Log.{first, logged, contents, logged-Apart, logged-Stores}

pub record Log : Type 0 where
  pub cms : List ConfigMap
  pub accs : List ServiceAccount
  pub rls : List Role
  pub binds : List RoleBinding
  pub srvs : List Service
  pub pols : List NetworkPolicy
  pub budgets : List PodDisruptionBudget
  pub sets : List StatefulSet

abbrev pub sent : (m : Managed) → Log → List (Object m)
sent configmaps w = w.cms
sent accounts w = w.accs
sent roles w = w.rls
sent bindings w = w.binds
sent services w = w.srvs
sent policies w = w.pols
sent pdbs w = w.budgets
sent stateful_sets w = w.sets

abbrev pub keep : (m : Managed) → List (Object m) → Log → Log
keep configmaps l w = record w { cms = l }
keep accounts l w = record w { accs = l }
keep roles l w = record w { rls = l }
keep bindings l w = record w { binds = l }
keep services l w = record w { srvs = l }
keep policies l w = record w { pols = l }
keep pdbs l w = record w { budgets = l }
keep stateful_sets l w = record w { sets = l }

-- A service gets the address that it had, or a new one.
abbrev pub assign : Option Service → Service → Service
assign o s = record s {
  type = default_type s.type;
  cluster_ip =
      if str_eq s.cluster_ip ""
      then (elim o [ none ↦ "10.0.0.1" | some t ↦ t.cluster_ip ])
      else s.cluster_ip;
}

abbrev default_probe : Option Probe → Option Probe
default_probe none = none
default_probe (some r) =
    some
      (record r { success_threshold = if r.success_threshold == 0 then 1 else r.success_threshold })

abbrev default_container : Container → Container
default_container k = record k {
  liveness_probe = default_probe k.liveness_probe;
  readiness_probe = default_probe k.readiness_probe;
}

abbrev pub default_template : PodTemplate → PodTemplate
default_template t = record t {
  spec = record t.spec {
    restart_policy = if str_eq t.spec.restart_policy "" then "Always" else t.spec.restart_policy;
    containers = map default_container t.spec.containers;
  };
}

-- A stateful set gets the defaults, and keeps its counts; a new one has none.
abbrev pub count : Option StatefulSet → StatefulSet → StatefulSet
count none a = record a {
  spec = record a.spec { template = default_template a.spec.template };
  ready_replicas = 0;
  available_replicas = 0;
}
count (some b) a = record a {
  spec = record a.spec { template = default_template a.spec.template };
  ready_replicas = b.ready_replicas;
  available_replicas = b.available_replicas;
}

abbrev pub fill : (m : Managed) → Option (Object m) → Object m → Object m
fill services o a = assign o a
fill configmaps o a = a
fill accounts o a = a
fill roles o a = a
fill bindings o a = a
fill policies o a = a
fill pdbs o a = a
fill stateful_sets o a = count o a

abbrev pub kind_of : (m : Managed) → Kind Log (Object m)
kind_of m = logged (metadata m) (fill m) (sent m) (keep m)

-- Nothing is kept: a get finds nothing, and what is sent is accepted.
abbrev pub accepting : {A : Type 0} → Kind Log A
accepting = record {
  get = λ n w. (err not_found, w);
  create = λ a w. (ok a, w);
  update = λ a w. (ok a, w);
  delete = λ a d w. (ok tt, w);
}

abbrev pub keeping : Client
keeping = record {
  World = Log;
  configmaps = kind_of configmaps;
  secrets = accepting;
  services = kind_of services;
  statefulsets = kind_of stateful_sets;
  jobs = accepting;
  pvcs = accepting;
  service_accounts = kind_of accounts;
  roles = kind_of roles;
  role_bindings = kind_of bindings;
  network_policies = kind_of policies;
  pdbs = kind_of pdbs;
  instances = accepting;
  update_status = λ p w. (ok tt, w);
  list_pvcs = λ n l w. (ok [], w);
  patch_pvc = λ a o w. (ok a, w);
  label_selector = λ t. some "";
  list_pods = λ n l w. (ok [], w);
  read_log = λ p n m w. (ok "{}", w);
  set_owner_reference = λ n m. ok (record m { owners = n ∷ [] });
  random = λ n w. ([], w);
  map_order = λ m. m;
  json = Tests.json;
}

keep-sent : (m : Managed) (l : List (Object m)) (w : Log) → sent m (keep m l w) ≡ l
keep-sent configmaps l w = refl
keep-sent accounts l w = refl
keep-sent roles l w = refl
keep-sent bindings l w = refl
keep-sent services l w = refl
keep-sent policies l w = refl
keep-sent pdbs l w = refl
keep-sent stateful_sets l w = refl

Assigned-assign : (o : Option Service) (s : Service) → Assigned s (assign o s)
Assigned-assign o s = record {
  meta = refl;
  type = refl;
  cluster_ip = λ h. rw h refl;
  selector = refl;
  ports = refl;
}

assign_same : (a x : Service) → Assigned a x → assign (some x) a ≡ x
assign_same a x h = elim (Bool-cases (str_eq a.cluster_ip "")) [
  | inl e ↦ ground (arith, h.meta, h.type, h.selector, h.ports, e)
  | inr e ↦ ground (arith, h.meta, h.type, h.selector, h.ports, h.cluster_ip e, e)
]

SpecKept-count :
    (o : Option StatefulSet) (a : StatefulSet) → SpecKept default_template a (count o a)
SpecKept-count none a = record { meta = refl; spec = refl }
SpecKept-count (some b) a = record { meta = refl; spec = refl }

count_same : (a x : StatefulSet) → SpecKept default_template a x → count (some x) a ≡ x
count_same a x h = ground (arith, h.meta, h.spec)

view-keep :
    (m n : Managed)
    → (rank m == rank n) ≡ false
    → (l : List (Object n)) (w : Log) → sent m (keep n l w) ≡ sent m w
view-keep configmaps configmaps h l w = absurd (ground (arith, h))
view-keep configmaps accounts h l w = refl
view-keep configmaps roles h l w = refl
view-keep configmaps bindings h l w = refl
view-keep configmaps services h l w = refl
view-keep configmaps policies h l w = refl
view-keep configmaps pdbs h l w = refl
view-keep configmaps stateful_sets h l w = refl
view-keep accounts configmaps h l w = refl
view-keep accounts accounts h l w = absurd (ground (arith, h))
view-keep accounts roles h l w = refl
view-keep accounts bindings h l w = refl
view-keep accounts services h l w = refl
view-keep accounts policies h l w = refl
view-keep accounts pdbs h l w = refl
view-keep accounts stateful_sets h l w = refl
view-keep roles configmaps h l w = refl
view-keep roles accounts h l w = refl
view-keep roles roles h l w = absurd (ground (arith, h))
view-keep roles bindings h l w = refl
view-keep roles services h l w = refl
view-keep roles policies h l w = refl
view-keep roles pdbs h l w = refl
view-keep roles stateful_sets h l w = refl
view-keep bindings configmaps h l w = refl
view-keep bindings accounts h l w = refl
view-keep bindings roles h l w = refl
view-keep bindings bindings h l w = absurd (ground (arith, h))
view-keep bindings services h l w = refl
view-keep bindings policies h l w = refl
view-keep bindings pdbs h l w = refl
view-keep bindings stateful_sets h l w = refl
view-keep services configmaps h l w = refl
view-keep services accounts h l w = refl
view-keep services roles h l w = refl
view-keep services bindings h l w = refl
view-keep services services h l w = absurd (ground (arith, h))
view-keep services policies h l w = refl
view-keep services pdbs h l w = refl
view-keep services stateful_sets h l w = refl
view-keep policies configmaps h l w = refl
view-keep policies accounts h l w = refl
view-keep policies roles h l w = refl
view-keep policies bindings h l w = refl
view-keep policies services h l w = refl
view-keep policies policies h l w = absurd (ground (arith, h))
view-keep policies pdbs h l w = refl
view-keep policies stateful_sets h l w = refl
view-keep pdbs configmaps h l w = refl
view-keep pdbs accounts h l w = refl
view-keep pdbs roles h l w = refl
view-keep pdbs bindings h l w = refl
view-keep pdbs services h l w = refl
view-keep pdbs policies h l w = refl
view-keep pdbs pdbs h l w = absurd (ground (arith, h))
view-keep pdbs stateful_sets h l w = refl
view-keep stateful_sets configmaps h l w = refl
view-keep stateful_sets accounts h l w = refl
view-keep stateful_sets roles h l w = refl
view-keep stateful_sets bindings h l w = refl
view-keep stateful_sets services h l w = refl
view-keep stateful_sets policies h l w = refl
view-keep stateful_sets pdbs h l w = refl
view-keep stateful_sets stateful_sets h l w = absurd (ground (arith, h))

requests_of : (m : Managed) → requests keeping m ≡ kind_of m
requests_of configmaps = refl
requests_of accounts = refl
requests_of roles = refl
requests_of bindings = refl
requests_of services = refl
requests_of policies = refl
requests_of pdbs = refl
requests_of stateful_sets = refl

kind-Apart :
    (m n : Managed)
    → (rank m == rank n) ≡ false
    → Apart (contents (metadata m) (fill m) (sent m) (keep m)) (kind_of n)
kind-Apart m n h =
    logged-Apart (metadata n) (fill n) (sent n) (keep n) _
      (λ l w j. ap (first (metadata m) j) (view-keep m n h l w))

kind-Stores :
    (m : Managed)
    → Stores
        (metadata m)
        (Filled default_template m)
        (contents (metadata m) (fill m) (sent m) (keep m))
        (requests keeping m)
kind-Stores configmaps =
    logged-Stores (metadata configmaps) (fill configmaps) (sent configmaps) (keep configmaps)
      (keep-sent configmaps) (λ o a. refl) (λ a b h. ap (metadata configmaps) {x = b} {y = a} h)
      (λ a x h. sym h)
kind-Stores accounts =
    logged-Stores (metadata accounts) (fill accounts) (sent accounts) (keep accounts)
      (keep-sent accounts) (λ o a. refl) (λ a b h. ap (metadata accounts) {x = b} {y = a} h)
      (λ a x h. sym h)
kind-Stores roles =
    logged-Stores (metadata roles) (fill roles) (sent roles) (keep roles) (keep-sent roles)
      (λ o a. refl) (λ a b h. ap (metadata roles) {x = b} {y = a} h) (λ a x h. sym h)
kind-Stores bindings =
    logged-Stores (metadata bindings) (fill bindings) (sent bindings) (keep bindings)
      (keep-sent bindings) (λ o a. refl) (λ a b h. ap (metadata bindings) {x = b} {y = a} h)
      (λ a x h. sym h)
kind-Stores services =
    logged-Stores (metadata services) (fill services) (sent services) (keep services)
      (keep-sent services) Assigned-assign (λ a b h. h.meta) assign_same
kind-Stores policies =
    logged-Stores (metadata policies) (fill policies) (sent policies) (keep policies)
      (keep-sent policies) (λ o a. refl) (λ a b h. ap (metadata policies) {x = b} {y = a} h)
      (λ a x h. sym h)
kind-Stores pdbs =
    logged-Stores (metadata pdbs) (fill pdbs) (sent pdbs) (keep pdbs) (keep-sent pdbs) (λ o a. refl)
      (λ a b h. ap (metadata pdbs) {x = b} {y = a} h) (λ a x h. sym h)
kind-Stores stateful_sets =
    logged-Stores (metadata stateful_sets) (fill stateful_sets) (sent stateful_sets)
      (keep stateful_sets) (keep-sent stateful_sets) SpecKept-count (λ a b h. h.meta) count_same

pub cluster : IsCluster keeping
cluster = record {
  defaults = default_template;
  view = λ m. contents (metadata m) (fill m) (sent m) (keep m);
  stores = kind-Stores;
  owns = record {
    key = λ n a b h. ground (arith, h);
    labels = λ n a b h. ground (arith, h);
    annotations = λ n a b h. ground (arith, h);
    owned = λ n a b h e. ground (arith, h, e);
    again = λ n a b h. ground (arith, h);
  };
  apart = λ m n h. rw (requests_of n) (kind-Apart m n h);
  claims = λ m. record {
    claims = record { get = λ n w j. refl; create = λ a w j. refl; update = λ a w j. refl };
    list = λ n l w j. refl;
    patch = λ a b w j. refl;
    delete = λ a d w j. refl;
  };
  status = λ m p w j. refl;
  secrets = λ m. record {
    secrets = record { get = λ n w j. refl; create = λ a w j. refl; update = λ a w j. refl };
    random = λ n w j. refl;
  };
}
