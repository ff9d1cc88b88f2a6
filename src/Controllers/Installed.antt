-- ===== src/Controllers/Installed.antt =====
-- What the instance asks for of the managed kinds, which are all but the secret and the volume claims:
-- the objects that are to be in the cluster, whatever the way to them.
use patroni_postgres_operato.Base.{◌∙◌, ◌≡◌, ◌≢◌, String, ◌<>◌, [], ◌∷◌, some}
use patroni_postgres_operato.Kube.{
  ObjectMeta, Service, Role, RoleBinding, NetworkPolicy, PodDisruptionBudget, int,
}
use patroni_postgres_operato.Api.{PatroniPostgres}
use patroni_postgres_operato.Client.{Client, Kind, NamespacedName}
use patroni_postgres_operato.Client.Stores.{View, Same, Stores, Owns}
use patroni_postgres_operato.Context.{common_labels}
use patroni_postgres_operato.Image.{Image}
use patroni_postgres_operato.Base.{length}
use patroni_postgres_operato.Base.{int32}
use patroni_postgres_operato.Kube.{StatefulSet}
use patroni_postgres_operato.Controllers.PodTemplate.{pod_template}
use patroni_postgres_operato.Controllers.Pdb as Pdb
use patroni_postgres_operato.Controllers.Networkpolicy as Networkpolicy
use patroni_postgres_operato.Controllers.Rbac as Rbac
use patroni_postgres_operato.Controllers.Service.{
  primary_selector, headless_service_name, postgres_port, postgres_port_name,
}
use patroni_postgres_operato.Controllers.Ensure.{Recipe}
use patroni_postgres_operato.Controllers.Ensure.Settling.{Settled}
use patroni_postgres_operato.Controllers.Adopt.{Adoption}
use patroni_postgres_operato.Controllers.Adopt.Owning.{Owned}
use patroni_postgres_operato.Controllers.Cluster.{
  Managed, configmaps, accounts, roles, bindings, services, policies, pdbs, stateful_sets, metadata,
  IsCluster,
}
use patroni_postgres_operato.Controllers.Service.Ensured.{default_type}

-- There is an object under the key, it has an owner, and it is what it should be.
pub record Holds {W A : Type 0} (meta : A → ObjectMeta) (view : View W A) (n : NamespacedName)
    (Is : A → Type 0) (w : W) : Type 0 where
  pub object : A
  pub there : view w n ≡ some object
  pub has_owner : (meta object).owners ≢ []
  pub is : Is object

module _ {c : Client} (cl : IsCluster c) (im : Image) (p : PatroniPostgres) where
  abbrev named_as : String → NamespacedName
  named_as n = record { namespace = p.namespace; name = n }

  abbrev Labelled : ObjectMeta → Type 0
  Labelled m = m.labels ≡ common_labels p

  abbrev pub HasConfigmap : String → c.World → Type 0
  HasConfigmap name =
      Holds (metadata configmaps) (cl.view configmaps) (named_as (p.name <> ("-" <> name)))
        (λ o. Unit {0})

  abbrev pub IsMain : Service → Type 0
  IsMain o =
      Labelled o.meta
      × (o.type ≡ default_type p.spec.service_type)
      × (o.selector ≡ primary_selector p)
      × (o.ports
          ≡ record {
            name = postgres_port_name;
            port = postgres_port;
            target_port = int postgres_port;
          }
            ∷ [])

  abbrev pub IsHeadless : Service → Type 0
  IsHeadless o = Labelled o.meta × (o.cluster_ip ≡ "None") × (o.selector ≡ primary_selector p)

  -- As many replicas as the spec has nodes, and the template of the pods for the image, in
  -- which the server has filled in its defaults.
  abbrev pub RunsNodes : StatefulSet → Type 0
  RunsNodes o =
      Labelled o.meta
      × (o.spec.min_ready_seconds ≡ 60)
      × (o.spec.replicas ≡ some (int32 (length p.spec.nodes)))
      × (o.spec.template ≡ cl.defaults (pod_template c.json im [] p))

  pub record Installed (w : c.World) : Type 0 where
    pub set : Holds (metadata stateful_sets) (cl.view stateful_sets) (named_as p.name) RunsNodes w
    pub config : HasConfigmap "config" w
    pub leader : HasConfigmap "leader" w
    pub sync : HasConfigmap "sync" w
    pub failover : HasConfigmap "failover" w
    pub account : Holds (metadata accounts) (cl.view accounts) (named_as p.name) (λ o. Unit {0}) w
    pub role :
        Holds
          (metadata roles)
          (cl.view roles)
          (named_as p.name)
          (λ (o : Role). Labelled o.meta × (o.rules ≡ Rbac.delegated_rules))
          w
    pub binding :
        Holds
          (metadata bindings)
          (cl.view bindings)
          (named_as p.name)
          (λ (o : RoleBinding). Labelled o.meta × (o.subjects ≡ ("ServiceAccount", p.name) ∷ []))
          w
    pub main : Holds (metadata services) (cl.view services) (named_as p.name) IsMain w
    pub headless :
        Holds
          (metadata services)
          (cl.view services)
          (named_as (headless_service_name p))
          IsHeadless
          w
    pub policy :
        Holds
          (metadata policies)
          (cl.view policies)
          (named_as p.name)
          (λ (o : NetworkPolicy).
            Labelled o.meta
            × (o.pod_selector ≡ common_labels p)
            × (o.ingress ≡ Networkpolicy.ingress_rules p))
          w
    pub budget :
        Holds
          (metadata pdbs)
          (cl.view pdbs)
          (named_as p.name)
          (λ (o : PodDisruptionBudget).
            Labelled o.meta
            × (o.max_unavailable ≡ some Pdb.max_unavailable)
            × (o.selector ≡ common_labels p))
          w

Holds-Same :
    {W A : Type 0} {meta : A → ObjectMeta} {view : View W A} {n : NamespacedName} {Is : A → Type 0}
    {w w' : W}
    → Same view w w'
    → Holds meta view n Is w
    → Holds meta view n Is w'
Holds-Same {n = n} same d = record {
  object = d.object;
  there = same n ∙ d.there;
  has_owner = d.has_owner;
  is = d.is;
}

-- It stays there while no object of these kinds changes.
pub Installed-Same :
    {c : Client} (cl : IsCluster c) (im : Image) (p : PatroniPostgres) (w w' : c.World)
    → ((m : Managed) → Same (cl.view m) w w')
    → Installed cl im p w
    → Installed cl im p w'
Installed-Same cl im p w w' same d = record {
  set = Holds-Same (same stateful_sets) d.set;
  config = Holds-Same (same configmaps) d.config;
  leader = Holds-Same (same configmaps) d.leader;
  sync = Holds-Same (same configmaps) d.sync;
  failover = Holds-Same (same configmaps) d.failover;
  account = Holds-Same (same accounts) d.account;
  role = Holds-Same (same roles) d.role;
  binding = Holds-Same (same bindings) d.binding;
  main = Holds-Same (same services) d.main;
  headless = Holds-Same (same services) d.headless;
  policy = Holds-Same (same policies) d.policy;
  budget = Holds-Same (same pdbs) d.budget;
}

module _ {A : Type 0} (c : Client) (k : Kind c.World A) {meta : A → ObjectMeta}
    {Fills : A → A → Type 0} (view : View c.World A) (stores : Stores meta Fills view k)
    (owns : Owns c.set_owner_reference) where
  pub Settled-Holds :
      (r : Recipe meta Fills) (Is : A → Type 0) (p : PatroniPostgres) (w : c.World)
      → ((o : A) → (meta o).labels ≡ common_labels p → Fills (r.build p (meta o) (some o)) o → Is o)
      → Settled c k r view stores owns p w
      → Holds meta view (record { namespace = p.namespace; name = r.name p }) Is w
  Settled-Holds r Is p w is d = record {
    object = d.object;
    there = d.there;
    has_owner = owns.owned _ _ _ d.kept;
    is = is d.object (owns.labels _ _ _ d.kept) d.built;
  }

  pub Owned-Holds :
      (r : Adoption meta Fills) (name : PatroniPostgres → String) (p : PatroniPostgres)
      (w : c.World)
      → Owned c k r name view stores owns p w
      → Holds meta view (record { namespace = p.namespace; name = name p }) (λ o. Unit {0}) w
  Owned-Holds r name p w d = record {
    object = d.object;
    there = d.there;
    has_owner = d.has_owner;
    is = tt;
  }
