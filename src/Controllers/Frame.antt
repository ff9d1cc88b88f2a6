-- ===== src/Controllers/Frame.antt =====
-- What the reconcilers leave of the instance: all of it, but for the ready replicas that follow a
-- stateful set, the volume statuses that follow the claims, and the state after a scaling.
use patroni_postgres_operato.Base.{
  ◌≡◌, refl, ap, suc, String, ℕ, List, [], ◌∷◌, ◌++◌, Option, none, some, Bool, true, false, arith,
}
use patroni_postgres_operato.Exec.{Exec, modify}
use patroni_postgres_operato.Kube.{ObjectMeta, StatefulSet, Pvc}
use patroni_postgres_operato.Client.{Client, State}
use patroni_postgres_operato.Client.Leaves.{
  Leaves, Leaves-pure, Leaves-bind, Leaves-request, Leaves-the_instance, leaves_rules,
}
use patroni_postgres_operato.Api.{PatroniPostgres, PatroniPostgresSpec, Node, VolumeStatus}
use patroni_postgres_operato.Base.StringMap.{lookup, erase}
use patroni_postgres_operato.Context.{Context, set_meta, common_labels}
use patroni_postgres_operato.Controllers.Secret as Secret
use patroni_postgres_operato.Controllers.Service as Service
use patroni_postgres_operato.Controllers.Rbac as Rbac
use patroni_postgres_operato.Controllers.Networkpolicy as Networkpolicy
use patroni_postgres_operato.Controllers.Pdb as Pdb
use patroni_postgres_operato.Controllers.Pvc as Pvc
use patroni_postgres_operato.Controllers.Statefulset as Statefulset
use patroni_postgres_operato.Controllers.Statefulset.{set_ready}

-- The instance but for its ready replicas.
abbrev pub but_ready : PatroniPostgres → PatroniPostgres
but_ready = set_ready 0

-- What no reconciliation of the objects changes: the spec, the version and the upgrade version.
pub record Fixed : Type 0 where
  pub name : String
  pub namespace : String
  pub spec : PatroniPostgresSpec
  pub version : ℕ
  pub upgrade_version : ℕ

abbrev pub fixed : PatroniPostgres → Fixed
fixed p = record {
  name = p.name;
  namespace = p.namespace;
  spec = p.spec;
  version = p.status.version;
  upgrade_version = p.status.upgrade_version;
}

module _ (c : Client) {B : Type 0} {f : PatroniPostgres → B} where
  pub Leaves-set_meta : (m : ObjectMeta) → Leaves f (set_meta c m)
  Leaves-set_meta m = unfold set_meta in search (leaves_rules) depth 6

  pub Leaves-gen_secret : Leaves f (Secret.gen_secret c)
  Leaves-gen_secret = unfold Secret.gen_secret in search (leaves_rules) depth 6

  pub Leaves-Secret-reconcile : Leaves f (Secret.reconcile c)
  unfolding Secret.reconcile
  Leaves-Secret-reconcile = record { at = λ s. ground arith }

  pub Leaves-reconcile_service :
      (ps : List Service.Patch) → Leaves f (Service.reconcile_service c ps)
  Leaves-reconcile_service ps =
      unfold Service.reconcile_service in search (leaves_rules, Leaves-set_meta) depth 14

  pub Leaves-Service-reconcile : Leaves f (Service.reconcile c)
  unfolding Service.reconcile
  Leaves-Service-reconcile = Leaves-reconcile_service []

  pub Leaves-reconcile_service_account : Leaves f (Rbac.reconcile_service_account c)
  unfolding Rbac.reconcile_service_account
  Leaves-reconcile_service_account = record { at = λ s. ground arith }

  pub Leaves-reconcile_role : Leaves f (Rbac.reconcile_role c)
  Leaves-reconcile_role =
      unfold Rbac.reconcile_role in search (leaves_rules, Leaves-set_meta) depth 8

  pub Leaves-reconcile_role_binding : Leaves f (Rbac.reconcile_role_binding c)
  Leaves-reconcile_role_binding =
      unfold Rbac.reconcile_role_binding in search (leaves_rules, Leaves-set_meta) depth 8

  pub Leaves-Rbac-reconcile : Leaves f (Rbac.reconcile c)
  unfolding Rbac.reconcile
  Leaves-Rbac-reconcile =
      Leaves-bind _ _ Leaves-reconcile_service_account
        λ _. Leaves-bind _ _ Leaves-reconcile_role (λ _. Leaves-reconcile_role_binding)

  pub Leaves-Networkpolicy-reconcile : Leaves f (Networkpolicy.reconcile c)
  Leaves-Networkpolicy-reconcile =
      unfold Networkpolicy.reconcile in search (leaves_rules, Leaves-set_meta) depth 8

  pub Leaves-Pdb-reconcile : Leaves f (Pdb.reconcile c)
  Leaves-Pdb-reconcile = unfold Pdb.reconcile in search (leaves_rules, Leaves-set_meta) depth 8

module _ {W B : Type 0} (f : PatroniPostgres → B) where
  -- A change of the instance that the view does not show.
  pub Leaves-modify :
      (g : PatroniPostgres → PatroniPostgres)
      → ((p : PatroniPostgres) → f (g p) ≡ f p)
      → Leaves {W = W} f (modify (λ s. record s { instance = g s.instance }))
  unfolding modify
  Leaves-modify g h = record { at = λ s. h s.instance }

pub Leaves-view :
    {W A B C : Type 0} {f : PatroniPostgres → B} {m : Exec (State W) A} (g : B → C)
    → Leaves f m
    → Leaves (λ p. g (f p)) m
Leaves-view g h = record { at = λ s. ap g (h.at s) }

module _ (x : Context) where
  pub Leaves-get_k8s_stateful_set :
      {B : Type 0} {f : PatroniPostgres → B} → Leaves f (Statefulset.get_k8s_stateful_set x)
  Leaves-get_k8s_stateful_set = unfold Statefulset.get_k8s_stateful_set in search leaves_rules

  Leaves-send_sts : (b : Bool) (sts : StatefulSet) → Leaves but_ready (Statefulset.send_sts x b sts)
  unfolding Statefulset.send_sts
  Leaves-send_sts true sts = record { at = λ s. refl }
  Leaves-send_sts false sts = record { at = λ s. refl }

  pub Leaves-reconcile_sts :
      (ps : List Statefulset.Patch) → Leaves but_ready (Statefulset.reconcile_sts x ps)
  unfolding Statefulset.reconcile_sts
  Leaves-reconcile_sts ps = search (leaves_rules, Leaves-set_meta, Leaves-send_sts) depth 8

  Leaves-scaled :
      (sts : StatefulSet)
      → Leaves {W = x.client.World} fixed
          (modify (λ s. record s { instance = Statefulset.scaled x sts s.instance }))
  unfolding Statefulset.scaled
  Leaves-scaled sts = Leaves-modify fixed (Statefulset.scaled x sts) (λ p. ground arith)

  pub Leaves-Statefulset-reconcile : Leaves fixed (Statefulset.reconcile x)
  unfolding Statefulset.reconcile
  Leaves-Statefulset-reconcile =
      Leaves-bind _ _ (Leaves-view fixed (Leaves-reconcile_sts [])) Leaves-scaled

module _ (c : Client) where
  pub Leaves-ensure_pvc :
      {B : Type 0} {f : PatroniPostgres → B} (o : Option Pvc) (name : String) (node : Node)
      → Leaves f (Pvc.ensure_pvc c o name node)
  unfolding Pvc.ensure_pvc
  Leaves-ensure_pvc none name node = search (leaves_rules, Leaves-set_meta) depth 8
  Leaves-ensure_pvc (some orig) name node = search (leaves_rules, Leaves-set_meta) depth 8

  pub Leaves-delete_all :
      {B : Type 0} {f : PatroniPostgres → B} (m : Pvc.PvcMap) → Leaves f (Pvc.delete_all c m)
  unfolding Pvc.delete_all
  Leaves-delete_all [] = Leaves-pure tt
  Leaves-delete_all ((k, y) ∷ m) = Leaves-bind _ _ (Leaves-request _) (λ _. Leaves-delete_all m)

-- A view that does not show the volume statuses.
module _ (c : Client) {B : Type 0} (f : PatroniPostgres → B)
    (h : (vs : List VolumeStatus) (p : PatroniPostgres)
      → f (Pvc.set_volume_statuses vs p) ≡ f p) where
  pub Leaves-ensure_all :
      (nodes : List Node) (idx : ℕ) (m : Pvc.PvcMap) → Leaves f (Pvc.ensure_all c idx nodes m)
  unfolding Pvc.ensure_all Pvc.add_volume_status
  Leaves-ensure_all [] idx m = Leaves-pure m
  Leaves-ensure_all (node ∷ nodes) idx m = Leaves-bind _ _ Leaves-the_instance λ p.
      let name = Pvc.pvc_name p idx in
      Leaves-bind _ _ (Leaves-ensure_pvc c (lookup name m) name node) λ y.
        Leaves-bind _ _
          (Leaves-modify f (Pvc.add_volume_status y)
            (λ q. h (q.status.volume_statuses ++ Pvc.volume_status y ∷ []) q))
          λ _. Leaves-ensure_all nodes (suc idx) (erase name m)

  pub Leaves-Pvc-reconcile : Leaves f (Pvc.reconcile c)
  unfolding Pvc.reconcile
  Leaves-Pvc-reconcile = Leaves-bind _ _ Leaves-the_instance λ p.
      Leaves-bind _ _ (Leaves-request (c.list_pvcs p.namespace (common_labels p))) λ listed.
        Leaves-bind _ _ (Leaves-modify f (Pvc.set_volume_statuses []) (h [])) λ _.
          Leaves-bind _ _ (Leaves-ensure_all p.spec.nodes 0 (Pvc.by_name listed []))
            λ left. Leaves-delete_all c (c.map_order left)
