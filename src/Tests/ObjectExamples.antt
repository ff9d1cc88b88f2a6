-- ===== src/Tests/ObjectExamples.antt =====
-- The theorems about the objects of the cluster, applied to small ones.
use patroni_postgres_operato.Base.{
  ◌∷◌, none, ◌≡◌, refl, ◌≢◌, ◌⊎◌, ◌↔◌, ◌<>◌, true, [], some, arith, length,
}
use patroni_postgres_operato.Base.StringMap.{insert, erase, lookup}
use patroni_postgres_operato.Base.Text.{show}
use patroni_postgres_operato.Exec.{ok, err, no_latest_checkpoint_location_found}
use patroni_postgres_operato.Kube.{ConfigMap}
use patroni_postgres_operato.Api.{PatroniPostgres, state_ready, state_scaling}
use patroni_postgres_operato.Client.{Client, State}
use patroni_postgres_operato.Image.{upgrade_versions}
use patroni_postgres_operato.Controllers.Configmap.{
  get_db_id, set_db_id, get_primary_initdb_args, get_secondary_stream_args,
  clear_upgrade_annotations, get_sync_leader, annotation,
}
use patroni_postgres_operato.Controllers.Configmap.Annotations.{
  set_db_id-get_db_id, clear_upgrade_annotations-reads,
}
use patroni_postgres_operato.Controllers.Configmap.Leader.{get_sync_leader-pod}
use patroni_postgres_operato.Controllers.Statefulset as Statefulset
use patroni_postgres_operato.Controllers.Statefulset.Ready.{reconcile-state}
use patroni_postgres_operato.Controllers.Pvc as Pvc
use patroni_postgres_operato.Kube as Kube
use patroni_postgres_operato.Kube.{named, ObjectMeta}
use Prim.Native.String.{len}
use patroni_postgres_operato.Base.{ℕ, zero, suc, List, All, ap, ◌∙◌, String}
use patroni_postgres_operato.Client.{find}
use patroni_postgres_operato.Controllers.Secret.Length.{IsByte, created, reconcile-len}
use patroni_postgres_operato.Controllers.Secret as Secret
use patroni_postgres_operato.Controllers.Secret.Kept.{reconcile-found}
use patroni_postgres_operato.Controllers.Pvc.Kept.{Deleted, reconcile-Deleted}
use patroni_postgres_operato.Exec.Chain.{Chain}
use patroni_postgres_operato.Base.StringMap.{AllEntries}
use patroni_postgres_operato.Kube.{Pvc}
use patroni_postgres_operato.Context.{common_labels}
use patroni_postgres_operato.Controllers.Pvc.Volumes.{
  KeepsNames, names_of, claim_names, reconcile-names,
}
use patroni_postgres_operato.Controllers.Selectors.{selects, selects-other}
use patroni_postgres_operato.Tests.{
  client, context, image15, json, holding, cell-IsStore, config_map, at_state, one_member,
  two_members,
}

abbrev s1 : State ConfigMap
s1 = at_state (one_member "scaling" 15 0)

abbrev s2 : State ConfigMap
s2 = at_state (two_members "scaling" 15 0)

db_id-set : (set_db_id client "7" s1).0 ≡ ok tt
unfolding set_db_id insert erase lookup
db_id-set = refl

set_db_id-get_db_id_example : (get_db_id client (set_db_id client "7" s1).1).0 ≡ ok "7"
set_db_id-get_db_id_example = set_db_id-get_db_id client cell-IsStore "7" s1 db_id-set

annotations-cleared : (clear_upgrade_annotations client s1).0 ≡ ok tt
unfolding clear_upgrade_annotations erase
annotations-cleared = refl

db_id-read : (get_db_id client s1).0 ≡ ok "1"
unfolding get_db_id lookup
db_id-read = refl

clear_upgrade_annotations-reads_example :
    let t = (clear_upgrade_annotations client s1).1 in
    ((get_primary_initdb_args client t).0 ≡ ok "")
    × ((get_secondary_stream_args client t).0 ≡ err no_latest_checkpoint_location_found)
    × ((get_db_id client t).0 ≡ ok "1")
clear_upgrade_annotations-reads_example =
    clear_upgrade_annotations-reads client cell-IsStore "1" s1 annotations-cleared db_id-read

abbrev reading : Client
reading = record client { configmaps = holding config_map }

leader-noted : annotation "leader" config_map ≡ some ("db" <> ("-" <> show 1))
unfolding lookup show
leader-noted = refl

get_sync_leader-pod_example : (get_sync_leader reading s2).0 ≡ ok 1
get_sync_leader-pod_example =
    get_sync_leader-pod reading s2 config_map config_map 1 (ground arith) refl leader-noted
      (ground arith)

sts-reconciled : (Statefulset.reconcile context s1).0 ≡ ok tt
unfolding Statefulset.reconcile
sts-reconciled = refl

reconcile-state_example :
    let p = s1.instance in
    let q = (Statefulset.reconcile context s1).1.instance in
    ((q.status.ready ≡ length p.spec.nodes)
      × (q.status.state ≡ state_ready)
      × (q.status.upgrade_versions ≡ upgrade_versions image15 15))
    ⊎ ((q.status.ready ≢ length p.spec.nodes)
        × (q.status.state ≡ state_scaling)
        × (q.status.upgrade_versions ≡ p.status.upgrade_versions))
reconcile-state_example = reconcile-state context s1 sts-reconciled

client-KeepsNames : KeepsNames client
client-KeepsNames = record {
  owner = λ n m m' h. ground arith;
  create = λ a b w h. ground arith;
  patch = λ a o b w h. ground arith;
}

claims-reconciled : (Pvc.reconcile client s2).0 ≡ ok tt
unfolding Pvc.reconcile lookup erase
claims-reconciled = refl

reconcile-names_example :
    names_of (Pvc.reconcile client s2).1.instance ≡ claim_names s2.instance 0 s2.instance.spec.nodes
reconcile-names_example = reconcile-names client client-KeepsNames s2 claims-reconciled

abbrev other : PatroniPostgres
other = record s1.instance { name = "other" }

selects-other_example :
    (selects
        (Statefulset.new_sts s1.instance).spec.selector
        (Statefulset.pod_template json image15 [] other).labels
      ≡ true)
    ↔ (other.name ≡ s1.instance.name)
selects-other_example = selects-other json image15 [] s1.instance other

-- A claim of a third member is listed, which is not wanted.
abbrev extra : Pvc
extra = record {
  meta = named "pgdata-db-2";
  access_modes = [];
  storage_class_name = none;
  requests = [];
  phase = "Bound";
  capacity = [];
}

abbrev shrunk : Client
shrunk = record client { list_pvcs = λ n l w. (ok (extra ∷ []), w) }

extra-deleted : (Pvc.reconcile shrunk s2).0 ≡ ok tt
unfolding Pvc.reconcile Pvc.pvc_name Pvc.by_name insert lookup erase show
extra-deleted = refl

reconcile-Deleted_example :
    let p = s2.instance in
    (listed : List Pvc) × (left : Pvc.PvcMap) × (u : State ConfigMap) × ((shrunk.list_pvcs
        p.namespace
        (common_labels p)
        s2.world).0
      ≡ ok listed)
    × (Pvc.ensure_all shrunk 0 p.spec.nodes (Pvc.by_name listed []) (record {
      world = (shrunk.list_pvcs p.namespace (common_labels p) s2.world).1;
      instance = Pvc.set_volume_statuses [] p;
    })
        ≡ (ok left, u))
    × Chain (Deleted shrunk) left u (Pvc.reconcile shrunk s2).1
    × AllEntries (λ (k : String) (y : Pvc). y.meta.name ≢ Pvc.pvc_name p 1) left
reconcile-Deleted_example =
    reconcile-Deleted shrunk s2 1 (λ P m all. all) (ground arith) extra-deleted

abbrev passwords : Kube.Secret
passwords = record { meta = named "db"; string_data = ("superuser-password", "a") ∷ [] }

abbrev with_secret : Client
with_secret = record client { secrets = holding passwords }

reconcile-found_example :
    ((Secret.reconcile with_secret s1).1.world ≡ config_map)
    ⊎ ((passwords.meta.owners ≡ [])
        × (m : ObjectMeta) × (with_secret.set_owner_reference "db"
              (record passwords.meta { namespace = "ns"; labels = common_labels s1.instance })
            ≡ ok m)
        × ((Secret.reconcile with_secret s1).1.world
            ≡ (with_secret.secrets.update (record passwords { meta = m }) config_map).1))
reconcile-found_example = reconcile-found with_secret s1 passwords config_map refl

-- The random bytes are all zero.
abbrev zeros : ℕ → List ℕ
zeros zero = []
zeros (suc n) = 0 ∷ zeros n

abbrev filling : Client
filling = record client { random = λ n w. (zeros n, w) }

zeros-All : (n : ℕ) → All IsByte (zeros n)
zeros-All zero = tt
zeros-All (suc n) = (omega arith, zeros-All n)

length-zeros : (n : ℕ) → length (zeros n) ≡ n
length-zeros zero = refl
length-zeros (suc n) = ap suc (length-zeros n) ∙ omega arith

no-secret : (find filling.secrets (record { namespace = "ns"; name = "db" }) s1).0 ≡ ok none
unfolding find
no-secret = refl

secret-created : (Secret.reconcile filling s1).0 ≡ ok tt
unfolding Secret.reconcile
secret-created = refl

reconcile-len_example :
    (a b : String) × (m : ObjectMeta) × (w : ConfigMap) × ((Secret.reconcile filling s1).1.world
      ≡ (filling.secrets.create (created filling a b m) w).1)
    × (len a ≡ 64)
    × (len b ≡ 64)
unfolding Secret.name
reconcile-len_example =
    reconcile-len filling (λ n w. (length-zeros n, zeros-All n)) s1 no-secret secret-created
