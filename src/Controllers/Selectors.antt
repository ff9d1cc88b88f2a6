-- ===== src/Controllers/Selectors.antt =====
-- Which pods the selectors of the objects select: those of the instance, and of no other one.
use patroni_postgres_operato.Base.{
  ◌≡◌, ◌↔◌, String, Bool, true, false, none, some, List, [], ◌∷◌, arith, ◌&&◌, str_eq, eq_refl,
  eq_iff,
}
use patroni_postgres_operato.Base.StringMap.{lookup, insert}
use patroni_postgres_operato.Kube.{StringDict}
use patroni_postgres_operato.Api.{PatroniPostgres}
use patroni_postgres_operato.Client.{Json}
use patroni_postgres_operato.Image.{Image}
use patroni_postgres_operato.Context.{common_labels, pod_labels}
use patroni_postgres_operato.Controllers.Statefulset.{new_sts, pod_template, Patch}
use patroni_postgres_operato.Controllers.Service.{
  primary_selector, patroni_pod_role_key, patroni_pod_role_master,
}

-- Whether the labels have a value for a key, which is the given one.
unfoldable pub has_label : String → String → StringDict → Bool
has_label k v labels = elim (lookup k labels) [ none ↦ false | some w ↦ str_eq w v ]

-- A label selector of Kubernetes that lists the wanted labels.
unfoldable pub selects : StringDict → StringDict → Bool
unfolding has_label lookup
selects [] labels = true
selects ((k, v) ∷ selector) labels = has_label k v labels && selects selector labels

-- The pods of the template of a stateful set carry all labels of the selector of a new set, and,
-- once one of them is marked as the master, those of the selector of the services.
pods-selected :
    (j : Json) (im : Image) (ps : List Patch) (p : PatroniPostgres)
    → let labels = (pod_template j im ps p).labels in
      (selects (new_sts p).spec.selector labels ≡ true)
      × (selects (primary_selector p) (insert patroni_pod_role_key patroni_pod_role_master labels)
          ≡ true)
unfolding selects new_sts pod_template pod_labels common_labels insert primary_selector
pods-selected j im ps p = ground (arith, eq_refl p.name)

-- The selector of one instance selects the pods of another one exactly if the names are the same.
pub selects-other :
    (j : Json) (im : Image) (ps : List Patch) (p q : PatroniPostgres)
    → (selects (new_sts p).spec.selector (pod_template j im ps q).labels ≡ true) ↔ (q.name ≡ p.name)
unfolding selects new_sts pod_template pod_labels common_labels insert
selects-other j im ps p q = ground (arith, eq_iff q.name p.name)
