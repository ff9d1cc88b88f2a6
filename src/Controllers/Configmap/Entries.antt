-- ===== src/Controllers/Configmap/Entries.antt =====
-- What setting and dropping one annotation does to the others.
use patroni_postgres_operato.Base.{
  ◌≡◌, String, none, some, arith, str_eq, Option-cases, inl, inr, if◌then◌else◌,
}
use patroni_postgres_operato.Base.StringMap.{lookup-insert, lookup-erase}
use patroni_postgres_operato.Kube.{ConfigMap}
use patroni_postgres_operato.Client.{NamespacedName}
use patroni_postgres_operato.Controllers.Configmap.{annotation, annotate, drop_annotation}

pub same_key : (k l : NamespacedName) → k.namespace ≡ l.namespace → k.name ≡ l.name → k ≡ l
same_key k l e f = cc

pub same_annotation :
    (a b : ConfigMap) (j : String)
    → a.meta.annotations ≡ b.meta.annotations
    → annotation j a ≡ annotation j b
same_annotation a b j e = rw e

pub annotation-annotate :
    (k j v : String) (cm cm' : ConfigMap)
    → annotate k v cm ≡ some cm'
    → annotation j cm' ≡ (if str_eq k j then some v else annotation j cm)
annotation-annotate k j v cm cm' h = elim (Option-cases cm.meta.annotations) [
  | inl e ↦ absurd (ground (arith, e, h))
  | inr (m, e) ↦ ground (arith, e, h, lookup-insert k j v m)
]

pub key-annotate :
    (k v : String) (cm cm' : ConfigMap)
    → annotate k v cm ≡ some cm'
    → (cm'.meta.name ≡ cm.meta.name) × (cm'.meta.namespace ≡ cm.meta.namespace)
key-annotate k v cm cm' h = elim (Option-cases cm.meta.annotations) [
  | inl e ↦ absurd (ground (arith, e, h))
  | inr (m, e) ↦ ground (arith, e, h)
]

pub key-drop :
    (k : String) (cm : ConfigMap)
    → ((drop_annotation k cm).meta.name ≡ cm.meta.name)
      × ((drop_annotation k cm).meta.namespace ≡ cm.meta.namespace)
key-drop k cm = elim (Option-cases cm.meta.annotations) [
  | inl e ↦ ground (arith, e)
  | inr (m, e) ↦ ground (arith, e)
]

pub annotation-drop :
    (k j : String) (cm : ConfigMap)
    → annotation j (drop_annotation k cm) ≡ (if str_eq k j then none else annotation j cm)
annotation-drop k j cm = elim (Option-cases cm.meta.annotations) [
  | inl e ↦ ground (arith, e)
  | inr (m, e) ↦ ground (arith, e, lookup-erase k j m)
]
