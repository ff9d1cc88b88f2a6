-- ===== src/Controllers/Statefulset/Ensured.antt =====
-- The stateful set as a recipe of `Ensure` (private/controllers/statefulset, with no patch).
use patroni_postgres_operato.Base.{◌≡◌, refl, arith, Option, none, some, []}
use patroni_postgres_operato.Exec.{modify}
use patroni_postgres_operato.Kube.{ObjectMeta, StatefulSet, PodTemplate, named}
use patroni_postgres_operato.Api.{desired, PatroniPostgres, PatroniPostgresStatus}
use patroni_postgres_operato.Client.{Json, State}
use patroni_postgres_operato.Context.{Context}
use patroni_postgres_operato.Image.{Image}
use patroni_postgres_operato.Controllers.Statefulset.{
  new_sts, desired_sts, or_new, send_sts, reconcile_sts, reconcile, pod_template,
}
use patroni_postgres_operato.Controllers.Ensure.{Recipe, ensure}

abbrev pub sts_meta : StatefulSet → ObjectMeta
sts_meta s = s.meta

-- The server counts the replicas, and gives defaults to what the template of the pods leaves out.
pub record SpecKept (defaults : PodTemplate → PodTemplate) (a b : StatefulSet) : Type 0 where
  pub meta : b.meta ≡ a.meta
  pub spec : b.spec ≡ record a.spec { template = defaults a.spec.template }

module _ (defaults : PodTemplate → PodTemplate) (j : Json) (im : Image) where
  abbrev pub new_set : PatroniPostgres → ObjectMeta → Option StatefulSet → StatefulSet
  new_set p m o = desired_sts j im [] p m (or_new p o)

  pub start_new : (p : PatroniPostgres) → (or_new p none).meta ≡ named p.name
  unfolding new_sts
  start_new p = refl

  pub set-meta :
      (p : PatroniPostgres) (m : ObjectMeta) (o : Option StatefulSet) → (new_set p m o).meta ≡ m
  unfolding desired_sts
  set-meta p m o = refl

  pub set_again :
      (p : PatroniPostgres) (m : ObjectMeta) (o : Option StatefulSet) (b : StatefulSet)
      → SpecKept defaults (new_set p m o) b
      → SpecKept defaults (new_set p m (some b)) b
  unfolding desired_sts
  set_again p m o b k = record { meta = k.meta; spec = ground (arith, k.spec) }

  pub set-status :
      (p : PatroniPostgres) (st : PatroniPostgresStatus) (m : ObjectMeta) (o : Option StatefulSet)
      → new_set (desired st p) m o ≡ new_set p m o
  unfolding desired_sts new_sts pod_template
  set-status p st m none = refl
  set-status p st m (some s) = refl

  abbrev pub stateful_set : Recipe sts_meta (SpecKept defaults)
  stateful_set = record {
    name = λ p. p.name;
    start = λ p o. (or_new p o).meta;
    build = λ p m o. new_set p m o;
    start_none = start_new;
    start_some = λ p a. refl;
    meta-build = λ p m o. set-meta p m o;
    build_again = set_again;
    name_status = λ p st. refl;
    build_status = λ p st m o. set-status p st m o;
  }

module _ (defaults : PodTemplate → PodTemplate) (x : Context) (s : State x.client.World) where
  pub reconcile-ensure :
      ((reconcile x s).0
        ≡ (ensure x.client x.client.statefulsets (stateful_set defaults x.client.json x.im) s).0)
      × ((reconcile x s).1.world
          ≡ (ensure x.client x.client.statefulsets
              (stateful_set defaults x.client.json x.im)
              s).1.world)
  unfolding reconcile reconcile_sts send_sts modify ensure
  reconcile-ensure = (ground arith, ground arith)
