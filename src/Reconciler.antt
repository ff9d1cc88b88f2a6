-- ===== src/Reconciler.antt =====
-- controllers/patronipostgres_controller.go: one reconciliation of one instance.
pub mod Objects
pub mod Invariant
pub mod Start
pub mod Consistency
pub mod Reachable
pub mod Write
pub mod Rest
pub mod Install
pub mod Upgrading
pub mod Setup
use patroni_postgres_operato.Base.{
  ℕ, String, Bool, true, false, not, List, [], ◌∷◌, Option, none, some, ◌==◌, str_eq, if◌then◌else◌,
  ◌&&◌, contains,
}
use patroni_postgres_operato.Exec.{
  Error, Outcome, ok, err, panic, Exec, pure, fail, modify, ◌>>=◌, ◌>>◌, found, unsupported_version,
  upgrade_not_supported,
}
use patroni_postgres_operato.Api.{
  PatroniPostgres, PatroniPostgresStatus, PatroniPostgresSpec, state_scaling, state_ready,
}
use patroni_postgres_operato.Client.{Client, Kind, NamespacedName, State, request, the_instance}
use patroni_postgres_operato.Image.{Image, get_image}
use patroni_postgres_operato.Context.{Context, image_of}
use patroni_postgres_operato.Controllers.Pvc as Pvc
use patroni_postgres_operato.Controllers.Secret as Secret
use patroni_postgres_operato.Controllers.Configmap as Configmap
use patroni_postgres_operato.Controllers.Rbac as Rbac
use patroni_postgres_operato.Controllers.Service as Service
use patroni_postgres_operato.Controllers.Statefulset as Statefulset
use patroni_postgres_operato.Controllers.Networkpolicy as Networkpolicy
use patroni_postgres_operato.Controllers.Pdb as Pdb
use patroni_postgres_operato.Upgrade.Steps as Steps

-- The status of an instance that is seen for the first time.
unfoldable pub initialized : PatroniPostgres → PatroniPostgres
initialized p = record p {
  status = record p.status {
    version = p.spec.version;
    state = state_scaling;
    volume_statuses = [];
  };
}

unfoldable pub set_upgrade_version : ℕ → PatroniPostgres → PatroniPostgres
set_upgrade_version v p = record p { status = record p.status { upgrade_version = v } }

-- The test for a version that differs, in the state ready only.
unfoldable pub wants_upgrade : PatroniPostgres → Bool
wants_upgrade p = str_eq p.status.state state_ready && not (p.status.version == p.spec.version)

module _ (x : Context) where
  -- The loop over the reconcilers.
  unfoldable pub reconcile_objects : Exec (State x.client.World) (Unit {0})
  unfolding ◌>>=◌
  reconcile_objects = do
    Pvc.reconcile x.client
    Secret.reconcile x.client
    Configmap.reconcile x.client
    Rbac.reconcile x.client
    Service.reconcile x.client
    Statefulset.reconcile x
    Networkpolicy.reconcile x.client
    Pdb.reconcile x.client

  -- A ready instance whose version differs from the wanted one; a requeue follows.
  unfoldable pub start_upgrade : Exec (State x.client.World) Bool
  unfolding ◌>>=◌ the_instance modify set_upgrade_version
  start_upgrade = do
    p ← the_instance
    if contains p.status.upgrade_versions p.spec.version
        then (do
          _ ← Configmap.get_sync_leader x.client
          modify (λ s. record s { instance = set_upgrade_version p.spec.version s.instance })
          pure true)
        else fail (upgrade_not_supported p.spec.version p.status.upgrade_versions)

  -- What runs between the creation of the context and the deferred function.
  unfoldable pub body : Exec (State x.client.World) Bool
  unfolding start_upgrade reconcile_objects wants_upgrade
  body = do
    p ← the_instance
    if p.status.upgrade_version == 0
        then (if wants_upgrade p then start_upgrade else (do reconcile_objects; pure false))
        else Steps.handle x

  -- The deferred function: the status is written unless an error is returned; a panic goes on.
  unfoldable pub deferred : Outcome Bool → Exec (State x.client.World) Bool
  unfolding request
  deferred (ok requeue) s = (do _ ← request (x.client.update_status s.instance); pure requeue) s
  deferred (err e) s = (err e, s)
  deferred panic s =
      let (_, w) = x.client.update_status s.instance s.world in (panic, record s { world = w })

  unfoldable pub run : Exec (State x.client.World) Bool
  unfolding body deferred
  run s = let (r, s') = body s in deferred r s'

module _ (x : Context) where
  -- The first part of `Reconcile`, after the instance was read: initialization.
  unfoldable pub initialize : Exec (State x.client.World) (Unit {0})
  unfolding ◌>>=◌ request modify the_instance initialized get_image
  initialize = do
    p ← the_instance
    if str_eq p.status.state ""
        then (elim (get_image p.spec.version) [
          | none ↦ fail (unsupported_version p.spec.version)
          | some _ ↦ do
            modify (λ s. record s { instance = initialized s.instance })
            request (x.client.update_status (initialized p))
        ])
        else pure tt

  abbrev pub with_image : Outcome Image → Exec (State x.client.World) Bool
  with_image (ok im) s = run (record x { im = im }) s
  with_image (err e) s = (err e, s)
  with_image panic s = (panic, s)

  -- The context is made for the version of the status.
  unfoldable pub run_in_context : Exec (State x.client.World) Bool
  unfolding run image_of
  run_in_context s = with_image (image_of s.instance) s

  unfoldable pub process : Exec (State x.client.World) Bool
  unfolding initialize run_in_context
  process = do
    p ← the_instance
    if p.spec.ignore then pure false else (do initialize; run_in_context)

  -- `Reconcile`: whether to requeue, and the world afterwards.
  unfoldable pub reconcile : NamespacedName → x.client.World → Outcome Bool × x.client.World
  unfolding process found
  reconcile req w =
      let (r, w1) = x.client.instances.get req w in
      elim (found r) [
        | ok none ↦ (ok false, w1)
        | ok (some p) ↦ let (o, s) = process (record { world = w1; instance = p }) in (o, s.world)
        | err e ↦ (err e, w1)
        | panic ↦ (panic, w1)
      ]
