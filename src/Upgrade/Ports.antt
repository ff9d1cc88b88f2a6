-- ===== src/Upgrade/Ports.antt =====
-- The port on which the database listens while the replicas catch up (private/upgrade/preupgrade-sync.go,
-- with the patches of private/controllers).
use patroni_postgres_operato.Base.{
  ◌≡◌, ◌≢◌, refl, String, Bool, Option, none, some, List, [], ◌∷◌, ◌++◌, str_eq, if◌then◌else◌,
  length, arith,
}
use patroni_postgres_operato.Exec.{ok, Exec, ◌>>=◌, pure}
use patroni_postgres_operato.Exec.Inversion.{then-ok}
use patroni_postgres_operato.Kube.{
  EnvVar, EnvValue, Service, ServicePort, StatefulSet, Container, int,
}
use patroni_postgres_operato.Client.{NamespacedName, State, find, is_new, create_or_update}
use patroni_postgres_operato.Context.{Context, set_meta}
use patroni_postgres_operato.Controllers.Statefulset as Statefulset
use patroni_postgres_operato.Controllers.Statefulset.{
  or_new, desired_sts, send_sts, reconcile_sts, gen_node_tags_envs,
}
use patroni_postgres_operato.Controllers.Service as Service
use patroni_postgres_operato.Upgrade.Jobs.{UpgradeJob, preupgrade_sync_job, db_port, upgrade_env}
use patroni_postgres_operato.Upgrade.PreupgradeSync as PreupgradeSync

-- The value of a variable in an environment: the last one of that name.
unfoldable pub find_env : String → List EnvVar → Option EnvValue
find_env n [] = none
find_env n (e ∷ es) =
    let rest = find_env n es in
    elim rest [ none ↦ (if str_eq e.name n then some e.source else none) | some v ↦ some v ]

module _ (x : Context) where
  -- A stateful set was sent whose first container has, before the tags of the nodes, the port of the
  -- database in its environment.
  abbrev pub SetSent : Option EnvValue → State x.client.World → Type 0
  SetSent port s =
      let read =
        find x.client.statefulsets
          (record { namespace = s.instance.namespace; name = s.instance.name }) s in
      (o : Option StatefulSet) × (sent : StatefulSet) × (b : StatefulSet) × (k : Container)
      × (others : List Container) × (read.0 ≡ ok o)
      × ((create_or_update x.client.statefulsets (is_new o) sent read.1).0 ≡ ok b)
      × (sent.spec.template.spec.containers
          ≡ record k { env = k.env ++ gen_node_tags_envs s.instance } ∷ others)
      × (find_env "POSTGRESQL_PORT" k.env ≡ port)

  -- The main service was sent with the given ports.
  abbrev pub ServiceSent : List ServicePort → State x.client.World → Type 0
  ServiceSent ports t =
      let read =
        find x.client.services (record { namespace = t.instance.namespace; name = t.instance.name })
          t in
      (o : Option Service) × (sent : Service) × (b : Service) × (read.0 ≡ ok o)
      × ((create_or_update x.client.services (is_new o) sent read.1).0 ≡ ok b)
      × (sent.ports ≡ ports)

  reconcile_sts-SetSent :
      (j : UpgradeJob) (s : State x.client.World) (sts : StatefulSet)
      → (reconcile_sts x
          (Statefulset.with_postgresql_port (db_port j) ∷ Statefulset.with_paused_patroni ∷ [])
          s).0
        ≡ ok sts
      → SetSent (find_env "DBPORT" (upgrade_env s.instance j)) s
  unfolding reconcile_sts send_sts desired_sts Statefulset.patch_all Statefulset.postgres_container
      Statefulset.pod_template upgrade_env find_env
  reconcile_sts-SetSent j s sts h =
      let p = s.instance in
      let patches =
        Statefulset.with_postgresql_port (db_port j) ∷ Statefulset.with_paused_patroni ∷ [] in
      let key : NamespacedName = record { namespace = p.namespace; name = p.name } in
      let (o, r, h1) = then-ok (find x.client.statefulsets key) _ s sts h in
      let u = (find x.client.statefulsets key s).1 in
      let (m, _, h2) = then-ok (set_meta x.client (or_new p o).meta) _ u sts h1 in
      (
        o,
        desired_sts x.client.json x.im patches p m (or_new p o),
        sts,
        Statefulset.patch_all patches (Statefulset.postgres_container x.client.json x.im p),
        p.spec.extra_containers,
        r,
        h2,
        refl,
        refl,
      )

  reconcile_service-ServiceSent :
      (t : State x.client.World)
      → (Service.reconcile_service x.client
          (Service.with_postgresql_port (db_port preupgrade_sync_job)
            ∷ Service.with_patroni_api
            ∷ [])
          t).0
        ≡ ok tt
      → ServiceSent
          (record { name = "postgres"; port = 55432; target_port = int 55432 }
            ∷ record { name = "patroni"; port = 8008; target_port = int 8008 }
            ∷ [])
          t
  unfolding Service.reconcile_service Service.patch_all Service.main_service db_port ◌>>=◌ pure
  reconcile_service-ServiceSent t h =
      let p = t.instance in
      let key : NamespacedName = record { namespace = p.namespace; name = p.name } in
      let (o, r, h1) = then-ok (find x.client.services key) _ t tt h in
      let u = (find x.client.services key t).1 in
      let (m, _, h2) = then-ok (set_meta x.client (Service.or_bare p.name o).meta) _ u tt h1 in
      let ports : List ServicePort =
        record { name = "postgres"; port = 55432; target_port = int 55432 }
        ∷ record { name = "patroni"; port = 8008; target_port = int 8008 }
        ∷ [] in
      let patched : Service = record (Service.main_service p m (Service.or_bare p.name o)) {
        ports = ports;
      } in
      let send = create_or_update x.client.services (is_new o) patched in
      let headless : Exec (State x.client.World) (Unit {0}) =
        find x.client.services
          (record { namespace = p.namespace; name = Service.headless_service_name p })
        >>= λ o'.
            let second = Service.or_bare (Service.headless_service_name p) o' in
            set_meta x.client second.meta >>= λ m'.
            create_or_update x.client.services (is_new o') (Service.headless_service p m' second)
            >>= λ _. pure tt in
      let (b, q, _) = then-ok send (λ _. headless) u tt h2 in (o, patched, b, r, q, refl)

  -- When the step in which the replicas catch up returns without an error, in a cluster of more than
  -- one member, or of none, then a stateful set was sent in which the database listens on the port to
  -- which the job of the step connects, and after that the service was sent, in some state, with that
  -- port, 55432, and the one of Patroni's interface.
  pub handle-ports :
      (s : State x.client.World) (done : Bool)
      → length s.instance.status.volume_statuses ≢ 1
      → (PreupgradeSync.handle x s).0 ≡ ok done
      → SetSent (find_env "DBPORT" (upgrade_env s.instance preupgrade_sync_job)) s
        × (t : State x.client.World) × ServiceSent
            (record { name = "postgres"; port = 55432; target_port = int 55432 }
              ∷ record { name = "patroni"; port = 8008; target_port = int 8008 }
              ∷ [])
            t
  unfolding PreupgradeSync.handle
  handle-ports s done ne h =
      let h0 : (PreupgradeSync.sync x s).0 ≡ ok done = ground arith in
      let (sts, r, h1) = then-ok (reconcile_sts x _) _ s done h0 in
      let (_, q, _) = then-ok (Service.reconcile_service x.client _) _ _ done h1 in
      (reconcile_sts-SetSent preupgrade_sync_job s sts r, _, reconcile_service-ServiceSent _ q)
