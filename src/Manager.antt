-- ===== src/Manager.antt =====
-- main.go: the program of the operator, which sets a manager up and starts it.
use patroni_postgres_operato.Base.{◌≡◌, sym, ap, ◌∙◌, ℕ, String, Bool, false}
use patroni_postgres_operato.Exec.{ok, Exec, ◌>>=◌, ◌>>◌}
use patroni_postgres_operato.Exec.Inversion.{bind-ok}

pub record OperatorFlags : Type 0 where
  pub metrics_addr : String
  pub probe_addr : String
  pub enable_leader_election : Bool

-- What the flags are when none is given.
abbrev pub default_flags : OperatorFlags
default_flags = record {
  metrics_addr = ":8080";
  probe_addr = ":8081";
  enable_leader_election = false;
}

pub record Options : Type 0 where
  pub health_probe_bind_address : String
  pub leader_election : Bool
  pub leader_election_id : String
  pub metrics_bind_address : String
  pub webhook_port : ℕ

abbrev pub options : OperatorFlags → Options
options f = record {
  health_probe_bind_address = f.probe_addr;
  leader_election = f.enable_leader_election;
  leader_election_id = "patronipostgres.kwebs.cloud";
  metrics_bind_address = f.metrics_addr;
  webhook_port = 9443;
}

-- What the code uses of controller-runtime: an unknown world that may answer anything. A client that
-- could not be made is no error here.
pub record Runtime : Type 1 where
  pub World : Type 0
  pub Manager : Type 0
  pub Client : Type 0
  pub new_manager : Options → Exec World Manager
  pub new_client : Manager → World → Client × World
  pub setup_with_manager : Client → Manager → Exec World (Unit {0})
  pub add_healthz_check : Manager → String → Exec World (Unit {0})
  pub add_readyz_check : Manager → String → Exec World (Unit {0})
  pub start : Manager → Exec World (Unit {0})

module _ (r : Runtime) where
  abbrev ready : r.Manager → Exec r.World (Unit {0})
  ready mgr = r.add_readyz_check mgr "readyz" >> r.start mgr

  abbrev serve : r.Manager → Exec r.World (Unit {0})
  serve mgr = r.add_healthz_check mgr "healthz" >> ready mgr

  abbrev set_up : r.Manager → Exec r.World (Unit {0})
  set_up mgr w = let (cl, w') = r.new_client mgr w in (r.setup_with_manager cl mgr >> serve mgr) w'

  -- An error exits with the status 1.
  unfoldable pub main : OperatorFlags → Exec r.World (Unit {0})
  unfolding ◌>>=◌
  main f = do
    mgr ← r.new_manager (options f)
    cl ← λ w. let (c, w') = r.new_client mgr w in (ok c, w')
    r.setup_with_manager cl mgr
    r.add_healthz_check mgr "healthz"
    r.add_readyz_check mgr "readyz"
    r.start mgr

  -- The program ends without an error only if the manager was made with the options of the flags, the
  -- controller was set up with a client of it, and that manager was started and has ended so.
  pub main-started :
      (f : OperatorFlags) (w : r.World)
      → (main f w).0 ≡ ok tt
      → (mgr : r.Manager) × (w' : r.World) × ((r.new_manager (options f) w).0 ≡ ok mgr)
        × ((r.setup_with_manager
              (r.new_client mgr (r.new_manager (options f) w).1).0
              mgr
              (r.new_client mgr (r.new_manager (options f) w).1).1).0
            ≡ ok tt)
        × (r.start mgr w' ≡ (ok tt, (main f w).1))
  unfolding main ◌>>=◌
  main-started f w h =
      let (mgr, m, e1) = bind-ok (r.new_manager (options f)) set_up w tt h in
      let t = (r.new_manager (options f) w).1 in
      let h1 = sym (ap (λ x. x.0) e1) ∙ h in
      let (cl, t1) = r.new_client mgr t in
      let (_, s, e2) = bind-ok (r.setup_with_manager cl mgr) (λ _. serve mgr) t1 tt h1 in
      let t2 = (r.setup_with_manager cl mgr t1).1 in
      let h2 = sym (ap (λ x. x.0) e2) ∙ h1 in
      let (_, a, e3) = bind-ok (r.add_healthz_check mgr "healthz") (λ _. ready mgr) t2 tt h2 in
      let t3 = (r.add_healthz_check mgr "healthz" t2).1 in
      let h3 = sym (ap (λ x. x.0) e3) ∙ h2 in
      let (_, b, e4) = bind-ok (r.add_readyz_check mgr "readyz") (λ _. r.start mgr) t3 tt h3 in
      let t4 = (r.add_readyz_check mgr "readyz" t3).1 in
      (mgr, t4, m, s, sym (e1 ∙ e2 ∙ e3 ∙ e4) ∙ ap (λ o. (o, (main f w).1)) h)
