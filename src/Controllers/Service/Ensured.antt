-- ===== src/Controllers/Service/Ensured.antt =====
-- The two services as recipes of `Ensure`, one after the other (ReconcileService with no patch).
use mathlib.Core.Path.{fun_ext}
use text.Mathlib.TextPositions.{len-append}
use Prim.Native.String.{len}
use patroni_postgres_operato.Base.{
  ◌≡◌, ◌≢◌, refl, sym, ap, ◌∙◌, inl, inr, arith, false, Bool-cases, String, Option, some, str_eq,
  if◌then◌else◌,
}
use patroni_postgres_operato.Exec.{Exec, pure, ◌>>=◌, ◌>>◌}
use patroni_postgres_operato.Exec.Inversion.{bind_assoc, bind_cong}
use patroni_postgres_operato.Kube.{ObjectMeta, Service}
use patroni_postgres_operato.Api.{desired, PatroniPostgres, PatroniPostgresStatus}
use patroni_postgres_operato.Client.{Client, State, find, is_new, create_or_update}
use patroni_postgres_operato.Context.{set_meta}
use patroni_postgres_operato.Controllers.Service.{
  or_bare, primary_selector, main_service, headless_service, headless_service_name, reconcile,
}
use patroni_postgres_operato.Controllers.Ensure.{Recipe, ensure, ensure_as, Leaves-ensure_as}

abbrev pub service_meta : Service → ObjectMeta
service_meta s = s.meta

abbrev pub default_type : String → String
default_type t = if str_eq t "" then "ClusterIP" else t

default_again : (t : String) → default_type (default_type t) ≡ default_type t
default_again t = elim (Bool-cases (str_eq t "")) [ inl e ↦ rw e refl | inr e ↦ rw e (rw e refl) ]

-- The server chooses the address of a service that names none, and a type for one that has none.
pub record Assigned (a b : Service) : Type 0 where
  pub meta : b.meta ≡ a.meta
  pub type : b.type ≡ default_type a.type
  pub cluster_ip : (str_eq a.cluster_ip "" ≡ false) → b.cluster_ip ≡ a.cluster_ip
  pub selector : b.selector ≡ a.selector
  pub ports : b.ports ≡ a.ports

abbrev pub new_main : PatroniPostgres → ObjectMeta → Option Service → Service
new_main p m o = main_service p m (or_bare p.name o)

abbrev pub new_headless : PatroniPostgres → ObjectMeta → Option Service → Service
new_headless p m o = headless_service p m (or_bare (headless_service_name p) o)

pub main_again :
    (p : PatroniPostgres) (m : ObjectMeta) (o : Option Service) (b : Service)
    → Assigned (new_main p m o) b
    → Assigned (new_main p m (some b)) b
unfolding main_service
main_again p m o b a = record {
  meta = a.meta;
  type = a.type;
  cluster_ip = λ _. refl;
  selector = a.selector;
  ports = a.ports;
}

pub headless_again :
    (p : PatroniPostgres) (m : ObjectMeta) (o : Option Service) (b : Service)
    → Assigned (new_headless p m o) b
    → Assigned (new_headless p m (some b)) b
unfolding headless_service
headless_again p m o b a = record {
  meta = a.meta;
  type = a.type ∙ sym (default_again (new_headless p m o).type) ∙ ap default_type (sym a.type);
  cluster_ip = a.cluster_ip;
  selector = a.selector;
  ports = refl;
}

pub main-meta :
    (p : PatroniPostgres) (m : ObjectMeta) (o : Option Service) → (new_main p m o).meta ≡ m
unfolding main_service
main-meta p m o = refl

pub main-status :
    (p : PatroniPostgres) (st : PatroniPostgresStatus) (m : ObjectMeta) (o : Option Service)
    → new_main (desired st p) m o ≡ new_main p m o
unfolding main_service primary_selector
main-status p st m o = refl

pub headless-meta :
    (p : PatroniPostgres) (m : ObjectMeta) (o : Option Service) → (new_headless p m o).meta ≡ m
unfolding headless_service
headless-meta p m o = refl

pub name-status :
    (p : PatroniPostgres) (st : PatroniPostgresStatus)
    → headless_service_name (desired st p) ≡ headless_service_name p
unfolding headless_service_name
name-status p st = refl

pub headless-status :
    (p : PatroniPostgres) (st : PatroniPostgresStatus) (m : ObjectMeta) (o : Option Service)
    → new_headless (desired st p) m o ≡ new_headless p m o
unfolding headless_service primary_selector headless_service_name
headless-status p st m o = refl

abbrev pub main : Recipe service_meta Assigned
main = record {
  name = λ p. p.name;
  start = λ p o. (or_bare p.name o).meta;
  build = new_main;
  start_none = λ p. refl;
  start_some = λ p a. refl;
  meta-build = λ p m o. main-meta p m o;
  build_again = main_again;
  name_status = λ p st. refl;
  build_status = λ p st m o. main-status p st m o;
}

abbrev pub headless : Recipe service_meta Assigned
headless = record {
  name = headless_service_name;
  start = λ p o. (or_bare (headless_service_name p) o).meta;
  build = new_headless;
  start_none = λ p. refl;
  start_some = λ p a. refl;
  meta-build = λ p m o. headless-meta p m o;
  build_again = headless_again;
  name_status = λ p st. name-status p st;
  build_status = λ p st m o. headless-status p st m o;
}

-- The two services have different names.
pub headless-ne : (p : PatroniPostgres) → p.name ≢ headless_service_name p
unfolding headless_service_name
headless-ne p e = omega (arith, ap len e, len-append p.name "-headless")

module _ (c : Client) where
  abbrev rest : PatroniPostgres → Exec (State c.World) (Unit {0})
  rest p = ensure_as c c.services headless p

  -- One service after the other, for the instance that was read at the beginning.
  in_turn :
      (p : PatroniPostgres) (s : State c.World)
      → (ensure_as c c.services main p >> rest p) s
        ≡ (find c.services (record { namespace = p.namespace; name = p.name }) >>= λ o.
              set_meta c (or_bare p.name o).meta >>= λ m.
              create_or_update c.services (is_new o) (new_main p m o) >>= λ _. rest p)
            s
  unfolding ensure_as pure
  in_turn p s =
      let get = find c.services (record { namespace = p.namespace; name = p.name }) in
      let k2 = λ (o : Option Service) (m : ObjectMeta).
        create_or_update c.services (is_new o) (new_main p m o) >>= λ _. pure (tt {0}) in
      let k1 = λ (o : Option Service). set_meta c (or_bare p.name o).meta >>= k2 o in
      bind_assoc get k1 (λ _. rest p) s
      ∙ bind_cong get (λ o. k1 o >>= λ _. rest p) _ s
          (λ o.
            bind_assoc (set_meta c (or_bare p.name o).meta) (k2 o) (λ _. rest p) (get s).1
            ∙ bind_cong (set_meta c (or_bare p.name o).meta) (λ m. k2 o m >>= λ _. rest p) _
                (get s).1
                (λ m.
                  bind_assoc (create_or_update c.services (is_new o) (new_main p m o))
                    (λ _. pure (tt {0})) (λ _. rest p) _))

  -- The instance is the same when the second one is reconciled.
  again_read :
      (p : PatroniPostgres) (t : State c.World)
      → t.instance ≡ p
      → rest p t ≡ ensure c c.services headless t
  unfolding ensure
  again_read p t e = ap (λ q. rest q t) (sym e)

  pub reconcile-ensure : reconcile c ≡ (ensure c c.services main >> ensure c c.services headless)
  unfolding reconcile ensure
  reconcile-ensure = fun_ext λ s.
      sym (in_turn s.instance s)
      ∙ bind_cong (ensure_as c c.services main s.instance) (λ _. rest s.instance)
          (λ _. ensure c c.services headless) s
          (λ _.
            again_read s.instance _ (
              (Leaves-ensure_as c c.services main {f = λ (p : PatroniPostgres). p} s.instance).at
                s))
