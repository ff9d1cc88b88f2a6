-- ===== src/Controllers/Keeps.antt =====
-- What the reconcilers leave as it is: the objects of the kinds that they send no requests for.
pub mod Kinds
use patroni_postgres_operato.Base.{
  ◌≡◌, refl, ◌∙◌, suc, String, ℕ, List, [], ◌∷◌, ◌<>◌, Option, none, some, Bool, true, false,
}
use patroni_postgres_operato.Base.StringMap.{lookup, erase}
use patroni_postgres_operato.Exec.{ok, Exec, pure, modify, ◌>>=◌, ◌>>◌}
use patroni_postgres_operato.Kube.{ObjectMeta, named, Secret, StatefulSet, Pvc, StringDict}
use patroni_postgres_operato.Api.{PatroniPostgres, Node}
use patroni_postgres_operato.Client.{
  Client, Kind, State, DeletePropagation, background, the_instance, request, is_new,
}
use patroni_postgres_operato.Client.Stores.{View, Same}
use patroni_postgres_operato.Client.Stores.Keeps.{
  Keeps, Apart, Keeps-pure, Keeps-bind, Keeps-request, Keeps-modify, Keeps-the_instance, Keeps-find,
  Keeps-set_meta, Keeps-owners, Keeps-option, keeps_rules,
}
use patroni_postgres_operato.Context.{Context, set_meta, common_labels}
use patroni_postgres_operato.Controllers.Secret as Secret
use patroni_postgres_operato.Controllers.Service as Service
use patroni_postgres_operato.Controllers.Pvc as Pvc
use patroni_postgres_operato.Controllers.Statefulset as Statefulset
use patroni_postgres_operato.Controllers.Adopt.{Adoption, adopt, adopt_found}
use patroni_postgres_operato.Controllers.Ensure.{Recipe, ensure, ensure_as}

-- What `Secret.reconcile` does with what it found.
module _ (c : Client) where
  abbrev found_secret : Secret → Exec (State c.World) (Unit {0})
  found_secret s = elim s.meta.owners [
    | [] ↦ do m ← set_meta c s.meta; _ ← request (c.secrets.update (record s { meta = m })); pure tt
    | _ ∷ _ ↦ pure tt
  ]

  abbrev new_secret : PatroniPostgres → Exec (State c.World) (Unit {0})
  unfolding Secret.gen_secret
  new_secret p = do
    a ← Secret.gen_secret c
    b ← Secret.gen_secret c
    let passwords : StringDict =
        (Secret.super_user_password_key, a) ∷ (Secret.replication_user_password_key, b) ∷ []
    m ← set_meta c (named (Secret.name p))
    _ ← request (c.secrets.create (record { meta = m; string_data = passwords }))
    pure tt

module _ (c : Client) {B : Type 0} (view : View c.World B) where
  module _ {A : Type 0} (k : Kind c.World A) (apart : Apart view k) {meta : A → ObjectMeta}
      {Fills : A → A → Type 0} where
    Keeps-ensure_as : (r : Recipe meta Fills) (p : PatroniPostgres) → Keeps view (ensure_as c k r p)
    Keeps-ensure_as r p = unfold ensure_as in search keeps_rules depth 8

    pub Keeps-ensure : (r : Recipe meta Fills) → Keeps view (ensure c k r)
    unfolding ensure
    Keeps-ensure r = Keeps-bind _ _ Keeps-the_instance (λ p. Keeps-ensure_as r p)

    Keeps-adopt_found :
        (r : Adoption meta Fills) (name : PatroniPostgres → String) (p : PatroniPostgres)
        (o : Option A)
        → Keeps view (adopt_found c k r name p o)
    unfolding adopt_found
    Keeps-adopt_found r name p none = search keeps_rules depth 8
    Keeps-adopt_found r name p (some a) =
        Keeps-owners (meta a).owners _ (pure tt) (search keeps_rules depth 8) (Keeps-pure tt)

    pub Keeps-adopt :
        (r : Adoption meta Fills) (name : PatroniPostgres → String) → Keeps view (adopt c k r name)
    unfolding adopt
    Keeps-adopt r name =
        Keeps-bind _ _ Keeps-the_instance
          (λ p. Keeps-bind _ _ (Keeps-find k _ apart) (λ o. Keeps-adopt_found r name p o))

  -- What a client does with claims, besides the requests for one.
  pub record ApartClaims : Type 0 where
    pub claims : Apart view c.pvcs
    pub list : (n : String) (l : StringDict) (w : c.World) → Same view w (c.list_pvcs n l w).1
    pub patch : (a b : Pvc) (w : c.World) → Same view w (c.patch_pvc a b w).1
    pub delete :
        (a : Pvc) (d : DeletePropagation) (w : c.World) → Same view w (c.pvcs.delete a d w).1

  module _ (apart : ApartClaims) where
    Keeps-ensure_pvc :
        (o : Option Pvc) (name : String) (node : Node) → Keeps view (Pvc.ensure_pvc c o name node)
    unfolding Pvc.ensure_pvc
    Keeps-ensure_pvc none name node = search (keeps_rules, apart.claims) depth 8
    Keeps-ensure_pvc (some a) name node = search (keeps_rules, apart.patch) depth 8

    Keeps-ensure_all :
        (i : ℕ) (nodes : List Node) (m : Pvc.PvcMap) → Keeps view (Pvc.ensure_all c i nodes m)
    unfolding Pvc.ensure_all
    Keeps-ensure_all i [] m = Keeps-pure m
    Keeps-ensure_all i (node ∷ nodes) m = Keeps-bind _ _ Keeps-the_instance λ p.
        Keeps-bind _ _ (Keeps-ensure_pvc (lookup (Pvc.pvc_name p i) m) (Pvc.pvc_name p i) node) λ a.
          Keeps-bind _ _ (Keeps-modify (Pvc.add_volume_status a))
            (λ _. Keeps-ensure_all (suc i) nodes (erase (Pvc.pvc_name p i) m))

    Keeps-delete_all : (m : Pvc.PvcMap) → Keeps view (Pvc.delete_all c m)
    unfolding Pvc.delete_all
    Keeps-delete_all [] = Keeps-pure tt
    Keeps-delete_all ((_, a) ∷ m) =
        Keeps-bind _ _ (Keeps-request _ (λ w. apart.delete a background w))
          (λ _. Keeps-delete_all m)

    pub Keeps-Pvc : Keeps view (Pvc.reconcile c)
    unfolding Pvc.reconcile
    Keeps-Pvc = Keeps-bind _ _ Keeps-the_instance λ p.
        Keeps-bind _ _
          (Keeps-request (c.list_pvcs p.namespace (common_labels p))
            (apart.list p.namespace (common_labels p)))
          λ listed. Keeps-bind _ _ (Keeps-modify (Pvc.set_volume_statuses [])) (λ _.
            Keeps-bind _ _ (Keeps-ensure_all 0 p.spec.nodes (Pvc.by_name listed []))
              (λ left. Keeps-delete_all (c.map_order left)))

  -- The secret, and the random bytes of its passwords.
  pub record ApartSecrets : Type 0 where
    pub secrets : Apart view c.secrets
    pub random : (n : ℕ) (w : c.World) → Same view w (c.random n w).1

  module _ (apart : ApartSecrets) where
    Keeps-gen_secret : Keeps view (Secret.gen_secret c)
    unfolding Secret.gen_secret
    Keeps-gen_secret =
        Keeps-bind _ _
          (Keeps-request (λ w. (ok (c.random 48 w).0, (c.random 48 w).1)) (apart.random 48))
          (λ key. Keeps-pure (Secret.encode_to_string key))

    Keeps-some_secret : (s : Secret) → Keeps view (found_secret c s)
    Keeps-some_secret s =
        Keeps-owners s.meta.owners _ (pure tt) (search (keeps_rules, apart.secrets) depth 8)
          (Keeps-pure tt)

    Keeps-none_secret : (p : PatroniPostgres) → Keeps view (new_secret c p)
    unfolding new_secret
    Keeps-none_secret p = search (keeps_rules, Keeps-gen_secret, apart.secrets) depth 12

    pub Keeps-Secret : Keeps view (Secret.reconcile c)
    unfolding Secret.reconcile new_secret
    Keeps-Secret = Keeps-bind _ _ Keeps-the_instance λ p.
        Keeps-bind _ _ (Keeps-find c.secrets _ apart.secrets) λ o.
          Keeps-option o (new_secret c p) (found_secret c) (Keeps-none_secret p) Keeps-some_secret

module _ (x : Context) {B : Type 0} (view : View x.client.World B)
    (apart : Apart view x.client.statefulsets) where
  Keeps-send_sts : (b : Bool) (sts : StatefulSet) → Keeps view (Statefulset.send_sts x b sts)
  unfolding Statefulset.send_sts
  Keeps-send_sts true sts = record { at = λ s. apart.create sts s.world }
  Keeps-send_sts false sts = record { at = λ s. apart.update sts s.world }

  Keeps-reconcile_sts : (ps : List Statefulset.Patch) → Keeps view (Statefulset.reconcile_sts x ps)
  unfolding Statefulset.reconcile_sts
  Keeps-reconcile_sts ps = search (keeps_rules, Keeps-send_sts) depth 8

  pub Keeps-Statefulset : Keeps view (Statefulset.reconcile x)
  unfolding Statefulset.reconcile
  Keeps-Statefulset =
      Keeps-bind _ _ (Keeps-reconcile_sts []) (λ sts. Keeps-modify (Statefulset.scaled x sts))
