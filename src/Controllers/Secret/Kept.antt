-- ===== src/Controllers/Secret/Kept.antt =====
-- A secret that is there keeps its passwords (private/controllers/secret).
use patroni_postgres_operato.Base.{
  List-cases, ◌≡◌, refl, ◌⊎◌, inl, inr, ap, sym, ◌∙◌, String, List, [], ◌∷◌, arith,
}
use patroni_postgres_operato.Exec.{Outcome, ok, err, panic, Exec, ◌>>=◌, continue, pure}
use patroni_postgres_operato.Kube.{ObjectMeta}
use patroni_postgres_operato.Kube as Kube
use patroni_postgres_operato.Client.{Client, NamespacedName, State, request}
use patroni_postgres_operato.Context.{set_meta, common_labels}
use patroni_postgres_operato.Controllers.Secret.{reconcile, name}

module _ (c : Client) where
  abbrev read : State c.World → c.World → State c.World
  read s w = record s { world = w }

  abbrev found_key : State c.World → NamespacedName
  found_key s = record { namespace = s.instance.namespace; name = name s.instance }

  -- What follows the metadata.
  abbrev send : Kube.Secret → ObjectMeta → Exec (State c.World) (Unit {0})
  send secret m = request (c.secrets.update (record secret { meta = m })) >>= λ _. pure tt

  with_owner :
      (s : State c.World) (secret : Kube.Secret) (w : c.World)
      → c.secrets.get (found_key s) s.world ≡ (ok secret, w)
      → (o : String) (os : List String) → secret.meta.owners ≡ o ∷ os
      → (reconcile c s).1.world ≡ w
  unfolding reconcile
  with_owner s secret w g o os e = ground (arith, g, e)

  without_owner :
      (s : State c.World) (secret : Kube.Secret) (w : c.World)
      → c.secrets.get (found_key s) s.world ≡ (ok secret, w)
      → secret.meta.owners ≡ []
      → (reconcile c s).1
        ≡ (continue
            (set_meta c secret.meta (read s w)).0
            (send secret)
            (set_meta c secret.meta (read s w)).1).1
  unfolding reconcile
  without_owner s secret w g e = ground (arith, g, e)

  meta-world : (m : ObjectMeta) (s : State c.World) → (set_meta c m s).1.world ≡ s.world
  unfolding set_meta
  meta-world m s = refl

  -- The metadata that the update carries: the labels are those of the instance.
  meta-sent :
      (m : ObjectMeta) (s : State c.World)
      → (set_meta c m s).0
        ≡ c.set_owner_reference s.instance.name
            (record m { namespace = s.instance.namespace; labels = common_labels s.instance })
  unfolding set_meta
  meta-sent m s = refl

  pure-after :
      {A : Type 0} (r : Outcome A) (s : State c.World) → (continue r (λ _. pure (tt {0})) s).1 ≡ s
  unfolding pure
  pure-after (ok a) s = refl
  pure-after (err e) s = refl
  pure-after panic s = refl

  meta_sent :
      (secret : Kube.Secret) (w : c.World) (r : Outcome ObjectMeta) (t : State c.World)
      → t.world ≡ w
      → ((continue r (send secret) t).1.world ≡ w)
        ⊎ ((m : ObjectMeta) × (r ≡ ok m)
            × ((continue r (send secret) t).1.world
                ≡ (c.secrets.update (record secret { meta = m }) w).1))
  unfolding ◌>>=◌ request
  meta_sent secret w (ok m) t e = inr (
    m,
    refl,
    ap (λ (u : State c.World). u.world) (pure-after _ _)
        ∙ ap (λ (v : c.World). (c.secrets.update (record secret { meta = m }) v).1) e,
  )
  meta_sent secret w (err _) t e = inl e
  meta_sent secret w panic t e = inl e

  -- For a secret that is there, a reconciliation sends at most one request after the get: an update
  -- of a secret without an owner with the same passwords, in whose metadata the namespace and the
  -- labels are those of the instance and the owner is what `SetOwnerReference` makes of it.
  pub reconcile-found :
      (s : State c.World) (secret : Kube.Secret) (w : c.World)
      → c.secrets.get (record { namespace = s.instance.namespace; name = name s.instance }) s.world
        ≡ (ok secret, w)
      → ((reconcile c s).1.world ≡ w)
        ⊎ ((secret.meta.owners ≡ [])
            × (m : ObjectMeta) × (c.set_owner_reference s.instance.name (record secret.meta {
              namespace = s.instance.namespace;
              labels = common_labels s.instance;
            })
                ≡ ok m)
            × ((reconcile c s).1.world ≡ (c.secrets.update (record secret { meta = m }) w).1))
  unfolding reconcile
  reconcile-found s secret w g = elim (List-cases secret.meta.owners) [
    | inr (o, os, e) ↦ inl (with_owner s secret w g o os e)
    | inl e ↦
        elim (meta_sent secret w (set_meta c secret.meta (read s w)).0
          (set_meta c secret.meta (read s w)).1 (meta-world secret.meta (read s w))) [
            | inl f ↦ inl (ap (λ (t : State c.World). t.world) (without_owner s secret w g e) ∙ f)
            | inr (m, r, f) ↦ inr (
              e,
              m,
              sym (meta-sent secret.meta (read s w)) ∙ r,
              ap (λ (t : State c.World). t.world) (without_owner s secret w g e) ∙ f,
            )
          ]
  ]
