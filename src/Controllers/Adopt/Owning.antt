-- ===== src/Controllers/Adopt/Owning.antt =====
-- What was adopted has an owner, and is left as it is from then on.
use mathlib.Core.Path.{subst}
use patroni_postgres_operato.Base.{◌≡◌, ◌≢◌, sym, ap, ◌∙◌, inl, inr, String, [], Option, none, some}
use patroni_postgres_operato.Exec.{ok}
use patroni_postgres_operato.Kube.{ObjectMeta}
use patroni_postgres_operato.Api.{desired, PatroniPostgres, PatroniPostgresStatus}
use patroni_postgres_operato.Client.{Client, Kind, State}
use patroni_postgres_operato.Client.Stores.{View, Same, Stores, Owns}
use patroni_postgres_operato.Client.Stores.Reads.{key-cases}
use patroni_postgres_operato.Controllers.Adopt.{Adoption, key, adopt, Adopted, adopt-ok}

module _ {A : Type 0} (c : Client) (k : Kind c.World A) {meta : A → ObjectMeta}
    {Fills : A → A → Type 0} (r : Adoption meta Fills) (name : PatroniPostgres → String)
    (view : View c.World A) (stores : Stores meta Fills view k)
    (owns : Owns c.set_owner_reference) where
  -- The object is there, and has an owner.
  pub record Owned (p : PatroniPostgres) (w : c.World) : Type 0 where
    pub object : A
    pub there : view w (key c k r name p) ≡ some object
    pub has_owner : (meta object).owners ≢ []

  pub Owned-Same : (p : PatroniPostgres) (w w' : c.World) → Owned p w → Same view w w' → Owned p w'
  Owned-Same p w w' d same = record {
    object = d.object;
    there = same (key c k r name p) ∙ d.there;
    has_owner = d.has_owner;
  }

  module _
      (name_of_spec : (p : PatroniPostgres) (st : PatroniPostgresStatus)
        → name (desired st p) ≡ name p) where
    pub Owned-status :
        (p : PatroniPostgres) (st : PatroniPostgresStatus) (w : c.World)
        → Owned p w
        → Owned (desired st p) w
    Owned-status p st w d = record {
      object = d.object;
      there = rw (name_of_spec p st) d.there;
      has_owner = d.has_owner;
    }

  pub Adopted-owner :
      (p : PatroniPostgres) (o : Option A) (b : A) → Adopted c k r name p o b → (meta b).owners ≢ []
  Adopted-owner p none b (m, q, e) z = owns.owned _ _ m q (
      ap (λ (x : ObjectMeta). x.owners) (sym (stores.Fills-meta (r.fresh m) b e ∙ r.meta-fresh m))
      ∙ z)
  Adopted-owner p (some a) b (inl (ne, e)) z = ne (ap (λ x. (meta x).owners) (sym e) ∙ z)
  Adopted-owner p (some a) b (inr (_, m, q, e)) z = owns.owned _ _ m q (
      ap (λ (x : ObjectMeta). x.owners)
        (sym (stores.Fills-meta (r.with_meta a m) b e ∙ r.meta-with_meta a m))
      ∙ z)

  pub adopt-Owned :
      (s : State c.World)
      → (adopt c k r name s).0 ≡ ok tt
      → Owned s.instance (adopt c k r name s).1.world
  adopt-Owned s h =
      let (b, d, (there, _), _) = adopt-ok c k r name view stores owns s h in
      record {
        object = b;
        there = there;
        has_owner = Adopted-owner s.instance (view s.world (key c k r name s.instance)) b d;
      }

  Adopted-same :
      (p : PatroniPostgres) (a b : A)
      → (meta a).owners ≢ []
      → Adopted c k r name p (some a) b
      → b ≡ a
  Adopted-same p a b ne (inl (_, e)) = e
  Adopted-same p a b ne (inr (z, _, _, _)) = absurd (ne z)

  -- To adopt what has an owner leaves the objects of its kind as they are.
  pub Owned-adopt :
      (s : State c.World)
      → Owned s.instance s.world
      → (adopt c k r name s).0 ≡ ok tt
      → Same view s.world (adopt c k r name s).1.world
  Owned-adopt s d h j =
      let p = s.instance in
      let (b, a, (there, others), _) = adopt-ok c k r name view stores owns s h in
      let e : b ≡ d.object =
        Adopted-same p d.object b d.has_owner (subst (λ x. Adopted c k r name p x b) d.there a) in
      elim (key-cases j (key c k r name p)) [
        | inr ne ↦ others j ne
        | inl eq ↦
            ap (view (adopt c k r name s).1.world) eq
            ∙ there
            ∙ ap some e
            ∙ sym d.there
            ∙ ap (view s.world) (sym eq)
      ]
