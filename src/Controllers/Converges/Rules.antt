-- ===== src/Controllers/Converges/Rules.antt =====
-- To ensure and to adopt an object are actions that come to rest.
use patroni_postgres_operato.Base.{◌≡◌, ◌≢◌, ap, ◌∙◌, inl, inr, String}
use patroni_postgres_operato.Exec.{ok}
use patroni_postgres_operato.Kube.{ObjectMeta}
use patroni_postgres_operato.Api.{desired, PatroniPostgres, PatroniPostgresStatus}
use patroni_postgres_operato.Client.{Client, Kind, NamespacedName, State}
use patroni_postgres_operato.Client.Stores.Reads.{key-cases}
use patroni_postgres_operato.Controllers.Adopt as Adopt
use patroni_postgres_operato.Controllers.Ensure as Ensure
use patroni_postgres_operato.Client.Leaves.{Leaves-bind, Leaves-the_instance}
use patroni_postgres_operato.Client.Stores.{View, Stores, Owns}
use patroni_postgres_operato.Controllers.Ensure.{Recipe, ensure, Leaves-ensure_as, ensure-ok}
use patroni_postgres_operato.Controllers.Ensure.Settling.{
  Settled, Settled-Same, Settled-status, ensure-Settled, Settled-ensure, Settled-Put,
}
use patroni_postgres_operato.Controllers.Adopt.{Adoption, adopt, adopt-ok}
use patroni_postgres_operato.Controllers.Adopt.Owning.{
  Owned, Owned-Same, Owned-status, adopt-Owned, Owned-adopt, Adopted-owner,
}
use patroni_postgres_operato.Controllers.Converges.{Converges, LeavesDesired}

pub LeavesDesired-ensure :
    {A : Type 0} (c : Client) (k : Kind c.World A) {meta : A → ObjectMeta} {Fills : A → A → Type 0}
    (r : Recipe meta Fills)
    → LeavesDesired (ensure c k r)
unfolding ensure
LeavesDesired-ensure c k r st = Leaves-bind _ _ Leaves-the_instance (λ p. Leaves-ensure_as c k r p)

module _ {A : Type 0} (c : Client) (k : Kind c.World A) {meta : A → ObjectMeta}
    {Fills : A → A → Type 0} (view : View c.World A) (stores : Stores meta Fills view k)
    (owns : Owns c.set_owner_reference) where
  unfoldable pub Converges-ensure : (r : Recipe meta Fills) → Converges view (ensure c k r)
  Converges-ensure r = record {
    Rests = Settled c k r view stores owns;
    rests-Same = Settled-Same c k r view stores owns;
    rests_status = Settled-status c k r view stores owns;
    reaches = ensure-Settled c k r view stores owns;
    rests = Settled-ensure c k r view stores owns;
  }

  unfoldable pub Converges-adopt :
      (r : Adoption meta Fills) (name : PatroniPostgres → String)
      → ((p : PatroniPostgres) (st : PatroniPostgresStatus) → name (desired st p) ≡ name p)
      → Converges view (adopt c k r name)
  Converges-adopt r name h = record {
    Rests = Owned c k r name view stores owns;
    rests-Same = Owned-Same c k r name view stores owns;
    rests_status = Owned-status c k r name view stores owns h;
    reaches = adopt-Owned c k r name view stores owns;
    rests = Owned-adopt c k r name view stores owns;
  }

  -- What one action reached, another one on the same kind of objects leaves.
  pub Owned-stays :
      (r : Adoption meta Fills) (n1 n2 : PatroniPostgres → String) (s : State c.World)
      → Owned c k r n1 view stores owns s.instance s.world
      → (adopt c k r n2 s).0 ≡ ok tt
      → Owned c k r n1 view stores owns s.instance (adopt c k r n2 s).1.world
  Owned-stays r n1 n2 s d h =
      let p = s.instance in
      let (b, a, (there, others), _) = adopt-ok c k r n2 view stores owns s h in
      let owner = Adopted-owner c k r n2 view stores owns p _ b a in
      elim (key-cases (Adopt.key c k r n1 p) (Adopt.key c k r n2 p)) [
        | inl e ↦ record {
          object = b;
          there = ap (view (adopt c k r n2 s).1.world) e ∙ there;
          has_owner = owner;
        }
        | inr ne ↦ record {
          object = d.object;
          there = others _ ne ∙ d.there;
          has_owner = d.has_owner;
        }
      ]

  pub Settled-stays :
      (r1 r2 : Recipe meta Fills) (s : State c.World)
      → r1.name s.instance ≢ r2.name s.instance
      → Settled c k r1 view stores owns s.instance s.world
      → (ensure c k r2 s).0 ≡ ok tt
      → Settled c k r1 view stores owns s.instance (ensure c k r2 s).1.world
  Settled-stays r1 r2 s ne d h =
      let (_, b, _, _, put, _, _) = ensure-ok c k r2 view stores owns s h in
      Settled-Put c k r1 view stores owns s.instance s.world _ (Ensure.key c k r2 s.instance) b d
        put (λ e. ne (ap (λ (n : NamespacedName). n.name) e))
