-- ===== src/Controllers/Converges/Configmap.antt =====
-- The reconciliation of the config maps comes to rest: each of them is there and has an owner.
use mathlib.Core.Path.{subst}
use patroni_postgres_operato.Base.{◌≡◌, refl, sym, ap, ◌∙◌, String, List, [], ◌∷◌}
use patroni_postgres_operato.Exec.{ok, pure}
use patroni_postgres_operato.Exec.Inversion.{bind-ok}
use patroni_postgres_operato.Kube.{ConfigMap}
use patroni_postgres_operato.Api.{PatroniPostgres}
use patroni_postgres_operato.Client.{Client, State}
use patroni_postgres_operato.Client.Stores.{View, Stores, Owns, AsSent}
use patroni_postgres_operato.Controllers.Configmap.{reconcile_one, reconcile_all, reconcile}
use patroni_postgres_operato.Controllers.Configmap.Frame.{Leaves-reconcile_one}
use patroni_postgres_operato.Controllers.Adopt.{adopt}
use patroni_postgres_operato.Controllers.Adopt.Owning.{Owned}
use patroni_postgres_operato.Controllers.Adopted.{cm_meta, config_map, cm_name}
use patroni_postgres_operato.Controllers.Converges.{Converges, Converges-both}
use patroni_postgres_operato.Controllers.Converges.Rules.{Converges-adopt, Owned-stays}

module _ (c : Client) (owns : Owns c.set_owner_reference) (view : View c.World ConfigMap)
    (stores : Stores cm_meta AsSent view c.configmaps) where
  abbrev pub Has : String → PatroniPostgres → c.World → Type 0
  Has n = Owned c c.configmaps config_map (cm_name n) view stores owns

  pub stays_all :
      (ns : List String) (n : String) (s : State c.World)
      → Has n s.instance s.world
      → (reconcile_all c ns s).0 ≡ ok tt
      → Has n s.instance (reconcile_all c ns s).1.world
  unfolding reconcile_all pure reconcile_one adopt
  stays_all [] n s d h = d
  stays_all (m ∷ ms) n s d h =
      let (_, r, e) = bind-ok (reconcile_one c m) (λ _. reconcile_all c ms) s tt h in
      let t = (reconcile_one c m s).1 in
      let d1 =
        Owned-stays c c.configmaps view stores owns config_map (cm_name n) (cm_name m) s d r in
      let i = (Leaves-reconcile_one c {f = λ (p : PatroniPostgres). p} m).at s in
      let d2 = subst (λ p. Has n p t.world) (sym i) d1 in
      let d3 = stays_all ms n t d2 (sym (ap (λ x. x.0) e) ∙ h) in
      subst (λ (u : State c.World). Has n s.instance u.world) (sym (ap (λ x. x.1) e))
        (subst (λ p. Has n p (reconcile_all c ms t).1.world) i d3)

  unfoldable pub converges_all : (ns : List String) → Converges view (reconcile_all c ns)
  unfolding reconcile_all pure reconcile_one adopt Converges-adopt Converges-both
  converges_all [] = record {
    Rests = λ p w. Unit {0};
    rests-Same = λ p w w' r e. tt;
    rests_status = λ p st w r. tt;
    reaches = λ s h. tt;
    rests = λ s r h n. refl;
  }
  converges_all (n ∷ ns) =
      Converges-both (reconcile_one c n) (reconcile_all c ns)
        (Converges-adopt c c.configmaps view stores owns config_map (cm_name n) (λ p st. refl))
        (converges_all ns) (λ st. Leaves-reconcile_one c n) (λ s d h. stays_all ns n s d h)

  unfoldable pub Converges-Configmap : Converges view (reconcile c)
  unfolding reconcile converges_all
  Converges-Configmap = converges_all ("config" ∷ "leader" ∷ "sync" ∷ "failover" ∷ [])
