-- ===== src/Controllers/Statefulset/Ready.antt =====
-- The state that the stateful set leads to, and which pods its selector and those of the other
-- objects select.
use patroni_postgres_operato.Base.{
  ◌≡◌, refl, ◌≢◌, ◌⊎◌, inl, inr, ap, sym, ◌∙◌, Bool, List, [], arith, Bool-cases, ◌==◌, length,
}
use patroni_postgres_operato.Exec.{Outcome, ok, modify}
use patroni_postgres_operato.Exec.Inversion.{bind-ok}
use patroni_postgres_operato.Kube.{StatefulSet}
use patroni_postgres_operato.Api.{PatroniPostgres, state_ready, state_scaling}
use patroni_postgres_operato.Client.{State, find}
use patroni_postgres_operato.Image.{upgrade_versions}
use patroni_postgres_operato.Context.{Context, set_meta}
use patroni_postgres_operato.Controllers.Statefulset.{
  send_sts, reconcile_sts, scaled, reconcile, Patch, or_new,
}
use patroni_postgres_operato.Controllers.Frame.{but_ready, Leaves-reconcile_sts}

module _ (x : Context) where
  send_sts-ready :
      (b : Bool) (sts r : StatefulSet) (s : State x.client.World)
      → (send_sts x b sts s).0 ≡ ok r
      → (send_sts x b sts s).1.instance.status.ready ≡ r.ready_replicas
  unfolding send_sts
  send_sts-ready b sts r s h = rw h refl

  scaled-cases :
      (sts : StatefulSet) (p : PatroniPostgres)
      → ((sts.ready_replicas ≡ length p.spec.nodes)
          × ((scaled x sts p).status.state ≡ state_ready)
          × ((scaled x sts p).status.upgrade_versions ≡ upgrade_versions x.im p.status.version)
          × ((scaled x sts p).status.ready ≡ p.status.ready))
        ⊎ ((sts.ready_replicas ≢ length p.spec.nodes)
            × ((scaled x sts p).status.state ≡ state_scaling)
            × ((scaled x sts p).status.upgrade_versions ≡ p.status.upgrade_versions)
            × ((scaled x sts p).status.ready ≡ p.status.ready))
  unfolding scaled
  scaled-cases sts p = elim (Bool-cases (sts.ready_replicas == length p.spec.nodes)) [
    | inl e ↦ rw e (inl (ground arith, refl, refl, refl))
    | inr e ↦ rw e (inr (λ f. ground arith, refl, refl, refl))
  ]

  reconcile_sts-ready :
      (ps : List Patch) (r : StatefulSet) (s : State x.client.World)
      → (reconcile_sts x ps s).0 ≡ ok r
      → (reconcile_sts x ps s).1.instance.status.ready ≡ r.ready_replicas
  unfolding reconcile_sts
  reconcile_sts-ready ps r s h =
      let (o, _, e1) = bind-ok (find x.client.statefulsets _) _ s r h in
      let h1 = sym (ap (λ (t : Outcome StatefulSet × State x.client.World). t.0) e1) ∙ h in
      let (m, _, e2) = bind-ok (set_meta x.client (or_new s.instance o).meta) _ _ r h1 in
      let h2 = sym (ap (λ (t : Outcome StatefulSet × State x.client.World). t.0) e2) ∙ h1 in
      ap (λ (t : Outcome StatefulSet × State x.client.World). t.1.instance.status.ready) (e1 ∙ e2)
      ∙ send_sts-ready _ _ r _ h2

  -- A reconciliation of the stateful set that returns leaves the state ready, with the versions that
  -- the image offers, if as many pods are ready as the spec has nodes, and else scaling.
  pub reconcile-state :
      (s : State x.client.World)
      → (reconcile x s).0 ≡ ok tt
      → let p = s.instance in
        let q = (reconcile x s).1.instance in
        ((q.status.ready ≡ length p.spec.nodes)
          × (q.status.state ≡ state_ready)
          × (q.status.upgrade_versions ≡ upgrade_versions x.im p.status.version))
        ⊎ ((q.status.ready ≢ length p.spec.nodes)
            × (q.status.state ≡ state_scaling)
            × (q.status.upgrade_versions ≡ p.status.upgrade_versions))
  unfolding reconcile modify
  reconcile-state s h =
      let (r, a, e) = bind-ok (reconcile_sts x []) _ s tt h in
      let t = (reconcile_sts x [] s).1.instance in
      let i : (reconcile x s).1.instance ≡ scaled x r t =
        ap (λ (o : Outcome (Unit {0}) × State x.client.World). o.1.instance) e in
      let same : but_ready t ≡ but_ready s.instance = (Leaves-reconcile_sts x []).at s in
      let nodes : length t.spec.nodes ≡ length s.instance.spec.nodes =
        ap (λ (p : PatroniPostgres). length p.spec.nodes) same in
      rw i (elim (scaled-cases r t) [
        | inl (n, z, v, k) ↦ inl (
          k ∙ reconcile_sts-ready [] r s a ∙ n ∙ nodes,
          z,
          v ∙ ap (λ (p : PatroniPostgres). upgrade_versions x.im p.status.version) same,
        )
        | inr (n, z, v, k) ↦ inr (
          λ f. n (sym (reconcile_sts-ready [] r s a) ∙ sym k ∙ f ∙ sym nodes),
          z,
          v ∙ ap (λ (p : PatroniPostgres). p.status.upgrade_versions) same,
        )
      ])
