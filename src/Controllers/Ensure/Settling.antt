-- ===== src/Controllers/Ensure/Settling.antt =====
-- What was ensured is settled: to ensure it once more changes nothing.
use mathlib.Core.Path.{subst}
use patroni_postgres_operato.Base.{◌≡◌, ◌≢◌, sym, ap, ◌∙◌, inl, inr, Option, some, arith}
use patroni_postgres_operato.Exec.{ok}
use patroni_postgres_operato.Kube.{ObjectMeta}
use patroni_postgres_operato.Api.{desired, PatroniPostgres, PatroniPostgresStatus}
use patroni_postgres_operato.Client.{Client, Kind, NamespacedName, State}
use patroni_postgres_operato.Client.Stores.{View, Same, Put, Stores, Owns}
use patroni_postgres_operato.Client.Stores.Reads.{key-cases}
use patroni_postgres_operato.Context.{common_labels}
use patroni_postgres_operato.Controllers.Ensure.{Recipe, key, ensure, marked, key-marked, ensure-ok}

module _ {A : Type 0} (c : Client) (k : Kind c.World A) {meta : A → ObjectMeta}
    {Fills : A → A → Type 0} (r : Recipe meta Fills) (view : View c.World A)
    (stores : Stores meta Fills view k) (owns : Owns c.set_owner_reference) where
  marked_again :
      (p : PatroniPostgres) (w : c.World) (m : ObjectMeta)
      → marked c k r p (view w (key c k r p)) ≡ ok m
      → (a : A) → meta a ≡ m
      → marked c k r p (some a) ≡ ok m
  marked_again p w m h a e =
      let same : record m { namespace = p.namespace; labels = common_labels p } ≡ m =
        ground (arith, key-marked c k r view stores owns p w m h, owns.labels _ _ m h) in
      ap
        (λ (x : ObjectMeta).
          c.set_owner_reference p.name
            (record x { namespace = p.namespace; labels = common_labels p }))
        (r.start_some p a ∙ e)
      ∙ ap (c.set_owner_reference p.name) same
      ∙ owns.again _ _ m h

  -- The object is there, and what would be sent is what is there.
  pub record Settled (p : PatroniPostgres) (w : c.World) : Type 0 where
    pub object : A
    pub there : view w (key c k r p) ≡ some object
    pub kept : marked c k r p (some object) ≡ ok (meta object)
    pub built : Fills (r.build p (meta object) (some object)) object

  pub Settled-Same :
      (p : PatroniPostgres) (w w' : c.World) → Settled p w → Same view w w' → Settled p w'
  Settled-Same p w w' d same = record {
    object = d.object;
    there = same (key c k r p) ∙ d.there;
    kept = d.kept;
    built = d.built;
  }

  pub Settled-Put :
      (p : PatroniPostgres) (w w' : c.World) (n : NamespacedName) (a : A)
      → Settled p w
      → Put view n a w w'
      → key c k r p ≢ n
      → Settled p w'
  Settled-Put p w w' n a d (_, others) ne = record {
    object = d.object;
    there = others (key c k r p) ne ∙ d.there;
    kept = d.kept;
    built = d.built;
  }

  pub Settled-status :
      (p : PatroniPostgres) (st : PatroniPostgresStatus) (w : c.World)
      → Settled p w
      → Settled (desired st p) w
  unfolding common_labels
  Settled-status p st w d = record {
    object = d.object;
    there = rw (r.name_status p st) d.there;
    kept =
        ap
          (λ (x : ObjectMeta).
            c.set_owner_reference p.name
              (record x { namespace = p.namespace; labels = common_labels p }))
          (r.start_some (desired st p) d.object ∙ sym (r.start_some p d.object))
        ∙ d.kept;
    built =
        subst (λ x. Fills x d.object) (sym (r.build_status p st (meta d.object) (some d.object)))
          d.built;
  }

  -- What was ensured is settled.
  pub ensure-Settled :
      (s : State c.World) → (ensure c k r s).0 ≡ ok tt → Settled s.instance (ensure c k r s).1.world
  ensure-Settled s h =
      let p = s.instance in
      let o = view s.world (key c k r p) in
      let (m, b, q, fills, (there, _), _, _) = ensure-ok c k r view stores owns s h in
      let e = stores.Fills-meta (r.build p m o) b fills ∙ r.meta-build p m o in
      record {
        object = b;
        there = there;
        kept = marked_again p s.world m q b e ∙ ap ok (sym e);
        built =
            subst (λ (x : ObjectMeta). Fills (r.build p x (some b)) b) (sym e)
              (r.build_again p m o b fills);
      }

  -- To ensure what is settled leaves the objects of its kind as they are.
  pub Settled-ensure :
      (s : State c.World)
      → Settled s.instance s.world
      → (ensure c k r s).0 ≡ ok tt
      → Same view s.world (ensure c k r s).1.world
  Settled-ensure s d h j =
      let p = s.instance in
      let (m, b, q, _, (there, others), _, still) = ensure-ok c k r view stores owns s h in
      let e : m ≡ meta d.object = cc (sym q ∙ ap (marked c k r p) d.there ∙ d.kept) in
      let f : Fills (r.build p m (view s.world (key c k r p))) d.object =
        subst (λ (x : Option A). Fills (r.build p m x) d.object) (sym d.there)
          (subst (λ (x : ObjectMeta). Fills (r.build p x (some d.object)) d.object) (sym e)
            d.built) in
      let g : b ≡ d.object = still d.object d.there f in
      elim (key-cases j (key c k r p)) [
        | inr ne ↦ others j ne
        | inl eq ↦
            ap (view (ensure c k r s).1.world) eq
            ∙ there
            ∙ ap some g
            ∙ sym d.there
            ∙ ap (view s.world) (sym eq)
      ]
