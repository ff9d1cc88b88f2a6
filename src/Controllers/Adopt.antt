-- ===== src/Controllers/Adopt.antt =====
-- What the reconcilers that create their object once have in common: an object that is there is left
-- as it is, unless it has no owner yet.
pub mod Owning
use mathlib.Core.Path.{subst}
use patroni_postgres_operato.Base.{
  List-cases, ◌≡◌, ◌≢◌, refl, sym, ap, ◌∙◌, ◌⊎◌, inl, inr, String, [], ◌∷◌, Option, none, some,
  arith,
}
use patroni_postgres_operato.Exec.{Outcome, ok, Exec, pure, ◌>>=◌}
use patroni_postgres_operato.Exec.Inversion.{bind-ok}
use patroni_postgres_operato.Kube.{ObjectMeta, named}
use patroni_postgres_operato.Api.{PatroniPostgres, PatroniPostgresStatus}
use patroni_postgres_operato.Client.{
  Client, Kind, NamespacedName, State, request, find, the_instance,
}
use patroni_postgres_operato.Client.Stores.{key_of, View, Same, Put, Stores, Owns}
use patroni_postgres_operato.Client.Stores.Reads.{key-cases, find-view, Put-along}
use patroni_postgres_operato.Context.{set_meta, common_labels}

-- How an object gets new metadata, and what a new one is.
pub record Adoption {A : Type 0} (meta : A → ObjectMeta) (Fills : A → A → Type 0) : Type 0 where
  pub with_meta : A → ObjectMeta → A
  pub fresh : ObjectMeta → A
  pub meta-with_meta : (a : A) (m : ObjectMeta) → meta (with_meta a m) ≡ m
  pub meta-fresh : (m : ObjectMeta) → meta (fresh m) ≡ m

module _ {A : Type 0} (c : Client) (k : Kind c.World A) {meta : A → ObjectMeta}
    {Fills : A → A → Type 0} (r : Adoption meta Fills) (name : PatroniPostgres → String) where
  abbrev pub key : PatroniPostgres → NamespacedName
  key p = record { namespace = p.namespace; name = name p }

  abbrev pub mark : PatroniPostgres → ObjectMeta → Outcome ObjectMeta
  mark p m =
      c.set_owner_reference p.name (record m { namespace = p.namespace; labels = common_labels p })

  -- What follows the get.
  unfoldable pub adopt_found : PatroniPostgres → Option A → Exec (State c.World) (Unit {0})
  unfolding ◌>>=◌ request set_meta
  adopt_found p o = elim o [
    | some a ↦ elim (meta a).owners [
      | [] ↦ do m ← set_meta c (meta a); _ ← request (k.update (r.with_meta a m)); pure tt
      | _ ∷ _ ↦ pure tt
    ]
    | none ↦ do m ← set_meta c (named (name p)); _ ← request (k.create (r.fresh m)); pure tt
  ]

  unfoldable pub adopt : Exec (State c.World) (Unit {0})
  unfolding ◌>>=◌ the_instance find adopt_found
  adopt = do p ← the_instance; o ← find k (key p); adopt_found p o

  -- What there is afterwards, by what there was.
  abbrev pub Adopted : PatroniPostgres → Option A → A → Type 0
  Adopted p none b = (m : ObjectMeta) × (mark p (named (name p)) ≡ ok m) × Fills (r.fresh m) b
  Adopted p (some a) b =
      ((meta a).owners ≢ []) × (b ≡ a)
      ⊎ ((meta a).owners ≡ [])
        × (m : ObjectMeta) × (mark p (meta a) ≡ ok m)
        × Fills (r.with_meta a m) b

  module _ (view : View c.World A) (stores : Stores meta Fills view k)
      (owns : Owns c.set_owner_reference) where
    abbrev sending :
        (A → c.World → Outcome A × c.World)
        → (ObjectMeta → A)
        → ObjectMeta
        → Exec (State c.World) (Unit {0})
    sending op make m0 = set_meta c m0 >>= λ m. request (op (make m)) >>= λ _. pure (tt {0})

    sending-Put :
        (op : A → c.World → Outcome A × c.World) (make : ObjectMeta → A) (m0 : ObjectMeta)
        (s : State c.World)
        → ((a b : A) (w : c.World)
            → (op a w).0 ≡ ok b
            → Fills a b × Put view (key_of (meta a)) b w (op a w).1)
        → ((m : ObjectMeta) → meta (make m) ≡ m)
        → (sending op make m0 s).0 ≡ ok tt
        → (m : ObjectMeta) × (b : A) × (mark s.instance m0 ≡ ok m)
          × Fills (make m) b
          × Put view (key_of m) b s.world (sending op make m0 s).1.world
          × ((sending op make m0 s).1.instance ≡ s.instance)
    unfolding set_meta request pure
    sending-Put op make m0 s puts meta-make h =
        let (m, q, e1) =
          bind-ok (set_meta c m0) (λ m. request (op (make m)) >>= λ _. pure (tt {0})) s tt h in
        let h1 = sym (ap (λ x. x.0) e1) ∙ h in
        let (a, w, e2) = bind-ok (request (op (make m))) (λ _. pure (tt {0})) s tt h1 in
        let e = sym (ap (λ x. x.1) (e1 ∙ e2)) in
        let (f, put) = puts (make m) a s.world w in
        (
          m,
          a,
          q,
          f,
          subst (λ (u : State c.World). Put view (key_of m) a s.world u.world) e
              (subst (λ (x : ObjectMeta). Put view (key_of x) a s.world (op (make m) s.world).1)
                (meta-make m) put),
          ap (λ (u : State c.World). u.instance) (sym e),
        )

    key-mark :
        (p : PatroniPostgres) (m0 m : ObjectMeta)
        → m0.name ≡ name p
        → mark p m0 ≡ ok m
        → key_of m ≡ key p
    key-mark p m0 m e h = ground (arith, e, owns.key _ _ m h)

    -- What follows a get, by what it found.
    found-Adopted :
        (o : Option A) (s : State c.World)
        → view s.world (key s.instance) ≡ o
        → (adopt_found s.instance o s).0 ≡ ok tt
        → (b : A) × Adopted s.instance o b
          × Put view (key s.instance) b s.world (adopt_found s.instance o s).1.world
          × ((adopt_found s.instance o s).1.instance ≡ s.instance)
    unfolding adopt_found
    found-Adopted none s v h =
        let p = s.instance in
        let (m, b, q, f, put, i) =
          sending-Put k.create r.fresh (named (name p)) s stores.create_put r.meta-fresh h in
        (
          b,
          (m, q, f),
          subst (λ n. Put view n b s.world (adopt_found p none s).1.world)
              (key-mark p (named (name p)) m refl q) put,
          i,
        )
    found-Adopted (some a) s v h = elim (List-cases (meta a).owners) [
      | inl e ↦
          let p = s.instance in
          let g : adopt_found p (some a) s ≡ sending k.update (r.with_meta a) (meta a) s =
            ground (arith, e) in
          let (m, b, q, f, put, i) =
            sending-Put k.update (r.with_meta a) (meta a) s stores.update_put (r.meta-with_meta a)
              (sym (ap (λ x. x.0) g) ∙ h) in
          let n =
            key-mark p (meta a) m
              (ap (λ (x : NamespacedName). x.name) (stores.keyed (key p) a s.world v)) q in
          (
            b,
            inr (e, m, q, f),
            subst (λ n. Put view n b s.world (adopt_found p (some a) s).1.world) n
                (subst
                  (λ (x : Outcome (Unit {0}) × State c.World).
                    Put view (key_of m) b s.world x.1.world)
                  (sym g) put),
            ap (λ (x : Outcome (Unit {0}) × State c.World). x.1.instance) g ∙ i,
          )
      | inr (y, ys, e) ↦
          let g : adopt_found s.instance (some a) s ≡ (ok tt, s) = ground (arith, e) in
          (
            a,
            inl (λ z. ground (arith, e, z), refl),
            subst
                (λ (x : Outcome (Unit {0}) × State c.World).
                  Put view (key s.instance) a s.world x.1.world)
                (sym g) (v, λ j ne. refl),
            ap (λ (x : Outcome (Unit {0}) × State c.World). x.1.instance) g,
          )
    ]

    -- When the object was adopted, it is under its key what it was, or what it should be, and nothing
    -- else of its kind has changed.
    pub adopt-ok :
        (s : State c.World)
        → (adopt s).0 ≡ ok tt
        → (b : A) × Adopted s.instance (view s.world (key s.instance)) b
          × Put view (key s.instance) b s.world (adopt s).1.world
          × ((adopt s).1.instance ≡ s.instance)
    unfolding adopt
    adopt-ok s h =
        let p = s.instance in
        let (o, f, e1) = bind-ok (find k (key p)) (adopt_found p) s tt h in
        let (v, same, i) = find-view k view stores (key p) s o f in
        let t = (find k (key p) s).1 in
        let (b, d, put, j) = found-Adopted o t (same (key p) ∙ v) (sym (ap (λ x. x.0) e1) ∙ h) in
        let e = sym (ap (λ x. x.1) e1) in
        (
          b,
          subst (λ x. Adopted p x b) (sym v) d,
          Put-along view (key p) b same
              (subst (λ (u : State c.World). Put view (key p) b t.world u.world) e put),
          ap (λ (u : State c.World). u.instance) (sym e) ∙ j ∙ i,
        )
