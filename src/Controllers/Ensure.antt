-- ===== src/Controllers/Ensure.antt =====
-- What the reconcilers that always send their object have in common: get it, or begin with a new one;
-- set its metadata; write what it should be; create or update it.
pub mod Settling
use mathlib.Core.Path.{subst}
use patroni_postgres_operato.Base.{
  ◌≡◌, ◌≢◌, refl, sym, ap, ◌∙◌, inl, inr, String, Option, none, some, arith,
}
use patroni_postgres_operato.Exec.{Outcome, ok, Exec, pure, ◌>>=◌}
use patroni_postgres_operato.Exec.Inversion.{bind-ok}
use patroni_postgres_operato.Kube.{ObjectMeta, named}
use patroni_postgres_operato.Api.{desired, PatroniPostgres, PatroniPostgresStatus}
use patroni_postgres_operato.Client.{
  Client, Kind, NamespacedName, State, find, the_instance, is_new, create_or_update,
}
use patroni_postgres_operato.Client.Leaves.{Leaves, leaves_rules}
use patroni_postgres_operato.Client.Stores.{key_of, View, Same, Put, Stores, Owns}
use patroni_postgres_operato.Client.Stores.Reads.{key-cases, find-view, Put-along}
use patroni_postgres_operato.Context.{set_meta, common_labels}

-- How an object is built: its name, the metadata to begin with, and the object from the new metadata
-- and what was found. What is built from what the server made of it is that again.
pub record Recipe {A : Type 0} (meta : A → ObjectMeta) (Fills : A → A → Type 0) : Type 0 where
  pub name : PatroniPostgres → String
  pub start : PatroniPostgres → Option A → ObjectMeta
  pub build : PatroniPostgres → ObjectMeta → Option A → A
  pub start_none : (p : PatroniPostgres) → start p none ≡ named (name p)
  pub start_some : (p : PatroniPostgres) (a : A) → start p (some a) ≡ meta a
  pub meta-build : (p : PatroniPostgres) (m : ObjectMeta) (o : Option A) → meta (build p m o) ≡ m
  pub build_again :
      (p : PatroniPostgres) (m : ObjectMeta) (o : Option A) (b : A)
      → Fills (build p m o) b
      → Fills (build p m (some b)) b
  -- The status has no part in it, but for the version.
  pub name_status :
      (p : PatroniPostgres) (st : PatroniPostgresStatus) → name (desired st p) ≡ name p
  pub build_status :
      (p : PatroniPostgres) (st : PatroniPostgresStatus) (m : ObjectMeta) (o : Option A)
      → build (desired st p) m o ≡ build p m o

Leaves-set_meta :
    (c : Client) {B : Type 0} {f : PatroniPostgres → B} (m : ObjectMeta) → Leaves f (set_meta c m)
Leaves-set_meta c m = unfold set_meta in search (leaves_rules) depth 6

module _ {A : Type 0} (c : Client) (k : Kind c.World A) {meta : A → ObjectMeta}
    {Fills : A → A → Type 0} (r : Recipe meta Fills) where
  abbrev pub key : PatroniPostgres → NamespacedName
  key p = record { namespace = p.namespace; name = r.name p }

  -- For an instance that was read.
  unfoldable pub ensure_as : PatroniPostgres → Exec (State c.World) (Unit {0})
  unfolding ◌>>=◌ the_instance find set_meta create_or_update
  ensure_as p = do
    o ← find k (key p)
    m ← set_meta c (r.start p o)
    _ ← create_or_update k (is_new o) (r.build p m o)
    pure tt

  unfoldable pub ensure : Exec (State c.World) (Unit {0})
  unfolding ◌>>=◌ the_instance ensure_as
  ensure = do p ← the_instance; ensure_as p

  pub Leaves-ensure_as :
      {B : Type 0} {f : PatroniPostgres → B} (p : PatroniPostgres) → Leaves f (ensure_as p)
  Leaves-ensure_as p = unfold ensure_as in search (leaves_rules, Leaves-set_meta c) depth 8

  -- The metadata that the object had, or begins with, marked as the instance's.
  abbrev pub marked : PatroniPostgres → Option A → Outcome ObjectMeta
  marked p o =
      c.set_owner_reference p.name
        (record (r.start p o) { namespace = p.namespace; labels = common_labels p })

  module _ (view : View c.World A) (stores : Stores meta Fills view k)
      (owns : Owns c.set_owner_reference) where
    -- The key under which the object is sent is the one that was asked for.
    pub key-marked :
        (p : PatroniPostgres) (w : c.World) (m : ObjectMeta)
        → marked p (view w (key p)) ≡ ok m
        → key_of m ≡ key p
    key-marked p w m h = owns.key _ _ m h ∙ asked (view w (key p)) refl
      where
        asked :
            (o : Option A)
            → view w (key p) ≡ o
            → key_of (record (r.start p o) { namespace = p.namespace; labels = common_labels p })
              ≡ key p
        asked none e = ground (arith, r.start_none p)
        asked (some a) e = ground (arith, r.start_some p a, stores.keyed (key p) a w e)

    sent :
        (o : Option A) (a b : A) (s : State c.World)
        → (create_or_update k (is_new o) a s).0 ≡ ok b
        → Fills a b
          × Put view (key_of (meta a)) b s.world (create_or_update k (is_new o) a s).1.world
          × ((create_or_update k (is_new o) a s).1.instance ≡ s.instance)
          × ((x : A) → o ≡ some x → view s.world (key_of (meta a)) ≡ some x → Fills a x → b ≡ x)
    unfolding create_or_update
    sent none a b s h =
        let (f, put) = stores.create_put a b s.world h in
        (f, put, refl, λ x e. absurd (ground arith))
    sent (some _) a b s h =
        let (f, put) = stores.update_put a b s.world h in
        (f, put, refl, λ x _ v g. stores.update_same a x b s.world v g h)

    -- When the object was ensured, it is what it should be, but for what the server fills in, under
    -- its key, and nothing else of its kind has changed.
    pub ensure-ok :
        (s : State c.World)
        → (ensure s).0 ≡ ok tt
        → let o = view s.world (key s.instance) in
          (m : ObjectMeta) × (b : A) × (marked s.instance o ≡ ok m)
          × Fills (r.build s.instance m o) b
          × Put view (key s.instance) b s.world (ensure s).1.world
          × ((ensure s).1.instance ≡ s.instance)
          × ((x : A) → o ≡ some x → Fills (r.build s.instance m o) x → b ≡ x)
    unfolding ensure
    ensure-ok s h =
        let p = s.instance in
        let last = λ (o : Option A) (m : ObjectMeta).
          create_or_update k (is_new o) (r.build p m o) >>= λ _. pure (tt {0}) in
        let (o, f, e1) =
          bind-ok (find k (key p)) (λ o. set_meta c (r.start p o) >>= last o) s tt h in
        let (v, same, i) = find-view k view stores (key p) s o f in
        let t = (find k (key p) s).1 in
        let h1 = sym (ap (λ q. q.0) e1) ∙ h in
        let (m, q, e2) = bind-ok (set_meta c (r.start p o)) (last o) t tt h1 in
        let h2 = sym (ap (λ q. q.0) e2) ∙ h1 in
        let (a, w, e3) =
          bind-ok (create_or_update k (is_new o) (r.build p m o)) (λ _. pure tt) t tt h2 in
        let (fills, put, j, still) = sent o (r.build p m o) a t w in
        let e : (create_or_update k (is_new o) (r.build p m o) t).1 ≡ (ensure s).1 =
          sym (ap (λ x. x.1) (e1 ∙ e2 ∙ e3)) in
        let n = ap key_of (r.meta-build p m o) ∙ key-marked p s.world m (ap (marked p) v ∙ q) in
        subst
          (λ (x : Option A).
            (m : ObjectMeta) × (b : A) × (marked p x ≡ ok m)
            × Fills (r.build p m x) b
            × Put view (key p) b s.world (ensure s).1.world
            × ((ensure s).1.instance ≡ s.instance)
            × ((y : A) → x ≡ some y → Fills (r.build p m x) y → b ≡ y))
          (sym v)
          (
            m,
            a,
            q,
            fills,
            Put-along view (key p) a same (
                subst (λ x. Put view x a t.world (ensure s).1.world) n
                  (subst
                    (λ (u : State c.World).
                      Put view (key_of (meta (r.build p m o))) a t.world u.world)
                    e put)),
            ap (λ (u : State c.World). u.instance) (sym e) ∙ j ∙ i,
            λ y x. still y x (ap (view t.world) n ∙ same (key p) ∙ v ∙ x),
          )
