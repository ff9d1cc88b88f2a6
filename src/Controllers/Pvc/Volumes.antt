-- ===== src/Controllers/Pvc/Volumes.antt =====
-- The volume statuses after a reconciliation: one for each node, in order, with the name of its
-- claim.
use patroni_postgres_operato.Base.{
  ◌≡◌, refl, ap, sym, ◌∙◌, ℕ, suc, String, Option, none, some, List, [], ◌∷◌, ◌++◌, map, arith, inl,
  inr, eq_iff, str_eq, Bool-cases,
}
use mathlib.Core.List.{append_assoc, append-nil, map-append}
use patroni_postgres_operato.Base.StringMap.{lookup, insert, erase, lookup-insert, lookup-erase}
use patroni_postgres_operato.Exec.{Outcome, ok, ◌>>=◌}
use patroni_postgres_operato.Exec.Inversion.{bind-ok, then-ok}
use patroni_postgres_operato.Kube.{ObjectMeta, named, Pvc}
use patroni_postgres_operato.Api.{Node, VolumeStatus, PatroniPostgres}
use patroni_postgres_operato.Client.{Client, State, request}
use patroni_postgres_operato.Context.{set_meta, common_labels}
use patroni_postgres_operato.Controllers.Frame.{Leaves-ensure_pvc, Leaves-delete_all}
use patroni_postgres_operato.Controllers.Pvc.{
  pvc_name, PvcMap, by_name, volume_status, set_volume_statuses, add_volume_status, ensure_pvc,
  ensure_all, delete_all, reconcile,
}

-- The names of so many claims, from an index.
pub claim_names : PatroniPostgres → ℕ → List Node → List String
claim_names p idx [] = []
claim_names p idx (node ∷ nodes) = pvc_name p idx ∷ claim_names p (suc idx) nodes

-- What the server and the library do with the name of a claim: a create and a patch return the
-- claim of that name, and setting the owner keeps the name.
pub record KeepsNames (c : Client) : Type 0 where
  pub owner :
      (n : String) (m m' : ObjectMeta) → c.set_owner_reference n m ≡ ok m' → m'.name ≡ m.name
  pub create : (a b : Pvc) (w : c.World) → (c.pvcs.create a w).0 ≡ ok b → b.meta.name ≡ a.meta.name
  pub patch : (a o b : Pvc) (w : c.World) → (c.patch_pvc a o w).0 ≡ ok b → b.meta.name ≡ a.meta.name

-- A map in which every claim stands under its own name.
record ByName (m : PvcMap) : Type 0 where
  at : (k : String) (y : Pvc) → lookup k m ≡ some y → y.meta.name ≡ k

ByName-insert : (y : Pvc) (m : PvcMap) → ByName m → ByName (insert y.meta.name y m)
ByName-insert y m h = record {
  at = λ k z e. elim (Bool-cases (str_eq y.meta.name k)) [
    | inl q ↦ ground (arith, q, e, lookup-insert y.meta.name k y m, eq_iff y.meta.name k)
    | inr q ↦ h.at k z (ground (arith, q, e, lookup-insert y.meta.name k y m))
  ];
}

ByName-erase : (k : String) (m : PvcMap) → ByName m → ByName (erase k m)
ByName-erase k m h = record {
  at = λ j z e. elim (Bool-cases (str_eq k j)) [
    | inl q ↦ absurd (ground (arith, q, e, lookup-erase k j m))
    | inr q ↦ h.at j z (ground (arith, q, e, lookup-erase k j m))
  ];
}

ByName-nil : ByName []
unfolding lookup
ByName-nil = record { at = λ k z e. cc }

by_name-ByName : (xs : List Pvc) (m : PvcMap) → ByName m → ByName (by_name xs m)
unfolding by_name
by_name-ByName [] m h = h
by_name-ByName (y ∷ ys) m h = by_name-ByName ys (insert y.meta.name y m) (ByName-insert y m h)

pub pvc_name-same :
    (p q : PatroniPostgres) (idx : ℕ) → p.name ≡ q.name → pvc_name p idx ≡ pvc_name q idx
unfolding pvc_name
pvc_name-same p q idx e = rw e

pub names_of : PatroniPostgres → List String
names_of p = map (λ (v : VolumeStatus). v.claim_name) p.status.volume_statuses

names-add :
    {p q : PatroniPostgres} {n : String} (y : Pvc)
    → p ≡ q
    → y.meta.name ≡ n
    → names_of (add_volume_status y p) ≡ names_of q ++ n ∷ []
unfolding names_of add_volume_status
names-add {p} {q} y e f =
    ap (λ (r : PatroniPostgres). names_of (add_volume_status y r)) e
    ∙ map-append (λ (v : VolumeStatus). v.claim_name) q.status.volume_statuses
        (volume_status y ∷ [])
    ∙ ap (λ (m : String). names_of q ++ m ∷ []) f

module _ (c : Client) (laws : KeepsNames c) where
  set_meta-name :
      (m m' : ObjectMeta) (s : State c.World) → (set_meta c m s).0 ≡ ok m' → m'.name ≡ m.name
  unfolding set_meta
  set_meta-name m m' s h = laws.owner s.instance.name _ m' h

  ensure_pvc-name :
      (o : Option Pvc) (name : String) (node : Node) (y : Pvc) (s : State c.World)
      → ((orig : Pvc) → o ≡ some orig → orig.meta.name ≡ name)
      → (ensure_pvc c o name node s).0 ≡ ok y
      → y.meta.name ≡ name
  unfolding ensure_pvc
  ensure_pvc-name none name node y s n h =
      let (m, r, h1) = then-ok (set_meta c (named name)) _ s y h in
      laws.create _ y _ h1 ∙ set_meta-name (named name) m s r
  ensure_pvc-name (some orig) name node y s n h =
      let (m, r, h1) = then-ok (set_meta c orig.meta) _ s y h in
      laws.patch _ orig y _ h1 ∙ set_meta-name orig.meta m s r ∙ n orig refl

  abbrev names : State c.World → List String
  names s = names_of s.instance

  ensure_all-names :
      (nodes : List Node) (p : PatroniPostgres) (idx : ℕ) (m left : PvcMap) (s : State c.World)
      → ByName m
      → s.instance.name ≡ p.name
      → (ensure_all c idx nodes m s).0 ≡ ok left
      → names (ensure_all c idx nodes m s).1 ≡ names s ++ claim_names p idx nodes
  unfolding ensure_all claim_names
  ensure_all-names [] p idx m left s b e h = sym (append-nil (names s))
  ensure_all-names (node ∷ nodes) p idx m left s b e h =
      let name = pvc_name s.instance idx in
      let (y, r, e1) = bind-ok (ensure_pvc c (lookup name m) name node) _ s left h in
      let same : (ensure_pvc c (lookup name m) name node s).1.instance ≡ s.instance =
        (Leaves-ensure_pvc c {f = λ p. p} (lookup name m) name node).at s in
      let t : State c.World = record (ensure_pvc c (lookup name m) name node s).1 {
        instance = add_volume_status y (ensure_pvc c (lookup name m) name node s).1.instance;
      } in
      let h1 : (ensure_all c (suc idx) nodes (erase name m) t).0 ≡ ok left =
        sym (ap (λ (o : Outcome PvcMap × State c.World). o.0) e1) ∙ h in
      let ih =
        ensure_all-names nodes p (suc idx) (erase name m) left t (ByName-erase name m b)
          (ap (λ (q : PatroniPostgres). q.name) same ∙ e) h1 in
      let n : y.meta.name ≡ pvc_name p idx =
        ensure_pvc-name (lookup name m) name node y s (b.at name) r
        ∙ pvc_name-same s.instance p idx e in
      ap (λ (o : Outcome PvcMap × State c.World). names o.1) e1
      ∙ ih
      ∙ ap (λ (xs : List String). xs ++ claim_names p (suc idx) nodes) (names-add y same n)
      ∙ append_assoc (names s) (pvc_name p idx ∷ []) (claim_names p (suc idx) nodes)

  -- After a reconciliation of the claims that returns, the volume statuses name one claim for each
  -- node of the spec, in order, where the server and the library keep the names of claims.
  pub reconcile-names :
      (s : State c.World)
      → (reconcile c s).0 ≡ ok tt
      → names_of (reconcile c s).1.instance ≡ claim_names s.instance 0 s.instance.spec.nodes
  unfolding reconcile claim_names names_of
  reconcile-names s h =
      let (listed, _, e1) =
        bind-ok (request (c.list_pvcs s.instance.namespace (common_labels s.instance))) _ s tt h in
      let w : c.World = (c.list_pvcs s.instance.namespace (common_labels s.instance) s.world).1 in
      let t : State c.World = record { world = w; instance = set_volume_statuses [] s.instance } in
      let h1 : ((ensure_all c 0 s.instance.spec.nodes (by_name listed []) >>= λ left.
      delete_all c (c.map_order left))
            t).0
          ≡ ok tt =
        sym (ap (λ (o : Outcome (Unit {0}) × State c.World). o.0) e1) ∙ h in
      let (left, r, e2) =
        bind-ok (ensure_all c 0 s.instance.spec.nodes (by_name listed [])) _ t tt h1 in
      let u = (ensure_all c 0 s.instance.spec.nodes (by_name listed []) t).1 in
      ap (λ (o : Outcome (Unit {0}) × State c.World). names o.1) (e1 ∙ e2)
      ∙ (Leaves-delete_all c {f = names_of} (c.map_order left)).at u
      ∙ ensure_all-names s.instance.spec.nodes s.instance 0 (by_name listed []) left t
          (by_name-ByName listed [] ByName-nil) refl r
