-- ===== src/Controllers/Pvc/Kept.antt =====
-- What a reconciliation of the claims deletes (private/controllers/pvc/pvc.go).
use mathlib.Core.Path.{subst}
use patroni_postgres_operato.Base.{
  ◌≢◌, ◌⊎◌, inl, inr, refl, str_eq, eq_iff, Bool-cases, ◌≡◌, ap, sym, ◌∙◌, ℕ, zero, suc, ◌+◌, ◌<◌,
  String, none, List, [], ◌∷◌, arith, length, eq_refl,
}
use patroni_postgres_operato.Base.StringMap.{AllEntries, insert, lookup, erase, lookup-erase}
use patroni_postgres_operato.Exec.{Exec, Outcome, ok, err, panic, not_found, ◌>>=◌}
use patroni_postgres_operato.Exec.Chain.{Chain}
use patroni_postgres_operato.Context.{common_labels}
use patroni_postgres_operato.Exec.Inversion.{bind-ok}
use patroni_postgres_operato.Kube.{Pvc}
use patroni_postgres_operato.Api.{Node, PatroniPostgres}
use patroni_postgres_operato.Client.{Client, State, request, background}
use patroni_postgres_operato.Controllers.Frame.{Leaves-ensure_pvc}
use patroni_postgres_operato.Controllers.Pvc.{
  pvc_name, PvcMap, add_volume_status, ensure_pvc, ensure_all, deleted, delete_all, by_name,
  set_volume_statuses, reconcile,
}
use patroni_postgres_operato.Controllers.Pvc.Volumes.{pvc_name-same}

erase-none : (k j : String) (m : PvcMap) → lookup j m ≡ none → lookup j (erase k m) ≡ none
erase-none k j m h = ground (arith, h, lookup-erase k j m)

erase-same : (k : String) (m : PvcMap) → lookup k (erase k m) ≡ none
erase-same k m = ground (arith, eq_refl k, lookup-erase k k m)

at_index :
    (name : ℕ → String) (left : PvcMap) {i j : ℕ}
    → i ≡ j
    → lookup (name j) left ≡ none
    → lookup (name i) left ≡ none
at_index name left e h = ap (λ (k : ℕ). lookup (name k) left) e ∙ h

-- The claims stand in the map under their own names.
abbrev Named : PvcMap → Type 0
Named = AllEntries (λ (k : String) (y : Pvc). y.meta.name ≡ k)

Named-insert : (y : Pvc) (m : PvcMap) → Named m → Named (insert y.meta.name y m)
unfolding insert
Named-insert y [] n = (refl, tt)
Named-insert y ((k, z) ∷ m) (e, n) = elim (Bool-cases (str_eq k y.meta.name)) [
  | inl f ↦ rw f (refl, n)
  | inr f ↦ rw f (e, Named-insert y m n)
]

Named-erase : (j : String) (m : PvcMap) → Named m → Named (erase j m)
unfolding erase
Named-erase j [] n = tt
Named-erase j ((k, z) ∷ m) (e, n) = elim (Bool-cases (str_eq k j)) [
  | inl f ↦ rw f (Named-erase j m n)
  | inr f ↦ rw f (e, Named-erase j m n)
]

by_name-Named : (ys : List Pvc) (m : PvcMap) → Named m → Named (by_name ys m)
unfolding by_name
by_name-Named [] m n = n
by_name-Named (y ∷ ys) m n = by_name-Named ys (insert y.meta.name y m) (Named-insert y m n)

-- A claim in the map has not the name of a key that is not there.
none-others :
    (k : String) (m : PvcMap)
    → Named m
    → lookup k m ≡ none
    → AllEntries (λ (j : String) (y : Pvc). y.meta.name ≢ k) m
unfolding lookup
none-others k [] n h = tt
none-others k ((j, y) ∷ m) (e, n) h = elim (Bool-cases (str_eq j k)) [
  | inl f ↦ absurd (ground (arith, f, h))
  | inr f ↦ (λ g. ground (arith, f, e, g, eq_iff j k), none-others k m n (ground (arith, f, h)))
]

deleted-cases : (r : Outcome (Unit {0})) → deleted r ≡ ok tt → (r ≡ ok tt) ⊎ (r ≡ err not_found)
unfolding deleted
deleted-cases (ok _) h = inl refl
deleted-cases (err not_found) h = inr refl
deleted-cases (err e) h = absurd cc
deleted-cases panic h = absurd cc

module _ (c : Client) where
  -- The state in which the loop goes on after one node.
  abbrev after_node : ℕ → Node → PvcMap → Pvc → State c.World → State c.World
  after_node idx node m y s =
      let t =
        (ensure_pvc c (lookup (pvc_name s.instance idx) m) (pvc_name s.instance idx) node s).1 in
      record t { instance = add_volume_status y t.instance }

  after_node-name :
      (idx : ℕ) (node : Node) (m : PvcMap) (y : Pvc) (s : State c.World)
      → (after_node idx node m y s).instance.name ≡ s.instance.name
  unfolding add_volume_status
  after_node-name idx node m y s =
      ap (λ (q : PatroniPostgres). q.name)
        ((Leaves-ensure_pvc c {f = λ p. p} (lookup (pvc_name s.instance idx) m)
            (pvc_name s.instance idx) node).at
          s)

  next_node :
      (idx : ℕ) (node : Node) (nodes : List Node) (m left : PvcMap) (s : State c.World)
      → (ensure_all c idx (node ∷ nodes) m s).0 ≡ ok left
      → (y : Pvc) × ((ensure_all c
            (suc idx)
            nodes
            (erase (pvc_name s.instance idx) m)
            (after_node idx node m y s)).0
          ≡ ok left)
  unfolding ensure_all
  next_node idx node nodes m left s h =
      let (y, _, e) =
        bind-ok (ensure_pvc c (lookup (pvc_name s.instance idx) m) (pvc_name s.instance idx) node) _
          s left h in
      (y, sym (ap (λ (o : Outcome PvcMap × State c.World). o.0) e) ∙ h)

  no_node :
      (idx : ℕ) (m left : PvcMap) (s : State c.World)
      → (ensure_all c idx [] m s).0 ≡ ok left
      → left ≡ m
  unfolding ensure_all
  no_node idx m left s h = cc

  ensure_all-none :
      (nodes : List Node) (k : String) (idx : ℕ) (m left : PvcMap) (s : State c.World)
      → lookup k m ≡ none
      → (ensure_all c idx nodes m s).0 ≡ ok left
      → lookup k left ≡ none
  ensure_all-none [] k idx m left s n h =
      ap (λ (l : PvcMap). lookup k l) (no_node idx m left s h) ∙ n
  ensure_all-none (node ∷ nodes) k idx m left s n h =
      let (y, h1) = next_node idx node nodes m left s h in
      ensure_all-none nodes k (suc idx) _ left _ (erase-none (pvc_name s.instance idx) k m n) h1

  ensure_all-left :
      (nodes : List Node) (i idx : ℕ) (m left : PvcMap) (s : State c.World)
      → i < length nodes
      → (ensure_all c idx nodes m s).0 ≡ ok left
      → lookup (pvc_name s.instance (idx + i)) left ≡ none
  ensure_all-left [] i idx m left s lt h = absurd (ground arith)
  ensure_all-left (node ∷ nodes) zero idx m left s lt h =
      let (y, h1) = next_node idx node nodes m left s h in
      at_index (pvc_name s.instance) left (omega arith) (
        ensure_all-none nodes (pvc_name s.instance idx) (suc idx) _ left _
          (erase-same (pvc_name s.instance idx) m) h1)
  ensure_all-left (node ∷ nodes) (suc i) idx m left s lt h =
      let (y, h1) = next_node idx node nodes m left s h in
      let t = after_node idx node m y s in
      let ih = ensure_all-left nodes i (suc idx) _ left t (omega (arith, lt)) h1 in
      at_index (pvc_name s.instance) left (omega arith) (
        ap (λ (k : String). lookup k left)
          (sym (pvc_name-same t.instance s.instance (suc idx + i) (after_node-name idx node m y s)))
        ∙ ih)

  ensure_all-Named :
      (nodes : List Node) (idx : ℕ) (m left : PvcMap) (s : State c.World)
      → Named m
      → (ensure_all c idx nodes m s).0 ≡ ok left
      → Named left
  ensure_all-Named [] idx m left s n h = rw (no_node idx m left s h) n
  ensure_all-Named (node ∷ nodes) idx m left s n h =
      let (y, h1) = next_node idx node nodes m left s h in
      ensure_all-Named nodes (suc idx) (erase (pvc_name s.instance idx) m) left _
        (Named-erase (pvc_name s.instance idx) m n) h1

  -- A claim was deleted, or it was gone already; the instance stays as it is.
  abbrev pub Deleted : String × Pvc → State c.World → State c.World → Type 0
  Deleted (k, y) s t =
      let (r, w) = c.pvcs.delete y background s.world in
      ((r ≡ ok tt) ⊎ (r ≡ err not_found)) × (t ≡ record s { world = w })

  delete_all-Chain :
      (m : PvcMap) (s : State c.World)
      → (delete_all c m s).0 ≡ ok tt
      → Chain Deleted m s (delete_all c m s).1
  unfolding delete_all request
  delete_all-Chain [] s h = refl
  delete_all-Chain ((k, y) ∷ m) s h =
      let one : Exec (State c.World) (Unit {0}) =
        request (λ w. let (r, w') = c.pvcs.delete y background w in (deleted r, w')) in
      let (_, r, e) = bind-ok one (λ _. delete_all c m) s tt h in
      let t = (one s).1 in
      (
        t,
        (deleted-cases _ r, refl),
        subst (λ end. Chain Deleted m t end) (sym (ap (λ o. o.1) e))
            (delete_all-Chain m t (sym (ap (λ o. o.0) e) ∙ h)),
      )

  -- When a reconciliation of the claims returns without an error, claims were listed, the loop over
  -- the nodes returned those that are left, and then each of these, in the order of the iteration over
  -- the map, was deleted or was gone already; no claim that was deleted has the name of the claim of a
  -- node. The iteration over a map visits its entries only.
  pub reconcile-Deleted :
      (s : State c.World) (i : ℕ)
      → ((P : String → Pvc → Type 0) (m : PvcMap) → AllEntries P m → AllEntries P (c.map_order m))
      → i < length s.instance.spec.nodes
      → (reconcile c s).0 ≡ ok tt
      → let p = s.instance in
        let (r, w) = c.list_pvcs p.namespace (common_labels p) s.world in
        (listed : List Pvc) × (left : PvcMap) × (u : State c.World) × (r ≡ ok listed)
        × (ensure_all c 0 p.spec.nodes
              (by_name listed [])
              (record { world = w; instance = set_volume_statuses [] p })
            ≡ (ok left, u))
        × Chain Deleted (c.map_order left) u (reconcile c s).1
        × AllEntries (λ (k : String) (y : Pvc). y.meta.name ≢ pvc_name p i) (c.map_order left)
  unfolding reconcile
  reconcile-Deleted s i visits lt h =
      let p = s.instance in
      let (listed, l, e1) =
        bind-ok (request (c.list_pvcs p.namespace (common_labels p))) _ s tt h in
      let t : State c.World = record {
        world = (c.list_pvcs p.namespace (common_labels p) s.world).1;
        instance = set_volume_statuses [] p;
      } in
      let loop = ensure_all c 0 p.spec.nodes (by_name listed []) in
      let h1 : ((loop >>= λ left. delete_all c (c.map_order left)) t).0 ≡ ok tt =
        sym (ap (λ (o : Outcome (Unit {0}) × State c.World). o.0) e1) ∙ h in
      let (left, r, e2) = bind-ok loop (λ left. delete_all c (c.map_order left)) t tt h1 in
      let u = (loop t).1 in
      let e : reconcile c s ≡ delete_all c (c.map_order left) u = e1 ∙ e2 in
      (
        listed,
        left,
        u,
        l,
        ap (λ (o : Outcome PvcMap). (o, u)) r,
        subst (λ end. Chain Deleted (c.map_order left) u end) (sym (ap (λ o. o.1) e))
            (delete_all-Chain (c.map_order left) u (sym (ap (λ o. o.0) e) ∙ h)),
        visits (λ k y. y.meta.name ≢ pvc_name p i) left
            (none-others (pvc_name p i) left
              (ensure_all-Named p.spec.nodes 0 (by_name listed []) left t
                (by_name-Named listed [] tt) r)
              (at_index (pvc_name p) left (omega arith)
                (ensure_all-left p.spec.nodes i 0 (by_name listed []) left t lt r))),
      )
