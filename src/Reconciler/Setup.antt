-- ===== src/Reconciler/Setup.antt =====
-- controllers/patronipostgres_controller.go, SetupWithManager: which events of the cluster ask for a
-- reconciliation, and of which instances.
use mathlib.Core.List.{append-nil}
use patroni_postgres_operato.Base.{
  ◌≡◌, refl, ℕ, Bool, true, false, not, List, [], ◌∷◌, ◌++◌, ◌==◌, ◌&&◌, if◌then◌else◌, Bool-cases,
  inl, inr,
}
use patroni_postgres_operato.Client.{NamespacedName}

pub data Source : Type 0 where
  patroni_postgres persistent_volume_claim stateful_set job : Source

-- What happened to an object; an update goes from one generation to another.
pub data Change : Type 0 where
  created deleted generic : Change
  updated : ℕ → ℕ → Change

-- The predicates of controller-runtime that the code uses.
pub record Predicates : Type 0 where
  pub generation_changed : Change → Bool
  pub negate : (Change → Bool) → Change → Bool

-- What they document: an update passes if the generation differs, and every other event does; the
-- negation passes what is not passed.
pub record IsPredicates (ps : Predicates) : Type 0 where
  pub update : (a b : ℕ) → ps.generation_changed (updated a b) ≡ not (a == b)
  pub create : ps.generation_changed created ≡ true
  pub delete : ps.generation_changed deleted ≡ true
  pub other : ps.generation_changed generic ≡ true
  pub negates : (p : Change → Bool) (e : Change) → ps.negate p e ≡ not (p e)

-- Whose keys an event enqueues: that of the object, or those of its owners.
pub data Enqueue : Type 0 where
  itself owners : Enqueue

pub record Watch : Type 0 where
  pub source : Source
  pub enqueue : Enqueue
  pub passes : Change → Bool

abbrev same_source : Source → Source → Bool
same_source patroni_postgres patroni_postgres = true
same_source persistent_volume_claim persistent_volume_claim = true
same_source stateful_set stateful_set = true
same_source job job = true
same_source _ _ = false

abbrev keys : Enqueue → NamespacedName → List NamespacedName → List NamespacedName
keys itself key of = key ∷ []
keys owners key of = of

module _ (ps : Predicates) where
  -- watchPredicates
  abbrev status_only : Change → Bool
  status_only = ps.negate ps.generation_changed

  unfoldable pub setup_with_manager : List Watch
  setup_with_manager =
      record { source = patroni_postgres; enqueue = itself; passes = ps.generation_changed }
      ∷ record { source = persistent_volume_claim; enqueue = owners; passes = λ e. true }
      ∷ record { source = stateful_set; enqueue = owners; passes = status_only }
      ∷ record { source = job; enqueue = owners; passes = status_only }
      ∷ []

  -- What controller-runtime documents of watches: each one whose source the event is of, and whose
  -- predicate passes it, enqueues its keys. What an event enqueues, with the key of the object and those of the instances that own it.
  unfoldable pub enqueued :
      List Watch → Source → Change → NamespacedName → List NamespacedName → List NamespacedName
  enqueued [] source e key of = []
  enqueued (w ∷ ws) source e key of =
      let rest = enqueued ws source e key of in
      if same_source w.source source && w.passes e then keys w.enqueue key of ++ rest else rest

  module _ (laws : IsPredicates ps) (key : NamespacedName) (of : List NamespacedName) where
    abbrev event : Source → Change → List NamespacedName
    event source e = enqueued setup_with_manager source e key of

    abbrev expected : Source → Change → List NamespacedName
    expected patroni_postgres (updated a b) = if not (a == b) then key ∷ [] else []
    expected patroni_postgres _ = key ∷ []
    expected persistent_volume_claim e = of
    expected _ (updated a b) = if a == b then of else []
    expected _ _ = []

    status_update : (e : Change) → (if status_only e then of ++ [] else []) ≡ expected job e
    status_update created = rw (laws.negates ps.generation_changed created, laws.create) refl
    status_update deleted = rw (laws.negates ps.generation_changed deleted, laws.delete) refl
    status_update generic = rw (laws.negates ps.generation_changed generic, laws.other) refl
    status_update (updated a b) =
        rw (laws.negates ps.generation_changed (updated a b), laws.update a b)
          (elim (Bool-cases (a == b)) [ inl e ↦ rw e (append-nil of) | inr e ↦ rw e refl ])

    -- A write of the status of an instance, which keeps its generation, enqueues nothing, so that a
    -- reconciliation does not ask for itself; an edit of its spec enqueues it. A change of the status of a
    -- job or a stateful set enqueues the instances that own it, but a change of its spec, its
    -- creation and its deletion do not. Every change of a claim enqueues its owners.
    pub enqueued-instances : (source : Source) (e : Change) → event source e ≡ expected source e
    unfolding enqueued setup_with_manager
    enqueued-instances patroni_postgres created = rw laws.create refl
    enqueued-instances patroni_postgres deleted = rw laws.delete refl
    enqueued-instances patroni_postgres generic = rw laws.other refl
    enqueued-instances patroni_postgres (updated a b) = rw (laws.update a b) refl
    enqueued-instances persistent_volume_claim e = append-nil of
    enqueued-instances stateful_set e = status_update e
    enqueued-instances job e = status_update e
