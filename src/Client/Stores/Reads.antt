-- ===== src/Client/Stores/Reads.antt =====
-- Reading and writing a dictionary of objects.
use patroni_postgres_operato.Base.{
  ◌≡◌, ◌≢◌, refl, ◌∙◌, ◌⊎◌, inl, inr, Option, none, some, arith, Bool-cases, str_eq, eq_iff, ◌&&◌,
}
use patroni_postgres_operato.Exec.{Outcome, ok, err, panic, not_found, found}
use patroni_postgres_operato.Kube.{ObjectMeta}
use patroni_postgres_operato.Client.{Kind, NamespacedName, State, find}
use patroni_postgres_operato.Client.Stores.{View, Same, Put, Stores}

found-cases :
    {A : Type 0} (r : Outcome A) (o : Option A)
    → found r ≡ ok o
    → ((a : A) × (r ≡ ok a) × (some a ≡ o)) ⊎ ((r ≡ err not_found) × (none ≡ o))
unfolding found
found-cases (ok a) o h = inl (a, refl, ground arith)
found-cases (err not_found) o h = inr (refl, ground arith)
found-cases (err _) o h = absurd (ground arith)
found-cases panic o h = absurd (ground arith)

pub key-cases : (j n : NamespacedName) → (j ≡ n) ⊎ (j ≢ n)
key-cases j n = elim (Bool-cases (str_eq j.namespace n.namespace && str_eq j.name n.name)) [
  | inl e ↦ inl (ground (arith, eq_iff j.namespace n.namespace, eq_iff j.name n.name))
  | inr e ↦ inr λ h. ground (arith, h, eq_iff j.namespace n.namespace, eq_iff j.name n.name)
]

module _ {W A : Type 0} (k : Kind W A) {meta : A → ObjectMeta} {Fills : A → A → Type 0}
    (view : View W A) (stores : Stores meta Fills view k) where
  pub find-view :
      (n : NamespacedName) (s : State W) (o : Option A)
      → (find k n s).0 ≡ ok o
      → (view s.world n ≡ o)
        × Same view s.world (find k n s).1.world
        × ((find k n s).1.instance ≡ s.instance)
  unfolding find found
  find-view n s o h = elim (found-cases (k.get n s.world).0 o h) [
    | inl (a, r, e) ↦ let (v, same) = stores.get_some n a s.world r in (v ∙ e, same, refl)
    | inr (r, e) ↦ let (v, same) = stores.get_none n s.world r in (v ∙ e, same, refl)
  ]

module _ {W A : Type 0} (view : View W A) where
  pub Put-along :
      (n : NamespacedName) (a : A) {w w1 w2 : W}
      → Same view w w1
      → Put view n a w1 w2
      → Put view n a w w2
  Put-along n a same (there, others) = (there, λ j ne. others j ne ∙ same j)
