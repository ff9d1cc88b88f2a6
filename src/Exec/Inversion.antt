-- ===== src/Exec/Inversion.antt =====
-- From the result of a sequence back to the results of its parts.
use patroni_postgres_operato.Base.{◌⊎◌, inl, inr, ◌≡◌, refl, ap, sym, ◌∙◌, Option, none, some}
use patroni_postgres_operato.Exec.{
  Error, Outcome, ok, err, panic, Exec, continue, demand, require, ◌>>=◌,
}

-- To split on an outcome and keep the equation.
pub Outcome-cases {ℓ} :
    {A : Type ℓ} (r : Outcome A)
    → ((a : A) × (r ≡ ok a)) ⊎ ((e : Error) × (r ≡ err e)) ⊎ (r ≡ panic)
Outcome-cases (ok a) = inl (a, refl)
Outcome-cases (err e) = inr (inl (e, refl))
Outcome-cases panic = inr (inr refl)

module _ {ℓ} {S A B : Type ℓ} where
  continue-ok :
      (r : Outcome A) (k : A → Exec S B) (s : S) (b : B)
      → (continue r k s).0 ≡ ok b
      → (a : A) × (r ≡ ok a) × (continue r k s ≡ k a s)
  continue-ok (ok a) k s b h = (a, refl, refl)
  continue-ok (err e) k s b h = absurd cc
  continue-ok panic k s b h = absurd cc

  pub bind-ok :
      (m : Exec S A) (k : A → Exec S B) (s : S) (b : B)
      → ((m >>= k) s).0 ≡ ok b
      → (a : A) × ((m s).0 ≡ ok a) × ((m >>= k) s ≡ k a (m s).1)
  unfolding ◌>>=◌
  bind-ok m k s b h = continue-ok (m s).0 k (m s).1 b h

module _ {ℓ} {S A B : Type ℓ} where
  pub then-ok :
      (m : Exec S A) (k : A → Exec S B) (s : S) (b : B)
      → ((m >>= k) s).0 ≡ ok b
      → (a : A) × ((m s).0 ≡ ok a) × ((k a (m s).1).0 ≡ ok b)
  then-ok m k s b h =
      let (a, r, e) = bind-ok m k s b h in (a, r, sym (ap (λ (t : Outcome B × S). t.0) e) ∙ h)

  pub then-demand :
      (o : Option A) (k : A → Exec S B) (s : S) (b : B)
      → ((demand o >>= k) s).0 ≡ ok b
      → (a : A) × (o ≡ some a) × (((demand o >>= k) s) ≡ k a s) × ((k a s).0 ≡ ok b)
  unfolding ◌>>=◌
  then-demand none k s b h = absurd cc
  then-demand (some a) k s b h = (a, refl, refl, h)

  pub then-require :
      (e : Error) (o : Option A) (k : A → Exec S B) (s : S) (b : B)
      → ((require e o >>= k) s).0 ≡ ok b
      → (a : A) × (o ≡ some a) × (((require e o >>= k) s) ≡ k a s) × ((k a s).0 ≡ ok b)
  unfolding ◌>>=◌
  then-require e none k s b h = absurd cc
  then-require e (some a) k s b h = (a, refl, refl, h)

-- Sequences are the same however they are bracketed, and step by step.
module _ {ℓ} {S A B C : Type ℓ} where
  continue_twice :
      (r : Outcome A) (k : A → Exec S B) (g : B → Exec S C) (t : S)
      → continue (continue r k t).0 g (continue r k t).1 ≡ continue r (λ a. k a >>= g) t
  unfolding ◌>>=◌
  continue_twice (ok a) k g t = refl
  continue_twice (err e) k g t = refl
  continue_twice panic k g t = refl

  pub bind_assoc :
      (m : Exec S A) (k : A → Exec S B) (g : B → Exec S C) (s : S)
      → ((m >>= k) >>= g) s ≡ (m >>= λ a. k a >>= g) s
  unfolding ◌>>=◌
  bind_assoc m k g s = continue_twice (m s).0 k g (m s).1

module _ {ℓ} {S A B : Type ℓ} where
  continue_cong :
      (r : Outcome A) (k l : A → Exec S B) (t : S)
      → ((a : A) → k a t ≡ l a t)
      → continue r k t ≡ continue r l t
  continue_cong (ok a) k l t h = h a
  continue_cong (err e) k l t h = refl
  continue_cong panic k l t h = refl

  pub bind_cong :
      (m : Exec S A) (k l : A → Exec S B) (s : S)
      → ((a : A) → k a (m s).1 ≡ l a (m s).1)
      → (m >>= k) s ≡ (m >>= l) s
  unfolding ◌>>=◌
  bind_cong m k l s h = continue_cong (m s).0 k l (m s).1 h
