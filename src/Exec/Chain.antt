-- ===== src/Exec/Chain.antt =====
-- Steps that follow one another: what a loop over a slice did when it returned without an error.
use mathlib.Core.Path.{subst}
use patroni_postgres_operato.Base.{◌≡◌, refl, sym, ap, ◌∙◌, List, [], ◌∷◌}
use patroni_postgres_operato.Exec.{ok, Exec, for_each}
use patroni_postgres_operato.Exec.Inversion.{bind-ok}

module _ {ℓ} {S A : Type ℓ} where
  -- From one state to another by a step for each element, in order.
  abbrev pub Chain : (A → S → S → Type ℓ) → List A → S → S → Type ℓ
  Chain R [] s end = end ≡ s
  Chain R (a ∷ rest) s end = (t : S) × R a s t × Chain R rest t end

  -- The step returned without an error.
  abbrev pub Went : (A → Exec S (Unit {ℓ})) → A → S → S → Type ℓ
  Went step a s t = step a s ≡ (ok tt, t)

  pub for_each-Chain :
      (step : A → Exec S (Unit {ℓ})) (xs : List A) (s : S)
      → (for_each step xs s).0 ≡ ok tt
      → Chain (Went step) xs s (for_each step xs s).1
  unfolding for_each
  for_each-Chain step [] s h = refl
  for_each-Chain step (a ∷ rest) s h =
      let (_, r, e) = bind-ok (step a) (λ _. for_each step rest) s tt h in
      let t = (step a s).1 in
      let ih = for_each-Chain step rest t (sym (ap (λ p. p.0) e) ∙ h) in
      (t, ap (λ o. (o, t)) r, subst (λ u. Chain (Went step) rest t u) (sym (ap (λ p. p.1) e)) ih)

  pub Chain-map :
      {R Q : A → S → S → Type ℓ} (f : (a : A) (s t : S) → R a s t → Q a s t) (xs : List A)
      (s end : S)
      → Chain R xs s end
      → Chain Q xs s end
  Chain-map f [] s end e = e
  Chain-map f (a ∷ rest) s end (t, r, c) = (t, f a s t r, Chain-map f rest t end c)
