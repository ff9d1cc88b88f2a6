-- ===== src/Program/Databases.antt =====
-- What was done to the databases when the program of the last step returns
-- (cmd/upgrade/postupgrade.go).
use mathlib.Core.Path.{subst}
use mathlib.Core.List.{Mem}
use patroni_postgres_operato.Base.{
  ◌≡◌, ◌≢◌, refl, sym, ap, ◌∙◌, ◌⊎◌, inl, inr, String, List, [], ◌∷◌, ◌++◌, arith,
}
use patroni_postgres_operato.Exec.{Error, Outcome, ok, err, panic, ◌>>=◌, for_each}
use patroni_postgres_operato.Exec.Inversion.{bind-ok, Outcome-cases}
use patroni_postgres_operato.Exec.Chain.{Chain, Went, for_each-Chain, Chain-map}
use patroni_postgres_operato.Connection.{Server, connectwithdbname, connectdb}
use patroni_postgres_operato.Program.Postupgrade.{
  received, readdatabases, analyzedatabase, alter_extension, updateextensionsindb, run_updates,
  updateextensions, postupgrade_fn,
}

module _ (v : Server) where
  -- Every extension that a connection to the database showed was updated.
  abbrev pub Updated : String → v.World → v.World → Type 0
  Updated database s t =
      (u : v.World) × (qexts : List String) × (w : v.World) × (connectdb v
          (connectwithdbname database ∷ []) s
        ≡ (ok tt, u))
      × (v.extensions database u ≡ (ok qexts, w))
      × Chain (Went (alter_extension v database)) qexts w t

  -- A statement ran after a connection to the database was made.
  abbrev pub Analyzed : String → v.World → v.World → Type 0
  Analyzed database s t =
      (u : v.World) × (connectdb v (connectwithdbname database ∷ []) s ≡ (ok tt, u))
      × (v.execute database "ANALYZE" u ≡ (ok tt, t))

  pair_of : {A : Type 0} (p : Outcome A × v.World) (a : A) → p.0 ≡ ok a → p ≡ (ok a, p.1)
  pair_of p a e = ap (λ r. (r, p.1)) e

  Went-Updated :
      (database : String) (s t : v.World)
      → Went (updateextensionsindb v) database s t
      → Updated database s t
  unfolding updateextensionsindb
  Went-Updated database s t h =
      let (_, r, e) =
        bind-ok (connectdb v (connectwithdbname database ∷ [])) _ s tt (ap (λ p. p.0) h) in
      let u = (connectdb v (connectwithdbname database ∷ []) s).1 in
      let h1 = sym e ∙ h in
      let (qexts, q, e2) =
        bind-ok (v.extensions database) (λ qexts. for_each (alter_extension v database) qexts) u tt
          (ap (λ p. p.0) h1) in
      let w = (v.extensions database u).1 in
      let h2 = sym e2 ∙ h1 in
      (
        u,
        qexts,
        w,
        pair_of _ tt r,
        pair_of _ qexts q,
        subst (λ x. Chain (Went (alter_extension v database)) qexts w x) (ap (λ p. p.1) h2)
            (for_each-Chain (alter_extension v database) qexts w (ap (λ p. p.0) h2)),
      )

  Went-Analyzed :
      (database : String) (s t : v.World)
      → Went (analyzedatabase v) database s t
      → Analyzed database s t
  unfolding analyzedatabase
  Went-Analyzed database s t h =
      let (_, r, e) =
        bind-ok (connectdb v (connectwithdbname database ∷ [])) (λ _. v.execute database "ANALYZE")
          s tt (ap (λ p. p.0) h) in
      ((connectdb v (connectwithdbname database ∷ []) s).1, pair_of _ tt r, sym e ∙ h)

  -- Where the world stands after the update of every database, one after the other.
  unfoldable pub after_updates : List String → v.World → v.World
  after_updates [] s = s
  after_updates (database ∷ databases) s =
      after_updates databases (updateextensionsindb v database s).1

  -- The errors of the updates that failed.
  unfoldable pub failures : List String → v.World → List Error
  failures [] s = []
  failures (database ∷ databases) s =
      let rest = failures databases (updateextensionsindb v database s).1 in
      elim (updateextensionsindb v database s).0 [ ok _ ↦ rest | err e ↦ e ∷ rest | panic ↦ rest ]

  append-nil : (es : List Error) → es ++ [] ≡ es
  append-nil [] = refl
  append-nil (e ∷ es) = ap (λ (l : List Error). e ∷ l) (append-nil es)

  append_one : (sent rest : List Error) (e : Error) → (sent ++ e ∷ []) ++ rest ≡ sent ++ e ∷ rest
  append_one [] rest e = refl
  append_one (d ∷ sent) rest e = ap (λ (es : List Error). d ∷ es) (append_one sent rest e)

  run_updates-all :
      (sent : List Error) (databases : List String) (s : v.World)
      → ((run_updates v sent databases s).0 ≡ panic)
        ⊎ (run_updates v sent databases s
            ≡ (received v (sent ++ failures databases s), after_updates databases s))
  unfolding run_updates after_updates failures
  run_updates-all sent [] s = inr (ap (λ es. (received v es, s)) (sym (append-nil sent)))
  run_updates-all sent (database ∷ databases) s =
      let t = (updateextensionsindb v database s).1 in
      elim (Outcome-cases (updateextensionsindb v database s).0) [
        | inl (_, r) ↦ ground (arith, r, run_updates-all sent databases t)
        | inr (inl (e, r)) ↦ ground (
          arith,
          r,
          run_updates-all (sent ++ e ∷ []) databases t,
          append_one sent (failures databases t) e,
        )
        | inr (inr r) ↦ inl (ground (arith, r))
      ]

  run_updates-Chain :
      (databases : List String) (s : v.World)
      → (run_updates v [] databases s).0 ≡ ok tt
      → Chain (Went (updateextensionsindb v)) databases s (run_updates v [] databases s).1
  unfolding run_updates
  run_updates-Chain [] s h = refl
  run_updates-Chain (database ∷ databases) s h =
      let t = (updateextensionsindb v database s).1 in
      elim (Outcome-cases (updateextensionsindb v database s).0) [
        | inl (_, r) ↦
            let e : run_updates v [] (database ∷ databases) s ≡ run_updates v [] databases t =
              ground (arith, r) in
            (
              t,
              pair_of _ tt r,
              subst (λ x. Chain (Went (updateextensionsindb v)) databases t x)
                  (sym (ap (λ p. p.1) e))
                  (run_updates-Chain databases t (sym (ap (λ p. p.0) e) ∙ h)),
            )
        | inr (inl (e, r)) ↦ absurd (ground (arith, r, h, run_updates-all (e ∷ []) databases t))
        | inr (inr r) ↦ absurd (ground (arith, r, h))
      ]

  -- When the program of the last step succeeds, all databases that were listed had every extension
  -- updated, one database after the other, and only after that every one of them was analysed.
  pub postupgrade_fn-Updated :
      (s : v.World)
      → (postupgrade_fn v s).0 ≡ ok tt
      → (databases : List String) × (t : v.World) × (u : v.World) × (readdatabases v s
          ≡ (ok databases, t))
        × Chain Updated databases t u
        × Chain Analyzed databases u (postupgrade_fn v s).1
  unfolding postupgrade_fn updateextensions
  postupgrade_fn-Updated s h =
      let k =
        λ (ds : List String). updateextensions v ds >>= λ _. for_each (analyzedatabase v) ds in
      let (ds, r, e1) = bind-ok (readdatabases v) k s tt h in
      let t = (readdatabases v s).1 in
      let (_, q, e2) =
        bind-ok (updateextensions v ds) (λ _. for_each (analyzedatabase v) ds) t tt
          (sym (ap (λ p. p.0) e1) ∙ h) in
      let u = (updateextensions v ds t).1 in
      let e = e1 ∙ e2 in
      (
        ds,
        t,
        u,
        pair_of _ ds r,
        Chain-map Went-Updated ds t u (run_updates-Chain ds t q),
        subst (λ x. Chain Analyzed ds u x) (sym (ap (λ p. p.1) e))
            (Chain-map Went-Analyzed ds u _
              (for_each-Chain (analyzedatabase v) ds u (sym (ap (λ p. p.0) e) ∙ h))),
      )

  -- When the updates of some databases fail, then the updates of all databases are run, nothing is
  -- analysed, and the program fails with an error of one of them, whichever was sent first, unless it
  -- panics.
  pub postupgrade_fn-failed :
      (s t : v.World) (databases : List String) (e : Error) (es : List Error)
      → ((d : Error) (ds : List Error) → Mem (v.first_sent d ds) (d ∷ ds))
      → readdatabases v s ≡ (ok databases, t)
      → failures databases t ≡ e ∷ es
      → (postupgrade_fn v s).0 ≢ panic
      → (first : Error) × Mem first (failures databases t)
        × (postupgrade_fn v s ≡ (err first, after_updates databases t))
  unfolding postupgrade_fn updateextensions ◌>>=◌
  postupgrade_fn-failed s t databases e es among h f np = (
    v.first_sent e es,
    subst (λ (l : List Error). Mem (v.first_sent e es) l) (sym f) (among e es),
    elim (run_updates-all [] databases t) [
      | inl p ↦ absurd (np (ground (arith, h, p)))
      | inr r ↦ ground (arith, h, f, r)
    ],
  )
