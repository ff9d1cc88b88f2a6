-- ===== src/Controllers/Converges.antt =====
-- Actions that bring the objects of a kind to rest: when the action has succeeded, what it looks for is
-- there, and it stays there until the action, once more, finds nothing to change. It is about the
-- name, the namespace, the spec and the version of the instance, not about the rest of its status.
pub mod Rules
pub mod Kinds
pub mod Configmap
use mathlib.Core.Path.{subst}
use patroni_postgres_operato.Base.{◌≡◌, refl, sym, ap, ◌∙◌}
use patroni_postgres_operato.Exec.{Outcome, ok, Exec, ◌>>=◌, ◌>>◌}
use patroni_postgres_operato.Exec.Inversion.{bind-ok}
use patroni_postgres_operato.Api.{desired, PatroniPostgres, PatroniPostgresStatus}
use patroni_postgres_operato.Client.{State}
use patroni_postgres_operato.Client.Leaves.{Leaves}
use patroni_postgres_operato.Client.Stores.{View, Same}
use patroni_postgres_operato.Client.Stores.Keeps.{Keeps}

pub record Converges {W B : Type 0} (view : View W B) (m : Exec (State W) (Unit {0})) : Type 1 where
  pub Rests : PatroniPostgres → W → Type 0
  pub rests-Same : (p : PatroniPostgres) (w w' : W) → Rests p w → Same view w w' → Rests p w'
  pub rests_status :
      (p : PatroniPostgres) (st : PatroniPostgresStatus) (w : W)
      → Rests p w
      → Rests (desired st p) w
  pub reaches : (s : State W) → (m s).0 ≡ ok tt → Rests s.instance (m s).1.world
  pub rests :
      (s : State W) → Rests s.instance s.world → (m s).0 ≡ ok tt → Same view s.world (m s).1.world

-- An action leaves the instance but for its status, of which it leaves the version.
abbrev pub LeavesDesired : {W : Type 0} → Exec (State W) (Unit {0}) → Type 0
LeavesDesired {W} m = (st : PatroniPostgresStatus) → Leaves {W = W} (desired st) m

module _ {W B : Type 0} {view : View W B} where
  pub rests_as :
      {m : Exec (State W) (Unit {0})} (c : Converges view m) (p q : PatroniPostgres) (w : W)
      → desired q.status p ≡ q
      → c.Rests p w
      → c.Rests q w
  rests_as c p q w e d = rw e at (c.rests_status p q.status w d)

  -- What comes before leaves the objects as they are.
  unfoldable pub Converges-after :
      (n m : Exec (State W) (Unit {0}))
      → Keeps view n
      → LeavesDesired n
      → Converges view m
      → Converges view (n >> m)
  Converges-after n m kn ln c = record {
    Rests = c.Rests;
    rests-Same = c.rests-Same;
    rests_status = c.rests_status;
    reaches = λ s h.
        let (_, _, e) = bind-ok n (λ _. m) s tt h in
        let t = (n s).1 in
        subst (λ (u : State W). c.Rests s.instance u.world) (sym (ap (λ x. x.1) e))
          (rests_as c t.instance s.instance _ ((ln s.instance.status).at s)
            (c.reaches t (sym (ap (λ x. x.0) e) ∙ h)));
    rests = λ s d h j.
        let (_, _, e) = bind-ok n (λ _. m) s tt h in
        let t = (n s).1 in
        let d1 =
          c.rests-Same t.instance s.world t.world
            (rests_as c s.instance t.instance _ (sym ((ln t.instance.status).at s)) d) (kn.at s) in
        ap (λ (x : Outcome (Unit {0}) × State W). view x.1.world j) e
        ∙ c.rests t d1 (sym (ap (λ x. x.0) e) ∙ h) j
        ∙ kn.at s j;
  }

  unfoldable pub Converges-before :
      (m n : Exec (State W) (Unit {0})) → Converges view m → Keeps view n → Converges view (m >> n)
  Converges-before m n c kn = record {
    Rests = c.Rests;
    rests-Same = c.rests-Same;
    rests_status = c.rests_status;
    reaches = λ s h.
        let (_, r, e) = bind-ok m (λ _. n) s tt h in
        let t = (m s).1 in
        subst (λ (u : State W). c.Rests s.instance u.world) (sym (ap (λ x. x.1) e))
          (c.rests-Same s.instance t.world _ (c.reaches s r) (kn.at t));
    rests = λ s d h j.
        let (_, r, e) = bind-ok m (λ _. n) s tt h in
        ap (λ (x : Outcome (Unit {0}) × State W). view x.1.world j) e
        ∙ kn.at (m s).1 j
        ∙ c.rests s d r j;
  }

  -- After an action has succeeded, the same action, if it succeeds again, changes none of the objects.
  pub Converges-twice :
      (m : Exec (State W) (Unit {0}))
      → Converges view m
      → LeavesDesired m
      → (s : State W) → (m s).0 ≡ ok tt
      → (m (m s).1).0 ≡ ok tt
      → Same view (m s).1.world (m (m s).1).1.world
  Converges-twice m c lm s h g =
      let t = (m s).1 in
      c.rests t
        (rests_as c s.instance t.instance t.world (sym ((lm t.instance.status).at s))
          (c.reaches s h))
        g

  -- Two actions on objects of one kind, of which the second one leaves what the first one reached.
  unfoldable pub Converges-both :
      (m n : Exec (State W) (Unit {0})) (c : Converges view m) (d : Converges view n)
      → LeavesDesired m
      → ((s : State W)
          → c.Rests s.instance s.world
          → (n s).0 ≡ ok tt
          → c.Rests s.instance (n s).1.world)
      → Converges view (m >> n)
  Converges-both m n c d lm stays = record {
    Rests = λ p w. c.Rests p w × d.Rests p w;
    rests-Same = λ p w w' r e. (c.rests-Same p w w' r.0 e, d.rests-Same p w w' r.1 e);
    rests_status = λ p st w r. (c.rests_status p st w r.0, d.rests_status p st w r.1);
    reaches = λ s h.
        let (_, r, e) = bind-ok m (λ _. n) s tt h in
        let t = (m s).1 in
        let g = sym (ap (λ x. x.0) e) ∙ h in
        let back = (lm s.instance.status).at s in
        let there =
          rests_as c s.instance t.instance t.world (sym ((lm t.instance.status).at s))
            (c.reaches s r) in
        subst (λ (u : State W). c.Rests s.instance u.world × d.Rests s.instance u.world)
          (sym (ap (λ x. x.1) e))
          (
            rests_as c t.instance s.instance _ back (stays t there g),
            rests_as d t.instance s.instance _ back (d.reaches t g),
          );
    rests = λ s r h j.
        let (_, f, e) = bind-ok m (λ _. n) s tt h in
        let t = (m s).1 in
        let same = c.rests s r.0 f in
        let there =
          rests_as d s.instance t.instance t.world (sym ((lm t.instance.status).at s))
            (d.rests-Same s.instance s.world t.world r.1 same) in
        ap (λ (x : Outcome (Unit {0}) × State W). view x.1.world j) e
        ∙ d.rests t there (sym (ap (λ x. x.0) e) ∙ h) j
        ∙ same j;
  }

  -- The same for an action that is equal.
  unfoldable pub Converges-as :
      (m n : Exec (State W) (Unit {0})) → m ≡ n → Converges view m → Converges view n
  Converges-as m n e c = record {
    Rests = c.Rests;
    rests-Same = c.rests-Same;
    rests_status = c.rests_status;
    reaches = λ s h.
        subst (λ (f : Exec (State W) (Unit {0})). c.Rests s.instance (f s).1.world) e
          (c.reaches s (ap (λ (f : Exec (State W) (Unit {0})). (f s).0) e ∙ h));
    rests = λ s d h j.
        ap (λ (f : Exec (State W) (Unit {0})). view (f s).1.world j) (sym e)
        ∙ c.rests s d (ap (λ (f : Exec (State W) (Unit {0})). (f s).0) e ∙ h) j;
  }

  -- The same for an action with the same outcome and the same effect on the world.
  unfoldable pub Converges-alike :
      (m n : Exec (State W) (Unit {0}))
      → ((s : State W) → ((n s).0 ≡ (m s).0) × ((n s).1.world ≡ (m s).1.world))
      → Converges view m
      → Converges view n
  Converges-alike m n e c = record {
    Rests = c.Rests;
    rests-Same = c.rests-Same;
    rests_status = c.rests_status;
    reaches = λ s h. subst (c.Rests s.instance) (sym (e s).1) (c.reaches s (sym (e s).0 ∙ h));
    rests = λ s d h j. ap (λ w. view w j) (e s).1 ∙ c.rests s d (sym (e s).0 ∙ h) j;
  }
