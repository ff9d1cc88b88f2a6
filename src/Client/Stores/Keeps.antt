-- ===== src/Client/Stores/Keeps.antt =====
-- An action that leaves the objects of a kind as they are, whatever its outcome: one rule for each way
-- to build one.
use patroni_postgres_operato.Base.{
  refl, ◌∙◌, Bool, true, false, Option, none, some, String, List, [], ◌∷◌,
}
use patroni_postgres_operato.Exec.{Outcome, ok, err, panic, Exec, pure, lift, modify, ◌>>=◌}
use patroni_postgres_operato.Kube.{ObjectMeta}
use patroni_postgres_operato.Api.{PatroniPostgres}
use patroni_postgres_operato.Client.{
  Client, Kind, NamespacedName, State, request, find, the_instance, create_or_update,
}
use patroni_postgres_operato.Client.Stores.{View, Same}
use patroni_postgres_operato.Context.{set_meta}

pub record Keeps {W A B : Type 0} (view : View W B) (m : Exec (State W) A) : Type 0 where
  pub at : (s : State W) → Same view s.world (m s).1.world

-- The requests for one kind leave the objects of another as they are.
pub record Apart {W A B : Type 0} (view : View W B) (k : Kind W A) : Type 0 where
  pub get : (n : NamespacedName) (w : W) → Same view w (k.get n w).1
  pub create : (a : A) (w : W) → Same view w (k.create a w).1
  pub update : (a : A) (w : W) → Same view w (k.update a w).1

module _ {W A B : Type 0} {view : View W B} where
  pub Keeps-pure : (a : A) → Keeps view (pure a)
  unfolding pure
  Keeps-pure a = record { at = λ s n. refl }

  pub Keeps-lift : (r : Outcome A) → Keeps view (lift r)
  unfolding lift
  Keeps-lift r = record { at = λ s n. refl }

  pub Keeps-find : (k : Kind W A) (n : NamespacedName) → Apart view k → Keeps view (find k n)
  unfolding find
  Keeps-find k n a = record { at = λ s. a.get n s.world }

  pub Keeps-create : (k : Kind W A) (a : A) → Apart view k → Keeps view (request (k.create a))
  unfolding request
  Keeps-create k a p = record { at = λ s. p.create a s.world }

  pub Keeps-update : (k : Kind W A) (a : A) → Apart view k → Keeps view (request (k.update a))
  unfolding request
  Keeps-update k a p = record { at = λ s. p.update a s.world }

  pub Keeps-create_or_update :
      (k : Kind W A) (new : Bool) (a : A) → Apart view k → Keeps view (create_or_update k new a)
  unfolding create_or_update
  Keeps-create_or_update k true a p = record { at = λ s. p.create a s.world }
  Keeps-create_or_update k false a p = record { at = λ s. p.update a s.world }

  -- A test for owners.
  pub Keeps-owners :
      (os : List String) (m n : Exec (State W) A)
      → Keeps view m
      → Keeps view n
      → Keeps view (elim os [ [] ↦ m | _ ∷ _ ↦ n ])
  Keeps-owners [] m n km kn = km
  Keeps-owners (_ ∷ _) m n km kn = kn

  -- A test for an object that was found.
  pub Keeps-option :
      {C : Type 0} (o : Option C) (m : Exec (State W) A) (n : C → Exec (State W) A)
      → Keeps view m
      → ((a : C) → Keeps view (n a))
      → Keeps view (elim o [ none ↦ m | some a ↦ n a ])
  Keeps-option none m n km kn = km
  Keeps-option (some a) m n km kn = kn a

  pub Keeps-request :
      (m : W → Outcome A × W) → ((w : W) → Same view w (m w).1) → Keeps view (request m)
  unfolding request
  Keeps-request m h = record { at = λ s. h s.world }

module _ {W B : Type 0} {view : View W B} where
  pub Keeps-modify :
      (g : PatroniPostgres → PatroniPostgres)
      → Keeps {W = W} view (modify (λ s. record s { instance = g s.instance }))
  unfolding modify
  Keeps-modify g = record { at = λ s n. refl }

  pub Keeps-the_instance : Keeps view the_instance
  unfolding the_instance
  Keeps-the_instance = record { at = λ s n. refl }

module _ {W A C B : Type 0} {view : View W B} where
  kept_on :
      (r : Outcome A) (k : A → Exec (State W) C)
      → ((a : A) → Keeps view (k a))
      → (s : State W) → Same view s.world ((lift r >>= k) s).1.world
  unfolding ◌>>=◌
  kept_on (ok a) k lk s n = (lk a).at s n
  kept_on (err e) k lk s n = refl
  kept_on panic k lk s n = refl

  pub Keeps-bind :
      (m : Exec (State W) A) (k : A → Exec (State W) C)
      → Keeps view m
      → ((a : A) → Keeps view (k a))
      → Keeps view (m >>= k)
  unfolding ◌>>=◌
  Keeps-bind m k lm lk = record { at = λ s n. kept_on (m s).0 k lk (m s).1 n ∙ lm.at s n }

module _ (c : Client) {B : Type 0} {view : View c.World B} where
  pub Keeps-set_meta : (m : ObjectMeta) → Keeps view (set_meta c m)
  unfolding set_meta
  Keeps-set_meta m = record { at = λ s n. refl }

pub ruleset keeps_rules = (
  Keeps-pure, Keeps-lift, Keeps-find, Keeps-create, Keeps-update, Keeps-create_or_update,
  Keeps-the_instance, Keeps-bind, Keeps-set_meta, Keeps-modify, Keeps-request,
)
