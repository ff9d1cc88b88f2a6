-- ===== src/Client/Leaves.antt =====
-- What an action leaves as it is of the instance that the handlers share: a view of it, the same
-- before and after, whether the action returns, fails or panics. One rule for each way to build one.
use patroni_postgres_operato.Base.{
  ◌≡◌, refl, ◌∙◌, Bool, true, false, if◌then◌else◌, Option, none, some,
}
use patroni_postgres_operato.Exec.{
  Error, Outcome, ok, err, panic, Exec, pure, fail, lift, demand, require, ◌>>=◌,
}
use patroni_postgres_operato.Api.{PatroniPostgres}
use patroni_postgres_operato.Client.{
  Kind, NamespacedName, State, request, find, the_instance, create_or_update,
}

pub record Leaves {W A B : Type 0} (f : PatroniPostgres → B) (m : Exec (State W) A) : Type 0 where
  pub at : (s : State W) → f (m s).1.instance ≡ f s.instance

module _ {W A B : Type 0} {f : PatroniPostgres → B} where
  pub Leaves-pure : (a : A) → Leaves {W = W} f (pure a)
  unfolding pure
  Leaves-pure a = record { at = λ s. refl }

  pub Leaves-fail : (e : Error) → Leaves {W = W} f (fail {A = A} e)
  unfolding fail
  Leaves-fail e = record { at = λ s. refl }

  pub Leaves-lift : (r : Outcome A) → Leaves {W = W} f (lift r)
  unfolding lift
  Leaves-lift r = record { at = λ s. refl }

  pub Leaves-demand : (o : Option A) → Leaves {W = W} f (demand o)
  unfolding demand
  Leaves-demand none = record { at = λ s. refl }
  Leaves-demand (some a) = record { at = λ s. refl }

  pub Leaves-require : (e : Error) (o : Option A) → Leaves {W = W} f (require e o)
  unfolding require
  Leaves-require e none = record { at = λ s. refl }
  Leaves-require e (some a) = record { at = λ s. refl }

  pub Leaves-request : (m : W → Outcome A × W) → Leaves f (request m)
  unfolding request
  Leaves-request m = record { at = λ s. refl }

  pub Leaves-find : (k : Kind W A) (n : NamespacedName) → Leaves f (find k n)
  unfolding find
  Leaves-find k n = record { at = λ s. refl }

  pub Leaves-create_or_update :
      (k : Kind W A) (b : Bool) (a : A) → Leaves f (create_or_update k b a)
  unfolding create_or_update
  Leaves-create_or_update k true a = record { at = λ s. refl }
  Leaves-create_or_update k false a = record { at = λ s. refl }

  pub Leaves-if :
      (b : Bool) (m n : Exec (State W) A) → Leaves f m → Leaves f n → Leaves f (if b then m else n)
  Leaves-if true m n km kn = km
  Leaves-if false m n km kn = kn

module _ {W B : Type 0} {f : PatroniPostgres → B} where
  pub Leaves-the_instance : Leaves {W = W} f the_instance
  unfolding the_instance
  Leaves-the_instance = record { at = λ s. refl }

module _ {W A C B : Type 0} {f : PatroniPostgres → B} where
  after_outcome :
      (r : Outcome A) (k : A → Exec (State W) C)
      → ((a : A) → Leaves f (k a))
      → (s : State W) → f ((lift r >>= k) s).1.instance ≡ f s.instance
  unfolding ◌>>=◌
  after_outcome (ok a) k lk s = (lk a).at s
  after_outcome (err e) k lk s = refl
  after_outcome panic k lk s = refl

  pub Leaves-bind :
      (m : Exec (State W) A) (k : A → Exec (State W) C)
      → Leaves f m
      → ((a : A) → Leaves f (k a))
      → Leaves f (m >>= k)
  unfolding ◌>>=◌
  Leaves-bind m k lm lk = record { at = λ s. after_outcome (m s).0 k lk (m s).1 ∙ lm.at s }

pub ruleset leaves_rules = (
  Leaves-pure, Leaves-fail, Leaves-lift, Leaves-demand, Leaves-require, Leaves-request, Leaves-find,
  Leaves-create_or_update, Leaves-if, Leaves-the_instance, Leaves-bind,
)
