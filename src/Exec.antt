-- ===== src/Exec.antt =====
-- Go functions that return an error and change what they point to. What was written before an error
-- stays written, so the state comes back beside the error too; a panic is an outcome of its own.
pub mod Inversion
pub mod Chain
use patroni_postgres_operato.Base.{ℕ, String, List, [], ◌∷◌, Option, none, some}

-- The errors that the code tells apart, with those that it declares.
pub data Error : Type 0 where
  not_found : Error
  api_error : String → Error
  no_dbid_found : Error
  no_latest_checkpoint_location_found : Error
  no_sync_leader : Error
  no_config_annotation : Error
  scan_error : Error
  json_error : Error
  selector_error : Error
  no_pod_found : Error
  short_read : Error
  short_write : Error
  invalid_mode : Error
  preupgrade_job_failed : Error
  max_prepared_transactions_not_zero : Error
  preupgrade_sync_job_failed : Error
  primary_upgrade_job_failed : Error
  secondary_upgrade_job_failed : Error
  primary_upgrade_move_job_failed : Error
  postupgrade_job_failed : Error
  unsupported_version : ℕ → Error
  upgrade_not_supported : ℕ → List ℕ → Error

pub data Outcome {ℓ} (A : Type ℓ) : Type ℓ where
  ok : A → Outcome A
  err : Error → Outcome A
  panic : Outcome A

abbrev pub Exec {ℓ} : Type ℓ → Type ℓ → Type ℓ
Exec S A = S → Outcome A × S

module _ {ℓ} {S A : Type ℓ} where
  unfoldable pub pure : A → Exec S A
  pure a s = (ok a, s)

  unfoldable pub fail : Error → Exec S A
  fail e s = (err e, s)

  unfoldable pub crash : Exec S A
  crash s = (panic, s)

  unfoldable pub lift : Outcome A → Exec S A
  lift r s = (r, s)

  unfoldable pub gets : (S → A) → Exec S A
  gets f s = (ok (f s), s)

  -- A value that must be there, such as an element of a slice, or a panic.
  unfoldable pub demand : Option A → Exec S A
  unfolding crash pure
  demand none = crash
  demand (some a) = pure a

  -- A value that must be there, or an error.
  unfoldable pub require : Error → Option A → Exec S A
  unfolding fail pure
  require e none = fail e
  require e (some a) = pure a

unfoldable pub modify {ℓ} : {S : Type ℓ} → (S → S) → Exec S (Unit {ℓ})
modify f s = (ok tt, f s)

module _ {ℓ} {S A B : Type ℓ} where
  abbrev pub continue : Outcome A → (A → Exec S B) → Exec S B
  continue (ok a) f s = f a s
  continue (err e) f s = (err e, s)
  continue panic f s = (panic, s)

  infixl 10 ◌>>=◌ ◌>>◌
  -- Opening this opens the simple actions too.
  unfoldable pub ◌>>=◌ : Exec S A → (A → Exec S B) → Exec S B
  unfolding pure fail crash lift gets demand require
  ◌>>=◌ first next s = let (outcome, after) = first s in continue outcome next after

  abbrev pub ◌>>◌ : Exec S A → Exec S B → Exec S B
  first >> second = first >>= (λ _. second)

-- A loop over a slice that returns the first error.
unfoldable pub for_each {ℓ} : {S A : Type ℓ} → (A → Exec S (Unit {ℓ})) → List A → Exec S (Unit {ℓ})
unfolding ◌>>=◌ pure
for_each step [] = pure tt
for_each step (a ∷ rest) = let others = for_each step rest in do step a; others

-- `if err != nil { if !errors.IsNotFound(err) { return }; … }`: not found is no error here.
unfoldable pub found {ℓ} : {A : Type ℓ} → Outcome A → Outcome (Option A)
found (ok a) = ok (some a)
found (err not_found) = ok none
found (err e) = err e
found panic = panic
