-- ===== src/Client/Stores.antt =====
-- A kind of objects as a dictionary by key: what the API server promises for the objects whose fields
-- it does not fill in by itself, and what it is to own an object.
pub mod Reads
pub mod Keeps
use patroni_postgres_operato.Base.{◌≡◌, ◌≢◌, String, [], Option, none, some}
use patroni_postgres_operato.Exec.{Outcome, ok, err, not_found}
use patroni_postgres_operato.Kube.{ObjectMeta}
use patroni_postgres_operato.Client.{Client, Kind, NamespacedName}

abbrev pub key_of : ObjectMeta → NamespacedName
key_of m = record { namespace = m.namespace; name = m.name }

-- The objects of a kind, by key, in a state of the world.
abbrev pub View : Type 0 → Type 0 → Type 0
View W A = W → NamespacedName → Option A

module _ {W A : Type 0} (view : View W A) where
  abbrev pub Same : W → W → Type 0
  Same w w' = (n : NamespacedName) → view w' n ≡ view w n

  -- One entry was written, and no other was changed.
  abbrev pub Put : NamespacedName → A → W → W → Type 0
  Put n a w w' = (view w' n ≡ some a) × ((j : NamespacedName) → j ≢ n → view w' j ≡ view w j)

-- The server stores the object as it was sent.
abbrev pub AsSent : {A : Type 0} → A → A → Type 0
AsSent a b = b ≡ a

-- A get tells what there is; a create and an update that succeed store the object as it was sent, but
-- for what the server fills in, and return what they stored; where what is stored is what the server
-- made of the same object before, an update changes nothing.
pub record Stores {W A : Type 0} (meta : A → ObjectMeta) (Fills : A → A → Type 0) (view : View W A)
    (k : Kind W A) : Type 0 where
  pub Fills-meta : (a b : A) → Fills a b → meta b ≡ meta a
  pub keyed : (n : NamespacedName) (a : A) (w : W) → view w n ≡ some a → key_of (meta a) ≡ n
  pub get_some :
      (n : NamespacedName) (a : A) (w : W)
      → (k.get n w).0 ≡ ok a
      → (view w n ≡ some a) × Same view w (k.get n w).1
  pub get_none :
      (n : NamespacedName) (w : W)
      → (k.get n w).0 ≡ err not_found
      → (view w n ≡ none) × Same view w (k.get n w).1
  pub create_put :
      (a b : A) (w : W)
      → (k.create a w).0 ≡ ok b
      → Fills a b × Put view (key_of (meta a)) b w (k.create a w).1
  pub update_put :
      (a b : A) (w : W)
      → (k.update a w).0 ≡ ok b
      → Fills a b × Put view (key_of (meta a)) b w (k.update a w).1
  pub update_same :
      (a x b : A) (w : W)
      → view w (key_of (meta a)) ≡ some x
      → Fills a x
      → (k.update a w).0 ≡ ok b
      → b ≡ x

-- controllerutil.SetOwnerReference: only the owners change, and an object that has the owner
-- already is left as it is.
pub record Owns (set_owner : String → ObjectMeta → Outcome ObjectMeta) : Type 0 where
  pub key : (n : String) (m m' : ObjectMeta) → set_owner n m ≡ ok m' → key_of m' ≡ key_of m
  pub labels : (n : String) (m m' : ObjectMeta) → set_owner n m ≡ ok m' → m'.labels ≡ m.labels
  pub annotations :
      (n : String) (m m' : ObjectMeta) → set_owner n m ≡ ok m' → m'.annotations ≡ m.annotations
  pub owned : (n : String) (m m' : ObjectMeta) → set_owner n m ≡ ok m' → m'.owners ≢ []
  pub again : (n : String) (m m' : ObjectMeta) → set_owner n m ≡ ok m' → set_owner n m' ≡ ok m'
