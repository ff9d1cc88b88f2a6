-- ===== src/Client.antt =====
-- What the code uses of controller-runtime, client-go and the cluster behind them: the operations,
-- over an unknown state of the world, and, in `IsStore`, what a store of objects promises.
pub mod Leaves
pub mod Stores
use patroni_postgres_operato.Base.{ℕ, String, Bool, true, false, List, Option, none, some, ◌≡◌}
use patroni_postgres_operato.Exec.{Outcome, ok, err, panic, not_found, Exec, found}
use patroni_postgres_operato.Kube.{
  StringDict, ObjectMeta, ConfigMap, Secret, Service, StatefulSet, Job, Pvc, ServiceAccount, Role,
  RoleBinding, NetworkPolicy, PodDisruptionBudget, Pod,
}
use patroni_postgres_operato.Api.{PatroniPostgres}
use patroni_postgres_operato.Results.{Config, UpgradeJobResult}

pub record NamespacedName : Type 0 where
  pub namespace : String
  pub name : String

pub data DeletePropagation : Type 0 where
  foreground background : DeletePropagation

-- The requests for one kind of object. A create, an update and a patch return the object that the
-- server sends back, which the client library writes over the one that was sent.
pub record Kind (W A : Type 0) : Type 0 where
  pub get : NamespacedName → W → Outcome A × W
  pub create : A → W → Outcome A × W
  pub update : A → W → Outcome A × W
  pub delete : A → DeletePropagation → W → Outcome (Unit {0}) × W

-- encoding/json at the types that the code uses it at: an object with values of any kind, by key.
pub record Json : Type 0 where
  pub unmarshal_object : String → Option StringDict
  pub marshal_object : StringDict → String
  pub marshal_config : Config → Outcome String
  pub unmarshal_config : String → Option Config
  pub unmarshal_result : String → Option UpgradeJobResult
  -- A map[string]string.
  pub marshal_strings : StringDict → String

pub record Client : Type 1 where
  pub World : Type 0
  pub configmaps : Kind World ConfigMap
  pub secrets : Kind World Secret
  pub services : Kind World Service
  pub statefulsets : Kind World StatefulSet
  pub jobs : Kind World Job
  pub pvcs : Kind World Pvc
  pub service_accounts : Kind World ServiceAccount
  pub roles : Kind World Role
  pub role_bindings : Kind World RoleBinding
  pub network_policies : Kind World NetworkPolicy
  pub pdbs : Kind World PodDisruptionBudget
  pub instances : Kind World PatroniPostgres
  pub update_status : PatroniPostgres → World → Outcome (Unit {0}) × World
  pub list_pvcs : String → StringDict → World → Outcome (List Pvc) × World
  pub patch_pvc : Pvc → Pvc → World → Outcome Pvc × World
  pub label_selector : String → Option String
  pub list_pods : String → String → World → Outcome (List Pod) × World
  -- The log of a pod from so many last lines: what the first read into a buffer gives.
  pub read_log : Pod → ℕ → ℕ → World → Outcome String × World
  pub set_owner_reference : String → ObjectMeta → Outcome ObjectMeta
  pub random : ℕ → World → List ℕ × World
  -- The order in which a range over a Go map comes.
  pub map_order : List (String × Pvc) → List (String × Pvc)
  pub json : Json

-- The state of one run: the world, and the instance that the handlers share by a pointer.
pub record State (W : Type 0) : Type 0 where
  pub world : W
  pub instance : PatroniPostgres

module _ {W A : Type 0} where
  -- A request of the client.
  unfoldable pub request : (W → Outcome A × W) → Exec (State W) A
  request m s = let (r, w) = m s.world in (r, record s { world = w })

  -- A request whose "not found" is no error.
  unfoldable pub find : Kind W A → NamespacedName → Exec (State W) (Option A)
  unfolding found
  find k n s = let (r, w) = k.get n s.world in (found r, record s { world = w })

-- The instance behind the pointer, now.
unfoldable pub the_instance : {W : Type 0} → Exec (State W) PatroniPostgres
the_instance s = (ok s.instance, s)

-- `create` of the source: nothing was found.
abbrev pub is_new {ℓ} : {A : Type ℓ} → Option A → Bool
is_new none = true
is_new (some _) = false

-- `if create { err = ctx.Create(ctx, o) } else { err = ctx.Update(ctx, o) }`
unfoldable pub create_or_update : {W A : Type 0} → Kind W A → Bool → A → Exec (State W) A
unfolding request
create_or_update k true a = request (k.create a)
create_or_update k false a = request (k.update a)

-- A store of objects, as one client that runs alone sees it: what is read by a key has that key, an
-- update that succeeds can be read back, and it keeps the annotations that were sent.
pub record IsStore {W A : Type 0} (meta : A → ObjectMeta) (k : Kind W A) : Type 0 where
  pub get_key :
      (n : NamespacedName) (a : A) (w w' : W)
      → k.get n w ≡ (ok a, w')
      → ((meta a).namespace ≡ n.namespace) × ((meta a).name ≡ n.name)
  pub get_updated :
      (a b : A) (w w' : W)
      → k.update a w ≡ (ok b, w')
      → (k.get (record { namespace = (meta a).namespace; name = (meta a).name }) w').0 ≡ ok b
  pub keeps_annotations :
      (a b : A) (w w' : W) → k.update a w ≡ (ok b, w') → (meta b).annotations ≡ (meta a).annotations
