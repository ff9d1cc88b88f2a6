-- ===== src/Lib.antt =====
-- A model of the Patroni PostgreSQL operator: a Kubernetes controller that keeps the objects of a
-- PatroniPostgres instance, and upgrades its database from one major version to another.
--
-- The parts. `Reconcile` (controllers/patronipostgres_controller.go) reads an instance, initializes
-- its status, makes a context, and then either starts an upgrade, runs one step of an upgrade that
-- has a target (private/upgrade), or runs the reconcilers of the objects (private/controllers) one
-- after the other. The status of the instance is written at the end. The next call goes on where the
-- status and the cluster stand.
--
-- State. All handlers share the instance by a pointer, and change it: `Client.State` holds it beside
-- the state of the world. `Exec` is a Go function that returns an error and may panic; what was
-- changed before an error stays changed. The cluster, controller-runtime, client-go, encoding/json
-- and the random numbers are the record `Client.Client`, a parameter: operations over an unknown
-- world that may answer anything, as the cluster may change between any two requests. Where it
-- matters that a written object can be read again, or that names are kept, this is a hypothesis:
-- `Client.IsStore` and `Controllers.Pvc.Volumes.KeepsNames`, and, where each kind of objects is a
-- dictionary of its own, `Controllers.Cluster.IsCluster` with `Client.Stores.Stores` and `Owns`: the
-- server keeps what it is sent, but for the address and the type of a service, the counts of a
-- stateful set, and the defaults of the template of its pods, which are a parameter.
--
-- The files.
--   Base: native numbers, lists, string maps, and text (`%d` of fmt, strings.Split).
--   Exec: outcomes and actions; Exec.Inversion: from the result of a sequence to its parts;
--     Exec.Chain: what a loop over a slice did.
--   Kube, Client: the objects of Kubernetes and the requests; Client.Leaves: what an action keeps of
--     the instance; Client.Stores: a kind as a dictionary, and what an action keeps of it.
--   Api: api/v1alpha1 (the spec, the status, GetAccessMode).
--   Results: Config (private/upgrade/common/common.go), upgradeJobResult.
--   Image, Image.Registry: private/image (UpgradeVersions, GetImage, init).
--   Security: private/security. Context: private/context (CommonLabels, PodLabels, SetMeta, New).
--   Controllers: private/controllers. Configmap, Service, Pvc, Secret, Statefulset, Rbac,
--     Networkpolicy and Pdb have one file each, with `reconcile` for `Reconcile`; PodTemplate is the
--     part of statefulset.go that builds the pods, with patch.go. Frame, Selectors and the modules
--     below Configmap, Pvc, Secret and Statefulset hold what is proved of them.
--     Ensure and Adopt are the two shapes that the reconcilers have: an object that is sent each
--     time, and one that is created once; Ensured, Service.Ensured, Statefulset.Ensured and Adopted say
--     which ones have them. Converges is what comes to rest, Keeps is what is left alone, Cluster the
--     kinds together, Installed what an instance asks for of them.
--   Upgrade: private/upgrade. Steps is upgrade.go (`init`, `Handle`); Jobs is common.go and
--     common/common.go; Logs is the reading of a job's log; Pods is the pod that the script jobs
--     share; Preupgrade, PreupgradeSync, Scaledown, Primary, Secondaries with Streamer, PrimaryMove
--     and Postupgrade are the handlers, with `handle` for `handle`. Frame, Order, Transitions,
--     Version, Progress, Gates, PrimaryGates, Members, Copies and Ports hold what is proved of them.
--   Reconciler: controllers/patronipostgres_controller.go. Objects, Invariant, Start,
--     Consistency, Reachable, Write, Rest, Install and Upgrading hold what is proved of it. Setup is
--     SetupWithManager, with the predicates of controller-runtime as a parameter.
--   Tests: a small cluster that runs, and the theorems applied to it.
--
-- Numbers. Versions and counts are natural numbers; an `int32` that holds a count of pods is read by
-- its bit pattern where it is compared with 0. `show` prints with as much fuel as the number plus
-- one, which is more than its digits. A scanned index must be below 2 ^ 63, as an `int`.
--
-- Abstractions. Quantities, tolerations, peers and other values that are only copied are texts. An
-- owner is kept by its name. The order of a range over a Go map is a parameter.
--
-- Connection models cmd/upgrade/connectdb.go: SQL, HTTP, the flags, the output and the clock are the
-- record `Connection.Server`, a parameter. Program models the programs that run in the jobs of an
-- upgrade: preupgrade-sync.go, with `preupgrade_sync_fn` for `preupgradesyncfn`; Program.Preupgrade,
-- Program.Postupgrade and Program.Main are preupgrade.go, postupgrade.go and main.go of cmd/upgrade.
-- Synced, Calm, Fn and Databases hold what is proved of them, Contract what the operator and its jobs
-- agree on; how the flags are read from the environment is the hypothesis `Contract.ReadsEnv`. A loop
-- has a bound on its turns and returns none when it is used up; in a state that
-- `Program.Calm.IsCalm` describes one turn is enough, and how many a busy cluster needs depends on its
-- servers. The goroutines of waitReplicas and of updateextensions run one after the other;
-- which of the errors of the latter reaches the channel first is `Server.first_sent`.
--
-- Manager models main.go, with controller-runtime as the record `Manager.Runtime`.
--
-- Not modelled: the generated code and the registration of the scheme, and the shell scripts, which
-- are parameters. Log lines and the closing of connections are left out.
pub mod Base
pub mod Exec
pub mod Kube
pub mod Api
pub mod Results
pub mod Client
pub mod Image
pub mod Security
pub mod Context
pub mod Controllers
pub mod Upgrade
pub mod Reconciler
pub mod Tests
pub mod Connection
pub mod Manager
pub mod Program
