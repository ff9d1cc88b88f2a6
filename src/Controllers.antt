-- ===== src/Controllers.antt =====
-- private/controllers: one reconciler for each kind of object that belongs to an instance.
pub mod Frame
pub mod Ensure
pub mod Adopt
pub mod Configmap
pub mod Service
pub mod Pvc
pub mod Secret
pub mod PodTemplate
pub mod Statefulset
pub mod Rbac
pub mod Networkpolicy
pub mod Pdb
pub mod Selectors
pub mod Ensured
pub mod Adopted
pub mod Converges
pub mod Keeps
pub mod Cluster
pub mod Installed
