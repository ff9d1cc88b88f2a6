-- ===== src/Tests/Examples.antt =====
-- The theorems about reconciliations and images, applied to small instances.
use patroni_postgres_operato.Base.{
  ◌≡◌, refl, ◌≢◌, ◌⊎◌, inl, inr, ◌<◌, true, [], ◌∷◌, none, some, arith, eq_iff, contains,
}
use patroni_postgres_operato.Exec.{ok}
use patroni_postgres_operato.Kube.{ConfigMap}
use patroni_postgres_operato.Api.{state_ready, state_upgrade_postupgrade}
use patroni_postgres_operato.Client.{State}
use patroni_postgres_operato.Image.{
  Image, images, get_image, upgrade_versions, find_image, register,
}
use patroni_postgres_operato.Image.Registry.{newest, find_image-register, upgrade_versions_sound}
use patroni_postgres_operato.Controllers.Frame.{fixed}
use patroni_postgres_operato.Upgrade.Steps.{find_step}
use patroni_postgres_operato.Reconciler.{process, run, set_upgrade_version}
use patroni_postgres_operato.Reconciler.Invariant.{IsConsistent}
use patroni_postgres_operato.Reconciler.Consistency.{process-IsConsistent}
use patroni_postgres_operato.Reconciler.Reachable.{
  Reachable, created, reconciled, Reachable-IsConsistent,
}
use patroni_postgres_operato.Exec.{err, upgrade_not_supported}
use patroni_postgres_operato.Controllers.Configmap.{get_sync_leader}
use patroni_postgres_operato.Reconciler.{body}
use patroni_postgres_operato.Reconciler.Write.{written, run-ok, run-err}
use patroni_postgres_operato.Reconciler.Start.{run-target}
use patroni_postgres_operato.Tests.{context, at_state, one_member}

abbrev ready_one : State ConfigMap
ready_one = at_state (one_member state_ready 15 0)

ready_one-IsConsistent : IsConsistent ready_one.instance
unfolding find_step
ready_one-IsConsistent =
    (inr refl, inl (λ e. ground (arith, eq_iff state_ready state_upgrade_postupgrade)))

process-IsConsistent_example : IsConsistent (process context ready_one).1.instance
process-IsConsistent_example = process-IsConsistent context ready_one ready_one-IsConsistent

created_one : Reachable context (one_member "" 0 0)
created_one = created refl refl

Reachable-IsConsistent_example :
    IsConsistent (process context (at_state (one_member "" 0 0))).1.instance
Reachable-IsConsistent_example =
    Reachable-IsConsistent (reconciled (at_state (one_member "" 0 0)) created_one)

run-target_example :
    let p = ready_one.instance in
    let q = (run context ready_one).1.instance in
    (fixed q ≡ fixed p)
    ⊎ ((p.status.state ≡ state_ready)
        × (p.status.version ≢ p.spec.version)
        × (contains p.status.upgrade_versions p.spec.version ≡ true)
        × (q ≡ set_upgrade_version p.spec.version p))
run-target_example = run-target context ready_one refl

abbrev newest_image : Image
newest_image = record {
  image = "ghcr.io/rkojedzinszky/postgres-patroni:20260707";
  versions = 15 ∷ 17 ∷ [];
}

image-of-15 : get_image 15 ≡ some newest_image
unfolding get_image
image-of-15 = refl

offers-17 : contains (upgrade_versions newest_image 15) 17 ≡ true
unfolding upgrade_versions
offers-17 = refl

upgrade_versions_sound_example :
    (◌<◌ 15 17)
    × (contains newest_image.versions 15 ≡ true)
    × (contains newest_image.versions 17 ≡ true)
    × (get_image 17 ≢ none)
upgrade_versions_sound_example = upgrade_versions_sound 15 17 newest_image image-of-15 offers-17

find_image-register_example :
    find_image 15 (register images []) ≡ newest 15 images (find_image 15 [])
find_image-register_example = find_image-register 15 images []

run-starts : (run context ready_one).0 ≡ ok true
unfolding run get_sync_leader
run-starts = refl

run-ok_example :
    ((body context ready_one).0 ≡ ok true) × (written context (body context ready_one).1 ≡ ok tt)
run-ok_example = run-ok context ready_one true run-starts

-- No version is offered.
abbrev stuck_one : State ConfigMap
stuck_one = at_state (record ready_one.instance {
  status = record ready_one.instance.status { upgrade_versions = [] };
})

run-refuses : (run context stuck_one).0 ≡ err (upgrade_not_supported 17 [])
unfolding run get_sync_leader
run-refuses = refl

run-err_example :
    (((body context stuck_one).0 ≡ err (upgrade_not_supported 17 []))
      × ((run context stuck_one).1 ≡ (body context stuck_one).1))
    ⊎ (written context (body context stuck_one).1 ≡ err (upgrade_not_supported 17 []))
run-err_example = run-err context stuck_one (upgrade_not_supported 17 []) run-refuses
