-- ===== src/Program/Fn.antt =====
-- The whole program of the synchronisation (cmd/upgrade/preupgrade-sync.go).
use patroni_postgres_operato.Base.{
  ◌≡◌, refl, ap, sym, ◌∙◌, ℕ, suc, zero, String, Bool, true, false, List, [], Option, some, arith,
  length, if◌then◌else◌,
}
use patroni_postgres_operato.Exec.{ok, Exec, ◌>>=◌, ◌>>◌, pure}
use patroni_postgres_operato.Exec.Inversion.{bind-ok}
use patroni_postgres_operato.Connection.{Server, connect_primary, check_primary, ◌>>?◌}
use patroni_postgres_operato.Program.{
  member_names, sync_restore_points, pause_cluster, preupgrade_sync_fn,
}
use patroni_postgres_operato.Program.Calm.{IsCalm, connectdb-calm, sync_restore_points-calm}
use patroni_postgres_operato.Program.Synced.{SyncEnds, sync_restore_points-SyncEnds, then-some}

member_names-length : (cluster : String) (i n : ℕ) → length (member_names cluster i n) ≡ n
unfolding member_names
member_names-length cluster i zero = refl
member_names-length cluster i (suc n) = ap suc (member_names-length cluster (suc i) n)

module _ (v : Server) where
  -- What was done after the synchronisation, which ended in the first state: the cluster was paused
  -- if that was asked for, and nothing otherwise.
  unfoldable pub Paused : Bool → v.World → v.World → Type 0
  Paused true s end = (pause_cluster v s).0 ≡ ok tt × (end ≡ (pause_cluster v s).1)
  Paused false s end = end ≡ s

  pause-Paused :
      (paused : Bool) (s end : v.World)
      → let k : Exec v.World (Option (Unit {0})) =
          if paused then (pause_cluster v >> pure (some tt)) else pure (some tt) in
        (k s).0 ≡ ok (some tt) → end ≡ (k s).1 → Paused paused s end
  unfolding Paused pure
  pause-Paused true s end h f =
      let (_, r, e) = bind-ok (pause_cluster v) (λ _. pure (some tt)) s (some tt) h in
      (r, f ∙ ap (λ p. p.1) e)
  pause-Paused false s end h f = f

  -- When the program of the synchronisation succeeds, then in its last turn a position of the primary
  -- was read, a query found as many replicas as there are members, less one, each of them did not lag
  -- behind the position and made a checkpoint, the primary had then not written past the position,
  -- and only after that the cluster was paused, successfully, if that was asked for.
  pub preupgrade_sync_fn-SyncEnds :
      (attempts polls ticks turns : ℕ) (cluster : String) (size : ℕ) (paused : Bool) (s : v.World)
      → (preupgrade_sync_fn v attempts polls ticks turns cluster size paused s).0 ≡ ok (some tt)
      → (t : v.World) × (length (member_names cluster 0 size) ≡ size)
        × SyncEnds v (member_names cluster 0 size) t
        × Paused paused t (preupgrade_sync_fn v attempts polls ticks turns cluster size paused s).1
  unfolding preupgrade_sync_fn pure
  preupgrade_sync_fn-SyncEnds attempts polls ticks turns cluster size paused s h =
      let names = member_names cluster 0 size in
      let sync = sync_restore_points v polls ticks turns names in
      let k : Exec v.World (Option (Unit {0})) =
        if paused then (pause_cluster v >> pure (some tt)) else pure (some tt) in
      let (_, r, e1) = then-some (connect_primary v attempts >>? λ _. sync) (λ _. k) s tt h in
      let (_, _, e2) = then-some (connect_primary v attempts) (λ _. sync) s tt r in
      let u = (connect_primary v attempts s).1 in
      let t = (sync u).1 in
      let e = e1 ∙ ap (λ p. k p.1) e2 in
      (
        t,
        member_names-length cluster 0 size,
        sync_restore_points-SyncEnds v polls ticks turns names u (sym (ap (λ p. p.0) e2) ∙ r),
        pause-Paused paused t _ (sym (ap (λ p. p.0) e) ∙ h) (ap (λ p. p.1) e),
      )

  connect_primary-calm :
      (names : List String) (s : v.World) (attempts : ℕ)
      → IsCalm v names s
      → connect_primary v (suc attempts) s ≡ (ok (some tt), s)
  unfolding connect_primary check_primary pure
  connect_primary-calm names s attempts c =
      ground (arith, connectdb-calm v names s c [], c.not_in_recovery)

  pause_cluster-calm :
      (names : List String) (s : v.World) → IsCalm v names s → pause_cluster v s ≡ (ok tt, s)
  unfolding pause_cluster ◌>>=◌ pure
  pause_cluster-calm names s c = rw c.pauses refl

  -- In a calm state one turn of each of the loops is enough: the program succeeds.
  pub preupgrade_sync_fn-calm :
      (attempts polls ticks turns : ℕ) (cluster : String) (size : ℕ) (paused : Bool) (s : v.World)
      → IsCalm v (member_names cluster 0 size) s
      → preupgrade_sync_fn v
          (suc attempts)
          (suc polls)
          (suc ticks)
          (suc turns)
          cluster
          size
          paused
          s
        ≡ (ok (some tt), s)
  unfolding preupgrade_sync_fn ◌>>=◌ ◌>>?◌ pure
  preupgrade_sync_fn-calm attempts polls ticks turns cluster size paused s c =
      let names = member_names cluster 0 size in
      rw (connect_primary-calm names s attempts c) (
        rw (sync_restore_points-calm v names s c polls ticks turns)
          (elim paused
            as (λ b.
              ((if b then (pause_cluster v >> pure (some tt)) else pure (some tt)) s)
              ≡ (ok (some tt), s)) [
                | true ↦ rw (pause_cluster-calm names s c) refl
                | false ↦ refl
              ]))
