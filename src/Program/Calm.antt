-- ===== src/Program/Calm.antt =====
-- The turns that the synchronisation of the replicas needs (cmd/upgrade/preupgrade-sync.go).
use patroni_postgres_operato.Base.{
  false, ◌≡◌, refl, ap, ℕ, suc, ◌+◌, String, true, List, [], ◌∷◌, Option, none, some, arith, length,
}
use patroni_postgres_operato.Exec.{Outcome, ok, lift, ◌>>=◌, pure}
use patroni_postgres_operato.Connection.{
  ConnConfig, ConnectOption, connectwithhostname, conn_string, apply_all, Server, connect_retrying,
  connectdb, ◌>>?◌,
}
use patroni_postgres_operato.Program.{
  read_replicas, wait_replica, count_synced, wait_replicas, wait_replicas_replay_lsn, wait_tick,
  compare_wal, sync_restore_points,
}

-- In this state the primary is not in recovery, every replica has replayed its position, all members
-- but one are found, the servers answer, and nothing is written.
pub record IsCalm (v : Server) (names : List String) (s : v.World) : Type 0 where
  pub lsn : String
  pub ips : List String
  pub enough : suc (length ips) ≡ length names
  pub config : ConnConfig
  pub parsed : v.parse_config (conn_string v.flags) ≡ ok config
  pub connects : (c : ConnConfig) → v.connect c s ≡ (ok tt, s)
  pub not_in_recovery : v.in_recovery s ≡ (ok false, s)
  pub checkpoints : (host : Option String) → v.checkpoint host s ≡ (ok tt, s)
  pub position : v.current_wal_lsn s ≡ (ok lsn, s)
  pub found : v.replicas names lsn s ≡ (ok ips, s)
  pub replayed : (ip : String) → v.replay_lag ip lsn s ≡ (ok 0, s)
  pub unwritten : v.wal_increase lsn s ≡ (ok 0, s)
  pub pauses : v.patch_config s ≡ (ok 200, s)

module _ (v : Server) (names : List String) (s : v.World) (c : IsCalm v names s) where
  pub connectdb-calm : (options : List ConnectOption) → connectdb v options s ≡ (ok tt, s)
  unfolding connectdb connect_retrying ◌>>=◌ lift
  connectdb-calm options = rw c.parsed (ground (arith, c.connects (apply_all options c.config)))

  wait_replica-calm : (ip : String) → wait_replica v ip c.lsn s ≡ (ok tt, s)
  unfolding wait_replica ◌>>=◌
  wait_replica-calm ip =
      rw (connectdb-calm (connectwithhostname ip ∷ []))
        (rw (c.replayed ip) (c.checkpoints (some ip)))

  count_synced-calm :
      (ips : List String) (n : ℕ) → count_synced v c.lsn n ips s ≡ (ok (n + length ips), s)
  unfolding count_synced pure
  count_synced-calm [] n = ground arith
  count_synced-calm (ip ∷ ips) n =
      rw (count_synced, wait_replica-calm ip)
        (rw (ap (λ (p : Outcome (Unit {0}) × v.World). p.1) (wait_replica-calm ip))
          (rw (count_synced-calm ips (suc n)) (ground arith)))

  read_replicas-calm :
      (polls : ℕ) → read_replicas v (suc polls) names c.lsn s ≡ (ok (some c.ips), s)
  unfolding read_replicas ◌>>=◌ pure
  read_replicas-calm polls = rw c.found (ground (arith, c.enough))

  wait_replicas-calm : wait_replicas v names c.ips c.lsn s ≡ (ok true, s)
  unfolding wait_replicas ◌>>=◌ pure
  wait_replicas-calm =
      rw (count_synced-calm c.ips 0) (ap (λ b. (ok b, s)) (ground (arith, c.enough)))

  wait_replicas_replay_lsn-calm :
      (polls ticks : ℕ)
      → wait_replicas_replay_lsn v (suc polls) (suc ticks) names c.lsn s ≡ (ok (some tt), s)
  unfolding wait_replicas_replay_lsn wait_tick ◌>>=◌ ◌>>?◌ pure
  wait_replicas_replay_lsn-calm polls ticks =
      rw (read_replicas-calm polls) (rw wait_replicas-calm refl)

  pub sync_restore_points-calm :
      (polls ticks turns : ℕ)
      → sync_restore_points v (suc polls) (suc ticks) (suc turns) names s ≡ (ok (some tt), s)
  unfolding sync_restore_points compare_wal ◌>>=◌ ◌>>?◌ pure
  sync_restore_points-calm polls ticks turns =
      rw (c.checkpoints none)
        (rw c.position (rw (wait_replicas_replay_lsn-calm polls ticks) (rw c.unwritten refl)))
