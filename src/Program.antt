-- ===== src/Program.antt =====
-- cmd/upgrade/preupgrade-sync.go: the program of the upgrade jobs that synchronises the replicas.
pub mod Synced
pub mod Calm
pub mod Fn
pub mod Preupgrade
pub mod Postupgrade
pub mod Main
pub mod Contract
pub mod Databases
use patroni_postgres_operato.Base.{
  ℕ, suc, zero, ◌^◌, String, ◌<>◌, Bool, true, false, List, [], ◌∷◌, ◌++◌, Option, none, some, ◌==◌,
  ltb, leb, ◌&&◌, if◌then◌else◌, length,
}
use patroni_postgres_operato.Connection.{
  Server, connectwithhostname, connectdb, connect_primary, ◌>>?◌,
}
use patroni_postgres_operato.Base.Text.{show}
use patroni_postgres_operato.Exec.{
  Outcome, ok, err, panic, api_error, Exec, pure, fail, crash, lift, ◌>>=◌, ◌>>◌,
}

abbrev pub int64_positive : ℕ → Bool
int64_positive n = ltb 0 n && ltb n (2 ^ 63)

-- The names of so many members, from a number.
unfoldable pub member_names : String → ℕ → ℕ → List String
member_names cluster i zero = []
member_names cluster i (suc n) = (cluster <> "-" <> show i) ∷ member_names cluster (suc i) n

module _ (v : Server) where
  -- `readReplicas`, with at most so many queries; none if they did not suffice.
  unfoldable pub read_replicas : ℕ → List String → String → Exec v.World (Option (List String))
  unfolding ◌>>=◌
  read_replicas zero names lsn = pure none
  read_replicas (suc polls) names lsn =
      let again = read_replicas polls names lsn in
      do
        ips ← v.replicas names lsn
        if suc (length ips) == length names then pure (some ips) else again

  unfoldable pub wait_replica : String → String → Exec v.World (Unit {0})
  unfolding ◌>>=◌ connectdb
  wait_replica ip lsn = do
    connectdb v (connectwithhostname ip ∷ [])
    lag ← v.replay_lag ip lsn
    if int64_positive lag then fail (api_error "lagging") else v.checkpoint (some ip)

  -- The goroutines of `waitReplicas`, one after the other: an error is logged and not counted.
  unfoldable pub count_synced : String → ℕ → List String → Exec v.World ℕ
  unfolding pure
  count_synced lsn synced [] s = pure synced s
  count_synced lsn synced (ip ∷ ips) s =
      let (r, t) = wait_replica ip lsn s in
      let one_more = count_synced lsn (suc synced) ips t in
      let same = count_synced lsn synced ips t in
      elim r [ ok _ ↦ one_more | err _ ↦ same | panic ↦ (panic, t) ]

  unfoldable pub wait_replicas : List String → List String → String → Exec v.World Bool
  unfolding ◌>>=◌
  wait_replicas names ips lsn = do
    synced ← count_synced lsn 0 ips
    pure (suc synced == length names)

  -- The rest of a turn of the loop of `waitReplicasReplayLSN`, with what follows the tick.
  unfoldable pub wait_tick :
      Exec v.World (Option (Unit {0}))
      → List String
      → String
      → List String
      → Exec v.World (Option (Unit {0}))
  unfolding ◌>>=◌
  wait_tick again names lsn ips = do
    synced ← wait_replicas names ips lsn
    if synced
        then pure (some tt)
        else (do d ← v.done; if d then fail (api_error "deadline") else again)

  unfoldable pub wait_replicas_replay_lsn :
      ℕ → ℕ → List String → String → Exec v.World (Option (Unit {0}))
  unfolding ◌>>=◌ ◌>>?◌
  wait_replicas_replay_lsn polls zero names lsn = pure none
  wait_replicas_replay_lsn polls (suc ticks) names lsn =
      let again = wait_replicas_replay_lsn polls ticks names lsn in
      read_replicas polls names lsn >>? wait_tick again names lsn

  -- The rest of a turn of the loop of `syncRestorePoints`, with the next turn.
  unfoldable pub compare_wal :
      Exec v.World (Option (Unit {0})) → String → Exec v.World (Option (Unit {0}))
  unfolding ◌>>=◌
  compare_wal again lsn = do
    increase ← v.wal_increase lsn
    if increase == 0 then pure (some tt) else again

  -- The loop of `syncRestorePoints`, with at most so many turns, ticks in a wait, and queries.
  unfoldable pub sync_restore_points : ℕ → ℕ → ℕ → List String → Exec v.World (Option (Unit {0}))
  unfolding ◌>>=◌ ◌>>?◌
  sync_restore_points polls ticks zero names = pure none
  sync_restore_points polls ticks (suc turns) names =
      let again = sync_restore_points polls ticks turns names in
      do
        v.checkpoint none
        lsn ← v.current_wal_lsn
        wait_replicas_replay_lsn polls ticks names lsn >>? λ _. compare_wal again lsn

  unfoldable pub pause_cluster : Exec v.World (Unit {0})
  unfolding ◌>>=◌
  pause_cluster = do
    status ← v.patch_config
    if leb 200 status && ltb status 300 then pure tt else fail (api_error "unexpected http status")

  -- `preupgradesyncfn`, with bounds on the turns of its loops.
  unfoldable pub preupgrade_sync_fn :
      ℕ → ℕ → ℕ → ℕ → String → ℕ → Bool → Exec v.World (Option (Unit {0}))
  unfolding ◌>>=◌ ◌>>?◌
  preupgrade_sync_fn attempts polls ticks turns cluster size paused =
      connect_primary v attempts
      >>? (λ _. sync_restore_points polls ticks turns (member_names cluster 0 size))
      >>? λ _. if paused then (do pause_cluster; pure (some tt)) else pure (some tt)
