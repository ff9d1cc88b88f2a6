-- ===== src/Tests/ProgramExamples.antt =====
-- The synchronisation of the replicas, against a primary to which so many more writes come.
use mathlib.Core.List.{Mem, mem-cons}
use patroni_postgres_operato.Base.{
  inl, inr, arith, if◌then◌else◌, str_eq, true, length, ◌≡◌, ◌≢◌, refl, ℕ, suc, zero, String, false,
  List, [], ◌∷◌, some,
}
use patroni_postgres_operato.Exec.{Error, Outcome, ok, err, panic, api_error}
use patroni_postgres_operato.Connection.{
  connectdb, ConnConfig, Flags, Server, connect_primary, check_primary,
}
use patroni_postgres_operato.Program.{
  sync_restore_points, wait_replicas_replay_lsn, read_replicas, wait_tick, wait_replicas,
  count_synced, wait_replica, compare_wal, preupgrade_sync_fn, pause_cluster, member_names,
}
use patroni_postgres_operato.Exec.Chain.{Chain}
use patroni_postgres_operato.Program.Postupgrade.{
  readdatabases, analyzedatabase, updateextensionsindb, run_updates, updateextensions,
  postupgrade_fn,
}
use patroni_postgres_operato.Program.Databases.{
  Updated, Analyzed, after_updates, failures, postupgrade_fn-Updated, postupgrade_fn-failed,
}
use patroni_postgres_operato.Program.Fn.{
  Paused, preupgrade_sync_fn-SyncEnds, preupgrade_sync_fn-calm,
}
use patroni_postgres_operato.Program.Synced.{SyncEnds}
use patroni_postgres_operato.Program.Calm.{IsCalm}

abbrev pub write_next : ℕ → Outcome ℕ × ℕ
write_next zero = (ok 0, 0)
write_next (suc w) = (ok 8, w)

abbrev pub config : ConnConfig
config = record { host = "db"; database = "postgres"; rest = "" }

abbrev pub no_flags : Flags
no_flags = record {
  dbhost = "";
  dbport = 5432;
  dbuser = "postgres";
  dbpassword = "";
  dbname = "postgres";
  mode = "";
  cluster_name = "";
  cluster_size = 0;
  pause = false;
}

-- A write comes after each of the next comparisons, and then no more.
abbrev pub server : Flags → Server
server flags = record {
  World = ℕ;
  flags = flags;
  parse_config = λ t. ok config;
  connect = λ c w. (ok tt, w);
  in_recovery = λ w. (ok false, w);
  checkpoint = λ host w. (ok tt, w);
  current_wal_lsn = λ w. (ok "0/16B3748", w);
  replicas = λ names lsn w. (ok ("10.0.0.2" ∷ "10.0.0.3" ∷ []), w);
  replay_lag = λ ip lsn w. (ok 0, w);
  wal_increase = λ lsn. write_next;
  done = λ w. (ok false, w);
  patch_config = λ w. (ok 200, w);
  show_lc_collate = λ w. (ok "C", w);
  show_server_encoding = λ w. (ok "UTF8", w);
  current_settings = λ w. (ok (true, 0), w);
  write = λ t w. (ok 2, w);
  first_sent = λ e es. e;
  databases = λ w. (ok ("postgres" ∷ "shop" ∷ []), w);
  extensions = λ d w. (ok ("plpgsql" ∷ []), w);
  execute = λ d t w. (ok tt, suc w);
}

abbrev busy : Server
busy = server no_flags

abbrev members : List String
members = "db-0" ∷ "db-1" ∷ "db-2" ∷ []

busy-IsCalm : IsCalm busy (member_names "db" 0 3) 0
unfolding member_names
busy-IsCalm = record {
  lsn = "0/16B3748";
  ips = "10.0.0.2" ∷ "10.0.0.3" ∷ [];
  enough = refl;
  config = config;
  parsed = refl;
  connects = λ c. refl;
  not_in_recovery = refl;
  checkpoints = λ host. refl;
  position = refl;
  found = refl;
  replayed = λ ip. refl;
  unwritten = refl;
  pauses = refl;
}

-- One write comes after the first comparison, so there is a second turn.
whole_run : (preupgrade_sync_fn busy 1 1 1 2 "db" 3 true 1).0 ≡ ok (some tt)
unfolding preupgrade_sync_fn connect_primary check_primary pause_cluster member_names
    sync_restore_points wait_replicas_replay_lsn read_replicas wait_tick wait_replicas count_synced
    wait_replica compare_wal
whole_run = refl

preupgrade_sync_fn-SyncEnds_example :
    (t : ℕ) × (length (member_names "db" 0 3) ≡ 3)
    × SyncEnds busy (member_names "db" 0 3) t
    × Paused busy true t (preupgrade_sync_fn busy 1 1 1 2 "db" 3 true 1).1
preupgrade_sync_fn-SyncEnds_example =
    preupgrade_sync_fn-SyncEnds busy 1 1 1 2 "db" 3 true 1 whole_run

preupgrade_sync_fn-calm_example : preupgrade_sync_fn busy 1 1 1 1 "db" 3 true 0 ≡ (ok (some tt), 0)
preupgrade_sync_fn-calm_example = preupgrade_sync_fn-calm busy 0 0 0 0 "db" 3 true 0 busy-IsCalm

whole_postupgrade : (postupgrade_fn busy 0).0 ≡ ok tt
unfolding connectdb postupgrade_fn readdatabases analyzedatabase updateextensionsindb
    updateextensions run_updates
whole_postupgrade = refl

postupgrade_fn-Updated_example :
    (databases : List String) × (t : ℕ) × (u : ℕ) × (readdatabases busy 0 ≡ (ok databases, t))
    × Chain (Updated busy) databases t u
    × Chain (Analyzed busy) databases u (postupgrade_fn busy 0).1
postupgrade_fn-Updated_example = postupgrade_fn-Updated busy 0 whole_postupgrade

abbrev last_of : Error → List Error → Error
last_of e [] = e
last_of e (d ∷ es) = last_of d es

-- The second and the third of four databases cannot be altered, and the error of the third is sent
-- first.
abbrev broken : Server
broken = record busy {
  databases = λ w. (ok ("postgres" ∷ "broken" ∷ "locked" ∷ "shop" ∷ []), w);
  execute = λ d t w. (
    if str_eq d "broken"
        then err (api_error "ALTER")
        else (if str_eq d "locked" then err (api_error "LOCK") else ok tt),
    suc w,
  );
  first_sent = last_of;
}

last_of-Mem : (e : Error) (es : List Error) → Mem (last_of e es) (e ∷ es)
last_of-Mem e [] = mem-cons.1 ∣ inl refl ∣₁
last_of-Mem e (d ∷ es) = mem-cons.1 ∣ inr (last_of-Mem d es) ∣₁

broken_run : (postupgrade_fn broken 0).0 ≡ err (api_error "LOCK")
unfolding connectdb postupgrade_fn readdatabases analyzedatabase updateextensionsindb
    updateextensions run_updates
broken_run = refl

err-ne-panic : {A : Type 0} (r : Outcome A) (e : Error) → r ≡ err e → r ≢ panic
err-ne-panic r e h p = ground arith

two_failed :
    failures broken ("postgres" ∷ "broken" ∷ "locked" ∷ "shop" ∷ []) 0
    ≡ api_error "ALTER" ∷ api_error "LOCK" ∷ []
unfolding connectdb updateextensionsindb failures
two_failed = refl

broken_read : readdatabases broken 0 ≡ (ok ("postgres" ∷ "broken" ∷ "locked" ∷ "shop" ∷ []), 0)
unfolding connectdb readdatabases
broken_read = refl

postupgrade_fn-failed_example :
    let databases : List String = "postgres" ∷ "broken" ∷ "locked" ∷ "shop" ∷ [] in
    (first : Error) × Mem first (failures broken databases 0)
    × (postupgrade_fn broken 0 ≡ (err first, after_updates broken databases 0))
postupgrade_fn-failed_example =
    postupgrade_fn-failed broken 0 0 ("postgres" ∷ "broken" ∷ "locked" ∷ "shop" ∷ [])
      (api_error "ALTER") (api_error "LOCK" ∷ []) last_of-Mem broken_read two_failed
      (err-ne-panic _ _ broken_run)
