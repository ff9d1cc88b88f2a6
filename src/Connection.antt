-- ===== src/Connection.antt =====
-- cmd/upgrade/connectdb.go: the connections of the program that the upgrade jobs run, its flags, and
-- what it uses of pgx, net/http, the clock and its output.
use patroni_postgres_operato.Base.{
  ℕ, suc, zero, String, ◌<>◌, Bool, List, [], ◌∷◌, Option, none, some, if◌then◌else◌,
}
use patroni_postgres_operato.Base.Text.{show}
use patroni_postgres_operato.Exec.{Error, Outcome, ok, err, panic, Exec, pure, crash, lift, ◌>>=◌}

pub record Flags : Type 0 where
  pub dbhost : String
  pub dbport : ℕ
  pub dbuser : String
  pub dbpassword : String
  pub dbname : String
  pub mode : String
  pub cluster_name : String
  pub cluster_size : ℕ
  pub pause : Bool

-- `rest` is what a configuration holds beside the fields that the options write.
pub record ConnConfig : Type 0 where
  pub host : String
  pub database : String
  pub rest : String

pub data ConnectOption : Type 0 where
  connectwithhostname : String → ConnectOption
  connectwithdbname : String → ConnectOption

unfoldable pub apply : ConnectOption → ConnConfig → ConnConfig
apply (connectwithhostname h) c = record c { host = h }
apply (connectwithdbname d) c = record c { database = d }

unfoldable pub apply_all : List ConnectOption → ConnConfig → ConnConfig
unfolding apply
apply_all [] config = config
apply_all (opt ∷ options) config = apply_all options (apply opt config)

-- The text that pgx parses.
unfoldable pub conn_string : Flags → String
conn_string f =
    "host="
    <> (f.dbhost
        <> (" port="
            <> (show f.dbport
                <> (" user="
                    <> (f.dbuser
                        <> (" password="
                            <> (f.dbpassword
                                <> (" database=" <> (f.dbname <> " sslmode=disable")))))))))

-- An unknown world that may answer anything. Queries go to the primary, or to a replica by its
-- address, or to a database by its name. An `int64` is its bit pattern.
pub record Server : Type 1 where
  pub World : Type 0
  pub flags : Flags
  pub parse_config : String → Outcome ConnConfig
  pub connect : ConnConfig → Exec World (Unit {0})
  pub in_recovery : Exec World Bool
  pub checkpoint : Option String → Exec World (Unit {0})
  pub current_wal_lsn : Exec World String
  -- The addresses of the replicas of these names that have replayed up to a position.
  pub replicas : List String → String → Exec World (List String)
  pub replay_lag : String → String → Exec World ℕ
  pub wal_increase : String → Exec World ℕ
  -- Whether the context is done before the ticker ticks.
  pub done : Exec World Bool
  -- The status code of the request to pause.
  pub patch_config : Exec World ℕ
  pub show_lc_collate : Exec World String
  pub show_server_encoding : Exec World String
  -- data_checksums and max_prepared_transactions.
  pub current_settings : Exec World (Bool × ℕ)
  -- The number of bytes that were written to the output.
  pub write : String → Exec World ℕ
  -- The databases that allow connections.
  pub databases : Exec World (List String)
  -- The extensions of a database, by their quoted names.
  pub extensions : String → Exec World (List String)
  -- A statement that is run in a database.
  -- Of the errors of goroutines that race, the one that reaches the channel first.
  pub first_sent : Error → List Error → Error
  pub execute : String → String → Exec World (Unit {0})

-- An action that may have run out of its number of turns, and what follows if it did not.
infixl 10 ◌>>?◌
unfoldable pub ◌>>?◌ :
    {S A B : Type 0} → Exec S (Option A) → (A → Exec S (Option B)) → Exec S (Option B)
unfolding ◌>>=◌
first >>? next = first >>= λ o. elim o [ none ↦ pure none | some a ↦ next a ]

module _ (v : Server) where
  -- The loop of `connectdb`, with so many retries; it sleeps between two of them.
  unfoldable pub connect_retrying : ℕ → ConnConfig → Exec v.World (Unit {0})
  connect_retrying zero config s = v.connect config s
  connect_retrying (suc retries) config s =
      let (r, t) = v.connect config s in
      let again = connect_retrying retries config t in
      elim r [ ok _ ↦ (ok tt, t) | err _ ↦ again | panic ↦ (panic, t) ]

  unfoldable pub connectdb : List ConnectOption → Exec v.World (Unit {0})
  unfolding ◌>>=◌ connect_retrying
  connectdb options = do
    config ← lift (v.parse_config (conn_string v.flags))
    connect_retrying 10 (apply_all options config)

  -- The end of a turn of the loop of `connectprimarydb`: what is returned if the context is done.
  unfoldable pub primary_tick :
      Exec v.World (Option (Unit {0}))
      → Outcome (Option (Unit {0}))
      → Exec v.World (Option (Unit {0}))
  unfolding ◌>>=◌
  primary_tick again last = do d ← v.done; if d then lift last else again

  -- A turn of the loop, once it is known whether a connection was made. There is no error beside a
  -- server that is in recovery, so the closed connection is returned if the context is done.
  unfoldable pub check_primary :
      Exec v.World (Option (Unit {0})) → Outcome (Unit {0}) → Exec v.World (Option (Unit {0}))
  unfolding pure crash
  check_primary again (ok _) s =
      let (r, t) = v.in_recovery s in
      elim r [
        | ok b ↦ if b then primary_tick again (ok (some tt)) t else pure (some tt) t
        | err e ↦ primary_tick again (err e) t
        | panic ↦ crash t
      ]
  check_primary again (err e) s = primary_tick again (err e) s
  check_primary again panic s = crash s

  -- `connectprimarydb`, with at most so many turns.
  unfoldable pub connect_primary : ℕ → Exec v.World (Option (Unit {0}))
  unfolding pure
  connect_primary zero s = pure none s
  connect_primary (suc turns) s =
      let again = connect_primary turns in let (r, t) = connectdb [] s in check_primary again r t
