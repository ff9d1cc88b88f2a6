-- ===== src/Program/Preupgrade.antt =====
-- cmd/upgrade/preupgrade.go: the settings of the running database, printed for the operator.
use Prim.Native.String.{len}
use patroni_postgres_operato.Base.{String, [], ltb, if◌then◌else◌}
use patroni_postgres_operato.Exec.{Exec, pure, fail, lift, short_write, ◌>>=◌, ◌>>◌}
use patroni_postgres_operato.Client.{Json}
use patroni_postgres_operato.Results.{Config}
use patroni_postgres_operato.Connection.{Server, connectdb}

module _ (v : Server) where
  -- The queries, in order, and what they are scanned into.
  unfoldable pub read_config : Exec v.World Config
  unfolding ◌>>=◌
  read_config = do
    connectdb v []
    locale ← v.show_lc_collate
    encoding ← v.show_server_encoding
    settings ← v.current_settings
    pure (record {
      locale = locale;
      encoding = encoding;
      data_checksums = settings.0;
      max_prepared_transactions = settings.1;
    })

module _ (v : Server) (json : Json) where
  -- What is printed.
  unfoldable pub preupgrade_output : Exec v.World String
  unfolding ◌>>=◌ read_config
  preupgrade_output = do config ← read_config v; lift (json.marshal_config config)

  -- `preupgradefn`
  unfoldable pub preupgrade_fn : Exec v.World (Unit {0})
  unfolding ◌>>=◌ preupgrade_output
  preupgrade_fn = do
    out ← preupgrade_output
    n ← v.write out
    if ltb n (len out) then fail short_write else pure tt
