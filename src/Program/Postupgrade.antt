-- ===== src/Program/Postupgrade.antt =====
-- cmd/upgrade/postupgrade.go: the extensions of every database are updated, then every database is
-- analysed.
use patroni_postgres_operato.Base.{String, ◌<>◌, List, [], ◌∷◌, ◌++◌}
use patroni_postgres_operato.Exec.{Error, Outcome, ok, err, panic, Exec, ◌>>=◌, ◌>>◌, for_each}
use patroni_postgres_operato.Connection.{Server, connectwithdbname, connectdb}

-- The channel after one more error.
abbrev pub send : List Error → Error → List Error
send sent e = sent ++ e ∷ []

module _ (v : Server) where
  unfoldable pub readdatabases : Exec v.World (List String)
  unfolding ◌>>=◌
  readdatabases = do connectdb v []; v.databases

  unfoldable pub analyzedatabase : String → Exec v.World (Unit {0})
  unfolding ◌>>=◌
  analyzedatabase database = do
    connectdb v (connectwithdbname database ∷ [])
    v.execute database "ANALYZE"

  abbrev pub alter_extension : String → String → Exec v.World (Unit {0})
  alter_extension database qext = v.execute database ("ALTER EXTENSION " <> (qext <> " UPDATE"))

  unfoldable pub updateextensionsindb : String → Exec v.World (Unit {0})
  unfolding ◌>>=◌ for_each
  updateextensionsindb database = do
    connectdb v (connectwithdbname database ∷ [])
    qexts ← v.extensions database
    for_each (alter_extension database) qexts

  -- What the `select` receives: no error, or, of those that the goroutines sent, the one that was sent
  -- first.
  abbrev pub received : List Error → Outcome (Unit {0})
  received [] = ok tt
  received (e ∷ es) = err (v.first_sent e es)

  -- The goroutines, one after the other; each one runs, whether or not one before it has failed. The
  -- order in which their errors reach the channel is not this one: it is up to `first_sent`.
  unfoldable pub run_updates : List Error → List String → Exec v.World (Unit {0})
  run_updates sent [] s = (received sent, s)
  run_updates sent (database ∷ databases) s =
      let (r, t) = updateextensionsindb database s in
      let updated = run_updates sent databases t in
      elim r [ ok _ ↦ updated | err e ↦ run_updates (send sent e) databases t | panic ↦ (panic, t) ]

  unfoldable pub updateextensions : List String → Exec v.World (Unit {0})
  unfolding run_updates
  updateextensions databases = run_updates [] databases

  -- `postupgradefn`
  unfoldable pub postupgrade_fn : Exec v.World (Unit {0})
  unfolding ◌>>=◌ for_each
  postupgrade_fn = do
    databases ← readdatabases
    updateextensions databases
    for_each analyzedatabase databases
