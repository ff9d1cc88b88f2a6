-- ===== src/Program/Main.antt =====
-- cmd/upgrade/main.go: the flag -mode selects what the program does. That a signal cancels the
-- context is a matter of `Server.done`.
use patroni_postgres_operato.Base.{ℕ, String, List, [], ◌∷◌, Option, none, some}
use patroni_postgres_operato.Base.StringMap.{lookup}
use patroni_postgres_operato.Exec.{Exec, pure, fail, invalid_mode, ◌>>=◌}
use patroni_postgres_operato.Results.{upgrade_mode_pre, upgrade_mode_pre_sync, upgrade_mode_post}
use patroni_postgres_operato.Client.{Json}
use patroni_postgres_operato.Connection.{Server}
use patroni_postgres_operato.Program.{preupgrade_sync_fn}
use patroni_postgres_operato.Program.Preupgrade.{preupgrade_fn}
use patroni_postgres_operato.Program.Postupgrade.{postupgrade_fn}

-- The bounds on the turns of the loops of preupgrade-sync.
pub record Bounds : Type 0 where
  pub attempts : ℕ
  pub polls : ℕ
  pub ticks : ℕ
  pub turns : ℕ

module _ (v : Server) (json : Json) (b : Bounds) where
  abbrev pub ends : Exec v.World (Unit {0}) → Exec v.World (Option (Unit {0}))
  ends m = m >>= λ _. pure (some tt)

  -- `preupgradesyncfn` reads its flags.
  abbrev pub synchronise : Exec v.World (Option (Unit {0}))
  synchronise =
      preupgrade_sync_fn v b.attempts b.polls b.ticks b.turns v.flags.cluster_name
        v.flags.cluster_size v.flags.pause

  unfoldable pub modes : List (String × Exec v.World (Option (Unit {0})))
  modes =
      (upgrade_mode_pre, ends (preupgrade_fn v json))
      ∷ (upgrade_mode_pre_sync, synchronise)
      ∷ (upgrade_mode_post, ends (postupgrade_fn v))
      ∷ []

  -- An error is fatal: the process exits with a status that is not 0.
  unfoldable pub main : Exec v.World (Option (Unit {0}))
  unfolding modes lookup
  main = elim (lookup v.flags.mode modes) [ none ↦ fail invalid_mode | some opfunc ↦ opfunc ]
