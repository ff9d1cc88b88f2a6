-- ===== src/Upgrade/Steps.antt =====
-- private/upgrade/upgrade.go: the order of the steps, and the handler that runs the current one.
use patroni_postgres_operato.Base.{
  String, Bool, true, false, List, [], ◌∷◌, Option, none, some, if◌then◌else◌,
}
use patroni_postgres_operato.Base.StringMap.{lookup, insert}
use patroni_postgres_operato.Exec.{Exec, pure, modify, ◌>>=◌, ◌>>◌}
use patroni_postgres_operato.Api.{
  PatroniPostgres, PatroniPostgresState, state_ready, state_upgrade_preupgrade,
  state_upgrade_preupgrade_scale_down, state_upgrade_preupgrade_sync, state_upgrade_scale_down,
  state_upgrade_primary, state_upgrade_secondaries, state_upgrade_primary_move,
  state_upgrade_postupgrade,
}
use patroni_postgres_operato.Client.{State, the_instance}
use patroni_postgres_operato.Context.{Context}
use patroni_postgres_operato.Controllers.Configmap.{clear_upgrade_annotations}
use patroni_postgres_operato.Upgrade.Preupgrade as Preupgrade
use patroni_postgres_operato.Upgrade.PreupgradeSync as PreupgradeSync
use patroni_postgres_operato.Upgrade.Scaledown as Scaledown
use patroni_postgres_operato.Upgrade.Primary as Primary
use patroni_postgres_operato.Upgrade.Secondaries as Secondaries
use patroni_postgres_operato.Upgrade.PrimaryMove as PrimaryMove
use patroni_postgres_operato.Upgrade.Postupgrade as Postupgrade

-- The types that implement `upgradehandler`.
pub data Handler : Type 0 where
  preupgrade preupgrade_scaledown preupgrade_sync scaledown : Handler
  primary_upgrade secondary_upgrade primary_upgrade_move postupgrade : Handler

unfoldable pub name : Handler → PatroniPostgresState
name preupgrade = state_upgrade_preupgrade
name preupgrade_scaledown = state_upgrade_preupgrade_scale_down
name preupgrade_sync = state_upgrade_preupgrade_sync
name scaledown = state_upgrade_scale_down
name primary_upgrade = state_upgrade_primary
name secondary_upgrade = state_upgrade_secondaries
name primary_upgrade_move = state_upgrade_primary_move
name postupgrade = state_upgrade_postupgrade

-- `preupgradeScaledownHandler` embeds `scaledownHandler`, with its `handle`.
unfoldable pub run_handler : (x : Context) → Handler → Exec (State x.client.World) Bool
run_handler x preupgrade = Preupgrade.handle x
run_handler x preupgrade_scaledown = Scaledown.handle x
run_handler x preupgrade_sync = PreupgradeSync.handle x
run_handler x scaledown = Scaledown.handle x
run_handler x primary_upgrade = Primary.handle x
run_handler x secondary_upgrade = Secondaries.handle x
run_handler x primary_upgrade_move = PrimaryMove.handle x
run_handler x postupgrade = Postupgrade.handle x

pub record UpgradeStep : Type 0 where
  pub handler : Handler
  pub next : Option Handler

abbrev pub UpgradeMap : Type 0
UpgradeMap = List (String × UpgradeStep)

-- `step.next = handler`, where `step` is the value that the map has for the handler before.
unfoldable pub set_next : Option Handler → Handler → UpgradeMap → UpgradeMap
unfolding name insert
set_next none h m = m
set_next (some before) h m = insert (name before) (record { handler = before; next = some h }) m

-- The loop of `init`, with the handler of the last round.
unfoldable pub link : Option Handler → List Handler → UpgradeMap → UpgradeMap
unfolding set_next
link before [] m = m
link before (h ∷ hs) m =
    link (some h) hs (insert (name h) (record { handler = h; next = none }) (set_next before h m))

abbrev pub handlers : List Handler
handlers =
    preupgrade ∷ preupgrade_scaledown ∷ preupgrade_sync ∷ scaledown ∷ primary_upgrade
    ∷ secondary_upgrade ∷ primary_upgrade_move ∷ postupgrade ∷ []

unfoldable pub upgrademap : UpgradeMap
unfolding link
upgrademap = link none handlers []

unfoldable pub find_step : PatroniPostgresState → Option UpgradeStep
unfolding upgrademap lookup
find_step state = lookup state upgrademap

abbrev pub set_state : PatroniPostgresState → PatroniPostgres → PatroniPostgres
set_state state p = record p { status = record p.status { state = state } }

-- The last step is done: the instance is ready, and no upgrade is wanted.
abbrev pub end_upgrade : PatroniPostgres → PatroniPostgres
end_upgrade p = record p { status = record p.status { state = state_ready; upgrade_version = 0 } }

module _ (x : Context) where
  -- What follows a step that is done.
  unfoldable pub go_on : Option Handler → Exec (State x.client.World) (Unit {0})
  unfolding ◌>>=◌ modify name
  go_on (some next) = modify (λ s. record s { instance = set_state (name next) s.instance })
  go_on none = do
    modify (λ s. record s { instance = end_upgrade s.instance })
    clear_upgrade_annotations x.client

  unfoldable pub run_step : UpgradeStep → Exec (State x.client.World) Bool
  unfolding ◌>>=◌ go_on
  run_step step = do
    done ← run_handler x step.handler
    if done then (do go_on step.next; pure true) else pure false

  -- `Handle`, which returns whether to requeue.
  unfoldable pub handle : Exec (State x.client.World) Bool
  unfolding run_step the_instance
  handle = do
    p ← the_instance
    elim (find_step p.status.state) [
      | none ↦ do
        modify (λ s. record s { instance = set_state state_upgrade_preupgrade s.instance })
        pure true
      | some step ↦ run_step step
    ]
