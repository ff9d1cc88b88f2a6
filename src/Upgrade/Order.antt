-- ===== src/Upgrade/Order.antt =====
-- The order of the steps of an upgrade, and what one call of `Handle` may do with the instance.
use patroni_postgres_operato.Base.{◌≡◌, refl, ◌↔◌, Option, none, some}
use patroni_postgres_operato.Base.StringMap.{AllEntries-lookup}
use patroni_postgres_operato.Api.{PatroniPostgresState, state_ready, state_upgrade_preupgrade}
use patroni_postgres_operato.Upgrade.Steps.{
  Handler, preupgrade, preupgrade_scaledown, preupgrade_sync, scaledown, primary_upgrade,
  secondary_upgrade, primary_upgrade_move, postupgrade, name, UpgradeStep, upgrademap, find_step,
}

-- The order of the steps.
abbrev pub successor : Handler → Option Handler
successor preupgrade = some preupgrade_scaledown
successor preupgrade_scaledown = some preupgrade_sync
successor preupgrade_sync = some scaledown
successor scaledown = some primary_upgrade
successor primary_upgrade = some secondary_upgrade
successor secondary_upgrade = some primary_upgrade_move
successor primary_upgrade_move = some postupgrade
successor postupgrade = none

pub find_step-name :
    (h : Handler) → find_step (name h) ≡ some (record { handler = h; next = successor h })
unfolding find_step name
find_step-name preupgrade = refl
find_step-name preupgrade_scaledown = refl
find_step-name preupgrade_sync = refl
find_step-name scaledown = refl
find_step-name primary_upgrade = refl
find_step-name secondary_upgrade = refl
find_step-name primary_upgrade_move = refl
find_step-name postupgrade = refl

find_step_sound :
    (state : PatroniPostgresState) (step : UpgradeStep)
    → find_step state ≡ some step
    → (state ≡ name step.handler) × (step.next ≡ successor step.handler)
unfolding find_step name
find_step_sound state step h =
    AllEntries-lookup (λ k s. (k ≡ name s.handler) × (s.next ≡ successor s.handler)) state
      upgrademap
      (
        (refl, refl),
        (
          (refl, refl),
          (
            (refl, refl),
            ((refl, refl), ((refl, refl), ((refl, refl), ((refl, refl), ((refl, refl), tt))))),
          ),
        ),
      )
      h

-- A state is one in which the upgrade has a step exactly if it is the name of a handler; the step
-- is then that handler, followed by the next one in that order.
pub find_step_iff :
    (state : PatroniPostgresState) (step : UpgradeStep)
    → (find_step state ≡ some step)
      ↔ ((state ≡ name step.handler) × (step.next ≡ successor step.handler))
find_step_iff state step =
    (find_step_sound state step, λ (e, n). rw e (rw (find_step-name step.handler) (rw n)))

-- The state after a step that is done.
abbrev pub state_after : Handler → PatroniPostgresState
state_after h = elim (successor h) [ none ↦ state_ready | some next ↦ name next ]

-- One call of `Handle` may keep the state, enter the first step from a state that is no step, or
-- go from a step to the one that follows it.
pub data Edge : PatroniPostgresState → PatroniPostgresState → Type 0 where
  stay : {state : PatroniPostgresState} → Edge state state
  enter :
      {state : PatroniPostgresState} → find_step state ≡ none → Edge state state_upgrade_preupgrade
  advance :
      (h : Handler) {state : PatroniPostgresState} → state ≡ name h → Edge state (state_after h)
