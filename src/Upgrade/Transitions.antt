-- ===== src/Upgrade/Transitions.antt =====
-- What one call of `Handle` does with the status of the instance.
use patroni_postgres_operato.Base.{
  ◌≡◌, refl, ◌≢◌, ◌⊎◌, inl, inr, ap, sym, ◌∙◌, Bool, true, false, Option, none, some, arith,
  Option-cases,
}
use patroni_postgres_operato.Exec.{Outcome, ok}
use patroni_postgres_operato.Api.{PatroniPostgres, PatroniPostgresState, state_upgrade_preupgrade}
use patroni_postgres_operato.Client.{State}
use patroni_postgres_operato.Client.Leaves.{Leaves}
use patroni_postgres_operato.Context.{Context}
use patroni_postgres_operato.Controllers.Frame.{but_ready, Leaves-view}
use patroni_postgres_operato.Controllers.Configmap.Frame.{Leaves-clear_upgrade_annotations}
use patroni_postgres_operato.Upgrade.Frame.{
  but_version, Leaves-Preupgrade-handle, Leaves-Scaledown-handle, Leaves-PreupgradeSync-handle,
  Leaves-Primary-handle, Leaves-Secondaries-handle, Leaves-PrimaryMove-handle,
  Leaves-Postupgrade-handle,
}
use patroni_postgres_operato.Upgrade.Steps.{
  Handler, preupgrade, preupgrade_scaledown, preupgrade_sync, scaledown, primary_upgrade,
  secondary_upgrade, primary_upgrade_move, postupgrade, name, run_handler, UpgradeStep, find_step,
  set_state, end_upgrade, go_on, run_step, handle,
}
use patroni_postgres_operato.Upgrade.Order.{
  successor, find_step-name, find_step_iff, state_after, Edge, stay, enter, advance,
}

-- The instance but for its ready replicas and its version.
abbrev pub outline : PatroniPostgres → PatroniPostgres
outline p = but_version (but_ready p)

module _ (x : Context) where
  pub Leaves-run_handler : (h : Handler) → Leaves outline (run_handler x h)
  unfolding run_handler
  Leaves-run_handler preupgrade = Leaves-Preupgrade-handle x
  Leaves-run_handler preupgrade_scaledown = Leaves-view but_version (Leaves-Scaledown-handle x)
  Leaves-run_handler preupgrade_sync = Leaves-view but_version (Leaves-PreupgradeSync-handle x)
  Leaves-run_handler scaledown = Leaves-view but_version (Leaves-Scaledown-handle x)
  Leaves-run_handler primary_upgrade = Leaves-Primary-handle x
  Leaves-run_handler secondary_upgrade = Leaves-Secondaries-handle x
  Leaves-run_handler primary_upgrade_move = Leaves-view but_ready (Leaves-PrimaryMove-handle x)
  Leaves-run_handler postupgrade = Leaves-view but_version (Leaves-Postupgrade-handle x)

  -- Every handler but the move of the primary keeps the version.
  pub Leaves-run_handler_version :
      (h : Handler) → h ≢ primary_upgrade_move → Leaves but_ready (run_handler x h)
  unfolding run_handler
  Leaves-run_handler_version preupgrade _ = Leaves-Preupgrade-handle x
  Leaves-run_handler_version preupgrade_scaledown _ = Leaves-Scaledown-handle x
  Leaves-run_handler_version preupgrade_sync _ = Leaves-PreupgradeSync-handle x
  Leaves-run_handler_version scaledown _ = Leaves-Scaledown-handle x
  Leaves-run_handler_version primary_upgrade _ = Leaves-Primary-handle x
  Leaves-run_handler_version secondary_upgrade _ = Leaves-Secondaries-handle x
  Leaves-run_handler_version primary_upgrade_move ne = absurd (ne refl)
  Leaves-run_handler_version postupgrade _ = Leaves-Postupgrade-handle x

  pub run_handler-state :
      (h : Handler) (s : State x.client.World)
      → (run_handler x h s).1.instance.status.state ≡ s.instance.status.state
  run_handler-state h s = ap (λ (p : PatroniPostgres). p.status.state) ((Leaves-run_handler h).at s)

  -- The instance after a step that is done.
  abbrev pub gone : Handler → PatroniPostgres → PatroniPostgres
  gone h p = elim (successor h) [ none ↦ end_upgrade p | some next ↦ set_state (name next) p ]

  go_on-instance :
      (o : Option Handler) (s : State x.client.World)
      → (go_on x o s).1.instance
        ≡ (elim o [ none ↦ end_upgrade s.instance | some next ↦ set_state (name next) s.instance ])
  unfolding go_on
  go_on-instance (some next) s = refl
  go_on-instance none s =
      (Leaves-clear_upgrade_annotations x.client {f = λ p. p}).at
        (record s { instance = end_upgrade s.instance })

  abbrev pub step_of : Handler → UpgradeStep
  step_of h = record { handler = h; next = successor h }

  -- In a step the handler runs, and only if it is done the instance goes on.
  pub run_step-cases :
      (h : Handler) (s : State x.client.World)
      → (((run_handler x h s).0 ≡ ok true)
          × ((run_step x (step_of h) s).1.instance ≡ gone h (run_handler x h s).1.instance)
          × ((run_step x (step_of h) s).0 ≢ ok false))
        ⊎ (((run_handler x h s).0 ≢ ok true)
            × ((run_step x (step_of h) s).1 ≡ (run_handler x h s).1)
            × ((run_step x (step_of h) s).0 ≡ (run_handler x h s).0))
  unfolding run_step
  run_step-cases h s = ground (arith, go_on-instance (successor h) (run_handler x h s).1)

  pub handle_outside :
      (s : State x.client.World)
      → find_step s.instance.status.state ≡ none
      → handle x s
        ≡ (ok true, record s { instance = set_state state_upgrade_preupgrade s.instance })
  unfolding handle
  handle_outside s e = ground arith

  pub handle_inside :
      (h : Handler) (s : State x.client.World)
      → s.instance.status.state ≡ name h
      → handle x s ≡ run_step x (step_of h) s
  unfolding handle
  handle_inside h s e = ground (arith, find_step-name h, ap find_step e)

  -- To split on where the upgrade stands.
  pub step-cases :
      (p : PatroniPostgres)
      → (find_step p.status.state ≡ none) ⊎ ((h : Handler) × (p.status.state ≡ name h))
  step-cases p = elim (Option-cases (find_step p.status.state)) [
    | inl e ↦ inl e
    | inr (step, e) ↦ inr (step.handler, ((find_step_iff p.status.state step).0 e).0)
  ]

  pub state-gone : (h : Handler) (p : PatroniPostgres) → (gone h p).status.state ≡ state_after h
  state-gone preupgrade p = refl
  state-gone _ p = refl

  -- One call of `Handle`, whatever the cluster answers, follows an edge of the order of the steps.
  pub handle-Edge :
      (s : State x.client.World) → Edge s.instance.status.state (handle x s).1.instance.status.state
  handle-Edge s = elim (step-cases s.instance) [
    | inl e ↦ rw (handle_outside s e) (enter e)
    | inr (h, e) ↦ rw (handle_inside h s e) (elim (run_step-cases h s) [
      | inl (_, i, _) ↦
          rw (ap (λ (p : PatroniPostgres). p.status.state) i, state-gone) (advance h e)
      | inr (_, i, _) ↦
          rw (ap (λ (t : State x.client.World). t.instance.status.state) i, run_handler-state) stay
    ])
  ]

  -- The state that follows a state.
  abbrev next_state : PatroniPostgresState → PatroniPostgresState
  next_state state = elim (find_step state) [
    | none ↦ state_upgrade_preupgrade
    | some step ↦ state_after step.handler
  ]

  next_state-name :
      (h : Handler) (state : PatroniPostgresState)
      → state ≡ name h
      → next_state state ≡ state_after h
  next_state-name h state e = ground (arith, find_step-name h, ap find_step e)

  abbrev result : Outcome Bool × State x.client.World → Outcome Bool
  result t = t.0

  -- A call that asks for a requeue has gone on to the state that follows.
  handle-next_state :
      (s : State x.client.World)
      → (handle x s).0 ≡ ok true
      → (handle x s).1.instance.status.state ≡ next_state s.instance.status.state
  handle-next_state s done = elim (step-cases s.instance) [
    | inl e ↦ ground (arith, handle_outside s e)
    | inr (h, e) ↦
        rw (handle_inside h s e, next_state-name h _ e)
          (elim (run_step-cases h s) [
            | inl (_, i, _) ↦
                ap (λ (p : PatroniPostgres). p.status.state) i
                ∙ state-gone h (run_handler x h s).1.instance
            | inr (ne, _, r) ↦ absurd (ne (sym r ∙ ap result (sym (handle_inside h s e)) ∙ done))
          ])
  ]

  -- A call that returns without asking for a requeue leaves the state as it was.
  handle-waits :
      (s : State x.client.World)
      → (handle x s).0 ≡ ok false
      → (handle x s).1.instance.status.state ≡ s.instance.status.state
  handle-waits s waits = elim (step-cases s.instance) [
    | inl e ↦ ground (arith, handle_outside s e)
    | inr (h, e) ↦ rw (handle_inside h s e) (elim (run_step-cases h s) [
      | inl (_, _, ne) ↦ absurd (ne (ap result (sym (handle_inside h s e)) ∙ waits))
      | inr (_, i, _) ↦
          ap (λ (t : State x.client.World). t.instance.status.state) i ∙ run_handler-state h s
    ])
  ]

  -- The name, the namespace, the spec, the volume statuses and the offered versions.
  abbrev pub kept : PatroniPostgres → PatroniPostgres
  kept p = record p {
    status = record p.status { ready = 0; version = 0; state = ""; upgrade_version = 0 };
  }

  kept-gone : (h : Handler) (p : PatroniPostgres) → kept (gone h p) ≡ kept p
  kept-gone preupgrade p = refl
  kept-gone _ p = refl

  -- Whatever the cluster answers, a call changes nothing of the instance but the ready replicas, the
  -- state, the version and the upgrade version.
  pub handle-kept : (s : State x.client.World) → kept (handle x s).1.instance ≡ kept s.instance
  handle-kept s = elim (step-cases s.instance) [
    | inl e ↦ rw (handle_outside s e)
    | inr (h, e) ↦ rw (handle_inside h s e) (elim (run_step-cases h s) [
      | inl (_, i, _) ↦
          ap kept i
          ∙ kept-gone h (run_handler x h s).1.instance
          ∙ ap kept ((Leaves-run_handler h).at s)
      | inr (_, i, _) ↦
          ap (λ (t : State x.client.World). kept t.instance) i
          ∙ ap kept ((Leaves-run_handler h).at s)
    ])
  ]
