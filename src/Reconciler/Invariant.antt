-- ===== src/Reconciler/Invariant.antt =====
-- What every reconciliation keeps of the status: where an upgrade stands, and to which version.
use patroni_postgres_operato.Base.{
  ◌≡◌, refl, ◌≢◌, ◌⊎◌, inl, inr, sym, ◌∙◌, none, arith, eq_iff, Bool-cases, str_eq,
}
use patroni_postgres_operato.Api.{
  PatroniPostgres, PatroniPostgresState, state_ready, state_scaling, state_upgrade_preupgrade,
  state_upgrade_primary_move, state_upgrade_postupgrade,
}
use patroni_postgres_operato.Client.{State}
use patroni_postgres_operato.Context.{Context}
use patroni_postgres_operato.Upgrade.Steps.{
  preupgrade, preupgrade_scaledown, preupgrade_sync, scaledown, primary_upgrade, secondary_upgrade,
  primary_upgrade_move, postupgrade, name, find_step, handle,
}
use patroni_postgres_operato.Upgrade.Order.{Edge, stay, enter, advance}
use patroni_postgres_operato.Upgrade.Transitions.{handle-Edge}
use patroni_postgres_operato.Upgrade.Version.{handle-version, move-version, handle-upgrade_version}

-- Without a target the state is no step of an upgrade, and in the last step the data of the primary
-- has moved to the target.
abbrev pub IsConsistent : PatroniPostgres → Type 0
IsConsistent p =
    ((p.status.upgrade_version ≢ 0) ⊎ (find_step p.status.state ≡ none))
    × ((p.status.state ≢ state_upgrade_postupgrade) ⊎ (p.status.version ≡ p.status.upgrade_version))

pub is_state : (a b : PatroniPostgresState) → (a ≢ b) ⊎ (a ≡ b)
is_state a b = elim (Bool-cases (str_eq a b)) [
  | inl e ↦ inr ((eq_iff a b).0 e)
  | inr e ↦ inl (λ q. ground (arith, eq_iff a b))
]

into_last_step :
    {a b : PatroniPostgresState}
    → Edge a b
    → b ≡ state_upgrade_postupgrade
    → (a ≡ state_upgrade_postupgrade) ⊎ (a ≡ state_upgrade_primary_move)
unfolding name
into_last_step stay e = inl e
into_last_step (enter _) e =
    absurd (ground (arith, eq_iff state_upgrade_preupgrade state_upgrade_postupgrade))
into_last_step (advance primary_upgrade_move i) e = inr i
into_last_step (advance postupgrade i) e =
    absurd (ground (arith, eq_iff state_ready state_upgrade_postupgrade))
into_last_step (advance preupgrade i) e =
    absurd (ground (arith, eq_iff "upgrade-preupgrade-scaledown" state_upgrade_postupgrade))
into_last_step (advance preupgrade_scaledown i) e =
    absurd (ground (arith, eq_iff "upgrade-preupgrade-sync" state_upgrade_postupgrade))
into_last_step (advance preupgrade_sync i) e =
    absurd (ground (arith, eq_iff "upgrade-scaledown" state_upgrade_postupgrade))
into_last_step (advance scaledown i) e =
    absurd (ground (arith, eq_iff "upgrade-primary" state_upgrade_postupgrade))
into_last_step (advance primary_upgrade i) e =
    absurd (ground (arith, eq_iff "upgrade-secondaries" state_upgrade_postupgrade))
into_last_step (advance secondary_upgrade i) e =
    absurd (ground (arith, eq_iff "upgrade-primary-move" state_upgrade_postupgrade))

move-ne-last : state_upgrade_postupgrade ≢ state_upgrade_primary_move
move-ne-last e = ground (arith, eq_iff state_upgrade_postupgrade state_upgrade_primary_move)

pub ready-ne-last : state_ready ≢ state_upgrade_postupgrade
ready-ne-last e = ground (arith, eq_iff state_ready state_upgrade_postupgrade)

pub ready-outside : find_step state_ready ≡ none
unfolding find_step
ready-outside = refl

pub scaling-outside : find_step state_scaling ≡ none
unfolding find_step
scaling-outside = refl

module _ (x : Context) (s : State x.client.World) where
  -- In the last step, and with a target that a call of `Handle` keeps, the version is the target.
  last_step_version :
      (s.instance.status.state ≢ state_upgrade_postupgrade)
        ⊎ (s.instance.status.version ≡ s.instance.status.upgrade_version)
      → (handle x s).1.instance.status.state ≡ state_upgrade_postupgrade
      → (handle x s).1.instance.status.version ≡ s.instance.status.upgrade_version
  last_step_version before e = elim (into_last_step (handle-Edge x s) e) [
    | inr m ↦ move-version x s m e
    | inl m ↦ elim (handle-version x s) [
      | inr (n, _) ↦ absurd (move-ne-last (sym m ∙ n))
      | inl v ↦ elim before [ inl ne ↦ absurd (ne m) | inr same ↦ v ∙ same ]
    ]
  ]

  pub handle-IsConsistent :
      s.instance.status.upgrade_version ≢ 0
      → IsConsistent s.instance
      → IsConsistent (handle x s).1.instance
  handle-IsConsistent ne (_, before) = elim (handle-upgrade_version x s) [
    | inr (_, _, r, _, _) ↦ (inr (rw r ready-outside), inl (λ e. ready-ne-last (sym r ∙ e)))
    | inl (_, u) ↦ (
      inl (λ z. ne (sym u ∙ z)),
      elim (is_state (handle x s).1.instance.status.state state_upgrade_postupgrade) [
        | inl other ↦ inl other
        | inr e ↦ inr (last_step_version before e ∙ sym u)
      ],
    )
  ]
