-- ===== src/Reconciler/Reachable.antt =====
-- The statuses that an instance can have: it is created without one, then edited by users and
-- reconciled, in any order, while the cluster and its other clients do as they like.
use patroni_postgres_operato.Base.{◌≡◌, refl, inl, inr, arith, eq_iff}
use patroni_postgres_operato.Api.{PatroniPostgres, PatroniPostgresSpec, state_upgrade_postupgrade}
use patroni_postgres_operato.Client.{State}
use patroni_postgres_operato.Context.{Context}
use patroni_postgres_operato.Upgrade.Steps.{find_step}
use patroni_postgres_operato.Reconciler.{process, initialized}
use patroni_postgres_operato.Reconciler.Invariant.{IsConsistent}
use patroni_postgres_operato.Reconciler.Consistency.{process-IsConsistent, initialized-IsConsistent}

-- The status that a reconciliation leaves may be written or not; the one that initialization leaves is
-- written before the rest runs.
pub data Reachable (x : Context) : PatroniPostgres → Type 0 where
  created :
      {p : PatroniPostgres} → p.status.state ≡ "" → p.status.upgrade_version ≡ 0 → Reachable x p
  begun : {p : PatroniPostgres} → p.status.state ≡ "" → Reachable x p → Reachable x (initialized p)
  edited :
      {p : PatroniPostgres} (spec : PatroniPostgresSpec)
      → Reachable x p
      → Reachable x (record p { spec = spec })
  reconciled :
      (s : State x.client.World) → Reachable x s.instance → Reachable x (process x s).1.instance

created-IsConsistent : (p : PatroniPostgres) → p.status.state ≡ "" → IsConsistent p
unfolding find_step
created-IsConsistent p e =
    (inr (rw e refl), inl (λ f. ground (arith, eq_iff "" state_upgrade_postupgrade)))

-- Every status that an instance can have is consistent: without a target its state is no step of an
-- upgrade, and in the last step its version is the target.
pub Reachable-IsConsistent : {x : Context} {p : PatroniPostgres} → Reachable x p → IsConsistent p
Reachable-IsConsistent (created {p} e _) = created-IsConsistent p e
Reachable-IsConsistent {x} (begun {p} _ r) = initialized-IsConsistent x p
Reachable-IsConsistent (edited {p} spec r) = Reachable-IsConsistent r
Reachable-IsConsistent {x} (reconciled s r) = process-IsConsistent x s (Reachable-IsConsistent r)
