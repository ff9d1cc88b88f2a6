-- ===== src/Upgrade/Progress.antt =====
-- Calls of `Handle` that are done, one after the other: the upgrade ends after its eight steps, and
-- the instance then runs the version that was asked for.
use patroni_postgres_operato.Base.{
  ◌≡◌, refl, ◌≢◌, inl, inr, ap, sym, ◌∙◌, ℕ, suc, Bool, true, false, Option, none, some, arith,
}
use patroni_postgres_operato.Exec.{Outcome, ok}
use patroni_postgres_operato.Api.{
  PatroniPostgres, PatroniPostgresStatus, state_ready, state_upgrade_preupgrade,
}
use patroni_postgres_operato.Client.{State}
use patroni_postgres_operato.Context.{Context}
use patroni_postgres_operato.Image.{Image}
use patroni_postgres_operato.Upgrade.Steps.{
  Handler, preupgrade, preupgrade_scaledown, preupgrade_sync, scaledown, primary_upgrade,
  secondary_upgrade, primary_upgrade_move, postupgrade, name, run_handler, run_step, handle,
}
use patroni_postgres_operato.Upgrade.Order.{successor, state_after}
use patroni_postgres_operato.Upgrade.Transitions.{
  gone, step_of, run_step-cases, handle_inside, state-gone, Leaves-run_handler_version,
  run_handler-state,
}
use patroni_postgres_operato.Upgrade.Version.{version_of, upgrade_version-run_handler, Kept-move}

-- What holds when a handler's turn comes: the target is `v`, and the version is `v` already if the
-- data of the primary was moved. In the end the target is cleared.
abbrev pub StageOf : ℕ → Option Handler → PatroniPostgresStatus → Type 0
StageOf v none st = (st.state ≡ state_ready) × (st.upgrade_version ≡ 0) × (st.version ≡ v)
StageOf v (some postupgrade) st =
    (st.state ≡ name postupgrade) × (st.upgrade_version ≡ v) × (st.version ≡ v)
StageOf v (some h) st = (st.state ≡ name h) × (st.upgrade_version ≡ v)

abbrev pub Stage : ℕ → Option Handler → PatroniPostgres → Type 0
Stage v o p = StageOf v o p.status

unfoldable pub left : Option Handler → ℕ
left none = 0
left (some postupgrade) = 1
left (some primary_upgrade_move) = 2
left (some secondary_upgrade) = 3
left (some primary_upgrade) = 4
left (some scaledown) = 5
left (some preupgrade_sync) = 6
left (some preupgrade_scaledown) = 7
left (some preupgrade) = 8

module _ (x : Context) where
  done-cases :
      (h : Handler) (s : State x.client.World)
      → s.instance.status.state ≡ name h
      → (handle x s).0 ≡ ok true
      → ((handle x s).1.instance ≡ gone x h (run_handler x h s).1.instance)
        × ((run_handler x h s).0 ≡ ok true)
  done-cases h s e done =
      let stands : handle x s ≡ run_step x (step_of x h) s = handle_inside x h s e in
      elim (run_step-cases x h s) [
        | inl (r, i, _) ↦ (rw stands i, r)
        | inr (ne, _, r) ↦
            absurd (
              ne
                (sym r ∙ ap (λ (t : Outcome Bool × State x.client.World). t.0) (sym stands) ∙ done))
      ]

  upgrade_version-gone :
      (h : Handler) (p : PatroniPostgres)
      → h ≢ postupgrade
      → (gone x h p).status.upgrade_version ≡ p.status.upgrade_version
  upgrade_version-gone postupgrade p ne = absurd (ne refl)
  upgrade_version-gone _ p ne = refl

  goes_on :
      (v : ℕ) (h : Handler) (s : State x.client.World)
      → h ≢ postupgrade
      → (s.instance.status.state ≡ name h) × (s.instance.status.upgrade_version ≡ v)
      → (handle x s).0 ≡ ok true
      → ((handle x s).1.instance.status.state ≡ state_after h)
        × ((handle x s).1.instance.status.upgrade_version ≡ v)
  goes_on v h s ne (e, u) done =
      let (i, _) = done-cases h s e done in
      (
        ap (λ (p : PatroniPostgres). p.status.state) i
            ∙ state-gone x h (run_handler x h s).1.instance,
        ap (λ (p : PatroniPostgres). p.status.upgrade_version) i
            ∙ upgrade_version-gone h (run_handler x h s).1.instance ne
            ∙ upgrade_version-run_handler x h s
            ∙ u,
      )

  moves :
      (v : ℕ) (s : State x.client.World)
      → Stage v (some primary_upgrade_move) s.instance
      → (handle x s).0 ≡ ok true
      → (handle x s).1.instance.status.version ≡ v
  moves v s (e, u) done =
      let (i, r) = done-cases primary_upgrade_move s e done in
      let w : (run_handler x primary_upgrade_move s).1.instance.status.version
          ≡ s.instance.status.upgrade_version =
        unfold run_handler in (Kept-move x s).1 r in
      ap version_of i ∙ w ∙ u

  ends :
      (v : ℕ) (s : State x.client.World)
      → Stage v (some postupgrade) s.instance
      → (handle x s).0 ≡ ok true
      → Stage v none (handle x s).1.instance
  ends v s (e, u, w) done =
      let (i, _) = done-cases postupgrade s e done in
      (
        ap (λ (p : PatroniPostgres). p.status.state) i,
        ap (λ (p : PatroniPostgres). p.status.upgrade_version) i,
        ap version_of i
            ∙ ap version_of ((Leaves-run_handler_version x postupgrade (λ n. cc)).at s)
            ∙ w,
      )

  pub Stage-handle :
      (v : ℕ) (h : Handler) (s : State x.client.World)
      → Stage v (some h) s.instance
      → (handle x s).0 ≡ ok true
      → Stage v (successor h) (handle x s).1.instance
  Stage-handle v preupgrade s p done = goes_on v preupgrade s (λ e. cc) p done
  Stage-handle v preupgrade_scaledown s p done = goes_on v preupgrade_scaledown s (λ e. cc) p done
  Stage-handle v preupgrade_sync s p done = goes_on v preupgrade_sync s (λ e. cc) p done
  Stage-handle v scaledown s p done = goes_on v scaledown s (λ e. cc) p done
  Stage-handle v primary_upgrade s p done = goes_on v primary_upgrade s (λ e. cc) p done
  Stage-handle v secondary_upgrade s p done = goes_on v secondary_upgrade s (λ e. cc) p done
  Stage-handle v primary_upgrade_move s p done =
      let (e, u) = goes_on v primary_upgrade_move s (λ n. cc) p done in (e, u, moves v s p done)
  Stage-handle v postupgrade s p done = ends v s p done

  waits-instance :
      (h : Handler) (s : State x.client.World)
      → s.instance.status.state ≡ name h
      → (handle x s).0 ≡ ok false
      → (handle x s).1.instance ≡ (run_handler x h s).1.instance
  waits-instance h s e waits =
      let stands : handle x s ≡ run_step x (step_of x h) s = handle_inside x h s e in
      elim (run_step-cases x h s) [
        | inl (_, _, ne) ↦
            absurd (ne (ap (λ (t : Outcome Bool × State x.client.World). t.0) (sym stands) ∙ waits))
        | inr (_, i, _) ↦ rw stands (ap (λ (t : State x.client.World). t.instance) i)
      ]

  stays :
      (v : ℕ) (h : Handler) (s : State x.client.World)
      → (s.instance.status.state ≡ name h) × (s.instance.status.upgrade_version ≡ v)
      → (handle x s).0 ≡ ok false
      → ((handle x s).1.instance.status.state ≡ name h)
        × ((handle x s).1.instance.status.upgrade_version ≡ v)
  stays v h s (e, u) waits =
      let i = waits-instance h s e waits in
      (
        ap (λ (p : PatroniPostgres). p.status.state) i ∙ run_handler-state x h s ∙ e,
        ap (λ (p : PatroniPostgres). p.status.upgrade_version) i
            ∙ upgrade_version-run_handler x h s
            ∙ u,
      )

  -- A call that returns without asking for a requeue leaves what holds when the turn comes.
  pub Stage-waits :
      (v : ℕ) (h : Handler) (s : State x.client.World)
      → Stage v (some h) s.instance
      → (handle x s).0 ≡ ok false
      → Stage v (some h) (handle x s).1.instance
  Stage-waits v preupgrade s p waits = stays v preupgrade s p waits
  Stage-waits v preupgrade_scaledown s p waits = stays v preupgrade_scaledown s p waits
  Stage-waits v preupgrade_sync s p waits = stays v preupgrade_sync s p waits
  Stage-waits v scaledown s p waits = stays v scaledown s p waits
  Stage-waits v primary_upgrade s p waits = stays v primary_upgrade s p waits
  Stage-waits v secondary_upgrade s p waits = stays v secondary_upgrade s p waits
  Stage-waits v primary_upgrade_move s p waits = stays v primary_upgrade_move s p waits
  Stage-waits v postupgrade s (e, u, w) waits =
      let (e', u') = stays v postupgrade s (e, u) waits in
      (
        e',
        u',
        ap version_of (waits-instance postupgrade s e waits)
            ∙ ap version_of ((Leaves-run_handler_version x postupgrade (λ n. cc)).at s)
            ∙ w,
      )

-- So many calls of `Handle`, each done. Each runs in a context of its own, since the image follows
-- the version, and in a world that may have changed in between; the instance is the one before.
pub data Dones (x : Context) : ℕ → State x.client.World → State x.client.World → Type 0 where
  here : {s : State x.client.World} → Dones x 0 s s
  next :
      {n : ℕ} {s t u : State x.client.World} (im : Image)
      → (handle (record x { im = im }) s).0 ≡ ok true
      → t.instance ≡ (handle (record x { im = im }) s).1.instance
      → Dones x n t u
      → Dones x (suc n) s u

pub left-successor : (h : Handler) → left (some h) ≡ suc (left (successor h))
unfolding left
left-successor preupgrade = refl
left-successor preupgrade_scaledown = refl
left-successor preupgrade_sync = refl
left-successor scaledown = refl
left-successor primary_upgrade = refl
left-successor secondary_upgrade = refl
left-successor primary_upgrade_move = refl
left-successor postupgrade = refl

module _ (x : Context) (v : ℕ) where
  climb :
      {n : ℕ} {s t : State x.client.World} (o : Option Handler)
      → Dones x n s t
      → n ≡ left o
      → Stage v o s.instance
      → Stage v none t.instance
  unfolding left
  climb none here e p = p
  climb none (next im r i d) e p = absurd (ground arith)
  climb (some h) here e p = absurd (ground (arith, left-successor h))
  climb (some h) (next {n} {s} {t} im r i d) e p =
      climb (successor h) d (ground (arith, left-successor h))
        (rw i (Stage-handle (record x { im = im }) v h s p r))

  -- From the first state of an upgrade, eight calls of `Handle` that each ask for a requeue, with
  -- whatever changes of the cluster and of the image between them, end the upgrade: the state is
  -- ready, the target is cleared, and the version is the target that the first call was given.
  pub upgrade_completes :
      {s t : State x.client.World}
      → s.instance.status.state ≡ state_upgrade_preupgrade
      → s.instance.status.upgrade_version ≡ v
      → Dones x 8 s t
      → (t.instance.status.state ≡ state_ready)
        × (t.instance.status.upgrade_version ≡ 0)
        × (t.instance.status.version ≡ v)
  unfolding left name
  upgrade_completes e u d = climb (some preupgrade) d refl (e, u)
