-- ===== src/Program/Synced.antt =====
-- The end of the synchronisation of the replicas (cmd/upgrade/preupgrade-sync.go).
use mathlib.Core.Path.{subst}
use patroni_postgres_operato.Base.{
  false, ◌^◌, ltb, ◌≡◌, ◌⊎◌, inl, inr, ap, sym, ◌∙◌, ℕ, suc, zero, ◌+◌, ◌≤◌, String, Bool, true,
  List, [], ◌∷◌, Option, none, some, arith, length, ◌==◌, Bool-cases, if◌then◌else◌,
}
use patroni_postgres_operato.Exec.{api_error, ok, Exec, ◌>>=◌, pure, fail}
use patroni_postgres_operato.Exec.Inversion.{Outcome-cases, bind-ok}
use patroni_postgres_operato.Connection.{Server, connectdb, connectwithhostname, ◌>>?◌}
use patroni_postgres_operato.Exec.Chain.{Chain}
use patroni_postgres_operato.Program.{
  int64_positive, wait_tick, compare_wal, read_replicas, wait_replica, count_synced, wait_replicas,
  wait_replicas_replay_lsn, sync_restore_points,
}

module _ {S A B : Type 0} where
  pub then-some :
      (m : Exec S (Option A)) (k : A → Exec S (Option B)) (s : S) (b : B)
      → ((m >>? k) s).0 ≡ ok (some b)
      → (a : A) × ((m s).0 ≡ ok (some a)) × ((m >>? k) s ≡ k a (m s).1)
  unfolding ◌>>?◌ pure
  then-some m k s b h =
      let next : Option A → Exec S (Option B) = λ o. elim o [ none ↦ pure none | some a ↦ k a ] in
      let (o, r, e) = bind-ok m next s (some b) h in go o r e
    where
      go :
          (o : Option A)
          → (m s).0 ≡ ok o
          → (m >>? k) s
            ≡ elim o as (λ _. Exec S (Option B)) [ none ↦ pure none | some a ↦ k a ] (m s).1
          → (a : A) × ((m s).0 ≡ ok (some a)) × ((m >>? k) s ≡ k a (m s).1)
      go none r e = absurd (ground (arith, e, h))
      go (some a) r e = (a, r, e)

not-positive : (n : ℕ) → int64_positive n ≡ false → (n ≡ 0) ⊎ (2 ^ 63 ≤ n)
not-positive n h = elim (Bool-cases (ltb 0 n)) [
  | inl e ↦ inr (ground (arith, e, h))
  | inr e ↦ inl (ground (arith, e))
]

module _ (v : Server) where
  -- A replica was connected to, it did not lag behind the position, since the difference, an
  -- `int64`, was zero or negative, and then it made a checkpoint.
  abbrev pub Waited : String → String → v.World → v.World → Type 0
  Waited lsn ip s end =
      (t : v.World) × (lag : ℕ) × (u : v.World) × (connectdb v (connectwithhostname ip ∷ []) s
        ≡ (ok tt, t))
      × (v.replay_lag ip lsn t ≡ (ok lag, u))
      × ((lag ≡ 0) ⊎ (2 ^ 63 ≤ lag))
      × (v.checkpoint (some ip) u ≡ (ok tt, end))

  wait_replica-Waited :
      (lsn ip : String) (s end : v.World)
      → wait_replica v ip lsn s ≡ (ok tt, end)
      → Waited lsn ip s end
  unfolding wait_replica
  wait_replica-Waited lsn ip s end h =
      let (_, c, e1) =
        bind-ok (connectdb v (connectwithhostname ip ∷ [])) _ s tt (ap (λ p. p.0) h) in
      let t = (connectdb v (connectwithhostname ip ∷ []) s).1 in
      let (lag, l, e2) = bind-ok (v.replay_lag ip lsn) _ t tt (ap (λ p. p.0) (sym e1 ∙ h)) in
      let u = (v.replay_lag ip lsn t).1 in
      elim (Bool-cases (int64_positive lag)) [
        | inl f ↦ absurd (ground (arith, f, sym e2 ∙ sym e1 ∙ h))
        | inr f ↦ (
          t,
          lag,
          u,
          ap (λ r. (r, t)) c,
          ap (λ r. (r, u)) l,
          not-positive lag f,
          ground (arith, f, sym e2 ∙ sym e1 ∙ h),
        )
      ]

  -- The count is the number of those that were waited for, so it is at most the number of replicas.
  count_synced-bound :
      (lsn : String) (ips : List String) (m n : ℕ) (s : v.World)
      → (count_synced v lsn m ips s).0 ≡ ok n
      → n ≤ m + length ips
  unfolding count_synced pure
  count_synced-bound lsn [] m n s h = ground arith
  count_synced-bound lsn (ip ∷ ips) m n s h =
      let t = (wait_replica v ip lsn s).1 in
      elim (Outcome-cases (wait_replica v ip lsn s).0) [
        | inl (_, w) ↦ ground (arith, w, h, count_synced-bound lsn ips (suc m) n t)
        | inr (inl (_, w)) ↦ ground (arith, w, h, count_synced-bound lsn ips m n t)
        | inr (inr w) ↦ absurd (ground (arith, w, h))
      ]

  count_synced-Chain :
      (lsn : String) (ips : List String) (m n : ℕ) (s end : v.World)
      → count_synced v lsn m ips s ≡ (ok n, end)
      → n ≡ m + length ips
      → Chain (Waited lsn) ips s end
  unfolding count_synced pure
  count_synced-Chain lsn [] m n s end h e = sym (ap (λ p. p.1) h)
  count_synced-Chain lsn (ip ∷ ips) m n s end h e =
      let t = (wait_replica v ip lsn s).1 in
      elim (Outcome-cases (wait_replica v ip lsn s).0) [
        | inl (_, w) ↦ (
          t,
          wait_replica-Waited lsn ip s t (ap (λ r. (r, t)) w),
          count_synced-Chain lsn ips (suc m) n t end (ground (arith, w, h)) (omega (arith, e)),
        )
        | inr (inl (_, w)) ↦ absurd (ground (arith, w, h, e, count_synced-bound lsn ips m n t))
        | inr (inr w) ↦ absurd (ground (arith, w, h))
      ]

  -- The replicas that a query found, as many as there are members, less one.
  abbrev Replicas : List String → String → List String → v.World → Type 0
  Replicas names lsn ips end =
      (s : v.World) × (v.replicas names lsn s ≡ (ok ips, end)) × (suc (length ips) ≡ length names)

  read_replicas-Replicas :
      (polls : ℕ) (names : List String) (lsn : String) (s : v.World) (ips : List String)
      → (read_replicas v polls names lsn s).0 ≡ ok (some ips)
      → Replicas names lsn ips (read_replicas v polls names lsn s).1
  unfolding read_replicas pure
  read_replicas-Replicas zero names lsn s ips h = absurd (ground arith)
  read_replicas-Replicas (suc polls) names lsn s ips h =
      let t = (v.replicas names lsn s).1 in
      let (found, r, e1) = bind-ok (v.replicas names lsn) _ s (some ips) h in
      let h1 = sym (ap (λ p. p.0) e1) ∙ h in
      elim (Bool-cases (suc (length found) == length names)) [
        | inl e ↦ (s, ground (arith, e, r, h1, e1), ground (arith, e, h1))
        | inr e ↦
            let (u, q, l) = read_replicas-Replicas polls names lsn t ips (ground (arith, e, h1)) in
            (u, q ∙ ap (λ w. (ok ips, w)) (ground (arith, e, e1)), l)
      ]

  -- The wait ended in a state: all members but one had been found by a query, and then each of them,
  -- one after the other, was waited for.
  unfoldable pub WaitEnds : List String → String → v.World → Type 0
  WaitEnds names lsn end =
      (ips : List String) × (s : v.World) × Replicas names lsn ips s × Chain (Waited lsn) ips s end

  -- The last turn of the synchronisation, which ended in a state: the position that was read, the
  -- wait for it, and that the primary had not written past it when the wait had ended.
  unfoldable pub SyncEnds : List String → v.World → Type 0
  SyncEnds names end =
      (lsn : String) × (s : v.World) × (t : v.World) × ((v.current_wal_lsn s).0 ≡ ok lsn)
      × WaitEnds names lsn t
      × ((v.wal_increase lsn t).0 ≡ ok 0)
      × (end ≡ (v.wal_increase lsn t).1)

  wait_replicas-Chain :
      (names ips : List String) (lsn : String) (s : v.World)
      → (wait_replicas v names ips lsn s).0 ≡ ok true
      → suc (length ips) ≡ length names
      → Chain (Waited lsn) ips s (wait_replicas v names ips lsn s).1
  unfolding wait_replicas pure
  wait_replicas-Chain names ips lsn s h e =
      let (n, c, e1) = bind-ok (count_synced v lsn 0 ips) _ s true h in
      let t = (count_synced v lsn 0 ips s).1 in
      subst (λ u. Chain (Waited lsn) ips s u) (sym (ap (λ p. p.1) e1))
        (count_synced-Chain lsn ips 0 n s t (ap (λ r. (r, t)) c)
          (ground (arith, sym (ap (λ p. p.0) e1) ∙ h, e)))

  wait_tick-ok :
      (again : Exec v.World (Option (Unit {0}))) (names : List String) (lsn : String)
      (ips : List String) (s : v.World)
      → (wait_tick v again names lsn ips s).0 ≡ ok (some tt)
      → (((wait_replicas v names ips lsn s).0 ≡ ok true)
          × ((wait_tick v again names lsn ips s).1 ≡ (wait_replicas v names ips lsn s).1))
        ⊎ ((t : v.World) × (wait_tick v again names lsn ips s ≡ again t))
  unfolding wait_tick pure
  wait_tick-ok again names lsn ips s h =
      let (synced, w, e1) = bind-ok (wait_replicas v names ips lsn) _ s (some tt) h in
      let t = (wait_replicas v names ips lsn s).1 in
      elim (Bool-cases synced) [
        | inl e ↦ inl (w ∙ ap ok e, ground (arith, e, e1))
        | inr e ↦
            let k = λ (d : Bool). if d then fail (api_error "deadline") else again in
            let e2 : wait_tick v again names lsn ips s ≡ (v.done >>= k) t = ground (arith, e, e1) in
            let (d, _, e3) = bind-ok v.done k t (some tt) (ground (arith, e2, h)) in
            elim (Bool-cases d) [
              | inl f ↦ absurd (ground (arith, e2, f, e3, h))
              | inr f ↦ inr ((v.done t).1, ground (arith, e2, f, e3))
            ]
      ]

  wait_replicas_replay_lsn-WaitEnds :
      (polls ticks : ℕ) (names : List String) (lsn : String) (s : v.World)
      → (wait_replicas_replay_lsn v polls ticks names lsn s).0 ≡ ok (some tt)
      → WaitEnds names lsn (wait_replicas_replay_lsn v polls ticks names lsn s).1
  unfolding wait_replicas_replay_lsn pure WaitEnds
  wait_replicas_replay_lsn-WaitEnds polls zero names lsn s h = absurd (ground arith)
  wait_replicas_replay_lsn-WaitEnds polls (suc ticks) names lsn s h =
      let again = wait_replicas_replay_lsn v polls ticks names lsn in
      let (ips, r, e1) =
        then-some (read_replicas v polls names lsn) (wait_tick v again names lsn) s tt h in
      let t = (read_replicas v polls names lsn s).1 in
      let n = read_replicas-Replicas polls names lsn s ips r in
      elim (wait_tick-ok again names lsn ips t (sym (ap (λ p. p.0) e1) ∙ h)) [
        | inl (w, e2) ↦ (
          ips,
          t,
          n,
          subst (λ u. Chain (Waited lsn) ips t u) (sym (ap (λ p. p.1) e1 ∙ e2))
              (wait_replicas-Chain names ips lsn t w n.2),
        )
        | inr (u, e2) ↦
            let e = e1 ∙ e2 in
            subst (λ end. WaitEnds names lsn end) (sym (ap (λ p. p.1) e))
              (wait_replicas_replay_lsn-WaitEnds polls ticks names lsn u
                (sym (ap (λ p. p.0) e) ∙ h))
      ]

  compare_wal-ok :
      (again : Exec v.World (Option (Unit {0}))) (lsn : String) (s : v.World)
      → (compare_wal v again lsn s).0 ≡ ok (some tt)
      → (((v.wal_increase lsn s).0 ≡ ok 0)
          × ((compare_wal v again lsn s).1 ≡ (v.wal_increase lsn s).1))
        ⊎ ((t : v.World) × (compare_wal v again lsn s ≡ again t))
  unfolding compare_wal pure
  compare_wal-ok again lsn s h =
      let (increase, w, e1) = bind-ok (v.wal_increase lsn) _ s (some tt) h in
      elim (Bool-cases (increase == 0)) [
        | inl e ↦ inl (w ∙ ap ok (ground (arith, e)), ground (arith, e, e1))
        | inr e ↦ inr ((v.wal_increase lsn s).1, ground (arith, e, e1))
      ]

  -- When the replicas have been synchronised, the last turn was one in which a position of the
  -- primary was read, then a query found as many replicas as there are members, less one, each of
  -- which, one after the other, did not lag behind the position and made a checkpoint, and after that
  -- the primary had not written past the position; the state is the one after that last question.
  pub sync_restore_points-SyncEnds :
      (polls ticks turns : ℕ) (names : List String) (s : v.World)
      → (sync_restore_points v polls ticks turns names s).0 ≡ ok (some tt)
      → SyncEnds names (sync_restore_points v polls ticks turns names s).1
  unfolding sync_restore_points pure SyncEnds
  sync_restore_points-SyncEnds polls ticks zero names s h = absurd (ground arith)
  sync_restore_points-SyncEnds polls ticks (suc turns) names s h =
      let again = sync_restore_points v polls ticks turns names in
      let (_, _, e1) = bind-ok (v.checkpoint none) _ s (some tt) h in
      let s1 = (v.checkpoint none s).1 in
      let (lsn, l, e2) =
        bind-ok v.current_wal_lsn
          (λ lsn. wait_replicas_replay_lsn v polls ticks names lsn >>? λ _. compare_wal v again lsn)
          s1 (some tt) (sym (ap (λ p. p.0) e1) ∙ h) in
      let s2 = (v.current_wal_lsn s1).1 in
      let (_, w, e3) =
        then-some (wait_replicas_replay_lsn v polls ticks names lsn) (λ _. compare_wal v again lsn)
          s2 tt (sym (ap (λ p. p.0) (e1 ∙ e2)) ∙ h) in
      let s3 = (wait_replicas_replay_lsn v polls ticks names lsn s2).1 in
      let e = e1 ∙ e2 ∙ e3 in
      elim (compare_wal-ok again lsn s3 (sym (ap (λ p. p.0) e) ∙ h)) [
        | inl (i, e4) ↦ (
          lsn,
          s1,
          s3,
          l,
          wait_replicas_replay_lsn-WaitEnds polls ticks names lsn s2 w,
          i,
          ap (λ p. p.1) e ∙ e4,
        )
        | inr (u, e4) ↦
            let f = e ∙ e4 in
            let (pos, t0, t1, q, a, z, g) =
              sync_restore_points-SyncEnds polls ticks turns names u (sym (ap (λ p. p.0) f) ∙ h) in
            (pos, t0, t1, q, a, z, ap (λ p. p.1) f ∙ g)
      ]
