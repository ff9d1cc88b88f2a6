-- ===== src/Upgrade/Copies.antt =====
-- The jobs of the copies of the other members: one for each volume but the leader's
-- (private/upgrade/secondary.go and secondary-client.go).
use mathlib.Core.Path.{subst}
use patroni_postgres_operato.Base.{
  sym, ◌∙◌, zero, false, Option, Option-cases, none, some, ◌⊎◌, refl, ◌≡◌, inl, inr, ap, ℕ, List,
  [], ◌∷◌, arith, ◌==◌, suc, ◌+◌, ◌<◌, String,
}
use patroni_postgres_operato.Exec.{Exec, ok, ◌>>=◌, pure}
use patroni_postgres_operato.Exec.Inversion.{bind-ok}
use patroni_postgres_operato.Kube.{Job, StatefulSet, ObjectMeta, named}
use patroni_postgres_operato.Api.{PatroniPostgres, VolumeStatus}
use patroni_postgres_operato.Client.{State, request, find, the_instance}
use patroni_postgres_operato.Context.{Context, set_meta}
use patroni_postgres_operato.Upgrade.Jobs.{job_key}
use patroni_postgres_operato.Controllers.Configmap.{get_secondary_stream_args}
use patroni_postgres_operato.Controllers.Configmap.Frame.{Leaves-get_secondary_stream_args}
use patroni_postgres_operato.Upgrade.Secondaries as Secondaries

-- Volumes with their indices, from an index.
abbrev numbered : ℕ → List VolumeStatus → List (ℕ × VolumeStatus)
numbered idx [] = []
numbered idx (v ∷ vs) = (idx, v) ∷ numbered (suc idx) vs

-- The volumes with their indices, from an index, without the one after so many of them.
abbrev pub without : ℕ → ℕ → List VolumeStatus → List (ℕ × VolumeStatus)
without l idx [] = []
without zero idx (v ∷ vs) = numbered (suc idx) vs
without (suc l) idx (v ∷ vs) = (idx, v) ∷ without l (suc idx) vs

pair_of : {A B : Type 0} {a : A} {b : B} {p : A × B} → p.0 ≡ a → p.1 ≡ b → p ≡ (a, b)
pair_of e f = cc

module _ (x : Context) where
  -- The job of a member was found under the key of its index, or it was created for the claim of its
  -- volume, to copy from the primary.
  abbrev pub JobOf :
      String
      → String × String
      → ℕ × VolumeStatus
      → State x.client.World
      → Job
      → State x.client.World
      → Type 0
  JobOf primary args (idx, volume) s job end =
      let name = Secondaries.jobname s.instance idx in
      (o : Option Job) × (t : State x.client.World) × (find x.client.jobs (job_key s.instance name)
          s
        ≡ (ok o, t))
      × (((o ≡ some job) × (end ≡ t))
          ⊎ ((o ≡ none)
              × (m : ObjectMeta) × ((set_meta x.client (named name) t).0 ≡ ok m)
              × (request
                    (x.client.jobs.create
                      (Secondaries.secondary_job x s.instance primary args volume.claim_name m))
                    t
                  ≡ (ok job, end))))

  ensure_client-JobOf :
      (primary : String) (args : String × String) (idx : ℕ) (volume : VolumeStatus)
      (s : State x.client.World) (job : Job)
      → (Secondaries.ensure_client x primary args idx volume s).0 ≡ ok job
      → JobOf primary args
          (idx, volume)
          s
          job
          (Secondaries.ensure_client x primary args idx volume s).1
  unfolding Secondaries.ensure_client the_instance pure
  ensure_client-JobOf primary args idx volume s job h =
      let p = s.instance in
      let name = Secondaries.jobname p idx in
      let create : ObjectMeta → Exec (State x.client.World) Job = λ m.
        request
          (x.client.jobs.create (Secondaries.secondary_job x p primary args volume.claim_name m)) in
      let k : Option Job → Exec (State x.client.World) Job =
        λ o. elim o [ some job ↦ pure job | none ↦ (set_meta x.client (named name) >>= create) ] in
      let (o, r, e) = bind-ok (find x.client.jobs (job_key p name)) k s job h in
      let t = (find x.client.jobs (job_key p name) s).1 in
      elim (Option-cases o) [
        | inr (found, f) ↦
            let g = e ∙ ap (λ a. k a t) f in
            (
              o,
              t,
              ap (λ a. (a, t)) r,
              inl (f ∙ ap some (ground (arith, sym (ap (λ q. q.0) g) ∙ h)), ap (λ q. q.1) g),
            )
        | inl f ↦
            let g = e ∙ ap (λ a. k a t) f in
            let (m, n, d) =
              bind-ok (set_meta x.client (named name)) create t job (sym (ap (λ q. q.0) g) ∙ h) in
            (
              o,
              t,
              ap (λ a. (a, t)) r,
              inr (
                f,
                m,
                n,
                pair_of (sym (ap (λ q. q.0) (g ∙ d)) ∙ h) (sym (ap (λ q. q.1) (g ∙ d))),
              ),
            )
      ]

  -- The jobs of the volumes, one for each, in order.
  abbrev pub JobsOf :
      String
      → String × String
      → List (ℕ × VolumeStatus)
      → List Job
      → State x.client.World
      → State x.client.World
      → Type 0
  JobsOf primary args [] jobs s end = (jobs ≡ []) × (end ≡ s)
  JobsOf primary args (member ∷ members) jobs s end =
      (job : Job) × (rest : List Job) × (t : State x.client.World) × (jobs ≡ job ∷ rest)
      × JobOf primary args member s job t
      × JobsOf primary args members rest t end

  next_job :
      (vs : List VolumeStatus) (v : VolumeStatus) (primary : String) (args : String × String)
      (leader idx : ℕ) (s : State x.client.World) (jobs : List Job)
      (members : List (ℕ × VolumeStatus))
      → (idx == leader) ≡ false
      → (Secondaries.ensure_clients x primary args leader idx (v ∷ vs) s).0 ≡ ok jobs
      → ((rest : List Job) (t : State x.client.World)
          → (Secondaries.ensure_clients x primary args leader (suc idx) vs t).0 ≡ ok rest
          → JobsOf primary args members rest t
              (Secondaries.ensure_clients x primary args leader (suc idx) vs t).1)
      → JobsOf primary args
          ((idx, v) ∷ members)
          jobs
          s
          (Secondaries.ensure_clients x primary args leader idx (v ∷ vs) s).1
  unfolding Secondaries.ensure_clients pure
  next_job vs v primary args leader idx s jobs members ne h ih =
      let again = Secondaries.ensure_clients x primary args leader (suc idx) vs in
      let k : Job → Exec (State x.client.World) (List Job) =
        λ job. again >>= λ jobs. pure (job ∷ jobs) in
      let one = Secondaries.ensure_client x primary args idx v in
      let e0 : Secondaries.ensure_clients x primary args leader idx (v ∷ vs) s ≡ (one >>= k) s =
        ground (arith, ne) in
      let (job, r, e1) = bind-ok one k s jobs (sym (ap (λ p. p.0) e0) ∙ h) in
      let t = (one s).1 in
      let (rest, q, e2) =
        bind-ok again (λ jobs. pure (job ∷ jobs)) t jobs (sym (ap (λ p. p.0) (e0 ∙ e1)) ∙ h) in
      let e = e0 ∙ e1 ∙ e2 in
      (
        job,
        rest,
        t,
        ground (arith, sym (ap (λ p. p.0) e) ∙ h),
        ensure_client-JobOf primary args idx v s job r,
        subst (λ end. JobsOf primary args members rest t end) (sym (ap (λ p. p.1) e)) (ih rest t q),
      )

  ensure_clients-after :
      (vs : List VolumeStatus) (primary : String) (args : String × String) (leader idx : ℕ)
      → leader < idx
      → (jobs : List Job) (s : State x.client.World)
      → (Secondaries.ensure_clients x primary args leader idx vs s).0 ≡ ok jobs
      → JobsOf primary args
          (numbered idx vs)
          jobs
          s
          (Secondaries.ensure_clients x primary args leader idx vs s).1
  unfolding Secondaries.ensure_clients pure
  ensure_clients-after [] primary args leader idx lt jobs s h = (ground (arith, h), refl)
  ensure_clients-after (v ∷ vs) primary args leader idx lt jobs s h =
      next_job vs v primary args leader idx s jobs (numbered (suc idx) vs) (ground (arith, lt)) h
        (ensure_clients-after vs primary args leader (suc idx) (omega (arith, lt)))

  ensure_clients-without :
      (vs : List VolumeStatus) (primary : String) (args : String × String) (l leader idx : ℕ)
      → leader ≡ idx + l
      → (jobs : List Job) (s : State x.client.World)
      → (Secondaries.ensure_clients x primary args leader idx vs s).0 ≡ ok jobs
      → JobsOf primary args
          (without l idx vs)
          jobs
          s
          (Secondaries.ensure_clients x primary args leader idx vs s).1
  unfolding Secondaries.ensure_clients pure
  ensure_clients-without [] primary args l leader idx e jobs s h = (ground (arith, h), refl)
  ensure_clients-without (v ∷ vs) primary args zero leader idx e jobs s h =
      let f : Secondaries.ensure_clients x primary args leader idx (v ∷ vs) s
          ≡ Secondaries.ensure_clients x primary args leader (suc idx) vs s =
        ground (arith, e) in
      subst (λ end. JobsOf primary args (numbered (suc idx) vs) jobs s end) (sym (ap (λ p. p.1) f))
        (ensure_clients-after vs primary args leader (suc idx) (omega (arith, e)) jobs s
          (sym (ap (λ p. p.0) f) ∙ h))
  ensure_clients-without (v ∷ vs) primary args (suc l) leader idx e jobs s h =
      next_job vs v primary args leader idx s jobs (without l (suc idx) vs) (ground (arith, e)) h
        (ensure_clients-without vs primary args l leader (suc idx) (omega (arith, e)))

  -- When the jobs of the other members are returned, the arguments of the copies were read, and then,
  -- for the volumes but the leader's, each with its index and in order, one job was found under the
  -- key of the index, or created with those arguments for the claim of the volume.
  pub ensure_secondary_clients-JobsOf :
      (leader : ℕ) (sts : StatefulSet) (s : State x.client.World) (jobs : List Job)
      → (Secondaries.ensure_secondary_clients x leader sts s).0 ≡ ok jobs
      → (args : String × String) × ((get_secondary_stream_args x.client s).0 ≡ ok args)
        × JobsOf sts.meta.name args
            (without leader 0 s.instance.status.volume_statuses)
            jobs
            (get_secondary_stream_args x.client s).1
            (Secondaries.ensure_secondary_clients x leader sts s).1
  unfolding Secondaries.ensure_secondary_clients the_instance
  ensure_secondary_clients-JobsOf leader sts s jobs h =
      let (args, r, f) = bind-ok (get_secondary_stream_args x.client) _ s jobs h in
      let t = (get_secondary_stream_args x.client s).1 in
      let e : t.instance.status.volume_statuses ≡ s.instance.status.volume_statuses =
        (Leaves-get_secondary_stream_args x.client
            {f = λ (p : PatroniPostgres). p.status.volume_statuses}).at
          s in
      (
        args,
        r,
        subst
            (λ (vs : List VolumeStatus).
              JobsOf sts.meta.name args (without leader 0 vs) jobs t
                (Secondaries.ensure_secondary_clients x leader sts s).1)
            e
            (subst
              (λ end.
                JobsOf sts.meta.name args (without leader 0 t.instance.status.volume_statuses) jobs
                  t end)
              (sym (ap (λ p. p.1) f))
              (ensure_clients-without t.instance.status.volume_statuses sts.meta.name args leader
                leader 0 (omega arith) jobs t (sym (ap (λ p. p.0) f) ∙ h))),
      )
