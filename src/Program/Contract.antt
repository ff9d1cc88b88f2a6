-- ===== src/Program/Contract.antt =====
-- The operator's jobs and the program that runs in them: the flags that the environment of a job
-- gives (private/upgrade/common.go, cmd/upgrade/main.go), and the configuration that one prints and
-- the other reads (cmd/upgrade/preupgrade.go, private/upgrade/preupgrade.go).
use patroni_postgres_operato.Base.{
  ◌≡◌, refl, ap, ℕ, ◌^◌, ◌<◌, String, Bool, true, false, List, [], Option, none, some, arith,
  length,
}
use patroni_postgres_operato.Base.Text.{show}
use patroni_postgres_operato.Exec.{ok, Exec, lift, pure}
use patroni_postgres_operato.Exec.Inversion.{then-ok}
use patroni_postgres_operato.Kube.{EnvVar, value, Job}
use patroni_postgres_operato.Api.{PatroniPostgres}
use patroni_postgres_operato.Client.{Client, Json, State}
use patroni_postgres_operato.Results.{Config}
use patroni_postgres_operato.Upgrade.Jobs.{
  UpgradeJob, preupgrade_job, preupgrade_sync_job, postupgrade_job, mode, db_port, customize_env,
  upgrade_env,
}
use patroni_postgres_operato.Upgrade.Logs.{job_log, get_initdb_args_from_job}
use patroni_postgres_operato.Upgrade.Ports.{find_env}
use patroni_postgres_operato.Connection.{Flags, Server, connectdb}
use patroni_postgres_operato.Program.Preupgrade.{read_config, preupgrade_output, preupgrade_fn}
use patroni_postgres_operato.Program.Postupgrade.{postupgrade_fn}
use patroni_postgres_operato.Program.Main.{Bounds, ends, synchronise, main}

-- What namsral/flag documents: a flag that is not on the command line has the value of the
-- environment variable of its name in capitals, and else its default. Of the numbers only decimals
-- without leading zeros are asked for, which are read the same in every notation that is accepted.
pub record ReadsEnv (parse : List EnvVar → Option Flags) : Type 0 where
  pub dbhost :
      (es : List EnvVar) (f : Flags) (t : String)
      → parse es ≡ some f
      → find_env "DBHOST" es ≡ some (value t)
      → f.dbhost ≡ t
  pub dbport :
      (es : List EnvVar) (f : Flags) (n : ℕ)
      → parse es ≡ some f
      → find_env "DBPORT" es ≡ some (value (show n))
      → n < 2 ^ 63
      → f.dbport ≡ n
  pub mode :
      (es : List EnvVar) (f : Flags) (t : String)
      → parse es ≡ some f
      → find_env "MODE" es ≡ some (value t)
      → f.mode ≡ t
  pub cluster_name :
      (es : List EnvVar) (f : Flags) (t : String)
      → parse es ≡ some f
      → find_env "CLUSTER_NAME" es ≡ some (value t)
      → f.cluster_name ≡ t
  pub cluster_size :
      (es : List EnvVar) (f : Flags) (n : ℕ)
      → parse es ≡ some f
      → find_env "CLUSTER_SIZE" es ≡ some (value (show n))
      → n < 2 ^ 63
      → f.cluster_size ≡ n
  pub pause :
      (es : List EnvVar) (f : Flags)
      → parse es ≡ some f
      → find_env "PAUSE" es ≡ some (value "true")
      → f.pause ≡ true
  pub pause_default :
      (es : List EnvVar) (f : Flags)
      → parse es ≡ some f
      → find_env "PAUSE" es ≡ none
      → f.pause ≡ false

-- The program that is meant for a job.
abbrev pub program_of : (v : Server) → Json → Bounds → UpgradeJob → Exec v.World (Option (Unit {0}))
program_of v json b preupgrade_job = ends v json b (preupgrade_fn v json)
program_of v json b preupgrade_sync_job = synchronise v json b
program_of v json b postupgrade_job = ends v json b (postupgrade_fn v)

abbrev pub is_sync : UpgradeJob → Bool
is_sync preupgrade_sync_job = true
is_sync _ = false

-- The environment of a job that the operator makes.
abbrev pub job_env : PatroniPostgres → UpgradeJob → List EnvVar
job_env p j = customize_env j (upgrade_env p j)

module _ (v : Server) (json : Json) (b : Bounds) where
  main-mode : (j : UpgradeJob) → v.flags.mode ≡ mode j → main v json b ≡ program_of v json b j
  unfolding main mode
  main-mode preupgrade_job e = rw e refl
  main-mode preupgrade_sync_job e = rw e refl
  main-mode postupgrade_job e = rw e refl

  module _ (parse : List EnvVar → Option Flags) (reads : ReadsEnv parse) (p : PatroniPostgres) where
    -- A job of the operator, started with the flags that its environment gives, runs the program
    -- that is meant for it, against the database of the instance on the port that the step uses,
    -- with the name and the number of the members, and pauses the cluster exactly if it
    -- synchronises. The number of the members must fit in an `int`.
    pub main-job :
        (j : UpgradeJob)
        → parse (job_env p j) ≡ some v.flags
        → length p.status.volume_statuses < 2 ^ 63
        → (main v json b ≡ program_of v json b j)
          × (v.flags.dbhost ≡ p.name)
          × (v.flags.dbport ≡ db_port j)
          × (v.flags.cluster_name ≡ p.name)
          × (v.flags.cluster_size ≡ length p.status.volume_statuses)
          × (v.flags.pause ≡ is_sync j)
    unfolding customize_env upgrade_env find_env mode db_port
    main-job preupgrade_job h lt = (
      main-mode preupgrade_job (reads.mode _ _ _ h refl),
      reads.dbhost _ _ _ h refl,
      reads.dbport _ _ 5432 h refl (omega arith),
      reads.cluster_name _ _ _ h refl,
      reads.cluster_size _ _ (length p.status.volume_statuses) h refl lt,
      reads.pause_default _ _ h refl,
    )
    main-job preupgrade_sync_job h lt = (
      main-mode preupgrade_sync_job (reads.mode _ _ _ h refl),
      reads.dbhost _ _ _ h refl,
      reads.dbport _ _ 55432 h refl (omega arith),
      reads.cluster_name _ _ _ h refl,
      reads.cluster_size _ _ (length p.status.volume_statuses) h refl lt,
      reads.pause _ _ h refl,
    )
    main-job postupgrade_job h lt = (
      main-mode postupgrade_job (reads.mode _ _ _ h refl),
      reads.dbhost _ _ _ h refl,
      reads.dbport _ _ 5432 h refl (omega arith),
      reads.cluster_name _ _ _ h refl,
      reads.cluster_size _ _ (length p.status.volume_statuses) h refl lt,
      reads.pause_default _ _ h refl,
    )

module _ (v : Server) where
  -- What the queries of `preupgradefn` answer, one after the other, on a connection to the primary.
  abbrev pub Answers : v.World → Config → Type 0
  Answers s config =
      (t : v.World) × (u : v.World) × (w : v.World) × (connectdb v [] s ≡ (ok tt, t))
      × (v.show_lc_collate t ≡ (ok config.locale, u))
      × (v.show_server_encoding u ≡ (ok config.encoding, w))
      × ((v.current_settings w).0 ≡ ok (config.data_checksums, config.max_prepared_transactions))

  read_config-Answers :
      (s : v.World) (config : Config) → (read_config v s).0 ≡ ok config → Answers s config
  unfolding read_config pure
  read_config-Answers s config h =
      let (_, r, h1) = then-ok (connectdb v []) _ s config h in
      let t = (connectdb v [] s).1 in
      let (locale, l, h2) = then-ok v.show_lc_collate _ t config h1 in
      let u = (v.show_lc_collate t).1 in
      let (encoding, e, h3) = then-ok v.show_server_encoding _ u config h2 in
      let w = (v.show_server_encoding u).1 in
      let (settings, q, h4) = then-ok v.current_settings _ w config h3 in
      (
        t,
        u,
        w,
        ap (λ o. (o, t)) r,
        ap (λ o. (o, u)) (ground (arith, l, h4)),
        ap (λ o. (o, w)) (ground (arith, e, h4)),
        ground (arith, q, h4),
      )

-- What the program prints before the last upgrade job is done is what the operator takes from the
-- log of the job: when the log ends in the text that was printed, and encoding/json reads back what
-- it wrote, the operator has the locale, the encoding, whether there are checksums, and the number of
-- prepared transactions, each as the query for it answered.
pub get_initdb_args_from_job-printed :
    (v : Server) (c : Client) (job : Job) (s : v.World) (o : State c.World) (text : String)
    → ((config : Config) (t : String)
        → c.json.marshal_config config ≡ ok t
        → c.json.unmarshal_config t ≡ some config)
    → (preupgrade_output v c.json s).0 ≡ ok text
    → (job_log c job o).0 ≡ ok text
    → (config : Config) × Answers v s config × ((get_initdb_args_from_job c job o).0 ≡ ok config)
unfolding preupgrade_output get_initdb_args_from_job
get_initdb_args_from_job-printed v c job s o text law h g =
    let (config, r, k) =
      then-ok (read_config v) (λ config. lift (c.json.marshal_config config)) s text h in
    (config, read_config-Answers v s config r, ground (arith, g, law config text, k))
