-- ===== src/Tests/ContractExamples.antt =====
-- The operator's jobs and their program: a reader of flags that does as it is documented, and the
-- theorems applied to a job of the small cluster.
use patroni_postgres_operato.Base.{
  ◌≡◌, refl, ℕ, String, Bool, false, List, Option, none, some, arith, length, str_eq, eq_iff, ◌&&◌,
  ◌==◌, if◌then◌else◌,
}
use patroni_postgres_operato.Base.Text.{scan_int}
use patroni_postgres_operato.Base.Text.Digits.{scan_int-show}
use patroni_postgres_operato.Exec.{ok, err, json_error}
use patroni_postgres_operato.Kube.{EnvVar, EnvValue, value, field_ref, secret_key_ref}
use patroni_postgres_operato.Api.{PatroniPostgres}
use patroni_postgres_operato.Results.{Config}
use patroni_postgres_operato.Client.{Client, Json}
use patroni_postgres_operato.Upgrade.Jobs.{preupgrade_sync_job, db_port}
use patroni_postgres_operato.Upgrade.Ports.{find_env}
use patroni_postgres_operato.Upgrade.Logs.{job_log, get_initdb_args_from_job}
use patroni_postgres_operato.Connection.{Flags, connectdb}
use patroni_postgres_operato.Program.Preupgrade.{read_config, preupgrade_output}
use patroni_postgres_operato.Program.Main.{main}
use patroni_postgres_operato.Program.Contract.{
  ReadsEnv, program_of, is_sync, job_env, main-job, Answers, get_initdb_args_from_job-printed,
}
use patroni_postgres_operato.Tests.{json, client, two_members, won_job, at_state}
use patroni_postgres_operato.Tests.ProgramExamples.{server, no_flags}

abbrev text_of : EnvValue → String
text_of (value t) = t
text_of (field_ref _) = ""
text_of (secret_key_ref _ _) = ""

abbrev from_env : String → String → List EnvVar → String
from_env n default es = elim (find_env n es) [ none ↦ default | some v ↦ text_of v ]

abbrev number : String → ℕ → List EnvVar → ℕ
number n default es = elim (scan_int (from_env n "" es)) [ none ↦ default | some k ↦ k ]

abbrev set_in : Option EnvValue → Bool
set_in none = false
set_in (some v) = str_eq (text_of v) "true"

abbrev flags_of : List EnvVar → Flags
flags_of es = record {
  dbhost = from_env "DBHOST" "" es;
  dbport = number "DBPORT" 5432 es;
  dbuser = from_env "DBUSER" "postgres" es;
  dbpassword = from_env "DBPASSWORD" "" es;
  dbname = from_env "DBNAME" "postgres" es;
  mode = from_env "MODE" "" es;
  cluster_name = from_env "CLUSTER_NAME" "" es;
  cluster_size = number "CLUSTER_SIZE" 0 es;
  pause = set_in (find_env "PAUSE" es);
}

abbrev parse : List EnvVar → Option Flags
parse es = some (flags_of es)

parse-ReadsEnv : ReadsEnv parse
parse-ReadsEnv = record {
  dbhost = λ es f t h e. ground (arith, h, e);
  dbport = λ es f n h e k. ground (arith, h, e, scan_int-show n k);
  mode = λ es f t h e. ground (arith, h, e);
  cluster_name = λ es f t h e. ground (arith, h, e);
  cluster_size = λ es f n h e k. ground (arith, h, e, scan_int-show n k);
  pause = λ es f h e. ground (arith, h, e, eq_iff "true" "true");
  pause_default = λ es f h e. ground (arith, h, e);
}

abbrev instance : PatroniPostgres
instance = two_members "upgrade-preupgrade-sync" 15 17

main-job_example :
    let v = server (flags_of (job_env instance preupgrade_sync_job)) in
    (main v json (record { attempts = 1; polls = 1; ticks = 1; turns = 1 })
      ≡ program_of v json
          (record { attempts = 1; polls = 1; ticks = 1; turns = 1 })
          preupgrade_sync_job)
    × (v.flags.dbhost ≡ instance.name)
    × (v.flags.dbport ≡ db_port preupgrade_sync_job)
    × (v.flags.cluster_name ≡ instance.name)
    × (v.flags.cluster_size ≡ length instance.status.volume_statuses)
    × (v.flags.pause ≡ is_sync preupgrade_sync_job)
main-job_example =
    main-job (server (flags_of (job_env instance preupgrade_sync_job))) json
      (record { attempts = 1; polls = 1; ticks = 1; turns = 1 }) parse parse-ReadsEnv instance
      preupgrade_sync_job refl (omega arith)

-- Only the configuration of the small database can be written.
abbrev writes : Config → Bool
writes c =
    str_eq c.locale "C"
    && (str_eq c.encoding "UTF8" && (c.data_checksums && c.max_prepared_transactions == 0))

abbrev small_json : Json
small_json = record json { marshal_config = λ c. if writes c then ok "{}" else err json_error }

abbrev small_client : Client
small_client = record client { json = small_json }

small_json-law :
    (c : Config) (t : String)
    → small_json.marshal_config c ≡ ok t
    → small_json.unmarshal_config t ≡ some c
small_json-law c t h = ground (arith, h, eq_iff c.locale "C", eq_iff c.encoding "UTF8")

printed : (preupgrade_output (server no_flags) small_json 0).0 ≡ ok "{}"
unfolding preupgrade_output read_config connectdb
printed = refl

logged : (job_log small_client won_job (at_state instance)).0 ≡ ok "{}"
unfolding job_log
logged = refl

get_initdb_args_from_job-printed_example :
    (config : Config) × Answers (server no_flags) 0 config
    × ((get_initdb_args_from_job small_client won_job (at_state instance)).0 ≡ ok config)
get_initdb_args_from_job-printed_example =
    get_initdb_args_from_job-printed (server no_flags) small_client won_job 0 (at_state instance)
      "{}" small_json-law printed logged
