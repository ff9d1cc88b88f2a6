-- ===== src/Tests/ClusterExamples.antt =====
-- The theorems about the loop over the reconcilers, applied to a cluster that keeps what it is sent.
use patroni_postgres_operato.Base.{[]}
use patroni_postgres_operato.Client.{State}
use patroni_postgres_operato.Context.{Context}
use patroni_postgres_operato.Controllers.Pvc as Pvcs
use patroni_postgres_operato.Controllers.Secret as Secrets
use patroni_postgres_operato.Controllers.Configmap as Configmaps
use patroni_postgres_operato.Controllers.Rbac as Rbacs
use patroni_postgres_operato.Controllers.Service as Services
use patroni_postgres_operato.Controllers.Statefulset as Statefulsets
use patroni_postgres_operato.Controllers.Networkpolicy as Networkpolicys
use patroni_postgres_operato.Controllers.Pdb as Pdbs
use patroni_postgres_operato.Controllers.Installed.{Installed}
use patroni_postgres_operato.Tests as Tests
use patroni_postgres_operato.Tests.{one_member}
use patroni_postgres_operato.Tests.Cluster.{Log, keeping}

abbrev at_work : Context
at_work = record Tests.context { client = keeping }

abbrev empty : Log
empty = record {
  cms = [];
  accs = [];
  rls = [];
  binds = [];
  srvs = [];
  pols = [];
  budgets = [];
  sets = [];
}

abbrev begin : State Log
begin = record { world = empty; instance = one_member "scaling" 15 0 }
