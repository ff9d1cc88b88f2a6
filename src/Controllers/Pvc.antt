-- ===== src/Controllers/Pvc.antt =====
-- private/controllers/pvc/pvc.go: one volume claim for each node, and the volume statuses.
pub mod Volumes
pub mod Kept
use patroni_postgres_operato.Base.{
  ℕ, suc, String, ◌<>◌, Bool, List, [], ◌∷◌, ◌++◌, Option, none, some,
}
use patroni_postgres_operato.Base.StringMap.{lookup, insert, erase}
use patroni_postgres_operato.Base.Text.{show}
use patroni_postgres_operato.Exec.{
  Outcome, Error, ok, err, panic, not_found, Exec, pure, modify, ◌>>=◌, ◌>>◌,
}
use patroni_postgres_operato.Kube.{StringDict, ObjectMeta, named, Pvc}
use patroni_postgres_operato.Api.{Node, VolumeStatus, PatroniPostgres, get_access_mode}
use patroni_postgres_operato.Client.{Client, State, background, request, the_instance}
use patroni_postgres_operato.Context.{common_labels, list_option, set_meta}

abbrev pub volume_name : String
volume_name = "pgdata"

unfoldable pub pvc_name : PatroniPostgres → ℕ → String
pvc_name i idx = volume_name <> ("-" <> (i.name <> ("-" <> show idx)))

abbrev pub PvcMap : Type 0
PvcMap = List (String × Pvc)

-- The loop that organises the listed claims in a map; a later one replaces an earlier one.
unfoldable pub by_name : List Pvc → PvcMap → PvcMap
by_name [] m = m
by_name (x ∷ xs) m = by_name xs (insert x.meta.name x m)

unfoldable pub new_pvc : String → Node → Pvc
unfolding get_access_mode
new_pvc name node = record {
  meta = named name;
  access_modes = get_access_mode node ∷ [];
  storage_class_name = some node.storage_class_name;
  requests = [];
  phase = "";
  capacity = [];
}

unfoldable pub volume_status : Pvc → VolumeStatus
volume_status x = record {
  claim_name = x.meta.name;
  phase = x.phase;
  capacity = lookup "storage" x.capacity;
}

abbrev pub set_volume_statuses : List VolumeStatus → PatroniPostgres → PatroniPostgres
set_volume_statuses vs p = record p { status = record p.status { volume_statuses = vs } }

-- `p.Status.VolumeStatuses = append(p.Status.VolumeStatuses, …)`
unfoldable pub add_volume_status : Pvc → PatroniPostgres → PatroniPostgres
unfolding volume_status
add_volume_status x p = set_volume_statuses (p.status.volume_statuses ++ volume_status x ∷ []) p

-- A failed deletion is an error unless the claim is gone already.
unfoldable pub deleted : Outcome (Unit {0}) → Outcome (Unit {0})
deleted (ok _) = ok tt
deleted (err not_found) = ok tt
deleted (err e) = err e
deleted panic = panic

module _ (c : Client) where
  -- What the loop does for the claim of one node: patch the existing one or create it.
  unfoldable pub ensure_pvc : Option Pvc → String → Node → Exec (State c.World) Pvc
  unfolding ◌>>=◌ the_instance request set_meta new_pvc
  ensure_pvc (some orig) name node = do
    p ← the_instance
    m ← set_meta c orig.meta
    request (
        c.patch_pvc (record orig { meta = m; requests = ("storage", p.spec.volume_size) ∷ [] })
          orig)
  ensure_pvc none name node = do
    p ← the_instance
    m ← set_meta c (named name)
    request (
        c.pvcs.create (record (new_pvc name node) {
          meta = m;
          requests = ("storage", p.spec.volume_size) ∷ [];
        }))

  -- The loop over the nodes, from an index; it returns the claims that no node needs.
  unfoldable pub ensure_all : ℕ → List Node → PvcMap → Exec (State c.World) PvcMap
  unfolding ensure_pvc pvc_name add_volume_status modify
  ensure_all idx [] m = pure m
  ensure_all idx (node ∷ nodes) m = do
    p ← the_instance
    let name = pvc_name p idx
    x ← ensure_pvc (lookup name m) name node
    modify (λ s. record s { instance = add_volume_status x s.instance })
    ensure_all (suc idx) nodes (erase name m)

  unfoldable pub delete_all : PvcMap → Exec (State c.World) (Unit {0})
  unfolding ◌>>=◌ request deleted
  delete_all [] = pure tt
  delete_all ((_, x) ∷ m) = do
    request (λ w. let (r, w') = c.pvcs.delete x background w in (deleted r, w'))
    delete_all m

  unfoldable pub reconcile : Exec (State c.World) (Unit {0})
  unfolding ensure_all delete_all by_name common_labels
  reconcile = do
    p ← the_instance
    let lo = list_option p
    listed ← request (c.list_pvcs lo.0 lo.1)
    modify (λ s. record s { instance = set_volume_statuses [] s.instance })
    left ← ensure_all 0 p.spec.nodes (by_name listed [])
    delete_all (c.map_order left)
