-- ===== src/Controllers/Configmap/Annotations.antt =====
-- What is read back from the annotations of the config maps after it was written.
use patroni_postgres_operato.Base.{
  ◌≡◌, ap, sym, ◌∙◌, String, none, some, arith, Option-cases, inl, inr,
}
use patroni_postgres_operato.Base.StringMap.{erase}
use patroni_postgres_operato.Exec.{
  Outcome, ok, err, ◌>>=◌, no_config_annotation, json_error, no_latest_checkpoint_location_found,
}
use patroni_postgres_operato.Exec.Inversion.{bind-ok, then-demand, then-require}
use patroni_postgres_operato.Kube.{ConfigMap}
use patroni_postgres_operato.Client.{Client, NamespacedName, State, request, IsStore}
use patroni_postgres_operato.Controllers.Configmap.Frame.{Leaves-get_config_cm}
use patroni_postgres_operato.Controllers.Configmap.{
  cm_key, annotation, annotate, drop_annotation, get_config_cm, get_db_id, set_db_id,
  get_primary_initdb_args, set_primary_initdb_args, clear_upgrade_annotations,
  get_secondary_stream_args,
}
use patroni_postgres_operato.Controllers.Configmap.Entries.{
  same_key, same_annotation, annotation-annotate, key-annotate, key-drop, annotation-drop,
}

module _ (c : Client) where
  read_db_id :
      (cm : ConfigMap) (s : State c.World) (id : String)
      → (get_config_cm c s).0 ≡ ok cm
      → annotation "initialize" cm ≡ some id
      → (get_db_id c s).0 ≡ ok id
  unfolding get_db_id ◌>>=◌
  read_db_id cm s id r a = ground (arith, r, a)

  read_primary_initdb_args :
      (cm : ConfigMap) (s : State c.World) (args : String)
      → (get_config_cm c s).0 ≡ ok cm
      → annotation "primary-initdb-args" cm ≡ some args
      → (get_primary_initdb_args c s).0 ≡ ok args
  unfolding get_primary_initdb_args ◌>>=◌
  read_primary_initdb_args cm s args r a = ground (arith, r, a)

  get_config_cm-instance : (s : State c.World) → (get_config_cm c s).1.instance ≡ s.instance
  get_config_cm-instance s = (Leaves-get_config_cm c {f = λ p. p}).at s

  get_config_cm-get :
      (s : State c.World) (cm : ConfigMap)
      → (get_config_cm c s).0 ≡ ok cm
      → c.configmaps.get (cm_key s.instance "config") s.world ≡ (ok cm, (get_config_cm c s).1.world)
  unfolding get_config_cm
  get_config_cm-get s cm h =
      ap (λ (r : Outcome ConfigMap). (r, (c.configmaps.get (cm_key s.instance "config") s.world).1))
        h

  read_primary_initdb_args_none :
      (cm : ConfigMap) (s : State c.World)
      → (get_config_cm c s).0 ≡ ok cm
      → annotation "primary-initdb-args" cm ≡ none
      → (get_primary_initdb_args c s).0 ≡ ok ""
  unfolding get_primary_initdb_args ◌>>=◌
  read_primary_initdb_args_none cm s r a = ground (arith, r, a)

  read_secondary_stream_args_none :
      (cm : ConfigMap) (s : State c.World) (id : String)
      → (get_config_cm c s).0 ≡ ok cm
      → annotation "initialize" cm ≡ some id
      → annotation "latest-checkpoint-location" cm ≡ none
      → (get_secondary_stream_args c s).0 ≡ err no_latest_checkpoint_location_found
  unfolding get_secondary_stream_args ◌>>=◌
  read_secondary_stream_args_none cm s id r i a = ground (arith, r, a, i)

  db_id-annotation :
      (cm : ConfigMap) (s : State c.World) (id : String)
      → (get_config_cm c s).0 ≡ ok cm
      → (get_db_id c s).0 ≡ ok id
      → annotation "initialize" cm ≡ some id
  unfolding get_db_id ◌>>=◌
  db_id-annotation cm s id r h = elim (Option-cases (annotation "initialize" cm)) [
    | inl e ↦ absurd (ground (arith, e, r, h))
    | inr (a, e) ↦ ground (arith, e, r, h)
  ]

module _ (c : Client) (store : IsStore (λ (cm : ConfigMap). cm.meta) c.configmaps) where
  -- A config map that was read, changed and written: what is read next is what was written.
  updated :
      (s : State c.World) (cm cm2 b : ConfigMap)
      → (get_config_cm c s).0 ≡ ok cm
      → cm2.meta.name ≡ cm.meta.name
      → cm2.meta.namespace ≡ cm.meta.namespace
      → (request (c.configmaps.update cm2) (get_config_cm c s).1).0 ≡ ok b
      → ((get_config_cm c (request (c.configmaps.update cm2) (get_config_cm c s).1).1).0 ≡ ok b)
        × ((j : String) → annotation j b ≡ annotation j cm2)
  unfolding get_config_cm
  updated s cm cm2 b r n m u =
      let w : c.World = (get_config_cm c s).1.world in
      let upd : c.configmaps.update cm2 w ≡ (ok b, (c.configmaps.update cm2 w).1) =
        ap (λ (r : Outcome ConfigMap). (r, (c.configmaps.update cm2 w).1)) u in
      let (kn, km) =
        store.get_key (cm_key s.instance "config") cm s.world w (get_config_cm-get c s cm r) in
      (
        ap (λ (k : NamespacedName). (c.configmaps.get k (c.configmaps.update cm2 w).1).0)
              (same_key _ _ (sym (m ∙ kn)) (sym (n ∙ km)))
            ∙ store.get_updated cm2 b w (c.configmaps.update cm2 w).1 upd,
        λ j.
            same_annotation b cm2 j
              (store.keeps_annotations cm2 b w (c.configmaps.update cm2 w).1 upd),
      )

  -- With a store, the identifier of the database that was set is the one that is read next.
  pub set_db_id-get_db_id :
      (dbid : String) (s : State c.World)
      → (set_db_id c dbid s).0 ≡ ok tt
      → (get_db_id c (set_db_id c dbid s).1).0 ≡ ok dbid
  unfolding set_db_id
  set_db_id-get_db_id dbid s h =
      let (cm, r, e0) = bind-ok (get_config_cm c) _ s tt h in
      let t = (get_config_cm c s).1 in
      let h1 = sym (ap (λ (o : Outcome (Unit {0}) × State c.World). o.0) e0) ∙ h in
      let (cm1, a1, e1, h2) = then-demand (annotate "initialize" dbid cm) _ t tt h1 in
      let (configs, _, e2, h3) =
        then-require no_config_annotation (annotation "config" cm1) _ t tt h2 in
      let (config, _, e3, h4) =
        then-require json_error (c.json.unmarshal_object configs) _ t tt h3 in
      let (cm2, a2, e4, h5) =
        then-demand (annotate "config" (c.json.marshal_object (erase "pause" config)) cm1) _ t tt
          h4 in
      let (b, u, e5) = bind-ok (request (c.configmaps.update cm2)) _ t tt h5 in
      let (n1, m1) = key-annotate "initialize" dbid cm cm1 a1 in
      let (n2, m2) = key-annotate _ _ cm1 cm2 a2 in
      let (q, keeps) = updated s cm cm2 b r (n2 ∙ n1) (m2 ∙ m1) u in
      let there : annotation "initialize" b ≡ some dbid =
        keeps "initialize"
        ∙ annotation-annotate _ "initialize" _ cm1 cm2 a2
        ∙ annotation-annotate _ "initialize" dbid cm cm1 a1 in
      rw (e0 ∙ e1 ∙ e2 ∙ e3 ∙ e4 ∙ e5) (read_db_id c b _ dbid q there)

  -- With a store, the arguments for initdb that were set are those that are read next.
  set_primary_initdb_args-get_primary_initdb_args :
      (args : String) (s : State c.World)
      → (set_primary_initdb_args c args s).0 ≡ ok tt
      → (get_primary_initdb_args c (set_primary_initdb_args c args s).1).0 ≡ ok args
  unfolding set_primary_initdb_args
  set_primary_initdb_args-get_primary_initdb_args args s h =
      let (cm, r, e0) = bind-ok (get_config_cm c) _ s tt h in
      let t = (get_config_cm c s).1 in
      let h1 = sym (ap (λ (o : Outcome (Unit {0}) × State c.World). o.0) e0) ∙ h in
      let (cm1, a1, e1, h2) = then-demand (annotate "primary-initdb-args" args cm) _ t tt h1 in
      let (b, u, e2) = bind-ok (request (c.configmaps.update cm1)) _ t tt h2 in
      let (n1, m1) = key-annotate "primary-initdb-args" args cm cm1 a1 in
      let (q, keeps) = updated s cm cm1 b r n1 m1 u in
      let there : annotation "primary-initdb-args" b ≡ some args =
        keeps "primary-initdb-args" ∙ annotation-annotate _ "primary-initdb-args" args cm cm1 a1 in
      rw (e0 ∙ e1 ∙ e2) (read_primary_initdb_args c b _ args q there)

  -- With a store, after the end of an upgrade the arguments for initdb and the checkpoint that it
  -- left are gone, and the identifier of the database is the one from before.
  pub clear_upgrade_annotations-reads :
      (id : String) (s : State c.World)
      → (clear_upgrade_annotations c s).0 ≡ ok tt
      → (get_db_id c s).0 ≡ ok id
      → let t = (clear_upgrade_annotations c s).1 in
        ((get_primary_initdb_args c t).0 ≡ ok "")
        × ((get_secondary_stream_args c t).0 ≡ err no_latest_checkpoint_location_found)
        × ((get_db_id c t).0 ≡ ok id)
  unfolding clear_upgrade_annotations
  clear_upgrade_annotations-reads id s h i =
      let (cm, r, e0) = bind-ok (get_config_cm c) _ s tt h in
      let t = (get_config_cm c s).1 in
      let h1 = sym (ap (λ (o : Outcome (Unit {0}) × State c.World). o.0) e0) ∙ h in
      let cm1 = drop_annotation "primary-initdb-args" cm in
      let cm2 = drop_annotation "latest-checkpoint-location" cm1 in
      let (b, u, e1) = bind-ok (request (c.configmaps.update cm2)) _ t tt h1 in
      let (n1, m1) = key-drop "primary-initdb-args" cm in
      let (n2, m2) = key-drop "latest-checkpoint-location" cm1 in
      let (q, keeps) = updated s cm cm2 b r (n2 ∙ n1) (m2 ∙ m1) u in
      let init : annotation "initialize" b ≡ some id =
        keeps "initialize"
        ∙ annotation-drop _ "initialize" cm1
        ∙ annotation-drop _ "initialize" cm
        ∙ db_id-annotation c cm s id r i in
      let args : annotation "primary-initdb-args" b ≡ none =
        keeps "primary-initdb-args"
        ∙ annotation-drop _ "primary-initdb-args" cm1
        ∙ annotation-drop _ "primary-initdb-args" cm in
      let location : annotation "latest-checkpoint-location" b ≡ none =
        keeps "latest-checkpoint-location" ∙ annotation-drop _ "latest-checkpoint-location" cm1 in
      rw (e0 ∙ e1) (
        read_primary_initdb_args_none c b _ q args,
        read_secondary_stream_args_none c b _ id q init location,
        read_db_id c b _ id q init,
      )
