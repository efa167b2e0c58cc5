-- ===== src/Operator/Reconcile.antt =====
-- The reconciliation of controllers/topolvmcluster_controller.go. `Reconciler` holds what the
-- reconciler keeps between its calls, and the variables of pkg/cluster that it sets.
pub mod Foreign
pub mod Ready
pub mod Runs
pub mod Deletion
use topolvm_operator.Base.{
  ℕ, Bool, true, false, not, ◌&&◌, Option, none, some, List, [], ◌∷◌, ◌++◌, ltb, is_some, map,
  length, if◌then◌else◌,
}
use topolvm_operator.Base.Text.{Text, codes, same}
use topolvm_operator.Base.Maps.{Map, delete}
use topolvm_operator.Go.Strings.{has_prefix}
use topolvm_operator.Api.{TopolvmCluster}
use topolvm_operator.Cluster.{Globals, capacity_key_prefix}
use topolvm_operator.Kube.{Owner, Node}
use topolvm_operator.Env.{
  M, pure, fail, crash, range, ◌>>=◌, ◌>>◌, wrap, Outcome, value, error, attempt, Error, new,
  message, api_write, patch_node, spawn,
}
use topolvm_operator.Client.{is_not_found, get_cluster, list_clusters, list_nodes}
use topolvm_operator.Operator.{Setup}
use topolvm_operator.Operator.Finalizers.{
  add_finalizer_if_not_present, remove_finalizer, get_controller_object_owner_reference,
}
use topolvm_operator.Operator.Volumes.{delete_topolvm_csi_driver}
use topolvm_operator.Operator.Cluster.{on_add}
use topolvm_operator.Operator.Cluster.Config.{check_storage_config}

-- The channel that stops the status checker.
pub data Channel : Type 0 where
  unmade : Channel
  made : Channel
  closed : Channel

pub record Reconciler : Type 0 where
  pub globals : Globals
  pub namespaced_name : Option Text
  pub last_cluster : Option TopolvmCluster
  pub cluster_ref : Option Owner
  pub config_map_ref : Option Owner
  pub stop : Channel

pub record Request : Type 0 where
  pub namespace : Text
  pub name : Text

-- The reconciler afterwards, and the error that is returned.
abbrev pub Reply : Type 0
Reply = Reconciler × Option Error

-- The oldest cluster of a list: the first of those with the least time.
unfoldable pub oldest : TopolvmCluster → List TopolvmCluster → TopolvmCluster
oldest o [] = o
oldest o (c ∷ cs) = oldest (if ltb c.created o.created then c else o) cs

-- Whether a request is for another cluster than the oldest of several.
unfoldable pub is_rejected : Text → List TopolvmCluster → Bool
unfolding oldest
is_rejected name (c ∷ d ∷ cs) = not (same name (oldest c (d ∷ cs)).name)
is_rejected name _ = false

abbrev pub wrapped_error : Text → Error → Error
wrapped_error text x = new (text ++ codes ": " ++ message x)

-- `removeFinalizer`
unfoldable pub remove_finalizer_of : Text → M (Unit {0})
remove_finalizer_of name = do
  r ← attempt (get_cluster name)
  elim r [
    | value c ↦ wrap (codes "failed to remove finalizer") (remove_finalizer c)
    | error x ↦
        if is_not_found x
        then pure tt
        else wrap (codes "failed to retrieve topolvm cluster to remove finalizer") (fail x)
  ]

-- The loop over the keys of a node: `now` is what is left of the annotations.
pub strip_keys : Node → Map Text → List Text → M (Unit {0})
strip_keys n now [] = pure tt
strip_keys n now (k ∷ ks) =
    if has_prefix k capacity_key_prefix
    then (do
      r ← attempt (api_write (patch_node n (record n { annotations = delete k now })))
      strip_keys n (delete k now) ks)
    else strip_keys n now ks

unfoldable pub strip_nodes : List Node → M (Unit {0})
strip_nodes [] = pure tt
strip_nodes (n ∷ ns) = do ks ← range n.annotations; strip_keys n n.annotations ks; strip_nodes ns

-- `RemoveNodeCapacityAnnotations`
unfoldable pub remove_node_capacity_annotations : M (Unit {0})
remove_node_capacity_annotations = do nodes ← list_nodes; strip_nodes nodes

-- `close(r.stopCh)`: of a channel that was never made, or is closed, it panics.
unfoldable pub close_stop : Reconciler → M Reconciler
close_stop r = elim r.stop [
  | unmade ↦ crash
  | made ↦ pure (record r { stop = closed })
  | closed ↦ crash
]

-- The branch for a cluster that is being deleted.
unfoldable pub delete_cluster : Reconciler → Text → M Reply
delete_cluster r name = do
  a ← attempt (remove_finalizer_of name)
  elim a [
    | error x ↦ pure (r, some (wrapped_error (codes "failed to remove finalize") x))
    | value u ↦ (do
      b ← attempt remove_node_capacity_annotations
      elim b [
        | error x ↦
            pure (r, some (wrapped_error (codes "failed to remove node capacity annotations") x))
        | value v ↦ (do d ← attempt delete_topolvm_csi_driver; r' ← close_stop r; pure (r', none))
      ])
  ]

-- The status checker is started where there is no last cluster.
unfoldable pub start_checker : Reconciler → M Reconciler
start_checker r = elim r.last_cluster [
  | some c ↦ pure r
  | none ↦ (do spawn (codes "CheckClusterStatus"); pure (record r { stop = made }))
]

-- The controller of the ConfigMaps is started once, and gets each owner.
unfoldable pub start_config_maps : Reconciler → Owner → M Reconciler
start_config_maps r ref = elim r.config_map_ref [
  | some old ↦ pure (record r { config_map_ref = some ref })
  | none ↦ (do spawn (codes "ConfigMapController"); pure (record r { config_map_ref = some ref }))
]

unfoldable pub set_up_checked : Setup → Reconciler → TopolvmCluster → Owner → M Reply
set_up_checked s r c ref = do
  r1 ← start_config_maps r ref
  r2 ← start_checker r1
  a ← attempt (on_add s r2.globals r2.last_cluster c ref)
  elim a [
    | error x ↦ pure (r2, some (wrapped_error (codes "failed to reconcile cluster") x))
    | value u ↦ pure (record r2 { last_cluster = some c }, none)
  ]

unfoldable pub set_up : Setup → Reconciler → TopolvmCluster → M Reply
set_up s r c = do
  a ← attempt (get_controller_object_owner_reference c)
  elim a [
    | error x ↦ pure (r, some (wrapped_error (codes "failed to get controller owner reference") x))
    | value ref ↦
        let r' = record r { cluster_ref = some ref } in
        elim (check_storage_config c.spec.storage) [
          | some m ↦ pure (r', some (wrapped_error (codes "check storage config failed") (new m)))
          | none ↦ set_up_checked s r' c ref
        ]
  ]

-- The name and the variables that are set from the cluster.
unfoldable pub named : Reconciler → Text → TopolvmCluster → Reconciler
named r name c = record r {
  namespaced_name = elim r.namespaced_name [ none ↦ some name | some n ↦ some n ];
  globals = record r.globals {
    cluster_name = name;
    topolvm_image = c.spec.topolvm_version;
    certs_secret = c.spec.certs_secret;
  };
}

unfoldable pub reconcile_found : Setup → Reconciler → Text → TopolvmCluster → M Reply
unfolding named
reconcile_found s r name c =
    let r' = named r name c in
    do
      a ← attempt (add_finalizer_if_not_present c)
      elim a [
        | error x ↦ pure (r', some (wrapped_error (codes "failed to add finalizer") x))
        | value c' ↦
            if c'.deleted
            then delete_cluster (record r' { last_cluster = none }) name
            else set_up s r' c'
      ]

unfoldable pub reconcile_only : Setup → Reconciler → Text → M Reply
reconcile_only s r name = do
  a ← attempt (get_cluster name)
  elim a [
    | value c ↦ reconcile_found s r name c
    | error x ↦
        if is_not_found x
        then pure (r, none)
        else pure (r, some (wrapped_error (codes "failed to get topolvm cluster") x))
  ]

unfoldable pub reconcile_listed : Setup → Reconciler → Text → Option (List TopolvmCluster) → M Reply
reconcile_listed s r name none = pure (r, some (new (codes "no topolvm cluster instance existing")))
reconcile_listed s r name (some cs) =
    if is_rejected name cs then pure (r, none) else reconcile_only s r name

-- `reconcile`
unfoldable pub reconcile : Setup → Reconciler → Request → M Reply
reconcile s r q =
    if same q.namespace r.globals.namespace
    then (do
      a ← attempt list_clusters
      elim a [
        | error x ↦ pure (r, some (wrapped_error (codes "failed to list topolvm cluster") x))
        | value cs ↦ reconcile_listed s r q.name cs
      ])
    else pure (r, none)
