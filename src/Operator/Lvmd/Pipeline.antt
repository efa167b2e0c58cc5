-- ===== src/Operator/Lvmd/Pipeline.antt =====
-- From the job of a node to the status of the cluster.
use topolvm_operator.Base.{◌≡◌, ap, refl, none, some, List, [], ◌∷◌, ◌++◌, append_assoc}
use topolvm_operator.Base.Text.{Text}
use topolvm_operator.Base.Maps.{get_or, lookup}
use topolvm_operator.Api.{NodeStorageState, TopolvmCluster, LoopState}
use topolvm_operator.Cluster.{vg_status_config_map_key}
use topolvm_operator.Kube.{topolvm_cluster}
use topolvm_operator.Env
use topolvm_operator.Env.{Env, Trace, Result, ok, ConfigMap, get_object}
use topolvm_operator.PrepareVg.{Classes}
use topolvm_operator.PrepareVg.Conf.{update_vg_status}
use topolvm_operator.PrepareVg.Conf.Status.{update_vg_status-IsWritten}
use topolvm_operator.Operator.Status.{with_state}
use topolvm_operator.Operator.Reconcile.{Reconciler}
use topolvm_operator.Operator.Lvmd.{update_cluster_status}

-- The two calls by which a state gets into the status of a cluster.
abbrev pub stored : Text → NodeStorageState → TopolvmCluster → Trace
stored name state c =
    get_object topolvm_cluster name ∷ Env.update_cluster_status (with_state state c) ∷ []

store :
    (r : Reconciler) (cm : ConfigMap) (name text : Text) (state : NodeStorageState)
    (c : TopolvmCluster) (e : Env) (t : Trace)
    → r.namespaced_name ≡ some name
    → get_or [] vg_status_config_map_key cm.data_map ≡ text
    → e.unmarshal_state text ≡ ok state
    → (e.kube t).found_cluster name ≡ ok c
    → e.write_error (t ++ get_object topolvm_cluster name ∷ []) ≡ none
    → update_cluster_status r cm e t ≡ (ok tt, t ++ stored name state c)
unfolding update_cluster_status with_state topolvm_operator.Operator.Lvmd.store_status
    topolvm_operator.Operator.Status.update_node_status topolvm_operator.Util.update_status
    topolvm_operator.Util.update_or_init Env.api_write topolvm_operator.Util.status_tried
store r cm name text state c e t hn hk hu hc hw =
    rw (hk, hu, hn, hc, hw)
      (ap (λ u. (ok tt, u))
        (append_assoc t (get_object topolvm_cluster name ∷ [])
          (Env.update_cluster_status (with_state state c) ∷ [])))

found_text :
    (cm : ConfigMap) (text : Text)
    → lookup vg_status_config_map_key cm.data_map ≡ some text
    → get_or [] vg_status_config_map_key cm.data_map ≡ text
found_text cm text h = rw (h, get_or) refl

-- What the job of a node writes reaches the status of the cluster: where the status that the job put
-- into a ConfigMap is read back by the operator, and the API has the cluster and takes the update, the
-- operator asks for the cluster, and updates its status to the old one with just this state for its
-- node.
pub update_vg_status-update_cluster_status :
    (cm cm' : ConfigMap) (before state : NodeStorageState) (cs : Classes) (loops : List LoopState)
    (job operator : Env) (t u : Trace) (r : Reconciler) (name : Text) (c : TopolvmCluster)
    → (update_vg_status cm before cs loops job t).0 ≡ ok (cm', state)
    → ((text : Text) → job.marshal_state state ≡ ok text → operator.unmarshal_state text ≡ ok state)
    → r.namespaced_name ≡ some name
    → (operator.kube u).found_cluster name ≡ ok c
    → operator.write_error (u ++ get_object topolvm_cluster name ∷ []) ≡ none
    → update_cluster_status r cm' operator u ≡ (ok tt, u ++ stored name state c)
update_vg_status-update_cluster_status cm cm' before state cs loops job operator t u r name c h hr
      hn hc hw =
    let (text, p, q) = update_vg_status-IsWritten cm before cs loops job t cm' state h in
    store r cm' name text state c operator u hn (found_text cm' text q) (hr text p) hc hw
