-- ===== src/Operator/Lvmd.antt =====
-- controllers/lvmdconfig_controller.go: what happens when the ConfigMap of a node is added or updated.
-- Conversions of the objects of the watch are left out: an event carries ConfigMaps.
pub mod Pipeline
use topolvm_operator.Base.{
  Bool, true, false, not, ◌&&◌, Option, none, some, List, [], ◌∷◌, ◌++◌, if◌then◌else◌,
}
use topolvm_operator.Base.Text.{Text, codes, same}
use topolvm_operator.Base.Maps.{has_key, get_or}
use topolvm_operator.Go.Strings.{has_prefix}
use topolvm_operator.Api.{TopolvmCluster}
use topolvm_operator.Cluster.{
  Globals, app_attr, lvmd_config_map_name_prefix, lvmd_config_map_key, local_disk_cm_data,
  vg_status_config_map_key, lvmd_annotations_node_key, topolvm_node_deployment_prefix,
}
use topolvm_operator.Kube.{Owner, pod}
use topolvm_operator.ConfigMaps.{truncate_node_name}
use topolvm_operator.Env.{
  M, ConfigMap, pure, crash, asks, asks_result, ◌>>=◌, ◌>>◌, wrap, Outcome, value, error, attempt,
  api_write, update_config_map, delete_object,
}
use topolvm_operator.Client.{list_pods}
use topolvm_operator.Operator.{Setup}
use topolvm_operator.Operator.Node.{check_node_deployment_is_existing, create_replace_deployment}
use topolvm_operator.Operator.Jobs.{make_and_run_job}
use topolvm_operator.Operator.Status.{update_node_status}
use topolvm_operator.Operator.Reconcile.{Reconciler}

-- `getNodeName`
unfoldable pub get_node_name : ConfigMap → Text
get_node_name cm = get_or [] lvmd_annotations_node_key cm.annotations

deployment_name : Text → M Text
deployment_name node = asks (λ e t. truncate_node_name e.hash topolvm_node_deployment_prefix node)

-- `checkingDeploymentExisting`
pub checking_deployment_existing : Text → M Bool
unfolding deployment_name
checking_deployment_existing node = do
  name ← deployment_name node
  r ← attempt (check_node_deployment_is_existing name)
  elim r [ value b ↦ pure b | error x ↦ pure false ]

pub delete_pods : List Text → M (Unit {0})
delete_pods [] = pure tt
delete_pods (p ∷ ps) = do r ← attempt (api_write (delete_object pod p)); delete_pods ps

-- `replaceNodePod`; where the list fails the client gives an empty one.
pub replace_node_pod : Text → M (Unit {0})
unfolding deployment_name
replace_node_pod node = do
  name ← deployment_name node
  r ← attempt (list_pods (app_attr ++ codes "=" ++ name))
  elim r [ value ps ↦ delete_pods ps | error x ↦ pure tt ]

-- `createNodeDeployment`
pub create_node_deployment : Globals → Text → Text → Owner → M (Unit {0})
unfolding deployment_name
create_node_deployment g config_map node ref = do
  name ← deployment_name node
  r ← attempt (create_replace_deployment g name config_map node ref)
  pure tt

-- The status in a ConfigMap goes into the status of the cluster.
unfoldable pub store_status : Reconciler → ConfigMap → M (Unit {0})
store_status r cm = do
  state ← asks_result (λ e. e.unmarshal_state (get_or [] vg_status_config_map_key cm.data_map))
  update_node_status r.namespaced_name state

-- `updateClusterStatus`
pub update_cluster_status : Reconciler → ConfigMap → M (Unit {0})
update_cluster_status r cm = do a ← attempt (store_status r cm); pure tt

-- `checkUpdateClusterStatus`
pub check_update_cluster_status : Reconciler → ConfigMap → ConfigMap → M (Unit {0})
check_update_cluster_status r old new =
    if same (get_or [] vg_status_config_map_key old.data_map)
      (get_or [] vg_status_config_map_key new.data_map)
    then pure tt
    else (do
      state ← asks_result (λ e. e.unmarshal_state (get_or [] vg_status_config_map_key new.data_map))
      wrap (codes "update node " ++ state.node ++ codes " status failed")
          (update_node_status r.namespaced_name state))

-- `getRef`, whose pointer is set before the controller starts.
get_ref : Reconciler → M Owner
get_ref r = elim r.config_map_ref [ none ↦ crash | some ref ↦ pure ref ]

abbrev pub adopt : ConfigMap → Owner → M (Unit {0})
adopt cm ref = do
  r ← attempt (api_write (update_config_map (record cm { owners = some (ref ∷ []) })))
  pure tt

-- The part of `onAdd` that deploys lvmd.
pub deploy : Reconciler → ConfigMap → Text → Owner → M (Unit {0})
deploy r cm node ref = if same node [] then pure tt else do
  existing ← checking_deployment_existing node
  if existing then pure tt else create_node_deployment r.globals cm.name node ref

-- `onAdd`
pub on_add : Reconciler → ConfigMap → M (Unit {0})
unfolding get_ref
on_add r cm =
    if has_prefix cm.name lvmd_config_map_name_prefix
    then (do
      ref ← get_ref r
      adopt cm ref
      update_cluster_status r cm
      if has_key lvmd_config_map_key cm.data_map
          then deploy r cm (get_node_name cm) ref
          else pure tt)
    else pure tt

adopt_orphan : Reconciler → ConfigMap → M (Unit {0})
unfolding get_ref
adopt_orphan r cm = elim cm.owners [
  | some refs ↦ pure tt
  | none ↦ (do ref ← get_ref r; adopt cm ref)
]

-- `UseAllNodeAndDevices`: it panics where there is no last cluster.
use_all_node_and_devices : Reconciler → M Bool
use_all_node_and_devices r = elim r.last_cluster [
  | none ↦ crash
  | some c ↦ pure c.spec.storage.use_all_nodes
]

-- The job of a node runs again when its devices changed.
pub restart_job : Setup → Reconciler → ConfigMap → ConfigMap → Text → M (Unit {0})
unfolding use_all_node_and_devices get_ref
restart_job s r old new node =
    if has_key local_disk_cm_data old.data_map
      && not (
          same (get_or [] local_disk_cm_data old.data_map)
            (get_or [] local_disk_cm_data new.data_map))
    then (do
      all ← use_all_node_and_devices r
      if all
          then (do ref ← get_ref r; a ← attempt (make_and_run_job s r.globals node ref); pure tt)
          else pure tt)
    else pure tt

pub redeploy : Reconciler → ConfigMap → ConfigMap → Text → M (Unit {0})
unfolding get_ref
redeploy r old new node =
    if has_key lvmd_config_map_key new.data_map
    then (do
      existing ← checking_deployment_existing node
      if existing
          then (if same (get_or [] lvmd_config_map_key old.data_map)
                (get_or [] lvmd_config_map_key new.data_map)
              then pure tt
              else replace_node_pod node)
          else (do ref ← get_ref r; create_node_deployment r.globals new.name node ref))
    else pure tt

-- `onUpdate`
pub on_update : Setup → Reconciler → ConfigMap → ConfigMap → M (Unit {0})
unfolding adopt_orphan
on_update s r old new =
    if has_prefix old.name lvmd_config_map_name_prefix
    then (do
      adopt_orphan r new
      a ← attempt (check_update_cluster_status r old new)
      if same (get_node_name new) [] then pure tt else (do
        restart_job s r old new (get_node_name new)
        redeploy r old new (get_node_name new)))
    else pure tt
