-- ===== src/Operator/Cluster.antt =====
-- The cluster controller of controllers/topolvmcluster_controller.go: what `onAdd` does. The function
-- literals that it starts with `go` run where they are started.
pub mod Config
use topolvm_operator.Base.{
  ℕ, Bool, true, false, not, ◌&&◌, ◌||◌, Option, none, some, List, [], ◌∷◌, ◌++◌, map, length, ltb,
  ◌==◌, if◌then◌else◌,
}
use topolvm_operator.Base.Text.{Text, codes, same}
use topolvm_operator.Go.Strings.{has_prefix}
use topolvm_operator.Api.{Storage, NodeDevices, NodeStorageState, TopolvmCluster}
use topolvm_operator.Cluster.{
  Globals, topolvm_node_deployment_prefix, topolvm_controller_deployment_name,
}
use topolvm_operator.Kube.{Owner, Container, Deployment, Node}
use topolvm_operator.Env.{
  M, pure, fail, crash, ◌>>=◌, ◌>>◌, wrap, Outcome, value, error, attempt, api_write,
  update_deployment,
}
use topolvm_operator.Client.{is_not_found, get_deployment, list_deployments, list_nodes}
use topolvm_operator.Util.{create_or_update_deployment}
use topolvm_operator.Util.Delete.{delete_deployment}
use topolvm_operator.Manifests.Controller
use topolvm_operator.Operator.{Setup}
use topolvm_operator.Operator.Cluster.Config.{same_storage}
use topolvm_operator.Operator.Volumes.{check_topolvm_csi_driver_existing, check_and_create_psp}
use topolvm_operator.Operator.Daemon.{check_update_discover_daemon_set, set_images}
use topolvm_operator.Operator.Jobs.{make_and_run_job}

-- A job for each node of a list; an error is logged.
unfoldable pub run_jobs : Setup → Globals → Owner → List Text → M (Unit {0})
run_jobs s g ref [] = pure tt
run_jobs s g ref (node ∷ nodes) = do
  r ← attempt (make_and_run_job s g node ref)
  run_jobs s g ref nodes

-- The nodes whose job is run again: some class failed, or none succeeded.
unfoldable pub needs_job : NodeStorageState → Bool
needs_job n = ltb 0 (length n.fail_classes) || length n.success_classes == 0

unfoldable pub nodes_to_retry : List NodeStorageState → List Text
unfolding needs_job
nodes_to_retry [] = []
nodes_to_retry (n ∷ ns) =
    let rest = nodes_to_retry ns in if needs_job n then n.node ∷ rest else rest

unfoldable pub names_of : Option (List NodeDevices) → List Text
names_of none = []
names_of (some ds) = map (λ (d : NodeDevices). d.node_name) ds

abbrev pub is_unchanged : Option TopolvmCluster → Storage → Bool
is_unchanged none storage = false
is_unchanged (some last) storage = same_storage last.spec.storage storage

-- `startPrepareVolumeGroupJob`
unfoldable pub start_prepare_volume_group_job :
    Setup → Globals → Option TopolvmCluster → TopolvmCluster → Owner → M (Unit {0})
start_prepare_volume_group_job s g last c ref =
    if is_unchanged last c.spec.storage
    then run_jobs s g ref (nodes_to_retry c.status.node_storage_status)
    else if c.spec.storage.use_all_nodes
    then (do nodes ← list_nodes; run_jobs s g ref (map (λ (n : Node). n.name) nodes))
    else run_jobs s g ref (names_of c.spec.storage.device_classes)

abbrev pub with_images : Text → Deployment → Deployment
with_images image d = record d {
  pod = record d.pod { containers = set_images image d.pod.containers };
}

-- A loop that ends at the first deployment of a node whose image is right.
unfoldable pub replace_images : Text → List Deployment → M (Unit {0})
replace_images image [] = pure tt
replace_images image (d ∷ ds) =
    if has_prefix d.name topolvm_node_deployment_prefix
    then elim d.pod.containers [
      | [] ↦ crash
      | c ∷ cs ↦ if same c.image image then pure tt else (do
        r ← attempt (api_write (update_deployment (with_images image d)))
        replace_images image ds)
    ]
    else replace_images image ds

-- `startReplaceNodeDeployment`
unfoldable pub start_replace_node_deployment : TopolvmCluster → M (Unit {0})
start_replace_node_deployment c = do
  ds ← list_deployments []
  replace_images c.spec.topolvm_version ds

-- `CreateControllerDeployment` and `CreateReplaceTopolvmControllerDeployment` of
-- pkg/operator/volumectr/volume_controller.go.
unfoldable pub create_controller_deployment : Globals → Owner → M (Unit {0})
create_controller_deployment g ref = do
  d ← Controller.get_deployment g ref
  create_or_update_deployment d

unfoldable pub create_replace_controller_deployment : Globals → Owner → M (Unit {0})
create_replace_controller_deployment g ref = do
  r ← attempt (get_deployment topolvm_controller_deployment_name)
  elim r [
    | value d ↦ (do
      delete_deployment topolvm_controller_deployment_name
      create_controller_deployment g ref)
    | error x ↦ if is_not_found x then create_controller_deployment g ref else fail x
  ]

update_image : Text → Deployment → List Container → M (Unit {0})
update_image image d [] = crash
update_image image d (c ∷ cs) =
    if same c.image image
    then pure tt
    else wrap (codes "update topolvm controller image failed")
        (api_write (update_deployment (with_images image d)))

-- `startTopolvmControllerDeployment`
unfoldable pub start_topolvm_controller_deployment : Globals → TopolvmCluster → Owner → M (Unit {0})
unfolding update_image
start_topolvm_controller_deployment g c ref = do
  r ← attempt (get_deployment topolvm_controller_deployment_name)
  elim r [
    | value d ↦ update_image c.spec.topolvm_version d d.pod.containers
    | error x ↦
        if is_not_found x
        then wrap (codes "create and replace controller deployment failed")
            (create_replace_controller_deployment g ref)
        else wrap (codes "failed to detect deployment") (fail x)
  ]

hub_objects : Bool → M (Unit {0})
hub_objects false = pure tt
hub_objects true = check_topolvm_csi_driver_existing >> check_and_create_psp

-- `onAdd`, but for its last assignment, which the caller makes.
unfoldable pub on_add :
    Setup → Globals → Option TopolvmCluster → TopolvmCluster → Owner → M (Unit {0})
unfolding hub_objects
on_add s g last c ref = do
  hub_objects g.is_operator_hub
  wrap (codes "check update discover damemonset failed")
      (check_update_discover_daemon_set s.operator_image c.spec.storage.use_loop)
  wrap (codes "start prepare volume group failed") (start_prepare_volume_group_job s g last c ref)
  wrap (codes "start create or update topolvm controller deployment  failed")
      (start_topolvm_controller_deployment g c ref)
  wrap (codes "start replace node deployment  failed") (start_replace_node_deployment c)
