-- ===== src/Operator/Node.antt =====
-- pkg/operator/node/node.go: the deployments of the nodes.
pub mod Moved
use topolvm_operator.Base.{
  Bool, true, false, ◌||◌, Option, none, some, List, [], ◌∷◌, map, if◌then◌else◌, ◌++◌,
}
use topolvm_operator.Base.Text.{Text, codes, same}
use topolvm_operator.Cluster.{
  Globals, app_attr, topolvm_node_deployment_label_name, csi_registrar_container_name,
  node_container_name,
}
use topolvm_operator.Kube.{
  VolumeMount, Owner, Deployment, Volume, VolumeSource, host_path, config_map, secret, empty_dir,
  Container, PodSpec,
}
use topolvm_operator.Env.{
  M, pure, fail, crash, ◌>>=◌, ◌>>◌, wrap, Outcome, value, error, attempt, new, message, api_write,
  update_deployment,
}
use topolvm_operator.Client.{is_not_found, get_deployment, list_deployments}
use topolvm_operator.Util.{create_or_update_deployment}
use topolvm_operator.Util.Delete.{delete_deployment}
use topolvm_operator.Manifests.Node
use topolvm_operator.Manifests.{mount}
use topolvm_operator.Manifests.Node.{below}
use topolvm_operator.Operator.{Setup}

-- `CheckNodeDeploymentIsExisting`
pub check_node_deployment_is_existing : Text → M Bool
check_node_deployment_is_existing name = do
  r ← attempt (get_deployment name)
  elim r [
    | value d ↦ pure true
    | error x ↦
        if is_not_found x
        then pure false
        else wrap (codes "failed to detect deployment " ++ name) (fail x)
  ]

-- `CreateNodeDeployment`
pub create_node_deployment : Globals → Text → Text → Text → Owner → M (Unit {0})
create_node_deployment g name config_map_name node ref =
    wrap (codes "create node deployment " ++ name ++ codes " failed")
      (create_or_update_deployment (Node.get_deployment g name node config_map_name ref))

-- `CreateReplaceDeployment`
pub create_replace_deployment : Globals → Text → Text → Text → Owner → M (Unit {0})
create_replace_deployment g name config_map_name node ref = do
  r ← attempt (get_deployment name)
  elim r [
    | value d ↦ (do
      wrap (codes "failed to remove deployment " ++ name) (delete_deployment name)
      create_node_deployment g name config_map_name node ref)
    | error x ↦
        if is_not_found x
        then create_node_deployment g name config_map_name node ref
        else wrap (codes "failed to detect deployment " ++ name) (fail x)
  ]

-- The new path of a volume at a root, for the volumes that lie below it.
unfoldable pub new_path : Text → Text → Option Text
new_path root name =
    if same name (codes "registration-dir")
    then some (below root (codes "plugins_registry/"))
    else if same name (codes "node-plugin-dir")
    then some (below root (codes "plugins/topolvm.cybozu.com/node"))
    else if same name (codes "csi-plugin-dir")
    then some (below root (codes "plugins/kubernetes.io/csi"))
    else if same name (codes "pod-volumes-dir")
    then some (below root (codes "pods/"))
    else none

-- A volume that has no host path panics.
unfoldable pub move_source : Volume → Option Text → VolumeSource → Option Volume
move_source v none source = some v
move_source v (some path) (host_path old) = some (record v { source = host_path path })
move_source v (some path) (config_map name) = none
move_source v (some path) (secret name) = none
move_source v (some path) empty_dir = none

unfoldable pub move_volumes : Text → List Volume → Option (List Volume)
unfolding move_source new_path
move_volumes root [] = some []
move_volumes root (v ∷ vs) = elim (move_source v (new_path root v.name) v.source) [
  | none ↦ none
  | some w ↦ elim (move_volumes root vs) [ none ↦ none | some ws ↦ some (w ∷ ws) ]
]

-- The command that the registrar gets at a new root.
unfoldable pub moved_command : Text → List Text
moved_command root =
    codes "/csi-node-driver-registrar"
    ∷ codes "--csi-address=/run/topolvm/csi-topolvm.sock"
    ∷ (codes "--kubelet-registration-path="
        ++ below root (codes "plugins/topolvm.cybozu.com/node/csi-topolvm.sock"))
    ∷ []

-- The mounts that the node plugin gets at a new root.
unfoldable pub moved_mounts : Text → List VolumeMount
moved_mounts root =
    mount (codes "node-plugin-dir") (codes "/run/topolvm")
    ∷ mount (codes "lvmd-socket-dir") (codes "/run/lvmd")
    ∷ mount (codes "pod-volumes-dir") (below root (codes "pods"))
    ∷ mount (codes "csi-plugin-dir") (below root (codes "plugins/kubernetes.io/csi"))
    ∷ []

unfoldable pub move_container : Text → Container → Container
move_container root c =
    if same c.name csi_registrar_container_name
    then record c { command = moved_command root }
    else if same c.name node_container_name
    then record c { mounts = moved_mounts root }
    else c

unfoldable pub move_pod : Text → PodSpec → List Volume → PodSpec
unfolding move_container
move_pod root p vs = record p { volumes = vs; containers = map (move_container root) p.containers }

-- A deployment with the paths at another root; `none` is a panic.
unfoldable pub move_deployment : Text → Deployment → Option Deployment
unfolding move_volumes move_pod
move_deployment root d = elim (move_volumes root d.pod.volumes) [
  | none ↦ none
  | some vs ↦ some (record d { pod = move_pod root d.pod vs })
]

pub move_all : Setup → Text → List Deployment → M (Unit {0})
move_all s root [] = pure tt
move_all s root (d ∷ ds) = elim (move_deployment root d) [
  | none ↦ crash
  | some d' ↦
      if s.differs d d'
      then (do
        r ← attempt (api_write (update_deployment d'))
        elim r [
          | value u ↦ move_all s root ds
          | error x ↦
              fail (
                new
                  (codes "failed to update deployment \"" ++ d'.name ++ codes "\". " ++ message x))
        ])
      else move_all s root ds
]

-- `UpdateNodeDeploymentCSIKubeletRootPath`; where nothing is found the client gives an empty list.
pub update_node_deployment_csi_kubelet_root_path : Setup → Text → M (Unit {0})
update_node_deployment_csi_kubelet_root_path s root = do
  r ← attempt (list_deployments (app_attr ++ codes "=" ++ topolvm_node_deployment_label_name))
  elim r [
    | value ds ↦ move_all s root ds
    | error x ↦
        if is_not_found x
        then pure tt
        else wrap (codes "failed to list topolvm node deployment") (fail x)
  ]
