-- ===== src/Manifests/Node.antt =====
-- pkg/operator/node/node.go: the deployment of a node, with lvmd and the node plugin.
use topolvm_operator.Base.{List, [], ◌∷◌, ◌++◌}
use topolvm_operator.Base.Text.{Text, codes}
use topolvm_operator.Cluster.{
  Globals, app_attr, topolvm_compose_attr, topolvm_compose_node, topolvm_node_deployment_label_name,
  node_service_account, lvmd_container_name, node_container_name, csi_registrar_container_name,
  topolvm_csi_liveness_probe_container_name,
}
use topolvm_operator.Kube.{Owner, Container, VolumeMount, Deployment, config_map, empty_dir}
use topolvm_operator.Manifests.{mount, volume, host_volume, from_field, get_absolute_kubelet_path}

-- The paths below the root of the kubelet.
abbrev pub below : Text → Text → Text
below root path = get_absolute_kubelet_path root ++ path

unfoldable pub get_lvmd_container : Globals → Container
get_lvmd_container g = record {
  name = lvmd_container_name;
  image = g.topolvm_image;
  command = codes "/lvmd" ∷ codes "--config=/etc/topolvm/lvmd.yaml" ∷ codes "--container=true" ∷ [];
  env = [];
  mounts =
      mount (codes "lvmd-socket-dir") (codes "/run/topolvm")
      ∷ mount (codes "lvmd-config-dir") (codes "/etc/topolvm")
      ∷ [];
}

-- The mounts of the node plugin at a root.
unfoldable pub node_mounts : Text → List VolumeMount
node_mounts root =
    mount (codes "node-plugin-dir") (codes "/run/topolvm")
    ∷ mount (codes "lvmd-socket-dir") (codes "/run/lvmd")
    ∷ mount (codes "pod-volumes-dir") (below root (codes "pods"))
    ∷ mount (codes "csi-plugin-dir") (below root (codes "plugins/kubernetes.io/csi"))
    ∷ []

unfoldable pub get_node_container : Globals → Container
get_node_container g = record {
  name = node_container_name;
  image = g.topolvm_image;
  command = codes "/topolvm-node" ∷ codes "--lvmd-socket=/run/lvmd/lvmd.sock" ∷ [];
  env = from_field (codes "NODE_NAME") (codes "spec.nodeName") ∷ [];
  mounts = node_mounts g.csi_kubelet_root_dir;
}

-- The command of the registrar at a root.
unfoldable pub registrar_command : Text → List Text
registrar_command root =
    codes "/csi-node-driver-registrar"
    ∷ codes "--csi-address=/run/topolvm/csi-topolvm.sock"
    ∷ (codes "--kubelet-registration-path="
        ++ below root (codes "plugins/topolvm.cybozu.com/node/csi-topolvm.sock"))
    ∷ []

unfoldable pub get_csi_registrar_container : Globals → Container
get_csi_registrar_container g = record {
  name = csi_registrar_container_name;
  image = g.topolvm_image;
  command = registrar_command g.csi_kubelet_root_dir;
  env = [];
  mounts =
      mount (codes "node-plugin-dir") (codes "/run/topolvm")
      ∷ mount (codes "registration-dir") (codes "/registration")
      ∷ [];
}

unfoldable pub get_liveness_probe_container : Globals → Container
get_liveness_probe_container g = record {
  name = topolvm_csi_liveness_probe_container_name;
  image = g.topolvm_image;
  command = codes "/livenessprobe" ∷ codes "--csi-address=/run/topolvm/csi-topolvm.sock" ∷ [];
  env = [];
  mounts = mount (codes "node-plugin-dir") (codes "/run/topolvm") ∷ [];
}

-- `getDeployment`
unfoldable pub get_deployment : Globals → Text → Text → Text → Owner → Deployment
get_deployment g app_name node configmap ref = record {
  name = app_name;
  owners = ref ∷ [];
  labels = (app_attr, topolvm_node_deployment_label_name) ∷ [];
  replicas = 1;
  selector = (app_attr, app_name) ∷ [];
  pod = record {
    labels = (app_attr, app_name) ∷ (topolvm_compose_attr, topolvm_compose_node) ∷ [];
    init_containers = [];
    containers =
        get_lvmd_container g
        ∷ get_node_container g
        ∷ get_csi_registrar_container g
        ∷ get_liveness_probe_container g
        ∷ [];
    volumes =
        host_volume (codes "registration-dir")
          (below g.csi_kubelet_root_dir (codes "plugins_registry/"))
        ∷ host_volume (codes "node-plugin-dir")
            (below g.csi_kubelet_root_dir (codes "plugins/topolvm.cybozu.com/node"))
        ∷ host_volume (codes "csi-plugin-dir")
            (below g.csi_kubelet_root_dir (codes "plugins/kubernetes.io/csi"))
        ∷ host_volume (codes "pod-volumes-dir") (below g.csi_kubelet_root_dir (codes "pods/"))
        ∷ volume (codes "lvmd-config-dir") (config_map configmap)
        ∷ volume (codes "lvmd-socket-dir") empty_dir
        ∷ [];
    service_account = node_service_account;
    node = node;
  };
}
