-- ===== src/Manifests/Discover.antt =====
-- pkg/operator/discover/daemon.go: the daemon set that looks for devices on each node.
use topolvm_operator.Base.{Bool, some, List, [], ◌∷◌, ◌++◌, if◌then◌else◌}
use topolvm_operator.Base.Text.{Text, codes}
use topolvm_operator.Cluster.{
  app_attr, use_loop_env, use_loop, loop_annotations_key, loop_annotations_val,
  discover_devices_account, discover_container_name,
}
use topolvm_operator.Kube.{DaemonSet, EnvVar}
use topolvm_operator.Manifests.{mount, host_volume, variable, from_field}

-- `NamespaceEnvVar`, `NodeEnvVar` and `NameEnvVar` of pkg/operator/k8sutil/pod.go, in their order.
unfoldable pub pod_env : List EnvVar
pod_env =
    from_field (codes "POD_NAMESPACE") (codes "metadata.namespace")
    ∷ from_field (codes "NODE_NAME") (codes "spec.nodeName")
    ∷ from_field (codes "POD_NAME") (codes "metadata.name")
    ∷ []

-- `getDaemonset`
unfoldable pub get_daemon_set : Text → Text → Bool → DaemonSet
get_daemon_set app_name image loop = record {
  name = app_name;
  owners = [];
  annotations = some (if loop then (loop_annotations_key, loop_annotations_val) ∷ [] else []);
  selector = (app_attr, app_name) ∷ [];
  pod = record {
    labels = (app_attr, app_name) ∷ [];
    init_containers = [];
    containers =
        record {
          name = discover_container_name;
          image = image;
          command = codes "/topolvm" ∷ codes "discover" ∷ [];
          env = if loop then pod_env ++ variable use_loop_env use_loop ∷ [] else pod_env;
          mounts =
              mount (codes "devices") (codes "/dev")
              ∷ mount (codes "udev") (codes "/run/udev")
              ∷ mount (codes "sys") (codes "/sys")
              ∷ [];
        }
        ∷ [];
    volumes =
        host_volume (codes "devices") (codes "/dev")
        ∷ host_volume (codes "udev") (codes "/run/udev")
        ∷ host_volume (codes "sys") (codes "/sys")
        ∷ [];
    service_account = discover_devices_account;
    node = [];
  };
}
