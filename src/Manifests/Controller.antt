-- ===== src/Manifests/Controller.antt =====
-- pkg/operator/volumectr/volume_controller.go: the deployment of the controller of TopoLVM.
use topolvm_operator.Base.{ℕ, Bool, true, false, List, [], ◌∷◌, ◌++◌, length, ltb, if◌then◌else◌}
use topolvm_operator.Base.Text.{codes, same}
use topolvm_operator.Cluster.{
  Globals, app_attr, pod_name_space_env, pod_name_env, name_space_env, controller_service_account,
  topolvm_controller_deployment_name, topolvm_controller_container_name,
  topolvm_csi_resizer_container_name, topolvm_csi_provisioner_container_name,
  topolvm_csi_liveness_probe_container_name,
}
use topolvm_operator.Kube.{Owner, Container, Deployment, Node, empty_dir, secret, secret_kind}
use topolvm_operator.Env.{M, pure, ◌>>=◌, Outcome, value, error, attempt}
use topolvm_operator.Client.{list_nodes, get_named}
use topolvm_operator.Manifests.{mount, volume, from_field}

unfoldable pub get_init_container : Container
get_init_container = record {
  name = codes "self-signed-cert-generator";
  image = codes "alpine/openssl";
  command =
      codes "sh"
      ∷ codes "-c"
      ∷ (codes "openssl req -nodes -x509 -newkey rsa:4096 -subj "
          ++ codes "'/DC=self_signed_certificate' -keyout /certs/tls.key -out /certs/tls.crt "
          ++ codes "-days 365")
      ∷ [];
  env = [];
  mounts = mount (codes "certs") (codes "/certs") ∷ [];
}

unfoldable pub get_controller_container : Globals → Container
get_controller_container g = record {
  name = topolvm_controller_container_name;
  image = g.topolvm_image;
  command = codes "/topolvm-controller" ∷ codes "--cert-dir=/certs" ∷ [];
  env = [];
  mounts =
      mount (codes "socket-dir") (codes "/run/topolvm")
      ∷ mount (codes "certs") (codes "/certs")
      ∷ [];
}

unfoldable pub get_csi_resizer_container : Globals → Container
get_csi_resizer_container g = record {
  name = topolvm_csi_resizer_container_name;
  image = g.topolvm_image;
  command =
      codes "/csi-resizer"
      ∷ codes "--csi-address=/run/topolvm/csi-topolvm.sock"
      ∷ codes "--leader-election"
      ∷ (codes "--leader-election-namespace=" ++ g.namespace)
      ∷ [];
  env = [];
  mounts = mount (codes "socket-dir") (codes "/run/topolvm") ∷ [];
}

unfoldable pub get_csi_provisioner_container : Globals → Container
get_csi_provisioner_container g = record {
  name = topolvm_csi_provisioner_container_name;
  image = g.topolvm_image;
  command =
      codes "/csi-provisioner"
      ∷ codes "--csi-address=/run/topolvm/csi-topolvm.sock"
      ∷ codes "--enable-capacity"
      ∷ codes "--capacity-ownerref-level=2"
      ∷ codes "--capacity-poll-interval=30s"
      ∷ codes "--feature-gates=Topology=true"
      ∷ codes "--leader-election"
      ∷ (codes "--leader-election-namespace=" ++ g.namespace)
      ∷ [];
  env =
      from_field pod_name_space_env (codes "metadata.namespace")
      ∷ from_field pod_name_env (codes "metadata.name")
      ∷ from_field name_space_env (codes "metadata.namespace")
      ∷ [];
  mounts = mount (codes "socket-dir") (codes "/run/topolvm") ∷ [];
}

unfoldable pub get_liveness_probe_container : Globals → Container
get_liveness_probe_container g = record {
  name = topolvm_csi_liveness_probe_container_name;
  image = g.topolvm_image;
  command = codes "/livenessprobe" ∷ codes "--csi-address=/run/topolvm/csi-topolvm.sock" ∷ [];
  env = [];
  mounts = mount (codes "socket-dir") (codes "/run/topolvm") ∷ [];
}

-- The deployment with so many replicas; `certs` says whether the secret was found.
unfoldable pub controller_deployment : Globals → Owner → ℕ → Bool → Deployment
controller_deployment g ref n certs = record {
  name = topolvm_controller_deployment_name;
  owners = ref ∷ [];
  labels = [];
  replicas = n;
  selector = (app_attr, topolvm_controller_deployment_name) ∷ [];
  pod = record {
    labels = (app_attr, topolvm_controller_deployment_name) ∷ [];
    init_containers = if certs then [] else get_init_container ∷ [];
    containers =
        get_controller_container g
        ∷ get_csi_provisioner_container g
        ∷ get_csi_resizer_container g
        ∷ get_liveness_probe_container g
        ∷ [];
    volumes =
        volume (codes "socket-dir") empty_dir
        ∷ volume (codes "certs") (if certs then secret g.certs_secret else empty_dir)
        ∷ [];
    service_account = controller_service_account;
    node = [];
  };
}

-- The list is asked for with a limit of 2, which decides as well as all of them.
unfoldable pub replicas_for : Outcome (List Node) → ℕ
replicas_for (value nodes) = if ltb 1 (length nodes) then 2 else 1
replicas_for (error x) = 1

-- `getDeployment`
unfoldable pub get_deployment : Globals → Owner → M Deployment
get_deployment g ref = do
  nodes ← attempt list_nodes
  if same g.certs_secret []
      then pure (controller_deployment g ref (replicas_for nodes) false)
      else (do
        found ← get_named secret_kind g.certs_secret
        pure (controller_deployment g ref (replicas_for nodes) true))
