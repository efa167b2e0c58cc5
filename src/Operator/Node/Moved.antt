-- ===== src/Operator/Node/Moved.antt =====
-- A change of the root of the kubelet.
use topolvm_operator.Base.{◌≡◌, refl, some}
use topolvm_operator.Base.Text.{Text, same}
use topolvm_operator.Cluster.{Globals}
use topolvm_operator.Kube.{Owner}
use topolvm_operator.Manifests.Node
use topolvm_operator.Operator.Node.{move_deployment}

-- To move a deployment of a node to another root of the kubelet gives the deployment that would have
-- been made with that root: volumes, mounts and commands agree, and nothing panics.
pub move_deployment-get_deployment :
    (g : Globals) (root name node config_map : Text) (ref : Owner)
    → move_deployment root (Node.get_deployment g name node config_map ref)
      ≡ some
          (Node.get_deployment (record g { csi_kubelet_root_dir = root }) name node config_map ref)
unfolding move_deployment Node.get_deployment same Node.get_lvmd_container Node.get_node_container
    Node.get_csi_registrar_container Node.get_liveness_probe_container Node.node_mounts
    Node.registrar_command topolvm_operator.Operator.Node.moved_mounts
    topolvm_operator.Operator.Node.moved_command
move_deployment-get_deployment g root name node config_map ref = refl
