-- ===== src/Manifests/Tests.antt =====
-- Pods of a cluster in the namespace ns.
use topolvm_operator.Base.{true, []}
use topolvm_operator.Base.Text.{codes}
use topolvm_operator.Cluster.{Globals}
use topolvm_operator.Kube.{Owner}
use topolvm_operator.Manifests.Job
use topolvm_operator.Manifests.Node
use topolvm_operator.Manifests.Controller
use topolvm_operator.Manifests.Discover
use topolvm_operator.Manifests.Mounts.{IsComplete, manifests-AreComplete}

abbrev globals : Globals
globals = record {
  namespace = codes "ns";
  cluster_name = codes "c1";
  topolvm_image = codes "topolvm:1";
  certs_secret = [];
  csi_kubelet_root_dir = codes "/var/lib/kubelet";
  is_operator_hub = true;
  enable_discover_devices = codes "true";
}

abbrev owner : Owner
owner = record {
  api_version = codes "topolvm.cybozu.com/v2";
  kind = codes "TopolvmCluster";
  name = codes "c1";
  uid = codes "u1";
}

manifests-AreComplete_example :
    IsComplete []
      (Job.job_of globals
        (codes "n1")
        (codes "op:1")
        owner
        (codes "h1")
        (codes "1", codes "22")).pod
    × IsComplete
        (Node.get_deployment globals (codes "d1") (codes "n1") (codes "m1") owner).selector
        (Node.get_deployment globals (codes "d1") (codes "n1") (codes "m1") owner).pod
    × IsComplete
        (Controller.controller_deployment globals owner 2 true).selector
        (Controller.controller_deployment globals owner 2 true).pod
    × IsComplete
        (Discover.get_daemon_set (codes "d1") (codes "op:1") true).selector
        (Discover.get_daemon_set (codes "d1") (codes "op:1") true).pod
manifests-AreComplete_example =
    manifests-AreComplete globals (codes "n1") (codes "op:1") (codes "m1") (codes "d1") (codes "h1")
      owner (codes "1", codes "22") 2 true true
