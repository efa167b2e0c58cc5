-- ===== src/Operator/Tests.antt =====
-- An operator in the namespace ns, and two clusters of which the first is younger.
use topolvm_operator.Base.{
  ◌≡◌, refl, ap, sym, ℕ, ◌≤◌, Bool, true, false, Option, none, some, List, [], ◌∷◌, ◌++◌,
  if◌then◌else◌,
}
use topolvm_operator.Base.Text.{Text, codes, same}
use topolvm_operator.Api.{TopolvmCluster, NodeStorageState}
use topolvm_operator.Cluster.{Globals, vg_status_config_map_key}
use topolvm_operator.Kube.{Owner, topolvm_cluster}
use topolvm_operator.Env
use topolvm_operator.Env.{Env, Trace, ok, err, not_found, M, pure, ConfigMap, list_objects}
use topolvm_operator.Env.Laws.{ok-injective}
use topolvm_operator.Env.World.{no_objects, kube_world}
use topolvm_operator.PrepareVg.{Classes}
use topolvm_operator.PrepareVg.Conf.{update_vg_status}
use topolvm_operator.Manifests.Node
use topolvm_operator.Operator.{Setup}
use topolvm_operator.Operator.Finalizers.{remove}
use topolvm_operator.Operator.Finalizers.Removed.{remove-exact}
use topolvm_operator.Operator.Node.{move_deployment}
use topolvm_operator.Operator.Node.Moved.{move_deployment-get_deployment}
use topolvm_operator.Operator.Status.{with_state}
use topolvm_operator.Operator.Status.Refines.{state_of, distinct, with_state-updates}
use topolvm_operator.Operator.Reconcile.{
  Reconciler, Request, made, closed, oldest, reconcile, delete_cluster,
}
use topolvm_operator.Operator.Reconcile.Foreign.{IsLeast, reconcile-serves_oldest}
use topolvm_operator.Operator.Reconcile.Ready.{IsReady}
use topolvm_operator.Operator.Reconcile.Runs.{fresh, call, here, next, reachable-IsReady}
use topolvm_operator.Operator.Reconcile.Deletion.{delete_cluster-needs_checker}
use topolvm_operator.Operator.Lvmd.{update_cluster_status}
use topolvm_operator.Operator.Lvmd.Pipeline.{stored, update_vg_status-update_cluster_status}

abbrev globals : Globals
globals = record {
  namespace = codes "ns";
  cluster_name = [];
  topolvm_image = [];
  certs_secret = [];
  csi_kubelet_root_dir = codes "/var/lib/kubelet";
  is_operator_hub = false;
  enable_discover_devices = codes "true";
}

abbrev setup : Setup
setup = record { operator_image = codes "op:1"; poll = λ m. pure tt; differs = λ a b. true }

abbrev owner : Owner
owner = record {
  api_version = codes "topolvm.cybozu.com/v2";
  kind = codes "TopolvmCluster";
  name = codes "c1";
  uid = codes "u1";
}

abbrev blank : Text → NodeStorageState
blank node = record { node = node; phase = []; fail_classes = []; success_classes = []; loops = [] }

abbrev cluster : Text → ℕ → TopolvmCluster
cluster name created = record {
  name = name;
  kind = codes "TopolvmCluster";
  uid = codes "u1";
  finalizers = [];
  created = created;
  deleted = false;
  spec = record {
    topolvm_version = codes "topolvm:1";
    certs_secret = [];
    storage = record {
      device_classes = none;
      use_all_nodes = false;
      use_all_devices = false;
      devices = none;
      volume_group_name = [];
      class_name = [];
      use_loop = false;
    };
  };
  status = record { phase = []; node_storage_status = blank (codes "n1") ∷ [] };
}

remove-exact_example :
    remove (codes "a" ∷ codes "b" ∷ codes "c" ∷ []) (codes "b") ≡ some (codes "a" ∷ codes "c" ∷ [])
unfolding topolvm_operator.Operator.Finalizers.contains same
remove-exact_example = remove-exact (codes "a" ∷ []) (codes "c" ∷ []) (codes "b") refl refl

move_deployment-get_deployment_example :
    move_deployment
      (codes "/data")
      (Node.get_deployment globals (codes "d1") (codes "n1") (codes "m1") owner)
    ≡ some (
        Node.get_deployment
          (record globals { csi_kubelet_root_dir = codes "/data" })
          (codes "d1")
          (codes "n1")
          (codes "m1")
          owner)
move_deployment-get_deployment_example =
    move_deployment-get_deployment globals (codes "/data") (codes "d1") (codes "n1") (codes "m1")
      owner

with_state-updates_example :
    ((node : Text)
      → state_of node
          (with_state (blank (codes "n2")) (cluster (codes "c1") 1)).status.node_storage_status
        ≡ (if same (codes "n2") node
            then some (blank (codes "n2"))
            else state_of node (blank (codes "n1") ∷ [])))
    × (distinct
          (with_state (blank (codes "n2")) (cluster (codes "c1") 1)).status.node_storage_status
        ≡ true)
with_state-updates_example = with_state-updates (blank (codes "n2")) (cluster (codes "c1") 1) refl

abbrev two_clusters : Env
two_clusters = kube_world (record no_objects {
  listed_clusters = ok (some (cluster (codes "c2") 5 ∷ cluster (codes "c1") 3 ∷ []));
})

abbrev for_c2 : Request
for_c2 = record { namespace = codes "ns"; name = codes "c2" }

reconcile-serves_oldest_example :
    IsLeast (cluster (codes "c1") 3) (cluster (codes "c2") 5 ∷ cluster (codes "c1") 3 ∷ [])
    × (reconcile setup (fresh globals) for_c2 two_clusters []
        ≡ (ok (fresh globals, none), list_objects topolvm_cluster [] ∷ []))
unfolding oldest same
reconcile-serves_oldest_example =
    reconcile-serves_oldest setup (fresh globals) for_c2 two_clusters [] (cluster (codes "c2") 5)
      (cluster (codes "c1") 3) [] refl refl refl

-- A call that sets up the only cluster.
abbrev one_cluster : Env
one_cluster = kube_world (record no_objects {
  listed_clusters = ok (some (cluster (codes "c1") 3 ∷ []));
  found_cluster = λ name. ok (cluster (codes "c1") 3);
})

abbrev for_c1 : Request
for_c1 = record { namespace = codes "ns"; name = codes "c1" }

abbrev served : Reconciler
served = record {
  globals = record globals { cluster_name = codes "c1"; topolvm_image = codes "topolvm:1" };
  namespaced_name = some (codes "c1");
  last_cluster = some (record (cluster (codes "c1") 3) {
    finalizers = codes "topolvmcluster.topolvm.cybozu.com" ∷ [];
  });
  cluster_ref = some owner;
  config_map_ref = some owner;
  stop = made;
}

serves : (reconcile setup (fresh globals) for_c1 one_cluster []).0 ≡ ok (served, none)
unfolding reconcile same topolvm_operator.Operator.Reconcile.reconcile_listed
    topolvm_operator.Operator.Reconcile.is_rejected
    topolvm_operator.Operator.Reconcile.reconcile_only
    topolvm_operator.Operator.Reconcile.reconcile_found topolvm_operator.Operator.Reconcile.set_up
    topolvm_operator.Operator.Reconcile.set_up_checked
    topolvm_operator.Operator.Reconcile.start_config_maps
    topolvm_operator.Operator.Reconcile.start_checker topolvm_operator.Operator.Reconcile.named
    topolvm_operator.Operator.Finalizers.add_finalizer_if_not_present
    topolvm_operator.Operator.Finalizers.contains
    topolvm_operator.Operator.Finalizers.get_controller_object_owner_reference
    topolvm_operator.Operator.Finalizers.build_finalizer_name
    topolvm_operator.Operator.Cluster.Config.check_storage_config
    topolvm_operator.Operator.Cluster.Config.same_storage topolvm_operator.Operator.Cluster.on_add
    topolvm_operator.Operator.Cluster.start_prepare_volume_group_job
    topolvm_operator.Operator.Cluster.run_jobs topolvm_operator.Operator.Cluster.names_of
    topolvm_operator.Operator.Cluster.start_topolvm_controller_deployment
    topolvm_operator.Operator.Cluster.create_replace_controller_deployment
    topolvm_operator.Operator.Cluster.create_controller_deployment
    topolvm_operator.Operator.Cluster.start_replace_node_deployment
    topolvm_operator.Operator.Cluster.replace_images
    topolvm_operator.Operator.Daemon.check_update_discover_daemon_set
    topolvm_operator.Manifests.Controller.get_deployment
    topolvm_operator.Util.create_or_update_deployment Env.spawn Env.api_write
    topolvm_operator.Go.Strings.to_lower
serves = refl

reachable-IsReady_example : IsReady served
reachable-IsReady_example =
    reachable-IsReady setup globals served (next here (call for_c1 one_cluster [] none serves))

abbrev after_deletion : Reconciler
after_deletion = record served { stop = closed }

ends : (delete_cluster served (codes "c1") one_cluster []).0 ≡ ok (after_deletion, none)
unfolding delete_cluster topolvm_operator.Operator.Reconcile.remove_finalizer_of
    topolvm_operator.Operator.Finalizers.remove_finalizer
    topolvm_operator.Operator.Reconcile.remove_node_capacity_annotations
    topolvm_operator.Operator.Reconcile.strip_nodes
    topolvm_operator.Operator.Volumes.delete_topolvm_csi_driver Env.api_write
    topolvm_operator.Operator.Reconcile.close_stop
ends = refl

delete_cluster-needs_checker_example : served.stop ≡ made
delete_cluster-needs_checker_example =
    delete_cluster-needs_checker served after_deletion (codes "c1") one_cluster [] ends

abbrev config_map : Text → ConfigMap
config_map text = record {
  name = codes "lvmdconfig-n1";
  namespace = codes "ns";
  labels = [];
  annotations = [];
  owners = none;
  data_map = (vg_status_config_map_key, text) ∷ [];
}

abbrev no_classes : Classes
no_classes = record { suc = []; failed = [] }

-- The job writes the name of its node for a state, and the operator reads it so.
abbrev reader : Env
reader = record one_cluster { unmarshal_state = λ text. ok (blank text) }

writes :
    (update_vg_status
      (config_map (codes "old"))
      (blank (codes "n1"))
      no_classes
      []
      two_clusters
      []).0
    ≡ ok (config_map (codes "n1"), blank (codes "n1"))
unfolding update_vg_status Env.range topolvm_operator.Base.Maps.insert
    topolvm_operator.PrepareVg.Conf.values_at same topolvm_operator.Base.Maps.keys
writes = refl

reads :
    (text : Text)
    → ok (codes "n1") ≡ ok text
    → reader.unmarshal_state text ≡ ok (blank (codes "n1"))
reads text p = ap (λ x. ok (blank x)) (sym (ok-injective p))

update_vg_status-update_cluster_status_example :
    update_cluster_status served (config_map (codes "n1")) reader []
    ≡ (ok tt, [] ++ stored (codes "c1") (blank (codes "n1")) (cluster (codes "c1") 3))
update_vg_status-update_cluster_status_example =
    update_vg_status-update_cluster_status (config_map (codes "old")) (config_map (codes "n1"))
      (blank (codes "n1")) (blank (codes "n1")) no_classes [] two_clusters reader [] [] served
      (codes "c1") (cluster (codes "c1") 3) writes reads refl refl refl
