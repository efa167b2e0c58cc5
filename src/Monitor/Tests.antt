-- ===== src/Monitor/Tests.antt =====
-- A node with a running pod and a class that failed.
use topolvm_operator.Base.{◌≡◌, refl, true, false, none, [], ◌∷◌, All, inl}
use topolvm_operator.Base.Text.{Text, codes, same}
use topolvm_operator.Base.Maps.{insert, lookup, keys}
use topolvm_operator.Api.{NodeStorageState, ClusterStatus, condition_ready, condition_failure}
use topolvm_operator.Monitor.{
  Pod, Conditions, node_ready, state_of, with_classes, finish, check_status, put_nodes, put_node,
  put_pods, has_pod, pod_phase, known_phase, merge, merge_node, set_phase,
}
use topolvm_operator.Monitor.Covered.{listed, check_status-lists_nodes}
use topolvm_operator.Monitor.Phases.{
  IsBacked, check_status-All-IsBacked, finish-ready_without_nodes,
}

abbrev n1 : Text
n1 = codes "n1"

abbrev running : Pod
running = record { node_name = n1; phase = codes "Running"; ready = true ∷ [] }

abbrev no_conditions : Conditions
no_conditions n = none

abbrev old : ClusterStatus
old = record { phase = condition_failure; node_storage_status = [] }

-- The node fails, and the cluster is ready.
ready_cluster :
    check_status (n1 ∷ []) (running ∷ []) no_conditions (λ ks. ks) old
    ≡ record { phase = condition_ready; node_storage_status = state_of n1 condition_failure ∷ [] }
unfolding check_status put_nodes put_node put_pods has_pod pod_phase known_phase merge merge_node
    set_phase finish with_classes node_ready state_of insert lookup keys same
ready_cluster = refl

check_status-All-IsBacked_example :
    All IsBacked
      (check_status (n1 ∷ []) (running ∷ []) no_conditions (λ ks. ks) old).node_storage_status
check_status-All-IsBacked_example =
    check_status-All-IsBacked (n1 ∷ []) (running ∷ []) no_conditions (λ ks. ks) old

abbrev waiting : NodeStorageState
waiting = record {
  node = n1;
  phase = condition_ready;
  fail_classes = [];
  success_classes = [];
  loops = [];
}

no_class : node_ready waiting ≡ false
unfolding node_ready
no_class = refl

finish-ready_without_nodes_example :
    ((finish (waiting ∷ [])).phase ≡ condition_ready)
    × All
        (λ (n : NodeStorageState). n.phase ≡ condition_failure)
        (finish (waiting ∷ [])).node_storage_status
finish-ready_without_nodes_example =
    finish-ready_without_nodes (waiting ∷ []) waiting (no_class, tt) (inl refl) refl

check_status-lists_nodes_example :
    All
      (λ n.
        listed n
          (check_status
            (n1 ∷ codes "n2" ∷ [])
            (running ∷ [])
            no_conditions
            (λ ks. ks)
            old).node_storage_status
        ≡ true)
      (n1 ∷ codes "n2" ∷ [])
check_status-lists_nodes_example =
    check_status-lists_nodes (n1 ∷ codes "n2" ∷ []) (running ∷ []) no_conditions (λ ks. ks) old
      (λ ks k h. h)
